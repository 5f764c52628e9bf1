-- ===== src/Graphql.antt =====
-- internal/graphql: the request budget, the filters of a query, and the products resolver.
pub mod Budget
pub mod Value
pub mod Filter
pub mod Resolver
mod Tests
