-- ===== src/Db.antt =====
-- internal/db: the products data model, the query builder, price filters, regex matching and
-- the statements that write products.
pub mod Types
pub mod Pattern
pub mod Prices
pub mod Query
pub mod Regex
pub mod Store
pub mod Runs
pub mod Snapshots
mod Tests
