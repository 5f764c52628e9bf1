-- ===== src/Server.antt =====
-- internal/server: the middleware, the request handlers and the rate limiter of the HTTP server.
pub mod Access
pub mod Catalog
pub mod Document
pub mod Gzip
pub mod Handler
pub mod Inflight
pub mod Limiter
pub mod Middleware
pub mod Recovery
pub mod Status
mod Tests
