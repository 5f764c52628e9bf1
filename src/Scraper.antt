-- ===== src/Scraper.antt =====
-- internal/scraper: how the vendors' price lists become products.
pub mod Hash
pub mod Keyed
pub mod Order
pub mod Fetch
pub mod Group
pub mod Attributes
pub mod Azure
pub mod Aws
pub mod Gcp
mod Tests
