-- ===== src/Provider.antt =====
-- internal/provider: the HTTP transport and the scan of container specs for credentials.
pub mod RateLimit
pub mod Segregation
