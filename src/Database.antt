-- ===== src/Database.antt =====
-- internal/db: the parts with logic of their own. The generated queries are parameters.
pub mod Crypto
