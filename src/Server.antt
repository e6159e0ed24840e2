-- ===== src/Server.antt =====
-- internal/server: who may call the RPC interface, and what it lets into the table of pools.
pub mod Auth
pub mod Pools
