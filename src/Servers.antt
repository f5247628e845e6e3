-- ===== src/Servers.antt =====
-- Known servers and their health, network/server_list.rs.
pub mod Health
pub mod List
