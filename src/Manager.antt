-- ===== src/Manager.antt =====
-- The manager: src/oumigo/service/manager/.
pub mod Credentials
pub mod Access
pub mod Store
pub mod Control
pub mod Tunnel
pub mod Tunnels
mod Tests
