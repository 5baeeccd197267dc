-- ===== src/Router.antt =====
-- The data-plane router: src/oumigo/service/manager/router/.
pub mod Pool
pub mod Shaping
pub mod Forward
