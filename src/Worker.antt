-- ===== src/Worker.antt =====
-- The worker node: src/oumigo/service/worker/.
pub mod Ports
pub mod Coordinator
pub mod Metrics
mod Tests
