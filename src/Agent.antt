-- ===== src/Agent.antt =====
-- The agents of the client library: src/oumigo/api/agent/.
pub mod Turn
pub mod Tools
pub mod Chat
pub mod History
pub mod Guarded
