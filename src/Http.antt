-- ===== src/Http.antt =====
-- The parts of backend/server.ts that are modelled.
pub mod Replay
pub mod Once
