-- ===== src/ServerLib.antt =====
-- The server library (server/lib).
pub mod ClientIdMap
pub mod Http
