-- ===== src/ClientLib.antt =====
-- The library of the client (client/lib).
pub mod Peers
pub mod Rendezvous
