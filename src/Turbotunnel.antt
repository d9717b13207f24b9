-- ===== src/Turbotunnel.antt =====
-- common/turbotunnel: packets in queues, one for each client that was seen lately.
pub mod ClientMap
pub mod QueuePacketConn
