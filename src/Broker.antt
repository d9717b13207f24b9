-- ===== src/Broker.antt =====
-- The broker (broker/): the parts that match clients and proxies.
pub mod SnowflakeHeap
pub mod BridgeList
pub mod Context
pub mod Exchange
pub mod Ipc
pub mod Http
pub mod Amp
