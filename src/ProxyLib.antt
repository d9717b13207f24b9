-- ===== src/ProxyLib.antt =====
-- proxy/lib: the volunteer proxies.
pub mod RelayUrl
pub mod Signaling
pub mod Session
