-- ===== src/Net.antt =====
-- What guards the listening sockets of phira-mp-plus-server.
pub mod SlidingWindow
pub mod Proxy
