-- ===== src/Kernel.antt =====
-- The kernel.
pub mod Session
pub mod Routing
pub mod Socks
pub mod Inbound
pub mod Dns
pub mod Resolver
pub mod Hysteria2
pub mod AnyTls
pub mod Vless
