-- ===== src/Tests.antt =====
-- Concrete runs of the definitions, and the theorems at concrete inputs.
mod Std
pub mod Data
mod Packets
mod Sessions
mod Kernel
mod Names
mod Hysteria2
mod AnyTls
mod Inbound
mod Hosts
mod Vless
