-- ===== src/Kernel/Vless.antt =====
-- The VLESS adapter, crates/neoncore-kernel/src/adapter/vless.rs.
pub mod Varint
pub mod Grpc
pub mod Xudp
pub mod Vision
pub mod Request
pub mod Xmux
pub mod Config
pub mod RecordLimit
