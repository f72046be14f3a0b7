-- ===== src/Std.antt =====
-- What the code uses of Rust's standard library: bytes and big-endian words, text as UTF-8 bytes,
-- numbers in text, and the addresses of `std::net`.
pub mod Bytes
pub mod Text
pub mod Number
pub mod Net
pub mod Map
