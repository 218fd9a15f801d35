-- ===== src/Core.antt =====
-- src/core: hexadecimal text (hex.c) and Keccak-256 (keccak.c).
pub mod Hex
pub mod Decimal
pub mod Keccak
pub mod Radix
pub mod Scan
pub mod Config
