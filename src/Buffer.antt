-- ===== src/Buffer.antt =====
-- The buffer layer: minisql/src/buffer and minisql/src/include/buffer.
pub mod Replacer
pub mod Lru
pub mod Pool
