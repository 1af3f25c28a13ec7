-- ===== src/Io.antt =====
-- native/io.ts: variable-length integers, text, the buffer writer and reader, and the block buffer.
pub mod VarInt
pub mod Utf8
pub mod Words
pub mod Writer
pub mod Reader
pub mod BlockBuffer
