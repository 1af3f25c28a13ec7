-- ===== src/Examples.antt =====
-- The theorems at concrete inputs, and the platform they run on there.
pub mod Platform
mod Io
mod Compression
mod Tcp
mod Reader
mod Params
pub mod Native
mod Stream
mod Enum
mod Scalars
mod Framing
