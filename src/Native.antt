-- ===== src/Native.antt =====
-- The Native format (native/): columns, the codecs of their types, and the blocks they come in.
pub mod Serialization
pub mod Column
pub mod Codec
pub mod Sparse
pub mod Codecs
pub mod Block
pub mod Encode
pub mod TypeName
pub mod Registry
pub mod Stream
pub mod Literal
pub mod Enum
