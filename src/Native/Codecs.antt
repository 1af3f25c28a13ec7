-- ===== src/Native/Codecs.antt =====
-- native/codecs/: the codecs that are modelled.
pub mod Numeric
pub mod Nullable
pub mod Array
pub mod Map
pub mod Tuple
pub mod Text
pub mod Fixed
pub mod BigInt
pub mod Decimal
