-- ===== src/Native/Codec.antt =====
-- native/codecs/base.ts: the interface of a codec, as far as blocks use it.
pub mod Offsets
pub mod Parts
use chwire.Prelude.{ℕ, ◌≡◌, List, ◌==◌, if◌then◌else◌}
use chwire.Prelude.Result.{Result, good}
use chwire.Prelude.Outcome.{Exec, return}
use chwire.Io.Writer.{BufferWriter}
use chwire.Io.Writer.Contents.{IsValid, Appends}
use chwire.Io.Reader.{BufferReader}
use chwire.Io.Reader.Decodes.{Decodes}
use chwire.Native.Serialization.{SerializationNode, DeserializerState, default_deserializer_state}
use chwire.Native.Column.{Column, column_length}

-- The methods of an object of the source's interface of this name.
pub record Codec : Type 0 where
  pub write_prefix : Column → BufferWriter → Result BufferWriter
  pub encode : Column → ℕ → Result (List ℕ)
  pub estimate_size : ℕ → ℕ
  pub read_prefix : DeserializerState → Exec BufferReader (Unit {0})
  pub decode : ℕ → DeserializerState → Exec BufferReader Column
  pub read_kinds : Exec BufferReader SerializationNode

-- BaseCodec's methods for a type that has no prefix
abbrev pub no_write_prefix : Column → BufferWriter → Result BufferWriter
no_write_prefix col w = good w

abbrev pub no_read_prefix : DeserializerState → Exec BufferReader (Unit {0})
no_read_prefix state = return tt

-- What a codec owes the blocks that use it: a column that it encodes, it decodes again, from exactly
-- the bytes that it wrote.
pub record RoundTrips (c : Codec) (col : Column) : Type 0 where
  pub prefix : List ℕ
  pub content : List ℕ
  pub writes :
      (w : BufferWriter)
      → IsValid w
      → (w' : BufferWriter) × (c.write_prefix col w ≡ good w') × Appends w prefix w'
  pub encodes : (hint : ℕ) → c.encode col hint ≡ good content
  pub reads_prefix : Decodes (c.read_prefix default_deserializer_state) prefix tt
  pub decodes : Decodes (c.decode (column_length col) default_deserializer_state) content col
