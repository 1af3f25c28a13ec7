-- ===== src/Tcp/Writer.antt =====
-- tcp_client/writer.ts, class StreamingWriter. Its state is that of its BufferWriter. A method is a
-- sequence of writes, each a function on that state, and a flush.
pub mod Fields
pub mod Packets
pub mod Data
use chwire.Prelude.{
  ℕ, ◌+◌, ◌*◌, ◌<◌, ltb, leb, ◌==◌, if◌then◌else◌, Bool, true, false, List, [], ◌∷◌, ◌++◌, length,
  Option, none, some,
}
use chwire.Prelude.Int.{ℤ, negsuc}
use chwire.Prelude.Text.{codes}
use chwire.Prelude.Result.{Result, good, bad}
use chwire.Prelude.Outcome.{Outcome, ok, err}
use chwire.Io.Utf8.{Utf8}
use chwire.Io.Writer.{
  BufferWriter, new, write, write_u8, write_u64_le, write_i32_le, write_varint, write_string, reset,
  finish, default_writer,
}
use chwire.Tcp.ClientPacketId
use chwire.Tcp.Version
use chwire.Tcp.With

-- One write after another.
infixr 20 ◌⨟◌
abbrev pub ◌⨟◌ :
    (BufferWriter → BufferWriter) → (BufferWriter → BufferWriter) → BufferWriter → BufferWriter
◌⨟◌ f g w = g (f w)

abbrev pub skip : BufferWriter → BufferWriter
skip w = w

-- `if (revision >= gate) { ... }`
abbrev pub since : ℕ → ℕ → (BufferWriter → BufferWriter) → BufferWriter → BufferWriter
since gate revision f w = if leb gate revision then f w else w

abbrev pub max_retained_writer_capacity : ℕ
max_retained_writer_capacity = 256 * 1024

-- `flush()`: the bytes and the state after it.
unfoldable pub flush : BufferWriter → List ℕ × BufferWriter
flush w = (finish w, reset max_retained_writer_capacity w)

-- A setting with its value as the string that is sent, and a serialised query parameter, where
-- `none` is SQL_NULL.
abbrev pub Setting : Type 0
Setting = List ℕ × List ℕ

abbrev pub Param : Type 0
Param = List ℕ × Option (List ℕ)

-- `replaceAll` of one character.
unfoldable pub replace_char : ℕ → List ℕ → List ℕ → List ℕ
replace_char c by [] = []
replace_char c by (x ∷ xs) =
    let rest = replace_char c by xs in if x == c then by ++ rest else x ∷ rest

-- `val.replace(/\\/g, "\\\\").replace(/'/g, "\\'")`
unfoldable pub escape_param : List ℕ → List ℕ
unfolding replace_char
escape_param val =
    replace_char b'\'' (b'\\' ∷ b'\'' ∷ []) (replace_char b'\\' (b'\\' ∷ b'\\' ∷ []) val)

-- What is sent for a parameter: its value single-quoted, or `'\\N'` for NULL.
unfoldable pub param_literal : Option (List ℕ) → List ℕ
unfolding escape_param
param_literal none = codes "'\\\\N'"
param_literal (some val) = b'\'' ∷ (escape_param val ++ b'\'' ∷ [])

-- A column that is ready to be sent: its name, its type and its encoded bytes.
pub record EncodedColumn : Type 0 where
  pub name : List ℕ
  pub type : List ℕ
  pub bytes : List ℕ

module _ (u : Utf8) where
  abbrev str : List ℕ → BufferWriter → BufferWriter
  str s = write_string u s

  pub hello_writes : List ℕ → List ℕ → List ℕ → BufferWriter → BufferWriter
  hello_writes database user pass =
      write_varint ClientPacketId.hello
      ⨟ str (codes "chwire-client 0.1.0")
      ⨟ write_varint Version.major
      ⨟ write_varint Version.minor
      ⨟ write_varint Version.tcp_protocol
      ⨟ str database
      ⨟ str user
      ⨟ str pass
      ⨟ skip

  pub encode_hello : List ℕ → List ℕ → List ℕ → BufferWriter → List ℕ × BufferWriter
  unfolding hello_writes flush
  encode_hello database user pass w = flush (hello_writes database user pass w)

  pub addendum_writes : ℕ → BufferWriter → BufferWriter
  addendum_writes revision =
      since With.quota_key revision (str [] ⨟ skip)
      ⨟ since With.chunked_packets revision
          (str (codes "notchunked") ⨟ str (codes "notchunked") ⨟ skip)
      ⨟ since With.versioned_parallel_replicas_protocol revision
          (write_varint Version.parallel_replicas_protocol ⨟ skip)
      ⨟ skip

  pub encode_addendum : ℕ → BufferWriter → List ℕ × BufferWriter
  unfolding addendum_writes flush
  encode_addendum revision w = flush (addendum_writes revision w)

  -- The client info of a query packet. `now` is `Date.now()`.
  pub client_info_writes : List ℕ → ℕ → ℕ → BufferWriter → BufferWriter
  client_info_writes qid revision now =
      write_varint ClientPacketId.query
      ⨟ str qid
      ⨟ write_u8 1
      ⨟ str []
      ⨟ str []
      ⨟ str (codes "0.0.0.0:0")
      ⨟ since With.initial_query_start_time revision (write_u64_le (now * 1000) ⨟ skip)
      ⨟ write_u8 1
      ⨟ str (codes "chwire-client")
      ⨟ str (codes "localhost")
      ⨟ str (codes "ClickHouse")
      ⨟ write_varint Version.major
      ⨟ write_varint Version.minor
      ⨟ write_varint Version.tcp_protocol
      ⨟ since With.quota_key_in_client_info revision (str [] ⨟ skip)
      ⨟ since With.distributed_depth revision (write_varint 1 ⨟ skip)
      ⨟ since With.version_patch revision (write_varint 0 ⨟ skip)
      ⨟ since With.opentelemetry revision (write_u8 0 ⨟ skip)
      ⨟ since With.parallel_replicas revision
          (write_varint 0 ⨟ write_varint 0 ⨟ write_varint 0 ⨟ skip)
      ⨟ since With.query_and_line_numbers revision (write_varint 0 ⨟ write_varint 0 ⨟ skip)
      ⨟ since With.jwt_in_interserver revision (write_u8 0 ⨟ skip)
      ⨟ skip

  -- The loop over the settings.
  pub settings_writes : ℕ → List Setting → BufferWriter → BufferWriter
  settings_writes revision [] = skip
  settings_writes revision ((key, val) ∷ settings) =
      str key
      ⨟ since With.settings_serialized_as_strings revision (write_varint 0 ⨟ skip)
      ⨟ str val
      ⨟ settings_writes revision settings

  pub stage_writes : ℕ → Bool → List ℕ → BufferWriter → BufferWriter
  stage_writes revision compression text =
      str []
      ⨟ since With.externally_granted_roles revision (str [] ⨟ skip)
      ⨟ since With.interserver_secret revision (str [] ⨟ skip)
      ⨟ write_varint 2
      ⨟ write_varint (if compression then 1 else 0)
      ⨟ str text
      ⨟ skip

  pub params_writes : List Param → BufferWriter → BufferWriter
  params_writes [] = str [] ⨟ skip
  params_writes ((key, val) ∷ params) =
      str key ⨟ write_varint 2 ⨟ str (param_literal val) ⨟ params_writes params

  -- What `encodeQuery` has written when it comes to the parameters.
  pub query_writes : List ℕ → List ℕ → ℕ → ℕ → List Setting → Bool → BufferWriter → BufferWriter
  unfolding client_info_writes settings_writes stage_writes
  query_writes qid text revision now settings compression =
      client_info_writes qid revision now
      ⨟ settings_writes revision settings
      ⨟ stage_writes revision compression text

  -- `encodeQuery`. `serialized` is what `serializeParams` returns or throws; it is called only where
  -- the revision has parameters. A throw leaves the writer as it is then.
  pub encode_query :
      List ℕ
      → List ℕ
      → ℕ
      → ℕ
      → List Setting
      → Bool
      → Result (List Param)
      → BufferWriter
      → Outcome BufferWriter (List ℕ)
  unfolding query_writes flush
  encode_query qid text revision now settings compression serialized w =
      let w' = query_writes qid text revision now settings compression w in
      if leb With.parameters revision
      then elim serialized [
        | good params ↦ ok (finish (params_writes params w')) (flush (params_writes params w')).1
        | bad e ↦ err e w'
      ]
      else ok (finish w') (flush w').1

  pub encode_cancel : BufferWriter → List ℕ × BufferWriter
  unfolding flush
  encode_cancel w = flush (write_varint ClientPacketId.cancel w)

  pub encode_ping : BufferWriter → List ℕ × BufferWriter
  unfolding flush
  encode_ping w = flush (write_varint ClientPacketId.ping w)

  -- `encodeDataBlockContent`: the writes into a writer of its own.
  pub columns_writes : ℕ → List EncodedColumn → BufferWriter → BufferWriter
  columns_writes revision [] = skip
  columns_writes revision (col ∷ columns) =
      str col.name
      ⨟ str col.type
      ⨟ since With.custom_serialization revision (write_u8 0 ⨟ skip)
      ⨟ write col.bytes
      ⨟ columns_writes revision columns

  pub block_writes : ℕ → List EncodedColumn → ℕ → BufferWriter → BufferWriter
  unfolding columns_writes
  block_writes rows_count columns revision =
      since 1 revision (
        write_varint 1
        ⨟ write_u8 0
        ⨟ write_varint 2
        ⨟ write_i32_le (negsuc 0)
        ⨟ write_varint 0
        ⨟ skip)
      ⨟ write_varint (length columns)
      ⨟ write_varint rows_count
      ⨟ columns_writes revision columns

  pub encode_data_block_content : ℕ → List EncodedColumn → ℕ → List ℕ
  unfolding block_writes
  encode_data_block_content rows_count columns revision =
      finish (block_writes rows_count columns revision (new default_writer))

  -- The header that was flushed, with the compressed content behind it.
  pub behind_header : List ℕ × BufferWriter → Result (List ℕ) → Outcome BufferWriter (List ℕ)
  behind_header (header, w) (good compressed) = ok (header ++ compressed) w
  behind_header (header, w) (bad e) = err e w

  -- `encodeData`. `encode` is `encodeBlock` with the compression chosen; it may throw, after the
  -- header was flushed. Without compression the header has a writer of its own.
  pub encode_data :
      List ℕ
      → ℕ
      → List EncodedColumn
      → ℕ
      → Option (List ℕ → Result (List ℕ))
      → BufferWriter
      → Outcome BufferWriter (List ℕ)
  unfolding behind_header encode_data_block_content flush
  encode_data table_name rows_count columns revision (some encode) w =
      behind_header (flush ((write_varint ClientPacketId.block ⨟ str table_name) w))
        (encode (encode_data_block_content rows_count columns revision))
  encode_data table_name rows_count columns revision none w =
      let header = finish ((write_varint ClientPacketId.block ⨟ str table_name) (new 64)) in
      ok (header ++ encode_data_block_content rows_count columns revision) w
