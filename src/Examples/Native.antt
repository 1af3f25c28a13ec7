-- ===== src/Examples/Native.antt =====
-- The theorems on blocks and codecs at concrete inputs.
use chwire.Prelude.{
  ℕ, ◌≡◌, refl, List, [], ◌∷◌, ◌++◌, length, drop, map, none, some, arith, true, false,
}
use chwire.Prelude.Text.{codes}
use chwire.Prelude.Result.{Result, good, bad, plain_error}
use chwire.Io.Reader.{
  BufferReader, read_varint, read_string, read_bytes, read_typed_array, ensure_available,
  next_bytes, decode_next, elements,
}
use chwire.Io.VarInt.{read_var_int, read_loop}
use chwire.Io.Utf8.{decode_utf8_slice, ascii_loop}
use chwire.Io.Words.{le_value}
use chwire.Native.Sparse.{decode}
use chwire.Io.Reader.Reads.{advance}
use chwire.Io.Reader.Decodes.{Inside, Decodes, as_bytes}
use chwire.Native.Serialization.{Nodes, node, sparse}
use chwire.Native.Column.{
  Column, nil, cons, typed, boxed, array, map_column, tuple, text, column_length, first_length,
}
use chwire.Native.Codec.{Codec, RoundTrips}
use chwire.Native.Codec.Parts.{Fill}
use chwire.Native.Codec.Offsets.{AreOffsets}
use chwire.Native.Codecs.Numeric.{
  numeric_codec, numeric_codec-RoundTrips, numeric_codec-Decodes, numeric_codec-StableCodec,
}
use chwire.Native.Codecs.Array.{array_codec, array_codec-RoundTrips}
use chwire.Native.Codecs.Map.{map_codec, map_codec-RoundTrips}
use chwire.Native.Codecs.Tuple.{Element, tuple_codec, tuple_codec-RoundTrips, no_elements, element}
use chwire.Native.Codecs.Text.{string_codec, string_codec-RoundTrips, Coercion}
use chwire.Native.Sparse.Expand.{offset_bytes}
use chwire.Native.Sparse.Stable.{StableCodec}
use chwire.Native.Block.{
  ColumnDef, Decoder, PartialBlockState, decoded, block_underflow, column_loop, after_header,
  header, block_info, read_column, data_of, serialization, after_column,
  decode_native_block_with_reader,
}
use chwire.Native.Block.Resume.{decode_native_block_with_reader-Resumes, Resumes}
use chwire.Native.Encode.{Encoder, encode_native}
use chwire.Native.Encode.Bytes.{BatchRoundTrips, no_columns, column}
use chwire.Native.Encode.RoundTrip.{encode_native-decode_native_block_with_reader, decoder_of}
use chwire.Native.TypeName.{parse_type_list, extract_type_args, open_paren, close_paren}
use chwire.Native.TypeName.Lists.{join, Without, parse_type_list-join, extract_type_args-join}
use chwire.Prelude.Scan.{trim, trim_start, trim_end}
use chwire.Native.Registry
use chwire.Native.Registry.{Entry, get}
use chwire.Native.Registry.Cache.{IsCache, get_codec-IsCache}
use chwire.Io.Reader.Stable.{state_of, extend}
use chwire.Native.Block.Extend.{IsDecided, extend_decoded, decode_native_block_with_reader-extend}
use chwire.Prelude.Outcome.{Exec, ok}
use chwire.Compression.{equals}
use chwire.Native.Sparse.{
  SparseOffsets, no_runtime, sparse_offsets, offsets_loop, begin, sparse_round, after_round, is_end,
  without_end, start_of_group,
}
use chwire.Native.Sparse.Bounds.{WellPlaced, sparse_offsets-WellPlaced}
use chwire.Io.Reader.{read_varint64}
use chwire.Io.VarInt.{read_var_int64, read_loop64}
use chwire.Examples.Platform.{ascii}

abbrev no_fill : Fill
no_fill = record { zeros = λ rows. bad plain_error; spread = λ rows indices col. bad plain_error }

abbrev pub uint8 : List ℕ
uint8 = codes "UInt8"

abbrev uint8_codec : Codec
uint8_codec = numeric_codec uint8 1 (λ col. bad plain_error)

abbrev pub numbers : List ℕ → Column
numbers words = typed uint8 1 words

-- Zeros among the words
numeric_codec-Decodes_example :
    Decodes
      (uint8_codec.decode 5 (record { serialization_node = node sparse Nodes.none }))
      (offset_bytes 0 (0 ∷ 0 ∷ 7 ∷ 0 ∷ 9 ∷ []) ++ as_bytes 1 (7 ∷ 9 ∷ []))
      (numbers (0 ∷ 0 ∷ 7 ∷ 0 ∷ 9 ∷ []))
numeric_codec-Decodes_example =
    numeric_codec-Decodes uint8 1 (λ col. bad plain_error) (0 ∷ 0 ∷ 7 ∷ 0 ∷ 9 ∷ []) Nodes.none
      (ground arith) (omega arith)

two_numbers-RoundTrips : RoundTrips uint8_codec (numbers (4 ∷ 250 ∷ []))
two_numbers-RoundTrips =
    numeric_codec-RoundTrips uint8 1 (λ col. bad plain_error) (4 ∷ 250 ∷ []) (ground arith)

two_offsets : AreOffsets (0 ∷ 2 ∷ 2 ∷ []) 2
two_offsets = record { words = ground arith; ends = refl; safe = omega arith }

-- Three arrays, of which two are empty
array_codec-RoundTrips_example :
    RoundTrips
      (array_codec no_fill (codes "Array(UInt8)") uint8_codec)
      (array (codes "Array(UInt8)") (0 ∷ 2 ∷ 2 ∷ []) (numbers (4 ∷ 250 ∷ [])))
unfolding column_length
array_codec-RoundTrips_example =
    array_codec-RoundTrips no_fill (codes "Array(UInt8)") uint8_codec (0 ∷ 2 ∷ 2 ∷ [])
      (numbers (4 ∷ 250 ∷ [])) two_offsets two_numbers-RoundTrips

map_codec-RoundTrips_example :
    RoundTrips (map_codec no_fill true (codes "Map(UInt8, UInt8)") uint8_codec uint8_codec) (
      map_column
        (codes "Map(UInt8, UInt8)")
        (0 ∷ 2 ∷ 2 ∷ [])
        (numbers (4 ∷ 250 ∷ []))
        (numbers (4 ∷ 250 ∷ []))
        true)
unfolding column_length
map_codec-RoundTrips_example =
    map_codec-RoundTrips no_fill true (codes "Map(UInt8, UInt8)") uint8_codec uint8_codec
      (0 ∷ 2 ∷ 2 ∷ []) (numbers (4 ∷ 250 ∷ [])) (numbers (4 ∷ 250 ∷ [])) two_offsets refl
      two_numbers-RoundTrips two_numbers-RoundTrips

abbrev two_elements : List Element
two_elements =
    record { name = some (codes "a"); codec = uint8_codec }
    ∷ record { name = some (codes "b"); codec = uint8_codec }
    ∷ []

tuple_codec-RoundTrips_example :
    RoundTrips (tuple_codec no_fill (codes "Tuple(a UInt8, b UInt8)") two_elements true) (
      tuple
        (codes "Tuple(a UInt8, b UInt8)")
        (some (codes "a") ∷ some (codes "b") ∷ [])
        (cons (numbers (4 ∷ 250 ∷ [])) (cons (numbers (4 ∷ 250 ∷ [])) nil))
        true)
unfolding column_length first_length tuple_codec
tuple_codec-RoundTrips_example =
    tuple_codec-RoundTrips no_fill (codes "Tuple(a UInt8, b UInt8)") two_elements true
      (cons (numbers (4 ∷ 250 ∷ [])) (cons (numbers (4 ∷ 250 ∷ [])) nil))
      (element _ _ _ _ refl two_numbers-RoundTrips
        (element _ _ _ _ refl two_numbers-RoundTrips no_elements))

abbrev no_coercion : Coercion
no_coercion = record { coerce_to_string = λ v. bad plain_error; coerced = λ col. bad plain_error }

string_codec-RoundTrips_example :
    RoundTrips
      (string_codec ascii no_coercion)
      (boxed (codes "String") (map text (codes "ab" ∷ [] ∷ [])))
string_codec-RoundTrips_example =
    string_codec-RoundTrips ascii no_coercion (codes "ab" ∷ [] ∷ []) (ground arith)

abbrev get_codec : List ℕ → Result Codec
get_codec type = good uint8_codec

abbrev encoder : Encoder
encoder = record { utf8 = ascii; get_codec = get_codec; capacity = λ n. n }

abbrev id_column : ColumnDef
id_column = record { name = codes "id"; type = uint8 }

two_rows-BatchRoundTrips :
    (bytes : List ℕ) × BatchRoundTrips encoder 2
      (id_column ∷ [])
      (numbers (4 ∷ 250 ∷ []) ∷ [])
      bytes
unfolding column_length
two_rows-BatchRoundTrips = (
  _,
  column id_column [] uint8_codec (numbers (4 ∷ 250 ∷ [])) [] [] refl (ground arith) (ground arith)
      refl two_numbers-RoundTrips no_columns,
)

encode_native-decode_native_block_with_reader_example :
    (encoded : List ℕ) × (encode_native encoder (record {
      columns = id_column ∷ [];
      column_data = numbers (4 ∷ 250 ∷ []) ∷ [];
      row_count = 2;
    })
      ≡ good encoded)
    × ((r : BufferReader) (rest : List ℕ)
        → Inside r
        → drop r.offset r.buffer ≡ encoded ++ rest
        → decode_native_block_with_reader (decoder_of encoder) none r
          ≡ decoded
              (record {
                columns = id_column ∷ [];
                column_data = numbers (4 ∷ 250 ∷ []) ∷ [];
                row_count = 2;
                bytes_consumed = length encoded;
                is_end_marker = false;
              })
              (advance (length encoded) r))
encode_native-decode_native_block_with_reader_example =
    encode_native-decode_native_block_with_reader encoder 1 (two_rows-BatchRoundTrips.1)
      (omega arith) (omega arith)

abbrev pub decoder : Decoder
decoder = record { utf8 = ascii; get_codec = get_codec; client_version = 0 }

pub uint8_codec-StableCodec :
    (type : List ℕ) (c : Codec) → decoder.get_codec type ≡ good c → StableCodec c
uint8_codec-StableCodec type c e =
    let same : uint8_codec ≡ c = cc e in
    rw (← same) (numeric_codec-StableCodec uint8 1 (λ col. bad plain_error))

-- Two columns are announced; the bytes end inside the second, with one of its two rows.
abbrev pub cut_off : BufferReader
cut_off = record {
  buffer =
      2 ∷ 2 ∷ 1 ∷ 97 ∷ 5 ∷ 85 ∷ 73 ∷ 110 ∷ 116 ∷ 56 ∷ 4 ∷ 250 ∷ 1 ∷ 98 ∷ 5 ∷ 85 ∷ 73 ∷ 110 ∷ 116
      ∷ 56 ∷ 7 ∷ [];
  offset = 0;
}

abbrev pub first_column : PartialBlockState
first_column = record {
  columns = record { name = codes "a"; type = uint8 } ∷ [];
  column_data = numbers (4 ∷ 250 ∷ []) ∷ [];
  num_cols = 2;
  num_rows = 2;
  next_col_index = 1;
  resume_offset = 12;
  start_offset = 0;
}

breaks_off :
    decode_native_block_with_reader decoder none cut_off
    ≡ block_underflow first_column (record cut_off { offset = 12 })
unfolding decode_native_block_with_reader column_loop after_header header block_info read_column
    data_of serialization after_column numeric_codec read_varint read_string read_bytes
    read_typed_array ensure_available read_var_int read_loop next_bytes decode_next elements
    decode_utf8_slice ascii_loop le_value decode
breaks_off = refl

decode_native_block_with_reader-Resumes_example :
    Resumes decoder uint8_codec-StableCodec
      (decode_native_block_with_reader decoder none)
      cut_off
      first_column
      (record cut_off { offset = 12 })
decode_native_block_with_reader-Resumes_example =
    decode_native_block_with_reader-Resumes decoder uint8_codec-StableCodec none cut_off
      (record cut_off { offset = 12 }) first_column tt breaks_off

-- One column, and a byte behind it
abbrev one_column : BufferReader
one_column = record {
  buffer = 1 ∷ 2 ∷ 1 ∷ 97 ∷ 5 ∷ 85 ∷ 73 ∷ 110 ∷ 116 ∷ 56 ∷ 4 ∷ 250 ∷ [];
  offset = 0;
}

one_column-IsDecided : IsDecided (decode_native_block_with_reader decoder none one_column)
unfolding decode_native_block_with_reader column_loop after_header header block_info read_column
    data_of serialization after_column numeric_codec read_varint read_string read_bytes
    read_typed_array ensure_available read_var_int read_loop next_bytes decode_next elements
    decode_utf8_slice ascii_loop le_value decode
one_column-IsDecided = tt

decode_native_block_with_reader-extend_example :
    decode_native_block_with_reader decoder none (extend (7 ∷ []) one_column)
    ≡ extend_decoded (7 ∷ []) (decode_native_block_with_reader decoder none one_column)
decode_native_block_with_reader-extend_example =
    decode_native_block_with_reader-extend decoder uint8_codec-StableCodec none one_column (7 ∷ [])
      one_column-IsDecided

-- "Array(A, B), C"
parse_type_list-join_example :
    parse_type_list (join (codes "Array(A, B)") (codes "C" ∷ []))
    ≡ codes "Array(A, B)" ∷ codes "C" ∷ []
unfolding trim trim_start trim_end
parse_type_list-join_example =
    parse_type_list-join (codes "Array(A, B)") (codes "C" ∷ []) (refl, refl, cc)
      ((refl, refl, cc), tt)

-- "Array(X)", and "Array(X", which is cut to "Array("
extract_type_args-join_example :
    ((args : List ℕ)
      → extract_type_args (codes "Array" ++ open_paren ∷ (args ++ close_paren ∷ [])) ≡ args)
    × ((rest : List ℕ)
        → Without close_paren (codes "Array" ++ open_paren ∷ rest)
        → extract_type_args (codes "Array" ++ open_paren ∷ rest) ≡ codes "Array" ++ open_paren ∷ [])
extract_type_args-join_example = extract_type_args-join (codes "Array") (ground arith)

abbrev created : List ℕ → Exec (List (Entry ℕ)) ℕ
created type cache = ok (length type) cache

abbrev cache_of_two : List (Entry ℕ)
cache_of_two =
    record { key = codes "Date"; value = 4 } ∷ record { key = codes "UInt8"; value = 5 } ∷ []

get_codec-IsCache_example :
    IsCache (state_of (Registry.get_codec created (codes "Date") cache_of_two))
    × ((c : ℕ) (after : List (Entry ℕ))
        → Registry.get_codec created (codes "Date") cache_of_two ≡ ok c after
        → get (codes "Date") after ≡ some c)
    × ((c : ℕ)
        → get (codes "Date") cache_of_two ≡ some c
        → (after : List (Entry ℕ)) × (Registry.get_codec created (codes "Date") cache_of_two
            ≡ ok c after))
unfolding get equals
get_codec-IsCache_example =
    get_codec-IsCache created (λ type cache h. h) (codes "Date") cache_of_two
      (record { unique = (refl, (refl, tt)); limited = omega arith })

-- Two zeros, a value, a zero, a value, and the end
abbrev offsets_stream : BufferReader
offsets_stream = record {
  buffer = 2 ∷ 1 ∷ 128 ∷ 128 ∷ 128 ∷ 128 ∷ 128 ∷ 128 ∷ 128 ∷ 128 ∷ 64 ∷ [];
  offset = 0;
}

abbrev two_places : SparseOffsets
two_places = (
  record {
    indices = 2 ∷ 4 ∷ [];
    total_rows = 5;
    read_offset = 0;
    skipped_values_rows = 0;
    is_first_value = false;
  },
  no_runtime,
)

two_places_read :
    sparse_offsets 5 no_runtime offsets_stream
    ≡ ok two_places (record offsets_stream { offset = 11 })
unfolding sparse_offsets offsets_loop begin sparse_round after_round is_end without_end
    start_of_group read_varint64 read_var_int64 read_loop64
two_places_read = refl

sparse_offsets-WellPlaced_example : WellPlaced 5 (two_places.0)
sparse_offsets-WellPlaced_example =
    sparse_offsets-WellPlaced 5 offsets_stream two_places (record offsets_stream { offset = 11 })
      two_places_read
