-- ===== src/Examples/Tcp.antt =====
-- tcp_client/writer.ts at concrete inputs.
use chwire.Prelude.{◌≡◌, refl, true, List, [], ◌∷◌, ◌++◌, replicate, none, some, All, arith}
use chwire.Prelude.Int.{negsuc}
use chwire.Prelude.Text.{codes}
use chwire.Prelude.Result.{good, bad, type_error}
use chwire.Prelude.Outcome.{ok, err}
use chwire.Io.VarInt.Encode.{leb128}
use chwire.Io.Writer.{BufferWriter}
use chwire.Io.Reader.Reads.{Reads}
use chwire.Tcp.ClientPacketId
use chwire.Tcp.Writer.{
  Setting, Param, EncodedColumn, encode_data, param_literal, replace_char, escape_param,
  encode_query, encode_cancel,
}
use chwire.Tcp.Writer.Fields.{
  Field, varint, text, byte, word64, int32, wire, Fits, read_fields, read_fields-wire,
}
use chwire.Tcp.Writer.Packets.{
  IsEmpty, hello_fields, addendum_fields, client_info_fields, settings_fields, stage_fields,
  params_fields, query_fields, encode_query-wire, encode_query_leftover,
}
use chwire.Tcp.Writer.Data.{data_header, content_wire, encode_data-compressed}
use chwire.Examples.Platform.{ascii}

abbrev fields : List Field
fields = varint 300 ∷ text (codes "ab") ∷ byte 7 ∷ word64 5 ∷ int32 (negsuc 0) ∷ []

fields_Fit : All (Fits ascii) fields
fields_Fit = ground arith

read_fields-wire_example : Reads (read_fields ascii fields) (wire ascii fields) fields
read_fields-wire_example = read_fields-wire ascii fields fields_Fit

abbrev writer : BufferWriter
writer = record { buffer = replicate 8 0; offset = 0 }

writer-IsEmpty : IsEmpty writer
writer-IsEmpty = record { valid = omega arith; nothing = refl }

hello_Fit : All (Fits ascii) (hello_fields (codes "db") (codes "me") [])
unfolding hello_fields
hello_Fit = ground arith

addendum_Fit : All (Fits ascii) (addendum_fields 54471)
unfolding addendum_fields
addendum_Fit = ground arith

abbrev settings : List Setting
settings = (codes "max_threads", codes "4") ∷ []

abbrev params : List Param
params = (codes "n", some (codes "it's")) ∷ (codes "m", none) ∷ []

abbrev sent : List Field
sent = query_fields (codes "id") (codes "SELECT 1") 54479 1700000000 settings true

sent-Fits : All (Fits ascii) sent
unfolding query_fields client_info_fields settings_fields stage_fields
sent-Fits = ground arith

everything_Fits : All (Fits ascii) (sent ++ params_fields params)
unfolding query_fields client_info_fields settings_fields stage_fields params_fields param_literal
    escape_param replace_char
everything_Fits = ground arith

encode_query-wire_example :
    (w' : BufferWriter) × (encode_query ascii
        (codes "id")
        (codes "SELECT 1")
        54479
        1700000000
        settings
        true
        (good params)
        writer
      ≡ ok (wire ascii (sent ++ params_fields params)) w')
    × IsEmpty w'
encode_query-wire_example =
    encode_query-wire ascii (codes "id") (codes "SELECT 1") 54479 1700000000 settings true writer
      writer-IsEmpty params (omega arith) everything_Fits

encode_query_leftover_example :
    (w' : BufferWriter) × (encode_query ascii
        (codes "id")
        (codes "SELECT 1")
        54479
        1700000000
        settings
        true
        (bad type_error)
        writer
      ≡ err type_error w')
    × ((encode_cancel ascii w').0 ≡ wire ascii sent ++ leb128 ClientPacketId.cancel)
encode_query_leftover_example =
    encode_query_leftover ascii (codes "id") (codes "SELECT 1") 54479 1700000000 settings true
      writer writer-IsEmpty type_error (omega arith) sent-Fits

abbrev columns : List EncodedColumn
columns = record { name = codes "x"; type = codes "UInt8"; bytes = 7 ∷ 8 ∷ [] } ∷ []

encode_data-compressed_example :
    (w' : BufferWriter) × (encode_data ascii [] 2 columns 54479
        (some (λ bytes. good (1 ∷ bytes)))
        writer
      ≡ ok (wire ascii (data_header ascii []) ++ (1 ∷ content_wire ascii 2 columns 54479)) w')
    × IsEmpty w'
encode_data-compressed_example =
    encode_data-compressed ascii [] 2 columns 54479 writer (ground arith) (ground arith)
      (ground arith) (λ bytes. good (1 ∷ bytes)) (1 ∷ content_wire ascii 2 columns 54479)
      writer-IsEmpty refl
