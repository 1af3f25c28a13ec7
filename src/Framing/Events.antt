-- ===== src/Framing/Events.antt =====
-- framing.ts: parseSseEvent and parseJsonPacket. Parameters: JSON.parse, the fields of its values
-- and the texts among them, and the decoder of a payload.
use chwire.Prelude.{ℕ, ◌==◌, if◌then◌else◌, List, [], ◌∷◌, ◌++◌, drop, Option, none, some}
use chwire.Prelude.Text.{codes}
use chwire.Prelude.Scan.{trim, starts_with}
use chwire.Prelude.Result.{Result, good, ◌>>=◌}
use chwire.Compression.{equals}

pub data Kind : Type 0 where
  data_packet totals extremes progress log profile_events exception : Kind

pub data FramedPacket (J : Type 0) : Type 0 where
  payload : Kind → List ℕ → FramedPacket J
  auxiliary : Kind → J → FramedPacket J

pub record Json (J : Type 0) : Type 0 where
  pub parse : List ℕ → Result J
  pub field : List ℕ → J → Result J
  pub text_of : J → Option (List ℕ)

abbrev newline : ℕ
newline = 10

-- The kind of a name; others are ignored.
unfoldable pub kind_of : List ℕ → Option Kind
unfolding equals
kind_of name =
    if equals name (codes "data")
    then some data_packet
    else if equals name (codes "totals")
    then some totals
    else if equals name (codes "extremes")
    then some extremes
    else if equals name (codes "progress")
    then some progress
    else if equals name (codes "log")
    then some log
    else if equals name (codes "profile_events")
    then some profile_events
    else if equals name (codes "exception")
    then some exception
    else none

-- `text.split("\n")`; the first argument is the line so far.
unfoldable pub split_lines : List ℕ → List ℕ → List (List ℕ)
split_lines line [] = line ∷ []
split_lines line (c ∷ text) =
    let more = split_lines (line ++ c ∷ []) text in
    if c == newline then line ∷ split_lines [] text else more

-- `data.join("\n")`
unfoldable pub join_lines : List ℕ → List (List ℕ) → List ℕ
join_lines line [] = line
join_lines line (next ∷ lines) = line ++ newline ∷ join_lines next lines

-- `replace(/^ /, "")`
unfoldable pub without_space : List ℕ → List ℕ
without_space [] = []
without_space (c ∷ text) = if c == 32 then text else c ∷ text

-- The loop over the lines: the kind's name and the lines of the data
unfoldable pub field_loop : List (List ℕ) → List ℕ → List (List ℕ) → List ℕ × List (List ℕ)
unfolding starts_with without_space
field_loop [] kind lines = (kind, lines)
field_loop (line ∷ more) kind lines =
    if starts_with (codes "event:") line
    then field_loop more (trim (drop 6 line)) lines
    else if starts_with (codes "data:") line
    then field_loop more kind (lines ++ without_space (drop 5 line) ∷ [])
    else field_loop more kind lines

module _ {J : Type 0} (json : Json J) where
  unfoldable pub event_of :
      (List ℕ → Result (List ℕ)) → Option Kind → List ℕ → Result (Option (FramedPacket J))
  event_of base64_decode none body = good none
  event_of base64_decode (some data_packet) body = do
    bytes ← base64_decode body
    good (some (payload data_packet bytes))
  event_of base64_decode (some totals) body = do
    bytes ← base64_decode body
    good (some (payload totals bytes))
  event_of base64_decode (some extremes) body = do
    bytes ← base64_decode body
    good (some (payload extremes bytes))
  event_of base64_decode (some exception) body = do
    value ← json.parse body
    message ← json.field (codes "exception") value
    good (some (auxiliary exception message))
  event_of base64_decode (some kind) body = do
    value ← json.parse body
    good (some (auxiliary kind value))

  unfoldable pub with_fields :
      (List ℕ → Result (List ℕ)) → List ℕ × List (List ℕ) → Result (Option (FramedPacket J))
  unfolding kind_of event_of join_lines
  with_fields base64_decode ([], lines) = good none
  with_fields base64_decode (c ∷ kind, []) = good none
  with_fields base64_decode (c ∷ kind, line ∷ lines) =
      event_of base64_decode (kind_of (c ∷ kind)) (join_lines line lines)

  unfoldable pub parse_sse_event :
      (List ℕ → Result (List ℕ)) → List ℕ → Result (Option (FramedPacket J))
  unfolding split_lines field_loop with_fields
  parse_sse_event base64_decode text =
      with_fields base64_decode (field_loop (split_lines [] text) [] [])

  unfoldable pub packet_of_kind :
      (J → Result (List ℕ)) → Option Kind → J → Result (Option (FramedPacket J))
  packet_of_kind decode_payload none obj = good none
  packet_of_kind decode_payload (some progress) obj = do
    value ← json.field (codes "progress") obj
    good (some (auxiliary progress value))
  packet_of_kind decode_payload (some log) obj = do
    value ← json.field (codes "log") obj
    good (some (auxiliary log value))
  packet_of_kind decode_payload (some profile_events) obj = do
    value ← json.field (codes "profile_events") obj
    good (some (auxiliary profile_events value))
  packet_of_kind decode_payload (some exception) obj = do
    value ← json.field (codes "exception") obj
    good (some (auxiliary exception value))
  packet_of_kind decode_payload (some kind) obj = do
    value ← json.field (codes "data") obj
    bytes ← decode_payload value
    good (some (payload kind bytes))

  -- A packet whose kind is no text is ignored.
  unfoldable pub named_kind : Option (List ℕ) → Option Kind
  unfolding kind_of
  named_kind none = none
  named_kind (some name) = kind_of name

  unfoldable pub parse_json_packet :
      (J → Result (List ℕ)) → List ℕ → Result (Option (FramedPacket J))
  unfolding packet_of_kind named_kind
  parse_json_packet decode_payload line = do
    obj ← json.parse line
    kind ← json.field (codes "packet") obj
    packet_of_kind decode_payload (named_kind (json.text_of kind)) obj
