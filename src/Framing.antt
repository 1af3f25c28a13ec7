-- ===== src/Framing.antt =====
-- framing.ts: the records of a framed HTTP response, and the packets in them. Parameters: the
-- TextDecoder, whose state goes from chunk to chunk, JSON.parse and the fields of its values, and
-- the decoder of a payload. A failure of theirs is a plain error.
pub mod Search
pub mod Loop
pub mod Chunks
pub mod Events
pub mod Fields
use chwire.Prelude.{
  ℕ, zero, suc, ◌+◌, ◌-◌, ◌==◌, if◌then◌else◌, List, [], ◌∷◌, ◌++◌, length, take, drop, Bool, true,
  false, Option, none, some,
}
use chwire.Prelude.Text.{codes}
use chwire.Prelude.Scan.{trim, starts_with}
use chwire.Prelude.Result.{Error, plain_error, Result, good, bad, ◌>>=◌}
use chwire.Prelude.Outcome.{Outcome, ok, err, Exec, continue}
use chwire.Compression.{equals}

-- `text.indexOf(delimiter)`, and `text.indexOf(delimiter, from)`
abbrev pub shift : Option ℕ → Option ℕ
shift none = none
shift (some k) = some (suc k)

abbrev pub plus : ℕ → Option ℕ → Option ℕ
plus from none = none
plus from (some k) = some (from + k)

unfoldable pub find : List ℕ → List ℕ → Option ℕ
unfolding starts_with
find delimiter [] = none
find delimiter (c ∷ text) =
    if starts_with delimiter (c ∷ text) then some 0 else shift (find delimiter text)

unfoldable pub index_of : List ℕ → List ℕ → ℕ → Option ℕ
unfolding find
index_of text delimiter from = plus from (find delimiter (drop from text))

-- The variables of parseRecords, and the packets that it has yielded
pub record Framing {ℓ} (P : Type ℓ) : Type ℓ where
  pub pending : List ℕ
  pub from : ℕ
  pub packets : List P

module _ {ℓ} {P : Type ℓ} (delimiter : List ℕ) (parse_record : List ℕ → Result (Option P)) where
  -- What is yielded for a record. An empty one is not parsed.
  unfoldable pub packet_of : List ℕ → Result (Option P)
  packet_of [] = good none
  packet_of (c ∷ text) = parse_record (c ∷ text)

  unfoldable pub yield_packet : Option P → List P → List P
  yield_packet none packets = packets
  yield_packet (some p) packets = packets ++ p ∷ []

  -- A round of the inner loop, with the delimiter at `end`
  unfoldable pub take_record : ℕ → Result (Option P) → Exec (Framing P) (Unit {0})
  unfolding yield_packet
  take_record end (bad e) s = err e s
  take_record end (good packet) s = ok tt (record {
    pending = drop (end + length delimiter) s.pending;
    from = 0;
    packets = yield_packet packet s.packets;
  })

  unfoldable pub record_loop : ℕ → Exec (Framing P) (Unit {0})
  unfolding index_of packet_of take_record
  record_loop zero s = ok tt s
  record_loop (suc fuel) s = elim (index_of s.pending delimiter s.from) [
    | none ↦ ok tt s
    | some end ↦
        continue (take_record end (packet_of (take end s.pending)) s) (λ _. record_loop fuel)
  ]

  -- Only the overhang is scanned again.
  unfoldable pub rescan : Framing P → Outcome (Framing P) (Unit {0})
  rescan s = ok tt (record s { from = (length s.pending + 1) - length delimiter })

  -- The decoded text of a chunk
  unfoldable pub receive_text : List ℕ → Exec (Framing P) (Unit {0})
  unfolding record_loop rescan
  receive_text text s =
      continue
        (record_loop (suc (length (s.pending ++ text))) (record s { pending = s.pending ++ text }))
        (λ _. rescan)

  unfoldable pub receive_texts : List (List ℕ) → Exec (Framing P) (Unit {0})
  unfolding receive_text
  receive_texts [] s = ok tt s
  receive_texts (text ∷ texts) s = continue (receive_text text s) (λ _. receive_texts texts)

  -- At the end of the stream, with what the decoder still has
  unfoldable pub end_of_stream : List ℕ → Exec (Framing P) (Unit {0})
  end_of_stream rest s = elim (s.pending ++ rest) [ [] ↦ ok tt s | c ∷ text ↦ err plain_error s ]

  -- The texts that the decoder makes of the chunks, and of the end
  unfoldable pub decode_chunks :
      {D : Type 0}
      → (D → List ℕ → List ℕ × D)
      → (D → List ℕ)
      → D
      → List (List ℕ)
      → List (List ℕ) × List ℕ
  decode_chunks decode flush d [] = ([], flush d)
  decode_chunks decode flush d (chunk ∷ chunks) =
      let (text, d') = decode d chunk in
      let (texts, rest) = decode_chunks decode flush d' chunks in (text ∷ texts, rest)

  unfoldable pub parse_records :
      {D : Type 0}
      → (D → List ℕ → List ℕ × D)
      → (D → List ℕ)
      → D
      → List (List ℕ)
      → Outcome (Framing P) (Unit {0})
  unfolding receive_texts end_of_stream decode_chunks
  parse_records decode flush d chunks =
      let (texts, rest) = decode_chunks decode flush d chunks in
      continue (receive_texts texts (record { pending = []; from = 0; packets = [] }))
        (λ _. end_of_stream rest)
