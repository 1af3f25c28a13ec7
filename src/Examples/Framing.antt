-- ===== src/Examples/Framing.antt =====
-- The theorems on framed responses at concrete inputs.
use chwire.Prelude.{ℕ, ◌≡◌, refl, List, [], ◌∷◌, ◌++◌, Option, some, arith}
use chwire.Prelude.Text.{codes}
use chwire.Prelude.Scan.{trim, trim_start, trim_end}
use chwire.Prelude.Result.{Result, good}
use chwire.Prelude.Outcome.{continue}
use chwire.Compression.Layout.{flatten}
use chwire.Framing.{decode_chunks, parse_records, end_of_stream}
use chwire.Framing.Loop.{whole}
use chwire.Framing.Chunks.{seen, parse_records-whole}
use chwire.Framing.Events.{Json, kind_of, event_of, parse_sse_event}
use chwire.Framing.Fields.{parse_sse_event-event_of}

-- A decoder of ASCII that has nothing left at the end, and records as they are
abbrev as_is : Unit {0} → List ℕ → List ℕ × Unit {0}
as_is d chunk = (chunk, d)

abbrev nothing_left : Unit {0} → List ℕ
nothing_left d = []

abbrev kept : List ℕ → Result (Option (List ℕ))
kept text = good (some text)

-- Two records and a delimiter that the chunks cut in two
abbrev chunks : List (List ℕ)
chunks = codes "ab\n" ∷ codes "\ncd" ∷ codes "\n\n" ∷ []

parse_records-whole_example :
    seen (parse_records (codes "\n\n") kept as_is nothing_left tt chunks)
    ≡ seen (
        continue
          (whole
            (codes "\n\n")
            kept
            (omega arith)
            (flatten ((decode_chunks (codes "\n\n") kept as_is nothing_left tt chunks).0))
            [])
          (λ _.
            end_of_stream
              (codes "\n\n")
              kept
              ((decode_chunks (codes "\n\n") kept as_is nothing_left tt chunks).1)))
parse_records-whole_example =
    parse_records-whole (codes "\n\n") kept (omega arith) as_is nothing_left tt chunks

abbrev texts : Json (List ℕ)
texts = record { parse = good; field = λ name value. good value; text_of = λ value. some value }

name_trimmed : trim (codes "log") ≡ codes "log"
unfolding trim trim_start trim_end
name_trimmed = refl

parse_sse_event-event_of_example :
    parse_sse_event texts good
      (codes "event: " ++ codes "log" ++ 10 ∷ (codes "data: " ++ codes "{}"))
    ≡ event_of texts good (kind_of (codes "log")) (codes "{}")
parse_sse_event-event_of_example =
    parse_sse_event-event_of texts good (codes "log") (codes "{}") (λ e. absurd (cc e)) name_trimmed
      (omega arith, (omega arith, (omega arith, tt))) (omega arith, (omega arith, tt))
