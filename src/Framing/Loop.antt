-- ===== src/Framing/Loop.antt =====
-- The loop over the records of a text: it may go on with more text, and needs no position to start
-- the search from.
use chwire.Prelude.{
  ℕ, zero, suc, ◌+◌, ◌≤◌, ◌<◌, ◌≡◌, refl, ◌∙◌, sym, List, [], ◌++◌, length, take, drop, Option,
  none, some, arith, Option-cases, inl, inr, length-append, length-drop, take-append_le,
  drop-append_le,
}
use chwire.Prelude.Result.{Error, Result, good, bad}
use chwire.Prelude.Outcome.{Outcome, ok, err, continue}
use chwire.Framing.{
  find, index_of, Framing, packet_of, yield_packet, take_record, record_loop, rescan,
}
use chwire.Framing.Search.{find_fits, find-append, index_of-zero}

module _ {ℓ} {P : Type ℓ} where
  -- The outcome without the position of the search and, after an error, without the text.
  abbrev pub view : Outcome (Framing P) (Unit {0}) → Outcome (List ℕ × List P) (Unit {0})
  view (ok u s) = ok tt (s.pending, s.packets)
  view (err e s) = err e ([], s.packets)

  abbrev pub unsearched : List ℕ → List P → Framing P
  unsearched text packets = record { pending = text; from = 0; packets = packets }

  pub view-rescan :
      (delimiter : List ℕ) (parse_record : List ℕ → Result (Option P))
      (o : Outcome (Framing P) (Unit {0}))
      → view (continue o (λ _. rescan delimiter parse_record)) ≡ view o
  unfolding rescan
  view-rescan delimiter parse_record (ok u s) = refl
  view-rescan delimiter parse_record (err e s) = refl

module _ {ℓ} {P : Type ℓ} (delimiter : List ℕ) (parse_record : List ℕ → Result (Option P))
    (nonempty : 1 ≤ length delimiter) where
  abbrev pub loop : ℕ → Framing P → Outcome (Framing P) (Unit {0})
  loop = record_loop delimiter parse_record

  abbrev pub taken : ℕ → Framing P → Outcome (Framing P) (Unit {0})
  taken end s =
      take_record delimiter parse_record end (packet_of delimiter parse_record (take end s.pending))
        s

  -- Where nothing is found, and where the delimiter is found at `end`
  pub loop-none :
      (fuel : ℕ) (s : Framing P)
      → index_of s.pending delimiter s.from ≡ none
      → loop (suc fuel) s ≡ ok tt s
  unfolding record_loop
  loop-none fuel s e = rw (record_loop, e)

  loop-some :
      (fuel : ℕ) (s : Framing P) (end : ℕ)
      → index_of s.pending delimiter s.from ≡ some end
      → loop (suc fuel) s ≡ continue (taken end s) (λ _. loop fuel)
  unfolding record_loop
  loop-some fuel s end e = rw (record_loop, e)

  -- At the start of a text the search is the plain one.
  loop_found :
      (fuel : ℕ) (text : List ℕ) (packets : List P) (end : ℕ)
      → find delimiter text ≡ some end
      → loop (suc fuel) (unsearched text packets)
        ≡ continue (taken end (unsearched text packets)) (λ _. loop fuel)
  loop_found fuel text packets end e =
      loop-some fuel (unsearched text packets) end (index_of-zero delimiter text ∙ e)

  pub loop_missed :
      (fuel : ℕ) (text : List ℕ) (packets : List P)
      → find delimiter text ≡ none
      → loop (suc fuel) (unsearched text packets) ≡ ok tt (unsearched text packets)
  loop_missed fuel text packets e =
      loop-none fuel (unsearched text packets) (index_of-zero delimiter text ∙ e)

  -- What a record has become, whatever follows it
  data Taken (text : List ℕ) (packets : List P) (end : ℕ) : Type ℓ where
    refused :
        (e : Error)
        → packet_of delimiter parse_record (take end text) ≡ bad e
        → Taken text packets end
    accepted :
        (p : Option P)
        → packet_of delimiter parse_record (take end text) ≡ good p
        → Taken text packets end

  Taken-cases : (text : List ℕ) (packets : List P) (end : ℕ) → Taken text packets end
  Taken-cases text packets end = by_result (packet_of delimiter parse_record (take end text)) refl
    where
      by_result :
          (r : Result (Option P))
          → packet_of delimiter parse_record (take end text) ≡ r
          → Taken text packets end
      by_result (good p) e = accepted p e
      by_result (bad x) e = refused x e

  taken_refused :
      (end : ℕ) (s : Framing P) (e : Error)
      → packet_of delimiter parse_record (take end s.pending) ≡ bad e
      → taken end s ≡ err e s
  unfolding take_record
  taken_refused end s e r = rw r

  taken_accepted :
      (end : ℕ) (s : Framing P) (p : Option P)
      → packet_of delimiter parse_record (take end s.pending) ≡ good p
      → taken end s
        ≡ ok tt (
            unsearched
              (drop (end + length delimiter) s.pending)
              (yield_packet delimiter parse_record p s.packets))
  unfolding take_record
  taken_accepted end s p r = rw r

  -- A position that has been searched already may be left out.
  pub loop-unsearched :
      (fuel : ℕ) (s : Framing P)
      → index_of s.pending delimiter s.from ≡ find delimiter s.pending
      → view (loop fuel s) ≡ view (loop fuel (unsearched s.pending s.packets))
  loop-unsearched zero s same = unfold record_loop in refl
  loop-unsearched (suc fuel) s same = elim (Option-cases (find delimiter s.pending)) [
    | inl nothing ↦
        rw (loop-none fuel s (same ∙ nothing), loop_missed fuel s.pending s.packets nothing)
    | inr (end, found) ↦
        rw (loop-some fuel s end (same ∙ found), loop_found fuel s.pending s.packets end found)
          (elim (Taken-cases s.pending s.packets end) [
            | refused e r ↦
                rw (taken_refused end s e r, taken_refused end (unsearched s.pending s.packets) e r)
            | accepted p r ↦
                rw (
                  taken_accepted end s p r,
                  taken_accepted end (unsearched s.pending s.packets) p r,
                )
          ])
  ]

  length-rest :
      (text : List ℕ) (end : ℕ)
      → find delimiter text ≡ some end
      → length (drop (end + length delimiter) text) < length text
  length-rest text end e =
      omega (arith, find_fits delimiter text end e, length-drop (end + length delimiter) text)

  -- A round takes the delimiter at least, so fuel above the length of the text is enough.
  pub record_loop_rounds :
      (fuel more : ℕ) (text : List ℕ) (packets : List P)
      → length text < fuel
      → fuel ≤ more
      → loop more (unsearched text packets) ≡ loop fuel (unsearched text packets)
  record_loop_rounds zero more text packets h l = absurd (omega arith)
  record_loop_rounds (suc fuel) zero text packets h l = absurd (omega arith)
  record_loop_rounds (suc fuel) (suc more) text packets h l =
      elim (Option-cases (find delimiter text)) [
        | inl nothing ↦
            loop_missed more text packets nothing ∙ sym (loop_missed fuel text packets nothing)
        | inr (end, found) ↦
            rw (loop_found more text packets end found, loop_found fuel text packets end found)
              (elim (Taken-cases text packets end) [
                | refused e r ↦ rw (taken_refused end (unsearched text packets) e r)
                | accepted p r ↦ rw (taken_accepted end (unsearched text packets) p r) (
                    record_loop_rounds fuel more (drop (end + length delimiter) text) _
                      (omega (arith, length-rest text end found)) (omega arith))
              ])
      ]

  abbrev pub whole : List ℕ → List P → Outcome (Framing P) (Unit {0})
  whole text packets = loop (suc (length text)) (unsearched text packets)

  abbrev pub resume_with : List ℕ → Framing P → Outcome (Framing P) (Unit {0})
  resume_with more s = whole (s.pending ++ more) s.packets

  -- Going on with more text is the same as starting with it.
  pub loop-append :
      (fuel : ℕ) (text more : List ℕ) (packets : List P)
      → length text < fuel
      → view (continue (loop fuel (unsearched text packets)) (λ _. resume_with more))
        ≡ view (whole (text ++ more) packets)
  loop-append zero text more packets h = absurd (omega arith)
  loop-append (suc fuel) text more packets h = elim (Option-cases (find delimiter text)) [
    | inl nothing ↦ rw (loop_missed fuel text packets nothing)
    | inr (end, found) ↦
        let fits : end + length delimiter ≤ length text = find_fits delimiter text end found in
        let rest : List ℕ = drop (end + length delimiter) text in
        let longer : length (rest ++ more) < length (text ++ more) =
          omega
            (arith, length-rest text end found, length-append rest more, length-append text more) in
        let same_record : take end (text ++ more) ≡ take end text =
          take-append_le end text more (omega arith) in
        let same_rest : drop (end + length delimiter) (text ++ more) ≡ rest ++ more =
          drop-append_le (end + length delimiter) text more fits in
        rw
          (
            loop_found fuel text packets end found,
            loop_found (length (text ++ more)) (text ++ more) packets end
                (find-append delimiter text more end found),
          )
          (elim (Taken-cases text packets end) [
            | refused e r ↦ rw (
              taken_refused end (unsearched text packets) e r,
              taken_refused end (unsearched (text ++ more) packets) e (rw same_record r),
            )
            | accepted p r ↦
                rw
                  (
                    taken_accepted end (unsearched text packets) p r,
                    taken_accepted end (unsearched (text ++ more) packets) p (rw same_record r),
                    same_rest,
                    record_loop_rounds (suc (length (rest ++ more))) (length (text ++ more))
                        (rest ++ more) (yield_packet delimiter parse_record p packets) (omega arith)
                        (omega arith),
                  )
                  (loop-append fuel rest more (yield_packet delimiter parse_record p packets)
                    (omega (arith, length-rest text end found)))
          ])
  ]

  -- The loop leaves a text without a delimiter.
  pub loop_settles :
      (fuel : ℕ) (text : List ℕ) (packets : List P) (s : Framing P)
      → length text < fuel
      → loop fuel (unsearched text packets) ≡ ok tt s
      → find delimiter s.pending ≡ none
  loop_settles zero text packets s h e = absurd (omega arith)
  loop_settles (suc fuel) text packets s h e = elim (Option-cases (find delimiter text)) [
    | inl nothing ↦
        let same : unsearched text packets ≡ s =
          cc (rw (loop_missed fuel text packets nothing) at e) in
        rw (← same) nothing
    | inr (end, found) ↦ elim (Taken-cases text packets end) [
      | refused x r ↦ absurd (
          cc (
            rw
              (
                loop_found fuel text packets end found,
                taken_refused end (unsearched text packets) x r,
              )
              at e))
      | accepted p r ↦
          loop_settles fuel (drop (end + length delimiter) text) _ s
            (omega (arith, length-rest text end found))
            (rw
              (
                loop_found fuel text packets end found,
                taken_accepted end (unsearched text packets) p r,
              )
              at e)
    ]
  ]
