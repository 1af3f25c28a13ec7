-- ===== src/Framing/Chunks.antt =====
-- The packets of a framed response do not depend on the chunks that it comes in.
use chwire.Prelude.{
  ℕ, suc, ◌+◌, ◌-◌, ◌≤◌, ◌≡◌, refl, ap, ◌∙◌, sym, leb, List, [], ◌∷◌, ◌++◌, length, Option, none,
  some, arith, Bool-cases, inl, inr, append-nil, append_assoc,
}
use chwire.Prelude.Result.{Error, Result, plain_error}
use chwire.Prelude.Outcome.{Outcome, ok, err, continue}
use chwire.Compression.Layout.{flatten}
use chwire.Framing.{
  find, index_of, Framing, record_loop, rescan, receive_text, receive_texts, end_of_stream,
  decode_chunks, parse_records,
}
use chwire.Framing.Search.{find-drop, index_of-zero}
use chwire.Framing.Loop.{
  view, unsearched, view-rescan, loop_missed, loop-unsearched, whole, resume_with, loop-append,
  loop_settles,
}

-- What a consumer sees: the packets, and the error if one is thrown.
abbrev pub seen {ℓ} : {P : Type ℓ} → Outcome (Framing P) (Unit {0}) → Option Error × List P
seen (ok u s) = (none, s.packets)
seen (err e s) = (some e, s.packets)

view_ok {ℓ} :
    {P : Type ℓ} (o : Outcome (Framing P) (Unit {0})) (text : List ℕ) (packets : List P)
    → view o ≡ ok tt (text, packets)
    → (s : Framing P) × (o ≡ ok tt s) × (s.pending ≡ text) × (s.packets ≡ packets)
view_ok (ok u s) text packets e = (s, refl, cc e, cc e)
view_ok (err x s) text packets e = absurd (cc e)

module _ {ℓ} {P : Type ℓ} (delimiter : List ℕ) (parse_record : List ℕ → Result (Option P))
    (nonempty : 1 ≤ length delimiter) where
  -- The state between two chunks
  record Settled (s : Framing P) : Type ℓ where
    pub no_record : find delimiter s.pending ≡ none
    pub searched : s.from ≡ suc (length s.pending) - length delimiter

  searched_again :
      (s : Framing P) (text : List ℕ)
      → Settled s
      → index_of (s.pending ++ text) delimiter s.from ≡ find delimiter (s.pending ++ text)
  searched_again s text p = elim (Bool-cases (leb (length delimiter) (suc (length s.pending)))) [
    | inl long ↦
        find-drop delimiter s.from s.pending text p.no_record (ground (arith, p.searched, long))
          nonempty
    | inr short ↦
        let z : s.from ≡ 0 = ground (arith, p.searched, short) in
        rw z (index_of-zero delimiter (s.pending ++ text))
  ]

  appended : Framing P → List ℕ → Outcome (Framing P) (Unit {0})
  appended s text =
      record_loop delimiter parse_record (suc (length (s.pending ++ text)))
        (record s { pending = s.pending ++ text })

  receive_text-view :
      (s : Framing P) (text : List ℕ)
      → Settled s
      → view (receive_text delimiter parse_record text s)
        ≡ view (whole delimiter parse_record nonempty (s.pending ++ text) s.packets)
  unfolding receive_text appended
  receive_text-view s text p =
      view-rescan delimiter parse_record (appended s text)
      ∙ loop-unsearched delimiter parse_record nonempty (suc (length (s.pending ++ text)))
          (record s { pending = s.pending ++ text }) (searched_again s text p)

  rescanned :
      (o : Outcome (Framing P) (Unit {0})) (s' : Framing P)
      → ((s1 : Framing P) → o ≡ ok tt s1 → find delimiter s1.pending ≡ none)
      → continue o (λ _. rescan delimiter parse_record) ≡ ok tt s'
      → Settled s'
  unfolding rescan
  rescanned (ok u s1) s' h e =
      let same : record s1 { from = (length s1.pending + 1) - length delimiter } ≡ s' = cc e in
      rw (← same) (record { no_record = h s1 refl; searched = omega arith })
  rescanned (err x s1) s' h e = absurd (cc e)

  receive_text-Settled :
      (s s' : Framing P) (text : List ℕ)
      → Settled s
      → receive_text delimiter parse_record text s ≡ ok tt s'
      → Settled s'
  unfolding receive_text appended
  receive_text-Settled s s' text p e =
      rescanned (appended s text) s'
        (λ s1 l.
          let same =
            loop-unsearched delimiter parse_record nonempty (suc (length (s.pending ++ text)))
              (record s { pending = s.pending ++ text }) (searched_again s text p) in
          let (s2, l2, same_text, same_packets) =
            view_ok _ s1.pending s1.packets (sym same ∙ ap view l) in
          rw (← same_text) (
            loop_settles delimiter parse_record nonempty (suc (length (s.pending ++ text)))
              (s.pending ++ text) s.packets s2 (omega arith) l2))
        e

  -- Two outcomes that look the same go on the same way.
  continue-view :
      (more : List ℕ) (o o' : Outcome (Framing P) (Unit {0}))
      → view o ≡ view o'
      → view (continue o (λ _. resume_with delimiter parse_record nonempty more))
        ≡ view (continue o' (λ _. resume_with delimiter parse_record nonempty more))
  continue-view more (ok u s) (ok u' s') e =
      let same : (s.pending, s.packets) ≡ (s'.pending, s'.packets) = cc e in
      ap (λ (p : List ℕ × List P). view (whole delimiter parse_record nonempty (p.0 ++ more) (p.1)))
        same
  continue-view more (ok u s) (err x s') e = absurd (cc e)
  continue-view more (err x s) (ok u s') e = absurd (cc e)
  continue-view more (err x s) (err x' s') e = e

  later_texts :
      (texts : List (List ℕ)) (o : Outcome (Framing P) (Unit {0}))
      → ((s : Framing P)
          → o ≡ ok tt s
          → view (receive_texts delimiter parse_record texts s)
            ≡ view (resume_with delimiter parse_record nonempty (flatten texts) s))
      → view (continue o (λ _. receive_texts delimiter parse_record texts))
        ≡ view (continue o (λ _. resume_with delimiter parse_record nonempty (flatten texts)))
  later_texts texts (ok u s) h = h s refl
  later_texts texts (err x s) h = refl

  -- Chunk by chunk or at once
  receive_texts-view :
      (texts : List (List ℕ)) (s : Framing P)
      → Settled s
      → view (receive_texts delimiter parse_record texts s)
        ≡ view (resume_with delimiter parse_record nonempty (flatten texts) s)
  unfolding receive_texts
  receive_texts-view [] s p = rw (
    append-nil s.pending,
    loop_missed delimiter parse_record nonempty (length s.pending) s.pending s.packets p.no_record,
  )
  receive_texts-view (text ∷ texts) s p =
      later_texts texts (receive_text delimiter parse_record text s)
        (λ s' e. receive_texts-view texts s' (receive_text-Settled s s' text p e))
      ∙ continue-view (flatten texts) (receive_text delimiter parse_record text s)
          (whole delimiter parse_record nonempty (s.pending ++ text) s.packets)
          (receive_text-view s text p)
      ∙ loop-append delimiter parse_record nonempty (suc (length (s.pending ++ text)))
          (s.pending ++ text) (flatten texts) s.packets (omega arith)
      ∙ ap (λ (t : List ℕ). view (whole delimiter parse_record nonempty t s.packets))
          (append_assoc s.pending text (flatten texts))

  seen_end :
      (rest : List ℕ) (s : Framing P)
      → seen (end_of_stream delimiter parse_record rest s)
        ≡ seen (end_of_stream delimiter parse_record rest (unsearched s.pending s.packets))
  unfolding end_of_stream
  seen_end rest s = by_text (s.pending ++ rest)
    where
      by_text :
          (text : List ℕ)
          → seen {P = P} (elim text [ [] ↦ ok tt s | c ∷ t ↦ err plain_error s ])
            ≡ seen {P = P} (elim text [
              | [] ↦ ok tt (unsearched s.pending s.packets)
              | c ∷ t ↦ err plain_error (unsearched s.pending s.packets)
            ])
      by_text [] = refl
      by_text (c ∷ t) = refl

  seen-view :
      (rest : List ℕ) (o o' : Outcome (Framing P) (Unit {0}))
      → view o ≡ view o'
      → seen (continue o (λ _. end_of_stream delimiter parse_record rest))
        ≡ seen (continue o' (λ _. end_of_stream delimiter parse_record rest))
  unfolding end_of_stream
  seen-view rest (ok u s) (ok u' s') e =
      let same : (s.pending, s.packets) ≡ (s'.pending, s'.packets) = cc e in
      seen_end rest s
      ∙ ap
          (λ (p : List ℕ × List P).
            seen (end_of_stream delimiter parse_record rest (unsearched (p.0) (p.1))))
          same
      ∙ sym (seen_end rest s')
  seen-view rest (ok u s) (err x s') e = absurd (cc e)
  seen-view rest (err x s) (ok u s') e = absurd (cc e)
  seen-view rest (err x s) (err x' s') e = cc e

  -- The packets that are yielded, and the error that is thrown, are those of the whole decoded text
  -- searched from its start: they do not depend on how it came in chunks, though only the end of
  -- the pending text is searched again after a chunk. The delimiter has a character at least.
  pub parse_records-whole :
      {D : Type 0} (decode : D → List ℕ → List ℕ × D) (flush : D → List ℕ) (decoder : D)
      (chunks : List (List ℕ))
      → seen (parse_records delimiter parse_record decode flush decoder chunks)
        ≡ seen (
            continue
              (whole delimiter parse_record nonempty
                (flatten ((decode_chunks delimiter parse_record decode flush decoder chunks).0))
                [])
              (λ _.
                end_of_stream delimiter parse_record
                  ((decode_chunks delimiter parse_record decode flush decoder chunks).1)))
  unfolding parse_records
  parse_records-whole decode flush decoder chunks =
      let parts = decode_chunks delimiter parse_record decode flush decoder chunks in
      seen-view (parts.1) (receive_texts delimiter parse_record (parts.0) (unsearched [] []))
        (whole delimiter parse_record nonempty (flatten (parts.0)) [])
        (receive_texts-view (parts.0) (unsearched [] [])
          (record { no_record = unfold find in refl; searched = omega (arith, nonempty) }))
