-- ===== src/Tcp/Reader/Ends.antt =====
-- A stream that ends too early, bytes that are peeked at, and `consume`.
use chwire.Prelude.{
  ℕ, ◌+◌, ◌-◌, ◌≤◌, ◌<◌, ◌≡◌, refl, ap, ◌∙◌, ltb, leb, List, [], ◌∷◌, ◌++◌, false, length, map,
  take, drop, some, blit, subarray, arith, length-append, Bool-cases, inl, inr, lt→ltb,
  le→ltb_false, lt→leb_false, subarray-blit,
}
use chwire.Prelude.Result.{plain_error}
use chwire.Prelude.Outcome.{ok, err}
use chwire.Compression.Layout.{flatten}
use chwire.Tcp.Wait.{Event, chunk, finished, got, threw}
use chwire.Tcp.Reader.{
  StreamingReader, Session, available, realloc, append, handle, resume, advance, consume, peek_all,
  ensure_loop, next_chunk_loop, next_chunk,
}
use chwire.Tcp.Reader.Stream.{
  IsValid, unread, IsOpen, session, stream, Keeps-IsOpen, chunk-stream, chunk-Keeps, advance-Keeps,
  available-length, realloc_room, wait_or_end-IsOpen,
}

-- A socket that sends the chunks and then reports its end.
abbrev pub ending : List (List ℕ) → List Event
ending chunks = map chunk chunks ++ finished ∷ []

-- On an open reader whose socket ends before `n` bytes have come, `ensure(n)` throws; it does not
-- wait for ever.
pub ensure_loop_ended :
    (n : ℕ) (chunks : List (List ℕ)) (r : StreamingReader)
    → IsOpen r
    → length (stream r chunks) < n
    → (s : Session) × (ensure_loop n (ending chunks) r ≡ threw plain_error s)
unfolding ensure_loop
ensure_loop_ended n [] r o h =
    let l : leb n (available r) ≡ false =
      lt→leb_false _ _ (omega (arith, available-length r o.valid, length-append (unread r) [])) in
    (
      record { reader = handle finished (resume r); events = [] },
      rw l (wait_or_end-IsOpen r _ _ _ o ∙ unfold handle resume in rw o.no_error),
    )
ensure_loop_ended n (c ∷ chunks) r o h =
    let l : leb n (available r) ≡ false =
      lt→leb_false _ _ (
        omega
          (arith, available-length r o.valid, length-append (unread r) (c ++ flatten chunks))) in
    let r' : StreamingReader = handle (chunk c) (resume r) in
    let (s, e) =
      ensure_loop_ended n chunks r' (Keeps-IsOpen o (chunk-Keeps r o.valid c))
        (omega (arith, ap (λ (t : List ℕ). length t) (chunk-stream r o.valid c chunks))) in
    (s, rw l (wait_or_end-IsOpen r _ _ _ o ∙ e))

module _ (n : ℕ) (r : StreamingReader) (v : IsValid r) where
  -- On a valid reader, `consume` takes the first bytes, where there are so many, and keeps the
  -- rest.
  pub consume-unread :
      n ≤ length (unread r)
      → (r' : StreamingReader) × (consume n r ≡ ok tt r')
        × IsValid r'
        × (unread r' ≡ drop n (unread r))
  unfolding consume
  consume-unread h =
      let k = advance-Keeps r v n h in
      (
        advance n r,
        rw (le→ltb_false (available r) n (omega (arith, available-length r v))),
        k.valid,
        k.held,
      )

  -- Where there are not so many, it throws and changes nothing.
  pub consume_beyond : length (unread r) < n → consume n r ≡ err plain_error r
  unfolding consume
  consume_beyond h = rw (lt→ltb (available r) n (omega (arith, available-length r v)))

-- The bytes that were not yet handed out.
abbrev fresh : StreamingReader → List ℕ
fresh r = subarray r.buffer r.returned_end r.end

record AddsFresh (c : List ℕ) (r : StreamingReader) : Type 0 where
  pub more : r.returned_end < r.end
  pub just : fresh r ≡ c

stored_fresh :
    (r : StreamingReader) (c : List ℕ)
    → r.returned_end ≡ r.end
    → r.end + length c ≤ length r.buffer
    → 1 ≤ length c
    → AddsFresh c (record r { buffer = blit r.buffer r.end c; end = r.end + length c })
stored_fresh r c e room h = record {
  more = omega arith;
  just =
      let d : r.end + length c - r.returned_end ≡ length c = omega arith in
      ap (λ (t : ℕ). take t (drop r.returned_end (blit r.buffer r.end c))) d
      ∙ ap (λ (t : ℕ). take (length c) (drop t (blit r.buffer r.end c))) e
      ∙ subarray-blit r.buffer r.end c room;
}

append-AddsFresh :
    (c : List ℕ) (r : StreamingReader)
    → IsValid r
    → r.returned_end ≡ r.end
    → 1 ≤ length c
    → AddsFresh c (append c r)
unfolding append
append-AddsFresh [] r v e h = absurd (omega arith)
append-AddsFresh (b ∷ c) r v e h =
    elim (Bool-cases (ltb (length r.buffer) (r.end + length (b ∷ c)))) [
      | inl full ↦ rw full (
          stored_fresh (realloc (length (b ∷ c)) r) (b ∷ c) (unfold realloc in omega arith)
            (realloc_room r v (length (b ∷ c))) h)
      | inr room ↦ rw room (stored_fresh r (b ∷ c) e (ground (arith, room)) h)
    ]

fresh_returns :
    (chunks : List (List ℕ)) (r : StreamingReader)
    → r.returned_end < r.end
    → next_chunk_loop (map chunk chunks) r
      ≡ got (some (fresh r)) (session (record r { returned_end = r.end }) chunks)
unfolding next_chunk_loop
fresh_returns [] r h = rw (lt→ltb r.returned_end r.end h)
fresh_returns (c ∷ chunks) r h = rw (lt→ltb r.returned_end r.end h)

-- On an open reader, `peekAll` returns the unread bytes, and `nextChunk` behind it returns the
-- bytes of the next chunk, which is not empty, and no others, also where the chunk made the reader
-- move what is unread to another buffer.
pub next_chunk-peek_all :
    (r : StreamingReader) (c : List ℕ) (chunks : List (List ℕ))
    → IsOpen r
    → 1 ≤ length c
    → (r' : StreamingReader) × ((peek_all r).0 ≡ unread r)
      × (next_chunk (session (peek_all r).1 (c ∷ chunks)) ≡ got (some c) (session r' chunks))
unfolding peek_all next_chunk next_chunk_loop
next_chunk-peek_all r c chunks o h =
    let p : StreamingReader = record r { returned_end = r.end } in
    let open_p : IsOpen p = record {
      valid = record { order = o.valid.order; fits = o.valid.fits };
      no_error = o.no_error;
      not_done = o.not_done;
    } in
    let r1 : StreamingReader = handle (chunk c) (resume p) in
    let a : AddsFresh c r1 =
      unfold handle resume in
      let b =
        append-AddsFresh c (resume p) (record { order = o.valid.order; fits = o.valid.fits }) refl
          h in
      record { more = b.more; just = b.just } in
    (
      record r1 { returned_end = r1.end },
      refl,
      rw (le→ltb_false r.end r.end (omega arith)) (
          wait_or_end-IsOpen p _ _ _ open_p
          ∙ fresh_returns chunks r1 a.more
          ∙ ap (λ (t : List ℕ). got (some t) (session (record r1 { returned_end = r1.end }) chunks))
              a.just),
    )
