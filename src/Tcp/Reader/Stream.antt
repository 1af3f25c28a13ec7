-- ===== src/Tcp/Reader/Stream.antt =====
-- A StreamingReader is a queue of bytes: those unread in its buffer and those of the chunks still to
-- come. Where a chunk ends makes no difference to `ensure`.
use chwire.Prelude.{
  ℕ, ◌+◌, ◌-◌, ◌*◌, ◌≤◌, ◌≡◌, refl, ap, ◌∙◌, sym, max, ltb, leb, ◌&&◌, List, [], ◌∷◌, ◌++◌, true,
  false, length, map, replicate, drop, none, blit, subarray, arith, length-blit, length-replicate,
  length-append, subarray-blit_end, subarray-blit_front, length-subarray, drop-subarray, append-nil,
  append_assoc, Bool-cases, inl, inr, le→leb,
}
use chwire.Compression.Layout.{flatten}
use chwire.Tcp.Wait.{Event, chunk, Wait, got, Awaits, resume_with}
use chwire.Tcp.Reader.{
  StreamingReader, Session, min_capacity, pause_threshold, available, realloc, append, handle,
  resume, advance, ensure_loop, wait_or_end,
}

pub record IsValid (r : StreamingReader) : Type 0 where
  pub order : r.offset ≤ r.end
  pub fits : r.end ≤ length r.buffer

abbrev pub unread : StreamingReader → List ℕ
unread r = subarray r.buffer r.offset r.end

-- The socket has reported neither its end nor an error.
pub record IsOpen (r : StreamingReader) : Type 0 where
  pub valid : IsValid r
  pub no_error : r.error ≡ none
  pub not_done : r.done ≡ false

pub available-length : (r : StreamingReader) → IsValid r → available r ≡ length (unread r)
available-length r v = omega (arith, length-subarray r.buffer r.offset r.end v.fits)

-- `r'` is valid and open where `r` is, and its unread bytes are `bytes`.
pub record Keeps (r : StreamingReader) (bytes : List ℕ) (r' : StreamingReader) : Type 0 where
  pub valid : IsValid r'
  pub held : unread r' ≡ bytes
  pub same_error : r'.error ≡ r.error
  pub same_done : r'.done ≡ r.done

module _ (r : StreamingReader) (v : IsValid r) where
  realloc-Keeps : (n : ℕ) → Keeps r (unread r) (realloc n r)
  unfolding realloc
  realloc-Keeps n =
      let capacity : ℕ = max min_capacity ((available r + n) * 2) in
      record {
        valid = record {
          order = omega arith;
          fits = omega (
            arith,
            length-blit (replicate capacity 0) 0 (unread r),
            length-replicate {A = ℕ} capacity 0,
          );
        };
        held =
            subarray-blit_front (replicate capacity 0) (unread r) _
              (omega (arith, available-length r v))
              (omega (arith, length-replicate {A = ℕ} capacity 0));
        same_error = refl;
        same_done = refl;
      }

  pub realloc_room : (n : ℕ) → (realloc n r).end + n ≤ length (realloc n r).buffer
  unfolding realloc
  realloc_room n =
      let capacity : ℕ = max min_capacity ((available r + n) * 2) in
      omega (
        arith,
        length-blit (replicate capacity 0) 0 (unread r),
        length-replicate {A = ℕ} capacity 0,
      )

stored :
    (r r' : StreamingReader) (bytes : List ℕ)
    → Keeps r (unread r) r'
    → r'.end + length bytes ≤ length r'.buffer
    → Keeps r
        (unread r ++ bytes)
        (record r' { buffer = blit r'.buffer r'.end bytes; end = r'.end + length bytes })
stored r r' bytes k room = record {
  valid = record {
    order = omega (arith, k.valid.order);
    fits = omega (arith, length-blit r'.buffer r'.end bytes);
  };
  held =
      subarray-blit_end r'.buffer r'.offset r'.end bytes _ k.valid.order refl room
      ∙ ap (λ (t : List ℕ). t ++ bytes) k.held;
  same_error = k.same_error;
  same_done = k.same_done;
}

module _ (r : StreamingReader) (v : IsValid r) where
  append-Keeps : (bytes : List ℕ) → Keeps r (unread r ++ bytes) (append bytes r)
  unfolding append
  append-Keeps [] = record {
    valid = v;
    held = sym (append-nil (unread r));
    same_error = refl;
    same_done = refl;
  }
  append-Keeps (b ∷ bytes) =
      let n : ℕ = length (b ∷ bytes) in
      elim (Bool-cases (ltb (length r.buffer) (r.end + n))) [
        | inl full ↦
            rw full (stored r (realloc n r) (b ∷ bytes) (realloc-Keeps r v n) (realloc_room r v n))
        | inr room ↦ rw room (
            stored r r (b ∷ bytes)
              (record { valid = v; held = refl; same_error = refl; same_done = refl })
              (ground (arith, room)))
      ]

module _ (r : StreamingReader) (v : IsValid r) where
  -- A chunk that arrives is added behind the unread bytes; pausing the socket keeps them.
  pub chunk-Keeps : (bytes : List ℕ) → Keeps r (unread r ++ bytes) (handle (chunk bytes) (resume r))
  unfolding handle resume
  chunk-Keeps bytes =
      let k = append-Keeps (resume r) (record { order = v.order; fits = v.fits }) bytes in
      record {
        valid = record { order = k.valid.order; fits = k.valid.fits };
        held = k.held;
        same_error = k.same_error;
        same_done = k.same_done;
      }

  pub advance-Keeps : (n : ℕ) → n ≤ length (unread r) → Keeps r (drop n (unread r)) (advance n r)
  unfolding advance resume
  advance-Keeps n h =
      let w : r.offset + n ≤ r.end = omega (arith, v.order, available-length r v) in
      let e : unread (record r { offset = r.offset + n }) ≡ drop n (unread r) =
        sym (drop-subarray n r.buffer r.offset r.end) in
      elim (Bool-cases (r.paused_by_us && ltb ((r.end - (r.offset + n)) * 2) pause_threshold)) [
        | inl low ↦ rw low (record {
          valid = record { order = w; fits = v.fits };
          held = e;
          same_error = refl;
          same_done = refl;
        })
        | inr keep ↦ rw keep (record {
          valid = record { order = w; fits = v.fits };
          held = e;
          same_error = refl;
          same_done = refl;
        })
      ]

abbrev pub session : StreamingReader → List (List ℕ) → Session
session r chunks = record { reader = r; events = map chunk chunks }

-- The bytes that are unread and those still to come.
abbrev pub stream : StreamingReader → List (List ℕ) → List ℕ
stream r chunks = unread r ++ flatten chunks

-- `w` has returned `v`, on an open reader, and the bytes that follow are `rest`.
pub record Gives {ℓ} {A : Type ℓ} (w : Wait Session A) (v : A) (rest : List ℕ) : Type ℓ where
  pub reader : StreamingReader
  pub chunks : List (List ℕ)
  pub returned : w ≡ got v (session reader chunks)
  pub open_still : IsOpen reader
  pub left : stream reader chunks ≡ rest

-- One call after another that has returned.
pub then_returns {ℓ κ} :
    {A : Type ℓ} {B : Type κ} {w : Wait Session A} {v : A} {s : Session} {x : Wait Session B}
    (f : A → Awaits Session B)
    → w ≡ got v s
    → f v s ≡ x
    → resume_with w f ≡ x
then_returns f p q = ap (λ t. resume_with t f) p ∙ q

pub Keeps-IsOpen :
    {r r' : StreamingReader} {bytes : List ℕ} → IsOpen r → Keeps r bytes r' → IsOpen r'
Keeps-IsOpen o k = record {
  valid = k.valid;
  no_error = k.same_error ∙ o.no_error;
  not_done = k.same_done ∙ o.not_done;
}

-- A chunk moves from those to come to the unread bytes.
pub chunk-stream :
    (r : StreamingReader) (v : IsValid r) (c : List ℕ) (chunks : List (List ℕ))
    → stream (handle (chunk c) (resume r)) chunks ≡ stream r (c ∷ chunks)
chunk-stream r v c chunks =
    ap (λ (t : List ℕ). t ++ flatten chunks) (chunk-Keeps r v c).held
    ∙ append_assoc (unread r) c (flatten chunks)

-- An open reader waits for the next event.
pub wait_or_end-IsOpen {ℓ} :
    {A : Type ℓ} (r : StreamingReader) (events : List Event) (ended next : Wait Session A)
    → IsOpen r
    → wait_or_end r events ended next ≡ next
wait_or_end-IsOpen r events ended next o = rw (o.no_error, o.not_done) refl

pub record Ensured (n : ℕ) (w : Wait Session (Unit {0})) (bytes : List ℕ) : Type 0 where
  pub gives : Gives w tt bytes
  pub enough : n ≤ length (unread gives.reader)

-- Where the stream has `n` bytes, `ensure(n)` waits until they are in the buffer and returns.
pub ensure_loop-Ensured :
    (n : ℕ) (chunks : List (List ℕ)) (r : StreamingReader)
    → IsOpen r
    → n ≤ length (stream r chunks)
    → Ensured n (ensure_loop n (map chunk chunks) r) (stream r chunks)
unfolding ensure_loop
ensure_loop-Ensured n [] r o h =
    let e : n ≤ length (unread r) = omega (arith, length-append (unread r) []) in
    let l : leb n (available r) ≡ true = le→leb _ _ (omega (arith, available-length r o.valid)) in
    record {
      gives = record { reader = r; chunks = []; returned = rw l; open_still = o; left = refl };
      enough = e;
    }
ensure_loop-Ensured n (c ∷ chunks) r o h = elim (Bool-cases (leb n (available r))) [
  | inl l ↦
      let m : n ≤ available r = ground (arith, l) in
      record {
        gives = record {
          reader = r;
          chunks = c ∷ chunks;
          returned = rw l;
          open_still = o;
          left = refl;
        };
        enough = omega (arith, m, available-length r o.valid);
      }
  | inr l ↦
      let r' : StreamingReader = handle (chunk c) (resume r) in
      let e = chunk-stream r o.valid c chunks in
      let i =
        ensure_loop-Ensured n chunks r' (Keeps-IsOpen o (chunk-Keeps r o.valid c))
          (omega (arith, ap (λ (t : List ℕ). length t) e)) in
      record {
        gives = record {
          reader = i.gives.reader;
          chunks = i.gives.chunks;
          returned = rw l (wait_or_end-IsOpen r _ _ _ o ∙ i.gives.returned);
          open_still = i.gives.open_still;
          left = i.gives.left ∙ e;
        };
        enough = i.enough;
      }
]
