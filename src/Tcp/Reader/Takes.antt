-- ===== src/Tcp/Reader/Takes.antt =====
-- What the reading methods of the StreamingReader make of the bytes of a stream, however they are
-- cut into chunks.
use chwire.Prelude.{
  ℕ, ◌+◌, ◌-◌, ◌^◌, ◌≤◌, ◌<◌, ◌≡◌, refl, ap, ◌∙◌, sym, List, [], ◌∷◌, ◌++◌, length, map, take, drop,
  ◌⊎◌, subarray, arith, length-append, drop-subarray, append_assoc, inl, inr, drop-length_append,
  take-length_append, take-take, take-append-drop, take-append_le, drop-append_le,
}
use chwire.Prelude.Outcome.{ok}
use chwire.Compression.Layout.{flatten}
use chwire.Io.VarInt.{read_var_int64}
use chwire.Io.VarInt.Encode.{leb128}
use chwire.Io.VarInt.Decode.{read_var_int64-leb128}
use chwire.Io.VarInt.Bounds.{read_var_int64_truncated}
use chwire.Tcp.Wait.{chunk, Wait, got, Awaits, ◌>>=◌}
use chwire.Tcp.Reader.{
  StreamingReader, Session, handle, resume, advance, ensure, taking, varint_step, varint_loop,
  read_varint,
}
use chwire.Tcp.Reader.Methods.{read_bytes}
use chwire.Tcp.Reader.Stream.{
  unread, IsOpen, session, stream, Gives, Keeps-IsOpen, chunk-stream, chunk-Keeps, advance-Keeps,
  ensure_loop-Ensured, available-length, wait_or_end-IsOpen,
}

-- Where `bytes` come next, in the buffer or in chunks to come, `m` takes exactly them and returns `v`.
pub record Takes {ℓ} {A : Type ℓ} (m : Awaits Session A) (bytes : List ℕ) (v : A) : Type ℓ where
  pub at :
      (r : StreamingReader) (chunks : List (List ℕ)) (rest : List ℕ)
      → IsOpen r
      → stream r chunks ≡ bytes ++ rest
      → Gives (m (session r chunks)) v rest

module _ {ℓ} {A : Type ℓ} where
  pub Takes-return : (a : A) → Takes (λ s. got a s) [] a
  Takes-return a = record {
    at = λ r chunks rest o e. record {
      reader = r;
      chunks = chunks;
      returned = refl;
      open_still = o;
      left = e;
    };
  }

  pub Takes-of_eq :
      {m : Awaits Session A} {b c : List ℕ} {v : A} → Takes m b v → b ≡ c → Takes m c v
  Takes-of_eq {m} {b} {c} {v} h e = rw (← e) h

module _ {ℓ κ} {A : Type ℓ} {B : Type κ} where
  -- One read after another takes the bytes of the one and then of the other.
  pub Takes-bind :
      {m : Awaits Session A} (f : A → Awaits Session B) {b c : List ℕ} {v : A} {x : B}
      → Takes m b v
      → Takes (f v) c x
      → Takes (m >>= f) (b ++ c) x
  Takes-bind {m} f {b} {c} {v} {x} p q = record {
    at = λ r chunks rest o e.
        let g = p.at r chunks (c ++ rest) o (e ∙ append_assoc b c rest) in
        let g' = q.at g.reader g.chunks rest g.open_still g.left in
        record {
          reader = g'.reader;
          chunks = g'.chunks;
          returned = rw g.returned g'.returned;
          open_still = g'.open_still;
          left = g'.left;
        };
  }

-- The first bytes of a stream, where all of them are in the buffer.
module _ (r : StreamingReader) (chunks : List (List ℕ)) (bytes rest : List ℕ) (o : IsOpen r)
    (e : stream r chunks ≡ bytes ++ rest) (h : length bytes ≤ length (unread r)) where
  front_of : take (length bytes) (unread r) ≡ bytes
  front_of =
      sym (take-append_le (length bytes) (unread r) (flatten chunks) h)
      ∙ ap (take (length bytes)) e
      ∙ take-length_append bytes rest

  pub first_bytes : subarray r.buffer r.offset (r.offset + length bytes) ≡ bytes
  first_bytes =
      let n : ℕ = length bytes in
      let d : r.offset + n - r.offset ≡ n = omega arith in
      ap (λ (t : ℕ). take t (drop r.offset r.buffer)) d
      ∙ sym (
          take-take n (r.end - r.offset) (drop r.offset r.buffer)
            (omega (arith, available-length r o.valid)))
      ∙ front_of

  -- `advance` over them leaves the rest.
  pub advanced :
      {A : Type 0} (v : A) → Gives (got v (session (advance (length bytes) r) chunks)) v rest
  advanced v =
      let n : ℕ = length bytes in
      let k = advance-Keeps r o.valid n h in
      record {
        reader = advance n r;
        chunks = chunks;
        returned = refl;
        open_still = Keeps-IsOpen o k;
        left =
            ap (λ (t : List ℕ). t ++ flatten chunks) k.held
            ∙ sym (drop-append_le n (unread r) (flatten chunks) h)
            ∙ ap (drop n) e
            ∙ drop-length_append bytes rest;
      }

  pub taking-Gives : Gives (taking (length bytes) (session r chunks)) bytes rest
  unfolding taking
  taking-Gives = rw first_bytes (advanced bytes)

all_bytes : (bytes : List ℕ) → Takes (read_bytes (length bytes)) bytes bytes
unfolding read_bytes ensure
all_bytes bytes = record {
  at = λ r chunks rest o e.
      let l : length bytes ≤ length (stream r chunks) =
        omega (arith, ap (λ (t : List ℕ). length t) e, length-append bytes rest) in
      let i = ensure_loop-Ensured (length bytes) chunks r o l in
      let g = i.gives in
      let t =
        taking-Gives g.reader g.chunks bytes rest g.open_still (g.left ∙ e)
          (omega (arith, i.enough)) in
      record {
        reader = t.reader;
        chunks = t.chunks;
        returned = rw g.returned t.returned;
        open_still = t.open_still;
        left = t.left;
      };
}

-- The next bytes are read, whichever chunks they come in.
pub read_bytes-Takes :
    (bytes : List ℕ) (n : ℕ) → n ≡ length bytes → Takes (read_bytes n) bytes bytes
read_bytes-Takes bytes n h = rw h (all_bytes bytes)

-- Two ways to cut a list: the first part of one lies inside that of the other.
overlap :
    (xs ys zs ws : List ℕ)
    → xs ++ ys ≡ zs ++ ws
    → (length zs ≤ length xs) ⊎ ((x : ℕ) × (back : List ℕ) × (zs ≡ xs ++ x ∷ back))
overlap xs ys [] ws e = inl (omega arith)
overlap [] ys (z ∷ zs) ws e = inr (z, zs, refl)
overlap (x ∷ xs) ys (z ∷ zs) ws e = elim (overlap xs ys zs ws (cc e)) [
  | inl h ↦ inl (omega arith)
  | inr (y, back, p) ↦ inr (y, back, cc (p, e))
]

inside : (r : StreamingReader) → drop r.offset (subarray r.buffer 0 r.end) ≡ unread r
inside r =
    let z : 0 + r.offset ≡ r.offset = omega arith in
    drop-subarray r.offset r.buffer 0 r.end ∙ ap (λ (t : ℕ). subarray r.buffer t r.end) z

module _ (v : ℕ) (hv : v < 2 ^ 70) where
  -- The whole encoding is in the buffer.
  whole :
      (r : StreamingReader) (chunks : List (List ℕ)) (rest : List ℕ)
      → IsOpen r
      → stream r chunks ≡ leb128 v ++ rest
      → length (leb128 v) ≤ length (unread r)
      → read_var_int64 (subarray r.buffer 0 r.end) r.offset ≡ ok v (r.offset + length (leb128 v))
  whole r chunks rest o e h =
      read_var_int64-leb128 v r.offset (subarray r.buffer 0 r.end)
        (drop (length (leb128 v)) (unread r)) hv
        (inside r
          ∙ sym (take-append-drop (length (leb128 v)) (unread r))
          ∙ ap (λ (t : List ℕ). t ++ drop (length (leb128 v)) (unread r))
              (front_of r chunks (leb128 v) rest o e h))

  -- Where it is, the loop returns at once.
  at_once :
      (r : StreamingReader) (chunks : List (List ℕ)) (rest : List ℕ) (next : Wait Session ℕ)
      → IsOpen r
      → stream r chunks ≡ leb128 v ++ rest
      → length (leb128 v) ≤ length (unread r)
      → Gives
          (varint_step r
            (map chunk chunks)
            next
            (read_var_int64 (subarray r.buffer 0 r.end) r.offset))
          v
          rest
  unfolding varint_step
  at_once r chunks rest next o e h =
      let d : r.offset + length (leb128 v) - r.offset ≡ length (leb128 v) = omega arith in
      let g = advanced r chunks (leb128 v) rest o e h v in
      record {
        reader = g.reader;
        chunks = g.chunks;
        returned =
            ap (varint_step r (map chunk chunks) next) (whole r chunks rest o e h)
            ∙ ap (λ (t : ℕ). got v (session (advance t r) chunks)) d
            ∙ g.returned;
        open_still = g.open_still;
        left = g.left;
      }

  -- The encoding is read, whichever chunks its bytes come in.
  varint_loop-Gives :
      (chunks : List (List ℕ)) (r : StreamingReader) (rest : List ℕ)
      → IsOpen r
      → stream r chunks ≡ leb128 v ++ rest
      → Gives (varint_loop (map chunk chunks) r) v rest
  unfolding varint_loop varint_step
  varint_loop-Gives [] r rest o e = elim (overlap (unread r) [] (leb128 v) rest e) [
    | inl h ↦ at_once r [] rest _ o e h
    | inr (x, back, p) ↦ absurd (
        omega (
          arith,
          ap (λ (t : List ℕ). length t) e,
          ap (λ (t : List ℕ). length t) p,
          length-append (unread r) [],
          length-append (unread r) (x ∷ back),
          length-append (leb128 v) rest,
        ))
  ]
  varint_loop-Gives (c ∷ chunks) r rest o e =
      elim (overlap (unread r) (c ++ flatten chunks) (leb128 v) rest e) [
        | inl h ↦ at_once r (c ∷ chunks) rest _ o e h
        | inr (x, back, p) ↦
            let r' : StreamingReader = handle (chunk c) (resume r) in
            let i =
              varint_loop-Gives chunks r' rest (Keeps-IsOpen o (chunk-Keeps r o.valid c))
                (chunk-stream r o.valid c chunks ∙ e) in
            record {
              reader = i.reader;
              chunks = i.chunks;
              returned =
                  ap (varint_step r (map chunk (c ∷ chunks)) (varint_loop (map chunk chunks) r')) (
                    read_var_int64_truncated v r.offset x (subarray r.buffer 0 r.end) (unread r)
                      back hv (inside r) p)
                  ∙ wait_or_end-IsOpen r _ _ _ o
                  ∙ i.returned;
              open_still = i.open_still;
              left = i.left;
            }
      ]

-- On an open reader, a varint below 2 ^ 70 is read, whichever chunks its bytes come in, and the
-- stream goes on right behind it.
pub read_varint-Takes : (v : ℕ) → v < 2 ^ 70 → Takes read_varint (leb128 v) v
unfolding read_varint
read_varint-Takes v h = record { at = λ r chunks rest o e. varint_loop-Gives v h chunks r rest o e }
