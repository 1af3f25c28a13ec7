-- ===== src/Tcp/Reader.antt =====
-- tcp_client/reader.ts, class StreamingReader. A method that awaits runs on the reader and the
-- socket's events still to come; there is one reading method at a time, so the field `wake` is
-- only ever set between two events and is left out.
pub mod Methods
pub mod Stream
pub mod Takes
pub mod Values
pub mod Blocks
pub mod Ends
use chwire.Prelude.{
  ℕ, zero, suc, ◌+◌, ◌-◌, ◌*◌, ◌<◌, max, ltb, leb, ◌==◌, ◌&&◌, ◌||◌, not, if◌then◌else◌, Bool, true,
  false, List, [], ◌∷◌, length, get_elem?, replicate, take, drop, blit, subarray, Option, none,
  some,
}
use chwire.Prelude.Int.{ℤ, of_word32}
use chwire.Prelude.Result.{Error, plain_error, buffer_underflow, range_error, Result, good, bad}
use chwire.Prelude.Outcome.{Outcome, ok, err}
use chwire.Io.VarInt.{read_var_int64}
use chwire.Io.Utf8.{Utf8}
use chwire.Io.Words.{le_value}
use chwire.Compression.{
  Backends, read_uint32_le, decode_block, checksum_size, header_size, max_decompressed_block_size,
}
use chwire.Tcp.Wait.{
  Event, chunk, finished, failed, Wait, got, threw, pending, Awaits, done_with, fails, ◌>>=◌, ◌>>◌,
}

abbrev pub max_compressed_block_size : ℕ
max_compressed_block_size = 128 * 1024 * 1024

abbrev pub pause_threshold : ℕ
pause_threshold = 16 * 1024 * 1024

abbrev pub min_capacity : ℕ
min_capacity = 64 * 1024

pub record StreamingReader : Type 0 where
  pub buffer : List ℕ
  pub offset : ℕ
  pub end : ℕ
  pub returned_end : ℕ
  pub done : Bool
  pub error : Option Error
  pub paused_by_us : Bool

unfoldable pub new : StreamingReader
new = record {
  buffer = replicate min_capacity 0;
  offset = 0;
  end = 0;
  returned_end = 0;
  done = false;
  error = none;
  paused_by_us = false;
}

abbrev pub available : StreamingReader → ℕ
available r = r.end - r.offset

pub realloc : ℕ → StreamingReader → StreamingReader
realloc incoming r =
    let unread = available r in
    let capacity = max min_capacity ((unread + incoming) * 2) in
    record r {
      buffer = blit (replicate capacity 0) 0 (subarray r.buffer r.offset r.end);
      returned_end = max (r.returned_end - r.offset) 0;
      end = unread;
      offset = 0;
    }

pub append : List ℕ → StreamingReader → StreamingReader
unfolding realloc
append [] r = r
append (b ∷ bytes) r =
    let n = length (b ∷ bytes) in
    let r' = if ltb (length r.buffer) (r.end + n) then realloc n r else r in
    record r' { buffer = blit r'.buffer r'.end (b ∷ bytes); end = r'.end + n }

-- The listeners that the constructor sets on the socket.
pub handle : Event → StreamingReader → StreamingReader
unfolding append
handle (chunk bytes) r =
    let r' = append bytes r in
    record r' { paused_by_us = r'.paused_by_us || leb pause_threshold (available r') }
handle finished r = record r { done = true }
handle (failed e) r = record r { error = some e }

pub resume : StreamingReader → StreamingReader
resume r = record r { paused_by_us = false }

pub advance : ℕ → StreamingReader → StreamingReader
unfolding resume
advance n r =
    let r' = record r { offset = r.offset + n } in
    if r'.paused_by_us && ltb (available r' * 2) pause_threshold then resume r' else r'

pub consume : ℕ → StreamingReader → Outcome StreamingReader (Unit {0})
unfolding advance
consume n r = if ltb (available r) n then err plain_error r else ok tt (advance n r)

pub peek_all : StreamingReader → List ℕ × StreamingReader
peek_all r = (subarray r.buffer r.offset r.end, record r { returned_end = r.end })

pub record Session : Type 0 where
  pub reader : StreamingReader
  pub events : List Event

-- `waitOrEnd()` where a loop has to wait: it throws the socket's error, or goes on with `ended` at
-- the end, or with `next` behind the next event.
abbrev pub wait_or_end {ℓ} :
    {A : Type ℓ} → StreamingReader → List Event → Wait Session A → Wait Session A → Wait Session A
wait_or_end r events ended next = elim r.error [
  | some e ↦ threw e (record { reader = r; events = events })
  | none ↦ if r.done then ended else next
]

-- The loop of `ensure(n)`.
pub ensure_loop : ℕ → List Event → StreamingReader → Wait Session (Unit {0})
unfolding handle resume
ensure_loop n [] r =
    let s : Session = record { reader = r; events = [] } in
    if leb n (available r)
    then got tt s
    else wait_or_end r [] (threw plain_error s)
        (pending (record { reader = resume r; events = [] }))
ensure_loop n (event ∷ events) r =
    let s : Session = record { reader = r; events = event ∷ events } in
    let next = ensure_loop n events (handle event (resume r)) in
    if leb n (available r)
    then got tt s
    else wait_or_end r (event ∷ events) (threw plain_error s) next

unfoldable pub ensure : ℕ → Awaits Session (Unit {0})
unfolding ensure_loop
ensure n s = ensure_loop n s.events s.reader

-- `advance` and the bytes before it, as the methods do that have ensured enough.
pub taking : ℕ → Awaits Session (List ℕ)
unfolding advance
taking n s =
    let r = s.reader in
    got (subarray r.buffer r.offset (r.offset + n)) (record s { reader = advance n r })

-- The loop of `nextChunk()`; `none` is null.
pub next_chunk_loop : List Event → StreamingReader → Wait Session (Option (List ℕ))
unfolding handle resume
next_chunk_loop [] r =
    let fresh = subarray r.buffer r.returned_end r.end in
    let s : Session = record { reader = r; events = [] } in
    if ltb r.returned_end r.end
    then got (some fresh) (record { reader = record r { returned_end = r.end }; events = [] })
    else wait_or_end r [] (got none s) (pending (record { reader = resume r; events = [] }))
next_chunk_loop (event ∷ events) r =
    let fresh = subarray r.buffer r.returned_end r.end in
    let s : Session = record { reader = r; events = event ∷ events } in
    let next = next_chunk_loop events (handle event (resume r)) in
    if ltb r.returned_end r.end
    then got (some fresh)
        (record { reader = record r { returned_end = r.end }; events = event ∷ events })
    else wait_or_end r (event ∷ events) (got none s) next

unfoldable pub next_chunk : Awaits Session (Option (List ℕ))
unfolding next_chunk_loop
next_chunk s = next_chunk_loop s.events s.reader

-- What the loop of `readVarint()` makes of what `readVarInt64` returns or throws. An underflow waits.
pub varint_step : StreamingReader → List Event → Wait Session ℕ → Outcome ℕ ℕ → Wait Session ℕ
unfolding advance
varint_step r events next (ok v offset) =
    got v (record { reader = advance (offset - r.offset) r; events = events })
varint_step r events next (err buffer_underflow offset) =
    wait_or_end r events (threw plain_error (record { reader = r; events = events })) next
varint_step r events next (err e offset) = threw e (record { reader = r; events = events })

pub varint_loop : List Event → StreamingReader → Wait Session ℕ
unfolding varint_step handle resume
varint_loop [] r =
    varint_step r [] (pending (record { reader = resume r; events = [] }))
      (read_var_int64 (subarray r.buffer 0 r.end) r.offset)
varint_loop (event ∷ events) r =
    let next = varint_loop events (handle event (resume r)) in
    varint_step r (event ∷ events) next (read_var_int64 (subarray r.buffer 0 r.end) r.offset)

unfoldable pub read_varint : Awaits Session ℕ
unfolding varint_loop
read_varint s = varint_loop s.events s.reader
