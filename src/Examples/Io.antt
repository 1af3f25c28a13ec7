-- ===== src/Examples/Io.antt =====
-- native/io.ts at concrete inputs.
use chwire.Prelude.{ℕ, ◌+◌, ◌≡◌, refl, List, [], ◌∷◌, ◌++◌, length, drop, blit, arith, ◌∙◌, ap}
use chwire.Prelude.Int.{pos}
use chwire.Prelude.Text.{codes}
use chwire.Prelude.Result.{good}
use chwire.Prelude.Outcome.{ok}
use chwire.Io.VarInt.{write_var_int, read_var_int, read_var_int64}
use chwire.Io.VarInt.Encode.{leb128, leb128_small, leb128_large, write_var_int-leb128}
use chwire.Io.VarInt.Decode.{read_var_int-leb128, read_var_int64-leb128}
use chwire.Io.VarInt.Accepted.{HasRead, read_loop-HasRead}
use chwire.Io.Writer.{BufferWriter, write_string}
use chwire.Io.Writer.Contents.{Appends}
use chwire.Io.Writer.Text.{write_string-Appends}
use chwire.Io.Reader.{read_string}
use chwire.Io.Reader.Reads.{Reads, string_bytes, read_string-Reads}
use chwire.Io.BlockBuffer.{BlockBuffer, view, append, consume}
use chwire.Io.BlockBuffer.Queue
use chwire.Examples.Platform.{ascii}

abbrev hello : List ℕ
hello = codes "hello"

leb128_300 : leb128 300 ≡ 172 ∷ 2 ∷ []
leb128_300 = ground (arith, leb128_large 300, leb128_small 2)

write_var_int-leb128_example :
    write_var_int (9 ∷ 9 ∷ 9 ∷ []) 1 (pos 300)
    ≡ good (blit (9 ∷ 9 ∷ 9 ∷ []) 1 (leb128 300), length (leb128 300))
write_var_int-leb128_example = write_var_int-leb128 (9 ∷ 9 ∷ 9 ∷ []) 1 300

behind_one : drop 1 (9 ∷ 172 ∷ 2 ∷ 7 ∷ []) ≡ leb128 300 ++ 7 ∷ []
behind_one = rw leb128_300

read_300 : read_var_int (172 ∷ 2 ∷ []) 0 ≡ ok 300 2
read_300 =
    read_var_int-leb128 300 0 (172 ∷ 2 ∷ []) [] (omega arith) (rw leb128_300)
    ∙ ap (λ (t : List ℕ). ok 300 (0 + length t)) leb128_300

read64_300 : read_var_int64 (172 ∷ 2 ∷ []) 0 ≡ ok 300 2
read64_300 =
    read_var_int64-leb128 300 0 (172 ∷ 2 ∷ []) [] (omega arith) (rw leb128_300)
    ∙ ap (λ (t : List ℕ). ok 300 (0 + length t)) leb128_300

read_loop-HasRead_example : HasRead (172 ∷ 2 ∷ []) 0 300 2
read_loop-HasRead_example =
    read_loop-HasRead 5 (172 ∷ 2 ∷ []) 0 300 2 (omega arith) (unfold read_var_int in read_300)

abbrev writer : BufferWriter
writer = record { buffer = 5 ∷ 6 ∷ 7 ∷ []; offset = 2 }

write_string-Appends_example :
    Appends writer (leb128 (length hello) ++ hello) (write_string ascii hello writer)
write_string-Appends_example = write_string-Appends ascii hello writer (omega arith) (omega arith)

read_string-Reads_example : Reads (read_string ascii) (string_bytes ascii hello) hello
read_string-Reads_example = read_string-Reads ascii hello (ground arith) (omega arith)

abbrev queue : BlockBuffer
queue = record {
  buffer = 1 ∷ 2 ∷ 3 ∷ 4 ∷ 0 ∷ [];
  read_offset = 1;
  write_offset = 4;
  initial_size = 5;
}

queue-IsValid : Queue.IsValid queue
queue-IsValid = record { order = omega arith; fits = omega arith }

append-Holds_example : Queue.Holds (view queue ++ hello) (append hello queue)
append-Holds_example = Queue.append-Holds queue queue-IsValid hello

three_left : length (view queue) ≡ 3
unfolding view
three_left = refl

consume-Holds_example :
    (b' : BlockBuffer) × (consume 2 queue ≡ ok tt b') × Queue.Holds (drop 2 (view queue)) b'
consume-Holds_example = Queue.consume-Holds queue queue-IsValid 2 (omega (arith, three_left))
