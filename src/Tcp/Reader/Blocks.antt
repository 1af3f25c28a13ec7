-- ===== src/Tcp/Reader/Blocks.antt =====
-- Compressed blocks on a stream: the frame is found, checked and decoded, however the socket cuts it
-- into chunks.
use chwire.Prelude.{
  ℕ, ◌+◌, ◌-◌, ◌≤◌, ◌<◌, ◌≡◌, refl, ap, ◌∙◌, sym, List, ◌++◌, length, take, drop, subarray, arith,
  length-append, length-take, length-drop, append_assoc, take_split, take-append-drop,
}
use chwire.Prelude.Result.{good}
use chwire.Compression.{Backends, decode_block, read_uint32_le}
use chwire.Compression.Sound.{decode_block-IsAccepted, read_uint32_le-part}
use chwire.Tcp.Wait.{got, done_with, ◌>>=◌}
use chwire.Tcp.Reader.{StreamingReader, max_compressed_block_size, ensure, taking}
use chwire.Tcp.Reader.Methods.{
  frame_size, frame_result, decode_frame, read_compressed_block, discard_compressed_block,
}
use chwire.Tcp.Reader.Stream.{
  IsOpen, unread, session, stream, Gives, then_returns, ensure_loop-Ensured,
}
use chwire.Tcp.Reader.Takes.{Takes, first_bytes, taking-Gives}

-- A word of a block's header, where the header lies in a buffer.
header_word :
    (buffer block : List ℕ) (offset o i : ℕ)
    → 25 ≤ length block
    → offset ≤ length buffer
    → take 25 (drop offset buffer) ≡ take 25 block
    → o ≡ offset + 16 + i
    → i + 3 < 9
    → read_uint32_le buffer o ≡ read_uint32_le (subarray block 16 25) i
header_word buffer block offset o i hb ho e eo hi =
    let front : List ℕ = take offset buffer in
    let header : List ℕ = subarray block 16 25 in
    let back : List ℕ = drop 25 (drop offset buffer) in
    let whole : buffer ≡ (front ++ take 16 block) ++ (header ++ back) =
      sym (take-append-drop offset buffer)
      ∙ ap (λ (t : List ℕ). front ++ t)
          (sym (take-append-drop 25 (drop offset buffer))
            ∙ ap (λ (t : List ℕ). t ++ back) (e ∙ take_split 16 9 25 block refl)
            ∙ append_assoc (take 16 block) header back)
      ∙ sym (append_assoc front (take 16 block) (header ++ back)) in
    ap (λ (t : List ℕ). read_uint32_le t o) whole
    ∙ read_uint32_le-part (front ++ take 16 block) header back o i
        (omega (
          arith,
          length-append front (take 16 block),
          length-take offset buffer,
          length-take 16 block,
        ))
        (omega (arith, length-take 9 (drop 16 block), length-drop 16 block))

module _ (k : Backends) (block raw : List ℕ) (e : decode_block k block ≡ good raw)
    (h : length block ≤ 25 + max_compressed_block_size) where
  -- With the header in the buffer, the size of the frame is that of the block.
  frame_size-block :
      (r : StreamingReader) (chunks : List (List ℕ)) (rest : List ℕ)
      → IsOpen r
      → stream r chunks ≡ block ++ rest
      → 25 ≤ length (unread r)
      → frame_size (session r chunks) ≡ got (length block) (session r chunks)
  unfolding frame_size
  frame_size-block r chunks rest o s fits =
      let a = decode_block-IsAccepted k block raw e in
      let n : length (take 25 block) ≡ 25 = omega (arith, length-take 25 block, a.long_enough) in
      let split : stream r chunks ≡ take 25 block ++ (drop 25 block ++ rest) =
        s
        ∙ ap (λ (t : List ℕ). t ++ rest) (sym (take-append-drop 25 block))
        ∙ append_assoc (take 25 block) (drop 25 block) rest in
      let front : take 25 (drop r.offset r.buffer) ≡ take 25 block =
        let d : r.offset + length (take 25 block) - r.offset ≡ 25 = omega (arith, n) in
        ap (λ (t : ℕ). take t (drop r.offset r.buffer)) (sym d)
        ∙ first_bytes r chunks (take 25 block) (drop 25 block ++ rest) o split (omega (arith, n)) in
      let inside : r.offset ≤ length r.buffer = omega (arith, o.valid.order, o.valid.fits) in
      let size =
        header_word r.buffer block r.offset (r.offset + 16 + 1) 1 a.long_enough inside front refl
          (omega arith) in
      let raw_size =
        header_word r.buffer block r.offset (r.offset + 16 + 5) 5 a.long_enough inside front refl
          (omega arith) in
      ground (arith, size, raw_size, a.size_agrees, a.result_size, a.bounded, a.long_enough)

  -- The whole frame is in the buffer: it is decoded, and the offset moves behind it.
  decode_frame-Gives :
      (r : StreamingReader) (chunks : List (List ℕ)) (rest : List ℕ)
      → IsOpen r
      → stream r chunks ≡ block ++ rest
      → length block ≤ length (unread r)
      → Gives (decode_frame k (length block) (session r chunks)) raw rest
  unfolding decode_frame frame_result
  decode_frame-Gives r chunks rest o s fits =
      let t = taking-Gives r chunks block rest o s fits in
      record {
        reader = t.reader;
        chunks = t.chunks;
        returned =
            ap (λ (b : List ℕ). frame_result (length block) (decode_block k b) (session r chunks))
              (first_bytes r chunks block rest o s fits)
            ∙ ap (λ b. frame_result (length block) b (session r chunks)) e
            ∙ then_returns (λ bytes. done_with raw) t.returned refl;
        open_still = t.open_still;
        left = t.left;
      }

  -- On an open reader, a block that decodes, of at most 128 MiB compressed, is read as what it
  -- decodes to, whichever chunks its bytes come in, and the stream goes on right behind it.
  pub read_compressed_block-Takes : Takes (read_compressed_block k) block raw
  unfolding read_compressed_block ensure
  read_compressed_block-Takes = record {
    at = λ r chunks rest o s.
        let a = decode_block-IsAccepted k block raw e in
        let l : length (stream r chunks) ≡ length block + length rest =
          ap (λ (t : List ℕ). length t) s ∙ length-append block rest in
        let i = ensure_loop-Ensured 25 chunks r o (omega (arith, l, a.long_enough)) in
        let g = i.gives in
        let f = frame_size-block g.reader g.chunks rest g.open_still (g.left ∙ s) i.enough in
        let i' =
          ensure_loop-Ensured (length block) g.chunks g.reader g.open_still
            (omega (arith, l, ap (λ (t : List ℕ). length t) g.left)) in
        let g' = i'.gives in
        let d =
          decode_frame-Gives g'.reader g'.chunks rest g'.open_still (g'.left ∙ g.left ∙ s)
            i'.enough in
        record {
          reader = d.reader;
          chunks = d.chunks;
          returned =
              then_returns (λ _. frame_size >>= λ n. ensure n >>= λ _. decode_frame k n) g.returned
                (then_returns (λ n. ensure n >>= λ _. decode_frame k n) f
                  (then_returns (λ _. decode_frame k (length block)) g'.returned d.returned));
          open_still = d.open_still;
          left = d.left;
        };
  }

  -- On an open reader, discarding a block that decodes, of at most 128 MiB compressed, takes
  -- exactly its bytes, whichever chunks they come in.
  pub discard_compressed_block-Takes : Takes discard_compressed_block block tt
  unfolding discard_compressed_block ensure
  discard_compressed_block-Takes = record {
    at = λ r chunks rest o s.
        let a = decode_block-IsAccepted k block raw e in
        let l : length (stream r chunks) ≡ length block + length rest =
          ap (λ (t : List ℕ). length t) s ∙ length-append block rest in
        let i = ensure_loop-Ensured 25 chunks r o (omega (arith, l, a.long_enough)) in
        let g = i.gives in
        let f = frame_size-block g.reader g.chunks rest g.open_still (g.left ∙ s) i.enough in
        let i' =
          ensure_loop-Ensured (length block) g.chunks g.reader g.open_still
            (omega (arith, l, ap (λ (t : List ℕ). length t) g.left)) in
        let g' = i'.gives in
        let d =
          taking-Gives g'.reader g'.chunks block rest g'.open_still (g'.left ∙ g.left ∙ s)
            i'.enough in
        record {
          reader = d.reader;
          chunks = d.chunks;
          returned =
              then_returns
                (λ _. frame_size >>= λ n. ensure n >>= λ _. taking n >>= λ _. done_with tt)
                g.returned
                (then_returns (λ n. ensure n >>= λ _. taking n >>= λ _. done_with tt) f
                  (then_returns (λ _. taking (length block) >>= λ _. done_with tt) g'.returned
                    (then_returns (λ _. done_with tt) d.returned refl)));
          open_still = d.open_still;
          left = d.left;
        };
  }
