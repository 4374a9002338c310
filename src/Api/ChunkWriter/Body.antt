-- ===== src/Api/ChunkWriter/Body.antt =====
-- The parser's view of the payload that the serializer writes.
use open_rtmp_claude_kiro.Common.{
  List, arith, drop, drop-append_self, length, length-append, take, take-append_self, ℕ, ◌++◌, ◌+◌,
  ◌-◌, ◌<◌, ◌^◌, ◌≡◌, ◌≤◌,
}
use open_rtmp_claude_kiro.Protocol.ChunkParser.Header.{start_message}
use open_rtmp_claude_kiro.Protocol.ChunkParser.Rounds.{again, complete_chunk, read_payload}
use open_rtmp_claude_kiro.Protocol.ChunkParser.State.{
  ChunkParser, ChunkStreamState, put_stream_state,
}

-- The state of a stream that holds `front` of a message and lacks `n` bytes of it.
abbrev pub holding : List ℕ → ℕ → ChunkStreamState → ChunkStreamState
holding front n s = record s { partial_payload = front; remaining_bytes = n }

pub drop-append : {A : Type 0} (xs ys : List A) (n : ℕ) → n ≡ length xs → drop n (xs ++ ys) ≡ ys
drop-append xs ys n e = rw e (drop-append_self xs ys)

pub take-append : {A : Type 0} (xs ys : List A) (n : ℕ) → n ≡ length xs → take n (xs ++ ys) ≡ xs
take-append xs ys n e = rw e (take-append_self xs ys)

-- One chunk whose payload is all there: `head` is what the headers took. `n` bytes are wanted.
module _ (csid : ℕ) (s : ChunkStreamState) (p : ChunkParser) (head chunk rest : List ℕ) (size : ℕ)
    (sized : size ≡ length head) where
  available : length (head ++ (chunk ++ rest)) ≡ size + (length chunk + length rest)
  available = omega (arith, sized, length-append head (chunk ++ rest), length-append chunk rest)

  -- The last chunk of a message.
  pub read_payload-last :
      (start_message s).remaining_bytes ≡ length chunk
      → length chunk ≤ p.chunk_size
      → length chunk < 2 ^ 32
      → read_payload csid s size p (head ++ (chunk ++ rest))
        ≡ again
            (complete_chunk csid
              (holding ((start_message s).partial_payload ++ chunk) 0 (start_message s))
              p)
            (size + length chunk)
            1
  unfolding read_payload
  read_payload-last e h l =
      ground
        (arith, available, drop-append head (chunk ++ rest) size sized, take-append_self chunk rest)

  -- Any other.
  pub read_payload-more :
      (n : ℕ)
      → (start_message s).remaining_bytes ≡ n
      → p.chunk_size < n
      → length chunk ≡ p.chunk_size
      → n < 2 ^ 32
      → read_payload csid s size p (head ++ (chunk ++ rest))
        ≡ again
            (put_stream_state csid
              (holding
                ((start_message s).partial_payload ++ chunk)
                (n - length chunk)
                (start_message s))
              p)
            (size + length chunk)
            0
  unfolding read_payload
  read_payload-more n e h hc l =
      ground
        (arith, available, drop-append head (chunk ++ rest) size sized, take-append_self chunk rest)
