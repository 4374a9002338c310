-- ===== src/Protocol/ChunkParser/Bounds.antt =====
-- What the loop of `parse` keeps: the range of the chunk size, and the count of completed chunks.
use open_rtmp_claude_kiro.Common.{
  List, Option, Option-cases, [], arith, drop, inl, inr, length, length-append, min, none, refl,
  some, sub32, suc, take, u32, zero, ℕ, ◌++◌, ◌+◌, ◌<◌, ◌^◌, ◌∷◌, ◌≡◌, ◌≤◌,
}
use open_rtmp_claude_kiro.Protocol.ChunkParser.Header.{
  BasicHeader, parse_basic_header, parse_extended, parse_message_header, start_message,
}
use open_rtmp_claude_kiro.Protocol.ChunkParser.Rounds.{
  Round, again, complete_chunk, completed_chunk, fail, parse, parse_loop, parse_round,
  process_protocol_control, read_chunk, read_message_header, read_payload, read_pending, stop,
}
use open_rtmp_claude_kiro.Protocol.ChunkParser.State.{
  ChunkData, ChunkParser, ChunkStreamState, ParseResult, abort_chunk_stream, clamp_chunk_size,
  max_chunk_size, min_chunk_size, new_parser, parse_fail, parse_ok, put_stream_state,
  set_chunk_size, stream_state,
}
use open_rtmp_claude_kiro.Protocol.ChunkParser.Total.{
  Ends, parse-Ends, read_chunk-some, read_message_header-some,
}

abbrev pub IsSized : ChunkParser → Type 0
IsSized p = (min_chunk_size ≤ p.chunk_size) × (p.chunk_size ≤ max_chunk_size)

-- A parser that has completed `k` chunks since `n`.
abbrev Counts : ℕ → ℕ → ChunkParser → Type 0
Counts n k p = IsSized p × (length p.completed_chunks ≡ n + k)

new_parser-IsSized : IsSized new_parser
unfolding new_parser
new_parser-IsSized = omega arith

-- Whatever size is asked for, the chunk size stays in range.
set_chunk_size-IsSized : (size : ℕ) (p : ChunkParser) → IsSized (set_chunk_size size p)
unfolding set_chunk_size clamp_chunk_size
set_chunk_size-IsSized size p = ground arith

process_protocol_control-Counts :
    (c : ChunkData) (p : ChunkParser) (n k : ℕ)
    → Counts n k p
    → Counts n k (process_protocol_control c p)
unfolding process_protocol_control set_chunk_size clamp_chunk_size abort_chunk_stream
process_protocol_control-Counts c p n k h = ground arith

complete_chunk-Counts :
    (csid : ℕ) (s : ChunkStreamState) (p : ChunkParser) (n k : ℕ)
    → Counts n k p
    → Counts n (k + 1) (complete_chunk csid s p)
unfolding complete_chunk
complete_chunk-Counts csid s p n k h =
    let q = put_stream_state csid (record s { partial_payload = [] }) p in
    let c = completed_chunk csid s in
    let v = process_protocol_control-Counts c q n k h in
    (v.0, omega (arith, v, length-append (process_protocol_control c q).completed_chunks (c ∷ [])))

-- What a round leaves behind.
abbrev Keeps : ℕ → ℕ → Round → Type 0
Keeps n k (again q m j) = Counts n (k + j) q
Keeps n k (stop q m) = Counts n k q
Keeps n k (fail q e) = Counts n k q

read_pending-Keeps :
    (p : ChunkParser) (bytes : List ℕ) (n k : ℕ) → Counts n k p → Keeps n k (read_pending p bytes)
unfolding read_pending
read_pending-Keeps p bytes n k h =
    let m = min p.pending_chunk_bytes (u32 (length bytes)) in
    let s = stream_state p.pending_chunk_csid p in
    let s' = record s {
      partial_payload = s.partial_payload ++ take m bytes;
      remaining_bytes = sub32 s.remaining_bytes m;
    } in
    let q = record (put_stream_state p.pending_chunk_csid s' p) {
      pending_chunk_bytes = sub32 p.pending_chunk_bytes m;
      pending_chunk_csid = 0;
    } in
    ground (arith, complete_chunk-Counts p.pending_chunk_csid s' q n k h)

read_payload-Keeps :
    (csid : ℕ) (s : ChunkStreamState) (size : ℕ) (p : ChunkParser) (bytes : List ℕ) (n k : ℕ)
    → Counts n k p
    → Keeps n k (read_payload csid s size p bytes)
unfolding read_payload
read_payload-Keeps csid s size p bytes n k h =
    let t = start_message s in
    let wanted = min p.chunk_size t.remaining_bytes in
    let full = record t {
      partial_payload = t.partial_payload ++ take wanted (drop size bytes);
      remaining_bytes = sub32 t.remaining_bytes wanted;
    } in
    ground (arith, complete_chunk-Counts csid full p n k h)

read_message_header-Keeps :
    (b : BasicHeader) (p : ChunkParser) (bytes : List ℕ) (n k : ℕ)
    → Counts n k p
    → Keeps n k (read_message_header b p bytes)
read_message_header-Keeps b p bytes n k h =
    elim (Option-cases
      (parse_message_header b.fmt (drop b.header_size bytes) (stream_state b.csid p))) [
        | inl e ↦ unfold read_message_header in rw (e, read_message_header) h
        | inr ((s, m), e) ↦
            elim (Option-cases (parse_extended b.fmt (drop (b.header_size + m) bytes) s)) [
              | inl e' ↦ unfold read_message_header in rw (e, read_message_header) (rw e' h)
              | inr ((s', j), e') ↦
                  rw (read_message_header-some b p bytes e e')
                    (read_payload-Keeps b.csid s' (b.header_size + m + j) p bytes n k h)
            ]
      ]

read_chunk-Keeps :
    (p : ChunkParser) (bytes : List ℕ) (n k : ℕ) → Counts n k p → Keeps n k (read_chunk p bytes)
read_chunk-Keeps p bytes n k h = elim (Option-cases (parse_basic_header bytes)) [
  | inl e ↦ unfold read_chunk in rw (e, read_chunk) h
  | inr (b, e) ↦
      rw (read_chunk-some p bytes e) (
        read_message_header-Keeps b (put_stream_state b.csid (stream_state b.csid p) p) bytes n k h)
]

parse_round-Keeps :
    (p : ChunkParser) (bytes : List ℕ) (n k : ℕ) → Counts n k p → Keeps n k (parse_round p bytes)
unfolding parse_round
parse_round-Keeps p bytes n k h =
    ground (arith, read_pending-Keeps p bytes n k h, read_chunk-Keeps p bytes n k h)

-- What the loop leaves behind, if it started with `j` chunks completed in this call.
abbrev Kept : ℕ → Option (ParseResult × ChunkParser) → Type 0
Kept n none = Unit {0}
Kept n (some (r, q)) = (r.error ≡ none) → Counts n r.chunks_completed q

parse_loop-Kept :
    (fuel : ℕ) (p : ChunkParser) (bytes : List ℕ) (n c k : ℕ)
    → Counts n k p
    → Kept n (parse_loop fuel p bytes c k)
unfolding parse_loop
parse_loop-Kept fuel p [] n c k h = λ _. h
parse_loop-Kept zero p (b ∷ bytes) n c k h = tt
parse_loop-Kept (suc fuel) p (b ∷ bytes) n c k h =
    by_round (parse_round p (b ∷ bytes)) (parse_round-Keeps p (b ∷ bytes) n k h)
      (λ q m j v. parse_loop-Kept fuel q (drop m (b ∷ bytes)) n (c + m) (k + j) v)
  where
    by_round :
        (r : Round)
        → Keeps n k r
        → ((q : ChunkParser) (m j : ℕ)
            → Counts n (k + j) q
            → Kept n (parse_loop fuel q (drop m (b ∷ bytes)) (c + m) (k + j)))
        → Kept n (elim r [
          | again q m j ↦ parse_loop fuel q (drop m (b ∷ bytes)) (c + m) (k + j)
          | stop q m ↦ some (parse_ok (c + m) k, q)
          | fail q e ↦ some (parse_fail e, q)
        ])
    by_round (again q m j) v rec = rec q m j v
    by_round (stop q m) v rec = λ _. v
    by_round (fail q e) v rec = λ x. absurd (cc x)

-- A parser whose chunk size lies between 128 and 65536 keeps it there, whatever bytes (fewer than
-- 2 ^ 32) it is given, and the number that `parse` reports is the number of chunks that it appended
-- to the completed ones.
pub parse-IsSized :
    (p : ChunkParser) (bytes : List ℕ)
    → length bytes < 2 ^ 32
    → IsSized p
    → (r : ParseResult) × (q : ChunkParser) × (parse p bytes ≡ some (r, q))
      × IsSized q
      × (length q.completed_chunks ≡ length p.completed_chunks + r.chunks_completed)
unfolding parse
parse-IsSized p bytes l h =
    joined (parse_loop (length bytes) p bytes 0 0) refl (parse-Ends p bytes l)
      (parse_loop-Kept (length bytes) p bytes (length p.completed_chunks) 0 0 (h, omega arith))
  where
    joined :
        (o : Option (ParseResult × ChunkParser))
        → parse_loop (length bytes) p bytes 0 0 ≡ o
        → Ends (length bytes) o
        → Kept (length p.completed_chunks) o
        → (r : ParseResult) × (q : ChunkParser) × (parse_loop (length bytes) p bytes 0 0
            ≡ some (r, q))
          × IsSized q
          × (length q.completed_chunks ≡ length p.completed_chunks + r.chunks_completed)
    joined none e x y = absurd x
    joined (some (r, q)) e x y = (r, q, e, (y x.0).0, (y x.0).1)
