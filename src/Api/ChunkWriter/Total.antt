-- ===== src/Api/ChunkWriter/Total.antt =====
-- The serializer ends, and how much it writes.
use open_rtmp_claude_kiro.Common.{
  Bool, List, [], arith, drop, false, if◌then◌else◌, length, length-append, length-drop,
  length-take, min, refl, some, suc, take, true, zero, ℕ, ◌*◌, ◌++◌, ◌∷◌, ◌≡◌, ◌≤◌,
}
use open_rtmp_claude_kiro.Api.ChunkWriter.{basic_header, extended_timestamp, write_payload}
use open_rtmp_claude_kiro.Api.ChunkWriter.Headers.{length-basic_header, length-extended_timestamp}

-- With a chunk size of at least 1 and fuel for each byte of the payload, the payload loop ends,
-- and writes at most eight bytes for each byte of the payload.
pub write_payload-total :
    (f : ℕ) (first : Bool) (csid ts cs : ℕ) (rest : List ℕ)
    → 1 ≤ cs
    → length rest ≤ f
    → (out : List ℕ) × (write_payload f first csid ts cs rest ≡ some out)
      × (length out ≤ 8 * length rest)
unfolding write_payload
write_payload-total f first csid ts cs [] hs hf = ([], refl, omega arith)
write_payload-total zero first csid ts cs (b ∷ rest) hs hf = absurd (omega arith)
write_payload-total (suc f) first csid ts cs (b ∷ rest) hs hf =
    let n : ℕ = min cs (length (b ∷ rest)) in
    let (tail, e, l) =
      write_payload-total f false csid ts cs (drop n (b ∷ rest)) hs
        (omega (arith, length-drop n (b ∷ rest))) in
    let head : List ℕ = if first then [] else basic_header 3 csid ++ extended_timestamp ts in
    (
      head ++ (take n (b ∷ rest) ++ tail),
      rw e refl,
      omega (
        arith,
        l,
        length-head first csid ts,
        length-append head (take n (b ∷ rest) ++ tail),
        length-append (take n (b ∷ rest)) tail,
        length-take n (b ∷ rest),
        length-drop n (b ∷ rest),
      ),
    )
  where
    length-head :
        (first : Bool) (csid ts : ℕ)
        → length (if first then [] else basic_header 3 csid ++ extended_timestamp ts) ≤ 7
    length-head true csid ts = omega arith
    length-head false csid ts = omega (
      arith,
      length-basic_header 3 csid,
      length-append (basic_header 3 csid) (extended_timestamp ts),
      length-extended_timestamp ts,
    )
