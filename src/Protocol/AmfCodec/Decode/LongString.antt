-- ===== src/Protocol/AmfCodec/Decode/LongString.antt =====
-- The guard of the AMF0 long string, whose sum is a uint32_t.
use open_rtmp_claude_kiro.Common.{
  All, Bool-cases, IsByte, List, [], add32, arith, get_or, inl, inr, length, ltb, refl, suc, zero,
  ℕ, ◌+◌, ◌-◌, ◌<◌, ◌^◌, ◌↔◌, ◌∷◌, ◌≡◌, ◌≤◌,
}
use open_rtmp_claude_kiro.Protocol.AmfCodec.Decode.{decode_long_string}
use open_rtmp_claude_kiro.Protocol.AmfCodec.Values.{Codec, out_of_bounds, read_uint32_be}

get_or-IsByte : (bytes : List ℕ) (i : ℕ) → All IsByte bytes → IsByte (get_or bytes i 0)
get_or-IsByte [] i h = omega arith
get_or-IsByte (b ∷ bytes) zero h = h.0
get_or-IsByte (b ∷ bytes) (suc i) h = get_or-IsByte bytes i h.1

read_uint32-lt : (bytes : List ℕ) → All IsByte bytes → read_uint32_be bytes < 2 ^ 32
unfolding read_uint32_be
read_uint32-lt bytes h = omega (
  arith,
  get_or-IsByte bytes 0 h,
  get_or-IsByte bytes 1 h,
  get_or-IsByte bytes 2 h,
  get_or-IsByte bytes 3 h,
)

-- For bytes shorter than 2^32 the decoder of a long string reads beyond the end of the data exactly
-- when the four bytes of the length are there and state a length of 2^32 - 4 or more: 4 plus that
-- length wraps, so the guard lets it pass.
pub decode_long_string-overread :
    (bytes : List ℕ) (base : ℕ) (c : Codec)
    → All IsByte bytes
    → length bytes < 2 ^ 32
    → ((decode_long_string bytes base c).0 ≡ out_of_bounds)
      ↔ ((4 ≤ length bytes) × (2 ^ 32 - 4 ≤ read_uint32_be bytes))
unfolding decode_long_string
decode_long_string-overread bytes base c hb hl =
    let size = read_uint32_be bytes in
    let bound = read_uint32-lt bytes hb in
    elim (Bool-cases (ltb (length bytes) 4)) [
      | inl e ↦ rw (e) ((λ q. absurd cc), (λ q. absurd (ground arith)))
      | inr e ↦ elim (Bool-cases (ltb (length bytes) (add32 4 size))) [
        | inl f ↦ rw (e, f) ((λ q. absurd cc), (λ q. absurd (ground arith)))
        | inr f ↦ elim (Bool-cases (ltb (length bytes) (4 + size))) [
          | inl g ↦ rw (e, f, g) ((λ q. (ground arith, ground arith)), (λ q. refl))
          | inr g ↦ rw (e, f, g) ((λ q. absurd cc), (λ q. absurd (ground arith)))
        ]
      ]
    ]
