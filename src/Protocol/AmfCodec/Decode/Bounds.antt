-- ===== src/Protocol/AmfCodec/Decode/Bounds.antt =====
-- What a decoder may consume, and the decoders of strings.
use open_rtmp_claude_kiro.Common.{
  Bool-cases, List, Option, [], arith, inl, inr, length, ltb, none, some, ℕ, ◌%◌, ◌*◌, ◌+◌, ◌-◌,
  ◌/◌, ◌<◌, ◌==◌, ◌∷◌, ◌≤◌,
}
use open_rtmp_claude_kiro.Protocol.AmfCodec.Amf3.{
  decode_amf3_string, decode_inline_string, decode_u29, string_at, u29_loop,
}
use open_rtmp_claude_kiro.Protocol.AmfCodec.Decode.{Decoder, decode_short_string}
use open_rtmp_claude_kiro.Protocol.AmfCodec.Values.{
  Codec, Ensures, Ensures-after, Ensures-if, Ensures-weaken, Reply, Value, failure, height,
  invalid_reference, read_uint16_be, success,
}

-- At least one byte is consumed and at most those that there are, and the value is not too deep.
abbrev pub IsWithin : ℕ → ℕ → Value → ℕ → Type 0
IsWithin levels len v n = (1 ≤ n) × (n ≤ len) × (height v < levels)

abbrev pub IsSafe : ℕ → Decoder → Type 0
IsSafe levels dec =
    (bytes : List ℕ) (base : ℕ) (c : Codec)
    → Ensures (IsWithin levels (length bytes)) (dec bytes base c).0

u29_loop-Ensures :
    (bytes : List ℕ) (i result n base : ℕ)
    → Ensures (λ v k. (n < k) × (k ≤ n + length bytes)) (u29_loop i result n bytes base)
unfolding u29_loop
u29_loop-Ensures [] i result n base = tt
u29_loop-Ensures (b ∷ bytes) i result n base = elim (Bool-cases (ltb i 3)) [
  | inr e ↦ rw (e) (omega arith, omega arith)
  | inl e ↦ elim (Bool-cases (ltb b 128)) [
    | inl d ↦ rw (e, d) (omega arith, omega arith)
    | inr d ↦
        rw (e, d)
          (Ensures-weaken (λ v k. (n + 1 < k) × (k ≤ n + 1 + length bytes)) _
            (u29_loop (i + 1) (result * 128 + b % 128) (n + 1) bytes base)
            (λ v k q. (omega arith, omega arith))
            (u29_loop-Ensures bytes (i + 1) (result * 128 + b % 128) (n + 1) base))
  ]
]

pub decode_u29-Ensures :
    (bytes : List ℕ) (base : ℕ)
    → Ensures (λ v k. (0 < k) × (k ≤ 0 + length bytes)) (decode_u29 bytes base)
unfolding decode_u29
decode_u29-Ensures bytes base = u29_loop-Ensures bytes 0 0 0 base

abbrev pub HasSize : ℕ → ℕ → List ℕ → ℕ → Type 0
HasSize least len s n = (least ≤ n) × (n ≤ len)

pub short_string-Ensures :
    (bytes : List ℕ) (base : ℕ) (c : Codec)
    → Ensures (HasSize 2 (length bytes)) (decode_short_string bytes base c).0
unfolding decode_short_string
short_string-Ensures bytes base c =
    Ensures-if (HasSize 2 (length bytes)) (ltb (length bytes) 2) _ _ (λ e. tt)
      (λ e.
        Ensures-if (HasSize 2 (length bytes)) (ltb (length bytes) (2 + read_uint16_be bytes)) _ _
          (λ d. tt) (λ d. (omega arith, ground arith)))

string_at-Ensures :
    (o : Option (List ℕ)) (base n len : ℕ) (c : Codec)
    → 1 ≤ n
    → n ≤ len
    → Ensures (HasSize 1 len) (
        (elim o as (λ x. Reply (List ℕ)) [
          | none ↦ (failure invalid_reference base, c)
          | some s ↦ (success s n, c)
        ]).0)
string_at-Ensures none base n len c l u = tt
string_at-Ensures (some s) base n len c l u = (l, u)

pub amf3_string-Ensures :
    (bytes : List ℕ) (base : ℕ) (c : Codec)
    → Ensures (HasSize 1 (length bytes)) (decode_amf3_string bytes base c).0
unfolding decode_amf3_string decode_inline_string
amf3_string-Ensures bytes base c =
    Ensures-after (λ v k. (0 < k) × (k ≤ 0 + length bytes)) (HasSize 1 (length bytes))
      (decode_u29 bytes base, c) _ (decode_u29-Ensures bytes base)
      (λ u29 n d h.
        Ensures-if (HasSize 1 (length bytes)) (u29 % 2 == 0) _ _
          (λ e.
            string_at-Ensures (string_at (u29 / 2) d.amf3_string_references) base n (length bytes) d
              (omega arith) (omega arith))
          (λ e.
            Ensures-if (HasSize 1 (length bytes)) (ltb (length bytes - n) (u29 / 2)) _ _ (λ f. tt)
              (λ f. (omega arith, ground arith))))
