-- ===== src/Protocol/AmfCodec/Amf3.antt =====
-- AMF3: decodeU29, decodeAMF3String, decodeAMF3Value, and the encoders.
use open_rtmp_claude_kiro.Common.{
  Bool, List, Option, [], drop, false, if◌then◌else◌, leb, length, ltb, none, not, some, suc, take,
  true, zero, ℕ, ◌%◌, ◌&&◌, ◌*◌, ◌++◌, ◌+◌, ◌-◌, ◌/◌, ◌==◌, ◌^◌, ◌∷◌,
}
use open_rtmp_claude_kiro.Protocol.AmfCodec.Doubles.{
  double_of_nat, is_integral, is_negative, sign_bit, truncate,
}
use open_rtmp_claude_kiro.Protocol.AmfCodec.Values.{
  Codec, Outcome, Reply, Value, after, boolean, failure, invalid_reference, invalid_type,
  nesting_too_deep, null, number, read_double_be, string, success, undefined, unexpected_end,
  write_double_be,
}
use open_rtmp_claude_kiro.Protocol.HandshakeHandler.Segments.{consumed}
pub mod Integers
pub mod RoundTrip

-- The loop of `decodeU29`: the byte's number, the bits so far, and the bytes consumed.
unfoldable pub u29_loop : ℕ → ℕ → ℕ → List ℕ → ℕ → Outcome ℕ
u29_loop i result consumed [] base = failure unexpected_end (base + consumed)
u29_loop i result consumed (byte ∷ rest) base =
    let more = u29_loop (i + 1) (result * 128 + byte % 128) (consumed + 1) rest base in
    if ltb i 3
    then if ltb byte 128 then success (result * 128 + byte % 128) (consumed + 1) else more
    else success (result * 256 + byte) (consumed + 1)

-- Without a first byte the error's offset is the same.
unfoldable pub decode_u29 : List ℕ → ℕ → Outcome ℕ
decode_u29 bytes base = u29_loop 0 0 0 bytes base

unfoldable pub encode_u29 : ℕ → List ℕ
encode_u29 value =
    if ltb value 0x80
    then value ∷ []
    else if ltb value 0x4000
    then (value / 128 % 128 + 128) ∷ (value % 128) ∷ []
    else if ltb value 0x200000
    then (value / 16384 % 128 + 128) ∷ (value / 128 % 128 + 128) ∷ (value % 128) ∷ []
    else (value / 4194304 % 128 + 128)
      ∷ (value / 32768 % 128 + 128)
      ∷ (value / 256 % 128 + 128)
      ∷ (value % 256)
      ∷ []

-- `amf3StringReferences_[index]`.
unfoldable pub string_at : ℕ → List (List ℕ) → Option (List ℕ)
string_at i [] = none
string_at zero (s ∷ ss) = some s
string_at (suc i) (s ∷ ss) = string_at i ss

-- The string behind its header, which took `n` bytes.
unfoldable pub decode_inline_string : ℕ → ℕ → List ℕ → ℕ → Codec → Reply (List ℕ)
decode_inline_string size n bytes base c =
    let str = take size (drop n bytes) in
    if ltb (length bytes - n) size then (failure unexpected_end (base + n), c) else (
      success str (n + size),
      if length str == 0
          then c
          else record c { amf3_string_references = c.amf3_string_references ++ (str ∷ []) },
    )

unfoldable pub decode_amf3_string : List ℕ → ℕ → Codec → Reply (List ℕ)
decode_amf3_string bytes base c =
    after (decode_u29 bytes base, c)
      λ u29 n d.
        if u29 % 2 == 0
        then elim (string_at (u29 / 2) d.amf3_string_references) [
          | none ↦ (failure invalid_reference base, d)
          | some s ↦ (success s n, d)
        ]
        else decode_inline_string (u29 / 2) n bytes base d

unfoldable pub encode_amf3_string : List ℕ → List ℕ
encode_amf3_string str = encode_u29 ((length str * 2) % 2 ^ 32 + 1) ++ str

abbrev pub max_nesting_depth : ℕ
max_nesting_depth = 32

-- A signed 29-bit integer as a double.
unfoldable pub double_of_int29 : ℕ → ℕ
double_of_int29 u29 =
    if leb 0x10000000 u29 then sign_bit + double_of_nat (0x20000000 - u29) else double_of_nat u29

-- The value behind its marker.
unfoldable pub decode_amf3_marked : ℕ → List ℕ → ℕ → Codec → Reply Value
decode_amf3_marked marker rest base c =
    if marker == 0
    then (success undefined 1, c)
    else if marker == 1
    then (success null 1, c)
    else if marker == 2
    then (success (boolean false) 1, c)
    else if marker == 3
    then (success (boolean true) 1, c)
    else if marker == 4
    then after (decode_u29 rest (base + 1), c)
        (λ u29 n d. (success (number (double_of_int29 u29)) (1 + n), d))
    else if marker == 5
    then if ltb (length rest) 8
      then (failure unexpected_end (base + 1), c)
      else (success (number (read_double_be rest)) 9, c)
    else if marker == 6
    then after (decode_amf3_string rest (base + 1) c) (λ s n d. (success (string s) (1 + n), d))
    else (failure invalid_type base, c)

unfoldable pub decode_amf3_value : ℕ → List ℕ → ℕ → Codec → Reply Value
decode_amf3_value depth bytes base c =
    if ltb max_nesting_depth depth then (failure nesting_too_deep base, c) else elim bytes [
      | [] ↦ (failure unexpected_end base, c)
      | marker ∷ rest ↦ decode_amf3_marked marker rest base c
    ]

unfoldable pub decode_amf3 : List ℕ → Codec → Reply Value
decode_amf3 bytes c = decode_amf3_value 0 bytes 0 c

-- `num >= AMF3_INT_MIN && num <= AMF3_INT_MAX` for an integral double.
unfoldable pub fits_int29 : ℕ → Bool
fits_int29 bits =
    if is_negative bits then leb (truncate bits) 0x10000000 else leb (truncate bits) 0x0FFFFFFF

-- The integer in 29 bits.
unfoldable pub int29_of_double : ℕ → ℕ
int29_of_double bits =
    if is_negative bits && not (truncate bits == 0)
    then 0x20000000 - truncate bits
    else truncate bits

unfoldable pub encode_amf3_value : Value → List ℕ
encode_amf3_value undefined = 0 ∷ []
encode_amf3_value null = 1 ∷ []
encode_amf3_value (boolean b) = (if b then 3 else 2) ∷ []
encode_amf3_value (number bits) =
    if is_integral bits && fits_int29 bits
    then 4 ∷ encode_u29 (int29_of_double bits)
    else 5 ∷ write_double_be bits
encode_amf3_value (string s) = 6 ∷ encode_amf3_string s
encode_amf3_value _ = 1 ∷ []
