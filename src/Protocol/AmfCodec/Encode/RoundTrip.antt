-- ===== src/Protocol/AmfCodec/Encode/RoundTrip.antt =====
-- The decoders on what the encoders write.
use open_rtmp_claude_kiro.Common.{
  Bool-cases, List, [], append_assoc, arith, drop, drop-append_self, false, inl, inr, length,
  length-append, le→ltb, ltb, refl, suc, sym, take-append_self, ℕ, ◌%◌, ◌*◌, ◌++◌, ◌+◌, ◌-◌, ◌/◌,
  ◌<◌, ◌==◌, ◌^◌, ◌∷◌, ◌≡◌, ◌≤◌,
}
use open_rtmp_claude_kiro.Protocol.AmfCodec.Decode.{
  Decoder, at_object_end, decode_fields, decode_long_string, decode_marked, decode_number,
  decode_short_string, decode_string, decode_value,
}
use open_rtmp_claude_kiro.Protocol.AmfCodec.Encode.{encode_key, encode_string, encode_value}
use open_rtmp_claude_kiro.Protocol.AmfCodec.Values.{
  Codec, Fields, Outcome, Value, after-success, array, boolean, byte_array, date, ecma_array, null,
  number, object, put_field, read-write_double, read-write_uint32, read_uint16_be, reference,
  strict_array, string, success, typed_object, undefined, write_double_be, write_uint16_be,
  write_uint32_be, xml,
}

pub length-encode_key : (k : List ℕ) → length (encode_key k) ≡ 2 + length k
unfolding encode_key write_uint16_be
length-encode_key k = omega arith

pub short_string-encode_key :
    (k rest : List ℕ) (base : ℕ) (c : Codec)
    → length k ≤ 65535
    → (decode_short_string (encode_key k ++ rest) base c).0 ≡ success k (2 + length k)
unfolding decode_short_string encode_key write_uint16_be read_uint16_be
short_string-encode_key k rest base c h =
    let size : length k % 2 ^ 16 / 256 % 256 * 256 + length k % 2 ^ 16 % 256 ≡ length k =
      omega arith in
    rw
      (
        size,
        le→ltb (suc (suc (length (k ++ rest)))) 2 (omega arith),
        le→ltb (suc (suc (length (k ++ rest)))) (2 + length k)
            (omega (arith, length-append k rest)),
        take-append_self k rest,
      )
      refl

-- No value starts with the byte of the end marker.
pub first_byte :
    (v : Value) → (m : ℕ) × (t : List ℕ) × (encode_value v ≡ m ∷ t) × ((m == 9) ≡ false)
unfolding encode_value encode_string
first_byte (string s) = elim (Bool-cases (ltb 65535 (length s))) [
  | inl e ↦ rw (e) (_, _, refl, refl)
  | inr e ↦ rw (e) (_, _, refl, refl)
]
first_byte null = (_, _, refl, refl)
first_byte undefined = (_, _, refl, refl)
first_byte typed_object = (_, _, refl, refl)
first_byte (boolean b) = (_, _, refl, refl)
first_byte (number b) = (_, _, refl, refl)
first_byte (date b) = (_, _, refl, refl)
first_byte (reference b) = (_, _, refl, refl)
first_byte (xml b) = (_, _, refl, refl)
first_byte (byte_array b) = (_, _, refl, refl)
first_byte (object fs) = (_, _, refl, refl)
first_byte (ecma_array fs) = (_, _, refl, refl)
first_byte (strict_array vs) = (_, _, refl, refl)
first_byte (array vs) = (_, _, refl, refl)

pub object_end-encode :
    (k : List ℕ) (v : Value) (rest : List ℕ)
    → length k ≤ 65535
    → at_object_end (encode_key k ++ (encode_value v ++ rest)) ≡ false
unfolding at_object_end encode_key write_uint16_be
object_end-encode [] v rest h = let (m, t, e, d) = first_byte v in rw (e) d
object_end-encode (x ∷ k) v rest h = ground arith

-- One round of the loop over properties.
pub fields_round :
    (dec : Decoder) (fuel : ℕ) (bytes : List ℕ) (base offset : ℕ) (fs : Fields) (c : Codec)
    (name : List ℕ) (n : ℕ) (v : Value) (k : ℕ) (o : Outcome Fields)
    → at_object_end bytes ≡ false
    → (decode_short_string bytes (base + 1 + offset) c).0 ≡ success name n
    → ((d : Codec) → (dec (drop n bytes) (base + 1 + (offset + n)) d).0 ≡ success v k)
    → ((d : Codec)
        → (decode_fields dec fuel
            (drop (n + k) bytes)
            base
            (offset + n + k)
            (put_field name v fs)
            d).0
          ≡ o)
    → (decode_fields dec (suc fuel) bytes base offset fs c).0 ≡ o
unfolding decode_fields decode_short_string
fields_round dec fuel [] base offset fs c name n v k o e s d r = absurd cc
fields_round dec fuel (b ∷ bytes) base offset fs c name n v k o e s d r = rw (e) (
    after-success (decode_short_string (b ∷ bytes) (base + 1 + offset) c) name n _ o s (λ c₁.
      after-success (dec (drop n (b ∷ bytes)) (base + 1 + (offset + n)) c₁) v k _ o (d c₁) r))

pub drop-key :
    (k ys rest : List ℕ) (n : ℕ)
    → n ≡ 2 + length k + length ys
    → drop n (encode_key k ++ (ys ++ rest)) ≡ rest
drop-key k ys rest n e =
    let size : n ≡ length (encode_key k ++ ys) =
      omega (arith, length-append (encode_key k) ys, length-encode_key k) in
    rw (size, sym (append_assoc (encode_key k) ys rest), drop-append_self (encode_key k ++ ys) rest)
      refl

pub number-encode :
    (bits : ℕ) (rest : List ℕ) (base : ℕ) (c : Codec)
    → bits < 2 ^ 64
    → (decode_number (write_double_be bits ++ rest) base c).0 ≡ success (number bits) 9
unfolding decode_number write_double_be
number-encode bits rest base c h =
    rw
      (
        read-write_double bits rest h,
        le→ltb (length (write_double_be bits ++ rest)) 8 (omega arith),
      )
      refl

-- The strings behind their markers.
module _ (s rest : List ℕ) (base : ℕ) (c : Codec) where
  string-write :
      length s ≤ 65535
      → (decode_string ((write_uint16_be (length s) ++ s) ++ rest) base c).0
        ≡ success (string s) (length (0x02 ∷ write_uint16_be (length s) ++ s))
  unfolding decode_string write_uint16_be read_uint16_be
  string-write h =
      let size : length s / 256 % 256 * 256 + length s % 256 ≡ length s = omega arith in
      let last : 3 + length s ≡ suc (suc (suc (length s))) = omega arith in
      rw
        (
          size,
          le→ltb (suc (suc (length (s ++ rest)))) 2 (omega arith),
          le→ltb (suc (suc (length (s ++ rest)))) (2 + length s)
              (omega (arith, length-append s rest)),
          take-append_self s rest,
          last,
        )
        refl

  long_string-write :
      length s < 2 ^ 32 - 4
      → (decode_long_string ((write_uint32_be (length s % 2 ^ 32) ++ s) ++ rest) base c).0
        ≡ success (string s) (length (0x0C ∷ write_uint32_be (length s % 2 ^ 32) ++ s))
  unfolding decode_long_string write_uint32_be
  long_string-write h =
      let small : length s % 2 ^ 32 ≡ length s = omega arith in
      let size = read-write_uint32 (length s) (s ++ rest) (omega arith) in
      let sum : (4 + length s) % 2 ^ 32 ≡ 4 + length s = omega arith in
      let last : 1 + (4 + length s) ≡ suc (suc (suc (suc (suc (length s))))) = omega arith in
      let enough = length-append s rest in
      rw
        (
          small,
          size,
          sum,
          le→ltb (suc (suc (suc (suc (length (s ++ rest)))))) 4 (omega arith),
          le→ltb (suc (suc (suc (suc (length (s ++ rest)))))) (4 + length s) (omega arith),
          take-append_self s rest,
          last,
        )
        refl

pub string-encode :
    (l : ℕ) (s rest : List ℕ) (base : ℕ) (c : Codec)
    → length s < 2 ^ 32 - 4
    → (decode_value (suc l) (encode_string s ++ rest) base c).0
      ≡ success (string s) (length (encode_string s))
unfolding decode_value decode_marked encode_string
string-encode l s rest base c h = elim (Bool-cases (ltb 65535 (length s))) [
  | inl e ↦ rw (e) (long_string-write s rest base c h)
  | inr e ↦ rw (e) (string-write s rest base c (ground arith))
]
