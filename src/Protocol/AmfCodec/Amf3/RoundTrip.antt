-- ===== src/Protocol/AmfCodec/Amf3/RoundTrip.antt =====
-- The variable-length integers and the strings of AMF3, written and read.
use open_rtmp_claude_kiro.Common.{
  Bool, Bool-cases, List, ap, append_assoc, arith, drop, drop-append_self, false, if◌then◌else◌,
  inl, inr, length, length-append, le→ltb, ltb, lt→ltb, refl, suc, take, take-append_self, true, ℕ,
  ◌%◌, ◌&&◌, ◌*◌, ◌++◌, ◌+◌, ◌-◌, ◌/◌, ◌<◌, ◌==◌, ◌^◌, ◌∙◌, ◌∷◌, ◌≡◌, ◌≢◌, ◌≤◌,
}
use open_rtmp_claude_kiro.Protocol.AmfCodec.Amf3.{
  decode_amf3, decode_amf3_marked, decode_amf3_string, decode_amf3_value, decode_inline_string,
  decode_u29, encode_amf3_string, encode_amf3_value, encode_u29, fits_int29, int29_of_double,
  u29_loop,
}
use open_rtmp_claude_kiro.Protocol.AmfCodec.Amf3.Integers.{
  double_of_int29-int29_of_double, negative_zero_fits,
}
use open_rtmp_claude_kiro.Protocol.AmfCodec.Doubles.{is_integral, is_negative, sign_bit, truncate}
use open_rtmp_claude_kiro.Protocol.AmfCodec.Values.{
  Codec, Value, after-success, array, boolean, byte_array, date, ecma_array, null, number, object,
  read-write_double, reference, strict_array, string, success, typed_object, undefined,
  write_double_be, xml,
}

-- A byte with its top bit set, at one of the first three places, and one without.
continued :
    (i result n x : ℕ) (rest : List ℕ) (base : ℕ)
    → i < 3
    → x < 128
    → u29_loop i result n ((x + 128) ∷ rest) base
      ≡ u29_loop (i + 1) (result * 128 + x) (n + 1) rest base
unfolding u29_loop
continued i result n x rest base h b =
    let low : (x + 128) % 128 ≡ x = omega arith in
    rw (lt→ltb i 3 h, le→ltb (x + 128) 128 (omega arith), low) refl

ended :
    (i result n x : ℕ) (rest : List ℕ) (base : ℕ)
    → i < 3
    → x < 128
    → u29_loop i result n (x ∷ rest) base ≡ success (result * 128 + x) (n + 1)
unfolding u29_loop
ended i result n x rest base h b =
    let low : x % 128 ≡ x = omega arith in rw (lt→ltb i 3 h, lt→ltb x 128 b, low) refl

fourth :
    (result n x : ℕ) (rest : List ℕ) (base : ℕ)
    → u29_loop 3 result n (x ∷ rest) base ≡ success (result * 256 + x) (n + 1)
unfolding u29_loop
fourth result n x rest base = refl

-- For a number of 29 bits decodeU29 gives back what encodeU29 wrote and consumes exactly its bytes,
-- whatever bytes follow them.
pub decode_u29-encode_u29 :
    (v : ℕ) (rest : List ℕ) (base : ℕ)
    → v < 2 ^ 29
    → decode_u29 (encode_u29 v ++ rest) base ≡ success v (length (encode_u29 v))
unfolding decode_u29 encode_u29
decode_u29-encode_u29 v rest base h = elim (Bool-cases (ltb v 0x80)) [
  | inl e ↦
      rw (e)
        (ended 0 0 0 v rest base (omega arith) (ground arith) ∙ ap (λ w. success w 1) (omega arith))
  | inr e ↦ elim (Bool-cases (ltb v 0x4000)) [
    | inl f ↦
        rw (e, f)
          (continued 0 0 0 (v / 128 % 128) ((v % 128) ∷ rest) base (omega arith) (omega arith)
            ∙ ended 1 _ 1 (v % 128) rest base (omega arith) (omega arith)
            ∙ ap (λ w. success w 2) (ground arith))
    | inr f ↦ elim (Bool-cases (ltb v 0x200000)) [
      | inl g ↦
          rw (e, f, g)
            (continued 0 0 0 (v / 16384 % 128) ((v / 128 % 128 + 128) ∷ (v % 128) ∷ rest) base
                (omega arith) (omega arith)
              ∙ continued 1 _ 1 (v / 128 % 128) ((v % 128) ∷ rest) base (omega arith) (omega arith)
              ∙ ended 2 _ 2 (v % 128) rest base (omega arith) (omega arith)
              ∙ ap (λ w. success w 3) (ground arith))
      | inr g ↦
          rw (e, f, g)
            (continued 0 0 0 (v / 4194304 % 128)
                ((v / 32768 % 128 + 128) ∷ (v / 256 % 128 + 128) ∷ (v % 256) ∷ rest) base
                (omega arith) (omega arith)
              ∙ continued 1 _ 1 (v / 32768 % 128) ((v / 256 % 128 + 128) ∷ (v % 256) ∷ rest) base
                  (omega arith) (omega arith)
              ∙ continued 2 _ 2 (v / 256 % 128) ((v % 256) ∷ rest) base (omega arith) (omega arith)
              ∙ fourth _ 3 (v % 256) rest base
              ∙ ap (λ w. success w 4) (ground arith))
    ]
  ]
]

-- What the AMF3 encoder keeps: a number, but for the sign of zero, undefined, null, a Boolean or a
-- string; and null for a value that it cannot write.
unfoldable pub kept : Value → Value
kept (number bits) = if bits == sign_bit then number 0 else number bits
kept undefined = undefined
kept (boolean b) = boolean b
kept (string s) = string s
kept _ = null

unfoldable pub IsWritable : Value → Type 0
IsWritable (number bits) = bits < 2 ^ 64
IsWritable (string s) = length s < 2 ^ 28
IsWritable _ = Unit {0}

int29-lt : (bits : ℕ) → fits_int29 bits ≡ true → int29_of_double bits < 2 ^ 29
unfolding fits_int29 int29_of_double
int29-lt bits h = elim (Bool-cases (is_negative bits)) [
  | inl e ↦ elim (Bool-cases (truncate bits == 0)) [
    | inl d ↦ rw (e, d) (ground arith)
    | inr d ↦ rw (e, d) (ground arith)
  ]
  | inr e ↦ rw (e) (ground (arith, simp e at h))
]

inline_string-append :
    (size n : ℕ) (bytes : List ℕ) (base : ℕ) (c : Codec)
    → size ≤ length bytes - n
    → (decode_inline_string size n bytes base c).0 ≡ success (take size (drop n bytes)) (n + size)
unfolding decode_inline_string
inline_string-append size n bytes base c h = rw (le→ltb (length bytes - n) size h) refl

amf3_string-encode :
    (s rest : List ℕ) (base : ℕ) (c : Codec)
    → length s < 2 ^ 28
    → (decode_amf3_string (encode_amf3_string s ++ rest) base c).0
      ≡ success s (length (encode_amf3_string s))
unfolding decode_amf3_string encode_amf3_string
amf3_string-encode s rest base c h =
    let header = (length s * 2) % 2 ^ 32 + 1 in
    let odd : header % 2 ≡ 1 = omega arith in
    let size : header / 2 ≡ length s = omega arith in
    let prefix = encode_u29 header in
    rw
      (
        append_assoc prefix s rest,
        decode_u29-encode_u29 header (s ++ rest) base (omega arith),
        odd,
        size,
        inline_string-append (length s) (length prefix) (prefix ++ (s ++ rest)) base c
            (omega (arith, length-append prefix (s ++ rest), length-append s rest)),
        drop-append_self prefix (s ++ rest),
        take-append_self s rest,
        length-append prefix s,
      )
      refl

both-first : (a b : Bool) → (a && b) ≡ true → a ≡ true
both-first true b h = refl
both-first false b h = h

both-second : (a b : Bool) → (a && b) ≡ true → b ≡ true
both-second true b h = h
both-second false b h = absurd cc

-- A number of 64 bits other than negative zero, a string shorter than 2^28, undefined, null or a
-- Boolean comes back from decodeAMF3 as it was, also where the encoder writes the number as an
-- integer; negative zero comes back as zero and any other value as null. The bytes written for the
-- value are consumed, whatever bytes follow them.
pub decode_amf3-encode_amf3_value :
    (v : Value) (rest : List ℕ) (c : Codec)
    → IsWritable v
    → (decode_amf3 (encode_amf3_value v ++ rest) c).0
      ≡ success (kept v) (length (encode_amf3_value v))
unfolding decode_amf3 decode_amf3_value decode_amf3_marked encode_amf3_value kept IsWritable
    write_double_be
decode_amf3-encode_amf3_value undefined rest c h = refl
decode_amf3-encode_amf3_value null rest c h = refl
decode_amf3-encode_amf3_value (boolean true) rest c h = refl
decode_amf3-encode_amf3_value (boolean false) rest c h = refl
decode_amf3-encode_amf3_value (number bits) rest c h =
    elim (Bool-cases (is_integral bits && fits_int29 bits)) [
      | inl e ↦
          let integral = both-first (is_integral bits) (fits_int29 bits) e in
          let fits = both-second (is_integral bits) (fits_int29 bits) e in
          let value = double_of_int29-int29_of_double bits h integral fits in
          rw (e, decode_u29-encode_u29 (int29_of_double bits) rest 1 (int29-lt bits fits))
            (rw (value) (ground arith))
      | inr e ↦
          let other : bits ≢ sign_bit =
            λ q. let f = ap (λ b. is_integral b && fits_int29 b) q ∙ negative_zero_fits in cc in
          rw (e) (
            rw
              (
                read-write_double bits rest h,
                le→ltb (length (write_double_be bits ++ rest)) 8 (omega arith),
              )
              (ground arith))
    ]
decode_amf3-encode_amf3_value (string s) rest c h =
    let one : 1 + length (encode_amf3_string s) ≡ suc (length (encode_amf3_string s)) =
      omega arith in
    after-success (decode_amf3_string (encode_amf3_string s ++ rest) 1 c) s
      (length (encode_amf3_string s)) _ _ (amf3_string-encode s rest 1 c h) (λ d. rw (one) refl)
decode_amf3-encode_amf3_value (date _) rest c h = refl
decode_amf3-encode_amf3_value (reference _) rest c h = refl
decode_amf3-encode_amf3_value typed_object rest c h = refl
decode_amf3-encode_amf3_value (xml _) rest c h = refl
decode_amf3-encode_amf3_value (byte_array _) rest c h = refl
decode_amf3-encode_amf3_value (object _) rest c h = refl
decode_amf3-encode_amf3_value (ecma_array _) rest c h = refl
decode_amf3-encode_amf3_value (strict_array _) rest c h = refl
decode_amf3-encode_amf3_value (array _) rest c h = refl
