-- ===== src/Protocol/AmfCodec/Encode/Nested.antt =====
-- The decoder on what the encoder writes for the values that hold others.
use open_rtmp_claude_kiro.Common.{
  List, [], ap, append_assoc, arith, drop, drop-append_self, false, length, length-append, le→ltb,
  refl, suc, sym, true, zero, ℕ, ◌%◌, ◌++◌, ◌+◌, ◌<◌, ◌^◌, ◌∷◌, ◌≡◌, ◌≤◌,
}
use open_rtmp_claude_kiro.Protocol.AmfCodec.Decode.{
  Decoder, all_levels, at_object_end, decode_amf0, decode_boolean, decode_fields, decode_items,
  decode_marked, decode_object, decode_strict_array, decode_value,
}
use open_rtmp_claude_kiro.Protocol.AmfCodec.Encode.{
  encode_fields, encode_items, encode_key, encode_value,
}
use open_rtmp_claude_kiro.Protocol.AmfCodec.Encode.Normal.{
  IsEncodable, IsEncodableFields, IsEncodableItems, Precede, Precede-snoc, append_fields,
  append_fields_assoc, append_items, append_items-snoc, normal, normal_fields, normal_items,
  put_field-last,
}
use open_rtmp_claude_kiro.Protocol.AmfCodec.Encode.RoundTrip.{
  drop-key, fields_round, first_byte, length-encode_key, number-encode, object_end-encode,
  short_string-encode_key, string-encode,
}
use open_rtmp_claude_kiro.Protocol.AmfCodec.Values.{
  Codec, Fields, Items, Outcome, Value, after-success, array, boolean, byte_array, cons,
  count_items, date, ecma_array, end, field, height, height_fields, height_items, nil, null, number,
  object, read-write_uint32, reference, snoc, strict_array, string, success, typed_object,
  undefined, write_double_be, write_uint32_be, xml,
}

-- One round of the loop over elements.
items_round :
    (dec : Decoder) (left : ℕ) (bytes : List ℕ) (base offset : ℕ) (vs : Items) (c : Codec)
    (v : Value) (k : ℕ) (o : Outcome Items)
    → 1 ≤ length bytes
    → (dec bytes (base + 1 + offset) c).0 ≡ success v k
    → ((d : Codec) → (decode_items dec left (drop k bytes) base (offset + k) (snoc vs v) d).0 ≡ o)
    → (decode_items dec (suc left) bytes base offset vs c).0 ≡ o
unfolding decode_items
items_round dec left [] base offset vs c v k o h d r = absurd (omega arith)
items_round dec left (b ∷ bytes) base offset vs c v k o h d r =
    after-success (dec (b ∷ bytes) (base + 1 + offset) c) v k _ o d r

encode_value-nonempty : (v : Value) (rest : List ℕ) → 1 ≤ length (encode_value v ++ rest)
encode_value-nonempty v rest = let (m, t, e, d) = first_byte v in rw (e) (omega arith)

append_items-nil : (vs : Items) → append_items vs nil ≡ vs
unfolding append_items
append_items-nil nil = refl
append_items-nil (cons v vs) = ap (cons v) (append_items-nil vs)

append_fields-end : (fs : Fields) → append_fields fs end ≡ fs
unfolding append_fields
append_fields-end end = refl
append_fields-end (field k v fs) = ap (field k v) (append_fields-end fs)

object-read :
    (dec : Decoder) (rest : List ℕ) (base : ℕ) (c : Codec) (fs : Fields) (n : ℕ)
    → (decode_fields dec (length rest) rest base 0 end c).0 ≡ success fs n
    → (decode_object dec rest base c).0 ≡ success (object fs) (suc n)
unfolding decode_object
object-read dec rest base c fs n e =
    let one : 1 + n ≡ suc n = omega arith in
    after-success (decode_fields dec (length rest) rest base 0 end c) fs n _ _ e
      (λ d. rw (one) refl)

-- A strict array behind its marker, from a run of its loop.
strict_array-read :
    (dec : Decoder) (count : ℕ) (body : List ℕ) (base : ℕ) (c : Codec) (vs : Items) (n : ℕ)
    → count < 2 ^ 32
    → (decode_items dec count body base 4 nil c).0 ≡ success vs n
    → (decode_strict_array dec (write_uint32_be (count % 2 ^ 32) ++ body) base c).0
      ≡ success (strict_array vs) (1 + n)
unfolding decode_strict_array write_uint32_be
strict_array-read dec count body base c vs n h e =
    let small : count % 2 ^ 32 ≡ count = omega arith in
    rw
      (
        small,
        read-write_uint32 count body h,
        le→ltb (suc (suc (suc (suc (length body))))) 4 (omega arith),
      )
      (after-success (decode_items dec count body base 4 nil c) vs n _ _ e (λ d. refl))

-- The count and the elements, behind the marker.
items-bytes :
    (count : ℕ) (body rest : List ℕ) (base : ℕ) (dec : Decoder) (c : Codec) (vs : Items)
    → count < 2 ^ 32
    → (decode_items dec count (body ++ rest) base 4 nil c).0 ≡ success vs (4 + length body)
    → (decode_strict_array dec ((write_uint32_be (count % 2 ^ 32) ++ body) ++ rest) base c).0
      ≡ success (strict_array vs) (length (0x0A ∷ write_uint32_be (count % 2 ^ 32) ++ body))
unfolding write_uint32_be
items-bytes count body rest base dec c vs h e =
    let last : suc (suc (suc (suc (suc (length body))))) ≡ 1 + (4 + length body) = omega arith in
    rw (last) (strict_array-read dec count (body ++ rest) base c vs (4 + length body) h e)

length-encode_field :
    (k : List ℕ) (v : Value) (fs : Fields) (rest : List ℕ)
    → (length (encode_fields (field k v fs) ++ rest)
        ≡ 2 + length k + length (encode_value v) + length (encode_fields fs ++ rest))
      × (length (encode_fields (field k v fs))
          ≡ 2 + length k + length (encode_value v) + length (encode_fields fs))
unfolding encode_value
length-encode_field k v fs rest = (
  omega (
    arith,
    length-append (encode_fields (field k v fs)) rest,
    length-append (encode_key k) (encode_value v ++ encode_fields fs),
    length-append (encode_value v) (encode_fields fs),
    length-append (encode_fields fs) rest,
    length-encode_key k,
  ),
  omega (
    arith,
    length-append (encode_key k) (encode_value v ++ encode_fields fs),
    length-append (encode_value v) (encode_fields fs),
    length-encode_key k,
  ),
)

mutual
  unfolding decode_boolean write_double_be decode_fields decode_items at_object_end decode_value
      decode_marked encode_value normal IsEncodable height count_items Precede append_items
      append_fields

  pub value-encode :
      (levels : ℕ) (v : Value) (rest : List ℕ) (base : ℕ) (c : Codec)
      → height v < levels
      → IsEncodable v
      → (decode_value levels (encode_value v ++ rest) base c).0
        ≡ success (normal v) (length (encode_value v))
  value-encode zero v rest base c h p = absurd (omega arith)
  value-encode (suc l) null rest base c h p = refl
  value-encode (suc l) undefined rest base c h p = refl
  value-encode (suc l) typed_object rest base c h p = refl
  value-encode (suc l) (boolean true) rest base c h p = refl
  value-encode (suc l) (boolean false) rest base c h p = refl
  value-encode (suc l) (number bits) rest base c h p = number-encode bits rest base c p
  value-encode (suc l) (date n) rest base c h p = refl
  value-encode (suc l) (reference n) rest base c h p = refl
  value-encode (suc l) (string s) rest base c h p = string-encode l s rest base c p
  value-encode (suc l) (xml s) rest base c h p = refl
  value-encode (suc l) (byte_array s) rest base c h p = refl
  value-encode (suc l) (object fs) rest base c h p =
      object-read (decode_value l) (encode_fields fs ++ rest) base c (normal_fields fs)
        (length (encode_fields fs))
        (fields-encode l (length (encode_fields fs ++ rest)) fs end rest base 0 c
          (length (encode_fields fs)) (omega arith) (omega arith) p tt (omega arith))
  value-encode (suc l) (ecma_array fs) rest base c h p =
      object-read (decode_value l) (encode_fields fs ++ rest) base c (normal_fields fs)
        (length (encode_fields fs))
        (fields-encode l (length (encode_fields fs ++ rest)) fs end rest base 0 c
          (length (encode_fields fs)) (omega arith) (omega arith) p tt (omega arith))
  value-encode (suc l) (strict_array vs) rest base c h p =
      items-bytes (count_items vs) (encode_items vs) rest base (decode_value l) c (normal_items vs)
        p.0
        (items-encode l vs nil rest base 4 c (4 + length (encode_items vs)) (omega arith) p.1 refl)
  value-encode (suc l) (array vs) rest base c h p =
      items-bytes (count_items vs) (encode_items vs) rest base (decode_value l) c (normal_items vs)
        p.0
        (items-encode l vs nil rest base 4 c (4 + length (encode_items vs)) (omega arith) p.1 refl)

  items-encode :
      (l : ℕ) (vs acc : Items) (rest : List ℕ) (base offset : ℕ) (c : Codec) (last : ℕ)
      → height_items vs ≤ l
      → IsEncodableItems vs
      → last ≡ offset + length (encode_items vs)
      → (decode_items
          (decode_value l)
          (count_items vs)
          (encode_items vs ++ rest)
          base
          offset
          acc
          c).0
        ≡ success (append_items acc (normal_items vs)) last
  items-encode l nil acc rest base offset c last h p e =
      let same : last ≡ offset = omega arith in rw (append_items-nil acc, same) refl
  items-encode l (cons v vs) acc rest base offset c last h p e =
      rw (append_assoc (encode_value v) (encode_items vs) rest) (
        items_round (decode_value l) (count_items vs) (encode_value v ++ (encode_items vs ++ rest))
          base offset acc c (normal v) (length (encode_value v)) _
          (encode_value-nonempty v (encode_items vs ++ rest))
          (value-encode l v (encode_items vs ++ rest) (base + 1 + offset) c (omega arith) p.0)
          (λ d.
            rw
              (
                drop-append_self (encode_value v) (encode_items vs ++ rest),
                sym (append_items-snoc acc (normal_items vs) (normal v)),
              )
              (items-encode l vs (snoc acc (normal v)) rest base (offset + length (encode_value v))
                d last (omega arith) p.1
                (omega (arith, length-append (encode_value v) (encode_items vs))))))

  fields-encode :
      (l fuel : ℕ) (fs acc : Fields) (rest : List ℕ) (base offset : ℕ) (c : Codec) (last : ℕ)
      → length (encode_fields fs ++ rest) ≤ fuel
      → height_fields fs ≤ l
      → IsEncodableFields fs
      → Precede acc fs
      → last ≡ offset + length (encode_fields fs)
      → (decode_fields (decode_value l) fuel (encode_fields fs ++ rest) base offset acc c).0
        ≡ success (append_fields acc (normal_fields fs)) last
  fields-encode l zero end acc rest base offset c last f h p q e = absurd (omega arith)
  fields-encode l (suc fuel) end acc rest base offset c last f h p q e =
      let same : last ≡ offset + 3 = omega arith in rw (append_fields-end acc, same) refl
  fields-encode l zero (field k v fs) acc rest base offset c last f h p q e =
      absurd (omega (arith, (length-encode_field k v fs rest).0))
  fields-encode l (suc fuel) (field k v fs) acc rest base offset c last f h p q e =
      let tail = encode_fields fs ++ rest in
      let size = length-encode_field k v fs rest in
      rw
        (
          append_assoc (encode_key k) (encode_value v ++ encode_fields fs) rest,
          append_assoc (encode_value v) (encode_fields fs) rest,
        )
        (fields_round (decode_value l) fuel (encode_key k ++ (encode_value v ++ tail)) base offset
          acc c k (2 + length k) (normal v) (length (encode_value v)) _
          (object_end-encode k v tail p.0)
          (short_string-encode_key k (encode_value v ++ tail) (base + 1 + offset) c p.0)
          (λ d.
            rw (drop-key k [] (encode_value v ++ tail) (2 + length k) (omega arith))
              (value-encode l v tail (base + 1 + (offset + (2 + length k))) d (omega arith) p.1))
          (λ d.
            rw
              (
                drop-key k (encode_value v) tail (2 + length k + length (encode_value v))
                    (omega arith),
                put_field-last acc k v (normal v) fs q,
              )
              (simp (append_fields_assoc acc (field k (normal v) end) (normal_fields fs)) at (
                fields-encode l fuel fs (append_fields acc (field k (normal v) end)) rest base
                  (offset + (2 + length k) + length (encode_value v)) d last (omega (arith, size.0))
                  (omega arith) p.3 (Precede-snoc acc k v (normal v) fs q p.2)
                  (omega (arith, size.1))))))

-- A value that the AMF0 encoder can write, with at most 32 values inside one another below it,
-- comes back from decodeAMF0 with the bytes written for it consumed, whatever bytes follow them and
-- whatever the reference tables hold. An ECMA array comes back as an object, an array as a strict
-- array, and a value that has no encoding as null.
pub decode_amf0-encode_value :
    (v : Value) (rest : List ℕ) (c : Codec)
    → height v ≤ 32
    → IsEncodable v
    → (decode_amf0 (encode_value v ++ rest) c).0 ≡ success (normal v) (length (encode_value v))
unfolding decode_amf0
decode_amf0-encode_value v rest c h p = value-encode all_levels v rest 0 c (omega arith) p
