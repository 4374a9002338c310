-- ===== src/Protocol/AmfCodec/Decode.antt =====
-- The AMF0 decoders. `bytes` is what `data` and `length` are, `base` is `baseOffset`.
pub mod Bounds
pub mod Leaves
pub mod LongString
pub mod Nested
use open_rtmp_claude_kiro.Common.{
  Bool, List, [], add32, drop, false, if◌then◌else◌, leb, length, ltb, not, suc, take, zero, ℕ,
  ◌&&◌, ◌+◌, ◌-◌, ◌==◌, ◌∷◌,
}
use open_rtmp_claude_kiro.Protocol.AmfCodec.Amf3.{decode_amf3_value, max_nesting_depth}
use open_rtmp_claude_kiro.Protocol.AmfCodec.Doubles.{int64_of_double}
use open_rtmp_claude_kiro.Protocol.AmfCodec.Values.{
  Codec, Fields, Items, Reply, Value, add_object, after, boolean, date, ecma_array, end, failure,
  invalid_reference, invalid_type, nesting_too_deep, nil, null, number, object, out_of_bounds,
  out_of_fuel, put_field, read_double_be, read_uint16_be, read_uint32_be, reference, snoc,
  strict_array, string, success, undefined, unexpected_end,
}

unfoldable pub decode_number : List ℕ → ℕ → Codec → Reply Value
decode_number bytes base c =
    if ltb (length bytes) 8
    then (failure unexpected_end (base + 1), c)
    else (success (number (read_double_be bytes)) 9, c)

unfoldable pub decode_boolean : List ℕ → ℕ → Codec → Reply Value
decode_boolean [] base c = (failure unexpected_end (base + 1), c)
decode_boolean (b ∷ rest) base c = (success (boolean (not (b == 0))) 2, c)

unfoldable pub decode_string : List ℕ → ℕ → Codec → Reply Value
decode_string bytes base c =
    let size = read_uint16_be bytes in
    if ltb (length bytes) 2
    then (failure unexpected_end (base + 1), c)
    else if ltb (length bytes) (2 + size)
    then (failure unexpected_end (base + 3), c)
    else (success (string (take size (drop 2 bytes))) (3 + size), c)

-- The guard `length < 4 + strLength` adds in uint32_t. Where the sum wraps, the string is read beyond
-- the end of the data, unless there is that much of it.
unfoldable pub decode_long_string : List ℕ → ℕ → Codec → Reply Value
decode_long_string bytes base c =
    let size = read_uint32_be bytes in
    if ltb (length bytes) 4
    then (failure unexpected_end (base + 1), c)
    else if ltb (length bytes) (add32 4 size)
    then (failure unexpected_end (base + 5), c)
    else if ltb (length bytes) (4 + size)
    then (out_of_bounds, c)
    else (success (string (take size (drop 4 bytes))) (1 + add32 4 size), c)

unfoldable pub decode_short_string : List ℕ → ℕ → Codec → Reply (List ℕ)
decode_short_string bytes base c =
    let size = read_uint16_be bytes in
    if ltb (length bytes) 2
    then (failure unexpected_end base, c)
    else if ltb (length bytes) (2 + size)
    then (failure unexpected_end (base + 2), c)
    else (success (take size (drop 2 bytes)) (2 + size), c)

unfoldable pub decode_date : List ℕ → ℕ → Codec → Reply Value
decode_date bytes base c =
    if ltb (length bytes) 10
    then (failure unexpected_end (base + 1), c)
    else (success (date (int64_of_double (read_double_be bytes))) 11, c)

unfoldable pub decode_reference : List ℕ → ℕ → Codec → Reply Value
decode_reference bytes base c =
    let index = read_uint16_be bytes in
    if ltb (length bytes) 2
    then (failure unexpected_end (base + 1), c)
    else if leb (length c.amf0_object_references) index
    then (failure invalid_reference (base + 1), c)
    else (success (reference index) 3, c)

-- The decoder of the values inside a value: the bytes, their offset, and the codec.
abbrev pub Decoder : Type 0
Decoder = List ℕ → ℕ → Codec → Reply Value

-- `data[offset] == 0 && data[offset + 1] == 0 && data[offset + 2] == OBJECT_END_MARKER`.
unfoldable pub at_object_end : List ℕ → Bool
at_object_end (a ∷ b ∷ d ∷ rest) = a == 0 && (b == 0 && d == 9)
at_object_end _ = false

-- The loop over the properties of an object or an ECMA array on fuel, with the offset and the
-- properties so far. A success is with the offset after the end marker.
unfoldable pub decode_fields : Decoder → ℕ → List ℕ → ℕ → ℕ → Fields → Codec → Reply Fields
decode_fields dec fuel [] base offset fs c = (failure unexpected_end (base + 1 + offset), c)
decode_fields dec zero (b ∷ bytes) base offset fs c = (out_of_fuel, c)
decode_fields dec (suc fuel) (b ∷ bytes) base offset fs c =
    let input = b ∷ bytes in
    let more = after (decode_short_string input (base + 1 + offset) c) λ name n c₁.
      after (dec (drop n input) (base + 1 + (offset + n)) c₁) λ v k c₂.
        decode_fields dec fuel (drop (n + k) input) base (offset + n + k) (put_field name v fs)
          c₂ in
    if at_object_end input then (success fs (offset + 3), c) else more

-- The value is added to the reference table.
abbrev pub remember : (A : Type 0) → (A → Value) → A → ℕ → Codec → Reply Value
remember A make a n c = (success (make a) (1 + n), add_object (make a) c)

unfoldable pub decode_object : Decoder → List ℕ → ℕ → Codec → Reply Value
decode_object dec bytes base c =
    after (decode_fields dec (length bytes) bytes base 0 end c) (remember Fields object)

unfoldable pub decode_ecma_array : Decoder → List ℕ → ℕ → Codec → Reply Value
decode_ecma_array dec bytes base c =
    if ltb (length bytes) 4
    then (failure unexpected_end (base + 1), c)
    else after (decode_fields dec (length bytes) (drop 4 bytes) base 4 end c)
        (remember Fields ecma_array)

-- The loop over the elements of a strict array, which counts down and also ends with the data.
unfoldable pub decode_items : Decoder → ℕ → List ℕ → ℕ → ℕ → Items → Codec → Reply Items
decode_items dec zero bytes base offset vs c = (success vs offset, c)
decode_items dec (suc left) [] base offset vs c = (success vs offset, c)
decode_items dec (suc left) (b ∷ bytes) base offset vs c =
    after (dec (b ∷ bytes) (base + 1 + offset) c)
      λ v k c₁. decode_items dec left (drop k (b ∷ bytes)) base (offset + k) (snoc vs v) c₁

unfoldable pub decode_strict_array : Decoder → List ℕ → ℕ → Codec → Reply Value
decode_strict_array dec bytes base c =
    if ltb (length bytes) 4
    then (failure unexpected_end (base + 1), c)
    else after (decode_items dec (read_uint32_be bytes) (drop 4 bytes) base 4 nil c)
        (remember Items strict_array)

-- The `switch` over the marker, at the stated depth.
unfoldable pub decode_marked : Decoder → ℕ → ℕ → List ℕ → ℕ → Codec → Reply Value
decode_marked dec depth marker rest base c =
    if marker == 0x00
    then decode_number rest base c
    else if marker == 0x01
    then decode_boolean rest base c
    else if marker == 0x02
    then decode_string rest base c
    else if marker == 0x03
    then decode_object dec rest base c
    else if marker == 0x05
    then (success null 1, c)
    else if marker == 0x06
    then (success undefined 1, c)
    else if marker == 0x07
    then decode_reference rest base c
    else if marker == 0x08
    then decode_ecma_array dec rest base c
    else if marker == 0x0A
    then decode_strict_array dec rest base c
    else if marker == 0x0B
    then decode_date rest base c
    else if marker == 0x0C
    then decode_long_string rest base c
    else if marker == 0x11
    then after (decode_amf3_value depth rest (base + 1) c) (λ v n d. (success v (1 + n), d))
    else (failure invalid_type base, c)

-- `decodeAMF0Value` with the levels of nesting that are left: at depth d, 33 - d. None is left where
-- the source's guard `depth > MAX_NESTING_DEPTH` holds.
unfoldable pub decode_value : ℕ → List ℕ → ℕ → Codec → Reply Value
decode_value zero bytes base c = (failure nesting_too_deep base, c)
decode_value (suc levels) [] base c = (failure unexpected_end base, c)
decode_value (suc levels) (marker ∷ rest) base c =
    decode_marked (decode_value levels) (max_nesting_depth - levels) marker rest base c

abbrev pub all_levels : ℕ
all_levels = 33

unfoldable pub decode_amf0 : List ℕ → Codec → Reply Value
decode_amf0 bytes c = decode_value all_levels bytes 0 c

pub data AmfVersion : Type 0 where
  amf0 amf3 : AmfVersion

unfoldable pub decode_version : AmfVersion → List ℕ → ℕ → Codec → Reply Value
decode_version amf0 bytes base c = decode_value all_levels bytes base c
decode_version amf3 bytes base c = decode_amf3_value 0 bytes base c

-- The loop of `decodeAll`, on fuel.
unfoldable pub decode_all_loop : AmfVersion → ℕ → List ℕ → ℕ → Items → Codec → Reply Items
decode_all_loop version fuel [] offset vs c = (success vs offset, c)
decode_all_loop version zero (b ∷ bytes) offset vs c = (out_of_fuel, c)
decode_all_loop version (suc fuel) (b ∷ bytes) offset vs c =
    after (decode_version version (b ∷ bytes) offset c)
      λ v n c₁. decode_all_loop version fuel (drop n (b ∷ bytes)) (offset + n) (snoc vs v) c₁

unfoldable pub decode_all : AmfVersion → List ℕ → Codec → Reply Items
decode_all version bytes c = decode_all_loop version (length bytes) bytes 0 nil c
