-- ===== src/Tests/Amf.antt =====
-- AMF values written and read.
use open_rtmp_claude_kiro.Common.{
  List, [], arith, length, refl, true, ℕ, ◌++◌, ◌-◌, ◌^◌, ◌↔◌, ◌∷◌, ◌≡◌, ◌≤◌,
}
use open_rtmp_claude_kiro.Protocol.AmfCodec.Amf3.{decode_amf3, encode_amf3_value}
use open_rtmp_claude_kiro.Protocol.AmfCodec.Amf3.RoundTrip.{
  IsWritable, decode_amf3-encode_amf3_value, kept,
}
use open_rtmp_claude_kiro.Protocol.AmfCodec.Decode.{decode_amf0, decode_long_string}
use open_rtmp_claude_kiro.Protocol.AmfCodec.Decode.LongString.{decode_long_string-overread}
use open_rtmp_claude_kiro.Protocol.AmfCodec.Decode.Nested.{decode_amf0-Ensures}
use open_rtmp_claude_kiro.Protocol.AmfCodec.Encode.{encode_value}
use open_rtmp_claude_kiro.Protocol.AmfCodec.Encode.Nested.{decode_amf0-encode_value}
use open_rtmp_claude_kiro.Protocol.AmfCodec.Encode.Normal.{IsAfter, IsEncodable, normal}
use open_rtmp_claude_kiro.Protocol.AmfCodec.Values.{
  Codec, Ensures, Value, boolean, bytes_lt, cons, count_items, end, field, height, nil, null,
  number, object, out_of_bounds, read_uint32_be, strict_array, success,
}

abbrev name_key : List ℕ
name_key = 97 ∷ []

-- {a: 2.0, b: [true, null]}, the doubles as their bits.
abbrev sample : Value
sample = object (
    field name_key (number 4611686018427387904)
      (field (98 ∷ []) (strict_array (cons (boolean true) (cons null nil))) end))

abbrev empty_codec : Codec
empty_codec = record { amf0_object_references = []; amf3_string_references = [] }

decode_amf0-encode_value_example :
    (decode_amf0 (encode_value sample ++ (7 ∷ [])) empty_codec).0
    ≡ success (normal sample) (length (encode_value sample))
decode_amf0-encode_value_example =
    decode_amf0-encode_value sample (7 ∷ []) empty_codec low encodable
  where
    low : height sample ≤ 32
    low = unfold height in omega arith

    encodable : IsEncodable sample
    encodable =
        unfold IsEncodable IsAfter bytes_lt count_items in
        (omega arith, omega arith, (refl, tt), (omega arith, (omega arith, (tt, (tt, tt))), tt, tt))

-- An object that ends without its end marker.
decode_amf0-Ensures_example :
    Ensures
      (λ v n. (1 ≤ n) × (n ≤ 4) × (height v ≤ 32))
      (decode_amf0 (3 ∷ 0 ∷ 0 ∷ 5 ∷ []) empty_codec).0
decode_amf0-Ensures_example = decode_amf0-Ensures (3 ∷ 0 ∷ 0 ∷ 5 ∷ []) empty_codec

-- The largest length that four bytes state, with nothing behind them.
decode_long_string-overread_example :
    ((decode_long_string (255 ∷ 255 ∷ 255 ∷ 255 ∷ []) 0 empty_codec).0 ≡ out_of_bounds)
    ↔ ((4 ≤ 4) × (2 ^ 32 - 4 ≤ read_uint32_be (255 ∷ 255 ∷ 255 ∷ 255 ∷ [])))
decode_long_string-overread_example =
    decode_long_string-overread (255 ∷ 255 ∷ 255 ∷ 255 ∷ []) 0 empty_codec
      (omega arith, (omega arith, (omega arith, (omega arith, tt)))) (omega arith)

-- The double -1.
abbrev minus_one : ℕ
minus_one = 0xBFF0000000000000

decode_amf3-encode_amf3_value_example :
    (decode_amf3 (encode_amf3_value (number minus_one) ++ (9 ∷ [])) empty_codec).0
    ≡ success (kept (number minus_one)) (length (encode_amf3_value (number minus_one)))
decode_amf3-encode_amf3_value_example =
    decode_amf3-encode_amf3_value (number minus_one) (9 ∷ []) empty_codec fits
  where
    fits : IsWritable (number minus_one)
    fits = unfold IsWritable in omega arith
