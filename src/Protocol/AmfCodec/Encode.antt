-- ===== src/Protocol/AmfCodec/Encode.antt =====
-- The AMF0 encoders.
pub mod Nested
pub mod Normal
pub mod RoundTrip
use open_rtmp_claude_kiro.Common.{List, [], if◌then◌else◌, length, ltb, ℕ, ◌%◌, ◌++◌, ◌^◌, ◌∷◌}
use open_rtmp_claude_kiro.Protocol.AmfCodec.Values.{
  Fields, Items, Value, array, boolean, cons, count_items, ecma_array, end, field, nil, null,
  number, object, strict_array, string, undefined, write_double_be, write_uint16_be,
  write_uint32_be,
}

-- A key is written with the low 16 bits of its length.
unfoldable pub encode_key : List ℕ → List ℕ
encode_key key = write_uint16_be (length key % 2 ^ 16) ++ key

unfoldable pub encode_string : List ℕ → List ℕ
encode_string str =
    if ltb 65535 (length str)
    then 0x0C ∷ write_uint32_be (length str % 2 ^ 32) ++ str
    else 0x02 ∷ write_uint16_be (length str) ++ str

unfoldable mutual
  pub encode_value : Value → List ℕ
  encode_value null = 0x05 ∷ []
  encode_value undefined = 0x06 ∷ []
  encode_value (boolean b) = 0x01 ∷ (if b then 1 else 0) ∷ []
  encode_value (number bits) = 0x00 ∷ write_double_be bits
  encode_value (string s) = encode_string s
  encode_value (object fs) = 0x03 ∷ encode_fields fs
  encode_value (ecma_array fs) = 0x03 ∷ encode_fields fs
  encode_value (strict_array vs) =
      0x0A ∷ write_uint32_be (count_items vs % 2 ^ 32) ++ encode_items vs
  encode_value (array vs) = 0x0A ∷ write_uint32_be (count_items vs % 2 ^ 32) ++ encode_items vs
  encode_value _ = 0x05 ∷ []

  pub encode_fields : Fields → List ℕ
  encode_fields end = 0 ∷ 0 ∷ 0x09 ∷ []
  encode_fields (field k v fs) = encode_key k ++ (encode_value v ++ encode_fields fs)

  pub encode_items : Items → List ℕ
  encode_items nil = []
  encode_items (cons v vs) = encode_value v ++ encode_items vs
