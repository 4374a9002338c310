-- ===== src/Core/Buffer.antt =====
-- include/openrtmp/core/buffer.hpp: Buffer, BufferReader and BufferWriter. A buffer is the list of its
-- bytes, and a reader that throws std::out_of_range gives none. Numbers are in the range of their
-- type when they are written.
pub mod RoundTrip
use open_rtmp_claude_kiro.Common.{
  Bool, List, Option, [], drop, get_or, if◌then◌else◌, join24, join32, leb, length, ltb, none, some,
  suc, take, zero, ℕ, ◌%◌, ◌*◌, ◌++◌, ◌+◌, ◌-◌, ◌/◌, ◌∷◌,
}
use mathlib.Core.Option

pub record BufferReader : Type 0 where
  pub bytes : List ℕ
  pub position : ℕ

-- The constructor.
unfoldable pub new_reader : List ℕ → BufferReader
new_reader bytes = record { bytes = bytes; position = 0 }

unfoldable pub remaining : BufferReader → ℕ
remaining r = length r.bytes - r.position

unfoldable pub has_remaining : ℕ → BufferReader → Bool
has_remaining n r = leb n (remaining r)

-- The byte `data_[position_ + i]`.
unfoldable pub byte_at : ℕ → BufferReader → ℕ
byte_at i r = get_or r.bytes (r.position + i) 0

-- `checkRemaining(count)`, the value, and the position moved on.
unfoldable pub advance {ℓ} : {A : Type ℓ} → ℕ → A → BufferReader → Option (A × BufferReader)
advance count value r =
    if has_remaining count r then some (value, record r { position = r.position + count }) else none

unfoldable pub read_uint8 : BufferReader → Option (ℕ × BufferReader)
read_uint8 r = advance 1 (byte_at 0 r) r

unfoldable pub read_uint16_be : BufferReader → Option (ℕ × BufferReader)
read_uint16_be r = advance 2 (byte_at 0 r * 256 + byte_at 1 r) r

unfoldable pub read_uint24_be : BufferReader → Option (ℕ × BufferReader)
read_uint24_be r = advance 3 (join24 (byte_at 0 r) (byte_at 1 r) (byte_at 2 r)) r

unfoldable pub read_uint32_be : BufferReader → Option (ℕ × BufferReader)
read_uint32_be r = advance 4 (join32 (byte_at 0 r) (byte_at 1 r) (byte_at 2 r) (byte_at 3 r)) r

unfoldable pub read_uint32_le : BufferReader → Option (ℕ × BufferReader)
read_uint32_le r = advance 4 (join32 (byte_at 3 r) (byte_at 2 r) (byte_at 1 r) (byte_at 0 r)) r

unfoldable pub read_bytes : ℕ → BufferReader → Option (List ℕ × BufferReader)
read_bytes count r = advance count (take count (drop r.position r.bytes)) r

unfoldable pub skip : ℕ → BufferReader → Option BufferReader
skip count r = Option.map (λ x. x.1) (advance count count r)

unfoldable pub seek : ℕ → BufferReader → Option BufferReader
seek pos r = if ltb (length r.bytes) pos then none else some (record r { position = pos })

unfoldable pub append : List ℕ → List ℕ → List ℕ
append bytes buffer = buffer ++ bytes

unfoldable pub fill : ℕ → ℕ → List ℕ
fill zero value = []
fill (suc n) value = value ∷ fill n value

unfoldable pub resize : ℕ → ℕ → List ℕ → List ℕ
resize size value buffer = take size buffer ++ fill (size - length buffer) value

unfoldable pub write_uint8 : ℕ → List ℕ → List ℕ
write_uint8 value = append (value ∷ [])

unfoldable pub write_uint16_be : ℕ → List ℕ → List ℕ
write_uint16_be value = append ((value / 256 % 256) ∷ (value % 256) ∷ [])

unfoldable pub write_uint24_be : ℕ → List ℕ → List ℕ
write_uint24_be value = append ((value / 65536 % 256) ∷ (value / 256 % 256) ∷ (value % 256) ∷ [])

unfoldable pub write_uint32_be : ℕ → List ℕ → List ℕ
write_uint32_be value =
    append
      ((value / 16777216 % 256) ∷ (value / 65536 % 256) ∷ (value / 256 % 256) ∷ (value % 256) ∷ [])

unfoldable pub write_uint32_le : ℕ → List ℕ → List ℕ
write_uint32_le value =
    append
      ((value % 256) ∷ (value / 256 % 256) ∷ (value / 65536 % 256) ∷ (value / 16777216 % 256) ∷ [])

unfoldable pub write_bytes : List ℕ → List ℕ → List ℕ
write_bytes bytes = append bytes
