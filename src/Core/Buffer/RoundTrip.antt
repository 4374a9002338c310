-- ===== src/Core/Buffer/RoundTrip.antt =====
-- What a writer appends to a buffer, a reader reads.
use open_rtmp_claude_kiro.Common.{
  All, List, Option, [], ap, append-nil, append_assoc, arith, drop-append_self, get_or, length,
  length-append, le→leb, none, refl, some, subst, suc, sym, take-append_self, ℕ, ◌%◌, ◌++◌, ◌+◌,
  ◌-◌, ◌/◌, ◌<◌, ◌^◌, ◌∙◌, ◌∷◌, ◌≡◌,
}
use open_rtmp_claude_kiro.Core.Buffer.{
  BufferReader, advance, append, byte_at, has_remaining, read_bytes, read_uint16_be, read_uint24_be,
  read_uint32_be, read_uint32_le, read_uint8, remaining, write_bytes, write_uint16_be,
  write_uint24_be, write_uint32_be, write_uint32_le, write_uint8,
}
use mathlib.Core.Option

pub data Item : Type 0 where
  uint8 uint16_be uint24_be uint32_be uint32_le : ℕ → Item
  raw : List ℕ → Item

abbrev pub IsInRange : Item → Type 0
IsInRange (uint8 v) = v < 256
IsInRange (uint16_be v) = v < 65536
IsInRange (uint24_be v) = v < 16777216
IsInRange (uint32_be v) = v < 2 ^ 32
IsInRange (uint32_le v) = v < 2 ^ 32
IsInRange (raw bytes) = Unit {0}

unfoldable pub write_item : Item → List ℕ → List ℕ
write_item (uint8 v) b = write_uint8 v b
write_item (uint16_be v) b = write_uint16_be v b
write_item (uint24_be v) b = write_uint24_be v b
write_item (uint32_be v) b = write_uint32_be v b
write_item (uint32_le v) b = write_uint32_le v b
write_item (raw bytes) b = write_bytes bytes b

abbrev tagged {ℓ} :
    {A : Type ℓ} → (A → Item) → Option (A × BufferReader) → Option (Item × BufferReader)
tagged make o = Option.map (λ x. (make x.0, x.1)) o

-- The read of the same kind as an item.
unfoldable pub read_like : Item → BufferReader → Option (Item × BufferReader)
read_like (uint8 v) r = tagged uint8 (read_uint8 r)
read_like (uint16_be v) r = tagged uint16_be (read_uint16_be r)
read_like (uint24_be v) r = tagged uint24_be (read_uint24_be r)
read_like (uint32_be v) r = tagged uint32_be (read_uint32_be r)
read_like (uint32_le v) r = tagged uint32_le (read_uint32_le r)
read_like (raw bytes) r = tagged raw (read_bytes (length bytes) r)

get_or-append :
    (before after : List ℕ) (i : ℕ)
    → get_or (before ++ after) (length before + i) 0 ≡ get_or after i 0
get_or-append [] after i = ap (λ k. get_or after k 0) (omega arith)
get_or-append (b ∷ before) after i =
    let next : suc (length before) + i ≡ suc (length before + i) = omega arith in
    rw (next) (get_or-append before after i)

-- A read of what stands behind the bytes before the position.
advance-append {ℓ} :
    {A : Type ℓ} (before written after : List ℕ) (count : ℕ) (value : A)
    → count ≡ length written
    → advance count value
        (record { bytes = (before ++ written) ++ after; position = length before })
      ≡ some (
        value,
        record { bytes = (before ++ written) ++ after; position = length (before ++ written) },
      )
unfolding advance has_remaining remaining
advance-append before written after count value e =
    let last : length before + count ≡ length (before ++ written) =
      omega (arith, length-append before written) in
    let enough =
      le→leb count (length ((before ++ written) ++ after) - length before)
        (omega (arith, length-append before written, length-append (before ++ written) after)) in
    rw (enough, last) refl

byte_at-written :
    (before written after : List ℕ) (i : ℕ)
    → byte_at i (record { bytes = (before ++ written) ++ after; position = length before })
      ≡ get_or (written ++ after) i 0
unfolding byte_at
byte_at-written before written after i =
    rw (append_assoc before written after) (get_or-append before (written ++ after) i)

item-read {ℓ} :
    {A : Type ℓ} (make : A → Item) (before written after : List ℕ) (count : ℕ) (value v : A)
    → value ≡ v
    → count ≡ length written
    → tagged make (
        advance count value
          (record { bytes = (before ++ written) ++ after; position = length before }))
      ≡ some (
        make v,
        record { bytes = (before ++ written) ++ after; position = length (before ++ written) },
      )
item-read make before written after count value v e c =
    rw (e) (ap (tagged make) (advance-append before written after count v c))

-- One item behind any bytes and before any others.
read_like-write_item :
    (x : Item) (before after : List ℕ)
    → IsInRange x
    → read_like x (record { bytes = write_item x before ++ after; position = length before })
      ≡ some (
        x,
        record { bytes = write_item x before ++ after; position = length (write_item x before) },
      )
unfolding read_like write_item append write_uint8 read_uint8 write_uint16_be read_uint16_be
    write_uint24_be read_uint24_be write_uint32_be read_uint32_be write_uint32_le read_uint32_le
    write_bytes read_bytes
read_like-write_item (uint8 v) before after h =
    item-read uint8 before (v ∷ []) after 1 _ v (byte_at-written before (v ∷ []) after 0)
      (omega arith)
read_like-write_item (uint16_be v) before after h =
    let w = (v / 256 % 256) ∷ (v % 256) ∷ [] in
    let bytes = byte_at-written before w after in
    item-read uint16_be before w after 2 _ v (omega (arith, bytes 0, bytes 1)) (omega arith)
read_like-write_item (uint24_be v) before after h =
    let w = (v / 65536 % 256) ∷ (v / 256 % 256) ∷ (v % 256) ∷ [] in
    let bytes = byte_at-written before w after in
    item-read uint24_be before w after 3 _ v (omega (arith, bytes 0, bytes 1, bytes 2))
      (omega arith)
read_like-write_item (uint32_be v) before after h =
    let w = (v / 16777216 % 256) ∷ (v / 65536 % 256) ∷ (v / 256 % 256) ∷ (v % 256) ∷ [] in
    let bytes = byte_at-written before w after in
    item-read uint32_be before w after 4 _ v (omega (arith, bytes 0, bytes 1, bytes 2, bytes 3))
      (omega arith)
read_like-write_item (uint32_le v) before after h =
    let w = (v % 256) ∷ (v / 256 % 256) ∷ (v / 65536 % 256) ∷ (v / 16777216 % 256) ∷ [] in
    let bytes = byte_at-written before w after in
    item-read uint32_le before w after 4 _ v (omega (arith, bytes 0, bytes 1, bytes 2, bytes 3))
      (omega arith)
read_like-write_item (raw w) before after h =
    item-read raw before w after (length w) _ w
      (rw
        (
          append_assoc before w after,
          drop-append_self before (w ++ after),
          take-append_self w after,
        )
        refl)
      refl

unfoldable pub write_items : List Item → List ℕ → List ℕ
write_items [] b = b
write_items (x ∷ xs) b = write_items xs (write_item x b)

infixl 20 ◌>>=◌
abbrev ◌>>=◌ {ℓ κ} : {A : Type ℓ} {B : Type κ} → Option A → (A → Option B) → Option B
none >>= f = none
some a >>= f = f a

unfoldable pub read_all_like : List Item → BufferReader → Option (List Item × BufferReader)
read_all_like [] r = some ([], r)
read_all_like (x ∷ xs) r = do (y, q) ← read_like x r; (ys, t) ← read_all_like xs q; some (y ∷ ys, t)

write_item-append : (x : Item) (b : List ℕ) → write_item x b ≡ b ++ write_item x []
unfolding write_item append write_uint8 write_uint16_be write_uint24_be write_uint32_be
    write_uint32_le write_bytes
write_item-append (uint8 v) b = refl
write_item-append (uint16_be v) b = refl
write_item-append (uint24_be v) b = refl
write_item-append (uint32_be v) b = refl
write_item-append (uint32_le v) b = refl
write_item-append (raw bytes) b = refl

write_items-append : (xs : List Item) (b : List ℕ) → write_items xs b ≡ b ++ write_items xs []
unfolding write_items
write_items-append [] b = sym (append-nil b)
write_items-append (x ∷ xs) b =
    write_items-append xs (write_item x b)
    ∙ ap (λ c. c ++ write_items xs []) (write_item-append x b)
    ∙ append_assoc b (write_item x []) (write_items xs [])
    ∙ ap (◌++◌ b) (sym (write_items-append xs (write_item x [])))

reads :
    (xs : List Item) (before after bytes : List ℕ)
    → All IsInRange xs
    → bytes ≡ write_items xs before ++ after
    → read_all_like xs (record { bytes = bytes; position = length before })
      ≡ some (xs, record { bytes = bytes; position = length (write_items xs before) })
unfolding read_all_like write_items
reads [] before after bytes h e = refl
reads (x ∷ xs) before after bytes h e =
    let tail = write_items xs [] ++ after in
    let split : bytes ≡ write_item x before ++ tail =
      e
      ∙ ap (λ b. b ++ after) (write_items-append xs (write_item x before))
      ∙ append_assoc (write_item x before) (write_items xs []) after in
    let first =
      subst
        (λ b.
          read_like x (record { bytes = b; position = length before })
          ≡ some (x, record { bytes = b; position = length (write_item x before) }))
        (sym split) (read_like-write_item x before tail h.0) in
    rw (first, reads xs (write_item x before) after bytes h.1 e) refl

-- Numbers in the range of their type and runs of bytes that are written one after another to a buffer
-- are read back by the reads of the same kinds, in the same order, whatever stands before and after
-- them in the buffer, and the reader then stands at the end of what was written.
pub read_all_like-write_items :
    (xs : List Item) (before after : List ℕ)
    → All IsInRange xs
    → read_all_like xs (record { bytes = write_items xs before ++ after; position = length before })
      ≡ some (
        xs,
        record {
          bytes = write_items xs before ++ after;
          position = length (write_items xs before);
        },
      )
read_all_like-write_items xs before after h = reads xs before after _ h refl
