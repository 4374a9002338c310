-- ===== src/Protocol/AmfCodec/Encode/Normal.antt =====
-- What the AMF0 encoder can write, and what it keeps of a value.
use open_rtmp_claude_kiro.Common.{
  List, [], ap, arith, false, length, refl, true, ℕ, ◌-◌, ◌<◌, ◌^◌, ◌∷◌, ◌≡◌, ◌≤◌,
}
use open_rtmp_claude_kiro.Protocol.AmfCodec.Values.{
  Fields, Items, Value, array, boolean, bytes_lt, cons, count_items, ecma_array, end, field, nil,
  null, number, object, put_field, snoc, strict_array, string, undefined,
}

-- An ECMA array is written as an object, an array as a strict array; what has no encoding, as null.
unfoldable mutual
  pub normal : Value → Value
  normal (object fs) = object (normal_fields fs)
  normal (ecma_array fs) = object (normal_fields fs)
  normal (strict_array vs) = strict_array (normal_items vs)
  normal (array vs) = strict_array (normal_items vs)
  normal (number bits) = number bits
  normal (boolean b) = boolean b
  normal (string s) = string s
  normal undefined = undefined
  normal _ = null

  pub normal_fields : Fields → Fields
  normal_fields end = end
  normal_fields (field k v fs) = field k (normal v) (normal_fields fs)

  pub normal_items : Items → Items
  normal_items nil = nil
  normal_items (cons v vs) = cons (normal v) (normal_items vs)

-- Every key stands behind the stated one.
unfoldable pub IsAfter : List ℕ → Fields → Type 0
IsAfter j end = Unit {0}
IsAfter j (field k v fs) = (bytes_lt j k ≡ true) × IsAfter j fs

-- Doubles of 64 bits, strings short enough for their length to be written and for the decoder's
-- guard, keys of a 16-bit length in the order of std::map, and a 32-bit count of the elements.
unfoldable mutual
  pub IsEncodable : Value → Type 0
  IsEncodable (number bits) = bits < 2 ^ 64
  IsEncodable (string s) = length s < 2 ^ 32 - 4
  IsEncodable (object fs) = IsEncodableFields fs
  IsEncodable (ecma_array fs) = IsEncodableFields fs
  IsEncodable (strict_array vs) = (count_items vs < 2 ^ 32) × IsEncodableItems vs
  IsEncodable (array vs) = (count_items vs < 2 ^ 32) × IsEncodableItems vs
  IsEncodable _ = Unit {0}

  pub IsEncodableFields : Fields → Type 0
  IsEncodableFields end = Unit {0}
  IsEncodableFields (field k v fs) =
      (length k ≤ 65535) × IsEncodable v × IsAfter k fs × IsEncodableFields fs

  pub IsEncodableItems : Items → Type 0
  IsEncodableItems nil = Unit {0}
  IsEncodableItems (cons v vs) = IsEncodable v × IsEncodableItems vs

unfoldable pub append_fields : Fields → Fields → Fields
append_fields end gs = gs
append_fields (field k v fs) gs = field k v (append_fields fs gs)

unfoldable pub append_items : Items → Items → Items
append_items nil ws = ws
append_items (cons v vs) ws = cons v (append_items vs ws)

pub append_items-snoc :
    (vs ws : Items) (v : Value) → append_items (snoc vs v) ws ≡ append_items vs (cons v ws)
unfolding append_items snoc
append_items-snoc nil ws v = refl
append_items-snoc (cons u vs) ws v = ap (cons u) (append_items-snoc vs ws v)

pub bytes_lt-asym : (xs ys : List ℕ) → bytes_lt xs ys ≡ true → bytes_lt ys xs ≡ false
unfolding bytes_lt
bytes_lt-asym xs [] h = absurd cc
bytes_lt-asym [] (y ∷ ys) h = refl
bytes_lt-asym (x ∷ xs) (y ∷ ys) h = ground (arith, bytes_lt-asym xs ys)

-- The fields read so far stand before those that follow.
unfoldable pub Precede : Fields → Fields → Type 0
Precede end fs = Unit {0}
Precede (field j w gs) fs = IsAfter j fs × Precede gs fs

pub put_field-last :
    (gs : Fields) (k : List ℕ) (v v₁ : Value) (fs : Fields)
    → Precede gs (field k v fs)
    → put_field k v₁ gs ≡ append_fields gs (field k v₁ end)
unfolding put_field append_fields Precede IsAfter
put_field-last end k v v₁ fs h = refl
put_field-last (field j w gs) k v v₁ fs h =
    rw (bytes_lt-asym j k h.0.0, h.0.0) (ap (field j w) (put_field-last gs k v v₁ fs h.1))

pub Precede-snoc :
    (gs : Fields) (k : List ℕ) (v v₁ : Value) (fs : Fields)
    → Precede gs (field k v fs)
    → IsAfter k fs
    → Precede (append_fields gs (field k v₁ end)) fs
unfolding append_fields Precede IsAfter
Precede-snoc end k v v₁ fs h a = (a, tt)
Precede-snoc (field j w gs) k v v₁ fs h a = (h.0.1, Precede-snoc gs k v v₁ fs h.1 a)

pub append_fields_assoc :
    (fs gs hs : Fields)
    → append_fields (append_fields fs gs) hs ≡ append_fields fs (append_fields gs hs)
unfolding append_fields
append_fields_assoc end gs hs = refl
append_fields_assoc (field k v fs) gs hs = ap (field k v) (append_fields_assoc fs gs hs)
