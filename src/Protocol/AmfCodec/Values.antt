-- ===== src/Protocol/AmfCodec/Values.antt =====
-- AMFValue, AMFError, the codec's tables and the outcome of a decoder.
use open_rtmp_claude_kiro.Common.{
  Bool, Bool-cases, List, [], arith, false, get_or, if◌then◌else◌, inl, inr, join32, ltb, max, refl,
  suc, true, ℕ, ◌%◌, ◌&&◌, ◌*◌, ◌++◌, ◌+◌, ◌/◌, ◌<◌, ◌==◌, ◌^◌, ◌||◌, ◌∷◌, ◌≡◌, ◌≤◌,
}

-- One constructor for each `AMFValue::Type` with the data that the codec stores under it. A date is
-- an int64_t, as its 64 bits.
mutual
  pub data Value : Type 0 where
    null undefined typed_object : Value
    boolean : Bool → Value
    number date reference : ℕ → Value
    string xml byte_array : List ℕ → Value
    object ecma_array : Fields → Value
    strict_array array : Items → Value

  pub data Items : Type 0 where
    nil : Items
    cons : Value → Items → Items

  -- std::map<std::string, AMFValue>, in the order of the keys.
  pub data Fields : Type 0 where
    end : Fields
    field : List ℕ → Value → Fields → Fields

-- `operator<` of std::string, on unsigned bytes.
unfoldable pub bytes_lt : List ℕ → List ℕ → Bool
bytes_lt xs [] = false
bytes_lt [] (y ∷ ys) = true
bytes_lt (x ∷ xs) (y ∷ ys) = ltb x y || (x == y && bytes_lt xs ys)

-- `properties[key] = value`.
unfoldable pub put_field : List ℕ → Value → Fields → Fields
put_field k v end = field k v end
put_field k v (field j w fs) =
    if bytes_lt k j
    then field k v (field j w fs)
    else if bytes_lt j k
    then field j w (put_field k v fs)
    else field k v fs

unfoldable pub count_items : Items → ℕ
count_items nil = 0
count_items (cons v vs) = suc (count_items vs)

-- `elements.push_back(value)`.
unfoldable pub snoc : Items → Value → Items
snoc nil v = cons v nil
snoc (cons w ws) v = cons w (snoc ws v)

pub data AmfErrorCode : Type 0 where
  unexpected_end invalid_type invalid_reference string_too_long : AmfErrorCode
  nesting_too_deep malformed_utf8 malformed_data encoding_failed : AmfErrorCode

-- The reference tables, the last entry last.
pub record Codec : Type 0 where
  pub amf0_object_references : List Value
  pub amf3_string_references : List (List ℕ)

unfoldable pub reset_reference_tables : Codec → Codec
reset_reference_tables c = record { amf0_object_references = []; amf3_string_references = [] }

abbrev pub add_object : Value → Codec → Codec
add_object v c = record c { amf0_object_references = c.amf0_object_references ++ (v ∷ []) }

-- A value with the bytes consumed, or an error with its offset. Two outcomes are not results of the
-- source: a read beyond the end of the data, and a loop that has used up its fuel.
pub data Outcome {ℓ} (A : Type ℓ) : Type ℓ where
  success : A → ℕ → Outcome A
  failure : AmfErrorCode → ℕ → Outcome A
  out_of_bounds out_of_fuel : Outcome A

abbrev pub Reply {ℓ} : Type ℓ → Type ℓ
Reply A = Outcome A × Codec

-- What follows a success; an error is passed on.
abbrev pub after {ℓ κ} : {A : Type ℓ} {B : Type κ} → Reply A → (A → ℕ → Codec → Reply B) → Reply B
after (success a n, c) f = f a n c
after (failure e k, c) f = (failure e k, c)
after (out_of_bounds, c) f = (out_of_bounds, c)
after (out_of_fuel, c) f = (out_of_fuel, c)

-- What follows a success with a known value.
pub after-success {ℓ κ} :
    {A : Type ℓ} {B : Type κ} (x : Reply A) (a : A) (n : ℕ) (f : A → ℕ → Codec → Reply B)
    (o : Outcome B)
    → x.0 ≡ success a n
    → ((c : Codec) → (f a n c).0 ≡ o)
    → (after x f).0 ≡ o
after-success (success b m, c) a n f o e h =
    let eb : b ≡ a = cc in let em : m ≡ n = cc in rw (eb, em) (h c)
after-success (failure b m, c) a n f o e h = absurd cc
after-success (out_of_bounds, c) a n f o e h = absurd cc
after-success (out_of_fuel, c) a n f o e h = absurd cc

-- A success satisfies the predicate, and the loops do not use up their fuel.
abbrev pub Ensures {ℓ} : {A : Type ℓ} → (A → ℕ → Type 0) → Outcome A → Type 0
Ensures Q (success a n) = Q a n
Ensures Q (failure e k) = Unit {0}
Ensures Q out_of_bounds = Unit {0}
Ensures Q out_of_fuel = ⊥

pub Ensures-after {ℓ κ} :
    {A : Type ℓ} {B : Type κ} (Q : A → ℕ → Type 0) (R : B → ℕ → Type 0) (x : Reply A)
    (f : A → ℕ → Codec → Reply B)
    → Ensures Q x.0
    → ((a : A) (n : ℕ) (c : Codec) → Q a n → Ensures R (f a n c).0)
    → Ensures R (after x f).0
Ensures-after Q R (success a n, c) f q h = h a n c q
Ensures-after Q R (failure e k, c) f q h = tt
Ensures-after Q R (out_of_bounds, c) f q h = tt
Ensures-after Q R (out_of_fuel, c) f q h = absurd q

pub Ensures-weaken {ℓ} :
    {A : Type ℓ} (Q R : A → ℕ → Type 0) (o : Outcome A)
    → ((a : A) (n : ℕ) → Q a n → R a n)
    → Ensures Q o
    → Ensures R o
Ensures-weaken Q R (success a n) h q = h a n q
Ensures-weaken Q R (failure e k) h q = tt
Ensures-weaken Q R out_of_bounds h q = tt
Ensures-weaken Q R out_of_fuel h q = q

pub Ensures-if {ℓ} :
    {A : Type ℓ} (Q : A → ℕ → Type 0) (b : Bool) (x y : Reply A)
    → (b ≡ true → Ensures Q x.0)
    → (b ≡ false → Ensures Q y.0)
    → Ensures Q (if b then x else y).0
Ensures-if Q true x y f g = f refl
Ensures-if Q false x y f g = g refl

-- How deep values stand inside a value: 0 for one that holds none.
unfoldable mutual
  pub height : Value → ℕ
  height (object fs) = height_fields fs
  height (ecma_array fs) = height_fields fs
  height (strict_array vs) = height_items vs
  height (array vs) = height_items vs
  height _ = 0

  pub height_fields : Fields → ℕ
  height_fields end = 0
  height_fields (field k v fs) = max (suc (height v)) (height_fields fs)

  pub height_items : Items → ℕ
  height_items nil = 0
  height_items (cons v vs) = max (suc (height v)) (height_items vs)

pub height_fields-put_field :
    (k : List ℕ) (v : Value) (fs : Fields) (n : ℕ)
    → height v < n
    → height_fields fs ≤ n
    → height_fields (put_field k v fs) ≤ n
unfolding put_field height
height_fields-put_field k v end n h hs = omega arith
height_fields-put_field k v (field j w fs) n h hs = elim (Bool-cases (bytes_lt k j)) [
  | inl e ↦ rw (e) (omega arith)
  | inr e ↦ elim (Bool-cases (bytes_lt j k)) [
    | inl d ↦ rw (e, d) (omega (arith, height_fields-put_field k v fs n h (omega arith)))
    | inr d ↦ rw (e, d) (omega arith)
  ]
]

pub height_items-snoc :
    (vs : Items) (v : Value) (n : ℕ)
    → height v < n
    → height_items vs ≤ n
    → height_items (snoc vs v) ≤ n
unfolding snoc height
height_items-snoc nil v n h hs = omega arith
height_items-snoc (cons w ws) v n h hs = omega (arith, height_items-snoc ws v n h (omega arith))

-- `readDoubleBE`.
unfoldable pub read_double_be : List ℕ → ℕ
read_double_be bytes =
    get_or bytes 0 0 * 2 ^ 56
    + get_or bytes 1 0 * 2 ^ 48
    + get_or bytes 2 0 * 2 ^ 40
    + get_or bytes 3 0 * 2 ^ 32
    + get_or bytes 4 0 * 2 ^ 24
    + get_or bytes 5 0 * 2 ^ 16
    + get_or bytes 6 0 * 2 ^ 8
    + get_or bytes 7 0

-- `writeDoubleBE`.
unfoldable pub write_double_be : ℕ → List ℕ
write_double_be bits =
    (bits / 2 ^ 56 % 256)
    ∷ (bits / 2 ^ 48 % 256)
    ∷ (bits / 2 ^ 40 % 256)
    ∷ (bits / 2 ^ 32 % 256)
    ∷ (bits / 2 ^ 24 % 256)
    ∷ (bits / 2 ^ 16 % 256)
    ∷ (bits / 2 ^ 8 % 256)
    ∷ (bits % 256)
    ∷ []

-- The shifts that write and read integers, most significant byte first.
unfoldable pub write_uint16_be : ℕ → List ℕ
write_uint16_be value = (value / 256 % 256) ∷ (value % 256) ∷ []

unfoldable pub write_uint32_be : ℕ → List ℕ
write_uint32_be value =
    (value / 16777216 % 256) ∷ (value / 65536 % 256) ∷ (value / 256 % 256) ∷ (value % 256) ∷ []

unfoldable pub read_uint16_be : List ℕ → ℕ
read_uint16_be bytes = get_or bytes 0 0 * 256 + get_or bytes 1 0

unfoldable pub read_uint32_be : List ℕ → ℕ
read_uint32_be bytes =
    join32 (get_or bytes 0 0) (get_or bytes 1 0) (get_or bytes 2 0) (get_or bytes 3 0)

pub read-write_uint16 :
    (v : ℕ) (rest : List ℕ) → v < 65536 → read_uint16_be (write_uint16_be v ++ rest) ≡ v
unfolding read_uint16_be write_uint16_be
read-write_uint16 v rest h = omega arith

pub read-write_uint32 :
    (v : ℕ) (rest : List ℕ) → v < 2 ^ 32 → read_uint32_be (write_uint32_be v ++ rest) ≡ v
unfolding read_uint32_be write_uint32_be
read-write_uint32 v rest h = omega arith

pub read-write_double :
    (v : ℕ) (rest : List ℕ) → v < 2 ^ 64 → read_double_be (write_double_be v ++ rest) ≡ v
unfolding read_double_be write_double_be
read-write_double v rest h = omega arith
