-- ===== src/Common/Maps.antt =====
-- std::map, std::unordered_map and std::set as association lists and lists. The order of the
-- entries of an unordered container is not observed by the code that is modelled over them.
use Prim.Native.Nat.{ℕ}
use mathlib.Core.Path.{◌≡◌, refl}
use mathlib.Core.Logic.{◌↔◌, ◌⊎◌, ◌≢◌}
use mathlib.Core.Bool.{Bool, true, false, ◌||◌}
use mathlib.Core.List.{List, [], ◌∷◌}
use mathlib.Core.Option.{Option, none, some}
use native.Mathlib.Omega.{arith}
use open_rtmp_claude_kiro.Common.{==_iff, Bool-cases, if◌then◌else◌, inl, inr, ◌==◌ as nat_beq}
use text.Mathlib.Text.{◌==◌ as str_eq}
use text.Mathlib.TextEquality.{eq_iff}
use Prim.Native.String.{String}

pub record Eq {ℓ} (A : Type ℓ) : Type ℓ where
  pub beq : A → A → Bool
  pub beq_iff : (a b : A) → (beq a b ≡ true) ↔ (a ≡ b)

instance abbrev pub nat_eq : Eq ℕ
nat_eq = record { beq = nat_beq; beq_iff = ==_iff }

instance abbrev pub string_eq : Eq String
string_eq = record { beq = str_eq; beq_iff = eq_iff }

module _ {ℓ κ} {K : Type ℓ} {V : Type κ} ⦃e : Eq K⦄ where
  unfoldable pub find : K → List (K × V) → Option V
  find k [] = none
  find k ((j, v) ∷ m) = if e.beq j k then some v else find k m

  -- `m[k] = v`.
  unfoldable pub insert : K → V → List (K × V) → List (K × V)
  insert k v [] = (k, v) ∷ []
  insert k v ((j, w) ∷ m) = if e.beq j k then (k, v) ∷ m else (j, w) ∷ insert k v m

  unfoldable pub erase : K → List (K × V) → List (K × V)
  erase k [] = []
  erase k ((j, v) ∷ m) = if e.beq j k then erase k m else (j, v) ∷ erase k m

  unfoldable pub contains : K → List (K × V) → Bool
  contains k [] = false
  contains k ((j, v) ∷ m) = e.beq j k || contains k m

  pub find-insert :
      (k j : K) (v : V) (m : List (K × V))
      → find j (insert k v m) ≡ (if e.beq k j then some v else find j m)
  unfolding find insert
  find-insert k j v [] = refl
  find-insert k j v ((i, w) ∷ m) =
      ground (arith, e.beq_iff k j, e.beq_iff i k, e.beq_iff i j, find-insert k j v m)

  pub find-insert_self : (k : K) (v : V) (m : List (K × V)) → find k (insert k v m) ≡ some v
  find-insert_self k v m = rw (find-insert k k v m, (e.beq_iff k k).1 refl)

  pub find-erase :
      (k j : K) (m : List (K × V)) → find j (erase k m) ≡ (if e.beq k j then none else find j m)
  unfolding find erase
  find-erase k j [] = ground arith
  find-erase k j ((i, w) ∷ m) =
      ground (arith, e.beq_iff k j, e.beq_iff i k, e.beq_iff i j, find-erase k j m)

  pub insert-insert :
      (k : K) (v w : V) (m : List (K × V)) → insert k v (insert k w m) ≡ insert k v m
  unfolding insert
  insert-insert k v w [] = ground (arith, e.beq_iff k k)
  insert-insert k v w ((i, x) ∷ m) = ground (arith, e.beq_iff k k, insert-insert k v w m)

  pub contains-insert_self : (k : K) (v : V) (m : List (K × V)) → contains k (insert k v m) ≡ true
  unfolding contains insert
  contains-insert_self k v [] = ground (arith, e.beq_iff k k)
  contains-insert_self k v ((i, x) ∷ m) = ground (arith, e.beq_iff k k, contains-insert_self k v m)

  -- `m.emplace(k, v)`: an entry that is there stays.
  unfoldable pub emplace : K → V → List (K × V) → List (K × V)
  emplace k v m = if contains k m then m else insert k v m

  pub find-none-contains : (k : K) (m : List (K × V)) → find k m ≡ none → contains k m ≡ false
  unfolding contains find
  find-none-contains k [] h = refl
  find-none-contains k ((i, w) ∷ m) h = ground (arith, find-none-contains k m)

  pub contains-find-none : (k : K) (m : List (K × V)) → contains k m ≡ false → find k m ≡ none
  unfolding contains find
  contains-find-none k [] h = refl
  contains-find-none k ((i, w) ∷ m) h = ground (arith, contains-find-none k m)

  pub emplace-absent :
      (k : K) (v : V) (m : List (K × V)) → find k m ≡ none → emplace k v m ≡ insert k v m
  unfolding emplace
  emplace-absent k v m h = rw (find-none-contains k m h)

  -- What is found after `emplace`: an entry that was there, or the new one.
  pub find-emplace_present :
      {w : V} (k j : K) (v : V) (m : List (K × V))
      → find j m ≡ some w
      → find j (emplace k v m) ≡ some w
  unfolding emplace
  find-emplace_present k j v m h = elim (Bool-cases (contains k m)) [
    | inl c ↦ rw (c) h
    | inr c ↦ rw (c) (ground (arith, e.beq_iff k j, contains-find-none k m c, find-insert k j v m))
  ]

  pub find-emplace_absent :
      (k : K) (v : V) (m : List (K × V)) → find k m ≡ none → find k (emplace k v m) ≡ some v
  find-emplace_absent k v m h = rw (emplace-absent k v m h) (find-insert_self k v m)

  pub find-emplace-inv :
      {v w : V} (k j : K) (m : List (K × V))
      → find j (emplace k v m) ≡ some w
      → ((k ≡ j) × (v ≡ w)) ⊎ (find j m ≡ some w)
  unfolding emplace
  find-emplace-inv {v = v} k j m h = ground (arith, e.beq_iff k j, find-insert k j v m)

  pub find-insert_other :
      (k j : K) (v : V) (m : List (K × V)) → e.beq k j ≡ false → find j (insert k v m) ≡ find j m
  find-insert_other k j v m h = rw (find-insert k j v m, h)

  pub find-erase_self : (k : K) (m : List (K × V)) → find k (erase k m) ≡ none
  find-erase_self k m = rw (find-erase k k m, (e.beq_iff k k).1 refl)

  pub find-erase_other :
      (k j : K) (m : List (K × V)) → e.beq k j ≡ false → find j (erase k m) ≡ find j m
  find-erase_other k j m h = rw (find-erase k j m, h)

  -- What is found after an insertion or a removal.
  pub find-insert-inv :
      {v w : V} (k j : K) (m : List (K × V))
      → find j (insert k v m) ≡ some w
      → ((k ≡ j) × (v ≡ w)) ⊎ ((e.beq k j ≡ false) × (find j m ≡ some w))
  find-insert-inv {v = v} k j m h = ground (arith, e.beq_iff k j, find-insert k j v m)

  pub find-erase-inv :
      {w : V} (k j : K) (m : List (K × V))
      → find j (erase k m) ≡ some w
      → (e.beq k j ≡ false) × (find j m ≡ some w)
  find-erase-inv k j m h = ground (arith, e.beq_iff k j, find-erase k j m)

  -- An entry that was not there, put in and taken away.
  pub find-erase-insert :
      (k j : K) (v : V) (m : List (K × V))
      → find k m ≡ none
      → find j (erase k (insert k v m)) ≡ find j m
  find-erase-insert k j v m h =
      ground (arith, e.beq_iff k j, find-erase k j (insert k v m), find-insert k j v m, h)

  -- Putting back the entry that was there.
  pub find-insert-insert :
      (k j : K) (v w : V) (m : List (K × V))
      → find k m ≡ some v
      → find j (insert k v (insert k w m)) ≡ find j m
  find-insert-insert k j v w m h =
      ground (arith, e.beq_iff k j, find-insert k j v (insert k w m), find-insert k j w m, h)

pub beq_false {ℓ} : {K : Type ℓ} ⦃e : Eq K⦄ (k j : K) → k ≢ j → e.beq k j ≡ false
beq_false ⦃e = e⦄ k j n = ground (arith, e.beq_iff k j)
