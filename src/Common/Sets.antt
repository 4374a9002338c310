-- ===== src/Common/Sets.antt =====
-- std::set of identifiers as lists without repetition. The order of the elements is not observed
-- by the code that is modelled over them.
use Prim.Native.Nat.{ℕ, suc}
use mathlib.Core.Path.{◌≡◌, refl}
use mathlib.Core.Bool.{Bool, true, false, ◌||◌}
use mathlib.Core.List.{List, [], ◌∷◌}
use native.Mathlib.Omega.{arith}
use open_rtmp_claude_kiro.Common.Tests.{if◌then◌else◌, ==_iff, ◌==◌}
use open_rtmp_claude_kiro.Common.Lists.{length}

unfoldable pub mem : ℕ → List ℕ → Bool
mem x [] = false
mem x (y ∷ s) = (y == x) || mem x s

unfoldable pub set_insert : ℕ → List ℕ → List ℕ
set_insert x s = if mem x s then s else x ∷ s

unfoldable pub set_erase : ℕ → List ℕ → List ℕ
set_erase x [] = []
set_erase x (y ∷ s) = if y == x then set_erase x s else y ∷ set_erase x s

unfoldable pub IsDistinct : List ℕ → Type 0
IsDistinct [] = Unit {0}
IsDistinct (x ∷ s) = (mem x s ≡ false) × IsDistinct s

pub mem-set_insert : (x y : ℕ) (s : List ℕ) → mem y (set_insert x s) ≡ ((x == y) || mem y s)
unfolding mem set_insert
mem-set_insert x y s = ground (arith, ==_iff x y)

pub mem-set_erase :
    (x y : ℕ) (s : List ℕ) → mem y (set_erase x s) ≡ (if x == y then false else mem y s)
unfolding mem set_erase
mem-set_erase x y [] = ground arith
mem-set_erase x y (z ∷ s) = ground (arith, mem-set_erase x y s)

pub set_erase_absent : (x : ℕ) (s : List ℕ) → mem x s ≡ false → set_erase x s ≡ s
unfolding mem set_erase
set_erase_absent x [] h = refl
set_erase_absent x (z ∷ s) h = ground (arith, set_erase_absent x s)

pub length-set_insert :
    (x : ℕ) (s : List ℕ) → mem x s ≡ false → length (set_insert x s) ≡ suc (length s)
unfolding mem set_insert
length-set_insert x s h = rw (h)

pub length-set_erase :
    (x : ℕ) (s : List ℕ) → IsDistinct s → mem x s ≡ true → suc (length (set_erase x s)) ≡ length s
unfolding mem set_erase IsDistinct
length-set_erase x [] d h = ground arith
length-set_erase x (z ∷ s) (n, d) h = ground (arith, length-set_erase x s d, set_erase_absent x s)

pub set_insert-IsDistinct : (x : ℕ) (s : List ℕ) → IsDistinct s → IsDistinct (set_insert x s)
unfolding mem set_insert IsDistinct
set_insert-IsDistinct x s d = ground arith

pub set_erase-IsDistinct : (x : ℕ) (s : List ℕ) → IsDistinct s → IsDistinct (set_erase x s)
unfolding mem set_erase IsDistinct
set_erase-IsDistinct x [] d = d
set_erase-IsDistinct x (z ∷ s) (n, d) =
    ground (arith, set_erase-IsDistinct x s d, mem-set_erase x z s)

pub set_erase-set_insert : (x : ℕ) (s : List ℕ) → mem x s ≡ false → set_erase x (set_insert x s) ≡ s
unfolding set_insert set_erase
set_erase-set_insert x s h = ground (arith, set_erase_absent x s h)

pub mem-set_insert_self : (x : ℕ) (s : List ℕ) → mem x (set_insert x s) ≡ true
mem-set_insert_self x s = ground (arith, mem-set_insert x x s)
