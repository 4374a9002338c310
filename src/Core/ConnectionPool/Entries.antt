-- ===== src/Core/ConnectionPool/Entries.antt =====
-- The entries by their index: free, or used under a handle.
use open_rtmp_claude_kiro.Common.{
  Bool, Bool-cases, List, Option, [], ap, arith, false, if◌then◌else◌, inl, inr, length, none, refl,
  some, suc, true, zero, ℕ, ◌++◌, ◌+◌, ◌<◌, ◌==◌, ◌∷◌, ◌≡◌, ◌≤◌,
}
use open_rtmp_claude_kiro.Core.ConnectionPool.Operations.{
  free_entry, new_entry, take_entry, update_entry,
}
use open_rtmp_claude_kiro.Core.ConnectionPool.State.{ConnectionEntry}

unfoldable pub use_of : ConnectionEntry → Option ℕ
use_of e = if e.in_use then some e.handle else none

unfoldable pub slot : ℕ → List ConnectionEntry → Option (Option ℕ)
slot i [] = none
slot zero (e ∷ es) = some (use_of e)
slot (suc i) (e ∷ es) = slot i es

unfoldable pub is_free : Option (Option ℕ) → Bool
is_free none = false
is_free (some none) = true
is_free (some (some h)) = false

unfoldable pub count_used : List ConnectionEntry → ℕ
count_used [] = 0
count_used (e ∷ es) = (if e.in_use then 1 else 0) + count_used es

module _ (f : ConnectionEntry → ConnectionEntry) (y : Option ℕ)
    (same : (e : ConnectionEntry) → use_of (f e) ≡ y) where
  pub slot-update_entry :
      (i j : ℕ) (es : List ConnectionEntry) (x : Option ℕ)
      → slot i es ≡ some x
      → slot j (update_entry i f es) ≡ (if i == j then some y else slot j es)
  unfolding slot update_entry
  slot-update_entry i j [] x h = absurd cc
  slot-update_entry zero zero (e ∷ es) x h = ap some (same e)
  slot-update_entry zero (suc j) (e ∷ es) x h = ground arith
  slot-update_entry (suc i) zero (e ∷ es) x h = ground arith
  slot-update_entry (suc i) (suc j) (e ∷ es) x h = ground (arith, slot-update_entry i j es x h)

pub length-update_entry :
    (i : ℕ) (f : ConnectionEntry → ConnectionEntry) (es : List ConnectionEntry)
    → length (update_entry i f es) ≡ length es
unfolding update_entry
length-update_entry i f [] = refl
length-update_entry zero f (e ∷ es) = refl
length-update_entry (suc i) f (e ∷ es) = ap suc (length-update_entry i f es)

pub count_used-take :
    (i h : ℕ) (es : List ConnectionEntry)
    → slot i es ≡ some none
    → count_used (update_entry i (take_entry h) es) ≡ suc (count_used es)
unfolding slot update_entry count_used use_of take_entry
count_used-take i h [] e = absurd cc
count_used-take zero h (x ∷ es) e = elim (Bool-cases x.in_use) [
  | inl d ↦ absurd cc
  | inr d ↦ rw (d) (omega arith)
]
count_used-take (suc i) h (x ∷ es) e = omega (arith, count_used-take i h es e)

pub count_used-free :
    (i h : ℕ) (es : List ConnectionEntry)
    → slot i es ≡ some (some h)
    → suc (count_used (update_entry i free_entry es)) ≡ count_used es
unfolding slot update_entry count_used use_of free_entry
count_used-free i h [] e = absurd cc
count_used-free zero h (x ∷ es) e = elim (Bool-cases x.in_use) [
  | inl d ↦ rw (d) (omega arith)
  | inr d ↦ absurd cc
]
count_used-free (suc i) h (x ∷ es) e = omega (arith, count_used-free i h es e)

pub slot-new_entry :
    (j : ℕ) (es : List ConnectionEntry)
    → slot j (es ++ (new_entry ∷ [])) ≡ (if length es == j then some none else slot j es)
unfolding slot new_entry use_of
slot-new_entry zero [] = refl
slot-new_entry (suc j) [] = ground arith
slot-new_entry zero (e ∷ es) = ground arith
slot-new_entry (suc j) (e ∷ es) = ground (arith, slot-new_entry j es)

pub count_used-new_entry :
    (es : List ConnectionEntry) → count_used (es ++ (new_entry ∷ [])) ≡ count_used es
unfolding count_used new_entry
count_used-new_entry [] = omega arith
count_used-new_entry (e ∷ es) = omega (arith, count_used-new_entry es)

pub slot-beyond : (j : ℕ) (es : List ConnectionEntry) → length es ≤ j → slot j es ≡ none
unfolding slot
slot-beyond j [] h = refl
slot-beyond zero (e ∷ es) h = absurd (omega arith)
slot-beyond (suc j) (e ∷ es) h = slot-beyond j es (omega arith)

pub count_used-full :
    (es : List ConnectionEntry)
    → ((i : ℕ) → is_free (slot i es) ≡ false)
    → count_used es ≡ length es
unfolding slot count_used is_free use_of
count_used-full [] h = refl
count_used-full (e ∷ es) h =
    let rest = count_used-full es (λ i. h (suc i)) in
    elim (Bool-cases e.in_use) [
      | inl d ↦ rw (d) (omega (arith, rest))
      | inr d ↦ let contradiction = simp d at (h 0) in absurd cc
    ]

pub count_used-bound : (es : List ConnectionEntry) → count_used es ≤ length es
unfolding count_used
count_used-bound [] = omega arith
count_used-bound (e ∷ es) = ground (arith, count_used-bound es)

pub count_used-lt :
    (i : ℕ) (es : List ConnectionEntry) → slot i es ≡ some none → count_used es < length es
unfolding slot count_used use_of
count_used-lt i [] h = absurd cc
count_used-lt zero (e ∷ es) h = elim (Bool-cases e.in_use) [
  | inl d ↦ absurd cc
  | inr d ↦ rw (d) (omega (arith, count_used-bound es))
]
count_used-lt (suc i) (e ∷ es) h = ground (arith, count_used-lt i es h)
