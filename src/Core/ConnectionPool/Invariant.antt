-- ===== src/Core/ConnectionPool/Invariant.antt =====
-- The queue holds the free entries and the map the used ones, and the counts agree.
use open_rtmp_claude_kiro.Common.{
  ==_refl, Bool-cases, IsDistinct, List, Option, [], add64, ap, arith, false, inl, inr, length,
  length-append, mem, none, refl, some, sub64, sym, true, ℕ, ◌%◌, ◌++◌, ◌<◌, ◌==◌, ◌^◌, ◌||◌, ◌∙◌,
  ◌∷◌, ◌≡◌, ◌≤◌,
}
use open_rtmp_claude_kiro.Common.Maps.{erase, find, find-erase-inv, find-insert-inv, insert, nat_eq}
use open_rtmp_claude_kiro.Core.ConnectionPool.Entries.{
  count_used, count_used-free, count_used-new_entry, count_used-take, is_free, length-update_entry,
  slot, slot-beyond, slot-new_entry, slot-update_entry, use_of,
}
use open_rtmp_claude_kiro.Core.ConnectionPool.Operations.{
  free_entry, new_entry, take_entry, update_entry,
}
use open_rtmp_claude_kiro.Core.ConnectionPool.State.{ConnectionEntry, ConnectionPool}

-- For entries within their limit: the queue is the free indices, each once; a handle that is mapped
-- names a used entry with that handle; and the count of connections is that of the used entries.
abbrev pub IsPoolOf : ℕ → List ConnectionEntry → List ℕ → List (ℕ × ℕ) → ℕ → Type 0
IsPoolOf most entries queue handles used =
    (length entries ≤ most)
    × ((i : ℕ) → mem i queue ≡ is_free (slot i entries))
    × IsDistinct queue
    × ((h i : ℕ) → find h handles ≡ some i → slot i entries ≡ some (some h))
    × (used ≡ count_used entries % 2 ^ 64)

abbrev pub IsPool : ConnectionPool → Type 0
IsPool p =
    IsPoolOf p.config.max_connections p.entries p.available_indices p.handle_to_index
      p.statistics.connections_in_use

mem-snoc : (i j : ℕ) (s : List ℕ) → mem i (s ++ (j ∷ [])) ≡ ((j == i) || mem i s)
unfolding mem
mem-snoc i j [] = ground arith
mem-snoc i j (k ∷ s) = ground (arith, mem-snoc i j s)

IsDistinct-snoc : (j : ℕ) (s : List ℕ) → mem j s ≡ false → IsDistinct s → IsDistinct (s ++ (j ∷ []))
unfolding mem IsDistinct
IsDistinct-snoc j [] m d = (refl, tt)
IsDistinct-snoc j (k ∷ s) m d =
    (ground (arith, mem-snoc k j s), IsDistinct-snoc j s (ground arith) d.1)

pub is_free-inv : (x : Option (Option ℕ)) → is_free x ≡ true → x ≡ some none
unfolding is_free
is_free-inv none h = absurd cc
is_free-inv (some none) h = refl
is_free-inv (some (some k)) h = absurd cc

pub allocate-IsPool :
    (most used : ℕ) (entries : List ConnectionEntry) (queue : List ℕ) (handles : List (ℕ × ℕ))
    → length entries < most
    → IsPoolOf most entries queue handles used
    → IsPoolOf most (entries ++ (new_entry ∷ [])) (queue ++ (length entries ∷ [])) handles used
unfolding is_free
allocate-IsPool most used entries queue handles l (b, q, d, m, c) =
    let outside = slot-beyond (length entries) entries (omega arith) in
    (
      omega (arith, length-append entries (new_entry ∷ [])),
      (λ i. mem-snoc i (length entries) queue ∙ elim (Bool-cases (length entries == i)) [
        | inl e ↦ rw (slot-new_entry i entries, e) refl
        | inr e ↦ rw (slot-new_entry i entries, e) (q i)
      ]),
      IsDistinct-snoc (length entries) queue (q (length entries) ∙ ap is_free outside) d,
      (λ h i e. elim (Bool-cases (length entries == i)) [
        | inl f ↦ let same : length entries ≡ i = ground arith in let mapped = m h i e in absurd cc
        | inr f ↦ slot-new_entry i entries ∙ rw (f) (m h i e)
      ]),
      rw (count_used-new_entry entries) c,
    )

pub take-IsPool :
    (most used index h : ℕ) (entries : List ConnectionEntry) (queue : List ℕ)
    (handles : List (ℕ × ℕ))
    → IsPoolOf most entries (index ∷ queue) handles used
    → IsPoolOf most
        (update_entry index (take_entry h) entries)
        queue
        (insert h index handles)
        (add64 used 1)
unfolding is_free use_of take_entry mem IsDistinct
take-IsPool most used index h entries queue handles (b, q, d, m, c) =
    let free = is_free-inv (slot index entries) (sym (q index) ∙ ground (arith, ==_refl index)) in
    let slots =
      λ (j : ℕ). slot-update_entry (take_entry h) (some h) (λ e. refl) index j entries none free in
    (
      omega (arith, length-update_entry index (take_entry h) entries),
      (λ i. elim (Bool-cases (index == i)) [
        | inl e ↦ let same : index ≡ i = ground arith in rw (slots i, e) (simp same at d.0)
        | inr e ↦ rw (slots i, e) (simp e at (q i))
      ]),
      d.1,
      (λ k i e. elim (find-insert-inv h k handles e) [
        | inl w ↦
            let hit : (index == i) ≡ true = ground arith in
            rw (slots i, hit) (ap (λ x. some (some x)) w.0)
        | inr w ↦ elim (Bool-cases (index == i)) [
          | inl hit ↦ let same : index ≡ i = ground arith in let mapped = m k i w.1 in absurd cc
          | inr miss ↦ rw (slots i, miss) (m k i w.1)
        ]
      ]),
      omega (arith, count_used-take index h entries free, c),
    )

pub free-IsPool :
    (most used index h : ℕ) (entries : List ConnectionEntry) (queue : List ℕ)
    (handles : List (ℕ × ℕ))
    → slot index entries ≡ some (some h)
    → IsPoolOf most entries queue handles used
    → IsPoolOf most
        (update_entry index free_entry entries)
        (queue ++ (index ∷ []))
        (erase h handles)
        (sub64 used 1)
unfolding is_free use_of free_entry mem IsDistinct
free-IsPool most used index h entries queue handles s (b, q, d, m, c) =
    let slots =
      λ (j : ℕ). slot-update_entry free_entry none (λ e. refl) index j entries (some h) s in
    (
      omega (arith, length-update_entry index free_entry entries),
      (λ i. mem-snoc i index queue ∙ elim (Bool-cases (index == i)) [
        | inl e ↦ rw (slots i, e) refl
        | inr e ↦ rw (slots i, e) (q i)
      ]),
      IsDistinct-snoc index queue (q index ∙ ap is_free s) d,
      (λ k i e.
          let w = find-erase-inv h k handles e in
          elim (Bool-cases (index == i)) [
            | inl hit ↦
                let same : index ≡ i = ground arith in
                let mapped = m k i w.1 in let other : h ≡ k = cc in absurd (ground arith)
            | inr miss ↦ rw (slots i, miss) (m k i w.1)
          ]),
      omega (arith, count_used-free index h entries s, c),
    )
