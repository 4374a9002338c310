-- ===== src/Core/ConnectionPool/Limit/Clearing.antt =====
-- A pool that is cleared, and one that is new.
use open_rtmp_claude_kiro.Common.{
  Bool-cases, IsDistinct, List, [], ap, arith, inl, inr, leb, length, ltb, mem, refl, suc, zero, ℕ,
  ◌&&◌, ◌+◌, ◌∙◌, ◌∷◌, ◌≡◌,
}
use open_rtmp_claude_kiro.Common.Maps.{find, nat_eq}
use open_rtmp_claude_kiro.Core.ConnectionPool.Entries.{count_used, is_free, slot, use_of}
use open_rtmp_claude_kiro.Core.ConnectionPool.Invariant.{IsPool}
use open_rtmp_claude_kiro.Core.ConnectionPool.Operations.{
  clear_pool, free_entries, free_entry, indices_from,
}
use open_rtmp_claude_kiro.Core.ConnectionPool.State.{ConnectionEntry, ConnectionPool}

slot-free_entries :
    (i : ℕ) (es : List ConnectionEntry) → is_free (slot i (free_entries es)) ≡ ltb i (length es)
unfolding slot free_entries free_entry is_free use_of
slot-free_entries i [] = ground arith
slot-free_entries zero (e ∷ es) = elim (Bool-cases e.in_use) [
  | inl d ↦ rw (d) (ground arith)
  | inr d ↦ rw (d) (ground arith)
]
slot-free_entries (suc i) (e ∷ es) = ground (arith, slot-free_entries i es)

mem-indices_from :
    (i k : ℕ) (es : List ConnectionEntry)
    → mem i (indices_from k es) ≡ (leb k i && ltb i (k + length es))
unfolding mem indices_from
mem-indices_from i k [] = ground arith
mem-indices_from i k (e ∷ es) = ground (arith, mem-indices_from i (suc k) es)

IsDistinct-indices_from : (k : ℕ) (es : List ConnectionEntry) → IsDistinct (indices_from k es)
unfolding IsDistinct indices_from
IsDistinct-indices_from k [] = tt
IsDistinct-indices_from k (e ∷ es) =
    (mem-indices_from k (suc k) es ∙ ground arith, IsDistinct-indices_from (suc k) es)

count_used-free_entries : (es : List ConnectionEntry) → count_used (free_entries es) ≡ 0
unfolding count_used free_entries free_entry
count_used-free_entries [] = refl
count_used-free_entries (e ∷ es) = elim (Bool-cases e.in_use) [
  | inl d ↦ rw (d) (omega (arith, count_used-free_entries es))
  | inr d ↦ rw (d) (omega (arith, count_used-free_entries es))
]

length-free_entries : (es : List ConnectionEntry) → length (free_entries es) ≡ length es
unfolding free_entries
length-free_entries [] = refl
length-free_entries (e ∷ es) = ap suc (length-free_entries es)

pub clear_pool-IsPool : (p : ConnectionPool) → IsPool p → IsPool (clear_pool p)
unfolding clear_pool find
clear_pool-IsPool p h = (
  omega (arith, length-free_entries p.entries, h.0),
  (λ i. mem-indices_from i 0 p.entries ∙ ground (arith, slot-free_entries i p.entries)),
  IsDistinct-indices_from 0 p.entries,
  (λ k i e. absurd cc),
  omega (arith, count_used-free_entries p.entries),
)
