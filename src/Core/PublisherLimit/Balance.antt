-- ===== src/Core/PublisherLimit/Balance.antt =====
-- The counters of acquisitions and releases.
use open_rtmp_claude_kiro.Common.{
  Bool-cases, IsDistinct, List, [], arith, false, inl, inr, leb, length, length-set_erase,
  length-set_insert, mem, set_erase-IsDistinct, set_insert-IsDistinct, true, ℕ, ◌%◌, ◌+◌, ◌^◌, ◌∷◌,
  ◌≡◌,
}
use open_rtmp_claude_kiro.Core.PublisherLimit.{
  PublisherLimit, acquire_publisher_slot, check_watermarks, drop_slot, release_publisher_slot,
  take_slot,
}
use open_rtmp_claude_kiro.Core.PublisherLimit.Bounds.{check_watermarks-same}
use open_rtmp_claude_kiro.Core.PublisherLimit.Watermarks.{
  SlotCall, acquires_slot, call_slot, releases_slot, run_slots,
}

-- The releases and the slots in use make up the acquisitions, on counters of 64 bits.
abbrev pub IsBalanced : PublisherLimit → Type 0
IsBalanced l =
    IsDistinct l.active_publishers
    × ((l.total_releases + length l.active_publishers) % 2 ^ 64 ≡ l.total_acquires % 2 ^ 64)

take_slot-IsBalanced :
    (id : ℕ) (l : PublisherLimit)
    → mem id l.active_publishers ≡ false
    → IsBalanced l
    → IsBalanced (take_slot id l)
unfolding take_slot
take_slot-IsBalanced id l m (d, e) = (
  set_insert-IsDistinct id l.active_publishers d,
  omega (arith, length-set_insert id l.active_publishers m, e),
)

drop_slot-IsBalanced :
    (id : ℕ) (l : PublisherLimit)
    → mem id l.active_publishers ≡ true
    → IsBalanced l
    → IsBalanced (drop_slot id l)
unfolding drop_slot
drop_slot-IsBalanced id l m (d, e) = (
  set_erase-IsDistinct id l.active_publishers d,
  omega (arith, length-set_erase id l.active_publishers d m, e),
)

watermarks-IsBalanced :
    (p c : ℕ) (l : PublisherLimit) → IsBalanced l → IsBalanced (check_watermarks p c l).1
watermarks-IsBalanced p c l v = let (a, _, _, t, r) = check_watermarks-same p c l in rw (a, t, r) v

call_slot-IsBalanced :
    (c : SlotCall) (l : PublisherLimit) → IsBalanced l → IsBalanced (call_slot c l).after
unfolding call_slot acquire_publisher_slot release_publisher_slot
call_slot-IsBalanced (acquires_slot id) l v = elim (Bool-cases (mem id l.active_publishers)) [
  | inl m ↦ rw (m) v
  | inr m ↦ elim (Bool-cases (leb l.config.max_publishers (length l.active_publishers))) [
    | inl f ↦ rw (m, f) v
    | inr f ↦ rw (m, f) (watermarks-IsBalanced _ _ _ (take_slot-IsBalanced id l m v))
  ]
]
call_slot-IsBalanced (releases_slot id) l v = elim (Bool-cases (mem id l.active_publishers)) [
  | inl m ↦ rw (m) (watermarks-IsBalanced _ _ _ (drop_slot-IsBalanced id l m v))
  | inr m ↦ rw (m) v
]

-- Acquiring and releasing slots keeps the books of a limit that has them in order: the releases
-- and the slots in use make up the acquisitions, up to the wrap-around of the counters.
pub run_slots-IsBalanced :
    (cs : List SlotCall) (l : PublisherLimit) → IsBalanced l → IsBalanced (run_slots cs l).1
unfolding run_slots
run_slots-IsBalanced [] l v = v
run_slots-IsBalanced (c ∷ cs) l v =
    run_slots-IsBalanced cs (call_slot c l).after (call_slot-IsBalanced c l v)
