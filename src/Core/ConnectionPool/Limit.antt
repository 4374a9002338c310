-- ===== src/Core/ConnectionPool/Limit.antt =====
-- The operations of the pool in any order, and when a connection is refused.
use open_rtmp_claude_kiro.Common.{
  ==_refl, Bool, Bool-cases, IsDistinct, List, Option, [], add64, ap, arith, if◌then◌else◌, inl,
  inr, leb, length, mem, none, not, positive-beq, refl, some, subst, suc, sym, true, zero, ℕ, ◌&&◌,
  ◌<◌, ◌==◌, ◌↔◌, ◌∙◌, ◌∷◌, ◌≡◌, ◌⊎◌,
}
use open_rtmp_claude_kiro.Common.Maps.{find, nat_eq}
use open_rtmp_claude_kiro.Core.ConnectionPool.Entries.{
  count_used, count_used-full, count_used-lt, is_free, slot,
}
use open_rtmp_claude_kiro.Core.ConnectionPool.Invariant.{
  IsPool, IsPoolOf, allocate-IsPool, free-IsPool, is_free-inv, take-IsPool,
}
use open_rtmp_claude_kiro.Core.ConnectionPool.Limit.Clearing.{clear_pool-IsPool}
use open_rtmp_claude_kiro.Core.ConnectionPool.Operations.{
  acquire, allocate_entry, allocate_times, check_pool_watermarks, clear_pool, count_available,
  given_back, in_use_at, new_pool, pool_threshold, pre_allocate, reject, release, release_at,
  reset_pool_statistics, set_connection_limit_callback, take_from, taken,
}
use open_rtmp_claude_kiro.Core.ConnectionPool.State.{ConnectionPool, ConnectionPoolConfig}
pub mod Clearing

pub data PoolCall : Type 0 where
  call_acquire call_clear : PoolCall
  call_release call_reset_statistics : ℕ → PoolCall
  call_set_callback : Bool → PoolCall

unfoldable pub apply_call : PoolCall → ConnectionPool → ConnectionPool
apply_call call_acquire p = (acquire p).after
apply_call call_clear p = clear_pool p
apply_call (call_release handle) p = (release handle p).1
apply_call (call_reset_statistics now) p = reset_pool_statistics now p
apply_call (call_set_callback callback) p = set_connection_limit_callback callback p

unfoldable pub run_pool : List PoolCall → ConnectionPool → ConnectionPool
run_pool [] p = p
run_pool (o ∷ os) p = run_pool os (apply_call o p)

check-IsPool :
    (count : ℕ) (p : ConnectionPool) → IsPool p → IsPool (check_pool_watermarks count p).1
unfolding check_pool_watermarks
check-IsPool count p h =
    let above = leb (pool_threshold p.config.high_watermark_percent p) count in
    let low = leb count (pool_threshold p.config.low_watermark_percent p) in
    elim (Bool-cases (above && not p.above_high_watermark)) [
      | inl e ↦ rw (e) h
      | inr e ↦ elim (Bool-cases ((not above && p.above_high_watermark) && low)) [
        | inl d ↦ rw (e, d) h
        | inr d ↦ rw (e, d) h
      ]
    ]

allocate_entry-IsPool : (p : ConnectionPool) → IsPool p → IsPool (allocate_entry p)
unfolding allocate_entry
allocate_entry-IsPool p h = elim (Bool-cases (leb p.config.max_connections (length p.entries))) [
  | inl e ↦ rw (e) h
  | inr e ↦ rw (e) (
      allocate-IsPool p.config.max_connections p.statistics.connections_in_use p.entries
        p.available_indices p.handle_to_index (ground arith) h)
]

take_from-IsPool :
    (queue : List ℕ) (p : ConnectionPool)
    → p.available_indices ≡ queue
    → IsPool p
    → IsPool (take_from queue p).after
unfolding take_from reject taken
take_from-IsPool [] p e h = h
take_from-IsPool (index ∷ queue) p e h = check-IsPool _ (taken index queue p) (
    take-IsPool p.config.max_connections p.statistics.connections_in_use index p.next_handle
      p.entries queue p.handle_to_index
      (subst
        (λ q.
          IsPoolOf p.config.max_connections p.entries q p.handle_to_index
            p.statistics.connections_in_use)
        e h))

pub ready-IsPool :
    (p : ConnectionPool)
    → IsPool p
    → IsPool (if length p.available_indices == 0 then allocate_entry p else p)
ready-IsPool p h = elim (Bool-cases (length p.available_indices == 0)) [
  | inl e ↦ rw (e) (allocate_entry-IsPool p h)
  | inr e ↦ rw (e) h
]

acquire-IsPool : (p : ConnectionPool) → IsPool p → IsPool (acquire p).after
unfolding acquire
acquire-IsPool p h = take_from-IsPool _ _ refl (
    ready-IsPool
      (record p {
        statistics = record p.statistics { total_acquires = add64 p.statistics.total_acquires 1 };
      })
      h)

release_at-IsPool :
    (handle : ℕ) (o : Option ℕ) (p : ConnectionPool)
    → find handle p.handle_to_index ≡ o
    → IsPool p
    → IsPool (release_at handle o p).1
unfolding release_at given_back
release_at-IsPool handle none p e h = h
release_at-IsPool handle (some index) p e h = elim (Bool-cases (in_use_at index p.entries)) [
  | inl d ↦ rw (d) (
      check-IsPool _ (given_back handle index p) (
        free-IsPool p.config.max_connections p.statistics.connections_in_use index handle p.entries
          p.available_indices p.handle_to_index (h.3 handle index e) h))
  | inr d ↦ rw (d) h
]

pub release-IsPool : (handle : ℕ) (p : ConnectionPool) → IsPool p → IsPool (release handle p).1
unfolding release
release-IsPool handle p h = elim (Bool-cases (handle == 0)) [
  | inl e ↦ rw (e) h
  | inr e ↦ rw (e) (release_at-IsPool handle (find handle p.handle_to_index) p refl h)
]

apply_call-IsPool : (o : PoolCall) (p : ConnectionPool) → IsPool p → IsPool (apply_call o p)
unfolding apply_call reset_pool_statistics set_connection_limit_callback
apply_call-IsPool call_acquire p h = acquire-IsPool p h
apply_call-IsPool call_clear p h = clear_pool-IsPool p h
apply_call-IsPool (call_release handle) p h = release-IsPool handle p h
apply_call-IsPool (call_reset_statistics now) p h = h
apply_call-IsPool (call_set_callback callback) p h = h

run_pool-keeps : (os : List PoolCall) (p : ConnectionPool) → IsPool p → IsPool (run_pool os p)
unfolding run_pool
run_pool-keeps [] p h = h
run_pool-keeps (o ∷ os) p h = run_pool-keeps os (apply_call o p) (apply_call-IsPool o p h)

allocate_times-IsPool : (n : ℕ) (p : ConnectionPool) → IsPool p → IsPool (allocate_times n p)
unfolding allocate_times
allocate_times-IsPool zero p h = h
allocate_times-IsPool (suc n) p h =
    allocate_times-IsPool n (allocate_entry p) (allocate_entry-IsPool p h)

new_pool-IsPool :
    (is_desktop : Bool) (now : ℕ) (config : ConnectionPoolConfig)
    → IsPool (new_pool is_desktop now config)
unfolding new_pool pre_allocate count_available slot is_free count_used mem IsDistinct find
new_pool-IsPool is_desktop now config =
    allocate_times-IsPool _ _ (omega arith, (λ i. refl), tt, (λ k i e. absurd cc), omega arith)

pub run_pool-IsPool :
    (is_desktop : Bool) (now : ℕ) (config : ConnectionPoolConfig) (os : List PoolCall)
    → IsPool (run_pool os (new_pool is_desktop now config))
run_pool-IsPool is_desktop now config os =
    run_pool-keeps os (new_pool is_desktop now config) (new_pool-IsPool is_desktop now config)

take_from-handle :
    (index : ℕ) (queue : List ℕ) (p : ConnectionPool)
    → (take_from (index ∷ queue) p).handle ≡ some p.next_handle
unfolding take_from
take_from-handle index queue p = refl

-- With a free index in the queue the call succeeds, and not all connections are in use.
acquire_queued :
    (index : ℕ) (queue : List ℕ) (p : ConnectionPool)
    → p.available_indices ≡ index ∷ queue
    → IsPool p
    → ((acquire p).handle ≡ some p.next_handle) × (count_used p.entries < p.config.max_connections)
unfolding acquire take_from mem
acquire_queued index queue p e h =
    let queued : mem index p.available_indices ≡ true = rw (e) (ground (arith, ==_refl index)) in
    let free = is_free-inv (slot index p.entries) (sym (h.1 index) ∙ queued) in
    (
      rw (e, positive-beq (suc (length queue)) (omega arith)) refl,
      omega (arith, count_used-lt index p.entries free, h.0),
    )

-- Without one it succeeds exactly when an entry can be allocated.
acquire_empty :
    (p : ConnectionPool)
    → p.available_indices ≡ []
    → IsPool p
    → ((acquire p).handle ≡ none) ↔ (count_used p.entries ≡ p.config.max_connections)
unfolding acquire take_from mem allocate_entry reject
acquire_empty p e h =
    let full = count_used-full p.entries (λ i. sym (h.1 i) ∙ ap (mem i) e) in
    elim (Bool-cases (leb p.config.max_connections (length p.entries))) [
      | inl d ↦ rw (e, d) ((λ r. ground (arith, h.0)), (λ r. refl))
      | inr d ↦ rw (e, d) ((λ r. absurd cc), (λ r. absurd (ground arith)))
    ]

queue_cases : (s : List ℕ) → (s ≡ []) ⊎ ((i : ℕ) × (t : List ℕ) × (s ≡ i ∷ t))
queue_cases [] = inl refl
queue_cases (i ∷ t) = inr (i, t, refl)

pub acquire-refused :
    (p : ConnectionPool)
    → IsPool p
    → ((acquire p).handle ≡ none) ↔ (count_used p.entries ≡ p.config.max_connections)
acquire-refused p h = elim (queue_cases p.available_indices) [
  | inl e ↦ acquire_empty p e h
  | inr (i, t, e) ↦
      let (given, below) = acquire_queued i t p e h in
      ((λ r. absurd cc), (λ r. absurd (omega arith)))
]

-- After any calls on a new pool, a connection is refused exactly when as many connections are in use
-- as the configuration allows.
pub acquire-run_pool :
    (is_desktop : Bool) (now : ℕ) (config : ConnectionPoolConfig) (os : List PoolCall)
    → let p = run_pool os (new_pool is_desktop now config) in
      ((acquire p).handle ≡ none) ↔ (count_used p.entries ≡ p.config.max_connections)
acquire-run_pool is_desktop now config os =
    acquire-refused (run_pool os (new_pool is_desktop now config))
      (run_pool-IsPool is_desktop now config os)
