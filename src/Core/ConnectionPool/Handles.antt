-- ===== src/Core/ConnectionPool/Handles.antt =====
-- A handle from its acquisition to its release.
use open_rtmp_claude_kiro.Common.{
  ==_refl, Bool, Bool-cases, List, Option, [], add64, ap, arith, false, inl, inr, leb, mem, none,
  not, refl, some, suc, sym, true, zero, ℕ, ◌&&◌, ◌==◌, ◌∙◌, ◌∷◌, ◌≡◌, ◌≢◌,
}
use open_rtmp_claude_kiro.Common.Maps.{find, find-insert_self, nat_eq}
use open_rtmp_claude_kiro.Core.ConnectionPool.Entries.{
  count_used, count_used-bound, count_used-free, is_free, slot, use_of,
}
use open_rtmp_claude_kiro.Core.ConnectionPool.Invariant.{IsPool, is_free-inv}
use open_rtmp_claude_kiro.Core.ConnectionPool.Limit.{
  PoolCall, acquire-refused, ready-IsPool, release-IsPool, run_pool, run_pool-IsPool,
}
use open_rtmp_claude_kiro.Core.ConnectionPool.Operations.{
  acquire, check_pool_watermarks, connection_at, connection_of, entry_at, get_connection,
  given_back, in_use_at, new_pool, pool_threshold, reject, release, release_at, take_entry,
  take_from, taken, update_entry,
}
use open_rtmp_claude_kiro.Core.ConnectionPool.State.{
  Connection, ConnectionEntry, ConnectionPool, ConnectionPoolConfig, reset_connection,
}

check-same :
    (count : ℕ) (p : ConnectionPool)
    → let q = (check_pool_watermarks count p).1 in
      (q.entries ≡ p.entries) × (q.config ≡ p.config) × (q.handle_to_index ≡ p.handle_to_index)
unfolding check_pool_watermarks
check-same count p =
    let above = leb (pool_threshold p.config.high_watermark_percent p) count in
    let low = leb count (pool_threshold p.config.low_watermark_percent p) in
    elim (Bool-cases (above && not p.above_high_watermark)) [
      | inl e ↦ rw (e) (refl, refl, refl)
      | inr e ↦ elim (Bool-cases ((not above && p.above_high_watermark) && low)) [
        | inl d ↦ rw (e, d) (refl, refl, refl)
        | inr d ↦ rw (e, d) (refl, refl, refl)
      ]
    ]

in_use-slot :
    (i h : ℕ) (es : List ConnectionEntry) → slot i es ≡ some (some h) → in_use_at i es ≡ true
unfolding slot in_use_at entry_at use_of
in_use-slot i h [] e = absurd cc
in_use-slot zero h (x ∷ es) e = elim (Bool-cases x.in_use) [ inl d ↦ d | inr d ↦ absurd cc ]
in_use-slot (suc i) h (x ∷ es) e = in_use-slot i h es e

connection_at-inv :
    (o : Option ℕ) (p : ConnectionPool) (c : Connection)
    → connection_at o p ≡ some c
    → (i : ℕ) × (o ≡ some i)
unfolding connection_at
connection_at-inv none p c e = absurd cc
connection_at-inv (some i) p c e = (i, refl)

-- A handle that names a connection is mapped, and is not the invalid one.
get_connection-inv :
    (handle : ℕ) (p : ConnectionPool) (c : Connection)
    → get_connection handle p ≡ some c
    → ((handle == 0) ≡ false) × ((i : ℕ) × (find handle p.handle_to_index ≡ some i))
unfolding get_connection
get_connection-inv handle p c e = elim (Bool-cases (handle == 0)) [
  | inl d ↦ let nothing = simp d at e in absurd cc
  | inr d ↦ (d, connection_at-inv (find handle p.handle_to_index) p c (simp d at e))
]

release-used :
    (handle i : ℕ) (p : ConnectionPool)
    → IsPool p
    → (handle == 0) ≡ false
    → find handle p.handle_to_index ≡ some i
    → (suc (count_used (release handle p).1.entries) ≡ count_used p.entries)
      × ((release handle p).1.config ≡ p.config)
unfolding release release_at given_back
release-used handle i p h d f =
    let used = h.3 handle i f in
    let q = given_back handle i p in
    let same = check-same q.statistics.connections_in_use q in
    rw (d, f, in_use-slot i handle p.entries used)
      (rw (same.0) (count_used-free i handle p.entries used), same.1)

-- After any calls on a new pool, once a connection that is in use is released the next call for a
-- connection succeeds.
pub acquire-release :
    (is_desktop : Bool) (now : ℕ) (config : ConnectionPoolConfig) (os : List PoolCall) (handle : ℕ)
    (c : Connection)
    → get_connection handle (run_pool os (new_pool is_desktop now config)) ≡ some c
    → (acquire (release handle (run_pool os (new_pool is_desktop now config))).1).handle ≢ none
acquire-release is_desktop now config os handle c e refused =
    let p = run_pool os (new_pool is_desktop now config) in
    let h = run_pool-IsPool is_desktop now config os in
    let (d, mapped) = get_connection-inv handle p c e in
    let (i, f) = mapped in
    let (fewer, limit) = release-used handle i p h d f in
    let full = (acquire-refused (release handle p).1 (release-IsPool handle p h)).0 refused in
    let bound = count_used-bound p.entries in
    let most : (release handle p).1.config.max_connections ≡ p.config.max_connections =
      ap (λ x. x.max_connections) limit in
    absurd (omega (arith, fewer, bound, h.0, full, most))

entry_at-take_entry :
    (i h : ℕ) (es : List ConnectionEntry)
    → slot i es ≡ some none
    → connection_of (entry_at i (update_entry i (take_entry h) es))
      ≡ some (record reset_connection { id = h })
unfolding slot update_entry entry_at take_entry connection_of
entry_at-take_entry i h [] e = absurd cc
entry_at-take_entry zero h (x ∷ es) e = refl
entry_at-take_entry (suc i) h (x ∷ es) e = entry_at-take_entry i h es e

take_from-connection :
    (queue : List ℕ) (p : ConnectionPool) (handle : ℕ)
    → ((i : ℕ) → mem i queue ≡ is_free (slot i p.entries))
    → (take_from queue p).handle ≡ some handle
    → (handle == 0) ≡ false
    → get_connection handle (take_from queue p).after
      ≡ some (record reset_connection { id = handle })
unfolding take_from reject taken get_connection connection_at mem
take_from-connection [] p handle q e d = absurd cc
take_from-connection (index ∷ queue) p handle q e d =
    let given : p.next_handle ≡ handle = cc in
    let t = taken index queue p in
    let same = check-same t.statistics.connections_in_use t in
    let free = is_free-inv (slot index p.entries) (sym (q index) ∙ ground (arith, ==_refl index)) in
    rw (d, same.2, sym given, find-insert_self p.next_handle index p.handle_to_index)
      (rw (same.0) (entry_at-take_entry index p.next_handle p.entries free))

-- After any calls on a new pool, a handle that is handed out names a connection that has been reset
-- and has the handle as its identifier, unless the handle is the invalid one.
pub get_connection-acquire :
    (is_desktop : Bool) (now : ℕ) (config : ConnectionPoolConfig) (os : List PoolCall) (handle : ℕ)
    → (acquire (run_pool os (new_pool is_desktop now config))).handle ≡ some handle
    → (handle == 0) ≡ false
    → get_connection handle (acquire (run_pool os (new_pool is_desktop now config))).after
      ≡ some (record reset_connection { id = handle })
unfolding acquire
get_connection-acquire is_desktop now config os handle e d =
    let p = run_pool os (new_pool is_desktop now config) in
    let h =
      ready-IsPool
        (record p {
          statistics = record p.statistics { total_acquires = add64 p.statistics.total_acquires 1 };
        })
        (run_pool-IsPool is_desktop now config os) in
    take_from-connection _ _ handle h.1 e d
