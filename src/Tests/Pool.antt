-- ===== src/Tests/Pool.antt =====
-- A pool of one connection.
use open_rtmp_claude_kiro.Common.{[], none, refl, some, true, ◌↔◌, ◌∷◌, ◌≡◌, ◌≢◌}
use open_rtmp_claude_kiro.Common.Maps.{find, insert, nat_eq}
use open_rtmp_claude_kiro.Core.ConnectionPool.Entries.{count_used}
use open_rtmp_claude_kiro.Core.ConnectionPool.Handles.{acquire-release, get_connection-acquire}
use open_rtmp_claude_kiro.Core.ConnectionPool.Limit.{
  acquire-run_pool, apply_call, call_acquire, run_pool,
}
use open_rtmp_claude_kiro.Core.ConnectionPool.Operations.{
  acquire, allocate_entry, allocate_times, check_pool_watermarks, clamp_pre_allocation,
  connection_at, connection_of, count_available, entry_at, get_connection, new_entry, new_pool,
  pre_allocate, release, take_entry, take_from, taken, update_entry, validate_config,
}
use open_rtmp_claude_kiro.Core.ConnectionPool.State.{ConnectionPoolConfig, reset_connection}

abbrev single : ConnectionPoolConfig
single = record {
  max_connections = 1;
  pre_allocate_count = 1;
  high_watermark_percent = 80;
  low_watermark_percent = 50;
  enable_recycling = true;
}

acquire-run_pool_example :
    let p = run_pool (call_acquire ∷ []) (new_pool true 5 single) in
    ((acquire p).handle ≡ none) ↔ (count_used p.entries ≡ p.config.max_connections)
acquire-run_pool_example = acquire-run_pool true 5 single (call_acquire ∷ [])

acquire-release_example :
    (acquire (release 1 (run_pool (call_acquire ∷ []) (new_pool true 5 single))).1).handle ≢ none
acquire-release_example =
    acquire-release true 5 single (call_acquire ∷ []) 1 (record reset_connection { id = 1 }) there
  where
    there :
        get_connection 1 (run_pool (call_acquire ∷ []) (new_pool true 5 single))
        ≡ some (record reset_connection { id = 1 })
    there =
        unfold get_connection run_pool apply_call acquire new_pool pre_allocate allocate_times
          allocate_entry count_available validate_config clamp_pre_allocation take_from taken
          check_pool_watermarks update_entry take_entry find insert connection_at connection_of
          entry_at new_entry in
        refl

get_connection-acquire_example :
    get_connection 1 (acquire (run_pool [] (new_pool true 5 single))).after
    ≡ some (record reset_connection { id = 1 })
get_connection-acquire_example = get_connection-acquire true 5 single [] 1 handed_out refl
  where
    handed_out : (acquire (run_pool [] (new_pool true 5 single))).handle ≡ some 1
    handed_out =
        unfold run_pool acquire new_pool pre_allocate allocate_times allocate_entry count_available
          validate_config clamp_pre_allocation take_from taken in
        refl
