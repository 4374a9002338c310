-- ===== src/Tests/Limits.antt =====
-- A limit of two publishers.
use open_rtmp_claude_kiro.Common.{IsDistinct, [], arith, mem, refl, true, ◌+◌, ◌∷◌, ◌≡◌, ◌≤◌}
use open_rtmp_claude_kiro.Core.PublisherLimit.{
  PublisherLimit, PublisherLimitConfig, get_active_publisher_count, get_remaining_slots, new_limit,
}
use open_rtmp_claude_kiro.Core.PublisherLimit.Balance.{IsBalanced, run_slots-IsBalanced}
use open_rtmp_claude_kiro.Core.PublisherLimit.Bounds.{acquires, run_calls, run_calls-IsWithinLimit}
use open_rtmp_claude_kiro.Core.PublisherLimit.Watermarks.{
  Alternates, acquires_slot, releases_slot, run_slots, run_slots-Alternates, types,
}

abbrev config : PublisherLimitConfig
config = record { max_publishers = 2; high_watermark_percent = 80; low_watermark_percent = 50 }

abbrev limit : PublisherLimit
limit = record {
  config = config;
  active_publishers = 1 ∷ [];
  peak_publishers = 1;
  total_acquires = 3;
  total_releases = 2;
  rejected_acquires = 0;
  high_watermark_triggered = true;
  has_callback = true;
}

run_calls-IsWithinLimit_example :
    let l = run_calls (acquires 1 ∷ acquires 2 ∷ acquires 3 ∷ []) (new_limit config) in
    IsDistinct l.active_publishers
    × (get_active_publisher_count l + get_remaining_slots l ≡ l.config.max_publishers)
    × (get_active_publisher_count l ≤ l.peak_publishers)
    × (l.peak_publishers ≤ l.config.max_publishers)
run_calls-IsWithinLimit_example =
    run_calls-IsWithinLimit config (acquires 1 ∷ acquires 2 ∷ acquires 3 ∷ []) (omega arith)

run_slots-Alternates_example :
    Alternates true
      (types (run_slots (acquires_slot 2 ∷ releases_slot 1 ∷ []) limit).0)
      (run_slots (acquires_slot 2 ∷ releases_slot 1 ∷ []) limit).1.high_watermark_triggered
run_slots-Alternates_example =
    run_slots-Alternates (acquires_slot 2 ∷ releases_slot 1 ∷ []) limit refl

run_slots-IsBalanced_example :
    IsBalanced (run_slots (acquires_slot 2 ∷ releases_slot 1 ∷ []) limit).1
unfolding IsDistinct mem
run_slots-IsBalanced_example =
    run_slots-IsBalanced (acquires_slot 2 ∷ releases_slot 1 ∷ []) limit ((refl, tt), omega arith)
