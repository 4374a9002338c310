-- ===== src/Core/PublisherLimit/Bounds.antt =====
-- The slots in use, and the counters.
use open_rtmp_claude_kiro.Common.{
  Bool, Bool-cases, IsDistinct, List, [], arith, false, inl, inr, leb, length, length-set_erase,
  length-set_insert, mem, set_erase-IsDistinct, set_insert-IsDistinct, true, ℕ, ◌+◌, ◌<◌, ◌^◌, ◌∷◌,
  ◌≡◌, ◌≤◌,
}
use open_rtmp_claude_kiro.Core.PublisherLimit.{
  PublisherLimit, PublisherLimitConfig, acquire_publisher_slot, check_high, check_low,
  check_watermarks, clear, drop_slot, get_active_publisher_count, get_remaining_slots, new_limit,
  release_publisher_slot, reset_statistics, set_publisher_limit_callback, take_slot,
}

pub data Call : Type 0 where
  acquires releases : ℕ → Call
  resets_statistics clears : Call
  sets_callback : Bool → Call

pub step : Call → PublisherLimit → PublisherLimit
step (acquires id) l = (acquire_publisher_slot id l).after
step (releases id) l = (release_publisher_slot id l).after
step resets_statistics l = reset_statistics l
step clears l = clear l
step (sets_callback b) l = set_publisher_limit_callback b l

pub run_calls : List Call → PublisherLimit → PublisherLimit
run_calls [] l = l
run_calls (c ∷ cs) l = run_calls cs (step c l)

-- No publisher has two slots, and there are no more slots in use than allowed or than the peak.
record IsBounded (l : PublisherLimit) : Type 0 where
  once : IsDistinct l.active_publishers
  within : length l.active_publishers ≤ l.peak_publishers
  peak_within : l.peak_publishers ≤ l.config.max_publishers
  fits : l.config.max_publishers < 2 ^ 64
  positive : 0 < l.config.max_publishers

pub check_watermarks-same :
    (p c : ℕ) (l : PublisherLimit)
    → let t = (check_watermarks p c l).1 in
      (t.active_publishers ≡ l.active_publishers)
      × (t.peak_publishers ≡ l.peak_publishers)
      × (t.config ≡ l.config)
      × (t.total_acquires ≡ l.total_acquires)
      × (t.total_releases ≡ l.total_releases)
unfolding check_watermarks check_high check_low
check_watermarks-same p c l = ground arith

take_slot-IsBounded :
    (id : ℕ) (l : PublisherLimit)
    → mem id l.active_publishers ≡ false
    → length l.active_publishers < l.config.max_publishers
    → IsBounded l
    → IsBounded (take_slot id l)
unfolding take_slot
take_slot-IsBounded id l m h v = record {
  once = set_insert-IsDistinct id l.active_publishers v.once;
  within = ground arith;
  peak_within = ground (arith, length-set_insert id l.active_publishers m, v.peak_within);
  fits = v.fits;
  positive = v.positive;
}

drop_slot-IsBounded :
    (id : ℕ) (l : PublisherLimit)
    → mem id l.active_publishers ≡ true
    → IsBounded l
    → IsBounded (drop_slot id l)
unfolding drop_slot
drop_slot-IsBounded id l m v = record {
  once = set_erase-IsDistinct id l.active_publishers v.once;
  within = omega (arith, length-set_erase id l.active_publishers v.once m, v.within);
  peak_within = v.peak_within;
  fits = v.fits;
  positive = v.positive;
}

-- What `check_watermarks` leaves alone is all that the bounds speak of.
watermarks-IsBounded :
    (p c : ℕ) (l : PublisherLimit) → IsBounded l → IsBounded (check_watermarks p c l).1
watermarks-IsBounded p c l v =
    let (a, k, g, _, _) = check_watermarks-same p c l in
    record {
      once = rw (a) v.once;
      within = rw (a, k) v.within;
      peak_within = rw (k, g) v.peak_within;
      fits = rw (g) v.fits;
      positive = rw (g) v.positive;
    }

counts-IsBounded :
    (n : ℕ) (l : PublisherLimit) → IsBounded l → IsBounded (record l { rejected_acquires = n })
counts-IsBounded n l v = record {
  once = v.once;
  within = v.within;
  peak_within = v.peak_within;
  fits = v.fits;
  positive = v.positive;
}

acquire-IsBounded :
    (id : ℕ) (l : PublisherLimit) → IsBounded l → IsBounded (acquire_publisher_slot id l).after
unfolding acquire_publisher_slot
acquire-IsBounded id l v = elim (Bool-cases (mem id l.active_publishers)) [
  | inl m ↦ rw (m) v
  | inr m ↦ elim (Bool-cases (leb l.config.max_publishers (length l.active_publishers))) [
    | inl f ↦ rw (m, f) (counts-IsBounded _ l v)
    | inr f ↦ rw (m, f) (watermarks-IsBounded _ _ _ (take_slot-IsBounded id l m (ground arith) v))
  ]
]

release-IsBounded :
    (id : ℕ) (l : PublisherLimit) → IsBounded l → IsBounded (release_publisher_slot id l).after
unfolding release_publisher_slot
release-IsBounded id l v = elim (Bool-cases (mem id l.active_publishers)) [
  | inl m ↦ rw (m) (watermarks-IsBounded _ _ _ (drop_slot-IsBounded id l m v))
  | inr m ↦ rw (m) v
]

step-IsBounded : (c : Call) (l : PublisherLimit) → IsBounded l → IsBounded (step c l)
unfolding step reset_statistics clear set_publisher_limit_callback IsDistinct
step-IsBounded (acquires id) l v = acquire-IsBounded id l v
step-IsBounded (releases id) l v = release-IsBounded id l v
step-IsBounded resets_statistics l v = record {
  once = v.once;
  within = omega arith;
  peak_within = omega (arith, v.within, v.peak_within);
  fits = v.fits;
  positive = v.positive;
}
step-IsBounded clears l v = record {
  once = tt;
  within = omega arith;
  peak_within = v.peak_within;
  fits = v.fits;
  positive = v.positive;
}
step-IsBounded (sets_callback b) l v = record {
  once = v.once;
  within = v.within;
  peak_within = v.peak_within;
  fits = v.fits;
  positive = v.positive;
}

run_calls-IsBounded :
    (cs : List Call) (l : PublisherLimit) → IsBounded l → IsBounded (run_calls cs l)
unfolding run_calls
run_calls-IsBounded [] l v = v
run_calls-IsBounded (c ∷ cs) l v = run_calls-IsBounded cs (step c l) (step-IsBounded c l v)

new_limit-IsBounded :
    (config : PublisherLimitConfig) → config.max_publishers < 2 ^ 64 → IsBounded (new_limit config)
unfolding new_limit IsDistinct
new_limit-IsBounded config h = record {
  once = tt;
  within = omega arith;
  peak_within = omega arith;
  fits = ground arith;
  positive = ground arith;
}

-- After any calls on a new limit, no publisher has two slots, the slots in use and those that are
-- said to remain add up to the maximum (the subtraction never wraps), and the number in use is at
-- most the peak, which is at most the maximum.
pub run_calls-IsWithinLimit :
    (config : PublisherLimitConfig) (cs : List Call)
    → config.max_publishers < 2 ^ 64
    → let l = run_calls cs (new_limit config) in
      IsDistinct l.active_publishers
      × (get_active_publisher_count l + get_remaining_slots l ≡ l.config.max_publishers)
      × (get_active_publisher_count l ≤ l.peak_publishers)
      × (l.peak_publishers ≤ l.config.max_publishers)
unfolding get_active_publisher_count get_remaining_slots
run_calls-IsWithinLimit config cs h =
    let v = run_calls-IsBounded cs _ (new_limit-IsBounded config h) in
    (v.once, omega (arith, v.within, v.peak_within, v.fits), v.within, v.peak_within)
