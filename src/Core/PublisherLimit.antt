-- ===== src/Core/PublisherLimit.antt =====
-- include/openrtmp/core/publisher_limit.hpp and src/core/publisher_limit.cpp. A call is one step: what
-- another thread does between the unlocking and the event is left out, and so is the event's time.
-- The counters are of 64 bits.
pub mod Bounds
pub mod Watermarks
pub mod Balance
use open_rtmp_claude_kiro.Common.{
  Bool, List, Option, [], false, if◌then◌else◌, leb, length, ltb, mem, none, not, set_erase,
  set_insert, some, true, ℕ, ◌%◌, ◌&&◌, ◌*◌, ◌++◌, ◌+◌, ◌-◌, ◌/◌, ◌==◌, ◌^◌, ◌∷◌,
}

pub record PublisherLimitConfig : Type 0 where
  pub max_publishers : ℕ
  pub high_watermark_percent : ℕ
  pub low_watermark_percent : ℕ

-- `isMobilePlatform()` is the argument.
pub platform_default : Bool → PublisherLimitConfig
platform_default is_mobile = record {
  max_publishers = if is_mobile then 3 else 10;
  high_watermark_percent = 80;
  low_watermark_percent = 50;
}

pub record PublisherLimitStatistics : Type 0 where
  pub active_publishers : ℕ
  pub peak_publishers : ℕ
  pub total_acquires : ℕ
  pub total_releases : ℕ
  pub rejected_acquires : ℕ
  pub max_publishers : ℕ

pub data PublisherLimitEventType : Type 0 where
  publisher_acquired publisher_released publisher_rejected : PublisherLimitEventType
  high_watermark low_watermark limit_reached : PublisherLimitEventType

pub record PublisherLimitEvent : Type 0 where
  pub type : PublisherLimitEventType
  pub publisher_id : ℕ
  pub current_count : ℕ
  pub max_count : ℕ

pub record PublisherLimit : Type 0 where
  pub config : PublisherLimitConfig
  pub active_publishers : List ℕ
  pub peak_publishers : ℕ
  pub total_acquires : ℕ
  pub total_releases : ℕ
  pub rejected_acquires : ℕ
  pub high_watermark_triggered : Bool
  pub has_callback : Bool

-- The constructor: at least one publisher.
pub new_limit : PublisherLimitConfig → PublisherLimit
new_limit config = record {
  config = if config.max_publishers == 0 then record config { max_publishers = 1 } else config;
  active_publishers = [];
  peak_publishers = 0;
  total_acquires = 0;
  total_releases = 0;
  rejected_acquires = 0;
  high_watermark_triggered = false;
  has_callback = false;
}

pub data AcquireError : Type 0 where
  already_exists stream_limit_reached : AcquireError

-- The error if there is one, the callback's calls, and the limit after a call.
pub record Reply : Type 0 where
  pub error : Option AcquireError
  pub events : List PublisherLimitEvent
  pub after : PublisherLimit

pub emit_event : PublisherLimitEventType → ℕ → PublisherLimit → List PublisherLimitEvent
emit_event type id l =
    if l.has_callback
    then record {
      type = type;
      publisher_id = id;
      current_count = length l.active_publishers;
      max_count = l.config.max_publishers;
    }
      ∷ []
    else []

-- `maxPublishers * percent / 100` on size_t.
abbrev pub threshold : ℕ → PublisherLimit → ℕ
threshold percent l = (l.config.max_publishers * percent) % 2 ^ 64 / 100

-- Crossing the high watermark upwards.
pub check_high : ℕ → ℕ → PublisherLimit → List PublisherLimitEvent × PublisherLimit
check_high previous current l =
    let high = threshold l.config.high_watermark_percent l in
    let t = record l { high_watermark_triggered = true } in
    if not l.high_watermark_triggered && (leb high current && ltb previous high)
    then (emit_event high_watermark 0 t, t)
    else ([], l)

-- Crossing the low watermark downwards.
pub check_low : ℕ → ℕ → PublisherLimit → List PublisherLimitEvent × PublisherLimit
check_low previous current l =
    let low = threshold l.config.low_watermark_percent l in
    let t = record l { high_watermark_triggered = false } in
    if l.high_watermark_triggered && (leb current low && ltb low previous)
    then (emit_event low_watermark 0 t, t)
    else ([], l)

pub check_watermarks : ℕ → ℕ → PublisherLimit → List PublisherLimitEvent × PublisherLimit
check_watermarks previous current l =
    let (highs, t) = check_high previous current l in
    let (lows, u) = check_low previous current t in (highs ++ lows, u)

-- The watermarks, then the event of the call.
abbrev pub finish : PublisherLimitEventType → ℕ → ℕ → PublisherLimit → Reply
finish type id previous l =
    let (marks, t) = check_watermarks previous (length l.active_publishers) l in
    record { error = none; events = marks ++ emit_event type id t; after = t }

-- The state with the slot taken: the set, the count of acquisitions and the peak.
pub take_slot : ℕ → PublisherLimit → PublisherLimit
take_slot id l =
    let active = set_insert id l.active_publishers in
    record l {
      active_publishers = active;
      total_acquires = (l.total_acquires + 1) % 2 ^ 64;
      peak_publishers =
          if ltb l.peak_publishers (length active) then length active else l.peak_publishers;
    }

pub acquire_publisher_slot : ℕ → PublisherLimit → Reply
acquire_publisher_slot id l =
    let t = record l { rejected_acquires = (l.rejected_acquires + 1) % 2 ^ 64 } in
    if mem id l.active_publishers
    then record { error = some already_exists; events = []; after = l }
    else if leb l.config.max_publishers (length l.active_publishers)
    then record {
      error = some stream_limit_reached;
      events = emit_event limit_reached id t ++ emit_event publisher_rejected id t;
      after = t;
    }
    else finish publisher_acquired id (length l.active_publishers) (take_slot id l)

-- The state with the slot given back.
pub drop_slot : ℕ → PublisherLimit → PublisherLimit
drop_slot id l = record l {
  active_publishers = set_erase id l.active_publishers;
  total_releases = (l.total_releases + 1) % 2 ^ 64;
}

pub release_publisher_slot : ℕ → PublisherLimit → Reply
release_publisher_slot id l =
    if mem id l.active_publishers
    then finish publisher_released id (length l.active_publishers) (drop_slot id l)
    else record { error = none; events = []; after = l }

pub has_publisher : ℕ → PublisherLimit → Bool
has_publisher id l = mem id l.active_publishers

pub can_acquire : PublisherLimit → Bool
can_acquire l = ltb (length l.active_publishers) l.config.max_publishers

pub get_active_publisher_count : PublisherLimit → ℕ
get_active_publisher_count l = length l.active_publishers

-- A subtraction on size_t.
pub get_remaining_slots : PublisherLimit → ℕ
get_remaining_slots l = (l.config.max_publishers + 2 ^ 64 - length l.active_publishers) % 2 ^ 64

pub get_statistics : PublisherLimit → PublisherLimitStatistics
get_statistics l = record {
  active_publishers = length l.active_publishers;
  peak_publishers = l.peak_publishers;
  total_acquires = l.total_acquires;
  total_releases = l.total_releases;
  rejected_acquires = l.rejected_acquires;
  max_publishers = l.config.max_publishers;
}

pub reset_statistics : PublisherLimit → PublisherLimit
reset_statistics l = record l {
  peak_publishers = length l.active_publishers;
  total_acquires = 0;
  total_releases = 0;
  rejected_acquires = 0;
}

pub set_publisher_limit_callback : Bool → PublisherLimit → PublisherLimit
set_publisher_limit_callback b l = record l { has_callback = b }

pub clear : PublisherLimit → PublisherLimit
clear l = record l { active_publishers = []; high_watermark_triggered = false }
