-- ===== src/Core/ConnectionPool/Operations.antt =====
-- The operations of the connection pool.
use open_rtmp_claude_kiro.Common.{
  Bool, List, Option, [], add64, false, if◌then◌else◌, leb, length, max, min, none, not, some,
  sub64, suc, true, zero, ℕ, ◌%◌, ◌&&◌, ◌*◌, ◌++◌, ◌/◌, ◌==◌, ◌^◌, ◌∷◌,
}
use open_rtmp_claude_kiro.Common.Maps.{erase, find, insert, nat_eq}
use open_rtmp_claude_kiro.Core.ConnectionPool.State.{
  Connection, ConnectionEntry, ConnectionLimitEvent, ConnectionLimitEventType, ConnectionPool,
  ConnectionPoolConfig, connection_rejected, high_watermark, limit_reached, low_watermark,
  platform_default_pool, reset_connection,
}

unfoldable pub new_entry : ConnectionEntry
new_entry = record { connection = reset_connection; handle = 0; in_use = false }

-- `allocateEntry` behind its guard, with the index put into the queue as both callers do.
unfoldable pub allocate_entry : ConnectionPool → ConnectionPool
allocate_entry p = if leb p.config.max_connections (length p.entries) then p else record p {
  entries = p.entries ++ (new_entry ∷ []);
  available_indices = p.available_indices ++ (length p.entries ∷ []);
  statistics = record p.statistics {
    total_allocated_connections = add64 p.statistics.total_allocated_connections 1;
    total_allocations = add64 p.statistics.total_allocations 1;
  };
}

unfoldable pub count_available : ConnectionPool → ConnectionPool
count_available p = record p {
  statistics = record p.statistics { available_connections = length p.available_indices };
}

unfoldable pub allocate_times : ℕ → ConnectionPool → ConnectionPool
allocate_times zero p = p
allocate_times (suc n) p = allocate_times n (allocate_entry p)

unfoldable pub pre_allocate : ConnectionPool → ConnectionPool
pre_allocate p = count_available (allocate_times p.config.pre_allocate_count p)

-- The configuration that the constructor makes of its argument.
unfoldable pub clamp_pre_allocation : ConnectionPoolConfig → ConnectionPoolConfig
clamp_pre_allocation c =
    let half = (c.max_connections * 50) % 2 ^ 64 / 100 in
    let most = min c.pre_allocate_count c.max_connections in
    if most == 0
    then record c { pre_allocate_count = if half == 0 then 1 else half }
    else record c { pre_allocate_count = most }

unfoldable pub validate_config : Bool → ConnectionPoolConfig → ConnectionPoolConfig
validate_config is_desktop c =
    clamp_pre_allocation (if c.max_connections == 0 then platform_default_pool is_desktop else c)

unfoldable pub new_pool : Bool → ℕ → ConnectionPoolConfig → ConnectionPool
new_pool is_desktop now config = pre_allocate (record {
  config = validate_config is_desktop config;
  entries = [];
  handle_to_index = [];
  available_indices = [];
  statistics = record {
    connections_in_use = 0;
    available_connections = 0;
    peak_connections_in_use = 0;
    total_allocated_connections = 0;
    rejected_connections = 0;
    total_acquires = 0;
    total_releases = 0;
    total_allocations = 0;
    last_reset_time = now;
  };
  above_high_watermark = false;
  next_handle = 1;
  has_callback = false;
})

unfoldable pub emit_limit_event :
    ConnectionLimitEventType → ConnectionPool → List ConnectionLimitEvent
emit_limit_event type p =
    if p.has_callback
    then record {
      type = type;
      current_count = p.statistics.connections_in_use;
      max_count = p.config.max_connections;
    }
      ∷ []
    else []

-- `maxConnections * percent / 100`.
abbrev pub pool_threshold : ℕ → ConnectionPool → ℕ
pool_threshold percent p = (p.config.max_connections * percent) % 2 ^ 64 / 100

unfoldable pub check_pool_watermarks :
    ℕ → ConnectionPool → List ConnectionLimitEvent × ConnectionPool
check_pool_watermarks count p =
    let above = leb (pool_threshold p.config.high_watermark_percent p) count in
    let low = leb count (pool_threshold p.config.low_watermark_percent p) in
    let up = record p { above_high_watermark = true } in
    let down = record p { above_high_watermark = false } in
    if above && not p.above_high_watermark
    then (emit_limit_event high_watermark up, up)
    else if (not above && p.above_high_watermark) && low
    then (emit_limit_event low_watermark down, down)
    else ([], p)

unfoldable pub update_entry :
    ℕ → (ConnectionEntry → ConnectionEntry) → List ConnectionEntry → List ConnectionEntry
update_entry i f [] = []
update_entry zero f (e ∷ es) = f e ∷ es
update_entry (suc i) f (e ∷ es) = e ∷ update_entry i f es

unfoldable pub entry_at : ℕ → List ConnectionEntry → Option ConnectionEntry
entry_at i [] = none
entry_at zero (e ∷ es) = some e
entry_at (suc i) (e ∷ es) = entry_at i es

-- An entry that is taken under a handle, and one that is given back.
unfoldable pub take_entry : ℕ → ConnectionEntry → ConnectionEntry
take_entry handle e = record {
  connection = record reset_connection { id = handle };
  handle = handle;
  in_use = true;
}

unfoldable pub free_entry : ConnectionEntry → ConnectionEntry
free_entry e = record e { connection = reset_connection; in_use = false }

-- The handle if the call succeeds, the callback's calls, and the pool after the call.
pub record PoolReply : Type 0 where
  pub handle : Option ℕ
  pub events : List ConnectionLimitEvent
  pub after : ConnectionPool

unfoldable pub reject : ConnectionPool → PoolReply
reject p =
    let q = record p {
      statistics = record p.statistics {
        rejected_connections = add64 p.statistics.rejected_connections 1;
      };
    } in
    record {
      handle = none;
      events = emit_limit_event limit_reached q ++ emit_limit_event connection_rejected q;
      after = q;
    }

-- The pool with the entry of an index taken, the rest of the queue, and the counts.
unfoldable pub taken : ℕ → List ℕ → ConnectionPool → ConnectionPool
taken index queue p =
    let used = add64 p.statistics.connections_in_use 1 in
    record p {
      entries = update_entry index (take_entry p.next_handle) p.entries;
      next_handle = add64 p.next_handle 1;
      handle_to_index = insert p.next_handle index p.handle_to_index;
      available_indices = queue;
      statistics = record p.statistics {
        connections_in_use = used;
        available_connections = length queue;
        peak_connections_in_use = max used p.statistics.peak_connections_in_use;
      };
    }

unfoldable pub take_from : List ℕ → ConnectionPool → PoolReply
take_from [] p = reject p
take_from (index ∷ queue) p =
    let q = taken index queue p in
    let marks = check_pool_watermarks q.statistics.connections_in_use q in
    record { handle = some p.next_handle; events = marks.0; after = marks.1 }

unfoldable pub acquire : ConnectionPool → PoolReply
acquire p =
    let q = record p {
      statistics = record p.statistics { total_acquires = add64 p.statistics.total_acquires 1 };
    } in
    let ready = if length p.available_indices == 0 then allocate_entry q else q in
    take_from ready.available_indices ready

-- The pool with the entry of a handle given back.
unfoldable pub given_back : ℕ → ℕ → ConnectionPool → ConnectionPool
given_back handle index p =
    let queue = p.available_indices ++ (index ∷ []) in
    record p {
      entries = update_entry index free_entry p.entries;
      handle_to_index = erase handle p.handle_to_index;
      available_indices = queue;
      statistics = record p.statistics {
        connections_in_use = sub64 p.statistics.connections_in_use 1;
        total_releases = add64 p.statistics.total_releases 1;
        available_connections = length queue;
      };
    }

unfoldable pub in_use_at : ℕ → List ConnectionEntry → Bool
in_use_at i es = elim (entry_at i es) [ none ↦ false | some e ↦ e.in_use ]

unfoldable pub release_at :
    ℕ → Option ℕ → ConnectionPool → List ConnectionLimitEvent × ConnectionPool
release_at handle none p = ([], p)
release_at handle (some index) p =
    let q = given_back handle index p in
    if in_use_at index p.entries
    then check_pool_watermarks q.statistics.connections_in_use q
    else ([], p)

unfoldable pub release : ℕ → ConnectionPool → List ConnectionLimitEvent × ConnectionPool
release handle p =
    if handle == 0 then ([], p) else release_at handle (find handle p.handle_to_index) p

unfoldable pub connection_of : Option ConnectionEntry → Option Connection
connection_of none = none
connection_of (some e) = if e.in_use then some e.connection else none

unfoldable pub connection_at : Option ℕ → ConnectionPool → Option Connection
connection_at none p = none
connection_at (some index) p = connection_of (entry_at index p.entries)

unfoldable pub get_connection : ℕ → ConnectionPool → Option Connection
get_connection handle p =
    if handle == 0 then none else connection_at (find handle p.handle_to_index) p

unfoldable pub reset_pool_statistics : ℕ → ConnectionPool → ConnectionPool
reset_pool_statistics now p = record p {
  statistics = record p.statistics {
    peak_connections_in_use = p.statistics.connections_in_use;
    rejected_connections = 0;
    total_acquires = 0;
    total_releases = 0;
    last_reset_time = now;
  };
}

unfoldable pub set_connection_limit_callback : Bool → ConnectionPool → ConnectionPool
set_connection_limit_callback callback p = record p { has_callback = callback }

unfoldable pub free_entries : List ConnectionEntry → List ConnectionEntry
free_entries [] = []
free_entries (e ∷ es) = (if e.in_use then free_entry e else e) ∷ free_entries es

unfoldable pub indices_from : ℕ → List ConnectionEntry → List ℕ
indices_from i [] = []
indices_from i (e ∷ es) = i ∷ indices_from (suc i) es

unfoldable pub clear_pool : ConnectionPool → ConnectionPool
clear_pool p = record p {
  entries = free_entries p.entries;
  handle_to_index = [];
  available_indices = indices_from 0 p.entries;
  statistics = record p.statistics {
    connections_in_use = 0;
    available_connections = length p.entries;
  };
  above_high_watermark = false;
}
