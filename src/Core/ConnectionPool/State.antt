-- ===== src/Core/ConnectionPool/State.antt =====
-- The data of the connection pool: connections, configuration, statistics and events.
use open_rtmp_claude_kiro.Common.{Bool, List, String, false, if◌then◌else◌, true, ℕ, ◌*◌, ◌/◌}

pub data ConnectionState : Type 0 where
  connecting handshaking connected publishing subscribing disconnected : ConnectionState

pub record Connection : Type 0 where
  pub id : ℕ
  pub client_ip : String
  pub client_port : ℕ
  pub state : ConnectionState
  pub connected_at : ℕ
  pub last_activity_at : ℕ
  pub session_id : ℕ
  pub user_agent : String
  pub is_tls : Bool

-- `Connection::reset`; a time point that was never set is 0.
unfoldable pub reset_connection : Connection
reset_connection = record {
  id = 0;
  client_ip = "";
  client_port = 0;
  state = connecting;
  connected_at = 0;
  last_activity_at = 0;
  session_id = 0;
  user_agent = "";
  is_tls = false;
}

pub record ConnectionPoolConfig : Type 0 where
  pub max_connections : ℕ
  pub pre_allocate_count : ℕ
  pub high_watermark_percent : ℕ
  pub low_watermark_percent : ℕ
  pub enable_recycling : Bool

-- `isDesktopPlatform()` is the argument.
unfoldable pub platform_default_pool : Bool → ConnectionPoolConfig
platform_default_pool is_desktop = record {
  max_connections = if is_desktop then 1000 else 100;
  pre_allocate_count = (if is_desktop then 1000 else 100) * 50 / 100;
  high_watermark_percent = 80;
  low_watermark_percent = 50;
  enable_recycling = true;
}

pub record ConnectionPoolStatistics : Type 0 where
  pub connections_in_use : ℕ
  pub available_connections : ℕ
  pub peak_connections_in_use : ℕ
  pub total_allocated_connections : ℕ
  pub rejected_connections : ℕ
  pub total_acquires : ℕ
  pub total_releases : ℕ
  pub total_allocations : ℕ
  pub last_reset_time : ℕ

pub record ConnectionEntry : Type 0 where
  pub connection : Connection
  pub handle : ℕ
  pub in_use : Bool

-- The queue of available indices has its front first.
pub record ConnectionPool : Type 0 where
  pub config : ConnectionPoolConfig
  pub entries : List ConnectionEntry
  pub handle_to_index : List (ℕ × ℕ)
  pub available_indices : List ℕ
  pub statistics : ConnectionPoolStatistics
  pub above_high_watermark : Bool
  pub next_handle : ℕ
  pub has_callback : Bool

pub data ConnectionLimitEventType : Type 0 where
  limit_reached high_watermark low_watermark connection_rejected : ConnectionLimitEventType

pub record ConnectionLimitEvent : Type 0 where
  pub type : ConnectionLimitEventType
  pub current_count : ℕ
  pub max_count : ℕ
