-- ===== src/Streaming/SubscriberBufferManager.antt =====
-- SubscriberBufferManager of include/openrtmp/streaming/subscriber_buffer.hpp: a map from
-- subscribers to their buffers. An operation that may drop frames also returns the calls of the
-- manager's callback, each a subscriber and a frame.
pub mod Distribution
pub mod Runs
use open_rtmp_claude_kiro.Common.{
  Bool, List, Option, [], add64, if◌then◌else◌, length, none, some, sub64, true, ℕ, ◌++◌, ◌∷◌,
}
use open_rtmp_claude_kiro.Common.Maps.{contains, erase, find, insert, nat_eq}
use open_rtmp_claude_kiro.Streaming.Frames.{BufferedFrame, buffer_duration}
use open_rtmp_claude_kiro.Streaming.SubscriberBuffer.{SubscriberBuffer, SubscriberBufferConfig}
use open_rtmp_claude_kiro.Streaming.SubscriberBuffer

pub record SubscriberBufferManager : Type 0 where
  pub buffers : List (ℕ × SubscriberBuffer)
  pub default_config : SubscriberBufferConfig
  pub has_callback : Bool

pub record SubscriberStats : Type 0 where
  pub subscriber_id : ℕ
  pub pending_frames : ℕ
  pub pending_bytes : ℕ
  pub buffer_level : ℕ
  pub dropped_frames : ℕ
  pub delivered_frames : ℕ

abbrev pub Calls : Type 0
Calls = List (ℕ × BufferedFrame)

-- The lambda that forwards a buffer's calls with the subscriber's identifier, to the callback that
-- the manager has then.
unfoldable pub forward : Bool → ℕ → List BufferedFrame → Calls
forward callback id [] = []
forward callback id (f ∷ fs) = if callback then (id, f) ∷ forward callback id fs else []

unfoldable pub add_subscriber_with :
    ℕ → SubscriberBufferConfig → SubscriberBufferManager → SubscriberBufferManager
add_subscriber_with id config m =
    let buffer =
      SubscriberBuffer.set_on_frame_dropped_callback m.has_callback
        (SubscriberBuffer.new_buffer config) in
    record m { buffers = insert id buffer m.buffers }

unfoldable pub add_subscriber : ℕ → SubscriberBufferManager → SubscriberBufferManager
add_subscriber id m = add_subscriber_with id m.default_config m

unfoldable pub remove_subscriber : ℕ → SubscriberBufferManager → SubscriberBufferManager
remove_subscriber id m = record m { buffers = erase id m.buffers }

unfoldable pub has_subscriber : ℕ → SubscriberBufferManager → Bool
has_subscriber id m = contains id m.buffers

unfoldable pub get_subscriber_count : SubscriberBufferManager → ℕ
get_subscriber_count m = length m.buffers

-- A buffer's new state, and the calls that are forwarded.
unfoldable pub store :
    ℕ
    → SubscriberBuffer × List BufferedFrame
    → SubscriberBufferManager
    → SubscriberBufferManager × Calls
store id (b, reports) m =
    (record m { buffers = insert id b m.buffers }, forward m.has_callback id reports)

unfoldable pub push_to :
    ℕ → ℕ → BufferedFrame → SubscriberBufferManager → SubscriberBufferManager × Calls
push_to now id f m = elim (find id m.buffers) [
  | none ↦ (m, [])
  | some b ↦ store id (SubscriberBuffer.push now f b) m
]

-- The loop over the buffers.
unfoldable pub push_all :
    ℕ → Bool → BufferedFrame → List (ℕ × SubscriberBuffer) → List (ℕ × SubscriberBuffer) × Calls
push_all now callback f [] = ([], [])
push_all now callback f ((id, b) ∷ rest) =
    let pushed = SubscriberBuffer.push now f b in
    let others = push_all now callback f rest in
    ((id, pushed.0) ∷ others.0, forward callback id pushed.1 ++ others.1)

unfoldable pub distribute_to_all :
    ℕ → BufferedFrame → SubscriberBufferManager → SubscriberBufferManager × Calls
distribute_to_all now f m =
    let all = push_all now m.has_callback f m.buffers in (record m { buffers = all.0 }, all.1)

unfoldable pub pop_from :
    ℕ → SubscriberBufferManager → Option BufferedFrame × SubscriberBufferManager
pop_from id m = elim (find id m.buffers) [
  | none ↦ (none, m)
  | some b ↦ (
    (SubscriberBuffer.pop b).0,
    record m { buffers = insert id (SubscriberBuffer.pop b).1 m.buffers },
  )
]

-- A subscriber that is not there has the values of a new SubscriberStats.
unfoldable pub stats_of : ℕ → SubscriberBuffer → SubscriberStats
stats_of id b = record {
  subscriber_id = id;
  pending_frames = length b.frames;
  pending_bytes = b.buffered_bytes;
  buffer_level = buffer_duration b.frames;
  dropped_frames = SubscriberBuffer.get_dropped_frame_count b;
  delivered_frames =
      sub64 b.statistics.total_frames_processed (SubscriberBuffer.get_dropped_frame_count b);
}

unfoldable pub get_subscriber_stats : ℕ → SubscriberBufferManager → SubscriberStats
get_subscriber_stats id m = elim (find id m.buffers) [
  | none ↦ record {
    subscriber_id = id;
    pending_frames = 0;
    pending_bytes = 0;
    buffer_level = 0;
    dropped_frames = 0;
    delivered_frames = 0;
  }
  | some b ↦ stats_of id b
]

unfoldable pub all_stats : List (ℕ × SubscriberBuffer) → List SubscriberStats
all_stats [] = []
all_stats ((id, b) ∷ rest) = stats_of id b ∷ all_stats rest

unfoldable pub get_all_subscriber_stats : SubscriberBufferManager → List SubscriberStats
get_all_subscriber_stats m = all_stats m.buffers

unfoldable pub total_dropped : List (ℕ × SubscriberBuffer) → ℕ
total_dropped [] = 0
total_dropped ((id, b) ∷ rest) =
    add64 (SubscriberBuffer.get_dropped_frame_count b) (total_dropped rest)

unfoldable pub get_total_dropped_frames : SubscriberBufferManager → ℕ
get_total_dropped_frames m = total_dropped m.buffers

unfoldable pub set_subscriber_config :
    ℕ → ℕ → SubscriberBufferConfig → SubscriberBufferManager → SubscriberBufferManager × Calls
set_subscriber_config now id config m = elim (find id m.buffers) [
  | none ↦ (m, [])
  | some b ↦ store id (SubscriberBuffer.set_config now config b) m
]

unfoldable pub get_subscriber_config : ℕ → SubscriberBufferManager → SubscriberBufferConfig
get_subscriber_config id m = elim (find id m.buffers) [
  | none ↦ SubscriberBuffer.default_config
  | some b ↦ b.config
]

unfoldable pub set_default_config :
    SubscriberBufferConfig → SubscriberBufferManager → SubscriberBufferManager
set_default_config config m = record m { default_config = config }

-- Every buffer gets the forwarding callback, also when the new one is empty.
unfoldable pub set_callbacks : List (ℕ × SubscriberBuffer) → List (ℕ × SubscriberBuffer)
set_callbacks [] = []
set_callbacks ((id, b) ∷ rest) =
    (id, SubscriberBuffer.set_on_frame_dropped_callback true b) ∷ set_callbacks rest

unfoldable pub set_callback : Bool → SubscriberBufferManager → SubscriberBufferManager
set_callback callback m = record m { has_callback = callback; buffers = set_callbacks m.buffers }
