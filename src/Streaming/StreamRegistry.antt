-- ===== src/Streaming/StreamRegistry.antt =====
-- include/openrtmp/streaming/stream_registry.hpp and src/streaming/stream_registry.cpp. A call of the
-- event callback is an event that the operation returns; events and streams carry no time, and
-- errors no text. The mutexes make each call one step.
pub mod Index
pub mod Lookup
pub mod Allocation
pub mod Subscribers
use open_rtmp_claude_kiro.Common.{
  Bool, List, Option, String, [], false, if◌then◌else◌, length, map, mem, none, set_erase,
  set_insert, some, u32, ℕ, ◌+◌, ◌==◌, ◌∷◌,
}
use open_rtmp_claude_kiro.Common.Maps.{contains, emplace, erase, find, insert, nat_eq}
use open_rtmp_claude_kiro.Streaming.Types.{StreamKey, invalid_stream_id, stream_key_eq}

pub data VideoCodec : Type 0 where
  unknown_video h263 screen_video vp6 vp6_alpha screen_video2 h264 h265 av1 vp9 : VideoCodec

pub data AudioCodec : Type 0 where
  unknown_audio adpcm mp3 linear_pcm_little_endian nellymoser16khz nellymoser8khz : AudioCodec
  nellymoser g711_alaw g711_mulaw aac speex mp3_8khz device_specific opus : AudioCodec

pub record CodecInfo : Type 0 where
  pub video_codec : VideoCodec
  pub audio_codec : AudioCodec
  pub width : ℕ
  pub height : ℕ
  pub frame_rate : ℕ
  pub audio_bitrate : ℕ
  pub video_bitrate : ℕ
  pub audio_sample_rate : ℕ
  pub audio_channels : ℕ

pub data StreamState : Type 0 where
  idle publishing ended : StreamState

pub record StreamMetadata : Type 0 where
  pub title : String
  pub description : String
  pub custom_data : List (String × String)

pub record StreamInfo : Type 0 where
  pub key : StreamKey
  pub stream_id : ℕ
  pub state : StreamState
  pub publisher_id : ℕ
  pub subscribers : List ℕ
  pub codec_info : CodecInfo
  pub metadata : StreamMetadata

abbrev pub no_codec_info : CodecInfo
no_codec_info = record {
  video_codec = unknown_video;
  audio_codec = unknown_audio;
  width = 0;
  height = 0;
  frame_rate = 0;
  audio_bitrate = 0;
  video_bitrate = 0;
  audio_sample_rate = 0;
  audio_channels = 0;
}

-- `StreamInfo(k, id, pub)`.
pub new_stream_info : StreamKey → ℕ → ℕ → StreamInfo
new_stream_info k id publisher = record {
  key = k;
  stream_id = id;
  state = publishing;
  publisher_id = publisher;
  subscribers = [];
  codec_info = no_codec_info;
  metadata = record { title = ""; description = ""; custom_data = [] };
}

-- The key and the stream's identifier, and the publisher or the subscriber.
pub data StreamEvent : Type 0 where
  stream_published stream_ended subscriber_joined subscriber_left : StreamKey → ℕ → ℕ → StreamEvent

pub data StreamRegistryErrorCode : Type 0 where
  stream_key_in_use stream_not_found invalid_stream : StreamRegistryErrorCode
  subscriber_exists subscriber_not_found registry_internal_error : StreamRegistryErrorCode

-- `released_ids` has the back of the vector first.
pub record StreamRegistry : Type 0 where
  pub streams : List (StreamKey × StreamInfo)
  pub stream_id_index : List (ℕ × StreamKey)
  pub next_stream_id : ℕ
  pub released_ids : List ℕ
  pub has_event_callback : Bool

unfoldable pub new_registry : StreamRegistry
new_registry = record {
  streams = [];
  stream_id_index = [];
  next_stream_id = 1;
  released_ids = [];
  has_event_callback = false;
}

-- The error if there is one, the callback's calls, and the registry after a call.
pub record Reply : Type 0 where
  pub error : Option StreamRegistryErrorCode
  pub events : List StreamEvent
  pub after : StreamRegistry

abbrev pub refused : StreamRegistryErrorCode → StreamRegistry → Reply
refused e r = record { error = some e; events = []; after = r }

abbrev pub emit_event : StreamEvent → StreamRegistry → List StreamEvent
emit_event e r = if r.has_event_callback then e ∷ [] else []

abbrev pub done : StreamEvent → StreamRegistry → Reply
done e r = record { error = none; events = emit_event e r; after = r }

pub allocate_stream_id : StreamRegistry → ℕ × StreamRegistry
allocate_stream_id r = elim r.released_ids [
  | id ∷ ids ↦ (id, record r { released_ids = ids })
  | [] ↦
      let id = r.next_stream_id in
      let next = u32 (id + 1) in
      if id == 0
      then (next, record r { next_stream_id = u32 (next + 1) })
      else (id, record r { next_stream_id = next })
]

pub release_stream_id : ℕ → StreamRegistry → StreamRegistry
release_stream_id id r =
    if id == invalid_stream_id then r else record r { released_ids = id ∷ r.released_ids }

pub register_stream : StreamKey → ℕ → ℕ → StreamRegistry → Reply
register_stream key id publisher r =
    if contains key r.streams
    then refused stream_key_in_use r
    else done (stream_published key id publisher) (record r {
      streams = emplace key (new_stream_info key id publisher) r.streams;
      stream_id_index = emplace id key r.stream_id_index;
    })

pub unregister_stream : StreamKey → StreamRegistry → Reply
unregister_stream key r = elim (find key r.streams) [
  | none ↦ refused stream_not_found r
  | some info ↦ done (stream_ended key info.stream_id info.publisher_id) (record r {
    stream_id_index = erase info.stream_id r.stream_id_index;
    streams = erase key r.streams;
  })
]

unfoldable pub find_stream : StreamKey → StreamRegistry → Option StreamInfo
find_stream key r = find key r.streams

pub find_stream_by_id : ℕ → StreamRegistry → Option StreamInfo
find_stream_by_id id r = elim (find id r.stream_id_index) [
  | none ↦ none
  | some key ↦ find key r.streams
]

unfoldable pub has_stream : StreamKey → StreamRegistry → Bool
has_stream key r = contains key r.streams

-- The registry with the entry of a key, which has one, changed.
abbrev pub put_stream : StreamKey → StreamInfo → StreamRegistry → StreamRegistry
put_stream key info r = record r { streams = insert key info r.streams }

pub add_subscriber : StreamKey → ℕ → StreamRegistry → Reply
add_subscriber key sub r = elim (find key r.streams) [
  | none ↦ refused stream_not_found r
  | some info ↦
      if mem sub info.subscribers
      then refused subscriber_exists r
      else done (subscriber_joined key info.stream_id sub)
          (put_stream key (record info { subscribers = set_insert sub info.subscribers }) r)
]

pub remove_subscriber : StreamKey → ℕ → StreamRegistry → Reply
remove_subscriber key sub r = elim (find key r.streams) [
  | none ↦ refused stream_not_found r
  | some info ↦
      if mem sub info.subscribers
      then done (subscriber_left key info.stream_id sub)
          (put_stream key (record info { subscribers = set_erase sub info.subscribers }) r)
      else refused subscriber_not_found r
]

pub get_subscribers : StreamKey → StreamRegistry → List ℕ
get_subscribers key r = elim (find key r.streams) [ none ↦ [] | some info ↦ info.subscribers ]

pub get_subscriber_count : StreamKey → StreamRegistry → ℕ
get_subscriber_count key r = elim (find key r.streams) [
  | none ↦ 0
  | some info ↦ length info.subscribers
]

abbrev pub silent : StreamRegistry → Reply
silent r = record { error = none; events = []; after = r }

pub update_metadata : StreamKey → StreamMetadata → StreamRegistry → Reply
update_metadata key m r = elim (find key r.streams) [
  | none ↦ refused stream_not_found r
  | some info ↦ silent (put_stream key (record info { metadata = m }) r)
]

pub update_codec_info : StreamKey → CodecInfo → StreamRegistry → Reply
update_codec_info key c r = elim (find key r.streams) [
  | none ↦ refused stream_not_found r
  | some info ↦ silent (put_stream key (record info { codec_info = c }) r)
]

pub get_active_stream_count : StreamRegistry → ℕ
get_active_stream_count r = length r.streams

pub get_all_stream_keys : StreamRegistry → List StreamKey
get_all_stream_keys r = map (λ entry. entry.0) r.streams

pub set_event_callback : Bool → StreamRegistry → StreamRegistry
set_event_callback b r = record r { has_event_callback = b }

pub clear : StreamRegistry → StreamRegistry
clear r = record r { streams = []; stream_id_index = []; released_ids = []; next_stream_id = 1 }

-- A call that may change the registry.
pub data Call : Type 0 where
  allocates clears : Call
  releases : ℕ → Call
  registers : StreamKey → ℕ → ℕ → Call
  unregisters : StreamKey → Call
  adds_subscriber removes_subscriber : StreamKey → ℕ → Call
  updates_metadata : StreamKey → StreamMetadata → Call
  updates_codec_info : StreamKey → CodecInfo → Call

pub step : Call → StreamRegistry → Reply
step allocates r = silent (allocate_stream_id r).1
step clears r = silent (clear r)
step (releases id) r = silent (release_stream_id id r)
step (registers key id publisher) r = register_stream key id publisher r
step (unregisters key) r = unregister_stream key r
step (adds_subscriber key sub) r = add_subscriber key sub r
step (removes_subscriber key sub) r = remove_subscriber key sub r
step (updates_metadata key m) r = update_metadata key m r
step (updates_codec_info key c) r = update_codec_info key c r

pub run_calls : List Call → StreamRegistry → StreamRegistry
run_calls [] r = r
run_calls (c ∷ cs) r = run_calls cs (step c r).after
