-- ===== src/Tests/Streams.antt =====
-- A stream that is published, watched and ended.
use open_rtmp_claude_kiro.Common.{
  IsDistinct, List, [], arith, false, inl, inr, mem, none, refl, some, suc, true, ℕ, ◌↔◌, ◌∷◌, ◌≡◌,
  ◌≢◌,
}
use open_rtmp_claude_kiro.Common.Maps.{contains, find, nat_eq}
use open_rtmp_claude_kiro.Streaming.StreamRegistry.{
  Call, CodecInfo, StreamInfo, StreamRegistry, add_subscriber, allocate_stream_id, find_stream,
  find_stream_by_id, get_subscriber_count, has_stream, new_registry, new_stream_info, no_codec_info,
  publishing, refused, register_stream, registers, remove_subscriber, run_calls, stream_key_in_use,
  subscriber_exists, unregister_stream, unregisters,
}
use open_rtmp_claude_kiro.Streaming.StreamRegistry.Allocation.{
  run_acts, run_acts-AllDistinct, takes,
}
use open_rtmp_claude_kiro.Streaming.StreamRegistry.Lookup.{
  find_stream_by_id_iff, register_stream-unregister_stream,
}
use open_rtmp_claude_kiro.Streaming.StreamRegistry.Subscribers.{add_subscriber-remove_subscriber}
use open_rtmp_claude_kiro.Streaming.Types.{StreamKey, invalid_stream_id, stream_key_eq}

abbrev key : StreamKey
key = record { app = "live"; name = "a" }

abbrev codec : CodecInfo
codec = no_codec_info

abbrev stream : StreamInfo
stream = record {
  key = key;
  stream_id = 1;
  state = publishing;
  publisher_id = 7;
  subscribers = 4 ∷ [];
  codec_info = codec;
  metadata = record { title = ""; description = ""; custom_data = [] };
}

abbrev watched : StreamInfo
watched = record stream { subscribers = [] }

abbrev key2 : StreamKey
key2 = record { app = "live"; name = "b" }

abbrev key3 : StreamKey
key3 = record { app = "live"; name = "c" }

abbrev registry : StreamRegistry
registry = record {
  streams = (key, stream) ∷ [];
  stream_id_index = (1, key) ∷ [];
  next_stream_id = 2;
  released_ids = [];
  has_event_callback = true;
}

abbrev empty : StreamRegistry
empty = record {
  streams = [];
  stream_id_index = [];
  next_stream_id = 1;
  released_ids = [];
  has_event_callback = false;
}

-- Two other streams share the identifier 2, which is allowed.
abbrev calls : List Call
calls = registers key 1 7 ∷ registers key2 2 8 ∷ registers key3 2 8 ∷ unregisters key2 ∷ []

find_stream_by_id_iff_example :
    (find_stream_by_id 1 (run_calls calls new_registry) ≡ some watched)
    ↔ ((find_stream key (run_calls calls new_registry) ≡ some watched) × (watched.stream_id ≡ 1))
unfolding new_registry find
find_stream_by_id_iff_example =
    find_stream_by_id_iff calls 1 watched
      (inr refl, (inl (omega arith), (inl (omega arith), (tt, tt))))

run_acts-AllDistinct_example :
    let s = run_acts (takes ∷ takes ∷ []) ([], new_registry) in
    IsDistinct s.0
    × ((x : ℕ) → mem x s.0 ≡ true → x ≢ invalid_stream_id)
    × (mem (allocate_stream_id s.1).0 s.0 ≡ false)
run_acts-AllDistinct_example =
    run_acts-AllDistinct (takes ∷ takes ∷ []) (tt, (tt, tt)) (omega arith)

register_stream-unregister_stream_example :
    let s = (register_stream key 1 7 empty).after in
    (find_stream key s ≡ some (new_stream_info key 1 7))
    × (register_stream key 2 8 s ≡ refused stream_key_in_use s)
    × ((unregister_stream key s).error ≡ none)
    × ((j : StreamKey) → find_stream j (unregister_stream key s).after ≡ find_stream j empty)
unfolding has_stream contains
register_stream-unregister_stream_example = register_stream-unregister_stream key 1 2 7 8 empty refl

add_subscriber-remove_subscriber_example :
    let s = (add_subscriber key 5 registry).after in
    ((add_subscriber key 5 registry).error ≡ none)
    × (get_subscriber_count key s ≡ suc (get_subscriber_count key registry))
    × (add_subscriber key 5 s ≡ refused subscriber_exists s)
    × ((remove_subscriber key 5 s).error ≡ none)
    × ((j : StreamKey) → find_stream j (remove_subscriber key 5 s).after ≡ find_stream j registry)
unfolding find_stream find mem
add_subscriber-remove_subscriber_example =
    add_subscriber-remove_subscriber key 5 stream registry refl refl
