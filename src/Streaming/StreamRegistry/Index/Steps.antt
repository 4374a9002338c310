-- ===== src/Streaming/StreamRegistry/Index/Steps.antt =====
-- The two maps of the registry under each of its calls.
use open_rtmp_claude_kiro.Common.{
  Bool-cases, Option-cases, arith, inl, inr, mem, none, refl, sym, ℕ, ◌==◌, ◌≡◌, ◌≢◌, ◌⊎◌,
}
use open_rtmp_claude_kiro.Common.Maps.{find, nat_eq}
use open_rtmp_claude_kiro.Streaming.StreamRegistry.{
  Call, StreamRegistry, add_subscriber, adds_subscriber, allocate_stream_id, allocates, clear,
  clears, registers, release_stream_id, releases, remove_subscriber, removes_subscriber, step,
  unregister_stream, unregisters, update_codec_info, update_metadata, updates_codec_info,
  updates_metadata,
}
use open_rtmp_claude_kiro.Streaming.StreamRegistry.Index.{
  IsIndexed, empty-IsIndexed, erase-IsIndexed, put_stream-IsIndexed, register_stream-IsIndexed,
  same-IsIndexed,
}
use open_rtmp_claude_kiro.Streaming.Types.{StreamKey, invalid_stream_id, stream_key_eq}

unregister_stream-IsIndexed :
    (id : ℕ) (key : StreamKey) (r : StreamRegistry)
    → IsIndexed id r
    → IsIndexed id (unregister_stream key r).after
unfolding unregister_stream
unregister_stream-IsIndexed id key r v = elim (Option-cases (find key r.streams)) [
  | inl n ↦ rw (n, unregister_stream) v
  | inr (info, h) ↦ rw (h, unregister_stream) (erase-IsIndexed id key info r h v)
]

-- An operation that replaces the entry of a key, or refuses.
add_subscriber-IsIndexed :
    (id : ℕ) (key : StreamKey) (sub : ℕ) (r : StreamRegistry)
    → IsIndexed id r
    → IsIndexed id (add_subscriber key sub r).after
unfolding add_subscriber
add_subscriber-IsIndexed id key sub r v = elim (Option-cases (find key r.streams)) [
  | inl n ↦ rw (n, add_subscriber) v
  | inr (info, h) ↦
      rw (h, add_subscriber)
        (elim (Bool-cases (mem sub info.subscribers)) [
          | inl c ↦ rw (c) v
          | inr c ↦ rw (c) (put_stream-IsIndexed id key info _ r h refl refl v)
        ])
]

remove_subscriber-IsIndexed :
    (id : ℕ) (key : StreamKey) (sub : ℕ) (r : StreamRegistry)
    → IsIndexed id r
    → IsIndexed id (remove_subscriber key sub r).after
unfolding remove_subscriber
remove_subscriber-IsIndexed id key sub r v = elim (Option-cases (find key r.streams)) [
  | inl n ↦ rw (n, remove_subscriber) v
  | inr (info, h) ↦
      rw (h, remove_subscriber)
        (elim (Bool-cases (mem sub info.subscribers)) [
          | inl c ↦ rw (c) (put_stream-IsIndexed id key info _ r h refl refl v)
          | inr c ↦ rw (c) v
        ])
]

allocate-same :
    (r : StreamRegistry)
    → ((allocate_stream_id r).1.streams ≡ r.streams)
      × ((allocate_stream_id r).1.stream_id_index ≡ r.stream_id_index)
unfolding allocate_stream_id
allocate-same r = ground arith

-- A call does not register a stream under the identifier `id` while the index has it.
abbrev pub IsFresh : ℕ → Call → StreamRegistry → Type 0
IsFresh id (registers key n publisher) r = (n ≢ id) ⊎ (find n r.stream_id_index ≡ none)
IsFresh id _ r = Unit {0}

pub step-IsIndexed :
    (id : ℕ) (c : Call) (r : StreamRegistry)
    → IsFresh id c r
    → IsIndexed id r
    → IsIndexed id (step c r).after
unfolding step clear allocate_stream_id release_stream_id update_metadata update_codec_info
step-IsIndexed id allocates r o v =
    same-IsIndexed id r _ (sym (allocate-same r).0) (sym (allocate-same r).1) v
step-IsIndexed id clears r o v = empty-IsIndexed id _ refl refl
step-IsIndexed id (releases n) r o v = elim (Bool-cases (n == invalid_stream_id)) [
  | inl c ↦ rw (c) v
  | inr c ↦ rw (c) (same-IsIndexed id r _ refl refl v)
]
step-IsIndexed id (registers key n publisher) r o v =
    register_stream-IsIndexed id key n publisher r o v
step-IsIndexed id (unregisters key) r o v = unregister_stream-IsIndexed id key r v
step-IsIndexed id (adds_subscriber key sub) r o v = add_subscriber-IsIndexed id key sub r v
step-IsIndexed id (removes_subscriber key sub) r o v = remove_subscriber-IsIndexed id key sub r v
step-IsIndexed id (updates_metadata key m) r o v = elim (Option-cases (find key r.streams)) [
  | inl n ↦ rw (n, update_metadata) v
  | inr (info, h) ↦ rw (h, update_metadata) (put_stream-IsIndexed id key info _ r h refl refl v)
]
step-IsIndexed id (updates_codec_info key c) r o v = elim (Option-cases (find key r.streams)) [
  | inl n ↦ rw (n, update_codec_info) v
  | inr (info, h) ↦ rw (h, update_codec_info) (put_stream-IsIndexed id key info _ r h refl refl v)
]
