-- ===== src/Streaming/StreamRegistry/Lookup.antt =====
-- What the lookups find after a sequence of calls, and what registering and unregistering do to them.
use open_rtmp_claude_kiro.Common.{
  List, Option-cases, [], ap, arith, false, inl, inr, none, refl, some, sym, true, ℕ, ◌↔◌, ◌∙◌, ◌∷◌,
  ◌≡◌, ◌≢◌,
}
use open_rtmp_claude_kiro.Common.Maps.{
  beq_false, contains, contains-find-none, contains-insert_self, emplace, erase, find,
  find-emplace_absent, find-emplace_present, find-erase-insert, find-erase_other, find-erase_self,
  find-insert_other, find-insert_self, find-none-contains, insert, nat_eq,
}
use open_rtmp_claude_kiro.Streaming.StreamRegistry.{
  Call, StreamInfo, StreamRegistry, find_stream, find_stream_by_id, has_stream, new_registry,
  new_stream_info, refused, register_stream, run_calls, step, stream_key_in_use, unregister_stream,
}
use open_rtmp_claude_kiro.Streaming.StreamRegistry.Index.{IsIndexed, empty-IsIndexed}
use open_rtmp_claude_kiro.Streaming.StreamRegistry.Index.Steps.{IsFresh, step-IsIndexed}
use open_rtmp_claude_kiro.Streaming.Types.{StreamKey, stream_key_eq}

-- No registration among the calls is under the identifier `id` while the index has it.
abbrev pub AllFresh : ℕ → List Call → StreamRegistry → Type 0
AllFresh id [] r = Unit {0}
AllFresh id (c ∷ cs) r = IsFresh id c r × AllFresh id cs (step c r).after

run_calls-IsIndexed :
    (id : ℕ) (cs : List Call) (r : StreamRegistry)
    → AllFresh id cs r
    → IsIndexed id r
    → IsIndexed id (run_calls cs r)
unfolding run_calls
run_calls-IsIndexed id [] r o v = v
run_calls-IsIndexed id (c ∷ cs) r (o, os) v =
    run_calls-IsIndexed id cs (step c r).after os (step-IsIndexed id c r o v)

find_stream_by_id-unlisted :
    (id : ℕ) (r : StreamRegistry) → find id r.stream_id_index ≡ none → find_stream_by_id id r ≡ none
unfolding find_stream_by_id
find_stream_by_id-unlisted id r h = rw (h, find_stream_by_id) refl

find_stream_by_id_lem :
    (id : ℕ) (info : StreamInfo) (r : StreamRegistry)
    → IsIndexed id r
    → (find_stream_by_id id r ≡ some info)
      ↔ ((find_stream info.key r ≡ some info) × (info.stream_id ≡ id))
unfolding find_stream_by_id find_stream
find_stream_by_id_lem id info r v = (
  λ e. elim (Option-cases (find id r.stream_id_index)) [
    | inl n ↦ ground (arith, n)
    | inr (key, h) ↦ ground (arith, h, v.listed id key h, v.named key info)
  ],
  λ (f, e). ground (arith, v.owned info.key info f e),
)

-- After any calls on a new registry of which none registers a stream under the identifier `id` while
-- the index has an entry for it, looking a stream up by `id` finds exactly the stream that is stored
-- under its own key and has that identifier. Other identifiers may be shared.
pub find_stream_by_id_iff :
    (cs : List Call) (id : ℕ) (info : StreamInfo)
    → AllFresh id cs new_registry
    → (find_stream_by_id id (run_calls cs new_registry) ≡ some info)
      ↔ ((find_stream info.key (run_calls cs new_registry) ≡ some info) × (info.stream_id ≡ id))
unfolding new_registry
find_stream_by_id_iff cs id info o =
    find_stream_by_id_lem id info _ (run_calls-IsIndexed id cs _ o (empty-IsIndexed id _ refl refl))

abbrev registered : StreamKey → ℕ → ℕ → StreamRegistry → StreamRegistry
registered key id publisher r = record r {
  streams = insert key (new_stream_info key id publisher) r.streams;
  stream_id_index = emplace id key r.stream_id_index;
}

register_stream-free :
    (key : StreamKey) (id publisher : ℕ) (r : StreamRegistry)
    → contains key r.streams ≡ false
    → (register_stream key id publisher r).after ≡ registered key id publisher r
unfolding register_stream emplace
register_stream-free key id publisher r h = rw (h) refl

register_stream-error :
    (key : StreamKey) (id publisher : ℕ) (r : StreamRegistry)
    → contains key r.streams ≡ false
    → (register_stream key id publisher r).error ≡ none
unfolding register_stream
register_stream-error key id publisher r h = rw (h) refl

register_stream-taken :
    (key : StreamKey) (id publisher : ℕ) (r : StreamRegistry)
    → contains key r.streams ≡ true
    → register_stream key id publisher r ≡ refused stream_key_in_use r
unfolding register_stream
register_stream-taken key id publisher r h = rw (h) refl

unregister_stream-found :
    (key : StreamKey) (info : StreamInfo) (r : StreamRegistry)
    → find key r.streams ≡ some info
    → ((unregister_stream key r).error ≡ none)
      × ((unregister_stream key r).after.streams ≡ erase key r.streams)
      × ((unregister_stream key r).after.stream_id_index ≡ erase info.stream_id r.stream_id_index)
unfolding unregister_stream
unregister_stream-found key info r h = ground (arith, h)

-- A key that is registered is refused to a second publisher, and the registry stays as it is;
-- a free key is registered, and unregistering it brings every lookup by key back.
pub register_stream-unregister_stream :
    (key : StreamKey) (id id2 publisher publisher2 : ℕ) (r : StreamRegistry)
    → has_stream key r ≡ false
    → let s = (register_stream key id publisher r).after in
      (find_stream key s ≡ some (new_stream_info key id publisher))
      × (register_stream key id2 publisher2 s ≡ refused stream_key_in_use s)
      × ((unregister_stream key s).error ≡ none)
      × ((j : StreamKey) → find_stream j (unregister_stream key s).after ≡ find_stream j r)
unfolding find_stream has_stream
register_stream-unregister_stream key id id2 publisher publisher2 r h =
    let info = new_stream_info key id publisher in
    let a = find-insert_self key info r.streams in
    let u = unregister_stream-found key info (registered key id publisher r) a in
    rw (register_stream-free key id publisher r h) (
      a,
      register_stream-taken key id2 publisher2 _ (contains-insert_self key info r.streams),
      u.0,
      λ j.
          ap (find j) u.1
          ∙ find-erase-insert key j info r.streams (contains-find-none key r.streams h),
    )

-- Two keys that no stream has, registered one after the other under one identifier that the index
-- does not have: both registrations succeed and both streams are stored, the identifier leads to the
-- first, and when the first is unregistered it leads to none, though the second is stored.
shared_id_hides_stream :
    (key key2 : StreamKey) (id publisher publisher2 : ℕ) (r : StreamRegistry)
    → key ≢ key2
    → find key r.streams ≡ none
    → find key2 r.streams ≡ none
    → find id r.stream_id_index ≡ none
    → let s = (register_stream key id publisher r).after in
      let t = (register_stream key2 id publisher2 s).after in
      let u = (unregister_stream key t).after in
      ((register_stream key2 id publisher2 s).error ≡ none)
      × (find_stream_by_id id t ≡ some (new_stream_info key id publisher))
      × (find_stream key2 u ≡ some (new_stream_info key2 id publisher2))
      × (find_stream_by_id id u ≡ none)
unfolding find_stream find_stream_by_id new_stream_info
shared_id_hides_stream key key2 id publisher publisher2 r n a b c =
    let info = new_stream_info key id publisher in
    let info2 = new_stream_info key2 id publisher2 in
    let s = registered key id publisher r in
    let t = registered key2 id publisher2 s in
    let apart : find key2 s.streams ≡ none =
      find-insert_other key key2 info r.streams (beq_false key key2 n) ∙ b in
    let taken : contains key2 s.streams ≡ false = find-none-contains key2 s.streams apart in
    let first : find key t.streams ≡ some info =
      find-insert_other key2 key info2 s.streams (beq_false key2 key (λ e. n (sym e)))
      ∙ find-insert_self key info r.streams in
    let leads : find id t.stream_id_index ≡ some key =
      find-emplace_present id id key2 s.stream_id_index
        (find-emplace_absent id key r.stream_id_index c) in
    let u = unregister_stream-found key info t first in
    rw
      (
        register_stream-free key id publisher r (find-none-contains key r.streams a),
        register_stream-free key2 id publisher2 s taken,
      )
      (
        register_stream-error key2 id publisher2 s taken,
        rw (leads, find_stream_by_id) first,
        rw (u.1) (
            find-erase_other key key2 t.streams (beq_false key key2 n)
            ∙ find-insert_self key2 info2 s.streams),
        find_stream_by_id-unlisted id (unregister_stream key t).after
            (ap (find id) u.2 ∙ find-erase_self id t.stream_id_index),
      )
