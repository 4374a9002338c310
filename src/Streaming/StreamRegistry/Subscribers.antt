-- ===== src/Streaming/StreamRegistry/Subscribers.antt =====
-- The subscribers of a stream.
use open_rtmp_claude_kiro.Common.{
  false, length, length-set_insert, mem, mem-set_insert_self, none, refl, set_erase,
  set_erase-set_insert, set_insert, some, suc, true, ℕ, ◌≡◌,
}
use open_rtmp_claude_kiro.Common.Maps.{find, find-insert-insert, find-insert_self, nat_eq}
use open_rtmp_claude_kiro.Streaming.StreamRegistry.{
  StreamInfo, StreamRegistry, add_subscriber, done, find_stream, get_subscriber_count, put_stream,
  refused, remove_subscriber, subscriber_exists, subscriber_joined, subscriber_left,
}
use open_rtmp_claude_kiro.Streaming.Types.{StreamKey, stream_key_eq}

abbrev joined : StreamKey → ℕ → StreamInfo → StreamRegistry → StreamRegistry
joined key sub info r =
    put_stream key (record info { subscribers = set_insert sub info.subscribers }) r

add_subscriber-new :
    (key : StreamKey) (sub : ℕ) (info : StreamInfo) (r : StreamRegistry)
    → find key r.streams ≡ some info
    → mem sub info.subscribers ≡ false
    → add_subscriber key sub r
      ≡ done (subscriber_joined key info.stream_id sub) (joined key sub info r)
unfolding add_subscriber
add_subscriber-new key sub info r h n = rw (h, n, add_subscriber) refl

add_subscriber-old :
    (key : StreamKey) (sub : ℕ) (info : StreamInfo) (r : StreamRegistry)
    → find key r.streams ≡ some info
    → mem sub info.subscribers ≡ true
    → add_subscriber key sub r ≡ refused subscriber_exists r
unfolding add_subscriber
add_subscriber-old key sub info r h n = rw (h, n, add_subscriber) refl

remove_subscriber-old :
    (key : StreamKey) (sub : ℕ) (info : StreamInfo) (r : StreamRegistry)
    → find key r.streams ≡ some info
    → mem sub info.subscribers ≡ true
    → remove_subscriber key sub r
      ≡ done
          (subscriber_left key info.stream_id sub)
          (put_stream key (record info { subscribers = set_erase sub info.subscribers }) r)
unfolding remove_subscriber
remove_subscriber-old key sub info r h n = rw (h, n, remove_subscriber) refl

get_subscriber_count-found :
    (key : StreamKey) (info : StreamInfo) (r : StreamRegistry)
    → find key r.streams ≡ some info
    → get_subscriber_count key r ≡ length info.subscribers
unfolding get_subscriber_count
get_subscriber_count-found key info r h = rw (h, get_subscriber_count) refl

-- A subscriber who joins a stream it is not a member of is counted once and is refused a second
-- time; when it leaves, the registry finds the streams it found before it joined.
pub add_subscriber-remove_subscriber :
    (key : StreamKey) (sub : ℕ) (info : StreamInfo) (r : StreamRegistry)
    → find_stream key r ≡ some info
    → mem sub info.subscribers ≡ false
    → let s = (add_subscriber key sub r).after in
      ((add_subscriber key sub r).error ≡ none)
      × (get_subscriber_count key s ≡ suc (get_subscriber_count key r))
      × (add_subscriber key sub s ≡ refused subscriber_exists s)
      × ((remove_subscriber key sub s).error ≡ none)
      × ((j : StreamKey) → find_stream j (remove_subscriber key sub s).after ≡ find_stream j r)
unfolding find_stream
add_subscriber-remove_subscriber key sub info r h n =
    let new : StreamInfo = record info { subscribers = set_insert sub info.subscribers } in
    let f = find-insert_self key new r.streams in
    let m = mem-set_insert_self sub info.subscribers in
    let t = joined key sub info r in
    rw
      (
        add_subscriber-new key sub info r h n,
        remove_subscriber-old key sub new t f m,
        set_erase-set_insert sub info.subscribers n,
        get_subscriber_count-found key new t f,
        get_subscriber_count-found key info r h,
      )
      (
        refl,
        length-set_insert sub info.subscribers n,
        add_subscriber-old key sub new t f m,
        refl,
        λ j. find-insert-insert key j info new r.streams h,
      )
