-- ===== src/Streaming/SubscriberBufferManager/Runs.antt =====
-- Every subscriber's buffer keeps what holds of a buffer between its operations.
use open_rtmp_claude_kiro.Common.{
  Bool, Bool-cases, List, Option-cases, [], false, inl, inr, map-eq-some, none, refl, some, subst,
  sym, true, ℕ, ◌==◌, ◌∙◌, ◌∷◌, ◌≡◌,
}
use open_rtmp_claude_kiro.Common.Maps.{erase, find, find-erase-inv, find-insert-inv, insert, nat_eq}
use open_rtmp_claude_kiro.Streaming.Frames.{BufferedFrame}
use open_rtmp_claude_kiro.Streaming.SubscriberBuffer.{
  SubscriberBuffer, SubscriberBufferConfig, default_config,
}
use open_rtmp_claude_kiro.Streaming.SubscriberBuffer.Runs.{
  IsSound, Operation, apply, apply-IsSound, do_pop, do_push, do_set_callback, do_set_config,
  run-IsSound,
}
use open_rtmp_claude_kiro.Streaming.SubscriberBufferManager.{
  SubscriberBufferManager, add_subscriber, add_subscriber_with, distribute_to_all, pop_from,
  push_to, remove_subscriber, set_callback, set_callbacks, set_default_config,
  set_subscriber_config, store,
}
use open_rtmp_claude_kiro.Streaming.SubscriberBufferManager.Distribution.{find-distribute_to_all}
use open_rtmp_claude_kiro.Streaming.SubscriberBuffer
use mathlib.Core.Option

pub data ManagerOperation : Type 0 where
  do_add_subscriber do_remove_subscriber do_pop_from : ℕ → ManagerOperation
  do_add_subscriber_with : ℕ → SubscriberBufferConfig → ManagerOperation
  do_push_to : ℕ → ℕ → BufferedFrame → ManagerOperation
  do_distribute_to_all : ℕ → BufferedFrame → ManagerOperation
  do_set_subscriber_config : ℕ → ℕ → SubscriberBufferConfig → ManagerOperation
  do_set_default_config : SubscriberBufferConfig → ManagerOperation
  do_set_manager_callback : Bool → ManagerOperation

unfoldable pub apply_to_manager :
    ManagerOperation → SubscriberBufferManager → SubscriberBufferManager
apply_to_manager (do_add_subscriber id) m = add_subscriber id m
apply_to_manager (do_remove_subscriber id) m = remove_subscriber id m
apply_to_manager (do_pop_from id) m = (pop_from id m).1
apply_to_manager (do_add_subscriber_with id config) m = add_subscriber_with id config m
apply_to_manager (do_push_to now id f) m = (push_to now id f m).0
apply_to_manager (do_distribute_to_all now f) m = (distribute_to_all now f m).0
apply_to_manager (do_set_subscriber_config now id config) m =
    (set_subscriber_config now id config m).0
apply_to_manager (do_set_default_config config) m = set_default_config config m
apply_to_manager (do_set_manager_callback callback) m = set_callback callback m

unfoldable pub run_manager :
    List ManagerOperation → SubscriberBufferManager → SubscriberBufferManager
run_manager [] m = m
run_manager (o ∷ os) m = run_manager os (apply_to_manager o m)

abbrev pub AllSound : List (ℕ × SubscriberBuffer) → Type 0
AllSound bs = (id : ℕ) (b : SubscriberBuffer) → find id bs ≡ some b → IsSound b

insert-AllSound :
    (k : ℕ) (v : SubscriberBuffer) (bs : List (ℕ × SubscriberBuffer))
    → IsSound v
    → AllSound bs
    → AllSound (insert k v bs)
insert-AllSound k v bs s h id b e = elim (find-insert-inv k id bs e) [
  | inl q ↦ subst IsSound q.1 s
  | inr q ↦ h id b q.1
]

erase-AllSound : (k : ℕ) (bs : List (ℕ × SubscriberBuffer)) → AllSound bs → AllSound (erase k bs)
erase-AllSound k bs h id b e = h id b (find-erase-inv k id bs e).1

-- A change of every buffer by one operation.
mapped-AllSound :
    (o : Operation) (bs cs : List (ℕ × SubscriberBuffer))
    → ((id : ℕ) → find id cs ≡ Option.map (apply o) (find id bs))
    → AllSound bs
    → AllSound cs
mapped-AllSound o bs cs same h id c e =
    let (b, found, changed) = map-eq-some (apply o) (find id bs) (sym (same id) ∙ e) in
    subst IsSound (sym changed) (apply-IsSound o b (h id b found))

find-set_callbacks :
    (bs : List (ℕ × SubscriberBuffer)) (id : ℕ)
    → find id (set_callbacks bs) ≡ Option.map (apply (do_set_callback true)) (find id bs)
unfolding find set_callbacks apply
find-set_callbacks [] id = refl
find-set_callbacks ((j, b) ∷ bs) id = elim (Bool-cases (j == id)) [
  | inl e ↦ rw (e) refl
  | inr e ↦ rw (e) (find-set_callbacks bs id)
]

-- A change of one subscriber's buffer, if it is there.
one-AllSound :
    (id : ℕ) (m : SubscriberBufferManager) (next : List (ℕ × SubscriberBuffer)) (o : Operation)
    → (find id m.buffers ≡ none → next ≡ m.buffers)
    → ((b : SubscriberBuffer) → find id m.buffers ≡ some b → next ≡ insert id (apply o b) m.buffers)
    → AllSound m.buffers
    → AllSound next
one-AllSound id m next o absent present h = elim (Option-cases (find id m.buffers)) [
  | inl e ↦ subst AllSound (sym (absent e)) h
  | inr (b, e) ↦
      subst AllSound (sym (present b e))
        (insert-AllSound id (apply o b) m.buffers (apply-IsSound o b (h id b e)) h)
]

-- The buffer that a subscriber is added with.
added-IsSound :
    (callback : Bool) (config : SubscriberBufferConfig)
    → IsSound (
        SubscriberBuffer.set_on_frame_dropped_callback callback
          (SubscriberBuffer.new_buffer config))
unfolding SubscriberBuffer.Runs.run SubscriberBuffer.Runs.apply
added-IsSound callback config = run-IsSound config (do_set_callback callback ∷ [])

push_to-AllSound :
    (now id : ℕ) (f : BufferedFrame) (m : SubscriberBufferManager)
    → AllSound m.buffers
    → AllSound (push_to now id f m).0.buffers
unfolding push_to store SubscriberBuffer.Runs.apply
push_to-AllSound now id f m h =
    one-AllSound id m (push_to now id f m).0.buffers (do_push now f) (λ e. rw (e, push_to) refl)
      (λ b e. rw (e, push_to) refl) h

pop_from-AllSound :
    (id : ℕ) (m : SubscriberBufferManager) → AllSound m.buffers → AllSound (pop_from id m).1.buffers
unfolding pop_from SubscriberBuffer.Runs.apply
pop_from-AllSound id m h =
    one-AllSound id m (pop_from id m).1.buffers do_pop (λ e. rw (e, pop_from) refl)
      (λ b e. rw (e, pop_from) refl) h

set_config-AllSound :
    (now id : ℕ) (config : SubscriberBufferConfig) (m : SubscriberBufferManager)
    → AllSound m.buffers
    → AllSound (set_subscriber_config now id config m).0.buffers
unfolding set_subscriber_config store SubscriberBuffer.Runs.apply
set_config-AllSound now id config m h =
    one-AllSound id m (set_subscriber_config now id config m).0.buffers (do_set_config now config)
      (λ e. rw (e, set_subscriber_config) refl) (λ b e. rw (e, set_subscriber_config) refl) h

distribute-AllSound :
    (now : ℕ) (f : BufferedFrame) (m : SubscriberBufferManager)
    → AllSound m.buffers
    → AllSound (distribute_to_all now f m).0.buffers
unfolding SubscriberBuffer.Runs.apply
distribute-AllSound now f m h =
    mapped-AllSound (do_push now f) m.buffers (distribute_to_all now f m).0.buffers
      (find-distribute_to_all now f m) h

apply_to_manager-AllSound :
    (o : ManagerOperation) (m : SubscriberBufferManager)
    → AllSound m.buffers
    → AllSound (apply_to_manager o m).buffers
unfolding apply_to_manager add_subscriber add_subscriber_with remove_subscriber set_default_config
    set_callback
apply_to_manager-AllSound (do_add_subscriber id) m h =
    insert-AllSound id _ m.buffers (added-IsSound m.has_callback m.default_config) h
apply_to_manager-AllSound (do_remove_subscriber id) m h = erase-AllSound id m.buffers h
apply_to_manager-AllSound (do_pop_from id) m h = pop_from-AllSound id m h
apply_to_manager-AllSound (do_add_subscriber_with id config) m h =
    insert-AllSound id _ m.buffers (added-IsSound m.has_callback config) h
apply_to_manager-AllSound (do_push_to now id f) m h = push_to-AllSound now id f m h
apply_to_manager-AllSound (do_distribute_to_all now f) m h = distribute-AllSound now f m h
apply_to_manager-AllSound (do_set_subscriber_config now id config) m h =
    set_config-AllSound now id config m h
apply_to_manager-AllSound (do_set_default_config config) m h = h
apply_to_manager-AllSound (do_set_manager_callback callback) m h =
    mapped-AllSound (do_set_callback true) m.buffers (set_callbacks m.buffers)
      (find-set_callbacks m.buffers) h

run_manager-keeps :
    (os : List ManagerOperation) (m : SubscriberBufferManager)
    → AllSound m.buffers
    → AllSound (run_manager os m).buffers
unfolding run_manager
run_manager-keeps [] m h = h
run_manager-keeps (o ∷ os) m h =
    run_manager-keeps os (apply_to_manager o m) (apply_to_manager-AllSound o m h)

unfoldable pub new_manager : SubscriberBufferManager
new_manager = record { buffers = []; default_config = default_config; has_callback = false }

-- After any operations of a new manager the buffer of each subscriber counts, in 64 bits, the bytes
-- of the frames that it holds and no dropped keyframe, and is within its duration, or holds at most
-- one frame, or none that may be dropped.
pub run_manager-IsSound :
    (os : List ManagerOperation) (id : ℕ) (b : SubscriberBuffer)
    → find id (run_manager os new_manager).buffers ≡ some b
    → IsSound b
unfolding new_manager find
run_manager-IsSound os = run_manager-keeps os new_manager (λ id b e. absurd cc)
