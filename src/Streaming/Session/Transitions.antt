-- ===== src/Streaming/Session/Transitions.antt =====
-- The session as a state machine: the paths that its callback can see.
use open_rtmp_claude_kiro.Common.{List, [], ap, arith, refl, true, ℕ, ◌++◌, ◌∙◌, ◌∷◌, ◌≡◌, ◌⊎◌}
use open_rtmp_claude_kiro.Streaming.Session.{
  Call, Change, Session, SessionState, Use, complete_handshake, disconnect, disconnected,
  is_valid_transition, perform_disconnect_cleanup, release_allocated_stream_id, run_calls, run_uses,
  set_allocated_stream_id, set_app_name, set_authenticated, set_client_info,
  set_state_change_callback, start_handshake, start_handshakes, start_publishing, start_subscribing,
  step, stop_publishing, stop_subscribing, succeeded, transits, use_step,
}
use open_rtmp_claude_kiro.Streaming.Types.{invalid_stream_id, no_key}

-- A path in the transition table, from one state to another.
abbrev pub IsPath : SessionState → List Change → SessionState → Type 0
IsPath from [] to = from ≡ to
IsPath from ((old, new) ∷ more) to =
    (old ≡ from) × (is_valid_transition old new ≡ true) × IsPath new more to

IsPath-append :
    (xs ys : List Change) (a b c : SessionState)
    → IsPath a xs b
    → IsPath b ys c
    → IsPath a (xs ++ ys) c
IsPath-append [] ys a b c e p = rw e p
IsPath-append ((old, new) ∷ xs) ys a b c (e, v, q) p = (e, v, IsPath-append xs ys new b c q p)

step-IsPath :
    (c : Call) (s : Session)
    → s.has_callback ≡ true
    → IsPath s.state (step c s).changes (step c s).after.state
      × ((step c s).after.has_callback ≡ true)
unfolding step start_handshake complete_handshake start_publishing stop_publishing start_subscribing
    stop_subscribing disconnect is_valid_transition
step-IsPath (start_handshakes now) s h = ground arith
step-IsPath c s h = ground arith

-- With a callback set, the changes that it is told of in any sequence of calls form one path in the
-- transition table, from the state before to the state after: each starts where the last one ended.
pub run_calls-IsPath :
    (cs : List Call) (s : Session)
    → s.has_callback ≡ true
    → IsPath s.state (run_calls cs s).0 (run_calls cs s).1.state
unfolding run_calls
run_calls-IsPath [] s h = refl
run_calls-IsPath (c ∷ cs) s h =
    let (p, k) = step-IsPath c s h in
    IsPath-append (step c s).changes (run_calls cs (step c s).after).0 s.state
      (step c s).after.state (run_calls cs (step c s).after).1.state p
      (run_calls-IsPath cs (step c s).after k)

step-disconnected :
    (c : Call) (s : Session)
    → s.state ≡ disconnected
    → ((step c s).changes ≡ []) × ((step c s).after ≡ s)
unfolding step start_handshake complete_handshake start_publishing stop_publishing start_subscribing
    stop_subscribing disconnect is_valid_transition
step-disconnected (start_handshakes now) s h = ground arith
step-disconnected c s h = ground arith

run_calls-disconnected :
    (cs : List Call) (s : Session) → s.state ≡ disconnected → run_calls cs s ≡ ([], s)
unfolding run_calls
run_calls-disconnected [] s h = refl
run_calls-disconnected (c ∷ cs) s h =
    let (e, f) = step-disconnected c s h in rw (e, f) (rw (run_calls-disconnected cs s h) refl)

disconnect-state :
    (now : ℕ) (s : Session)
    → ((disconnect now s).outcome ≡ succeeded) × ((disconnect now s).after.state ≡ disconnected)
unfolding disconnect
disconnect-state now s = ground arith

use_step-disconnected :
    (u : Use) (s : Session)
    → s.state ≡ disconnected
    → ((use_step u s).0 ≡ [])
      × ((use_step u s).1.state ≡ disconnected)
      × ((use_step u s).1.stream_key ≡ s.stream_key)
      × ((use_step u s).1.stream_id ≡ s.stream_id)
unfolding use_step set_app_name set_allocated_stream_id release_allocated_stream_id
    set_authenticated set_state_change_callback set_client_info
use_step-disconnected (transits c) s h =
    let (e, f) = step-disconnected c s h in
    (e, ap Session.state f ∙ h, ap Session.stream_key f, ap Session.stream_id f)
use_step-disconnected u s h = ground arith

run_uses-disconnected :
    (us : List Use) (s : Session)
    → s.state ≡ disconnected
    → ((run_uses us s).0 ≡ [])
      × ((run_uses us s).1.state ≡ disconnected)
      × ((run_uses us s).1.stream_key ≡ s.stream_key)
      × ((run_uses us s).1.stream_id ≡ s.stream_id)
unfolding run_uses
run_uses-disconnected [] s h = (refl, h, refl, refl)
run_uses-disconnected (u ∷ us) s h =
    let (e, k, n, i) = use_step-disconnected u s h in
    let (f, l, o, j) = run_uses-disconnected us (use_step u s).1 k in
    (rw (e, f) refl, l, o ∙ n, j ∙ i)

disconnect-clears :
    (now : ℕ) (s : Session)
    → ((s.state ≡ disconnected) × ((disconnect now s).after ≡ s))
      ⊎ (((disconnect now s).after.stream_key ≡ no_key)
          × ((disconnect now s).after.stream_id ≡ invalid_stream_id))
unfolding disconnect perform_disconnect_cleanup
disconnect-clears now s = ground arith

-- `disconnect` never fails and leaves the session disconnected: as it was if it was disconnected
-- already, and with the stream key and identifier cleared if not. None of the seven transitions, in
-- any sequence, changes the session after that. In any sequence of transitions and setters the
-- callback is told nothing more, and the session keeps its state, stream key and stream identifier;
-- setters may change its other fields.
pub disconnected_for_good :
    (s : Session) (now : ℕ) (cs : List Call) (us : List Use)
    → let d = (disconnect now s).after in
      ((disconnect now s).outcome ≡ succeeded)
      × (d.state ≡ disconnected)
      × (((s.state ≡ disconnected) × (d ≡ s))
          ⊎ ((d.stream_key ≡ no_key) × (d.stream_id ≡ invalid_stream_id)))
      × (run_calls cs d ≡ ([], d))
      × ((run_uses us d).0 ≡ [])
      × ((run_uses us d).1.state ≡ disconnected)
      × ((run_uses us d).1.stream_key ≡ d.stream_key)
      × ((run_uses us d).1.stream_id ≡ d.stream_id)
disconnected_for_good s now cs us =
    let (a, b) = disconnect-state now s in
    let (e, f, k, i) = run_uses-disconnected us (disconnect now s).after b in
    (
      a,
      b,
      disconnect-clears now s,
      run_calls-disconnected cs (disconnect now s).after b,
      e,
      f,
      k,
      i,
    )
