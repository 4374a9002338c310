-- ===== src/Streaming/Session/StreamInfo.antt =====
-- The stream key and the stream identifier of a session.
use open_rtmp_claude_kiro.Common.{List, [], arith, false, true, ℕ, ◌∷◌, ◌≡◌, ◌≢◌, ◌⊎◌}
use open_rtmp_claude_kiro.Streaming.Session.{
  Call, Session, complete_handshake, complete_handshakes, connected, disconnect, has_active_stream,
  is_valid_transition, run_calls, start_handshake, start_handshakes, start_publishing,
  start_subscribing, step, stop_publishing, stop_subscribing, succeeded,
}
use open_rtmp_claude_kiro.Streaming.Types.{invalid_stream_id, no_key}

-- A stream is named while one is published or subscribed to, and at no other time.
abbrev pub IsSettled : Session → Type 0
IsSettled s =
    (has_active_stream s ≡ true) ⊎ ((s.stream_key ≡ no_key) × (s.stream_id ≡ invalid_stream_id))

-- `completeHandshake` is called while no stream is active.
abbrev pub InOrder : Call → Session → Type 0
InOrder (complete_handshakes now) s = has_active_stream s ≡ false
InOrder _ s = Unit {0}

step-IsSettled : (c : Call) (s : Session) → InOrder c s → IsSettled s → IsSettled (step c s).after
unfolding step start_handshake complete_handshake start_publishing stop_publishing start_subscribing
    stop_subscribing disconnect is_valid_transition has_active_stream
step-IsSettled (start_handshakes now) s o v = ground arith
step-IsSettled c s o v = ground arith

-- Every call of several is in order where it is made.
abbrev pub AllInOrder : List Call → Session → Type 0
AllInOrder [] s = Unit {0}
AllInOrder (c ∷ cs) s = InOrder c s × AllInOrder cs (step c s).after

-- After any sequence of calls in which `completeHandshake` is never called while a stream is active,
-- a session that started settled names a stream only while it publishes or subscribes.
pub run_calls-IsSettled :
    (cs : List Call) (s : Session) → AllInOrder cs s → IsSettled s → IsSettled (run_calls cs s).1
unfolding run_calls
run_calls-IsSettled [] s o v = v
run_calls-IsSettled (c ∷ cs) s (o, os) v =
    run_calls-IsSettled cs (step c s).after os (step-IsSettled c s o v)

-- While a stream with a valid identifier is active, `completeHandshake` succeeds and leaves a
-- connected session in which no stream is active, with the stream's key and identifier as they were:
-- the session is not settled.
pub complete_handshake_leaves_stream :
    (s : Session) (now : ℕ)
    → has_active_stream s ≡ true
    → s.stream_id ≢ invalid_stream_id
    → let t = (complete_handshake now s).after in
      ((complete_handshake now s).outcome ≡ succeeded)
      × (t.state ≡ connected)
      × (has_active_stream t ≡ false)
      × (t.stream_key ≡ s.stream_key)
      × (t.stream_id ≡ s.stream_id)
      × ¬ IsSettled t
unfolding complete_handshake is_valid_transition has_active_stream
complete_handshake_leaves_stream s now h n = ground arith
