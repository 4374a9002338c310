-- ===== src/Tests/Sessions.antt =====
-- The life of a session.
use open_rtmp_claude_kiro.Common.{[], arith, false, inl, refl, true, ◌∷◌, ◌≡◌, ◌⊎◌}
use open_rtmp_claude_kiro.Streaming.Session.{
  Session, SessionState, complete_handshake, complete_handshakes, connected, connecting, disconnect,
  disconnected, has_active_stream, publishing, run_calls, run_uses, sets_app_name, start_handshakes,
  stops_publishing, succeeded, transits,
}
use open_rtmp_claude_kiro.Streaming.Session.StreamInfo.{
  IsSettled, complete_handshake_leaves_stream, run_calls-IsSettled,
}
use open_rtmp_claude_kiro.Streaming.Session.Transitions.{
  IsPath, disconnected_for_good, run_calls-IsPath,
}
use open_rtmp_claude_kiro.Streaming.Types.{StreamKey, invalid_stream_id, no_key}

abbrev key : StreamKey
key = record { app = "live"; name = "a" }

abbrev session : SessionState → Session
session state = record {
  session_id = 1;
  connection_id = 2;
  state = state;
  stream_key = key;
  stream_id = 3;
  allocated_stream_id = 3;
  app_name = "live";
  authenticated = false;
  client_info = record { ip = ""; port = 0; user_agent = "" };
  created_at = 0;
  last_activity = 0;
  has_callback = true;
}

run_calls-IsPath_example :
    let r = run_calls (start_handshakes 1 ∷ complete_handshakes 2 ∷ []) (session connecting) in
    IsPath connecting r.0 r.1.state
run_calls-IsPath_example =
    run_calls-IsPath (start_handshakes 1 ∷ complete_handshakes 2 ∷ []) (session connecting) refl

disconnected_for_good_example :
    let d = (disconnect 5 (session publishing)).after in
    let us = sets_app_name "vod" 7 ∷ transits (complete_handshakes 8) ∷ [] in
    ((disconnect 5 (session publishing)).outcome ≡ succeeded)
    × (d.state ≡ disconnected)
    × (((publishing ≡ disconnected) × (d ≡ session publishing))
        ⊎ ((d.stream_key ≡ no_key) × (d.stream_id ≡ invalid_stream_id)))
    × (run_calls (start_handshakes 6 ∷ []) d ≡ ([], d))
    × ((run_uses us d).0 ≡ [])
    × ((run_uses us d).1.state ≡ disconnected)
    × ((run_uses us d).1.stream_key ≡ d.stream_key)
    × ((run_uses us d).1.stream_id ≡ d.stream_id)
disconnected_for_good_example =
    disconnected_for_good (session publishing) 5 (start_handshakes 6 ∷ [])
      (sets_app_name "vod" 7 ∷ transits (complete_handshakes 8) ∷ [])

run_calls-IsSettled_example : IsSettled (run_calls (stops_publishing 4 ∷ []) (session publishing)).1
unfolding has_active_stream
run_calls-IsSettled_example =
    run_calls-IsSettled (stops_publishing 4 ∷ []) (session publishing) (tt, tt) (inl refl)

complete_handshake_leaves_stream_example :
    let s = session publishing in
    let t = (complete_handshake 4 s).after in
    ((complete_handshake 4 s).outcome ≡ succeeded)
    × (t.state ≡ connected)
    × (has_active_stream t ≡ false)
    × (t.stream_key ≡ s.stream_key)
    × (t.stream_id ≡ s.stream_id)
    × ¬ IsSettled t
unfolding has_active_stream
complete_handshake_leaves_stream_example =
    complete_handshake_leaves_stream (session publishing) 4 refl (omega arith)
