-- ===== src/Tests/Timeouts.antt =====
-- A client that says nothing until the timer fires.
use open_rtmp_claude_kiro.Common.{[], false, if◌then◌else◌, refl, true, ◌&&◌, ◌∷◌, ◌≡◌, ◌≤◌}
use open_rtmp_claude_kiro.Protocol.HandshakeHandler.{is_complete, waiting_c0}
use open_rtmp_claude_kiro.Protocol.HandshakeTimeout.{HandshakeHandlerWithTimeout}
use open_rtmp_claude_kiro.Protocol.HandshakeTimeout.Effects.{
  completions, input_event, timed_run, timeouts, timer_event,
}
use open_rtmp_claude_kiro.Protocol.HandshakeTimeout.Outcomes.{timed_run-callbacks}

abbrev silent : HandshakeHandlerWithTimeout
silent = record {
  base_handler = record {
    state = waiting_c0;
    s1_data = [];
    c1_data = [];
    response_data = [];
    server_timestamp = 0;
  };
  has_timer = true;
  has_log = true;
  has_on_timeout = true;
  has_on_complete = true;
  timeout_timer_handle = 4;
  timer_fired = false;
}

timed_run-callbacks_example :
    let x = timed_run (timer_event ∷ input_event 5 (3 ∷ []) ∷ []) silent in
    (completions x.0 ≡ (if is_complete x.1.base_handler && x.1.has_on_complete then 1 else 0))
    × (timeouts x.0 ≤ 1)
timed_run-callbacks_example =
    timed_run-callbacks (timer_event ∷ input_event 5 (3 ∷ []) ∷ []) silent
      (unfold is_complete in refl)
