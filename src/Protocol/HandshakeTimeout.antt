-- ===== src/Protocol/HandshakeTimeout.antt =====
-- HandshakeHandlerWithTimeout of include/openrtmp/protocol/handshake_handler.hpp and
-- src/protocol/handshake_handler.cpp. The timer and the log are the platform's: what is called there,
-- and the calls of the two callbacks, are the effects of an operation. The firing of the timer is
-- an operation of its own. Texts are left out.
pub mod Effects
pub mod Outcomes
use open_rtmp_claude_kiro.Common.{
  Bool, List, Option, [], false, if◌then◌else◌, none, not, some, true, ℕ, ◌&&◌, ◌++◌, ◌==◌, ◌∷◌,
}
use open_rtmp_claude_kiro.Protocol.HandshakeHandler.{
  HandshakeErrorCode, HandshakeHandler, HandshakeResult, HandshakeState, failed, get_response_data,
  is_complete, is_terminal, process_data,
}

pub data Effect : Type 0 where
  cancel_timer : ℕ → Effect
  log_error log_info on_timeout_called on_complete_called : Effect

pub record HandshakeHandlerWithTimeout : Type 0 where
  pub base_handler : HandshakeHandler
  pub has_timer : Bool
  pub has_log : Bool
  pub has_on_timeout : Bool
  pub has_on_complete : Bool
  pub timeout_timer_handle : ℕ
  pub timer_fired : Bool

unfoldable pub has_error : Option HandshakeErrorCode → Bool
has_error none = false
has_error (some e) = true

-- The handle that stays 0 when there is none.
unfoldable pub handle_or_zero : Option ℕ → ℕ
handle_or_zero none = 0
handle_or_zero (some h) = h

-- The constructor: `scheduled` is the handle that the timer gives, if there is a timer and it
-- accepts the request.
unfoldable pub new_timed_handler :
    HandshakeHandler → Option ℕ → Bool → Bool → Bool → Bool → HandshakeHandlerWithTimeout
new_timed_handler base scheduled has_timer has_log has_on_timeout has_on_complete = record {
  base_handler = base;
  has_timer = has_timer;
  has_log = has_log;
  has_on_timeout = has_on_timeout;
  has_on_complete = has_on_complete;
  timeout_timer_handle = if has_timer then handle_or_zero scheduled else 0;
  timer_fired = false;
}

unfoldable pub when : Bool → Effect → List Effect
when true e = e ∷ []
when false e = []

-- The timer's handle is forgotten with its cancellation.
unfoldable pub cancel_timeout_timer :
    HandshakeHandlerWithTimeout → List Effect × HandshakeHandlerWithTimeout
cancel_timeout_timer t =
    if t.has_timer && not (t.timeout_timer_handle == 0)
    then (cancel_timer t.timeout_timer_handle ∷ [], record t { timeout_timer_handle = 0 })
    else ([], t)

-- After a failure.
unfoldable pub after_failure :
    HandshakeResult → HandshakeHandlerWithTimeout → List Effect × HandshakeHandlerWithTimeout
after_failure r t =
    let c = cancel_timeout_timer t in
    if not r.success && has_error r.error then (when t.has_log log_error ++ c.0, c.1) else ([], t)

-- After the handshake is complete.
unfoldable pub after_completion :
    HandshakeHandlerWithTimeout → List Effect × HandshakeHandlerWithTimeout
after_completion t =
    let c = cancel_timeout_timer t in
    if is_complete t.base_handler
    then (c.0 ++ (when t.has_log log_info ++ when t.has_on_complete on_complete_called), c.1)
    else ([], t)

unfoldable pub process_timed_data :
    ℕ
    → List ℕ
    → HandshakeHandlerWithTimeout
    → HandshakeResult × List Effect × HandshakeHandlerWithTimeout
process_timed_data now input t =
    let x = process_data now input t.base_handler in
    let failed_first = after_failure x.0 (record t { base_handler = x.1 }) in
    let last = after_completion failed_first.1 in
    if is_terminal t.base_handler.state
    then (x.0, [], record t { base_handler = x.1 })
    else (x.0, failed_first.0 ++ last.0, last.1)

-- `getState`: a timeout hides every state but the complete one.
unfoldable pub get_state : HandshakeHandlerWithTimeout → HandshakeState
get_state t =
    if t.timer_fired && not (is_complete t.base_handler) then failed else t.base_handler.state

unfoldable pub handle_timeout :
    HandshakeHandlerWithTimeout → List Effect × HandshakeHandlerWithTimeout
handle_timeout t =
    let late = when t.has_log log_error ++ when t.has_on_timeout on_timeout_called in
    if t.timer_fired
    then ([], t)
    else (if is_complete t.base_handler then [] else late, record t { timer_fired = true })

unfoldable pub get_timed_response :
    HandshakeHandlerWithTimeout → List ℕ × HandshakeHandlerWithTimeout
get_timed_response t =
    let x = get_response_data t.base_handler in (x.0, record t { base_handler = x.1 })
