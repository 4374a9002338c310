-- ===== src/Protocol/HandshakeTimeout/Effects.antt =====
-- Sequences of inputs, responses and firings of the timer, and the counts of what they report.
use open_rtmp_claude_kiro.Common.{
  Bool, Bool-cases, List, [], arith, false, if◌then◌else◌, inl, inr, not, refl, suc, true, ℕ, ◌&&◌,
  ◌++◌, ◌+◌, ◌==◌, ◌∙◌, ◌∷◌, ◌≡◌, ◌≤◌,
}
use open_rtmp_claude_kiro.Protocol.HandshakeHandler.{
  HandshakeHandler, HandshakeResult, HandshakeState, complete, failed, is_complete, is_terminal,
  waiting_c0, waiting_c1, waiting_c2,
}
use open_rtmp_claude_kiro.Protocol.HandshakeTimeout.{
  Effect, HandshakeHandlerWithTimeout, after_completion, after_failure, cancel_timeout_timer,
  cancel_timer, get_timed_response, handle_timeout, has_error, log_error, log_info,
  on_complete_called, on_timeout_called, process_timed_data, when,
}

pub data TimedEvent : Type 0 where
  input_event : ℕ → List ℕ → TimedEvent
  response_event timer_event : TimedEvent

unfoldable pub timed_step :
    TimedEvent → HandshakeHandlerWithTimeout → List Effect × HandshakeHandlerWithTimeout
timed_step (input_event now input) t = let x = process_timed_data now input t in (x.1, x.2)
timed_step response_event t = ([], (get_timed_response t).1)
timed_step timer_event t = handle_timeout t

unfoldable pub timed_run :
    List TimedEvent → HandshakeHandlerWithTimeout → List Effect × HandshakeHandlerWithTimeout
timed_run [] t = ([], t)
timed_run (e ∷ es) t =
    let x = timed_step e t in let rest = timed_run es x.1 in (x.0 ++ rest.0, rest.1)

unfoldable pub completions : List Effect → ℕ
completions [] = 0
completions (on_complete_called ∷ es) = suc (completions es)
completions (_ ∷ es) = completions es

unfoldable pub timeouts : List Effect → ℕ
timeouts [] = 0
timeouts (on_timeout_called ∷ es) = suc (timeouts es)
timeouts (_ ∷ es) = timeouts es

-- The completion that has been reported, and the timeout.
unfoldable pub done_count : HandshakeHandlerWithTimeout → ℕ
done_count t = if is_complete t.base_handler && t.has_on_complete then 1 else 0

unfoldable pub fired_count : HandshakeHandlerWithTimeout → ℕ
fired_count t = if t.timer_fired then 1 else 0

pub completions-append :
    (xs ys : List Effect) → completions (xs ++ ys) ≡ completions xs + completions ys
unfolding completions
completions-append [] ys = omega arith
completions-append (cancel_timer n ∷ xs) ys = completions-append xs ys
completions-append (log_error ∷ xs) ys = completions-append xs ys
completions-append (log_info ∷ xs) ys = completions-append xs ys
completions-append (on_timeout_called ∷ xs) ys = completions-append xs ys
completions-append (on_complete_called ∷ xs) ys = omega (arith, completions-append xs ys)

pub timeouts-append : (xs ys : List Effect) → timeouts (xs ++ ys) ≡ timeouts xs + timeouts ys
unfolding timeouts
timeouts-append [] ys = omega arith
timeouts-append (cancel_timer n ∷ xs) ys = timeouts-append xs ys
timeouts-append (log_error ∷ xs) ys = timeouts-append xs ys
timeouts-append (log_info ∷ xs) ys = timeouts-append xs ys
timeouts-append (on_complete_called ∷ xs) ys = timeouts-append xs ys
timeouts-append (on_timeout_called ∷ xs) ys = omega (arith, timeouts-append xs ys)

-- What the effects and the two states of a step have in common.
abbrev pub Counted :
    HandshakeHandlerWithTimeout → List Effect × HandshakeHandlerWithTimeout → Type 0
Counted t x =
    (completions x.0 + done_count t ≡ done_count x.1)
    × (timeouts x.0 + fired_count t ≤ fired_count x.1)

pub done_count-idle :
    (t : HandshakeHandlerWithTimeout) → is_complete t.base_handler ≡ false → done_count t ≡ 0
unfolding done_count
done_count-idle t h = rw (h) refl

pub state_not_terminal :
    (h : HandshakeHandler) (s : HandshakeState)
    → is_terminal s ≡ false
    → is_complete (record h { state = s }) ≡ false
unfolding is_terminal is_complete
state_not_terminal h waiting_c0 e = refl
state_not_terminal h waiting_c1 e = refl
state_not_terminal h waiting_c2 e = refl
state_not_terminal h complete e = absurd cc
state_not_terminal h failed e = refl

-- Nothing is reported, and the parts that the counts depend on stay.
abbrev pub Quiet : HandshakeHandlerWithTimeout → List Effect × HandshakeHandlerWithTimeout → Type 0
Quiet t c =
    (completions c.0 ≡ 0)
    × (timeouts c.0 ≡ 0)
    × (c.1.base_handler ≡ t.base_handler)
    × (c.1.timer_fired ≡ t.timer_fired)
    × (c.1.has_on_complete ≡ t.has_on_complete)

cancel-Quiet : (t : HandshakeHandlerWithTimeout) → Quiet t (cancel_timeout_timer t)
unfolding cancel_timeout_timer completions timeouts
cancel-Quiet t = elim (Bool-cases (t.has_timer && not (t.timeout_timer_handle == 0))) [
  | inl e ↦ rw (e) (refl, refl, refl, refl, refl)
  | inr e ↦ rw (e) (refl, refl, refl, refl, refl)
]

pub when-log_error :
    (b : Bool) → (completions (when b log_error) ≡ 0) × (timeouts (when b log_error) ≡ 0)
unfolding when completions timeouts
when-log_error true = (refl, refl)
when-log_error false = (refl, refl)

pub after_failure-Quiet :
    (r : HandshakeResult) (t : HandshakeHandlerWithTimeout) → Quiet t (after_failure r t)
unfolding after_failure completions timeouts
after_failure-Quiet r t =
    let (a, b, c, d, e) = cancel-Quiet t in
    let effects = (cancel_timeout_timer t).0 in
    let log = when-log_error t.has_log in
    elim (Bool-cases (not r.success && has_error r.error)) [
      | inl f ↦ rw (f) (
        omega (arith, completions-append (when t.has_log log_error) effects, log.0, a),
        omega (arith, timeouts-append (when t.has_log log_error) effects, log.1, b),
        c,
        d,
        e,
      )
      | inr f ↦ rw (f) (refl, refl, refl, refl, refl)
    ]

-- The two calls at the end of a handshake.
reports-completions :
    (log done : Bool)
    → (completions (when log log_info ++ when done on_complete_called) ≡ (if done then 1 else 0))
      × (timeouts (when log log_info ++ when done on_complete_called) ≡ 0)
unfolding when completions timeouts
reports-completions true true = (refl, refl)
reports-completions true false = (refl, refl)
reports-completions false true = (refl, refl)
reports-completions false false = (refl, refl)

pub after_completion-counts :
    (t : HandshakeHandlerWithTimeout)
    → let c = after_completion t in
      (completions c.0 ≡ done_count t)
      × (timeouts c.0 ≡ 0)
      × (done_count c.1 ≡ done_count t)
      × (c.1.timer_fired ≡ t.timer_fired)
unfolding after_completion done_count completions timeouts
after_completion-counts t =
    let (a, b, c, d, e) = cancel-Quiet t in
    let effects = (cancel_timeout_timer t).0 in
    let tail = when t.has_log log_info ++ when t.has_on_complete on_complete_called in
    let calls = reports-completions t.has_log t.has_on_complete in
    elim (Bool-cases (is_complete t.base_handler)) [
      | inl f ↦ rw (f) (
        completions-append effects tail ∙ omega (arith, a) ∙ calls.0,
        omega (arith, timeouts-append effects tail, b, calls.1),
        rw (c, e, f) refl,
        d,
      )
      | inr f ↦ rw (f) (refl, refl, rw (f) refl, refl)
    ]
