-- ===== src/Protocol/HandshakeTimeout/Outcomes.antt =====
-- The callbacks over any sequence of events.
use open_rtmp_claude_kiro.Common.{
  Bool, Bool-cases, List, [], ap, arith, false, if◌then◌else◌, inl, inr, refl, true, ℕ, ◌&&◌, ◌++◌,
  ◌∙◌, ◌∷◌, ◌≡◌, ◌≤◌,
}
use open_rtmp_claude_kiro.Protocol.HandshakeHandler.{
  HandshakeHandler, get_response_data, is_complete, is_terminal, process_data,
}
use open_rtmp_claude_kiro.Protocol.HandshakeTimeout.{
  HandshakeHandlerWithTimeout, after_completion, after_failure, get_timed_response, handle_timeout,
  log_error, on_timeout_called, process_timed_data, when,
}
use open_rtmp_claude_kiro.Protocol.HandshakeTimeout.Effects.{
  Counted, TimedEvent, after_completion-counts, after_failure-Quiet, completions,
  completions-append, done_count, done_count-idle, fired_count, input_event, response_event,
  state_not_terminal, timed_run, timed_step, timeouts, timeouts-append, timer_event,
}

terminal-same :
    (now : ℕ) (input : List ℕ) (h : HandshakeHandler)
    → is_terminal h.state ≡ true
    → (process_data now input h).1 ≡ h
unfolding process_data
terminal-same now input h e = rw (e) refl

fired_count_same :
    (t u : HandshakeHandlerWithTimeout)
    → t.timer_fired ≡ u.timer_fired
    → fired_count t ≡ fired_count u
unfolding fired_count
fired_count_same t u e = ap (λ b. if b then 1 else 0) e

input-Counted :
    (now : ℕ) (input : List ℕ) (t : HandshakeHandlerWithTimeout)
    → Counted t (timed_step (input_event now input) t)
unfolding timed_step process_timed_data completions timeouts
input-Counted now input t =
    let x = process_data now input t.base_handler in
    let moved = record t { base_handler = x.1 } in
    let first = after_failure x.0 moved in
    let last = after_completion first.1 in
    elim (Bool-cases (is_terminal t.base_handler.state)) [
      | inl e ↦ rw (e, terminal-same now input t.base_handler e) (omega arith, omega arith)
      | inr e ↦
          let (a, b, c, d, f) = after_failure-Quiet x.0 moved in
          let (g, h, i, j) = after_completion-counts first.1 in
          let idle = done_count-idle t (state_not_terminal t.base_handler t.base_handler.state e) in
          rw (e) (
            omega (arith, completions-append first.0 last.0, a, g, i, idle),
            omega (arith, timeouts-append first.0 last.0, b, h, fired_count_same last.1 t (j ∙ d)),
          )
    ]

timeout_reports :
    (log call : Bool)
    → (completions (when log log_error ++ when call on_timeout_called) ≡ 0)
      × (timeouts (when log log_error ++ when call on_timeout_called) ≤ 1)
unfolding when completions timeouts
timeout_reports true true = (refl, omega arith)
timeout_reports true false = (refl, omega arith)
timeout_reports false true = (refl, omega arith)
timeout_reports false false = (refl, omega arith)

timer-Counted : (t : HandshakeHandlerWithTimeout) → Counted t (timed_step timer_event t)
unfolding timed_step handle_timeout completions timeouts fired_count done_count
timer-Counted t = elim (Bool-cases t.timer_fired) [
  | inl e ↦ rw (e) (omega arith, omega arith)
  | inr e ↦ elim (Bool-cases (is_complete t.base_handler)) [
    | inl d ↦ rw (e, d) (omega arith, omega arith)
    | inr d ↦
        let calls = timeout_reports t.has_log t.has_on_timeout in
        rw (e, d) (omega (arith, calls.0), omega (arith, calls.1))
  ]
]

response-Counted : (t : HandshakeHandlerWithTimeout) → Counted t (timed_step response_event t)
unfolding timed_step get_timed_response get_response_data is_complete completions timeouts
    fired_count done_count
response-Counted t = (omega arith, omega arith)

step-Counted : (e : TimedEvent) (t : HandshakeHandlerWithTimeout) → Counted t (timed_step e t)
step-Counted (input_event now input) t = input-Counted now input t
step-Counted response_event t = response-Counted t
step-Counted timer_event t = timer-Counted t

run-Counted : (es : List TimedEvent) (t : HandshakeHandlerWithTimeout) → Counted t (timed_run es t)
unfolding timed_run completions timeouts
run-Counted [] t = (omega arith, omega arith)
run-Counted (e ∷ es) t =
    let x = timed_step e t in
    let rest = timed_run es x.1 in
    let (a, b) = step-Counted e t in
    let (c, d) = run-Counted es x.1 in
    (
      omega (arith, completions-append x.0 rest.0, a, c),
      omega (arith, timeouts-append x.0 rest.0, b, d),
    )

fired_count_bound : (t : HandshakeHandlerWithTimeout) → fired_count t ≤ 1
unfolding fired_count
fired_count_bound t = ground arith

run-counts :
    (es : List TimedEvent) (t : HandshakeHandlerWithTimeout)
    → is_complete t.base_handler ≡ false
    → let x = timed_run es t in (completions x.0 ≡ done_count x.1) × (timeouts x.0 ≤ 1)
run-counts es t h =
    let x = timed_run es t in
    let (a, b) = run-Counted es t in
    (omega (arith, a, done_count-idle t h), omega (arith, b, fired_count_bound x.1))

-- From a handler whose handshake is not complete, over any inputs, responses and firings of the
-- timer, the completion callback is called once if the handshake is complete in the end and there is
-- a callback, and else not at all; the timeout callback is called at most once.
pub timed_run-callbacks :
    (es : List TimedEvent) (t : HandshakeHandlerWithTimeout)
    → is_complete t.base_handler ≡ false
    → let x = timed_run es t in
      (completions x.0 ≡ (if is_complete x.1.base_handler && x.1.has_on_complete then 1 else 0))
      × (timeouts x.0 ≤ 1)
unfolding done_count
timed_run-callbacks es t h = run-counts es t h
