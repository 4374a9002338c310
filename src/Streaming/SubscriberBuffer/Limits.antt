-- ===== src/Streaming/SubscriberBuffer/Limits.antt =====
-- The limit is met when an operation ends, or nothing is left that may be dropped.
use open_rtmp_claude_kiro.Common.{
  Bool, Bool-cases, List, [], arith, false, inl, inr, leb, length, refl, suc, true, zero, ℕ, ◌++◌,
  ◌||◌, ◌∷◌, ◌≡◌,
}
use open_rtmp_claude_kiro.Streaming.Frames.{BufferedFrame, buffer_duration, buffer_duration-tail}
use open_rtmp_claude_kiro.Streaming.SubscriberBuffer.{
  SubscriberBuffer, SubscriberBufferConfig, count_frame, drop_frame, drop_pass,
  enforce_buffer_limit, enforce_loop, has_droppable, is_preserved, must_drop, pop, pop_front, push,
  report, should_drop_frame,
}

has_droppable-append :
    (config : SubscriberBufferConfig) (fs gs : List BufferedFrame)
    → has_droppable config (fs ++ gs) ≡ (has_droppable config fs || has_droppable config gs)
unfolding has_droppable
has_droppable-append config [] gs = refl
has_droppable-append config (f ∷ fs) gs = ground (arith, has_droppable-append config fs gs)

-- A pass that starts at the front ends within the limit, or has dropped all that it may.
drop_pass-settled :
    (now : ℕ) (b : SubscriberBuffer) (any : Bool) (reports kept rest : List BufferedFrame)
    → has_droppable b.config kept ≡ false
    → must_drop (drop_pass now b any reports kept rest).buffer ≡ false
unfolding drop_pass must_drop drop_frame has_droppable
drop_pass-settled now b any reports kept [] h = rw (h) (ground arith)
drop_pass-settled now b any reports kept (f ∷ rest) h =
    elim (Bool-cases (leb (buffer_duration (kept ++ (f ∷ rest))) b.config.max_buffer_duration)) [
      | inl e ↦ rw (e, drop_pass) (ground arith)
      | inr e ↦ elim (Bool-cases (is_preserved b.config f)) [
        | inl d ↦
            rw (e, d, drop_pass)
              (drop_pass-settled now b any reports (kept ++ (f ∷ [])) rest
                (ground (arith, has_droppable-append b.config kept (f ∷ []))))
        | inr d ↦
            rw (e, d, drop_pass)
              (drop_pass-settled now (drop_frame now f b) true (report b f reports) kept rest h)
      ]
    ]

enforce_loop-settled :
    (now fuel : ℕ) (b : SubscriberBuffer) (reports : List BufferedFrame)
    → must_drop b ≡ false
    → enforce_loop now fuel b reports ≡ (b, reports)
unfolding enforce_loop
enforce_loop-settled now zero b reports h = refl
enforce_loop-settled now (suc fuel) b reports h = rw (h, enforce_loop) refl

pub enforce-settled :
    (now : ℕ) (b : SubscriberBuffer) → must_drop (enforce_buffer_limit now b).0 ≡ false
unfolding enforce_buffer_limit enforce_loop has_droppable
enforce-settled now b =
    let p = drop_pass now b false [] [] b.frames in
    let settled = drop_pass-settled now b false [] [] b.frames refl in
    elim (Bool-cases (must_drop b)) [
      | inl e ↦ elim (Bool-cases p.dropped_any) [
        | inl d ↦
            rw
              (
                e,
                d,
                enforce_loop,
                enforce_loop-settled now (length b.frames) p.buffer p.reports settled,
              )
              settled
        | inr d ↦ rw (e, d, enforce_loop) settled
      ]
      | inr e ↦ rw (e, enforce_loop) e
    ]

pop_front-settled :
    (fs : List BufferedFrame) (b : SubscriberBuffer)
    → must_drop (record b { frames = fs }) ≡ false
    → must_drop b ≡ false
    → must_drop (pop_front fs b).1 ≡ false
unfolding pop_front must_drop has_droppable
pop_front-settled [] b h k = k
pop_front-settled (f ∷ fs) b h k = ground (arith, buffer_duration-tail f fs)

pub pop-settled : (b : SubscriberBuffer) → must_drop b ≡ false → must_drop (pop b).1 ≡ false
unfolding pop
pop-settled b h = pop_front-settled b.frames b h h

pub push-settled :
    (now : ℕ) (f : BufferedFrame) (b : SubscriberBuffer)
    → must_drop b ≡ false
    → must_drop (push now f b).0 ≡ false
unfolding push must_drop
push-settled now f b h = elim (Bool-cases (should_drop_frame (count_frame f b) f)) [
  | inl e ↦ rw (e) h
  | inr e ↦ rw (e) (enforce-settled now _)
]
