-- ===== src/Protocol/HandshakeHandler/Loop.antt =====
-- The loop of the handshake: how it ends, goes on, and depends on its fuel.
use open_rtmp_claude_kiro.Common.{
  Bool-cases, List, ap, arith, drop, false, if◌then◌else◌, inl, inr, le_or_lt, length, positive-beq,
  refl, suc, sym, true, zero, ℕ, ◌+◌, ◌<◌, ◌∙◌, ◌≡◌, ◌≤◌, ◌⊎◌,
}
use open_rtmp_claude_kiro.Protocol.HandshakeHandler.{
  HandshakeHandler, HandshakeResult, failed, is_terminal, ok, process_loop, process_state,
}
use open_rtmp_claude_kiro.Protocol.HandshakeHandler.Steps.{
  need, positive-need, process_state-long, process_state-short, rank, rank_failed_least,
  terminal-rank,
}

-- A result found after the stated number of bytes.
abbrev pub after_bytes : ℕ → HandshakeResult × HandshakeHandler → HandshakeResult × HandshakeHandler
after_bytes k (r, t) =
    (record r { bytes_consumed = if r.success then k + r.bytes_consumed else r.bytes_consumed }, t)

pub loop-end :
    (n now total : ℕ) (input : List ℕ) (h : HandshakeHandler)
    → is_terminal h.state ≡ true
    → process_loop n now input total h ≡ (ok total, h)
unfolding process_loop
loop-end zero now total input h e = refl
loop-end (suc n) now total input h e = ground (arith, e)

pub loop-short :
    (n now total : ℕ) (input : List ℕ) (h : HandshakeHandler)
    → length input < need h.state
    → process_loop n now input total h ≡ (ok total, h)
unfolding process_loop
loop-short zero now total input h e = refl
loop-short (suc n) now total input h e = ground (arith, process_state-short now input h e)

-- A round that fails ends the loop.
pub loop-fail :
    (n now total : ℕ) (input : List ℕ) (h : HandshakeHandler)
    → is_terminal h.state ≡ false
    → 0 < length input
    → (process_state now input h).0.success ≡ false
    → process_loop (suc n) now input total h ≡ process_state now input h
unfolding process_loop
loop-fail n now total input h e l f = ground (arith, e, f)

-- A round that succeeds goes on with the rest of the input.
pub loop-next :
    (n now total : ℕ) (input : List ℕ) (h : HandshakeHandler)
    → is_terminal h.state ≡ false
    → need h.state ≤ length input
    → 0 < need h.state
    → (process_state now input h).0 ≡ ok (need h.state)
    → process_loop (suc n) now input total h
      ≡ process_loop n now
          (drop (need h.state) input)
          (total + need h.state)
          (process_state now input h).1
unfolding process_loop
loop-next n now total input h e l p f =
    rw (positive-beq (length input) (omega arith), e, f, positive-beq (need h.state) p) refl

-- The kinds of a round: none at the end, none for want of bytes, the last one, and one more.
abbrev pub IsLast : ℕ → List ℕ → HandshakeHandler → Type 0
IsLast now input h =
    (is_terminal h.state ≡ false)
    × (0 < length input)
    × ((process_state now input h).0.success ≡ false)
    × ((process_state now input h).1.state ≡ failed)

abbrev pub IsNext : ℕ → List ℕ → HandshakeHandler → Type 0
IsNext now input h =
    (is_terminal h.state ≡ false)
    × (need h.state ≤ length input)
    × (0 < need h.state)
    × ((process_state now input h).0 ≡ ok (need h.state))
    × (suc (rank (process_state now input h).1.state) ≡ rank h.state)

pub round-cases :
    (now : ℕ) (input : List ℕ) (h : HandshakeHandler)
    → (is_terminal h.state ≡ true)
      ⊎ ((length input < need h.state) ⊎ (IsLast now input h ⊎ IsNext now input h))
round-cases now input h = elim (Bool-cases (is_terminal h.state)) [
  | inl e ↦ inl e
  | inr e ↦ elim (le_or_lt (need h.state) (length input)) [
    | inr l ↦ inr (inl l)
    | inl l ↦
        let p = positive-need h.state e in
        elim (process_state-long now input h e l) [
          | inl (f, g) ↦ inr (inr (inl (e, omega arith, f, g)))
          | inr (f, r, _) ↦ inr (inr (inr (e, l, p, f, r)))
        ]
  ]
]

pub after-after :
    (a b c : ℕ) (x : HandshakeResult × HandshakeHandler)
    → a + b ≡ c
    → after_bytes a (after_bytes b x) ≡ after_bytes c x
after-after a b c (r, t) e = elim (Bool-cases r.success) [
  | inl s ↦ rw (s, the_sum a b c r.bytes_consumed e) refl
  | inr s ↦ rw (s) refl
]
  where
    the_sum : (a b c d : ℕ) → a + b ≡ c → a + (b + d) ≡ c + d
    the_sum a b c d e = omega arith

after-failed :
    (k : ℕ) (x : HandshakeResult × HandshakeHandler) → x.0.success ≡ false → x ≡ after_bytes k x
after-failed k (r, t) e = ground (arith, e)

after-end : (k : ℕ) (h : HandshakeHandler) → (ok k, h) ≡ after_bytes k (ok 0, h)
after-end k h = rw (the_sum k) refl
  where
    the_sum : (k : ℕ) → k + 0 ≡ k
    the_sum k = omega arith

-- What a loop gives, with the bytes consumed before it added.
pub loop-total :
    (n now total : ℕ) (input : List ℕ) (h : HandshakeHandler)
    → process_loop n now input total h ≡ after_bytes total (process_loop n now input 0 h)
unfolding process_loop
loop-total zero now total input h = after-end total h
loop-total (suc n) now total input h = elim (round-cases now input h) [
  | inl e ↦
      rw (loop-end (suc n) now total input h e, loop-end (suc n) now 0 input h e)
        (after-end total h)
  | inr (inl e) ↦
      rw (loop-short (suc n) now total input h e, loop-short (suc n) now 0 input h e)
        (after-end total h)
  | inr (inr (inl (e, l, f, g))) ↦
      loop-fail n now total input h e l f
      ∙ after-failed total (process_state now input h) f
      ∙ ap (after_bytes total) (sym (loop-fail n now 0 input h e l f))
  | inr (inr (inr (e, l, p, f, r))) ↦
      let t = (process_state now input h).1 in
      let rest = drop (need h.state) input in
      loop-next n now total input h e l p f
      ∙ loop-total n now (total + need h.state) rest t
      ∙ sym (
          after-after total (0 + need h.state) (total + need h.state) (process_loop n now rest 0 t)
            (omega arith))
      ∙ ap (after_bytes total) (sym (loop-total n now (0 + need h.state) rest t))
      ∙ ap (after_bytes total) (sym (loop-next n now 0 input h e l p f))
]

-- More rounds than states to come change nothing.
pub loop-fuel :
    (n now total : ℕ) (input : List ℕ) (h : HandshakeHandler)
    → rank h.state ≤ n
    → process_loop (suc n) now input total h ≡ process_loop n now input total h
unfolding process_loop
loop-fuel zero now total input h b = elim (round-cases now input h) [
  | inl e ↦ loop-end 1 now total input h e
  | inr (inl e) ↦ loop-short 1 now total input h e
  | inr (inr (inl (e, l, f, g))) ↦ absurd (omega (arith, terminal-rank h.state e))
  | inr (inr (inr (e, l, p, f, r))) ↦ absurd (omega arith)
]
loop-fuel (suc n) now total input h b = elim (round-cases now input h) [
  | inl e ↦ loop-end (suc (suc n)) now total input h e ∙ sym (loop-end (suc n) now total input h e)
  | inr (inl e) ↦
      loop-short (suc (suc n)) now total input h e ∙ sym (loop-short (suc n) now total input h e)
  | inr (inr (inl (e, l, f, g))) ↦
      loop-fail (suc n) now total input h e l f ∙ sym (loop-fail n now total input h e l f)
  | inr (inr (inr (e, l, p, f, r))) ↦
      loop-next (suc n) now total input h e l p f
      ∙ loop-fuel n now (total + need h.state) (drop (need h.state) input)
          (process_state now input h).1 (omega arith)
      ∙ sym (loop-next n now total input h e l p f)
]

-- A loop does not move back.
pub loop-rank :
    (n now total : ℕ) (input : List ℕ) (h : HandshakeHandler)
    → rank (process_loop n now input total h).1.state ≤ rank h.state
unfolding process_loop
loop-rank zero now total input h = omega arith
loop-rank (suc n) now total input h = elim (round-cases now input h) [
  | inl e ↦ rw (loop-end (suc n) now total input h e) (omega arith)
  | inr (inl e) ↦ rw (loop-short (suc n) now total input h e) (omega arith)
  | inr (inr (inl (e, l, f, g))) ↦ rw (loop-fail n now total input h e l f, g) rank_failed_least
  | inr (inr (inr (e, l, p, f, r))) ↦
      let t = (process_state now input h).1 in
      let rest = drop (need h.state) input in
      rw (loop-next n now total input h e l p f)
        (omega (arith, r, loop-rank n now (total + need h.state) rest t))
]

pub loop-next_total :
    (n now : ℕ) (input : List ℕ) (h : HandshakeHandler)
    → IsNext now input h
    → process_loop (suc n) now input 0 h
      ≡ after_bytes
          (need h.state)
          (process_loop n now (drop (need h.state) input) 0 (process_state now input h).1)
loop-next_total n now input h (e, l, p, f, r) =
    let t = (process_state now input h).1 in
    let rest = drop (need h.state) input in
    loop-next n now 0 input h e l p f
    ∙ loop-total n now (0 + need h.state) rest t
    ∙ ap (λ k. after_bytes k (process_loop n now rest 0 t)) (the_sum (need h.state))
  where
    the_sum : (k : ℕ) → 0 + k ≡ k
    the_sum k = omega arith
