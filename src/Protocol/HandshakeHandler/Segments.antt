-- ===== src/Protocol/HandshakeHandler/Segments.antt =====
-- A handshake whose input arrives in pieces.
use open_rtmp_claude_kiro.Common.{
  ==_iff, Bool-cases, List, ap, arith, drop, drop-append, drop-drop, inl, inr, length,
  length-append, refl, suc, sym, true, zero, ℕ, ◌++◌, ◌+◌, ◌==◌, ◌∙◌, ◌≡◌, ◌≤◌,
}
use open_rtmp_claude_kiro.Protocol.HandshakeHandler.{
  HandshakeHandler, HandshakeResult, is_terminal, ok, process_data, process_loop, process_state,
  rounds,
}
use open_rtmp_claude_kiro.Protocol.HandshakeHandler.Loop.{
  IsNext, after-after, after_bytes, loop-end, loop-fail, loop-fuel, loop-next_total, loop-rank,
  loop-short, round-cases,
}
use open_rtmp_claude_kiro.Protocol.HandshakeHandler.Steps.{
  need, positive-need, process_state-append, rank, rank_most,
}

-- Whether a round is one more depends on the bytes that the state waits for.
IsNext-append :
    (now : ℕ) (xs ys : List ℕ) (h : HandshakeHandler) → IsNext now xs h → IsNext now (xs ++ ys) h
IsNext-append now xs ys h (e, l, p, f, r) =
    let q = process_state-append now xs ys h l in
    (e, omega (arith, length-append xs ys), p, rw (q) f, rw (q) r)

-- The bytes that a loop consumes.
abbrev pub consumed : HandshakeResult × HandshakeHandler → ℕ
consumed x = x.0.bytes_consumed

-- The rounds of input in two pieces: those of the first piece, then those of what it leaves and
-- the second piece.
abbrev IsSplit :
    ℕ → ℕ → List ℕ → List ℕ → HandshakeHandler → HandshakeResult × HandshakeHandler → Type 0
IsSplit n now xs ys h x =
    process_loop n now (xs ++ ys) 0 h
    ≡ after_bytes (consumed x) (process_loop n now (drop (consumed x) xs ++ ys) 0 x.1)

stays-IsSplit :
    (n now : ℕ) (xs ys : List ℕ) (h : HandshakeHandler)
    → process_loop n now xs 0 h ≡ (ok 0, h)
    → IsSplit n now xs ys h (process_loop n now xs 0 h)
stays-IsSplit n now xs ys h e = rw (e) (after-zero _)
  where
    after-zero : (x : HandshakeResult × HandshakeHandler) → x ≡ after_bytes 0 x
    after-zero (r, t) = ground arith

next-IsSplit :
    (n now : ℕ) (xs ys : List ℕ) (h : HandshakeHandler)
    → rank h.state ≤ suc n
    → IsNext now xs h
    → let t = (process_state now xs h).1 in
      let x = process_loop n now (drop (need h.state) xs) 0 t in
      x.0.success ≡ true
      → IsSplit n now (drop (need h.state) xs) ys t x
      → IsSplit (suc n) now xs ys h (after_bytes (need h.state) x)
next-IsSplit n now xs ys h b v s i =
    let k = need h.state in
    let t = (process_state now xs h).1 in
    let x = process_loop n now (drop k xs) 0 t in
    let rest = drop (k + consumed x) xs ++ ys in
    rw (s) (
      loop-next_total n now (xs ++ ys) h (IsNext-append now xs ys h v)
      ∙ ap
          (λ (u : HandshakeResult × HandshakeHandler).
            after_bytes k (process_loop n now (drop k (xs ++ ys)) 0 u.1))
          (process_state-append now xs ys h v.1)
      ∙ ap (λ d. after_bytes k (process_loop n now d 0 t)) (drop-append k xs ys v.1)
      ∙ ap (after_bytes k) i
      ∙ after-after k (consumed x) (k + consumed x) _ refl
      ∙ ap (λ d. after_bytes (k + consumed x) (process_loop n now (d ++ ys) 0 x.1))
          (drop-drop (consumed x) k (k + consumed x) xs refl)
      ∙ ap (after_bytes (k + consumed x))
          (sym (loop-fuel n now 0 rest x.1 (omega (arith, v, loop-rank n now 0 (drop k xs) t)))))

loop-append :
    (n now : ℕ) (xs ys : List ℕ) (h : HandshakeHandler)
    → rank h.state ≤ n
    → (process_loop n now xs 0 h).0.success ≡ true
    → IsSplit n now xs ys h (process_loop n now xs 0 h)
unfolding process_loop
loop-append zero now xs ys h b s = stays-IsSplit zero now xs ys h refl
loop-append (suc n) now xs ys h b s = elim (round-cases now xs h) [
  | inl e ↦ stays-IsSplit (suc n) now xs ys h (loop-end (suc n) now 0 xs h e)
  | inr (inl e) ↦ stays-IsSplit (suc n) now xs ys h (loop-short (suc n) now 0 xs h e)
  | inr (inr (inl (e, l, f, g))) ↦
      absurd (ground (arith, s, f, ap (λ x. x.0.success) (loop-fail n now 0 xs h e l f)))
  | inr (inr (inr v)) ↦
      let t = (process_state now xs h).1 in
      let q = loop-next_total n now xs h v in
      let u = sym (ap (λ x. x.0.success) q) ∙ s in
      rw (q) (
        next-IsSplit n now xs ys h b v u
          (loop-append n now (drop (need h.state) xs) ys t (ground (arith, v)) u))
]

pub process_data-loop :
    (now : ℕ) (input : List ℕ) (h : HandshakeHandler)
    → process_data now input h ≡ process_loop rounds now input 0 h
unfolding process_data
process_data-loop now input h = elim (Bool-cases (is_terminal h.state)) [
  | inl e ↦ rw (e) (sym (loop-end rounds now 0 input h e))
  | inr e ↦ elim (Bool-cases (length input == 0)) [
    | inl z ↦
        rw (e, z)
          (sym (
            loop-short rounds now 0 input h
              (omega (arith, (==_iff (length input) 0).0 z, positive-need h.state e))))
    | inr z ↦ rw (e, z) refl
  ]
]

-- Input may arrive in any two pieces. When the handler has succeeded on the first piece, handling
-- both pieces at once gives what handling, after the first, the bytes it left and the second piece
-- gives, at the same clock reading: the same outcome and handler, with the bytes consumed added
-- up.
pub process_data-append :
    (now : ℕ) (xs ys : List ℕ) (h : HandshakeHandler)
    → (process_data now xs h).0.success ≡ true
    → let x = process_data now xs h in
      process_data now (xs ++ ys) h
      ≡ after_bytes (consumed x) (process_data now (drop (consumed x) xs ++ ys) x.1)
process_data-append now xs ys h s =
    rw
      (
        process_data-loop now xs h,
        process_data-loop now (xs ++ ys) h,
        process_data-loop now _ (process_loop rounds now xs 0 h).1,
      )
      (loop-append rounds now xs ys h (rank_most h.state) (rw (sym (process_data-loop now xs h)) s))
