-- ===== src/Protocol/HandshakeHandler/Steps.antt =====
-- One round of the handshake, by the number of bytes that the state waits for.
use open_rtmp_claude_kiro.Common.{
  Bool-cases, List, [], arith, drop, drop-append, false, inl, inr, length, length-append,
  length-drop, le→ltb, refl, suc, take-append, zero, ℕ, ◌++◌, ◌<◌, ◌==◌, ◌∷◌, ◌≡◌, ◌≤◌, ◌⊎◌,
}
use open_rtmp_claude_kiro.Protocol.HandshakeHandler.{
  HandshakeHandler, HandshakeResult, HandshakeState, c1_size, complete, failed, is_terminal, ok,
  process_c0, process_c1, process_c2, process_state, random_size, random_start, rtmp_version,
  same_bytes, timestamp_size, validate_c2_echo, waiting_c0, waiting_c1, waiting_c2,
}

-- What the state waits for, and how many states follow.
unfoldable pub need : HandshakeState → ℕ
need waiting_c0 = 1
need waiting_c1 = 1536
need waiting_c2 = 1536
need _ = 0

unfoldable pub rank : HandshakeState → ℕ
rank waiting_c0 = 3
rank waiting_c1 = 2
rank waiting_c2 = 1
rank _ = 0

pub terminal-rank : (s : HandshakeState) → is_terminal s ≡ false → 0 < rank s
unfolding is_terminal rank
terminal-rank s h = ground arith

pub positive-need : (s : HandshakeState) → is_terminal s ≡ false → 0 < need s
unfolding is_terminal need
positive-need waiting_c0 e = omega arith
positive-need waiting_c1 e = omega arith
positive-need waiting_c2 e = omega arith
positive-need complete e = absurd (ground arith)
positive-need failed e = absurd (ground arith)

pub rank_most : (s : HandshakeState) → rank s ≤ 3
unfolding rank
rank_most s = ground arith

pub rank_failed_least : {n : ℕ} → rank failed ≤ n
unfolding rank
rank_failed_least = omega arith

same_bytes-append :
    (n : ℕ) (xs ys zs : List ℕ) → n ≤ length xs → same_bytes n (xs ++ ys) zs ≡ same_bytes n xs zs
unfolding same_bytes
same_bytes-append zero xs ys zs h = refl
same_bytes-append (suc n) [] ys zs h = absurd (omega arith)
same_bytes-append (suc n) (x ∷ xs) ys [] h = refl
same_bytes-append (suc n) (x ∷ xs) ys (z ∷ zs) h =
    rw (same_bytes-append n xs ys zs (omega arith)) refl

validate_c2_echo-append :
    (xs ys : List ℕ) (h : HandshakeHandler)
    → c1_size ≤ length xs
    → validate_c2_echo (xs ++ ys) h ≡ validate_c2_echo xs h
unfolding validate_c2_echo
validate_c2_echo-append xs ys h e =
    rw
      (
        same_bytes-append timestamp_size xs ys h.s1_data (omega arith),
        drop-append random_start xs ys (omega arith),
        same_bytes-append random_size (drop random_start xs) ys (drop random_start h.s1_data)
            (omega (arith, length-drop random_start xs)),
      )
      refl

-- Too few bytes change nothing.
pub process_state-short :
    (now : ℕ) (input : List ℕ) (h : HandshakeHandler)
    → length input < need h.state
    → process_state now input h ≡ (ok 0, h)
unfolding process_state process_c0 process_c1 process_c2 need
process_state-short now input h e = ground arith

process_c0-append :
    (xs ys : List ℕ) (h : HandshakeHandler)
    → 1 ≤ length xs
    → process_c0 (xs ++ ys) h ≡ process_c0 xs h
unfolding process_c0
process_c0-append [] ys h e = absurd (omega arith)
process_c0-append (x ∷ xs) ys h e = refl

le-length_append : (n : ℕ) (xs ys : List ℕ) → n ≤ length xs → n ≤ length (xs ++ ys)
le-length_append n xs ys e = omega (arith, length-append xs ys)

process_c1-append :
    (now : ℕ) (xs ys : List ℕ) (h : HandshakeHandler)
    → c1_size ≤ length xs
    → process_c1 now (xs ++ ys) h ≡ process_c1 now xs h
unfolding process_c1
process_c1-append now xs ys h e =
    rw
      (
        le→ltb (length (xs ++ ys)) c1_size (le-length_append c1_size xs ys e),
        le→ltb (length xs) c1_size e,
        take-append c1_size xs ys e,
      )
      refl

process_c2-append :
    (xs ys : List ℕ) (h : HandshakeHandler)
    → c1_size ≤ length xs
    → process_c2 (xs ++ ys) h ≡ process_c2 xs h
unfolding process_c2
process_c2-append xs ys h e =
    rw
      (
        le→ltb (length (xs ++ ys)) c1_size (le-length_append c1_size xs ys e),
        le→ltb (length xs) c1_size e,
        validate_c2_echo-append xs ys h e,
      )
      refl

-- Bytes beyond those that the state waits for are not read.
pub process_state-append :
    (now : ℕ) (xs ys : List ℕ) (h : HandshakeHandler)
    → need h.state ≤ length xs
    → process_state now (xs ++ ys) h ≡ process_state now xs h
unfolding process_state need
process_state-append now xs ys h e = go h.state refl
  where
    go :
        (s : HandshakeState) → h.state ≡ s → process_state now (xs ++ ys) h ≡ process_state now xs h
    go waiting_c0 q = rw (q, process_state) (process_c0-append xs ys h (ground (arith, q)))
    go waiting_c1 q = rw (q, process_state) (process_c1-append now xs ys h (ground (arith, q)))
    go waiting_c2 q = rw (q, process_state) (process_c2-append xs ys h (ground (arith, q)))
    go complete q = rw (q, process_state) refl
    go failed q = rw (q, process_state) refl

-- A round that fails, fails for good; a round that does not, consumes what the state waits for and
-- leaves fewer states to come.
abbrev pub IsProgress : HandshakeState → HandshakeResult × HandshakeHandler → Type 0
IsProgress s (r, t) =
    ((r.success ≡ false) × (t.state ≡ failed))
    ⊎ ((r ≡ ok (need s)) × (suc (rank t.state) ≡ rank s) × (0 < need s))

process_c0-long :
    (input : List ℕ) (h : HandshakeHandler)
    → 1 ≤ length input
    → IsProgress waiting_c0 (process_c0 input h)
unfolding process_c0 need rank
process_c0-long [] h e = absurd (omega arith)
process_c0-long (x ∷ xs) h e = elim (Bool-cases (x == rtmp_version)) [
  | inl q ↦ rw (q) (inr (refl, omega arith, omega arith))
  | inr q ↦ rw (q) (inl (refl, refl))
]

process_c1-long :
    (now : ℕ) (input : List ℕ) (h : HandshakeHandler)
    → c1_size ≤ length input
    → IsProgress waiting_c1 (process_c1 now input h)
unfolding process_c1 need rank
process_c1-long now input h e =
    rw (le→ltb (length input) c1_size e) (inr (refl, omega arith, omega arith))

process_c2-long :
    (input : List ℕ) (h : HandshakeHandler)
    → c1_size ≤ length input
    → IsProgress waiting_c2 (process_c2 input h)
unfolding process_c2 need rank
process_c2-long input h e = elim (Bool-cases (validate_c2_echo input h)) [
  | inl q ↦ rw (le→ltb (length input) c1_size e, q) (inr (refl, omega arith, omega arith))
  | inr q ↦ rw (le→ltb (length input) c1_size e, q) (inl (refl, refl))
]

pub process_state-long :
    (now : ℕ) (input : List ℕ) (h : HandshakeHandler)
    → is_terminal h.state ≡ false
    → need h.state ≤ length input
    → IsProgress h.state (process_state now input h)
unfolding process_state is_terminal need
process_state-long now input h n e = go h.state refl
  where
    go : (s : HandshakeState) → h.state ≡ s → IsProgress h.state (process_state now input h)
    go waiting_c0 q = rw (q, process_state) (process_c0-long input h (ground (arith, q)))
    go waiting_c1 q = rw (q, process_state) (process_c1-long now input h (ground (arith, q)))
    go waiting_c2 q = rw (q, process_state) (process_c2-long input h (ground (arith, q)))
    go complete q = absurd (ground (arith, q))
    go failed q = absurd (ground (arith, q))
