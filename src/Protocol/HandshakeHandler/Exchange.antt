-- ===== src/Protocol/HandshakeHandler/Exchange.antt =====
-- A whole handshake with a client.
use open_rtmp_claude_kiro.Common.{
  ==_refl, List, [], ap, append-nil, arith, drop, drop-append_self, drop-drop, length,
  length-append, length-drop, length-take, le→leb, le→ltb, refl, subst, suc, sym, take, take-all,
  true, zero, ℕ, ◌++◌, ◌+◌, ◌∙◌, ◌∷◌, ◌≡◌, ◌≤◌,
}
use open_rtmp_claude_kiro.Protocol.HandshakeHandler.{
  HandshakeHandler, HandshakeResult, c1_size, complete, echo_c1, generate_response,
  get_response_data, is_complete, is_terminal, new_handler, ok, process_c0, process_c1, process_c2,
  process_data, process_loop, process_state, random_size, random_start, rtmp_version, same_bytes,
  timestamp_size, validate_c2_echo, waiting_c0, waiting_c1, waiting_c2, write_uint32_be,
}
use open_rtmp_claude_kiro.Protocol.HandshakeHandler.Loop.{loop-end, loop-next, loop-short}
use open_rtmp_claude_kiro.Protocol.HandshakeHandler.Segments.{process_data-loop}
use open_rtmp_claude_kiro.Protocol.HandshakeHandler.Steps.{need}

same_bytes-take :
    (n : ℕ) (xs ys : List ℕ) → n ≤ length xs → same_bytes n (take n xs ++ ys) xs ≡ true
unfolding same_bytes
same_bytes-take zero xs ys h = refl
same_bytes-take (suc n) [] ys h = absurd (omega arith)
same_bytes-take (suc n) (x ∷ xs) ys h = rw (==_refl x) (same_bytes-take n xs ys (omega arith))

drop-length : (n : ℕ) (xs ys : List ℕ) → length xs ≡ n → drop n (xs ++ ys) ≡ ys
drop-length n xs ys e = subst (λ k. drop k (xs ++ ys) ≡ ys) e (drop-append_self xs ys)

-- A packet with the timestamp and the random bytes of another one, and with the stated time.
pub echo_of : List ℕ → List ℕ → List ℕ
echo_of time packet =
    take timestamp_size packet ++ (time ++ take random_size (drop random_start packet))

drop-echo_of :
    (time packet : List ℕ)
    → length time ≡ 4
    → length packet ≡ c1_size
    → drop random_start (echo_of time packet) ≡ take random_size (drop random_start packet)
unfolding echo_of
drop-echo_of time packet l e =
    sym (drop-drop 4 4 8 (echo_of time packet) refl)
    ∙ ap (drop 4) (drop-length 4 (take 4 packet) _ (omega (arith, length-take 4 packet)))
    ∙ drop-length 4 time _ l

same_timestamp :
    (time packet : List ℕ)
    → length packet ≡ c1_size
    → same_bytes timestamp_size (echo_of time packet) packet ≡ true
unfolding echo_of
same_timestamp time packet e = same_bytes-take timestamp_size packet _ (omega arith)

same_bytes-all : (n : ℕ) (xs : List ℕ) → n ≤ length xs → same_bytes n (take n xs) xs ≡ true
same_bytes-all n xs h =
    subst (λ ys. same_bytes n ys xs ≡ true) (append-nil (take n xs)) (same_bytes-take n xs [] h)

-- Any echo of S1 with four bytes of time in the middle is accepted.
validate_c2_echo-echo_of :
    (time : List ℕ) (h : HandshakeHandler)
    → length time ≡ 4
    → length h.s1_data ≡ c1_size
    → validate_c2_echo (echo_of time h.s1_data) h ≡ true
unfolding validate_c2_echo
validate_c2_echo-echo_of time h l e =
    rw (same_timestamp time h.s1_data e, drop-echo_of time h.s1_data l e)
      (same_bytes-all random_size (drop random_start h.s1_data)
        (omega (arith, length-drop random_start h.s1_data)))

length-echo_of :
    (time packet : List ℕ)
    → length time ≡ 4
    → length packet ≡ c1_size
    → length (echo_of time packet) ≡ c1_size
unfolding echo_of
length-echo_of time packet l e = omega (
  arith,
  length-append (take timestamp_size packet) (time ++ take random_size (drop random_start packet)),
  length-append time (take random_size (drop random_start packet)),
  length-take timestamp_size packet,
  length-take random_size (drop random_start packet),
  length-drop random_start packet,
)

-- The handler that has answered to the client's first packet.
answered : ℕ → List ℕ → HandshakeHandler → HandshakeHandler
answered now c1 h = record h {
  state = waiting_c2;
  c1_data = c1;
  response_data = rtmp_version ∷ h.s1_data ++ echo_of (write_uint32_be now) c1;
}

echo_c1-echo_of :
    (now : ℕ) (c1 : List ℕ)
    → length c1 ≡ c1_size
    → echo_c1 now c1 ≡ echo_of (write_uint32_be now) c1
unfolding echo_c1 echo_of
echo_c1-echo_of now c1 e =
    rw (le→leb timestamp_size (length c1) (omega arith), le→leb c1_size (length c1) (omega arith))
      refl

c1_round :
    (now : ℕ) (c1 : List ℕ) (h : HandshakeHandler)
    → length c1 ≡ c1_size
    → process_state now c1 (record h { state = waiting_c1 }) ≡ (ok c1_size, answered now c1 h)
unfolding process_state process_c1 generate_response answered
c1_round now c1 h e =
    rw
      (
        le→ltb (length c1) c1_size (omega arith),
        take-all c1_size c1 (omega arith),
        echo_c1-echo_of now c1 e,
      )
      refl

-- The two rounds of the version and the client's first packet.
first_packets :
    (now : ℕ) (c1 : List ℕ) (h : HandshakeHandler)
    → length c1 ≡ c1_size
    → process_data now (rtmp_version ∷ c1) (record h { state = waiting_c0 })
      ≡ (ok 1537, answered now c1 h)
unfolding process_state process_c0 is_terminal need answered
first_packets now c1 h e =
    let g : HandshakeHandler = record h { state = waiting_c1 } in
    let q = c1_round now c1 h e in
    process_data-loop now (rtmp_version ∷ c1) (record h { state = waiting_c0 })
    ∙ loop-next 2 now 0 (rtmp_version ∷ c1) (record h { state = waiting_c0 }) refl (omega arith)
        (omega arith) refl
    ∙ loop-next 1 now (0 + 1) c1 g refl (omega arith) (omega arith) (ap (λ x. x.0) q)
    ∙ ap (λ (x : HandshakeResult × HandshakeHandler). process_loop 1 now (drop c1_size c1) 1537 x.1)
        q
    ∙ loop-short 1 now 1537 (drop c1_size c1) (answered now c1 h)
        (omega (arith, length-drop c1_size c1))

c2_round :
    (now : ℕ) (c2 : List ℕ) (h : HandshakeHandler)
    → length c2 ≡ c1_size
    → validate_c2_echo c2 h ≡ true
    → process_state now c2 (record h { state = waiting_c2 })
      ≡ (ok c1_size, record h { state = complete })
unfolding process_state process_c2 validate_c2_echo
c2_round now c2 h e v = rw (le→ltb (length c2) c1_size (omega arith), v) refl

last_packet :
    (now : ℕ) (c2 : List ℕ) (h : HandshakeHandler)
    → length c2 ≡ c1_size
    → validate_c2_echo c2 h ≡ true
    → process_data now c2 (record h { state = waiting_c2 })
      ≡ (ok c1_size, record h { state = complete })
unfolding is_terminal need
last_packet now c2 h e v =
    let g : HandshakeHandler = record h { state = waiting_c2 } in
    let q = c2_round now c2 h e v in
    process_data-loop now c2 g
    ∙ loop-next 2 now 0 c2 g refl (omega arith) (omega arith) (ap (λ x. x.0) q)
    ∙ ap
        (λ (x : HandshakeResult × HandshakeHandler).
          process_loop 2 now (drop c1_size c2) (0 + c1_size) x.1)
        q
    ∙ loop-end 2 now (0 + c1_size) (drop c1_size c2) (record h { state = complete }) refl

-- A client that sends the version and a first packet of full size, and then a second one that
-- echoes the server's with any four bytes of time, completes the handshake. All its bytes are
-- consumed; the response is the version, the server's packet, and an echo that a handler accepts
-- whose own packet is the client's.
pub handshake-completes :
    (now later : ℕ) (random c1 time : List ℕ) (start : ℕ) (peer : HandshakeHandler)
    → length random ≡ random_size
    → length c1 ≡ c1_size
    → length time ≡ 4
    → peer.s1_data ≡ c1
    → let h = new_handler start random in
      let s2 = echo_of (write_uint32_be now) c1 in
      let (r, t) = process_data now (rtmp_version ∷ c1) h in
      let (response, u) = get_response_data t in
      let (q, v) = process_data later (echo_of time h.s1_data) u in
      (r ≡ ok 1537)
      × (response ≡ rtmp_version ∷ h.s1_data ++ s2)
      × (validate_c2_echo s2 peer ≡ true)
      × (q ≡ ok c1_size)
      × (is_complete v ≡ true)
unfolding new_handler get_response_data answered is_complete
handshake-completes now later random c1 time start peer lr lc lt p =
    let h = new_handler start random in
    let f = first_packets now c1 h lc in
    let s1 : length h.s1_data ≡ c1_size = omega (arith, length-append (write_uint32_be 0) random) in
    let u : HandshakeHandler = record (answered now c1 h) { response_data = [] } in
    let l =
      last_packet later (echo_of time h.s1_data) u (length-echo_of time h.s1_data lt s1)
        (validate_c2_echo-echo_of time u lt s1) in
    rw (f, l)
      (
        refl,
        refl,
        subst (λ c. validate_c2_echo (echo_of (write_uint32_be now) c) peer ≡ true) p
            (validate_c2_echo-echo_of (write_uint32_be now) peer refl (rw (p) lc)),
        refl,
        refl,
      )
