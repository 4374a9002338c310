-- ===== src/Tests/Greeting.antt =====
-- A handshake.
use open_rtmp_claude_kiro.Common.{List, [], drop, refl, suc, true, zero, ℕ, ◌++◌, ◌∷◌, ◌≡◌}
use open_rtmp_claude_kiro.Protocol.HandshakeHandler.{
  HandshakeHandler, c1_size, get_response_data, is_complete, is_terminal, new_handler, ok,
  process_c0, process_c1, process_data, process_loop, process_state, rtmp_version, validate_c2_echo,
  waiting_c0, waiting_c2, write_uint32_be,
}
use open_rtmp_claude_kiro.Protocol.HandshakeHandler.Exchange.{echo_of, handshake-completes}
use open_rtmp_claude_kiro.Protocol.HandshakeHandler.Loop.{after_bytes}
use open_rtmp_claude_kiro.Protocol.HandshakeHandler.Segments.{consumed, process_data-append}

abbrev zeros : ℕ → List ℕ
zeros zero = []
zeros (suc n) = 0 ∷ zeros n

abbrev c1 : List ℕ
c1 = zeros 1536

-- A handler that has sent its S1, which is that of the client as well.
abbrev peer : HandshakeHandler
peer = record {
  state = waiting_c2;
  s1_data = c1;
  c1_data = [];
  response_data = [];
  server_timestamp = 0;
}

process_data-append_example :
    let x = process_data 5 (3 ∷ 0 ∷ []) (record peer { state = waiting_c0 }) in
    process_data 5 (3 ∷ 0 ∷ 0 ∷ []) (record peer { state = waiting_c0 })
    ≡ after_bytes (consumed x) (process_data 5 (drop (consumed x) (3 ∷ 0 ∷ []) ++ (0 ∷ [])) x.1)
process_data-append_example =
    process_data-append 5 (3 ∷ 0 ∷ []) (0 ∷ []) (record peer { state = waiting_c0 }) first_succeeds
  where
    first_succeeds :
        (process_data 5 (3 ∷ 0 ∷ []) (record peer { state = waiting_c0 })).0.success ≡ true
    first_succeeds =
        unfold process_data process_loop process_state process_c0 process_c1 is_terminal in refl

handshake-completes_example :
    let h = new_handler 7 (zeros 1528) in
    let s2 = echo_of (write_uint32_be 8) c1 in
    let (r, t) = process_data 8 (rtmp_version ∷ c1) h in
    let (response, u) = get_response_data t in
    let (q, v) = process_data 9 (echo_of (1 ∷ 2 ∷ 3 ∷ 4 ∷ []) h.s1_data) u in
    (r ≡ ok 1537)
    × (response ≡ rtmp_version ∷ h.s1_data ++ s2)
    × (validate_c2_echo s2 peer ≡ true)
    × (q ≡ ok c1_size)
    × (is_complete v ≡ true)
handshake-completes_example =
    handshake-completes 8 9 (zeros 1528) c1 (1 ∷ 2 ∷ 3 ∷ 4 ∷ []) 7 peer refl refl refl refl
