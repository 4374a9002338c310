-- ===== src/Protocol/HandshakeHandler.antt =====
-- HandshakeHandler of include/openrtmp/protocol/handshake_handler.hpp and
-- src/protocol/handshake_handler.cpp. The clock's reading and the random bytes, which the platform
-- gives, are arguments. Errors carry no text.
pub mod Steps
pub mod Loop
pub mod Segments
pub mod Exchange
use open_rtmp_claude_kiro.Common.{
  Bool, List, Option, [], drop, false, if◌then◌else◌, leb, length, ltb, none, not, some, suc, take,
  true, zero, ℕ, ◌%◌, ◌&&◌, ◌++◌, ◌+◌, ◌/◌, ◌==◌, ◌||◌, ◌∷◌,
}

pub data HandshakeState : Type 0 where
  waiting_c0 waiting_c1 waiting_c2 complete failed : HandshakeState

pub data HandshakeErrorCode : Type 0 where
  invalid_version malformed_packet timeout : HandshakeErrorCode

pub record HandshakeResult : Type 0 where
  pub success : Bool
  pub bytes_consumed : ℕ
  pub error : Option HandshakeErrorCode

abbrev pub ok : ℕ → HandshakeResult
ok n = record { success = true; bytes_consumed = n; error = none }

abbrev pub fail : HandshakeErrorCode → HandshakeResult
fail e = record { success = false; bytes_consumed = 0; error = some e }

pub record HandshakeHandler : Type 0 where
  pub state : HandshakeState
  pub s1_data : List ℕ
  pub c1_data : List ℕ
  pub response_data : List ℕ
  pub server_timestamp : ℕ

abbrev pub rtmp_version : ℕ
rtmp_version = 3

abbrev pub timestamp_size : ℕ
timestamp_size = 4

abbrev pub random_start : ℕ
random_start = 8

abbrev pub random_size : ℕ
random_size = 1528

abbrev pub c1_size : ℕ
c1_size = 1536

-- `BufferWriter::writeUint32BE`.
abbrev pub write_uint32_be : ℕ → List ℕ
write_uint32_be v = v / 16777216 % 256 ∷ v / 65536 % 256 ∷ v / 256 % 256 ∷ v % 256 ∷ []

-- The constructor, with the clock's reading and the random bytes.
pub new_handler : ℕ → List ℕ → HandshakeHandler
new_handler now random = record {
  state = waiting_c0;
  s1_data = write_uint32_be now ++ (write_uint32_be 0 ++ random);
  c1_data = [];
  response_data = [];
  server_timestamp = now;
}

abbrev zeros : ℕ → List ℕ
zeros zero = []
zeros (suc n) = 0 ∷ zeros n

-- S2: the timestamp of the client's first packet, the clock's reading, and that packet's random bytes.
pub echo_c1 : ℕ → List ℕ → List ℕ
echo_c1 now c1 =
    (if leb timestamp_size (length c1) then take timestamp_size c1 else write_uint32_be 0)
    ++ (write_uint32_be now
        ++ (if leb c1_size (length c1)
            then take random_size (drop random_start c1)
            else zeros random_size))

pub generate_response : ℕ → HandshakeHandler → HandshakeHandler
generate_response now h = record h {
  response_data = rtmp_version ∷ h.s1_data ++ echo_c1 now h.c1_data;
}

-- `memcmp(a, b, n) == 0` of buffers that have n bytes.
pub same_bytes : ℕ → List ℕ → List ℕ → Bool
same_bytes zero xs ys = true
same_bytes (suc n) (x ∷ xs) (y ∷ ys) = x == y && same_bytes n xs ys
same_bytes (suc n) _ _ = false

pub validate_c2_echo : List ℕ → HandshakeHandler → Bool
validate_c2_echo c2 h =
    same_bytes timestamp_size c2 h.s1_data
    && same_bytes random_size (drop random_start c2) (drop random_start h.s1_data)

unfoldable pub process_c0 : List ℕ → HandshakeHandler → HandshakeResult × HandshakeHandler
process_c0 [] h = (ok 0, h)
process_c0 (version ∷ rest) h =
    if version == rtmp_version
    then (ok 1, record h { state = waiting_c1 })
    else (fail invalid_version, record h { state = failed })

unfoldable pub process_c1 : ℕ → List ℕ → HandshakeHandler → HandshakeResult × HandshakeHandler
process_c1 now input h = if ltb (length input) c1_size then (ok 0, h) else (
  ok c1_size,
  record (generate_response now (record h { c1_data = take c1_size input })) { state = waiting_c2 },
)

pub process_c2 : List ℕ → HandshakeHandler → HandshakeResult × HandshakeHandler
process_c2 input h =
    if ltb (length input) c1_size
    then (ok 0, h)
    else if validate_c2_echo input h
    then (ok c1_size, record h { state = complete })
    else (fail malformed_packet, record h { state = failed })

-- The `switch` of `processData`.
unfoldable pub process_state : ℕ → List ℕ → HandshakeHandler → HandshakeResult × HandshakeHandler
process_state now input h = elim h.state [
  | waiting_c0 ↦ process_c0 input h
  | waiting_c1 ↦ process_c1 now input h
  | waiting_c2 ↦ process_c2 input h
  | complete ↦ (ok 0, h)
  | failed ↦ (ok 0, h)
]

unfoldable pub is_terminal : HandshakeState → Bool
is_terminal complete = true
is_terminal failed = true
is_terminal _ = false

-- The loop of `processData` on fuel, with the bytes consumed so far.
unfoldable pub process_loop :
    ℕ → ℕ → List ℕ → ℕ → HandshakeHandler → HandshakeResult × HandshakeHandler
process_loop zero now input total h = (ok total, h)
process_loop (suc n) now input total h =
    let (r, t) = process_state now input h in
    let rest = process_loop n now (drop r.bytes_consumed input) (total + r.bytes_consumed) t in
    if length input == 0 || is_terminal h.state
    then (ok total, h)
    else if not r.success
    then (r, t)
    else if r.bytes_consumed == 0
    then (ok total, t)
    else rest

-- Each round but the last moves to the next state, so three rounds are enough.
abbrev pub rounds : ℕ
rounds = 3

unfoldable pub process_data : ℕ → List ℕ → HandshakeHandler → HandshakeResult × HandshakeHandler
process_data now input h =
    if is_terminal h.state || length input == 0
    then (ok 0, h)
    else process_loop rounds now input 0 h

unfoldable pub get_response_data : HandshakeHandler → List ℕ × HandshakeHandler
get_response_data h = (h.response_data, record h { response_data = [] })

unfoldable pub is_complete : HandshakeHandler → Bool
is_complete h = elim h.state [ complete ↦ true | _ ↦ false ]
