-- ===== src/Api/ChunkWriter.antt =====
-- The chunk serializer of src/api/rtmp_server.cpp (serializeChunk, buildProtocolControlMessage and
-- buildSetPeerBandwidth), which writes what the chunk parser of the other side reads.
-- `result` is returned, not filled; the calls of `reserve` have no effect on it. `|` joins disjoint
-- bits, so it is written as a sum, and a conversion to uint8_t is `% 256`.
pub mod Headers
pub mod Body
pub mod Loop
pub mod Message
pub mod Total
pub mod RoundTrip
pub mod Streams
pub mod Sequence
pub mod Control
pub mod Split
use open_rtmp_claude_kiro.Common.{
  Bool, List, Option, [], drop, false, if◌then◌else◌, leb, length, ltb, min, none, some, suc, take,
  true, zero, ℕ, ◌%◌, ◌*◌, ◌++◌, ◌+◌, ◌-◌, ◌/◌, ◌∷◌,
}
use mathlib.Core.Option

-- The basic header: format and chunk stream id in one to three bytes.
unfoldable pub basic_header : ℕ → ℕ → List ℕ
basic_header fmt csid =
    let csid_minus_64 = (csid - 64) % 65536 in
    if ltb csid 64
    then (fmt * 64 + csid) ∷ []
    else if ltb csid 320
    then (fmt * 64) ∷ ((csid - 64) % 256) ∷ []
    else (fmt * 64 + 1) ∷ (csid_minus_64 % 256) ∷ (csid_minus_64 / 256 % 256) ∷ []

-- The eleven bytes of a Type 0 message header.
unfoldable pub message_header : ℕ → ℕ → ℕ → ℕ → List ℕ
message_header timestamp message_length type_id stream_id =
    let ts = if leb 0xFFFFFF timestamp then 0xFFFFFF else timestamp in
    (ts / 65536 % 256)
    ∷ (ts / 256 % 256)
    ∷ (ts % 256)
    ∷ (message_length / 65536 % 256)
    ∷ (message_length / 256 % 256)
    ∷ (message_length % 256)
    ∷ type_id
    ∷ (stream_id % 256)
    ∷ (stream_id / 256 % 256)
    ∷ (stream_id / 65536 % 256)
    ∷ (stream_id / 16777216 % 256)
    ∷ []

unfoldable pub extended_timestamp : ℕ → List ℕ
extended_timestamp timestamp =
    if leb 0xFFFFFF timestamp
    then (timestamp / 16777216 % 256)
      ∷ (timestamp / 65536 % 256)
      ∷ (timestamp / 256 % 256)
      ∷ (timestamp % 256)
      ∷ []
    else []

-- The loop over the payload, on the bytes from `offset` on; `first` is `offset == 0`. `none` is no
-- result of the code: the fuel ran out.
unfoldable pub write_payload : ℕ → Bool → ℕ → ℕ → ℕ → List ℕ → Option (List ℕ)
write_payload fuel first csid timestamp chunk_size [] = some []
write_payload zero first csid timestamp chunk_size (b ∷ rest) = none
write_payload (suc fuel) first csid timestamp chunk_size (b ∷ rest) =
    let n = min chunk_size (length (b ∷ rest)) in
    let head = if first then [] else basic_header 3 csid ++ extended_timestamp timestamp in
    Option.map (λ tail. head ++ (take n (b ∷ rest) ++ tail))
      (write_payload fuel false csid timestamp chunk_size (drop n (b ∷ rest)))

-- `chunk_size` 0 would loop for ever; a larger one writes a byte each round, so that the length of
-- the payload is fuel enough.
unfoldable pub serialize_chunk : ℕ → ℕ → ℕ → ℕ → ℕ → List ℕ → ℕ → Option (List ℕ)
serialize_chunk csid timestamp message_length type_id stream_id payload chunk_size =
    Option.map
      (λ body.
        basic_header 0 csid
        ++ (message_header timestamp message_length type_id stream_id
            ++ (extended_timestamp timestamp ++ body)))
      (write_payload (length payload) true csid timestamp chunk_size payload)

-- The four bytes of `value`, highest first.
unfoldable pub word_bytes : ℕ → List ℕ
word_bytes value =
    (value / 16777216 % 256) ∷ (value / 65536 % 256) ∷ (value / 256 % 256) ∷ (value % 256) ∷ []

unfoldable pub build_protocol_control_message : ℕ → ℕ → Option (List ℕ)
build_protocol_control_message type_id value =
    serialize_chunk 2 0 4 type_id 0 (word_bytes value) 128

pub build_set_peer_bandwidth : ℕ → ℕ → Option (List ℕ)
build_set_peer_bandwidth window_size limit_type =
    serialize_chunk 2 0 5 6 0 (word_bytes window_size ++ (limit_type ∷ [])) 128
