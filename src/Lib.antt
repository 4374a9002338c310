-- ===== src/Lib.antt =====
-- A verification library for OpenRTMP, an RTMP media server.
--
-- The program. A connection's bytes go through the handshake (src/protocol/handshake_handler.cpp),
-- then through the chunk parser (src/protocol/chunk_parser.cpp), which splits them into chunks of
-- several interleaved chunk streams and joins the chunks of a message, and through the message
-- assembler (src/protocol/message_assembler.cpp), which reports typed messages by callbacks. The
-- server (src/api/rtmp_server.cpp) answers with messages that it serializes as chunks. A session
-- (src/streaming/session.cpp) is the state machine of one connection, the stream registry
-- (src/streaming/stream_registry.cpp) holds the published streams and hands out stream identifiers,
-- and the publisher limit (src/core/publisher_limit.cpp) bounds how many clients publish. Commands
-- and metadata are values of AMF0 and AMF3 (src/protocol/amf_codec.cpp). Media frames wait in a GOP
-- buffer for new subscribers (src/streaming/gop_buffer.cpp) and in a buffer for each subscriber
-- (src/streaming/subscriber_buffer.cpp), which drops frames of slow ones.
-- Connections are objects of a pool (src/core/connection_pool.cpp).
--
-- The modules.
--   Common: shared names, lists on native numbers, maps and sets, machine words, Boolean tests.
--   Protocol/ChunkParser: State (the parser's state and its small operations: setChunkSize,
--     abortChunkStream, getCompletedChunks), Header (parseBasicHeader, parseMessageHeader and the
--     extended timestamp), Rounds (parse, one round of its loop for each function, and
--     processProtocolControlMessage); Total and Bounds are about parse.
--   Protocol/MessageAssembler: processChunk, abortMessage, clear and the two switches over message
--     types; its children are about sequences of chunks.
--   Protocol/HandshakeHandler: processData with its three states and generateResponse; Steps is
--     about one round, Loop about its repetition, Segments about input in pieces, Exchange about a
--     whole handshake.
--   Protocol/HandshakeTimeout: HandshakeHandlerWithTimeout, which adds a timer, a log and callbacks;
--     Effects counts what it reports, Outcomes is about sequences of events.
--   Protocol/AmfCodec: Values (AMFValue, errors, the reference tables, big-endian numbers), Doubles
--     (the bits of a double), Decode and Encode (one function for each function of AMF0), Amf3
--     (the same of AMF3). Decode/Bounds, Leaves and Nested follow the decoders from bytes to
--     nested values, LongString is about one guard; Encode/Normal says what can be encoded, and
--     Encode/RoundTrip and Nested, and Amf3/Integers and RoundTrip, bring encoders and decoders
--     together.
--   Api/ChunkWriter: serializeChunk, buildProtocolControlMessage and buildSetPeerBandwidth; its
--     children bring it together with the chunk parser.
--   Streaming: Types (StreamKey), Session (one function for each operation of the class), and
--     StreamRegistry (likewise; Index and Lookup are about its two maps, Allocation about stream
--     identifiers, Subscribers about the subscribers of a stream).
--   Streaming/Frames: BufferedFrame and the loops over sizes and timestamps.
--   Streaming/SubscriberBuffer: the class; Drops is about the frames that stay, Accounts about the
--     counts, Limits about the end of the loops, Runs about operations in any order.
--     SubscriberBufferManager is the map of the buffers; Distribution and Runs are about all of them.
--   Streaming/GopBuffer: the class; Keyframes is about the index of the last keyframe, Eviction
--     about what an eviction leaves, Runs about operations in any order.
--   Core/PublisherLimit: acquirePublisherSlot, releasePublisherSlot, checkWatermarks and the rest
--     of the class; Bounds, Watermarks and Balance are about sequences of calls.
--   Core/Buffer: Buffer, BufferReader and BufferWriter (include/openrtmp/core/buffer.hpp).
--   Core/ConnectionPool: State (connections, configuration, statistics) and Operations; Entries and
--     Invariant are about the queue of free entries and the map of handles, Limit about refusals,
--     Handles about a handle from its acquisition to its release.
--   Tests: runs at concrete inputs.
--
-- Conventions. A class is a record of its fields, and an operation a function from the record to
-- its result and the new record. A byte is a native number; no theorem needs it to be below 256
-- unless it says so. uint32_t arithmetic has its wrap-around written out (% 2 ^ 32), size_t and
-- uint64_t arithmetic likewise where it can wrap. Calls of callbacks are events that the operation
-- returns. Mutexes make each call one step. The clock and random bytes are arguments. Unordered and
-- ordered containers are association lists and lists without repetition.
--
-- Loops. parse and the payload loop of serializeChunk are recursive on fuel; none is returned when
-- the fuel is used up. The fuel is the length of the input, and each round consumes at least one
-- byte of it. With 2 ^ 32 bytes or more in one call the conversion of the length to uint32_t can
-- give 0, and then the loop of the source does not move, so the theorems about parse have that
-- bound. The loop of the handshake has three rounds, since each moves on by one of three states.
--
-- The decoders of AMF0 recurse on the levels of nesting that are left, 33 at the top, and their
-- loops over properties are on fuel, the length of the data: each round consumes two bytes or more.
-- out_of_fuel would be the outcome of a loop that needs more, and out_of_bounds is that of a read
-- beyond the data. The loop of enforceBufferLimit is on fuel too, one more than the frames; when it
-- is used up the buffer is returned as it is, and must_drop tells whether the loop would go on.
--
-- Not modelled: texts of errors, times of events, moves of objects, getters of a single field,
-- durations below zero, interleavings of threads inside a call, the commands and the distribution
-- of media (src/protocol/command_handler.cpp, src/streaming/media_handler.cpp), authentication, and
-- the components that are input and output (sockets, files, timers, logging, TLS).
pub mod Common
pub mod Protocol
pub mod Api
pub mod Core
pub mod Streaming
pub mod Tests
