-- ===== src/Protocol/AmfCodec.antt =====
-- include/openrtmp/protocol/amf_codec.hpp and src/protocol/amf_codec.cpp. A std::string is the list of
-- its bytes, and a double is the number that its 64 bits are.
pub mod Values
pub mod Doubles
pub mod Amf3
pub mod Decode
pub mod Encode
