-- ===== src/Streaming/Types.antt =====
-- include/openrtmp/core/types.hpp: the identifiers and the stream key. An invalid identifier is 0.
use open_rtmp_claude_kiro.Common.{Bool, String, arith, true, ℕ, ◌&&◌, ◌↔◌, ◌≡◌}
use open_rtmp_claude_kiro.Common.Maps.{Eq}
use text.Mathlib.Text.{◌==◌ as str_eq}
use text.Mathlib.TextEquality.{eq_iff}

pub record StreamKey : Type 0 where
  pub app : String
  pub name : String

-- `StreamKey()`.
abbrev pub no_key : StreamKey
no_key = record { app = ""; name = "" }

abbrev pub invalid_stream_id : ℕ
invalid_stream_id = 0

-- `operator==`.
abbrev pub stream_key_beq : StreamKey → StreamKey → Bool
stream_key_beq a b = str_eq a.app b.app && str_eq a.name b.name

pub stream_key_beq_iff : (a b : StreamKey) → (stream_key_beq a b ≡ true) ↔ (a ≡ b)
stream_key_beq_iff a b = (
  λ h. ground (arith, eq_iff a.app b.app, eq_iff a.name b.name),
  λ h. ground (arith, eq_iff a.app b.app, eq_iff a.name b.name),
)

instance abbrev pub stream_key_eq : Eq StreamKey
stream_key_eq = record { beq = stream_key_beq; beq_iff = stream_key_beq_iff }
