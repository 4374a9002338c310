-- ===== src/Streaming/Session.antt =====
-- include/openrtmp/streaming/session.hpp and src/streaming/session.cpp. The clock's reading at a call
-- is an argument, the mutex makes each call one step, and a call of the state-change callback is
-- an event that the operation returns. The texts of errors are left out.
pub mod Transitions
pub mod StreamInfo
use open_rtmp_claude_kiro.Common.{
  Bool, List, String, [], false, if◌then◌else◌, true, ℕ, ◌++◌, ◌||◌, ◌∷◌,
}
use open_rtmp_claude_kiro.Streaming.Types.{StreamKey, invalid_stream_id, no_key}

pub data SessionState : Type 0 where
  connecting handshaking connected publishing subscribing disconnected : SessionState

pub data SessionErrorCode : Type 0 where
  invalid_transition already_publishing already_subscribing not_connected : SessionErrorCode
  session_closed internal_error : SessionErrorCode

pub record ClientInfo : Type 0 where
  pub ip : String
  pub port : ℕ
  pub user_agent : String

pub record Session : Type 0 where
  pub session_id : ℕ
  pub connection_id : ℕ
  pub state : SessionState
  pub stream_key : StreamKey
  pub stream_id : ℕ
  pub allocated_stream_id : ℕ
  pub app_name : String
  pub authenticated : Bool
  pub client_info : ClientInfo
  pub created_at : ℕ
  pub last_activity : ℕ
  pub has_callback : Bool

-- The constructor, with the next session identifier.
pub new_session : ℕ → ℕ → ℕ → Session
new_session session_id connection_id now = record {
  session_id = session_id;
  connection_id = connection_id;
  state = connecting;
  stream_key = no_key;
  stream_id = invalid_stream_id;
  allocated_stream_id = invalid_stream_id;
  app_name = "";
  authenticated = false;
  client_info = record { ip = ""; port = 0; user_agent = "" };
  created_at = now;
  last_activity = now;
  has_callback = false;
}

-- A call of the state-change callback: the old state and the new one.
abbrev pub Change : Type 0
Change = SessionState × SessionState

pub data Outcome : Type 0 where
  succeeded : Outcome
  failed : SessionErrorCode → Outcome

-- The result, the callback's calls and the session after a call.
pub record Step : Type 0 where
  pub outcome : Outcome
  pub changes : List Change
  pub after : Session

abbrev pub same_state : SessionState → SessionState → Bool
same_state connecting connecting = true
same_state handshaking handshaking = true
same_state connected connected = true
same_state publishing publishing = true
same_state subscribing subscribing = true
same_state disconnected disconnected = true
same_state _ _ = false

pub is_valid_transition : SessionState → SessionState → Bool
is_valid_transition connecting to = same_state to handshaking || same_state to disconnected
is_valid_transition handshaking to = same_state to connected || same_state to disconnected
is_valid_transition connected to =
    same_state to publishing || (same_state to subscribing || same_state to disconnected)
is_valid_transition publishing to = same_state to connected || same_state to disconnected
is_valid_transition subscribing to = same_state to connected || same_state to disconnected
is_valid_transition disconnected to = false

abbrev pub refuse : Session → Step
refuse s = record { outcome = failed invalid_transition; changes = []; after = s }

-- `emitStateChange`.
abbrev pub emit_state_change : Session → SessionState → SessionState → List Change
emit_state_change s old new = if s.has_callback then (old, new) ∷ [] else []

-- The end of each transition: the session as changed, the clock's reading, and the callback.
abbrev pub enter : SessionState → ℕ → Session → Step
enter old now s = record {
  outcome = succeeded;
  changes = emit_state_change s old s.state;
  after = record s { last_activity = now };
}

pub start_handshake : ℕ → Session → Step
start_handshake now s =
    if is_valid_transition s.state handshaking
    then enter s.state now (record s { state = handshaking })
    else refuse s

pub complete_handshake : ℕ → Session → Step
complete_handshake now s =
    if is_valid_transition s.state connected
    then enter s.state now (record s { state = connected })
    else refuse s

pub start_publishing : StreamKey → ℕ → ℕ → Session → Step
start_publishing key stream_id now s =
    if is_valid_transition s.state publishing
    then enter s.state now
        (record s { state = publishing; stream_key = key; stream_id = stream_id })
    else refuse s

pub stop_publishing : ℕ → Session → Step
stop_publishing now s =
    if same_state s.state publishing
    then enter s.state now
        (record s { state = connected; stream_key = no_key; stream_id = invalid_stream_id })
    else refuse s

pub start_subscribing : StreamKey → ℕ → ℕ → Session → Step
start_subscribing key stream_id now s =
    if is_valid_transition s.state subscribing
    then enter s.state now
        (record s { state = subscribing; stream_key = key; stream_id = stream_id })
    else refuse s

pub stop_subscribing : ℕ → Session → Step
stop_subscribing now s =
    if same_state s.state subscribing
    then enter s.state now
        (record s { state = connected; stream_key = no_key; stream_id = invalid_stream_id })
    else refuse s

pub perform_disconnect_cleanup : Session → Session
perform_disconnect_cleanup s = record s { stream_key = no_key; stream_id = invalid_stream_id }

pub disconnect : ℕ → Session → Step
unfolding perform_disconnect_cleanup
disconnect now s =
    if same_state s.state disconnected
    then record { outcome = succeeded; changes = []; after = s }
    else enter s.state now (perform_disconnect_cleanup (record s { state = disconnected }))

pub is_connected : Session → Bool
is_connected s =
    same_state s.state connected
    || (same_state s.state publishing || same_state s.state subscribing)

unfoldable pub has_active_stream : Session → Bool
has_active_stream s = same_state s.state publishing || same_state s.state subscribing

pub set_app_name : String → ℕ → Session → Session
set_app_name name now s = record s { app_name = name; last_activity = now }

pub set_allocated_stream_id : ℕ → Session → Session
set_allocated_stream_id id s = record s { allocated_stream_id = id }

pub release_allocated_stream_id : Session → Session
release_allocated_stream_id s = record s { allocated_stream_id = invalid_stream_id }

pub set_authenticated : Bool → Session → Session
set_authenticated b s = record s { authenticated = b }

pub set_client_info : ClientInfo → Session → Session
set_client_info info s = record s { client_info = info }

pub set_state_change_callback : Bool → Session → Session
set_state_change_callback b s = record s { has_callback = b }

-- A call of one of the transitions, with the clock's reading.
pub data Call : Type 0 where
  start_handshakes complete_handshakes stops_publishing stops_subscribing disconnects : ℕ → Call
  starts_publishing starts_subscribing : StreamKey → ℕ → ℕ → Call

pub step : Call → Session → Step
step (start_handshakes now) s = start_handshake now s
step (complete_handshakes now) s = complete_handshake now s
step (stops_publishing now) s = stop_publishing now s
step (stops_subscribing now) s = stop_subscribing now s
step (disconnects now) s = disconnect now s
step (starts_publishing key id now) s = start_publishing key id now s
step (starts_subscribing key id now) s = start_subscribing key id now s

-- The callback's calls and the session after several calls.
pub run_calls : List Call → Session → List Change × Session
run_calls [] s = ([], s)
run_calls (c ∷ cs) s =
    let (changes, t) = run_calls cs (step c s).after in ((step c s).changes ++ changes, t)

-- A call of any operation that changes a session: a transition or one of the setters.
pub data Use : Type 0 where
  transits : Call → Use
  sets_app_name : String → ℕ → Use
  sets_allocated_stream_id : ℕ → Use
  releases_allocated_stream_id : Use
  sets_authenticated sets_state_change_callback : Bool → Use
  sets_client_info : ClientInfo → Use

pub use_step : Use → Session → List Change × Session
use_step (transits c) s = ((step c s).changes, (step c s).after)
use_step (sets_app_name name now) s = ([], set_app_name name now s)
use_step (sets_allocated_stream_id id) s = ([], set_allocated_stream_id id s)
use_step releases_allocated_stream_id s = ([], release_allocated_stream_id s)
use_step (sets_authenticated b) s = ([], set_authenticated b s)
use_step (sets_state_change_callback b) s = ([], set_state_change_callback b s)
use_step (sets_client_info info) s = ([], set_client_info info s)

pub run_uses : List Use → Session → List Change × Session
run_uses [] s = ([], s)
run_uses (u ∷ us) s =
    let (changes, t) = use_step u s in let (more, final) = run_uses us t in (changes ++ more, final)
