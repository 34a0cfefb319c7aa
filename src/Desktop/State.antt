-- ===== src/Desktop/State.antt =====
-- The session's data and the changes that its operations share
-- (src-tauri/src/desktop_share/session.rs). A connection is a number; what a call sends and closes is
-- the log `wire`.
use vnt_gui_dev.Prelude.{ℕ, ◌-◌, String, Bool, true, false, Option, none, some, List, [], ◌∷◌, ◌++◌}
use vnt_gui_dev.Desktop.Protocol.{ClientCapabilities, GrantedCapabilities, ScreenInfo, ControlMsg}

pub data SessionRole : Type 0 where
  idle : SessionRole
  controller : SessionRole
  host : SessionRole

pub data SessionState : Type 0 where
  idle : SessionState
  waiting_confirm : SessionState
  connecting : SessionState
  sharing : SessionState
  ended : String → SessionState
  failed : String → SessionState

pub record SessionStats : Type 0 where
  pub fps : ℕ
  pub bitrate_kbps : ℕ
  pub latency_ms : ℕ
  pub uptime_secs : ℕ
  pub frames_sent : ℕ
  pub frames_dropped : ℕ

pub record SessionInfo : Type 0 where
  pub role : SessionRole
  pub state : SessionState
  pub remote_device : Option String
  pub remote_address : Option String
  pub capabilities : Option GrantedCapabilities
  pub screen : Option ScreenInfo
  pub stats : SessionStats

abbrev pub no_stats : SessionStats
no_stats = record {
  fps = 0;
  bitrate_kbps = 0;
  latency_ms = 0;
  uptime_secs = 0;
  frames_sent = 0;
  frames_dropped = 0;
}

-- `SessionInfo::default()`
abbrev pub no_info : SessionInfo
no_info = record {
  role = SessionRole.idle;
  state = SessionState.idle;
  remote_device = none;
  remote_address = none;
  capabilities = none;
  screen = none;
  stats = no_stats;
}

pub record ConnectRequestInfo : Type 0 where
  pub device_name : String
  pub client_node_id : String
  pub capabilities : ClientCapabilities

pub data Event : Type 0 where
  sent : ℕ → ControlMsg → Event
  closed : ℕ → String → Event

pub record SessionManager : Type 0 where
  pub state : SessionInfo
  pub connection : Option ℕ
  pub pending : Option ℕ
  pub pending_info : Option ConnectRequestInfo
  pub sharing_since : Option ℕ
  pub wire : List Event

abbrev pub new : SessionManager
new = record {
  state = no_info;
  connection = none;
  pending = none;
  pending_info = none;
  sharing_since = none;
  wire = [];
}

abbrev pub log : Event → SessionManager → SessionManager
log e m = record m { wire = m.wire ++ e ∷ [] }

abbrev uptime : Option ℕ → ℕ → SessionInfo → SessionInfo
uptime none now info = info
uptime (some since) now info = record info {
  stats = record info.stats { uptime_secs = now - since };
}

-- `now` in seconds of the monotonic clock.
unfoldable pub get_state : ℕ → SessionManager → SessionInfo
get_state now m = uptime m.sharing_since now m.state

-- The states in which a session is refused: one is being set up, or runs.
abbrev pub is_active : SessionState → Bool
is_active SessionState.idle = false
is_active waiting_confirm = true
is_active connecting = true
is_active sharing = true
is_active (ended r) = false
is_active (failed e) = false

abbrev pub set_info : SessionInfo → SessionManager → SessionManager
set_info info m = record m { state = info }

unfoldable pub fail : String → SessionManager → SessionManager
fail message m = record m {
  connection = none;
  pending = none;
  pending_info = none;
  state = record no_info { state = failed message };
}

abbrev or_else : {A : Type 0} → Option A → Option A → Option A
or_else none old = old
or_else (some a) old = some a

abbrev stats_or : Option SessionStats → SessionStats → SessionStats
stats_or none old = old
stats_or (some s) old = s

unfoldable pub enter_sharing :
    ℕ
    → Option ℕ
    → Option GrantedCapabilities
    → Option ScreenInfo
    → Option SessionStats
    → SessionManager
    → SessionManager
enter_sharing now conn granted screen stats m = record m {
  connection = or_else conn m.connection;
  sharing_since = some now;
  state = record m.state {
    state = sharing;
    capabilities = or_else granted m.state.capabilities;
    screen = or_else screen m.state.screen;
    stats = stats_or stats m.state.stats;
  };
}

unfoldable pub update_stats : (SessionStats → SessionStats) → SessionManager → SessionManager
update_stats updater m = record m { state = record m.state { stats = updater m.state.stats } }
