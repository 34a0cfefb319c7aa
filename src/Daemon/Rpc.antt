-- ===== src/Daemon/Rpc.antt =====
-- The daemon's RPC (src-tauri/src/daemon/rpc_server.rs, rpc_protocol.rs, rt_log.rs): what a request does
-- with the daemon's parts, and the lines of a connection. The JSON values and texts are of serde_json:
-- `Value` and the functions on it are arguments.
pub mod Connection
pub mod Client
pub mod Calls
pub mod Lines
use vnt_gui_dev.Prelude.{
  ℕ, String, Bool, true, false, Option, none, some, List, [], ◌∷◌, ◌++◌, str_eq, if◌then◌else◌,
  Result, ok, err,
}
use vnt_gui_dev.Transfer.Protocol.{Bytes}
use vnt_gui_dev.Transfer.Disk.{Disk}
use vnt_gui_dev.App.Config.{VntConfig}
use vnt_gui_dev.App.Log.{LogEntry}
use vnt_gui_dev.Ftp.Config.{FtpConfig}
use vnt_gui_dev.Ftp.Log.{FtpLogEntry}
use vnt_gui_dev.Ftp.Server.{FtpServer, Env}
use vnt_gui_dev.Daemon.State.{PeerInfo, RuntimeState, StoredState, uptime_secs}
use vnt_gui_dev.Daemon.Vnt.{VntDaemon}
use vnt_gui_dev.Daemon.Vnt
use vnt_gui_dev.Daemon.Ftp.{FtpDaemon, FtpConfigWithSecrets, Keyring}
use vnt_gui_dev.Daemon.Ftp
use vnt_gui_dev.Ftp.Log

pub data DaemonRequest : Type 0 where
  ping get_state vnt_stop ftp_stop vnt_list_peers ftp_get_logs vnt_get_logs vnt_clear_logs
        shutdown :
      DaemonRequest
  vnt_start vnt_restart : VntConfig → DaemonRequest
  ftp_start ftp_restart : FtpConfigWithSecrets → DaemonRequest

pub record Snapshot : Type 0 where
  pub vnt_running : Bool
  pub vnt_connected : Bool
  pub vnt_config : Option VntConfig
  pub ftp_running : Bool
  pub ftp_config : Option FtpConfig
  pub peers : List PeerInfo
  pub vnt_server_host : Option String
  pub vnt_virtual_ip : Option String
  pub vnt_nat_type : Option String
  pub uptime_secs : ℕ

pub data DaemonResponse (Value : Type 0) : Type 0 where
  pong : ℕ → DaemonResponse Value
  state : Snapshot → DaemonResponse Value
  ok_response : DaemonResponse Value
  logs : List LogEntry → DaemonResponse Value
  error : (code message : String) → DaemonResponse Value
  event : String → Value → DaemonResponse Value

-- `into_result`
unfoldable pub into_result :
    {Value : Type 0} → DaemonResponse Value → Result String (DaemonResponse Value)
into_result (error code message) = err message
into_result (pong n) = ok (pong n)
into_result (state s) = ok (state s)
into_result ok_response = ok ok_response
into_result (logs es) = ok (logs es)
into_result (event name value) = ok (event name value)

-- The daemon: the supervised process, the FTP server and the store of its passwords, the state and
-- its disk, and the two logs, the oldest entry first.
pub record Daemon : Type 0 where
  pub runtime : Option VntConfig
  pub server : FtpServer
  pub keyring : Keyring
  pub state : RuntimeState
  pub disk : Disk
  pub ftp_logs : List FtpLogEntry
  pub rt_logs : List LogEntry

abbrev pub vnt_part : Daemon → VntDaemon
vnt_part d = record { runtime = d.runtime; state = d.state; disk = d.disk }

abbrev pub ftp_part : Daemon → FtpDaemon
ftp_part d = record { server = d.server; keyring = d.keyring; state = d.state; disk = d.disk }

abbrev pub with_vnt : VntDaemon → Daemon → Daemon
with_vnt v d = record d { runtime = v.runtime; state = v.state; disk = v.disk }

abbrev pub with_ftp : FtpDaemon → Daemon → Daemon
with_ftp f d = record d { server = f.server; keyring = f.keyring; state = f.state; disk = f.disk }

abbrev pub snapshot : ℕ → RuntimeState → Snapshot
snapshot uptime s = record {
  vnt_running = s.vnt_running;
  vnt_connected = s.vnt_connected;
  vnt_config = s.vnt_config;
  ftp_running = s.ftp_running;
  ftp_config = s.ftp_config;
  peers = s.peers;
  vnt_server_host = s.vnt_server_host;
  vnt_virtual_ip = s.vnt_virtual_ip;
  vnt_nat_type = s.vnt_nat_type;
  uptime_secs = uptime;
}

abbrev pub only_peers : List PeerInfo → Snapshot
only_peers peers = record {
  vnt_running = false;
  vnt_connected = false;
  vnt_config = none;
  ftp_running = false;
  ftp_config = none;
  peers = peers;
  vnt_server_host = none;
  vnt_virtual_ip = none;
  vnt_nat_type = none;
  uptime_secs = 0;
}

abbrev rev_onto : List LogEntry → List LogEntry → List LogEntry
rev_onto [] acc = acc
rev_onto (e ∷ es) acc = rev_onto es (e ∷ acc)

-- `rt_log::get_logs`, the latest first.
unfoldable pub get_rt_logs : List LogEntry → List LogEntry
get_rt_logs buf = rev_onto buf []

-- What a request depends on besides the daemon: the time in seconds, and what the system answers when
-- the FTP server is started.
pub record Surroundings : Type 0 where
  pub now : ℕ
  pub ftp : Env

abbrev pub ends : DaemonRequest → Bool
ends shutdown = true
ends _ = false

module _ {Value : Type 0} (encode : StoredState → Bytes) (trim : String → String)
    (shown : ℕ → String) (to_value : List FtpLogEntry → Result String Value) where
  abbrev pub answer : (code : String) → Result String (Unit {0}) → DaemonResponse Value
  answer code (ok _) = ok_response
  answer code (err e) = error code e

  abbrev pub on_vnt :
      (code : String)
      → Result String (Unit {0}) × VntDaemon
      → Daemon
      → DaemonResponse Value × Daemon
  on_vnt code (r, v) d = (answer code r, with_vnt v d)

  abbrev pub on_ftp :
      (code : String)
      → Result String (Unit {0}) × FtpDaemon
      → Daemon
      → DaemonResponse Value × Daemon
  on_ftp code (r, f) d = (answer code r, with_ftp f d)

  abbrev logs_event : Result String Value → DaemonResponse Value
  logs_event (ok value) = event "ftp_logs" value
  logs_event (err e) = error "serialize_error" e

  abbrev pub stopped_all : Daemon → Daemon
  stopped_all d =
      let d₁ = with_vnt (Vnt.stop encode (vnt_part d)).1 d in
      with_ftp (Ftp.stop encode trim shown (ftp_part d₁)).1 d₁

  -- The response and the daemon after the request; only `shutdown` ends the daemon.
  unfoldable pub respond : Surroundings → DaemonRequest → Daemon → DaemonResponse Value × Daemon
  unfolding Vnt.start Vnt.stop Vnt.restart Ftp.start Ftp.stop Ftp.restart get_rt_logs uptime_secs
  respond e ping d = (pong (uptime_secs e.now d.state), d)
  respond e get_state d = (state (snapshot (uptime_secs e.now d.state) d.state), d)
  respond e (vnt_start config) d =
      on_vnt "vnt_start_failed" (Vnt.start encode config (vnt_part d)) d
  respond e vnt_stop d = on_vnt "vnt_stop_failed" (Vnt.stop encode (vnt_part d)) d
  respond e (vnt_restart config) d =
      on_vnt "vnt_restart_failed" (Vnt.restart encode config (vnt_part d)) d
  respond e (ftp_start config) d =
      on_ftp "ftp_start_failed" (Ftp.start encode trim shown e.ftp config (ftp_part d)) d
  respond e ftp_stop d = on_ftp "ftp_stop_failed" (Ftp.stop encode trim shown (ftp_part d)) d
  respond e (ftp_restart config) d =
      on_ftp "ftp_restart_failed" (Ftp.restart encode trim shown e.ftp config (ftp_part d)) d
  respond e vnt_list_peers d = (state (only_peers d.state.peers), d)
  respond e ftp_get_logs d = (logs_event (to_value (Log.get_logs d.ftp_logs)), d)
  respond e vnt_get_logs d = (logs (get_rt_logs d.rt_logs), d)
  respond e vnt_clear_logs d = (ok_response, record d { rt_logs = [] })
  respond e shutdown d = (ok_response, stopped_all d)

  unfoldable pub handle_request :
      Surroundings → DaemonRequest → Daemon → (DaemonResponse Value × Bool) × Daemon
  unfolding respond
  handle_request e req d = (((respond e req d).0, ends req), (respond e req d).1)
