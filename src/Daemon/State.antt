-- ===== src/Daemon/State.antt =====
-- The daemon's state and its file (src-tauri/src/daemon/state_store.rs). The JSON text comes from
-- serde_json: `encode` and `decode` are arguments.
pub mod Restart
use Prim.Native.String.{◌++◌ as ◌<>◌}
use vnt_gui_dev.Prelude.{
  ℕ, ◌-◌, String, Bool, true, false, Option, none, some, List, [], if◌then◌else◌, Result, ok, err,
}
use vnt_gui_dev.Transfer.Protocol.{Bytes}
use vnt_gui_dev.Transfer.Disk.{Disk, IoError, read_all, atomic_save}
use vnt_gui_dev.App.Config.{VntConfig}
use vnt_gui_dev.Ftp.Config.{FtpConfig}

-- A device of the network (src-tauri/src/state.rs).
pub record PeerInfo : Type 0 where
  pub name : String
  pub virtual_ip : String
  pub connection_type : String
  pub latency : ℕ
  pub status : String

pub record RuntimeState : Type 0 where
  pub vnt_running : Bool
  pub vnt_connected : Bool
  pub vnt_was_running : Bool
  pub vnt_config : Option VntConfig
  pub vnt_server_host : Option String
  pub vnt_virtual_ip : Option String
  pub vnt_nat_type : Option String
  pub ftp_running : Bool
  pub ftp_was_running : Bool
  pub ftp_config : Option FtpConfig
  pub peers : List PeerInfo
  pub started_at : ℕ

pub record StoredState : Type 0 where
  pub vnt_running : Bool
  pub vnt_connected : Bool
  pub vnt_was_running : Bool
  pub vnt_config : Option VntConfig
  pub vnt_server_host : Option String
  pub vnt_virtual_ip : Option String
  pub vnt_nat_type : Option String
  pub ftp_running : Bool
  pub ftp_was_running : Bool
  pub ftp_config : Option FtpConfig
  pub peers : List PeerInfo

abbrev pub default_state : ℕ → RuntimeState
default_state now = record {
  vnt_running = false;
  vnt_connected = false;
  vnt_was_running = false;
  vnt_config = none;
  vnt_server_host = none;
  vnt_virtual_ip = none;
  vnt_nat_type = none;
  ftp_running = false;
  ftp_was_running = false;
  ftp_config = none;
  peers = [];
  started_at = now;
}

unfoldable pub uptime_secs : ℕ → RuntimeState → ℕ
uptime_secs now s = now - s.started_at

-- `StoredState::from`
abbrev pub stored_of : RuntimeState → StoredState
stored_of s = record {
  vnt_running = s.vnt_running;
  vnt_connected = s.vnt_connected;
  vnt_was_running = s.vnt_was_running;
  vnt_config = s.vnt_config;
  vnt_server_host = s.vnt_server_host;
  vnt_virtual_ip = s.vnt_virtual_ip;
  vnt_nat_type = s.vnt_nat_type;
  ftp_running = s.ftp_running;
  ftp_was_running = s.ftp_was_running;
  ftp_config = s.ftp_config;
  peers = s.peers;
}

abbrev restored : ℕ → Option StoredState → RuntimeState
restored now none = default_state now
restored now (some t) = record {
  vnt_running = false;
  vnt_connected = false;
  vnt_was_running = t.vnt_was_running;
  vnt_config = t.vnt_config;
  vnt_server_host = t.vnt_server_host;
  vnt_virtual_ip = t.vnt_virtual_ip;
  vnt_nat_type = t.vnt_nat_type;
  ftp_running = false;
  ftp_was_running = t.ftp_was_running;
  ftp_config = t.ftp_config;
  peers = t.peers;
  started_at = now;
}

abbrev pub state_path : String
state_path = "runtime_state.json"

module _ (decode : Bytes → Option StoredState) where
  abbrev on_read : ℕ → Result IoError Bytes × Disk → RuntimeState × Disk
  on_read now (ok content, d) = (restored now (decode content), d)
  on_read now (err e, d) = (default_state now, d)

  unfoldable pub load_or_init : ℕ → Disk → RuntimeState × Disk
  load_or_init now d = on_read now (read_all state_path d)

module _ (encode : StoredState → Bytes) where
  -- Nothing is said of a save that fails.
  unfoldable pub save : RuntimeState → Disk → Disk
  save s d =
      (atomic_save (state_path <> ".tmp") state_path
        (encode (record (stored_of s) {
          vnt_was_running = s.vnt_running;
          ftp_was_running = s.ftp_running;
        }))
        d).1
