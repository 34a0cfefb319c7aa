-- ===== src/Daemon/Tests.antt =====
-- The daemon at concrete inputs.
use vnt_gui_dev.Prelude.{
  ℕ, ◌≡◌, refl, String, Bool, true, false, Option, none, some, List, [], ◌∷◌, ◌==◌, if◌then◌else◌,
  ok, err,
}
use vnt_gui_dev.Transfer.Protocol.{Bytes}
use vnt_gui_dev.Transfer.Disk.{Disk}
use vnt_gui_dev.App.Config.{VntConfig}
use vnt_gui_dev.Ftp.Config.{FtpPermissions, FtpUser}
use vnt_gui_dev.Ftp.Server.{FtpServer, Env, start_ftp, stop_ftp, stopped_status}
use vnt_gui_dev.Daemon.State.{RuntimeState, StoredState, default_state}
use vnt_gui_dev.Daemon.State.Restart.{saved_of}
use vnt_gui_dev.Daemon.Vnt.{VntDaemon, start, stop, restore_vnt}
use vnt_gui_dev.Daemon.Vnt.Lifecycle.{reboot, vnt_restart_recovers}
use vnt_gui_dev.Daemon.Ftp as DaemonFtp
use vnt_gui_dev.Daemon.Ftp.{
  FtpDaemon, FtpConfigWithSecrets, Keyring, from_rpc_cfg, put_password, set_passwords,
  fill_passwords,
}
use vnt_gui_dev.Daemon.Ftp.Lifecycle.{Agrees, ftp_operations_agree, failed_start_leaves_state}

abbrev home : VntConfig
home = record {
  id = "a";
  name = "home";
  token = "t";
  device_name = none;
  device_id = none;
  virtual_ip = none;
  server_address = none;
  password = none;
  server_encrypt = false;
  in_ips = [];
  out_ips = [];
  compressor = none;
  mtu = none;
  use_tcp = false;
  use_ws = false;
  no_proxy = false;
  created_at = "c";
  updated_at = "u";
  last_used = none;
}

abbrev calm_disk : Disk
calm_disk = record { files = λ p. none; faults = [] }

abbrev running : RuntimeState
running = record (default_state 5) { vnt_running = true; vnt_config = some home }

-- A text that says whether VNT runs, read back for the states below.
abbrev encode : StoredState → Bytes
encode t = if t.vnt_was_running then 1 ∷ [] else 0 ∷ []

abbrev stored_for : RuntimeState → Bytes → Option StoredState
stored_for s b = some (saved_of s)

abbrev idle : VntDaemon
idle = record { runtime = none; state = default_state 5; disk = calm_disk }

abbrev is_one : Bytes → Bool
is_one (b ∷ bs) = b == 1
is_one [] = false

abbrev decode : Bytes → Option StoredState
decode b =
    if is_one b
    then some (saved_of (start encode home idle).1.state)
    else some (saved_of (stop encode idle).1.state)

decodes_started :
    decode (encode (saved_of (start encode home idle).1.state))
    ≡ some (saved_of (start encode home idle).1.state)
unfolding start
decodes_started = refl

decodes_stopped :
    decode (encode (saved_of (stop encode idle).1.state))
    ≡ some (saved_of (stop encode idle).1.state)
unfolding stop
decodes_stopped = refl

vnt_restart_recovers_example :
    ((restore_vnt encode (reboot decode 9 (start encode home idle).1)).runtime ≡ some home)
    × ((restore_vnt encode (reboot decode 9 (stop encode idle).1)).runtime ≡ none)
vnt_restart_recovers_example =
    vnt_restart_recovers encode decode home 9 idle refl refl decodes_started decodes_stopped

abbrev rights : FtpPermissions
rights = record { upload = true; download = true; delete = false; readonly = false }

abbrev users : List FtpUser
users =
    record { username = "ann"; password = "p"; password_set = false; permissions = rights }
    ∷ record { username = "bob"; password = "q"; password_set = false; permissions = rights }
    ∷ []

abbrev empty_keyring : Keyring
empty_keyring = record { passwords = λ n. none; refuses = λ n. none }

abbrev rpc : FtpConfigWithSecrets
rpc = record {
  enabled = true;
  auto_start_with_app = false;
  root_dir = "srv";
  port = 2121;
  so_reuseaddr = true;
  pasv_ports = none;
  users = record { username = "ann"; password = "p"; permissions = rights } ∷ [];
}

abbrev good : Env
good = record { root_exists = true; root_is_dir = true; build = ok tt; listen = ok tt }

abbrev same : String → String
same s = s

abbrev shown : ℕ → String
shown n = "2121"

abbrev ftp_daemon : FtpDaemon
ftp_daemon = record {
  server = record { runtime = none; status = stopped_status };
  keyring = empty_keyring;
  state = default_state 5;
  disk = calm_disk;
}

agrees : Agrees ftp_daemon.server
unfolding vnt_gui_dev.Ftp.Server.ftp_status
agrees = refl

ftp_operations_agree_example :
    Agrees (DaemonFtp.start encode same shown good rpc ftp_daemon).1.server
    × Agrees (DaemonFtp.stop encode same shown ftp_daemon).1.server
    × Agrees (DaemonFtp.restart encode same shown good rpc ftp_daemon).1.server
    × ((DaemonFtp.stop encode same shown ftp_daemon).1.server.runtime ≡ none)
    × ((DaemonFtp.stop encode same shown ftp_daemon).1.state.ftp_running ≡ false)
ftp_operations_agree_example = ftp_operations_agree encode same shown good rpc ftp_daemon agrees

abbrev gone : Env
gone = record good { root_exists = false }

abbrev busy_daemon : FtpDaemon
busy_daemon = record ftp_daemon {
  server = record { runtime = some "0.0.0.0:2121"; status = stopped_status };
  state = record (default_state 5) { ftp_running = true };
}

abbrev filled : Keyring
filled = put_password "ann" "p" empty_keyring

stores_passwords : set_passwords (from_rpc_cfg rpc).users empty_keyring ≡ (ok tt, filled)
unfolding from_rpc_cfg
stores_passwords = refl

fails : (DaemonFtp.start encode same shown gone rpc busy_daemon).0 ≡ err "根目录不存在: srv"
unfolding DaemonFtp.start
fails = refl

failed_start_leaves_state_example :
    ((DaemonFtp.start encode same shown gone rpc busy_daemon).1.keyring ≡ filled)
    × ((DaemonFtp.start encode same shown gone rpc busy_daemon).1.server.runtime ≡ none)
    × ((DaemonFtp.start encode same shown gone rpc busy_daemon).1.state ≡ busy_daemon.state)
    × ((DaemonFtp.start encode same shown gone rpc busy_daemon).1.disk ≡ busy_daemon.disk)
failed_start_leaves_state_example =
    failed_start_leaves_state encode same shown gone rpc busy_daemon filled "根目录不存在: srv"
      stores_passwords fails
