-- ===== src/App/Tests.antt =====
-- The application at concrete inputs: two saved configurations, a log of two records.
use vnt_gui_dev.Prelude.{
  ℕ, ◌≡◌, refl, not, String, true, false, none, some, List, [], ◌∷◌, ◌++◌, filter, str_eq, ok,
}
use vnt_gui_dev.Prelude.Decimal.{decimal}
use vnt_gui_dev.Prelude.Ring.{latest}
use vnt_gui_dev.App.Config.{VntConfig, ConfigStore, get_active}
use vnt_gui_dev.App.Config.Laws.{IsValid}
use vnt_gui_dev.App.Log.{AppLogger, Record, max_log_lines}
use vnt_gui_dev.App.Log as Log
use vnt_gui_dev.App.Log.Ring.{Call, log_all, entries, file_lines, log_holds_latest}
use vnt_gui_dev.App.Host.{extract_host, scheme_end}
use vnt_gui_dev.App.Host.Extract.{host_is_extracted}
use vnt_gui_dev.App.Connection.{Gui, Daemon, stopped, written, torn, load_config_store}
use vnt_gui_dev.App.Connection.Commands.{remove, start, next_gui, here, step, configs_stay-IsValid}
use vnt_gui_dev.App.Connection.Devices.{
  get_device_list, is_local, local_name, stale_row_is_taken_for_this,
}
use vnt_gui_dev.Daemon.State.{PeerInfo}
use vnt_gui_dev.Daemon.Rpc.{DaemonResponse, Snapshot, only_peers, state}

abbrev home : VntConfig
home = record {
  id = "a";
  name = "home";
  token = "t";
  device_name = none;
  device_id = none;
  virtual_ip = none;
  server_address = none;
  password = none;
  server_encrypt = false;
  in_ips = [];
  out_ips = [];
  compressor = none;
  mtu = none;
  use_tcp = false;
  use_ws = false;
  no_proxy = false;
  created_at = "c";
  updated_at = "u";
  last_used = none;
}

abbrev configs : ConfigStore
configs = record { active_config_id = some "a"; configs = home ∷ record home { id = "b" } ∷ [] }

configs-IsValid : IsValid configs
configs-IsValid = record { distinct = ((refl, tt), (tt, tt)); active = refl }

abbrev gui : Gui
gui = record {
  stored = some configs;
  connection = stopped;
  active_config_id = none;
  virtual_ip = none;
  server_host = none;
  relay_addr = none;
  nat_type = none;
  events = [];
}

gui-IsValid : IsValid (load_config_store gui)
unfolding load_config_store
gui-IsValid = configs-IsValid

abbrev daemon : Daemon
daemon = record { vnt_start = λ c. ok tt; vnt_stop = ok tt; before = none; after = none }

abbrev started : Gui
started = next_gui (start "now" "b" written daemon) gui

abbrev removed : Gui
removed = next_gui (remove "a" (torn "disk full")) started

configs_stay-IsValid_example : IsValid (load_config_store removed)
configs_stay-IsValid_example =
    configs_stay-IsValid gui removed
      (step (start "now" "b" written daemon) tt (step (remove "a" (torn "disk full")) tt here))
      gui-IsValid

abbrev logger : AppLogger
logger = record { buffer = []; file = some []; attached = true; events = [] }

abbrev failing : Record
failing = record { level = Log.Level.error; desktop = true; noise = false; message = "lost" }

abbrev calls : List Call
calls =
    record { now = "1"; entry = failing; write = Log.Write.whole }
    ∷ record { now = "2"; entry = failing; write = Log.Write.partial }
    ∷ []

log_holds_latest_example :
    ((log_all calls logger).file ≡ some (file_lines calls))
    × ((log_all calls logger).buffer ≡ latest max_log_lines (entries calls))
log_holds_latest_example = log_holds_latest calls logger refl refl

-- `tcp`
abbrev scheme : List ℕ
scheme = b't' ∷ b'c' ∷ b'p' ∷ []

host_is_extracted_example :
    (extract_host ((b'v' ∷ b's' ∷ []) ++ b':' ∷ decimal 29872) ≡ some (b'v' ∷ b's' ∷ []))
    × (extract_host (scheme ++ (scheme_end ++ ((b'v' ∷ b's' ∷ []) ++ b':' ∷ decimal 29872)))
        ≡ some (b'v' ∷ b's' ∷ []))
host_is_extracted_example =
    host_is_extracted scheme b'v' (b's' ∷ []) 29872 (refl, (refl, (refl, tt)))
      (refl, (refl, (refl, tt))) ((refl, refl), ((refl, refl), tt))

abbrev own : PeerInfo
own = record {
  name = "pc";
  virtual_ip = "10.26.0.2";
  connection_type = "p2p";
  latency = 0;
  status = "online";
}

abbrev stale : PeerInfo
stale = record own { virtual_ip = "10.26.0.9"; status = "offline" }

abbrev snapshot : Snapshot
snapshot = record (only_peers (own ∷ stale ∷ [])) { vnt_virtual_ip = some "10.26.0.2" }

abbrev show : DaemonResponse String → String
show r = "response"

computer_name : local_name "pc" (load_config_store gui) ≡ some "pc"
unfolding local_name load_config_store get_active
computer_name = refl

stale_row_is_taken_for_this_example :
    get_device_list str_eq show "pc" (ok (state snapshot)) gui
    ≡ ok (record {
      devices =
          filter (λ p. not (is_local str_eq (some "10.26.0.2") (some "pc") p)) (own ∷ stale ∷ []);
      local = some stale;
    })
stale_row_is_taken_for_this_example =
    stale_row_is_taken_for_this str_eq show "pc" snapshot gui (own ∷ []) stale "10.26.0.2" "pc" refl
      refl computer_name refl refl
