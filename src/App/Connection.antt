-- ===== src/App/Connection.antt =====
-- The commands of the application on the connection and on the saved configurations
-- (src-tauri/src/lib.rs, load and save of config.rs, AppState of state.rs). What the daemon answers to
-- a call, and what the system answers to a write, are arguments. The tray is not modelled.
pub mod Commands
pub mod Devices
use vnt_gui_dev.Prelude.{
  ℕ, String, Bool, true, false, Option, none, some, List, [], ◌∷◌, str_eq, if◌then◌else◌, head?,
  Result, ok, err,
}
use vnt_gui_dev.App.Config.{
  VntConfig, ConfigStore, empty_store, get, get_active, add_or_update, delete, set_active,
}
use vnt_gui_dev.Daemon.Rpc.{Snapshot, DaemonResponse, state, pong, ok_response, logs, error, event}

pub data ConnectionStatus : Type 0 where
  stopped starting connected : ConnectionStatus
  reconnecting : ℕ → ConnectionStatus
  failed : String → ConnectionStatus

unfoldable pub is_running : ConnectionStatus → Bool
is_running starting = true
is_running connected = true
is_running (reconnecting n) = true
is_running stopped = false
is_running (failed e) = false

-- The events for the front end.
pub data Event : Type 0 where
  virtual_ip_assigned server_address : String → Event

-- The application: the file of the configurations, `none` if it is missing or damaged, and what is
-- kept in memory; the events with the latest first.
pub record Gui : Type 0 where
  pub stored : Option ConfigStore
  pub connection : ConnectionStatus
  pub active_config_id : Option String
  pub virtual_ip : Option String
  pub server_host : Option String
  pub relay_addr : Option String
  pub nat_type : Option String
  pub events : List Event

-- How a write of the file ends: done, refused before the file is touched, or broken off, which leaves
-- a damaged file.
pub data Write : Type 0 where
  written : Write
  refused torn : String → Write

abbrev stored_or : Option ConfigStore → ConfigStore
stored_or none = empty_store
stored_or (some s) = s

unfoldable pub load_config_store : Gui → ConfigStore
load_config_store g = stored_or g.stored

unfoldable pub save_config_store : Write → ConfigStore → Gui → Result String (Unit {0}) × Gui
save_config_store written s g = (ok tt, record g { stored = some s })
save_config_store (refused e) s g = (err e, g)
save_config_store (torn e) s g = (err e, record g { stored = none })

abbrev or_first : Option VntConfig → ConfigStore → Option VntConfig
or_first (some c) s = some c
or_first none s = head? s.configs

unfoldable pub select_default_config : ConfigStore → Option VntConfig
unfolding get_active
select_default_config s = or_first (get_active s) s

-- What the daemon answers to the call for its state: a snapshot, or something else.
module _ {Value : Type 0} where
  abbrev pub snapshot_of : Result String (DaemonResponse Value) → Option Snapshot
  snapshot_of (ok (state s)) = some s
  snapshot_of (ok (pong n)) = none
  snapshot_of (ok ok_response) = none
  snapshot_of (ok (logs es)) = none
  snapshot_of (ok (error c m)) = none
  snapshot_of (ok (event n v)) = none
  snapshot_of (err e) = none

abbrev pub status_of : Snapshot → ConnectionStatus
status_of s = if s.vnt_connected then connected else if s.vnt_running then starting else stopped

-- With the snapshot of the daemon, if there is one.
unfoldable pub get_status : Option Snapshot → Gui → ConnectionStatus
get_status (some s) g = status_of s
get_status none g = g.connection

unfoldable pub sync_status_from_daemon : Option Snapshot → Gui → Gui
unfolding get_status
sync_status_from_daemon s g = record g { connection = get_status s g }

abbrev same_text : Option String → Option String → Bool
same_text none none = true
same_text (some a) (some b) = str_eq a b
same_text none (some b) = false
same_text (some a) none = false

abbrev emitted : (String → Event) → (old new : Option String) → List Event → List Event
emitted wrap old none es = es
emitted wrap old (some t) es = if same_text old (some t) then es else wrap t ∷ es

unfoldable pub sync_daemon_info : Option Snapshot → Gui → Gui
sync_daemon_info none g = g
sync_daemon_info (some s) g = record g {
  virtual_ip = s.vnt_virtual_ip;
  server_host = s.vnt_server_host;
  relay_addr = s.vnt_server_host;
  nat_type = s.vnt_nat_type;
  events =
      emitted server_address g.server_host s.vnt_server_host
        (emitted virtual_ip_assigned g.virtual_ip s.vnt_virtual_ip g.events);
}

pub record ConnectionInfo : Type 0 where
  pub virtual_ip : Option String
  pub server_address : Option String

unfoldable pub get_connection_info : Option Snapshot → Gui → ConnectionInfo
get_connection_info (some s) g = record {
  virtual_ip = s.vnt_virtual_ip;
  server_address = s.vnt_server_host;
}
get_connection_info none g = record { virtual_ip = g.virtual_ip; server_address = g.server_host }

pub record LocalInfo : Type 0 where
  pub nat_type : Option String
  pub relay_server : Option String

unfoldable pub get_local_info : Option Snapshot → Gui → LocalInfo
get_local_info (some s) g = record { nat_type = s.vnt_nat_type; relay_server = s.vnt_server_host }
get_local_info none g = record { nat_type = g.nat_type; relay_server = g.relay_addr }

abbrev pub synced :
    Result String (Unit {0}) → Option Snapshot → Gui → Result String (Unit {0}) × Gui
unfolding sync_status_from_daemon
synced (err e) s g = (err e, g)
synced (ok _) s g = (ok tt, sync_status_from_daemon s g)

-- The call of the daemon, and its snapshot after it.
pub record Daemon : Type 0 where
  pub vnt_start : VntConfig → Result String (Unit {0})
  pub vnt_stop : Result String (Unit {0})
  pub before : Option Snapshot
  pub after : Option Snapshot

abbrev pub activated :
    String → Daemon → VntConfig → Result String (Unit {0}) × Gui → Result String (Unit {0}) × Gui
activated id d cfg (err e, g) = (err e, g)
activated id d cfg (ok _, g) =
    synced (d.vnt_start cfg) d.after (record g { active_config_id = some id })

abbrev pub with_config :
    (now id : String) → Write → Daemon → Option VntConfig → Gui → Result String (Unit {0}) × Gui
with_config now id w d none g = (err "配置不存在", g)
with_config now id w d (some cfg) g =
    activated id d cfg (save_config_store w (set_active now id (load_config_store g)) g)

unfoldable pub start_connection :
    (now id : String) → Write → Daemon → Gui → Result String (Unit {0}) × Gui
start_connection now id w d g = with_config now id w d (get id (load_config_store g)) g

unfoldable pub stop_connection : Daemon → Gui → Result String (Unit {0}) × Gui
stop_connection d g = synced d.vnt_stop d.after g

-- The configuration that is sent to the daemon, if one is, and the application after it.
abbrev pub auto_started : Daemon → Option VntConfig → Gui → Option VntConfig × Gui
auto_started d none g = (none, g)
auto_started d (some cfg) g = (some cfg, (synced (d.vnt_start cfg) d.after g).1)

abbrev pub unless_running : Option Snapshot → Option VntConfig × Gui → Gui → Option VntConfig × Gui
unless_running none rest g = (none, g)
unless_running (some s) rest g = if s.vnt_running then (none, g) else rest

unfoldable pub auto_connect_default : (enabled : Bool) → Daemon → Gui → Option VntConfig × Gui
unfolding select_default_config load_config_store
auto_connect_default enabled d g =
    if enabled
    then unless_running d.before (auto_started d (select_default_config (load_config_store g)) g) g
    else (none, g)

unfoldable pub save_config :
    (now uuid : String) → VntConfig → Write → Gui → Result String (Unit {0}) × Gui
unfolding save_config_store load_config_store
save_config now uuid c w g = save_config_store w (add_or_update now uuid c (load_config_store g)) g

unfoldable pub delete_config : String → Write → Gui → Result String (Unit {0}) × Gui
unfolding save_config_store load_config_store
delete_config id w g = save_config_store w (delete id (load_config_store g)) g

abbrev pub noted : String → Result String (Unit {0}) × Gui → Result String (Unit {0}) × Gui
noted id (err e, g) = (err e, g)
noted id (ok _, g) = (ok tt, record g { active_config_id = some id })

unfoldable pub set_active_config : (now id : String) → Write → Gui → Result String (Unit {0}) × Gui
unfolding save_config_store load_config_store
set_active_config now id w g =
    noted id (save_config_store w (set_active now id (load_config_store g)) g)
