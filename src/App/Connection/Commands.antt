-- ===== src/App/Connection/Commands.antt =====
-- The commands on the saved configurations, in any order.
use vnt_gui_dev.Prelude.{
  ◌≡◌, refl, sym, ap, ◌∙◌, subst, Bool-cases, inl, inr, String, Bool, true, false, Option, none,
  some, any, Result, ok, err,
}
use vnt_gui_dev.App.Config.{VntConfig, ConfigStore, empty_store, has_id, get, set_active}
use vnt_gui_dev.App.Config.Laws.{IsValid, add_or_update-IsValid, delete-IsValid, set_active-IsValid}
use vnt_gui_dev.Daemon.Rpc.{Snapshot}
use vnt_gui_dev.App.Connection.{
  noted, activated, with_config, auto_started, unless_running, ConnectionStatus, Gui, Write,
  written, refused, torn, Daemon, stored_or, load_config_store, save_config_store, save_config,
  delete_config, set_active_config, get_status, start_connection, stop_connection, synced,
  auto_connect_default, sync_status_from_daemon,
}

-- A command, with what it meets: the clock, a fresh id, how the write ends, what the daemon answers.
pub data Command : Type 0 where
  save : (now uuid : String) → VntConfig → Write → Command
  remove : String → Write → Command
  activate : (now : String) → String → Write → Command
  start : (now : String) → String → Write → Daemon → Command
  stop : Daemon → Command
  auto_connect : Bool → Daemon → Command

pub next_gui : Command → Gui → Gui
next_gui (save now uuid c w) g = (save_config now uuid c w g).1
next_gui (remove id w) g = (delete_config id w g).1
next_gui (activate now id w) g = (set_active_config now id w g).1
next_gui (start now id w d) g = (start_connection now id w d g).1
next_gui (stop d) g = (stop_connection d g).1
next_gui (auto_connect enabled d) g = (auto_connect_default enabled d g).1

-- The id for a new configuration is new.
abbrev pub Fresh : Command → Gui → Type 0
Fresh (save now uuid c w) g = any (has_id uuid) (load_config_store g).configs ≡ false
Fresh (remove id w) g = Unit
Fresh (activate now id w) g = Unit
Fresh (start now id w d) g = Unit
Fresh (stop d) g = Unit
Fresh (auto_connect enabled d) g = Unit

pub data Reaches : Gui → Gui → Type 0 where
  here : {g : Gui} → Reaches g g
  step : {g h : Gui} (c : Command) → Fresh c g → Reaches (next_gui c g) h → Reaches g h

empty-IsValid : IsValid empty_store
empty-IsValid = record { distinct = tt; active = refl }

save_config_store-IsValid :
    (w : Write) (s : ConfigStore) (g : Gui)
    → IsValid s
    → IsValid (load_config_store g)
    → IsValid (load_config_store (save_config_store w s g).1)
unfolding load_config_store save_config_store
save_config_store-IsValid written s g v o = v
save_config_store-IsValid (refused e) s g v o = o
save_config_store-IsValid (torn e) s g v o = empty-IsValid

synced-stored :
    (r : Result String (Unit {0})) (s : Option Snapshot) (g : Gui)
    → (synced r s g).1.stored ≡ g.stored
unfolding sync_status_from_daemon
synced-stored (ok u) s g = refl
synced-stored (err e) s g = refl

noted-stored :
    (id : String) (r : Result String (Unit {0}) × Gui) → (noted id r).1.stored ≡ r.1.stored
noted-stored id (ok u, g) = refl
noted-stored id (err e, g) = refl

activated-stored :
    (id : String) (d : Daemon) (cfg : VntConfig) (r : Result String (Unit {0}) × Gui)
    → (activated id d cfg r).1.stored ≡ r.1.stored
activated-stored id d cfg (ok u, g) =
    synced-stored (d.vnt_start cfg) d.after (record g { active_config_id = some id })
activated-stored id d cfg (err e, g) = refl

auto_started-stored :
    (d : Daemon) (cfg : Option VntConfig) (g : Gui) → (auto_started d cfg g).1.stored ≡ g.stored
auto_started-stored d none g = refl
auto_started-stored d (some cfg) g = synced-stored (d.vnt_start cfg) d.after g

unless_running-stored :
    (s : Option Snapshot) (d : Daemon) (cfg : Option VntConfig) (g : Gui)
    → (unless_running s (auto_started d cfg g) g).1.stored ≡ g.stored
unless_running-stored none d cfg g = refl
unless_running-stored (some s) d cfg g = elim (Bool-cases s.vnt_running) [
  | inl on ↦ rw on refl
  | inr off ↦ rw off (auto_started-stored d cfg g)
]

auto_connect-stored :
    (enabled : Bool) (d : Daemon) (g : Gui) → (auto_connect_default enabled d g).1.stored ≡ g.stored
unfolding auto_connect_default
auto_connect-stored false d g = refl
auto_connect-stored true d g = unless_running-stored d.before d _ g

-- Validity is that of the file.
IsValid-same :
    (g h : Gui)
    → h.stored ≡ g.stored
    → IsValid (load_config_store g)
    → IsValid (load_config_store h)
unfolding load_config_store
IsValid-same g h same v = subst (λ s. IsValid (stored_or s)) (sym same) v

start-IsValid :
    (now id : String) (w : Write) (d : Daemon) (cfg : Option VntConfig) (g : Gui)
    → IsValid (load_config_store g)
    → IsValid (load_config_store (with_config now id w d cfg g).1)
start-IsValid now id w d none g v = v
start-IsValid now id w d (some cfg) g v =
    let saved = save_config_store w (set_active now id (load_config_store g)) g in
    IsValid-same saved.1 (activated id d cfg saved).1 (activated-stored id d cfg saved)
      (save_config_store-IsValid w _ g (set_active-IsValid now id _ v) v)

next_gui-IsValid :
    (c : Command) (g : Gui)
    → Fresh c g
    → IsValid (load_config_store g)
    → IsValid (load_config_store (next_gui c g))
unfolding next_gui save_config delete_config set_active_config start_connection stop_connection
next_gui-IsValid (save now uuid c w) g fresh v =
    save_config_store-IsValid w _ g (add_or_update-IsValid now uuid c _ v fresh) v
next_gui-IsValid (remove id w) g fresh v = save_config_store-IsValid w _ g (delete-IsValid id _ v) v
next_gui-IsValid (activate now id w) g fresh v =
    let saved = save_config_store w (set_active now id (load_config_store g)) g in
    IsValid-same saved.1 (noted id saved).1 (noted-stored id saved)
      (save_config_store-IsValid w _ g (set_active-IsValid now id _ v) v)
next_gui-IsValid (start now id w d) g fresh v =
    start-IsValid now id w d (get id (load_config_store g)) g v
next_gui-IsValid (stop d) g fresh v =
    IsValid-same g (synced d.vnt_stop d.after g).1 (synced-stored d.vnt_stop d.after g) v
next_gui-IsValid (auto_connect enabled d) g fresh v =
    IsValid-same g (auto_connect_default enabled d g).1 (auto_connect-stored enabled d g) v

-- Whatever commands are given in whatever order, and however their writes end and the daemon answers:
-- if the saved configurations have distinct ids and the active one is among them, and each new one
-- gets a new id, this stays so.
pub configs_stay-IsValid :
    (g h : Gui) → Reaches g h → IsValid (load_config_store g) → IsValid (load_config_store h)
configs_stay-IsValid g h here v = v
configs_stay-IsValid g h (step c fresh rest) v =
    configs_stay-IsValid (next_gui c g) h rest (next_gui-IsValid c g fresh v)

abbrev pub status_after : Result String (Unit {0}) → (new old : ConnectionStatus) → ConnectionStatus
status_after (ok u) new old = new
status_after (err e) new old = old

synced_lem :
    (r : Result String (Unit {0})) (s : Option Snapshot) (g : Gui)
    → ((synced r s g).0 ≡ r)
      × ((synced r s g).1.stored ≡ g.stored)
      × ((synced r s g).1.active_config_id ≡ g.active_config_id)
      × ((synced r s g).1.connection ≡ status_after r (get_status s g) g.connection)
unfolding sync_status_from_daemon
synced_lem (ok u) s g = (refl, refl, refl, refl)
synced_lem (err e) s g = (refl, refl, refl, refl)

get_status_same :
    (s : Option Snapshot) (g h : Gui)
    → g.connection ≡ h.connection
    → get_status s g ≡ get_status s h
unfolding get_status
get_status_same none g h same = same
get_status_same (some s) g h same = refl

-- Starting with the id of a saved configuration, where the file can be written: the result is the
-- daemon's, for that configuration; the file and the memory have it as the active one, whether the
-- daemon started it or not; and if it did, the status is the daemon's, else what it was.
start_connection_activates :
    (now id : String) (d : Daemon) (g : Gui) (cfg : VntConfig)
    → get id (load_config_store g) ≡ some cfg
    → let r = start_connection now id written d g in
      (r.0 ≡ d.vnt_start cfg)
      × (load_config_store r.1 ≡ set_active now id (load_config_store g))
      × (r.1.active_config_id ≡ some id)
      × (r.1.connection ≡ status_after (d.vnt_start cfg) (get_status d.after g) g.connection)
unfolding start_connection save_config_store load_config_store
start_connection_activates now id d g cfg found =
    let store = set_active now id (stored_or g.stored) in
    let saved : Gui = record g { stored = some store; active_config_id = some id } in
    let l = synced_lem (d.vnt_start cfg) d.after saved in
    let same =
      ap (λ new. status_after (d.vnt_start cfg) new g.connection)
        (get_status_same d.after saved g refl) in
    rw found (l.0, ap stored_or l.1, l.2, l.3 ∙ same)
