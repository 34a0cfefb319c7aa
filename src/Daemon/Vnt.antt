-- ===== src/Daemon/Vnt.antt =====
-- The supervision of the vnt-cli process (src-tauri/src/daemon/vnt_manager.rs). The texts of the
-- operating system, `trim` and `shown` (of a number), are arguments; so is the disk's JSON.
pub mod Lifecycle
use vnt_gui_dev.Prelude.{
  ℕ, ◌*◌, String, Bool, true, false, not, ◌||◌, Option, none, some, List, [], ◌∷◌, ◌++◌, ltb,
  str_eq, if◌then◌else◌, Result, ok, err,
}
use vnt_gui_dev.Transfer.Protocol.{Bytes}
use vnt_gui_dev.Transfer.Disk.{Disk}
use vnt_gui_dev.App.Config.{VntConfig}
use vnt_gui_dev.Daemon.State.{RuntimeState, StoredState, PeerInfo, save}

abbrev or_empty : Option String → String
or_empty none = ""
or_empty (some s) = s

abbrev flag : String → Bool → String → List String
flag name present value = if present then name ∷ value ∷ [] else []

abbrev is_blank : String → Bool
is_blank s = str_eq s ""

abbrev mtu_args : (ℕ → String) → Option ℕ → List String
mtu_args shown none = []
mtu_args shown (some mtu) = flag "-u" (ltb 0 mtu) (shown mtu)

abbrev compressor_args : Option String → List String
compressor_args none = []
compressor_args (some c) = flag "--compressor" (not (is_blank c)) c

unfoldable pub build_args : (trim : String → String) (shown : ℕ → String) → VntConfig → List String
build_args trim shown config =
    let name = trim (or_empty config.device_name) in
    let server = trim (or_empty config.server_address) in
    "-k"
    ∷ config.token
    ∷ (flag "-n" (not (is_blank name)) name
        ++ (flag "-s" (not (is_blank server)) server
            ++ (mtu_args shown config.mtu ++ compressor_args config.compressor)))

-- The daemon as far as VNT goes: the handle VNT_RUNTIME, with the configuration that its supervision
-- was started with, the state and the disk. A supervision that cannot find or spawn vnt-cli ends by
-- itself, and then the handle and the state stay as they are: neither says that a process runs.
pub record VntDaemon : Type 0 where
  pub runtime : Option VntConfig
  pub state : RuntimeState
  pub disk : Disk

module _ (encode : StoredState → Bytes) where
  abbrev saved : VntDaemon → VntDaemon
  saved d = record d { disk = save encode d.state d.disk }

  abbrev started : Option VntConfig → VntConfig → VntDaemon → Result String (Unit {0}) × VntDaemon
  started (some running) config d = (err "VNT 已在运行", d)
  started none config d = (
    ok tt,
    saved (record d {
      runtime = some config;
      state = record d.state {
        vnt_running = true;
        vnt_connected = false;
        vnt_config = some config;
        vnt_was_running = true;
        vnt_server_host = none;
        vnt_virtual_ip = none;
        vnt_nat_type = none;
      };
    }),
  )

  unfoldable pub start : VntConfig → VntDaemon → Result String (Unit {0}) × VntDaemon
  unfolding save
  start config d = started d.runtime config d

  unfoldable pub stop : VntDaemon → Result String (Unit {0}) × VntDaemon
  unfolding save
  stop d = (
    ok tt,
    saved (record d {
      runtime = none;
      state = record d.state {
        vnt_running = false;
        vnt_connected = false;
        vnt_was_running = false;
        peers = [];
      };
    }),
  )

  unfoldable pub restart : VntConfig → VntDaemon → Result String (Unit {0}) × VntDaemon
  unfolding start stop
  restart config d = start config (stop d).1

  abbrev restart_with : Bool → Option VntConfig → VntDaemon → VntDaemon
  restart_with true (some config) d = (start config d).1
  restart_with true none d = d
  restart_with false config d = d

  -- The part of `restore_services` (src-tauri/src/daemon/main.rs) for VNT.
  unfoldable pub restore_vnt : VntDaemon → VntDaemon
  unfolding start
  restore_vnt d = restart_with d.state.vnt_was_running d.state.vnt_config d

-- The delay before the next restart, in seconds.
unfoldable pub next_delay : ℕ → ℕ
next_delay delay = if ltb delay 30 then delay * 2 else delay

-- What is found in a line of the process's output.
pub data Line : Type 0 where
  blank : Line
  connected : Line
  registered : Option String → Line
  server : String → Line
  closed : Line
  other : Line

module _ (trim to_lowercase : String → String) (contains : String → String → Bool)
    (virtual_ip server_addr : String → Option String) where
  abbrev by_address : Option String → Bool → Line
  by_address (some addr) closing = server addr
  by_address none true = closed
  by_address none false = other

  -- The tests of the line, in their order.
  unfoldable pub classify : String → Line
  classify text =
      let line = trim text in
      if is_blank line
      then blank
      else if contains line "Connect Successfully" || contains line "Connection status: Connected"
      then connected
      else if contains line "register ip="
      then registered (virtual_ip line)
      else by_address (server_addr line)
          (contains line "Connection closed" || contains line "Disconnected")

abbrev is_text : Option String → String → Bool
is_text none s = false
is_text (some t) s = str_eq t s

-- The state after a line, and whether it is saved; `locked` says that the state could not be locked
-- at once, and then the line is passed over.
unfoldable pub on_line : Line → (locked : Bool) → RuntimeState → RuntimeState × Bool
on_line l true s = (s, false)
on_line connected false s =
    if s.vnt_connected then (s, false) else (record s { vnt_connected = true }, true)
on_line (registered (some ip)) false s =
    if is_text s.vnt_virtual_ip ip
    then (s, false)
    else (record s { vnt_virtual_ip = some ip }, true)
on_line (server addr) false s =
    if is_text s.vnt_server_host addr
    then (s, false)
    else (record s { vnt_server_host = some addr }, true)
on_line closed false s =
    if s.vnt_connected then (record s { vnt_connected = false }, true) else (s, false)
on_line l false s = (s, false)
