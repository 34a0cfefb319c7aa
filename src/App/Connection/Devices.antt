-- ===== src/App/Connection/Devices.antt =====
-- The list of devices (`get_device_list` of src-tauri/src/lib.rs). `same_name` is
-- `eq_ignore_ascii_case`, and the debug text of an unexpected response is an argument.
use Prim.Native.String.{◌++◌ as ◌<>◌}
use vnt_gui_dev.Prelude.{
  ◌≡◌, refl, ap, ◌∙◌, String, Bool, true, false, not, ◌||◌, Option, none, some, List, [], ◌∷◌, ◌++◌,
  str_eq, if◌then◌else◌, filter, Result, ok, err, Bool-cases, inl, inr, append_assoc, append-nil,
}
use vnt_gui_dev.App.Config.{VntConfig, ConfigStore, get_active}
use vnt_gui_dev.Daemon.State.{PeerInfo}
use vnt_gui_dev.Daemon.Rpc.{Snapshot, DaemonResponse, state, pong, ok_response, logs, error, event}
use vnt_gui_dev.App.Connection.{Gui, load_config_store}

pub record DeviceListResult : Type 0 where
  pub devices : List PeerInfo
  pub local : Option PeerInfo

abbrev not_blank : String → Option String
not_blank s = if str_eq s "" then none else some s

abbrev or_else : Option String → Option String → Option String
or_else none b = b
or_else (some a) b = some a

abbrev and_not_blank : Option String → Option String
and_not_blank none = none
and_not_blank (some s) = not_blank s

abbrev device_name_of : Option VntConfig → Option String
device_name_of none = none
device_name_of (some c) = c.device_name

-- The name of this device: that of the active configuration, else the computer's, if one is not blank.
unfoldable pub local_name : (computer : String) → ConfigStore → Option String
local_name computer s = or_else (and_not_blank (device_name_of (get_active s))) (not_blank computer)

module _ (same_name : String → String → Bool) where
  abbrev named : Option String → PeerInfo → Bool
  named none peer = false
  named (some n) peer = same_name peer.name n

  unfoldable pub is_local : (ip name : Option String) → PeerInfo → Bool
  is_local none name peer = named name peer
  is_local (some ip) name peer = str_eq peer.virtual_ip ip || named name peer

  abbrev put : Bool → PeerInfo → DeviceListResult → DeviceListResult
  put true peer r = record r { local = some peer }
  put false peer r = record r { devices = r.devices ++ peer ∷ [] }

  -- The loop over the peers.
  unfoldable pub split_peers :
      (ip name : Option String) → List PeerInfo → DeviceListResult → DeviceListResult
  split_peers ip name [] r = r
  split_peers ip name (p ∷ ps) r = split_peers ip name ps (put (is_local ip name p) p r)

  module _ {Value : Type 0} (show : DaemonResponse Value → String) where
    abbrev unexpected : DaemonResponse Value → Result String DeviceListResult
    unexpected r = err ("daemon 响应异常: " <> show r)

    unfoldable pub get_device_list :
        (computer : String)
        → Result String (DaemonResponse Value)
        → Gui
        → Result String DeviceListResult
    unfolding split_peers load_config_store local_name
    get_device_list computer (ok (state s)) g = ok (
        split_peers s.vnt_virtual_ip (local_name computer (load_config_store g)) s.peers
          (record { devices = []; local = none }))
    get_device_list computer (ok (pong n)) g = unexpected (pong n)
    get_device_list computer (ok ok_response) g = unexpected ok_response
    get_device_list computer (ok (logs es)) g = unexpected (logs es)
    get_device_list computer (ok (error c m)) g = unexpected (error c m)
    get_device_list computer (ok (event n v)) g = unexpected (event n v)
    get_device_list computer (err e) g = err ("获取设备列表失败: " <> e)

  -- The last of the peers that are this device.
  abbrev pub last_local : (PeerInfo → Bool) → List PeerInfo → Option PeerInfo → Option PeerInfo
  last_local p [] found = found
  last_local p (x ∷ xs) found = last_local p xs (if p x then some x else found)

  split_peers_lem :
      (ip name : Option String) (ps : List PeerInfo) (r : DeviceListResult)
      → split_peers ip name ps r ≡ record {
        devices = r.devices ++ filter (λ p. not (is_local ip name p)) ps;
        local = last_local (is_local ip name) ps r.local;
      }
  unfolding split_peers
  split_peers_lem ip name [] r = rw (append-nil r.devices) refl
  split_peers_lem ip name (p ∷ ps) r = elim (Bool-cases (is_local ip name p)) [
    | inl own ↦ rw own (split_peers_lem ip name ps (record r { local = some p }))
    | inr other ↦
        rw (other, ← append_assoc r.devices (p ∷ []) (filter (λ p. not (is_local ip name p)) ps))
          (split_peers_lem ip name ps (record r { devices = r.devices ++ p ∷ [] }))
  ]

  last_local_later :
      (p : PeerInfo → Bool) (xs : List PeerInfo) (x : PeerInfo) (found : Option PeerInfo)
      → p x ≡ true
      → last_local p (xs ++ x ∷ []) found ≡ some x
  last_local_later p [] x found h = rw h refl
  last_local_later p (y ∷ ys) x found h = last_local_later p ys x (if p y then some y else found) h

  module _ {Value : Type 0} (show : DaemonResponse Value → String) where
    -- With a snapshot of the daemon, the devices are exactly the peers that are not this device, by
    -- address or by name, in their order, and this device is the last of the others.
    devices_are_the_others :
        (computer : String) (s : Snapshot) (g : Gui)
        → let own = is_local s.vnt_virtual_ip (local_name computer (load_config_store g)) in
          get_device_list show computer (ok (state s)) g
          ≡ ok (record {
            devices = filter (λ p. not (own p)) s.peers;
            local = last_local own s.peers none;
          })
    unfolding get_device_list
    devices_are_the_others computer s g =
        ap ok (split_peers_lem s.vnt_virtual_ip _ s.peers (record { devices = []; local = none }))

    -- A peer that comes last and has the name of this device is taken for it, also when its address is
    -- another one and the peer with this device's address is listed before.
    pub stale_row_is_taken_for_this :
        (computer : String) (s : Snapshot) (g : Gui) (ps : List PeerInfo) (stale : PeerInfo)
        (ip name : String)
        → s.peers ≡ ps ++ stale ∷ []
        → s.vnt_virtual_ip ≡ some ip
        → local_name computer (load_config_store g) ≡ some name
        → same_name stale.name name ≡ true
        → str_eq stale.virtual_ip ip ≡ false
        → get_device_list show computer (ok (state s)) g
          ≡ ok (record {
            devices = filter (λ p. not (is_local (some ip) (some name) p)) (ps ++ stale ∷ []);
            local = some stale;
          })
    unfolding is_local
    stale_row_is_taken_for_this computer s g ps stale ip name peers own called same other =
        let taken : is_local (some ip) (some name) stale ≡ true = rw (other, same) refl in
        devices_are_the_others computer s g
        ∙ rw
            (
              peers,
              own,
              called,
              last_local_later (is_local (some ip) (some name)) ps stale none taken,
            )
            refl
