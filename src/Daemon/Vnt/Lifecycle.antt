-- ===== src/Daemon/Vnt/Lifecycle.antt =====
-- Starting, stopping and restarting VNT.
use vnt_gui_dev.Prelude.{
  ℕ, ◌≤◌, ◌≡◌, refl, Bool, true, false, Option, none, some, [], arith, ok, err, zero, suc, ◌⊎◌, inl,
  if◌then◌else◌,
}
use vnt_gui_dev.Transfer.Protocol.{Bytes}
use vnt_gui_dev.App.Config.{VntConfig}
use vnt_gui_dev.Daemon.State.{StoredState, load_or_init}
use vnt_gui_dev.Daemon.State.Restart.{restart_remembers_services, saved_of}
use vnt_gui_dev.Daemon.Vnt.{VntDaemon, start, stop, restart, restore_vnt, next_delay}

abbrev pub runs : Option VntConfig → Bool
runs none = false
runs (some config) = true

abbrev pub Known : Option VntConfig → Option VntConfig → Type 0
Known none c = Unit
Known (some r) c = c ≡ some r

-- The handle is set exactly while the state says that VNT runs, and then the state has its
-- configuration.
abbrev pub IsValid : VntDaemon → Type 0
IsValid d = (runs d.runtime ≡ d.state.vnt_running) × Known d.runtime d.state.vnt_config

-- Starting, stopping, restarting and restoring keep what the state says in step with the handle of
-- the supervision; starting fails exactly while the state says that VNT runs, and then changes
-- nothing; a restart always succeeds and ends with a handle of the new configuration. Whether the
-- supervision then finds and spawns vnt-cli is not part of this.
vnt_operations-IsValid :
    (encode : StoredState → Bytes) (config : VntConfig) (d : VntDaemon)
    → IsValid d
    → IsValid (start encode config d).1
      × IsValid (stop encode d).1
      × IsValid (restart encode config d).1
      × IsValid (restore_vnt encode d)
      × ((start encode config d) ≡ (
          if d.state.vnt_running then (err "VNT 已在运行", d) else (ok tt, (start encode config d).1)))
      × ((restart encode config d).0 ≡ ok tt)
      × ((restart encode config d).1.runtime ≡ some config)
unfolding start stop restart restore_vnt
vnt_operations-IsValid encode config d v = ground arith

-- The daemon started anew from its disk.
abbrev pub reboot : (Bytes → Option StoredState) → ℕ → VntDaemon → VntDaemon
reboot decode now d =
    let (s, disk) = load_or_init decode now d.disk in
    record { runtime = none; state = s; disk = disk }

-- Where no call of the system fails and the JSON text reads back as it was written: when the daemon
-- ends after VNT was started, the next one starts the supervision of the same configuration again,
-- and when it ends after VNT was stopped, the next one starts none.
pub vnt_restart_recovers :
    (encode : StoredState → Bytes) (decode : Bytes → Option StoredState) (config : VntConfig)
    (now : ℕ) (d : VntDaemon)
    → d.disk.faults ≡ []
    → d.runtime ≡ none
    → decode (encode (saved_of (start encode config d).1.state))
      ≡ some (saved_of (start encode config d).1.state)
    → decode (encode (saved_of (stop encode d).1.state)) ≡ some (saved_of (stop encode d).1.state)
    → ((restore_vnt encode (reboot decode now (start encode config d).1)).runtime ≡ some config)
      × ((restore_vnt encode (reboot decode now (stop encode d).1)).runtime ≡ none)
unfolding start stop restore_vnt
vnt_restart_recovers encode decode config now d calm idle started stopped = ground (
  arith,
  restart_remembers_services encode decode now (start encode config d).1.state d.disk calm started,
  restart_remembers_services encode decode now (stop encode d).1.state d.disk calm stopped,
)

abbrev pub delay_after : ℕ → ℕ
delay_after zero = 3
delay_after (suc n) = next_delay (delay_after n)

delays :
    (n : ℕ)
    → (delay_after n ≡ 3)
      ⊎ (delay_after n ≡ 6)
      ⊎ (delay_after n ≡ 12)
      ⊎ (delay_after n ≡ 24)
      ⊎ (delay_after n ≡ 48)
unfolding next_delay
delays zero = inl refl
delays (suc n) = ground (arith, delays n)

-- However often the process has ended unexpectedly, the delay before it is started again is between
-- 3 and 48 seconds, and it never gets shorter.
restart_delay_is_bounded :
    (n : ℕ) → (3 ≤ delay_after n) × (delay_after n ≤ 48) × (delay_after n ≤ delay_after (suc n))
unfolding next_delay
restart_delay_is_bounded n = ground (arith, delays n)
