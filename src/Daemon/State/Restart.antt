-- ===== src/Daemon/State/Restart.antt =====
-- What a restarted daemon knows.
use Prim.Native.String.{◌++◌ as ◌<>◌}
use vnt_gui_dev.Prelude.{ℕ, ◌≡◌, false, Option, some, [], arith}
use vnt_gui_dev.Transfer.Protocol.{Bytes}
use vnt_gui_dev.Transfer.Disk.{Disk}
use vnt_gui_dev.Transfer.Disk.Laws.{atomic_save_calm}
use vnt_gui_dev.Daemon.State.{RuntimeState, StoredState, stored_of, load_or_init, save, state_path}

-- What is stored of a state.
abbrev pub saved_of : RuntimeState → StoredState
saved_of s = record (stored_of s) {
  vnt_was_running = s.vnt_running;
  ftp_was_running = s.ftp_running;
}

-- Where no call of the system fails and the JSON text reads back as it was written: a daemon that
-- is started after its state was saved counts nothing as running or connected, remembers exactly
-- which services were running, and has the configurations, the addresses and the peers as before.
pub restart_remembers_services :
    (encode : StoredState → Bytes) (decode : Bytes → Option StoredState) (now : ℕ)
    (s : RuntimeState) (d : Disk)
    → d.faults ≡ []
    → decode (encode (saved_of s)) ≡ some (saved_of s)
    → (load_or_init decode now (save encode s d)).0 ≡ record s {
      vnt_running = false;
      vnt_connected = false;
      vnt_was_running = s.vnt_running;
      ftp_running = false;
      ftp_was_running = s.ftp_running;
      started_at = now;
    }
unfolding load_or_init save
restart_remembers_services encode decode now s d calm dec =
    let a = atomic_save_calm (state_path <> ".tmp") state_path (encode (saved_of s)) d calm in
    ground (arith, a)
