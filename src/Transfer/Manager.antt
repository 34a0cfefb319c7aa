-- ===== src/Transfer/Manager.antt =====
-- The queue of transfers (src-tauri/src/file_transfer/transfer_manager.rs). The clock is an
-- argument; the semaphore is its number of permits.
pub mod Laws
use vnt_gui_dev.Prelude.{
  ℕ, ◌+◌, ◌-◌, ◌%◌, ◌^◌, max, String, Bool, true, false, not, Option, none, some, List, [], ◌∷◌,
  ◌++◌, ◌==◌, leb, ltb, if◌then◌else◌, find, filter, update_first,
}
use vnt_gui_dev.Transfer.Protocol.{
  TransferChannel, quic, tcp, TransferDirection, TransferStatus, transferring,
}

pub record TransferTask : Type 0 where
  pub transfer_id : ℕ
  pub filename : String
  pub file_size : ℕ
  pub bytes_done : ℕ
  pub direction : TransferDirection
  pub channel : TransferChannel
  pub status : TransferStatus
  pub remote_ip : String
  pub remote_device : String
  pub error_message : Option String
  pub speed_kbps : Option ℕ
  pub eta_seconds : Option ℕ
  pub created_at : ℕ
  pub file_path : Option String
  pub save_path : Option String
  pub resume_offset : ℕ
  pub quick_sent : Bool
  -- in nanoseconds of a clock that only grows
  pub last_progress_time : Option ℕ

pub record TransferManager : Type 0 where
  pub tasks : List TransferTask
  pub next_id : ℕ
  pub permits : ℕ
  pub size_threshold : ℕ

abbrev pub tcp_default_port : ℕ
tcp_default_port = 34248

unfoldable pub new : ℕ → ℕ → TransferManager
new max_concurrent size_threshold = record {
  tasks = [];
  next_id = 1;
  permits = max max_concurrent 1;
  size_threshold = size_threshold;
}

unfoldable pub set_size_threshold : ℕ → TransferManager → TransferManager
set_size_threshold bytes m = record m { size_threshold = bytes }

-- `*id += 1` on a u64, as in a release build, where it wraps.
unfoldable pub next_transfer_id : TransferManager → ℕ × TransferManager
next_transfer_id m = (m.next_id, record m { next_id = (m.next_id + 1) % 2 ^ 64 })

abbrev has_id : ℕ → TransferTask → Bool
has_id id t = t.transfer_id == id

abbrev stamped : ℕ → TransferTask → TransferTask
stamped now t = if t.created_at == 0 then record t { created_at = now } else t

unfoldable pub enqueue : ℕ → TransferTask → TransferManager → ℕ × TransferManager
unfolding next_transfer_id
enqueue now task m =
    let (id, m') = next_transfer_id m in
    (id, record m' { tasks = m'.tasks ++ stamped now (record task { transfer_id = id }) ∷ [] })

unfoldable pub find_task : ℕ → TransferManager → Option TransferTask
find_task id m = find (has_id id) m.tasks

abbrev found : Option TransferTask → Bool
found none = false
found (some t) = true

unfoldable pub update : ℕ → (TransferTask → TransferTask) → TransferManager → Bool × TransferManager
update id updater m = (
  found (find (has_id id) m.tasks),
  record m { tasks = update_first (has_id id) updater m.tasks },
)

unfoldable pub remove : ℕ → TransferManager → TransferManager
remove id m = record m { tasks = filter (λ t. not (has_id id t)) m.tasks }

unfoldable pub select_channel : ℕ → TransferManager → TransferChannel
select_channel file_size m = if leb m.size_threshold file_size then tcp tcp_default_port else quic

-- What a progress report says of the speed. `rate` is the speed of so many bytes in so many
-- nanoseconds, `eta` the time for so many bytes at a speed; both are computed in floating point.
module _ (rate eta : ℕ → ℕ → ℕ) where
  abbrev with_speed : ℕ → ℕ → TransferTask → TransferTask
  with_speed done kbps t =
      if ltb 0 kbps
      then record t { speed_kbps = some kbps; eta_seconds = some (eta (t.file_size - done) kbps) }
      else t

  abbrev measured : ℕ → ℕ → Option ℕ → TransferTask → TransferTask
  measured now done none t = t
  measured now done (some prev) t =
      if leb 100000000 (now - prev)
      then with_speed done (rate (done - t.bytes_done) (now - prev)) t
      else t

  unfoldable pub update_speed : ℕ → ℕ → TransferTask → TransferTask
  update_speed now done t = record (measured now done t.last_progress_time t) {
    last_progress_time = some now;
    bytes_done = done;
    status = transferring;
  }
