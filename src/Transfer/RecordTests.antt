-- ===== src/Transfer/RecordTests.antt =====
-- The filter, the queue and the history of the transfers at concrete inputs.
use vnt_gui_dev.Prelude.{◌≡◌, refl, false, Option, none, some, List, [], ◌∷◌, arith, length}
use vnt_gui_dev.Transfer.Protocol.{Bytes, quic, send, completed, pending, TransferRecord}
use vnt_gui_dev.Transfer.Disk.{Disk}
use vnt_gui_dev.Transfer.Filter.{FileTypeFilter, whitelist}
use vnt_gui_dev.Transfer.Manager.{TransferTask, TransferManager}
use vnt_gui_dev.Transfer.Manager.Laws as ManagerLaws
use vnt_gui_dev.Transfer.History.{HistoryStore, load, push, pushed, deleted, deleted_many, cleared}
use vnt_gui_dev.Transfer.History.Ids.{changes-IsValid, IsValid}
use vnt_gui_dev.Transfer.History.Reload.{push_survives_restart}

abbrev images : FileTypeFilter
images = record { mode = whitelist; extensions = "png" ∷ [] }

abbrev task : TransferTask
task = record {
  transfer_id = 0;
  filename = "x";
  file_size = 3;
  bytes_done = 0;
  direction = send;
  channel = quic;
  status = pending;
  remote_ip = "10.26.0.2";
  remote_device = "pc";
  error_message = none;
  speed_kbps = none;
  eta_seconds = none;
  created_at = 0;
  file_path = none;
  save_path = none;
  resume_offset = 0;
  quick_sent = false;
  last_progress_time = none;
}

abbrev queue : TransferManager
queue = record {
  tasks = record task { transfer_id = 1 } ∷ [];
  next_id = 2;
  permits = 3;
  size_threshold = 100;
}

queue-IsValid : ManagerLaws.IsValid queue
queue-IsValid = record { below = (omega arith, tt); unwrapped = omega arith }

abbrev half_done : TransferTask → TransferTask
half_done t = record t { bytes_done = 2 }

abbrev sent_file : TransferRecord
sent_file = record {
  id = 4;
  transfer_id = 9;
  direction = send;
  filename = "x";
  file_size = 3;
  remote_ip = "10.26.0.2";
  remote_device = "pc";
  channel = quic;
  status = completed;
  start_time = 100;
  end_time = none;
  bytes_transferred = 3;
  file_hash = none;
  error_message = none;
  file_path = none;
  quick_sent = false;
  avg_speed_kbps = none;
}

abbrev history : HistoryStore
history = record { path = "h.json"; records = sent_file ∷ []; next_id = 5 }

history-IsValid : IsValid history
history-IsValid = record { distinct = (tt, tt); below = (omega arith, tt) }

changes-IsValid_example :
    IsValid (pushed sent_file history)
    × IsValid (deleted 4 history)
    × IsValid (deleted_many (4 ∷ []) history)
    × IsValid (cleared history)
changes-IsValid_example = changes-IsValid history sent_file 4 (4 ∷ []) history-IsValid (omega arith)

-- A text that is the number of the records, read back for the two that are saved.
abbrev encode : List TransferRecord → Bytes
encode rs = length rs ∷ []

abbrev two : List TransferRecord
two = sent_file ∷ record sent_file { id = 5 } ∷ []

abbrev decode : Bytes → Option (List TransferRecord)
decode b = some two

two_saved :
    decode (encode (pushed sent_file history).records) ≡ some (pushed sent_file history).records
unfolding pushed
two_saved = refl

abbrev calm_disk : Disk
calm_disk = record { files = λ p. none; faults = [] }

push_survives_restart_example :
    (load decode "h.json" (push encode sent_file history calm_disk).2).0
    ≡ (push encode sent_file history calm_disk).1
push_survives_restart_example =
    push_survives_restart encode decode sent_file history calm_disk history-IsValid (omega arith)
      refl two_saved
