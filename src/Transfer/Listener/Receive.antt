-- ===== src/Transfer/Listener/Receive.antt =====
-- The receiving of a request that was taken up, and its end (`execute_receive`, the TCP branch and
-- `finish_receive` of src-tauri/src/file_transfer/daemon_listener.rs).
use vnt_gui_dev.Prelude.{
  ℕ, ◌-◌, String, Bool, true, false, ◌&&◌, ◌||◌, Option, none, some, List, [], ◌∷◌, ◌++◌,
  if◌then◌else◌, Result, ok, err,
}
use vnt_gui_dev.Transfer.Protocol.{
  Bytes, FileOffer, FileMsg, TransferRecord, TransferStatus, transferring, paused, completed,
  failed, cancelled,
}
use vnt_gui_dev.Transfer.Disk.{Disk, IoError, exists, read_all, remove_file}
use vnt_gui_dev.Transfer.Manager.{TransferTask}
use vnt_gui_dev.Transfer.Receiver.{TransferError, ReceivePlan, partial_for}
use vnt_gui_dev.Transfer.Receiver.Quic.{receive_quic}
use vnt_gui_dev.Transfer.Receiver.Quic as Quic
use vnt_gui_dev.Transfer.Receiver.Tcp.{receive_tcp}
use vnt_gui_dev.Transfer.Receiver.Tcp as Tcp
use vnt_gui_dev.Transfer.State.{
  Output, to_peer, FileTransferState, Env, hash_hex, with_entry, update_task, forget, forget_flag,
  contains, error_text, average_speed,
}
use vnt_gui_dev.Transfer.Listener.{record_task}

abbrev pub begun : String → TransferTask → TransferTask
begun save_path t = record t { status = transferring; save_path = some save_path }

-- A new cancel flag, and the task is shown as running.
unfoldable pub begin_receive : ℕ → String → FileTransferState → FileTransferState
unfolding update_task
begin_receive id save_path s =
    update_task id (begun save_path)
      (record s { cancel_flags = with_entry id false s.cancel_flags })

abbrev pub received_record :
    ℕ
    → TransferStatus
    → ℕ
    → Option ℕ
    → Option String
    → Option String
    → String
    → ℕ
    → TransferTask
    → TransferRecord
received_record end_time status bytes avg hash error save_path file_size task = record {
  id = 0;
  transfer_id = task.transfer_id;
  direction = task.direction;
  filename = task.filename;
  file_size = file_size;
  remote_ip = task.remote_ip;
  remote_device = task.remote_device;
  channel = task.channel;
  status = status;
  start_time = task.created_at;
  end_time = some end_time;
  bytes_transferred = bytes;
  file_hash = hash;
  error_message = error;
  file_path = some save_path;
  quick_sent = task.quick_sent;
  avg_speed_kbps = avg;
}

abbrev hash_of : (Bytes → String) → Result IoError Bytes → Option String
hash_of hash_hex (ok content) = some (hash_hex content)
hash_of hash_hex (err e) = none

abbrev pub done_with : ℕ → TransferTask → TransferTask
done_with bytes t = record t {
  status = completed;
  bytes_done = bytes;
  speed_kbps = none;
  eta_seconds = none;
}

abbrev pub stopped_with : TransferStatus → String → TransferTask → TransferTask
stopped_with status message t = record t {
  status = status;
  error_message = some message;
  speed_kbps = none;
  eta_seconds = none;
}

-- `if partial.exists() { let _ = remove_file(partial) }`
abbrev pub drop_partial : String → Disk → Disk
drop_partial save_path d =
    if exists (partial_for save_path) d then (remove_file (partial_for save_path) d).1 else d

module _ (env : Env) (end_time id : ℕ) (save_path : String) (file_size : ℕ) where
  abbrev completed_record : ℕ → Option String → TransferTask → TransferRecord
  completed_record bytes hash task =
      received_record end_time completed bytes (average_speed bytes (end_time - task.created_at))
        hash none save_path file_size task

  -- The hash of the saved file is computed for the history.
  abbrev pub finish_ok : ℕ → FileTransferState → FileTransferState
  finish_ok bytes s =
      let s' = update_task id (done_with bytes) s in
      let (content, d) = read_all save_path s'.disk in
      record_task env id (completed_record bytes (hash_of (hash_hex env) content))
        (record s' { disk = d })

  -- A pause of the sender keeps the partial file and writes no history.
  abbrev pub is_pause : String → Bool
  is_pause text = contains text "暂停" && contains text "对方取消"

  abbrev pub is_cancel : String → Bool
  is_cancel text = contains text "取消"

  abbrev pub gives_up : String → Bool
  gives_up text = is_cancel text || contains text "校验失败"

  abbrev pub stopped_status : String → TransferStatus
  stopped_status text = if is_cancel text then cancelled else failed

  abbrev pub stopped_record : String → TransferTask → TransferRecord
  stopped_record text task =
      received_record end_time task.status task.bytes_done none none (some text) save_path file_size
        task

  abbrev pub finish_stopped : String → FileTransferState → FileTransferState
  finish_stopped text s =
      let s' = update_task id (stopped_with (stopped_status text) text) s in
      record_task env id (stopped_record text)
        (if gives_up text then record s' { disk = drop_partial save_path s'.disk } else s')

  abbrev pub finish_error : String → FileTransferState → FileTransferState
  finish_error text s =
      if is_pause text
      then update_task id (stopped_with paused "发送端已暂停，等待继续") s
      else finish_stopped text s

  unfoldable pub finish_receive : Result TransferError ℕ → FileTransferState → FileTransferState
  unfolding error_text
  finish_receive (ok bytes) s = finish_ok bytes s
  finish_receive (err e) s = finish_error (error_text env e) s

abbrev pub sent_out : List FileMsg → List Output
sent_out [] = []
sent_out (m ∷ ms) = to_peer m ∷ sent_out ms

-- What is cleared at the end: also the request, if the user had to confirm it.
abbrev pub cleared : Bool → ℕ → FileTransferState → FileTransferState
cleared true id s = forget id s
cleared false id s = forget_flag id s

module _ (env : Env) (end_time id : ℕ) (confirmed : Bool) (save_path : String) where
  abbrev pub ended :
      ℕ → Option (Result TransferError ℕ) → FileTransferState → Option FileTransferState
  ended file_size none s = none
  ended file_size (some r) s =
      some (cleared confirmed id (finish_receive env end_time id save_path file_size r s))

  -- The receiving on the rounds that were played; `none` while it goes on after them.
  unfoldable pub end_receive :
      ReceivePlan → List Quic.Turn → FileTransferState → Option FileTransferState
  unfolding finish_receive
  end_receive plan turns s =
      let p = receive_quic (hash_hex env) plan save_path turns s.disk in
      ended plan.offer.file_size p.result
        (record s { disk = p.rx.disk; log = s.log ++ sent_out p.rx.sent })

  unfoldable pub end_tcp_receive :
      FileOffer → List Tcp.Turn → Bytes → FileTransferState → Option FileTransferState
  unfolding finish_receive
  end_tcp_receive offer turns stream s =
      let p = receive_tcp env.sha env.hex offer save_path turns stream s.disk in
      ended offer.file_size p.result (record s { disk = p.disk })
