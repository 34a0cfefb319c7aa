-- ===== src/Transfer/State/Commands/Send.antt =====
-- Sending: the command, and the end of a sending task (`file_send`, `run_send` and `finish_send` of
-- src-tauri/src/file_transfer/mod.rs). What the sender does between is its result, an argument.
use Prim.Native.String.{◌++◌ as ◌<>◌}
use vnt_gui_dev.Prelude.{
  ℕ, ◌-◌, String, Bool, true, false, Option, none, some, List, [], ◌∷◌, Result, ok, err, ◌==◌,
  str_eq, if◌then◌else◌,
}
use vnt_gui_dev.Transfer.Protocol.{
  TransferChannel, quic, tcp, is_tcp, FileMsg, TransferStatus, pending, transferring, paused,
  completed, failed, cancelled, rejected, TransferRecord,
}
use vnt_gui_dev.Transfer.Protocol as Protocol
use vnt_gui_dev.Transfer.Disk.{Disk, IoError, metadata_len}
use vnt_gui_dev.Transfer.Manager.{TransferTask, find_task, select_channel, enqueue}
use vnt_gui_dev.Transfer.Receiver.Placement.{parent_and_name}
use vnt_gui_dev.Transfer.State.{
  to_peer, task_event, FileTransferState, Env, with_entry, output, emit_task, update_task,
  forget_flag, new_send_task, contains, average_speed, push_history,
}

pub record SendResult : Type 0 where
  pub bytes_sent : ℕ
  pub file_hash_hex : String
  pub resume_offset : ℕ
  pub quick_sent : Bool

-- The name of a device in the daemon's list of addresses and names, or the address.
unfoldable pub lookup_device_name : Option (List (String × String)) → String → String
lookup_device_name none remote_ip = remote_ip
lookup_device_name (some []) remote_ip = remote_ip
lookup_device_name (some ((ip, name) ∷ peers)) remote_ip =
    if str_eq ip remote_ip then name else lookup_device_name (some peers) remote_ip

-- A large file goes to the port that the probe of the receiver has found; 0 is no port.
abbrev pub channel_for : Result String ℕ → TransferChannel → Result String TransferChannel
channel_for probed quic = ok quic
channel_for (err e) (tcp port) = err e
channel_for (ok found) (tcp port) =
    if found == 0 then err "对方文件接收的 TCP 高速通道尚未就绪（接收端未连接虚拟局域网或服务未启动），请稍后重试" else ok (tcp found)

module _ (env : Env) (now : ℕ) (probed : Result String ℕ) (device : String)
    (file_path remote_ip : String) where
  abbrev queued :
      ℕ → FileTransferState → Result String TransferChannel → Result String ℕ × FileTransferState
  queued file_size s (err e) = (err e, s)
  queued file_size s (ok channel) =
      let task =
        new_send_task (parent_and_name file_path).1 file_size remote_ip device channel file_path in
      let (id, mgr) = enqueue now task s.transfer_mgr in
      let s' = emit_task id (record s { transfer_mgr = mgr }) in
      (ok id, record s' { cancel_flags = with_entry id false s'.cancel_flags })

  abbrev measured :
      FileTransferState → Result IoError ℕ × Disk → Result String ℕ × FileTransferState
  measured s (err e, d) = (err ("文件不存在或不可读: " <> env.io_text e), record s { disk = d })
  measured s (ok file_size, d) =
      queued file_size (record s { disk = d })
        (channel_for probed (select_channel file_size s.transfer_mgr))

  -- `probed` is what the probe of the address yields, for a large file.
  unfoldable pub file_send : FileTransferState → Result String ℕ × FileTransferState
  file_send s = measured s (metadata_len file_path s.disk)

abbrev pub sent_record :
    ℕ → TransferStatus → ℕ → Option String → Option String → TransferTask → TransferRecord
sent_record end_time status bytes error file_hash task = record {
  id = 0;
  transfer_id = task.transfer_id;
  direction = task.direction;
  filename = task.filename;
  file_size = task.file_size;
  remote_ip = task.remote_ip;
  remote_device = task.remote_device;
  channel = task.channel;
  status = status;
  start_time = task.created_at;
  end_time = some end_time;
  bytes_transferred = bytes;
  file_hash = file_hash;
  error_message = error;
  file_path = task.file_path;
  quick_sent = task.quick_sent;
  avg_speed_kbps = average_speed bytes (end_time - task.created_at);
}

abbrev pub sent_all : SendResult → TransferTask → TransferTask
sent_all res t = record t {
  status = completed;
  bytes_done = res.bytes_sent;
  speed_kbps = none;
  eta_seconds = none;
  quick_sent = res.quick_sent;
}

abbrev pub send_stopped : TransferStatus → String → TransferTask → TransferTask
send_stopped status e t = record t {
  status = status;
  error_message = some e;
  speed_kbps = none;
  eta_seconds = none;
}

abbrev pub status_of : String → TransferStatus
status_of e = if contains e "取消" then cancelled else failed

module _ (env : Env) (end_time id : ℕ) where
  abbrev pub pushed_and_shown :
      (TransferTask → TransferRecord) → Option TransferTask → FileTransferState → FileTransferState
  pushed_and_shown rec none s = s
  pushed_and_shown rec (some task) s = output (task_event task) (push_history env (rec task) s)

  unfoldable pub finish_send : Result String SendResult → FileTransferState → FileTransferState
  finish_send (ok res) s =
      let s' = update_task id (sent_all res) s in
      pushed_and_shown (sent_record end_time completed res.bytes_sent none (some res.file_hash_hex))
        (find_task id s'.transfer_mgr) s'
  finish_send (err e) s =
      let s' = update_task id (send_stopped (status_of e) e) s in
      pushed_and_shown
        (λ task. sent_record end_time (status_of e) task.bytes_done (some e) none task)
        (find_task id s'.transfer_mgr) s'

  abbrev pub is_paused : TransferStatus → Bool
  is_paused pending = false
  is_paused transferring = false
  is_paused paused = true
  is_paused completed = false
  is_paused failed = false
  is_paused cancelled = false
  is_paused rejected = false

  abbrev pub was_paused : Option TransferTask → Bool
  was_paused none = false
  was_paused (some t) = is_paused t.status

  -- The receiver is told of a pause on the QUIC connection.
  abbrev pub pause_notice : Bool → FileTransferState → FileTransferState
  pause_notice true s =
      output (to_peer (Protocol.cancel (record { transfer_id = id; reason = "已暂停" }))) s
  pause_notice false s = s

  -- `run_send` after the transfer; `connected` says that there is a QUIC connection.
  unfoldable pub run_send_end :
      Bool → Result String SendResult → FileTransferState → FileTransferState
  unfolding finish_send
  run_send_end connected result s = forget_flag id (
      if was_paused (find_task id s.transfer_mgr)
      then pause_notice connected s
      else finish_send result s)

  -- `wait_pause_ack`: whether the messages so far have ended the wait. `none` is a lost connection.
  unfoldable pub wait_pause_ack : List (Option FileMsg) → Bool
  wait_pause_ack [] = false
  wait_pause_ack (none ∷ ms) = true
  wait_pause_ack (some (Protocol.cancel c) ∷ ms) =
      if c.transfer_id == id then true else wait_pause_ack ms
  wait_pause_ack (some _ ∷ ms) = wait_pause_ack ms
