-- ===== src/Transfer/State.antt =====
-- The state of the file transfer (src-tauri/src/file_transfer/mod.rs): the queue, the history, the
-- settings, the requests that wait for the user and the cancel flags. It stands on the disk, and
-- `log` has what went out: messages to the peers and events to the user interface.
pub mod Commands
pub mod Settings
pub mod Progress
use Prim.Native.String.{◌++◌ as ◌<>◌}
use text.Mathlib.Text.{find?}
use vnt_gui_dev.Prelude.{
  ℕ, ◌-◌, ◌/◌, String, Bool, true, false, not, ◌||◌, Option, none, some, List, [], ◌∷◌, ◌++◌, ◌==◌,
  ltb, if◌then◌else◌, find, filter,
}
use vnt_gui_dev.Transfer.Protocol.{
  Bytes, FileOffer, FileMsg, TextMessage, TransferChannel, TransferDirection, send, receive,
  TransferStatus, pending, transferring, paused, completed, failed, cancelled, rejected,
  TransferRecord,
}
use vnt_gui_dev.Transfer.Disk.{Disk, IoError, is_some}
use vnt_gui_dev.Transfer.Filter.{FileTypeFilter}
use vnt_gui_dev.Transfer.Manager.{TransferTask, TransferManager, update, find_task, update_speed}
use vnt_gui_dev.Transfer.History.{HistoryStore}
use vnt_gui_dev.Transfer.History as History
use vnt_gui_dev.Transfer.Receiver as Receiver
use vnt_gui_dev.Transfer.Receiver.{TransferError}

-- The choice of the user in the dialog.
pub data ReceiveDecision : Type 0 where
  accept_at : String → ReceiveDecision
  reject_for : String → ReceiveDecision

-- `confirm`, the way to the handler that waits, is the id under which the request is listed.
pub record PendingReceive : Type 0 where
  pub offer : FileOffer
  pub resume_offset : ℕ
  pub partial_path : String
  pub default_save_path : String

pub record FileOfferPayload : Type 0 where
  pub transfer_id : ℕ
  pub filename : String
  pub file_size : ℕ
  pub channel : TransferChannel
  pub remote_ip : String
  pub remote_device : String
  pub resume_offset : ℕ
  pub default_save_path : String

-- The JSON answers of the TCP handshake.
pub data TcpResponse : Type 0 where
  accept_from : ℕ → TcpResponse
  reject_because : String → TcpResponse

pub data Output : Type 0 where
  to_peer : FileMsg → Output
  to_tcp_peer : TcpResponse → Output
  task_event : TransferTask → Output
  offer_event : FileOfferPayload → Output
  text_event : TextMessage → Output

pub record FileTransferState : Type 0 where
  pub transfer_mgr : TransferManager
  pub history : HistoryStore
  pub filter : FileTypeFilter
  pub auto_accept : Bool
  pub threshold : ℕ
  pub config_dir : String
  pub save_dir : String
  pub pending : List (ℕ × PendingReceive)
  pub cancel_flags : List (ℕ × Bool)
  pub disk : Disk
  pub log : List Output

-- What the handlers use of other packages and of the system: the hash and its print, the JSON text
-- of the history, the case mapping and the trimming of text, the print of numbers and of the errors
-- of the system, and the fuel of the search for a save path.
pub record Env : Type 0 where
  pub sha : Bytes → Bytes
  pub hex : Bytes → String
  pub encode : List TransferRecord → Bytes
  pub to_lowercase : String → String
  pub trim : String → String
  pub print : ℕ → String
  pub io_text : IoError → String
  pub lost_text : String
  pub fuel : ℕ

abbrev pub hash_hex : Env → Bytes → String
hash_hex env content = env.hex (env.sha content)

-- A map by ids: `HashMap::insert`, `remove` and `get`.
module _ {ℓ} {V : Type ℓ} where
  abbrev pub without : ℕ → List (ℕ × V) → List (ℕ × V)
  without id [] = []
  without id ((k, v) ∷ m) = let rest = without id m in if k == id then rest else (k, v) ∷ rest

  abbrev pub with_entry : ℕ → V → List (ℕ × V) → List (ℕ × V)
  with_entry id v m = (id, v) ∷ without id m

  abbrev pub entry : ℕ → List (ℕ × V) → Option V
  entry id [] = none
  entry id ((k, v) ∷ m) = if k == id then some v else entry id m

abbrev pub output : Output → FileTransferState → FileTransferState
output o s = record s { log = s.log ++ o ∷ [] }

abbrev pub on_found : Option TransferTask → FileTransferState → FileTransferState
on_found none s = s
on_found (some t) s = output (task_event t) s

-- `emit_task`, and the end of `update_task`.
abbrev pub emit_task : ℕ → FileTransferState → FileTransferState
emit_task id s = on_found (find_task id s.transfer_mgr) s

-- `update_task`, and `update_task_transfer`
unfoldable pub update_task :
    ℕ → (TransferTask → TransferTask) → FileTransferState → FileTransferState
update_task id f s = emit_task id (record s { transfer_mgr = (update id f s.transfer_mgr).1 })

abbrev pub forget_flag : ℕ → FileTransferState → FileTransferState
forget_flag id s = record s { cancel_flags = without id s.cancel_flags }

abbrev pub forget_pending : ℕ → FileTransferState → FileTransferState
forget_pending id s = record s { pending = without id s.pending }

abbrev pub forget : ℕ → FileTransferState → FileTransferState
forget id s = forget_flag id (forget_pending id s)

unfoldable pub new_receive_task : FileOffer → String → ℕ → String → TransferTask
new_receive_task offer remote_ip resume_offset save_path = record {
  transfer_id = 0;
  filename = offer.filename;
  file_size = offer.file_size;
  bytes_done = resume_offset;
  direction = receive;
  channel = offer.channel;
  status = pending;
  remote_ip = remote_ip;
  remote_device = offer.sender_device;
  error_message = none;
  speed_kbps = none;
  eta_seconds = none;
  created_at = 0;
  file_path = none;
  save_path = some save_path;
  resume_offset = resume_offset;
  quick_sent = false;
  last_progress_time = none;
}

unfoldable pub new_send_task :
    String → ℕ → String → String → TransferChannel → String → TransferTask
new_send_task filename file_size remote_ip remote_device channel file_path = record {
  transfer_id = 0;
  filename = filename;
  file_size = file_size;
  bytes_done = 0;
  direction = send;
  channel = channel;
  status = pending;
  remote_ip = remote_ip;
  remote_device = remote_device;
  error_message = none;
  speed_kbps = none;
  eta_seconds = none;
  created_at = 0;
  file_path = some file_path;
  save_path = none;
  resume_offset = 0;
  quick_sent = false;
  last_progress_time = none;
}

-- `matches!(t.status, Completed | Failed | Cancelled | Rejected | Paused)`
abbrev pub is_settled : TransferStatus → Bool
is_settled pending = false
is_settled transferring = false
is_settled paused = true
is_settled completed = true
is_settled failed = true
is_settled cancelled = true
is_settled rejected = true

module _ (rate eta : ℕ → ℕ → ℕ) where
  abbrev pub unless_settled : ℕ → ℕ → TransferTask → TransferTask
  unless_settled now done t = if is_settled t.status then t else update_speed rate eta now done t

  -- `progress_update`, which runs as a task of its own, at any time after its report.
  unfoldable pub progress_update : ℕ → ℕ → ℕ → FileTransferState → FileTransferState
  unfolding update_task
  progress_update now id done s = update_task id (unless_settled now done) s

-- `text.contains(part)`
abbrev pub contains : String → String → Bool
contains text part = is_some (find? text part)

-- The texts of the errors of a receiving transfer.
unfoldable pub error_text : Env → TransferError → String
error_text env Receiver.cancelled_here = "传输已取消"
error_text env (Receiver.cancelled_by_peer reason) = "对方取消: " <> reason
error_text env (Receiver.rejected_by_peer reason) = "对方拒绝: " <> reason
error_text env (Receiver.chunk_gap expected actual) =
    "块偏移不连续: 期望 " <> (env.print expected <> (" 实际 " <> env.print actual))
error_text env (Receiver.stream_ended got expected) =
    "数据流提前结束（已收 " <> (env.print got <> (" 字节，期望 " <> (env.print expected <> " 字节）")))
error_text env (Receiver.closed_early got expected) =
    "连接提前关闭（已读 " <> (env.print got <> (" 字节，期望 " <> (env.print expected <> " 字节）")))
error_text env (Receiver.hash_mismatch expected actual) =
    "文件校验失败: 期望 " <> (expected <> (" 实际 " <> actual))
error_text env Receiver.connection_lost = env.lost_text
error_text env Receiver.timed_out = "等待对方确认超时（对方未响应）"
error_text env (Receiver.io e) = env.io_text e

-- KB/s over the whole transfer.
abbrev pub average_speed : ℕ → ℕ → Option ℕ
average_speed bytes duration = if ltb 0 duration then some (bytes / duration / 1024) else none

-- `let _ = state.history.push(record)`
abbrev pub push_history : Env → TransferRecord → FileTransferState → FileTransferState
push_history env rec s =
    let (_, history, disk) = History.push env.encode rec s.history s.disk in
    record s { history = history; disk = disk }
