-- ===== src/Transfer/State/Commands.antt =====
-- The commands on running transfers (src-tauri/src/file_transfer/mod.rs) and the end of a sending
-- task. A decision that a command returns is the one that reaches the handler which waits.
pub mod Send
pub mod Ends
use Prim.Native.String.{◌++◌ as ◌<>◌}
use vnt_gui_dev.Prelude.{
  ℕ, String, Bool, true, false, Option, none, some, List, [], ◌∷◌, Result, ok, err, ◌==◌,
  if◌then◌else◌,
}
use vnt_gui_dev.Transfer.Protocol.{paused, cancelled}
use vnt_gui_dev.Transfer.Manager.{TransferTask, update, remove}
use vnt_gui_dev.Transfer.State.{
  ReceiveDecision, accept_at, reject_for, PendingReceive, FileTransferState, entry, without,
  emit_task, forget_flag, forget_pending,
}

-- `flag.cancel()` on the flag of the id, if there is one.
abbrev pub raise_flag : ℕ → List (ℕ × Bool) → List (ℕ × Bool)
raise_flag id [] = []
raise_flag id ((k, v) ∷ m) = if k == id then (k, true) ∷ m else (k, v) ∷ raise_flag id m

abbrev pub cancel_running : ℕ → FileTransferState → FileTransferState
cancel_running id s = record s { cancel_flags = raise_flag id s.cancel_flags }

abbrev pub decided : ReceiveDecision → Option PendingReceive → Option ReceiveDecision
decided decision none = none
decided decision (some request) = some decision

abbrev answered : ReceiveDecision → Option PendingReceive → Result String ReceiveDecision
answered decision none = err "请求不存在或已过期"
answered decision (some request) = ok decision

unfoldable pub file_accept :
    ℕ → String → FileTransferState → Result String ReceiveDecision × FileTransferState
file_accept id save_path s =
    (answered (accept_at save_path) (entry id s.pending), forget_pending id s)

unfoldable pub file_reject :
    ℕ → String → FileTransferState → Result String ReceiveDecision × FileTransferState
file_reject id reason s = (answered (reject_for reason) (entry id s.pending), forget_pending id s)

abbrev pub pausing : TransferTask → TransferTask
pausing t = record t {
  status = paused;
  error_message = some "已暂停，点「继续」可断点续传";
  speed_kbps = none;
  eta_seconds = none;
}

-- First the status, then the flag; a request that waits is rejected.
unfoldable pub file_pause : ℕ → FileTransferState → Option ReceiveDecision × FileTransferState
file_pause id s = (
  decided (reject_for "发送端已暂停") (entry id s.pending),
  emit_task id (
      forget_pending id
        (cancel_running id (record s { transfer_mgr = (update id pausing s.transfer_mgr).1 }))),
)

abbrev pub cancelling : String → TransferTask → TransferTask
cancelling reason t = record t { status = cancelled; error_message = some reason }

unfoldable pub file_cancel :
    ℕ → String → FileTransferState → Option ReceiveDecision × FileTransferState
file_cancel id reason s =
    let s' = forget_pending id (cancel_running id s) in
    (
      decided (reject_for reason) (entry id s.pending),
      emit_task id (record s' { transfer_mgr = (update id (cancelling reason) s'.transfer_mgr).1 }),
    )

-- A request that waits is dropped, and with it the way to its handler.
unfoldable pub file_remove_task : ℕ → FileTransferState → FileTransferState
file_remove_task id s =
    let s' = forget_pending id (forget_flag id s) in
    record s' { transfer_mgr = remove id s'.transfer_mgr }
