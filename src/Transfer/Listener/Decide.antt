-- ===== src/Transfer/Listener/Decide.antt =====
-- What follows the decision of the user, in `handle_offer` and `handle_tcp_connection` of
-- src-tauri/src/file_transfer/daemon_listener.rs.
use Prim.Native.String.{◌++◌ as ◌<>◌}
use vnt_gui_dev.Prelude.{ℕ, String, Option, none, some, Result, ok, err}
use vnt_gui_dev.Transfer.Protocol.{FileOffer, rejected, failed}
use vnt_gui_dev.Transfer.Disk.{Disk, IoError}
use vnt_gui_dev.Transfer.Manager.{TransferTask}
use vnt_gui_dev.Transfer.Receiver.{ReceivePlan, plan_receive}
use vnt_gui_dev.Transfer.Receiver.Placement.{resolve_conflict}
use vnt_gui_dev.Transfer.State.{
  ReceiveDecision, accept_at, reject_for, FileTransferState, Env, hash_hex, update_task, forget,
}
use vnt_gui_dev.Transfer.Listener.{Reply, say, Phase, closed, waiting, receiving, with_disk}

module _ (env : Env) (reply : Reply) (id : ℕ) (offer : FileOffer) where
  abbrev pub rejected_with : String → TransferTask → TransferTask
  rejected_with reason t = record t { status = rejected; error_message = some reason }

  abbrev pub failed_with : String → TransferTask → TransferTask
  failed_with reason t = record t { status = failed; error_message = some reason }

  abbrev pub refused : String → FileTransferState → Phase × FileTransferState
  refused reason s =
      (closed, forget id (update_task id (rejected_with reason) (say (reply.rejects reason) s)))

  -- The plan is made again, for the path that the user has chosen.
  abbrev pub replanned :
      String → FileTransferState → Result IoError ReceivePlan × Disk → Phase × FileTransferState
  replanned save_path s (err e, d) = (
    closed,
    forget id (
        update_task id (failed_with ("接收准备失败: " <> env.io_text e))
          (say (reply.rejects (reply.plan_failure (env.io_text e))) (with_disk d s))),
  )
  replanned save_path s (ok plan, d) =
      (receiving id plan save_path, say (reply.accepts plan.resume_offset) (with_disk d s))

  abbrev pub settled_at : FileTransferState → Option String × Disk → Phase × FileTransferState
  settled_at s (none, d) = (waiting id, with_disk d s)
  settled_at s (some save_path, d) =
      let s' = with_disk d s in replanned save_path s' (plan_receive offer save_path s'.disk)

  -- `none`: the time is over, or the way to the handler was closed.
  unfoldable pub on_decision :
      Option ReceiveDecision → FileTransferState → Phase × FileTransferState
  on_decision none s = refused "等待确认超时" s
  on_decision (some (reject_for reason)) s = refused reason s
  on_decision (some (accept_at save_path)) s =
      settled_at s (resolve_conflict (hash_hex env) env.print env.fuel save_path offer s.disk)
