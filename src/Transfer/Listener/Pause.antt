-- ===== src/Transfer/Listener/Pause.antt =====
-- What becomes of a transfer that is paused while it is received.
use vnt_gui_dev.Prelude.{
  ℕ, ◌≡◌, refl, ◌∙◌, ap, ◌++◌, String, Bool, none, some, List, [], arith, err,
}
use vnt_gui_dev.Transfer.Protocol.{rejected, paused, cancelled, FileOffer}
use vnt_gui_dev.Transfer.Manager.{TransferTask, find_task, update}
use vnt_gui_dev.Transfer.Receiver.{ReceivePlan, cancelled_here, cancelled_by_peer, partial_for}
use vnt_gui_dev.Transfer.Receiver.Quic.{Turn, Progress, receive_quic}
use vnt_gui_dev.Transfer.State.{
  reject_for, FileTransferState, Env, PendingReceive, entry, update_task, hash_hex,
}
use vnt_gui_dev.Transfer.State.Commands.{file_pause, file_cancel, pausing, cancelling}
use vnt_gui_dev.Transfer.Listener.{Reply, say}
use vnt_gui_dev.Transfer.Listener.Decide.{on_decision, refused, rejected_with}
use vnt_gui_dev.Transfer.Listener.Frames.{
  HasStatus, update_task_mgr, found_after, NotHistory, update_task-NotHistory, update_task_disk,
  update_task_history, record_task_mgr, record_task_keeps, drop_partial_calm, cleared_same,
}
use vnt_gui_dev.Transfer.Listener.Receive.{
  end_receive, finish_receive, cleared, stopped_with, stopped_record, drop_partial, sent_out,
}

file_pause_decision :
    (id : ℕ) (s : FileTransferState) (request : PendingReceive)
    → entry id s.pending ≡ some request
    → (file_pause id s).0 ≡ some (reject_for "发送端已暂停")
unfolding file_pause
file_pause_decision id s request h = rw h

file_cancel_decision :
    (id : ℕ) (reason : String) (s : FileTransferState) (request : PendingReceive)
    → entry id s.pending ≡ some request
    → (file_cancel id reason s).0 ≡ some (reject_for reason)
unfolding file_cancel
file_cancel_decision id reason s request h = rw h

pub file_pause_mgr :
    (id : ℕ) (s : FileTransferState)
    → (file_pause id s).1.transfer_mgr ≡ (update id pausing s.transfer_mgr).1
unfolding file_pause
file_pause_mgr id s = ground arith

file_cancel_mgr :
    (id : ℕ) (reason : String) (s : FileTransferState)
    → (file_cancel id reason s).1.transfer_mgr ≡ (update id (cancelling reason) s.transfer_mgr).1
unfolding file_cancel
file_cancel_mgr id reason s = ground arith

refused_is_rejected :
    (env : Env) (reply : Reply) (id : ℕ) (offer : FileOffer) (reason : String)
    (s : FileTransferState) (t : TransferTask)
    → find_task id s.transfer_mgr ≡ some t
    → HasStatus id (λ u. u.status ≡ rejected) (refused env reply id offer reason s).1
refused_is_rejected env reply id offer reason s t h =
    let f = rejected_with env reply id offer reason in
    let told = say (reply.rejects reason) s in
    (
      f t,
      found_after id f t s.transfer_mgr (update_task id f told) (update_task_mgr id f told)
          (λ u. refl) h,
      refl,
    )

-- A request that waits for the user, and whose task is paused or cancelled, ends as rejected once
-- its handler has had the decision: the status that the command has set does not stay.
stopped_request_is_rejected :
    (env : Env) (reply : Reply) (id : ℕ) (offer : FileOffer) (reason : String)
    (s : FileTransferState) (request : PendingReceive) (t : TransferTask)
    → entry id s.pending ≡ some request
    → find_task id s.transfer_mgr ≡ some t
    → HasStatus id
        (λ u. u.status ≡ rejected)
        (on_decision env reply id offer (file_pause id s).0 (file_pause id s).1).1
      × HasStatus id
          (λ u. u.status ≡ rejected)
          (on_decision env reply id offer (file_cancel id reason s).0 (file_cancel id reason s).1).1
unfolding on_decision
stopped_request_is_rejected env reply id offer reason s request t waits found = (
  let after = (file_pause id s).1 in
      let paused_now : (file_pause id s).0 ≡ some (reject_for "发送端已暂停") =
        file_pause_decision id s request waits in
      rw paused_now (
        refused_is_rejected env reply id offer "发送端已暂停" after (pausing t)
          (found_after id pausing t s.transfer_mgr after (file_pause_mgr id s) (λ u. refl) found)),
  let after = (file_cancel id reason s).1 in
      let cancelled_now : (file_cancel id reason s).0 ≡ some (reject_for reason) =
        file_cancel_decision id reason s request waits in
      rw cancelled_now (
        refused_is_rejected env reply id offer reason after (cancelling reason t) (
          found_after id (cancelling reason) t s.transfer_mgr after (file_cancel_mgr id reason s)
            (λ u. refl) found)),
)

module _ (env : Env) (end_time id : ℕ) (save_path : String) (file_size : ℕ) where
  -- The history and the queue at the end of a receive that the sender has paused.
  pause_keeps :
      (s : FileTransferState) (t : TransferTask)
      → find_task id s.transfer_mgr ≡ some t
      → HasStatus id
          (λ u. u.status ≡ paused)
          (finish_receive env end_time id save_path file_size (err (cancelled_by_peer "已暂停")) s)
        × ((finish_receive env end_time id save_path file_size
              (err (cancelled_by_peer "已暂停"))
              s).disk
            ≡ s.disk)
        × ((finish_receive env end_time id save_path file_size
              (err (cancelled_by_peer "已暂停"))
              s).history
            ≡ s.history)
  unfolding finish_receive
  pause_keeps s t h =
      let f = stopped_with paused "发送端已暂停，等待继续" in
      (
        (
          f t,
          found_after id f t s.transfer_mgr (update_task id f s) (update_task_mgr id f s)
              (λ u. refl) h,
          refl,
        ),
        update_task_disk id f s,
        update_task_history id f s,
      )

  -- A receive that the user has stopped is cancelled, and its partial file removed.
  pub stop_drops :
      (s : FileTransferState) (t : TransferTask)
      → find_task id s.transfer_mgr ≡ some t
      → NotHistory (partial_for save_path) s
      → s.disk.faults ≡ []
      → HasStatus id
          (λ u. u.status ≡ cancelled)
          (finish_receive env end_time id save_path file_size (err cancelled_here) s)
        × ((finish_receive env end_time id save_path file_size (err cancelled_here) s).disk.files
              (partial_for save_path)
            ≡ none)
  unfolding finish_receive
  stop_drops s t h n calm =
      let f = stopped_with cancelled "传输已取消" in
      let s1 = update_task id f s in
      let s2 : FileTransferState = record s1 { disk = drop_partial save_path s1.disk } in
      let rec = stopped_record env end_time id save_path file_size "传输已取消" in
      (
        (
          f t,
          ap (find_task id) (record_task_mgr env id rec s2)
              ∙ found_after id f t s.transfer_mgr s1 (update_task_mgr id f s) (λ u. refl) h,
          refl,
        ),
        record_task_keeps env (partial_for save_path) id rec s2
              (update_task-NotHistory id f (partial_for save_path) s n)
            ∙ drop_partial_calm save_path s1.disk
                (ap (λ d. d.faults) (update_task_disk id f s) ∙ calm),
      )

module _ (env : Env) (end_time id : ℕ) (confirmed : Bool) (save_path : String) (plan : ReceivePlan)
    (turns : List Turn) (s : FileTransferState) (t : TransferTask) where
  abbrev received : FileTransferState → Progress
  received s' = receive_quic (hash_hex env) plan save_path turns s'.disk

  -- When the sender pauses a transfer that is received, the task is paused, the history is as it
  -- was, and no file is touched any more: the partial file stays as the loop has left it.
  pub sender_pause_keeps_partial :
      find_task id s.transfer_mgr ≡ some t
      → (received s).result ≡ some (err (cancelled_by_peer "已暂停"))
      → (s' : FileTransferState) × (end_receive env end_time id confirmed save_path plan turns s
          ≡ some s')
        × HasStatus id (λ u. u.status ≡ paused) s'
        × (s'.disk ≡ (received s).rx.disk)
        × (s'.history ≡ s.history)
  unfolding end_receive
  sender_pause_keeps_partial found h =
      let p = received s in
      let s1 : FileTransferState = record s {
        disk = p.rx.disk;
        log = s.log ++ sent_out p.rx.sent;
      } in
      let e = err (cancelled_by_peer "已暂停") in
      let kept = pause_keeps env end_time id save_path plan.offer.file_size s1 t found in
      let same =
        cleared_same confirmed id
          (finish_receive env end_time id save_path plan.offer.file_size e s1) in
      (
        cleared confirmed id (finish_receive env end_time id save_path plan.offer.file_size e s1),
        rw h,
        (kept.0.0, ap (find_task id) same.0 ∙ kept.0.1, kept.0.2),
        same.1 ∙ kept.1,
        same.2 ∙ kept.2,
      )
