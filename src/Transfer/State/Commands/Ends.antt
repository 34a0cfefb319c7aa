-- ===== src/Transfer/State/Commands/Ends.antt =====
-- How a sending task ends.
use vnt_gui_dev.Prelude.{
  ℕ, ◌≡◌, refl, sym, ◌∙◌, ap, String, Bool, true, false, Option, none, some, List, [], ◌∷◌, ◌++◌,
  append-nil, Result, ok, err,
}
use vnt_gui_dev.Transfer.Protocol.{FileMsg, TransferStatus, completed, TransferRecord}
use vnt_gui_dev.Transfer.Protocol as Protocol
use vnt_gui_dev.Transfer.Manager.{TransferTask, find_task}
use vnt_gui_dev.Transfer.History.{HistoryStore, pushed}
use vnt_gui_dev.Transfer.State.{FileTransferState, Env, Output, to_peer, update_task}
use vnt_gui_dev.Transfer.State.Commands.Send.{
  SendResult, sent_record, sent_all, send_stopped, status_of, pushed_and_shown, finish_send,
  is_paused, was_paused, pause_notice, run_send_end,
}
use vnt_gui_dev.Transfer.Listener.Frames.{
  HasStatus, update_task_mgr, found_after, push_history_history, update_task_history,
}

abbrev pub result_status : Result String SendResult → TransferStatus
result_status (ok res) = completed
result_status (err e) = status_of e

-- The history has one record more, with this status and the id of the task.
pub record Recorded (t : TransferTask) (status : TransferStatus) (before after : HistoryStore)
    : Type 0 where
  pub rec : TransferRecord
  pub added : after ≡ pushed rec before
  pub of_task : rec.transfer_id ≡ t.transfer_id
  pub with_status : rec.status ≡ status

pushed_and_shown_lem :
    (env : Env) (end_time id : ℕ) (rec : TransferTask → TransferRecord)
    (found : Option TransferTask) (t : TransferTask) (s : FileTransferState)
    → found ≡ some t
    → ((pushed_and_shown env end_time id rec found s).transfer_mgr ≡ s.transfer_mgr)
      × ((pushed_and_shown env end_time id rec found s).history ≡ pushed (rec t) s.history)
pushed_and_shown_lem env end_time id rec none t s h = cc
pushed_and_shown_lem env end_time id rec (some u) t s h =
    let same : u ≡ t = cc in
    (refl, push_history_history env (rec u) s ∙ ap (λ v. pushed (rec v) s.history) same)

finished :
    (env : Env) (end_time id : ℕ) (f : TransferTask → TransferTask)
    (rec : TransferTask → TransferRecord) (status : TransferStatus) (s : FileTransferState)
    (t : TransferTask)
    → ((u : TransferTask) → (f u).transfer_id ≡ u.transfer_id)
    → ((u : TransferTask) → (f u).status ≡ status)
    → ((u : TransferTask) → (rec u).transfer_id ≡ u.transfer_id)
    → ((u : TransferTask) → (rec u).status ≡ status)
    → find_task id s.transfer_mgr ≡ some t
    → HasStatus id
        (λ u. u.status ≡ status)
        (pushed_and_shown env end_time id rec
          (find_task id (update_task id f s).transfer_mgr)
          (update_task id f s))
      × Recorded t status s.history
          (pushed_and_shown env end_time id rec
            (find_task id (update_task id f s).transfer_mgr)
            (update_task id f s)).history
finished env end_time id f rec status s t keeps sets of_id of_status h =
    let s1 = update_task id f s in
    let found = found_after id f t s.transfer_mgr s1 (update_task_mgr id f s) keeps h in
    let shown =
      pushed_and_shown_lem env end_time id rec (find_task id s1.transfer_mgr) (f t) s1 found in
    (
      (f t, ap (find_task id) shown.0 ∙ found, sets t),
      record {
        rec = rec (f t);
        added = shown.1 ∙ ap (pushed (rec (f t))) (update_task_history id f s);
        of_task = of_id (f t) ∙ keeps t;
        with_status = of_status (f t);
      },
    )

finish_send_ends :
    (env : Env) (end_time id : ℕ) (result : Result String SendResult) (s : FileTransferState)
    (t : TransferTask)
    → find_task id s.transfer_mgr ≡ some t
    → HasStatus id (λ u. u.status ≡ result_status result) (finish_send env end_time id result s)
      × Recorded t (result_status result) s.history (finish_send env end_time id result s).history
unfolding finish_send
finish_send_ends env end_time id (ok res) s t h =
    finished env end_time id (sent_all res)
      (sent_record end_time completed res.bytes_sent none (some res.file_hash_hex)) completed s t
      (λ u. refl) (λ u. refl) (λ u. refl) (λ u. refl) h
finish_send_ends env end_time id (err e) s t h =
    finished env end_time id (send_stopped (status_of e) e)
      (λ task. sent_record end_time (status_of e) task.bytes_done (some e) none task) (status_of e)
      s t (λ u. refl) (λ u. refl) (λ u. refl) (λ u. refl) h

abbrev notice : ℕ → Bool → List Output
notice id true = to_peer (Protocol.cancel (record { transfer_id = id; reason = "已暂停" })) ∷ []
notice id false = []

-- What the end of a sending task leaves, by the status that its task has then: of a paused task the
-- queue and the history are as they were, and a receiver on QUIC is told; any other task gets the
-- status of the result, and the history one more record, with that status and the task's id.
abbrev pub Ended :
    ℕ
    → Bool
    → Result String SendResult
    → TransferTask
    → FileTransferState
    → FileTransferState
    → Bool
    → Type 0
Ended id connected result t s s' true =
    (s'.transfer_mgr ≡ s.transfer_mgr)
    × (s'.history ≡ s.history)
    × (s'.log ≡ s.log ++ notice id connected)
Ended id connected result t s s' false =
    HasStatus id (λ u. u.status ≡ result_status result) s'
    × Recorded t (result_status result) s.history s'.history

run_send_end_cases :
    (env : Env) (end_time id : ℕ) (connected : Bool) (result : Result String SendResult)
    (s : FileTransferState) (t : TransferTask) (b : Bool)
    → find_task id s.transfer_mgr ≡ some t
    → is_paused env end_time id t.status ≡ b
    → Ended id connected result t s (run_send_end env end_time id connected result s) b
unfolding run_send_end
run_send_end_cases env end_time id connected result s t true h e =
    let stays : was_paused env end_time id (find_task id s.transfer_mgr) ≡ true =
      ap (was_paused env end_time id) h ∙ e in
    rw stays (noticed connected)
  where
    noticed :
        (c : Bool)
        → ((pause_notice env end_time id c s).transfer_mgr ≡ s.transfer_mgr)
          × ((pause_notice env end_time id c s).history ≡ s.history)
          × ((pause_notice env end_time id c s).log ≡ s.log ++ notice id c)
    noticed true = (refl, refl, refl)
    noticed false = (refl, refl, sym (append-nil s.log))
run_send_end_cases env end_time id connected result s t false h e =
    let goes : was_paused env end_time id (find_task id s.transfer_mgr) ≡ false =
      ap (was_paused env end_time id) h ∙ e in
    rw goes (finish_send_ends env end_time id result s t h)

-- The end of a sending task, whose task is still listed: a task that was paused meanwhile keeps its
-- place in the queue and is not in the history, and a receiver on QUIC is told of the pause; any
-- other task gets the status of the result, and the history one more record, with that status and
-- the task's id.
run_send_end_is_recorded :
    (env : Env) (end_time id : ℕ) (connected : Bool) (result : Result String SendResult)
    (s : FileTransferState) (t : TransferTask)
    → find_task id s.transfer_mgr ≡ some t
    → Ended id connected result t s
        (run_send_end env end_time id connected result s)
        (is_paused env end_time id t.status)
run_send_end_is_recorded env end_time id connected result s t h =
    run_send_end_cases env end_time id connected result s t (is_paused env end_time id t.status) h
      refl
