-- ===== src/Transfer/State/Progress.antt =====
-- Progress reports that arrive late. They run as tasks of their own, so that they may come after the
-- transfer has ended or has been paused.
use vnt_gui_dev.Prelude.{
  ℕ, ◌≡◌, ◌∙◌, ap, true, some, List, [], ◌∷◌, arith, ◌==◌, Bool-cases, inl, inr, ◌⊎◌,
}
use vnt_gui_dev.Transfer.Protocol.{TransferStatus, completed, failed, cancelled, rejected, paused}
use vnt_gui_dev.Transfer.Manager.{TransferTask, find_task, update_speed}
use vnt_gui_dev.Transfer.Manager.Laws.{find_task-update}
use vnt_gui_dev.Transfer.State.{FileTransferState, is_settled, unless_settled, progress_update}
use vnt_gui_dev.Transfer.Listener.Frames.{update_task_mgr}

-- A report: when it runs, for which task, and the bytes done.
pub record Report : Type 0 where
  pub now : ℕ
  pub id : ℕ
  pub bytes : ℕ

-- The statuses in which nothing of a transfer runs any more.
abbrev pub HasEnded : TransferStatus → Type 0
HasEnded status =
    (status ≡ completed)
    ⊎ (status ≡ failed)
    ⊎ (status ≡ cancelled)
    ⊎ (status ≡ rejected)
    ⊎ (status ≡ paused)

module _ (rate eta : ℕ → ℕ → ℕ) where
  pub after_reports : List Report → FileTransferState → FileTransferState
  after_reports [] s = s
  after_reports (r ∷ rs) s = after_reports rs (progress_update rate eta r.now r.id r.bytes s)

  update_speed_id :
      (now done : ℕ) (t : TransferTask)
      → (update_speed rate eta now done t).transfer_id ≡ t.transfer_id
  unfolding update_speed
  update_speed_id now done t = ground arith

  unless_settled_id :
      (now done : ℕ) (t : TransferTask)
      → (unless_settled rate eta now done t).transfer_id ≡ t.transfer_id
  unless_settled_id now done t = elim (Bool-cases (is_settled t.status)) [
    | inl settled ↦ rw settled
    | inr running ↦ rw running (update_speed_id now done t)
  ]

  report_keeps :
      (now id done key : ℕ) (t : TransferTask) (s : FileTransferState)
      → is_settled t.status ≡ true
      → find_task key s.transfer_mgr ≡ some t
      → find_task key (progress_update rate eta now id done s).transfer_mgr ≡ some t
  unfolding progress_update
  report_keeps now id done key t s settled found =
      let f = unless_settled rate eta now done in
      ap (find_task key) (update_task_mgr id f s)
      ∙ find_task-update id key f s.transfer_mgr (unless_settled_id now done)
      ∙ elim (Bool-cases (id == key)) [
        | inl same ↦ rw (same, found, settled)
        | inr other ↦ rw (other, found)
      ]

  ended-is_settled : (t : TransferTask) → HasEnded t.status → is_settled t.status ≡ true
  ended-is_settled t h = ground arith

  -- A task that is completed, failed, cancelled, rejected or paused stays exactly as it is, whatever
  -- progress reports arrive afterwards, for it and for other tasks, and in which order.
  pub settled_task_is_kept :
      (reports : List Report) (key : ℕ) (t : TransferTask) (s : FileTransferState)
      → HasEnded t.status
      → find_task key s.transfer_mgr ≡ some t
      → find_task key (after_reports reports s).transfer_mgr ≡ some t
  unfolding after_reports
  settled_task_is_kept [] key t s ended found = found
  settled_task_is_kept (r ∷ rs) key t s ended found =
      settled_task_is_kept rs key t (progress_update rate eta r.now r.id r.bytes s) ended
        (report_keeps r.now r.id r.bytes key t s (ended-is_settled t ended) found)
