-- ===== src/Transfer/Listener/Keeps.antt =====
-- What happens to the files that were there, when an offer is taken up without asking.
use Prim.Native.String.{◌++◌ as ◌<>◌}
use vnt_gui_dev.Prelude.{
  eq_iff, ℕ, ◌≡◌, ◌≢◌, refl, sym, subst, ◌∙◌, ap, String, Bool, true, false, Option, none, some,
  List, ◌++◌, arith, Result, ok, err, Bool-cases, inl, inr,
}
use vnt_gui_dev.Transfer.Protocol.{FileOffer}
use vnt_gui_dev.Transfer.Disk.{Disk, IoError, exists, read_all}
use vnt_gui_dev.Transfer.Filter.{is_allowed}
use vnt_gui_dev.Transfer.History.{tmp_path, HistoryStore}
use vnt_gui_dev.Transfer.Receiver.{ReceivePlan, TransferError, plan_receive, partial_for}
use vnt_gui_dev.Transfer.Receiver.Placement.{find_duplicate, resolve_save_path}
use vnt_gui_dev.Transfer.Receiver.Placement.Fresh.{resolve_save_path-free}
use vnt_gui_dev.Transfer.Receiver.Placement.Conflict.{find_duplicate_files, read_all_files}
use vnt_gui_dev.Transfer.Receiver.Touches.{receive_quic_touches}
use vnt_gui_dev.Transfer.Receiver.Quic.{Turn, receive_quic}
use vnt_gui_dev.Transfer.State.{FileTransferState, Env, hash_hex, update_task, error_text}
use vnt_gui_dev.Transfer.Listener.{
  Reply, Phase, closed, waiting, receiving, planned, placed, searched, answer_offer, ext,
}
use vnt_gui_dev.Transfer.Listener.Receive.{
  begin_receive, end_receive, ended, finish_receive, finish_stopped, stopped_with, stopped_status,
  stopped_record, done_with, gives_up, is_pause, drop_partial, cleared, sent_out,
}
use vnt_gui_dev.Transfer.Listener.Frames.{
  NotHistory, update_task-NotHistory, update_task_disk, update_task_history, record_task_keeps,
  drop_partial_keeps, cleared_same,
}

-- A request that is taken up: its save path is free, and the files but the partial one and the
-- history are as they were.
pub record Taken (save_path : String) (s s1 : FileTransferState) : Type 0 where
  pub free : exists save_path s.disk ≡ false
  pub untouched : (p : String) → p ≢ partial_for save_path → s1.disk.files p ≡ s.disk.files p
  pub history : s1.history ≡ s.history

abbrev pub Careful : FileTransferState → Phase × FileTransferState → Type 0
Careful s (closed, s1) = Unit
Careful s (waiting id, s1) = Unit
Careful s (receiving id plan save_path, s1) = Taken save_path s s1

plan_receive_files :
    (offer : FileOffer) (save_path p : String) (d : Disk)
    → p ≢ partial_for save_path
    → (plan_receive offer save_path d).1.files p ≡ d.files p
unfolding plan_receive partial_for
plan_receive_files offer save_path p d n = ground (arith, eq_iff p (save_path <> ".partial"))

module _ (env : Env) (now end_time : ℕ) (reply : Reply) (remote_ip : String) (offer : FileOffer)
    (s : FileTransferState) where
  planned-Careful :
      (save_path : String) (s0 : FileTransferState) (r : Result IoError ReceivePlan) (d : Disk)
      → exists save_path s.disk ≡ false
      → ((p : String) → p ≢ partial_for save_path → d.files p ≡ s.disk.files p)
      → s0.history ≡ s.history
      → Careful s (planned env now end_time reply remote_ip offer save_path s0 (r, d))
  planned-Careful save_path s0 (err e) d free same h = tt
  planned-Careful save_path s0 (ok plan) d free same h = elim (Bool-cases s0.auto_accept) [
    | inr asks ↦ rw asks tt
    | inl takes ↦ rw takes (record { free = free; untouched = same; history = h })
  ]

  placed-Careful :
      (found : Option String) (s0 : FileTransferState)
      → ((save_path : String) → found ≡ some save_path → exists save_path s.disk ≡ false)
      → ((p : String) → s0.disk.files p ≡ s.disk.files p)
      → s0.history ≡ s.history
      → Careful s (placed env now end_time reply remote_ip offer found s0)
  placed-Careful none s0 free same h = tt
  placed-Careful (some save_path) s0 free same h =
      planned-Careful save_path s0 (plan_receive offer save_path s0.disk).0
        (plan_receive offer save_path s0.disk).1 (free save_path refl)
        (λ p n. plan_receive_files offer save_path p s0.disk n ∙ same p) h

  searched-Careful :
      (found : Option String) (d : Disk)
      → ((p : String) → d.files p ≡ s.disk.files p)
      → Careful s (searched env now end_time reply remote_ip offer s (found, d))
  searched-Careful (some existing) d same = tt
  searched-Careful none d same =
      placed-Careful (resolve_save_path env.print env.fuel s.save_dir offer.filename d)
        (record s { disk = d })
        (λ save_path e.
          rw (same save_path) at
            (resolve_save_path-free env.print env.fuel s.save_dir offer.filename d save_path e))
        same refl

  answer_offer-Careful : Careful s (answer_offer env now end_time reply remote_ip offer s)
  unfolding answer_offer
  answer_offer-Careful =
      elim (Bool-cases (is_allowed env.to_lowercase s.filter (ext env offer.filename))) [
        | inr refused ↦ rw refused tt
        | inl allowed ↦ rw allowed (
            searched-Careful (find_duplicate (hash_hex env) s.save_dir offer s.disk).0
              (find_duplicate (hash_hex env) s.save_dir offer s.disk).1
              (λ p. find_duplicate_files (hash_hex env) s.save_dir offer p s.disk))
      ]

module _ (env : Env) (end_time id : ℕ) (save_path p : String) (file_size : ℕ) where
  finish_stopped_files :
      (text : String) (s : FileTransferState)
      → p ≢ partial_for save_path
      → NotHistory p s
      → (finish_stopped env end_time id save_path file_size text s).disk.files p ≡ s.disk.files p
  finish_stopped_files text s n h =
      let f = stopped_with (stopped_status env end_time id save_path file_size text) text in
      let s1 = update_task id f s in
      let rec = stopped_record env end_time id save_path file_size text in
      let h1 = update_task-NotHistory id f p s h in
      let same = ap (λ (d : Disk). d.files p) (update_task_disk id f s) in
      elim (Bool-cases (gives_up env end_time id save_path file_size text)) [
        | inl drops ↦ rw drops (
            record_task_keeps env p id rec (record s1 { disk = drop_partial save_path s1.disk }) h1
            ∙ drop_partial_keeps save_path p s1.disk n
            ∙ same)
        | inr keeps ↦ rw keeps (record_task_keeps env p id rec s1 h1 ∙ same)
      ]

  finish_receive_files :
      (r : Result TransferError ℕ) (s : FileTransferState)
      → p ≢ partial_for save_path
      → NotHistory p s
      → (finish_receive env end_time id save_path file_size r s).disk.files p ≡ s.disk.files p
  unfolding finish_receive
  finish_receive_files (ok bytes) s n h =
      let f = done_with bytes in
      let s1 = update_task id f s in
      record_task_keeps env p id _ (record s1 { disk = (read_all save_path s1.disk).1 })
        (update_task-NotHistory id f p s h)
      ∙ read_all_files save_path p s1.disk
      ∙ ap (λ (d : Disk). d.files p) (update_task_disk id f s)
  finish_receive_files (err e) s n h =
      let text = error_text env e in
      elim (Bool-cases (is_pause env end_time id save_path file_size text)) [
        | inl pause ↦ rw pause (ap (λ (d : Disk). d.files p) (update_task_disk id _ s))
        | inr other ↦ rw other (finish_stopped_files text s n h)
      ]

module _ (env : Env) (end_time id : ℕ) (confirmed : Bool) (save_path p : String) where
  ended_files :
      (file_size : ℕ) (result : Option (Result TransferError ℕ)) (s s' : FileTransferState)
      → ended env end_time id confirmed save_path file_size result s ≡ some s'
      → p ≢ partial_for save_path
      → NotHistory p s
      → s'.disk.files p ≡ s.disk.files p
  ended_files file_size none s s' h n k = cc
  ended_files file_size (some r) s s' h n k =
      let done = finish_receive env end_time id save_path file_size r s in
      let e : cleared confirmed id done ≡ s' = cc in
      ap (λ (u : FileTransferState). u.disk.files p) (sym e)
      ∙ ap (λ (d : Disk). d.files p) (cleared_same confirmed id done).1
      ∙ finish_receive_files env end_time id save_path p file_size r s n k

  -- A receive that has ended has changed no file but the partial one, the saved one and the
  -- history.
  end_receive_files :
      (plan : ReceivePlan) (turns : List Turn) (s s' : FileTransferState)
      → end_receive env end_time id confirmed save_path plan turns s ≡ some s'
      → p ≢ partial_for save_path
      → p ≢ save_path
      → NotHistory p s
      → s'.disk.files p ≡ s.disk.files p
  unfolding end_receive
  end_receive_files plan turns s s' h n m k =
      let received = receive_quic (hash_hex env) plan save_path turns s.disk in
      ended_files plan.offer.file_size received.result
        (record s { disk = received.rx.disk; log = s.log ++ sent_out received.rx.sent }) s' h n k
      ∙ receive_quic_touches (hash_hex env) plan save_path p turns s.disk n m

begin_receive_disk :
    (id : ℕ) (save_path : String) (s : FileTransferState)
    → ((begin_receive id save_path s).disk ≡ s.disk)
      × ((begin_receive id save_path s).history ≡ s.history)
unfolding begin_receive
begin_receive_disk id save_path s = (update_task_disk id _ _, update_task_history id _ _)

-- An offer that is taken up without asking, and received over QUIC: whatever the sender then does,
-- and whichever calls the system refuses, when the receive has ended every file that was there when
-- the offer came has its content still, but for the partial file of the save path and the files of
-- the history.
pub automatic_receive_overwrites_nothing :
    (env : Env) (now quick_end end_time id : ℕ) (reply : Reply) (remote_ip : String)
    (offer : FileOffer) (plan : ReceivePlan) (save_path p : String) (turns : List Turn)
    (s s1 s' : FileTransferState)
    → answer_offer env now quick_end reply remote_ip offer s ≡ (receiving id plan save_path, s1)
    → end_receive env end_time id false save_path plan turns (begin_receive id save_path s1)
      ≡ some s'
    → exists p s.disk ≡ true
    → p ≢ partial_for save_path
    → NotHistory p s
    → s'.disk.files p ≡ s.disk.files p
automatic_receive_overwrites_nothing env now quick_end end_time id reply remote_ip offer plan
      save_path p turns s s1 s' taken done there n k =
    let careful : Taken save_path s s1 =
      subst (Careful s) taken (answer_offer-Careful env now quick_end reply remote_ip offer s) in
    let begun = begin_receive_disk id save_path s1 in
    let apart : p ≢ save_path = λ e.
      (let there' : exists save_path s.disk ≡ true = subst (λ q. exists q s.disk ≡ true) e there in
        cc (careful.free)) in
    end_receive_files env end_time id false save_path p plan turns (begin_receive id save_path s1)
      s' done n apart
      (subst (λ (h : HistoryStore). (p ≢ h.path) × (p ≢ tmp_path h.path))
        (sym (begun.1 ∙ careful.history)) k)
    ∙ ap (λ (d : Disk). d.files p) begun.0
    ∙ careful.untouched p n
