-- ===== src/Transfer/Listener/Stopped.antt =====
-- A transfer that is paused on the side that receives it.
use vnt_gui_dev.Prelude.{
  ℕ, ◌≡◌, ◌≢◌, refl, ◌∙◌, ap, ◌++◌, ◌∷◌, ◌⊎◌, inl, inr, String, Bool, true, none, some, List, [],
  arith, Result, ok, err,
}
use vnt_gui_dev.Transfer.Protocol.{Bytes, cancelled, FileOffer}
use vnt_gui_dev.Transfer.Disk.{Disk, IoError, Handle, read_all}
use vnt_gui_dev.Transfer.Manager.{TransferTask, find_task}
use vnt_gui_dev.Transfer.Receiver.{
  ReceivePlan, TransferError, cancelled_here, partial_for, Rx, Flow, more, done, failed,
}
use vnt_gui_dev.Transfer.Receiver.Quic.{
  Turn, receive_quic, receive_loop, turn, after_loop, checked, opened, resumed, start, stop_here,
}
use vnt_gui_dev.Transfer.State.{FileTransferState, Env, entry, hash_hex}
use vnt_gui_dev.Transfer.State.Commands.{file_pause, pausing, raise_flag}
use vnt_gui_dev.Transfer.Listener.Frames.{HasStatus, found_after, NotHistory, cleared_same}
use vnt_gui_dev.Transfer.Listener.Receive.{end_receive, finish_receive, cleared, sent_out}
use vnt_gui_dev.Transfer.Listener.Pause.{file_pause_mgr, stop_drops}

Flow-cases :
    (f : Flow)
    → ((rx : Rx) × (f ≡ more rx))
      ⊎ ((rx : Rx) × (f ≡ done rx))
      ⊎ ((e : TransferError) × (rx : Rx) × (f ≡ failed e rx))
Flow-cases (more rx) = inl (rx, refl)
Flow-cases (done rx) = inr (inl (rx, refl))
Flow-cases (failed e rx) = inr (inr (e, rx, refl))

-- The loop goes on where it stood after the rounds before.
receive_loop-append :
    (offer : FileOffer) (before after : List Turn) (rx rx' : Rx)
    → receive_loop offer before rx ≡ more rx'
    → receive_loop offer (before ++ after) rx ≡ receive_loop offer after rx'
unfolding receive_loop
receive_loop-append offer [] after rx rx' h =
    let same : rx ≡ rx' = cc h in ap (receive_loop offer after) same
receive_loop-append offer (t ∷ ts) after rx rx' h = elim (Flow-cases (turn offer t rx)) [
  | inl (rx₁, e) ↦
      rw (e, receive_loop) (receive_loop-append offer ts after rx₁ rx' (rw (e, receive_loop) at h))
  | inr (inl (rx₁, e)) ↦ cc (rw (e, receive_loop) at h)
  | inr (inr (x, rx₁, e)) ↦ cc (rw (e, receive_loop) at h)
]

module _ (hash_hex : Bytes → String) (offer : FileOffer) (save_path : String)
    (before rest : List Turn) (seen : Turn) (up : seen.cancelled ≡ true) where
  checked_ends :
      (rx : Rx) (r : Result IoError Bytes × Disk)
      → (checked hash_hex offer save_path rx r).result ≢ none
  checked_ends rx (err e, disk) h = cc h
  checked_ends rx (ok content, disk) h = ground (arith, h)

  after_loop_goes_on :
      (f : Flow) → (after_loop hash_hex offer save_path f).result ≡ none → (rx : Rx) × (f ≡ more rx)
  unfolding after_loop
  after_loop_goes_on (more rx) h = (rx, refl)
  after_loop_goes_on (failed e rx) h = absurd (cc h)
  after_loop_goes_on (done rx) h = absurd (
      checked_ends (record rx { reports = rx.reports ++ rx.received ∷ [] })
        (read_all (partial_for save_path) rx.disk) h)

  -- A round that sees the flag stops the loop.
  seen_stops : (rx : Rx) → receive_loop offer (seen ∷ rest) rx ≡ stop_here offer rx
  unfolding receive_loop turn
  seen_stops rx = rw up

  opened_stops :
      (offset : ℕ) (r : Result IoError Handle × Disk)
      → (opened hash_hex offer save_path before offset r).result ≡ none
      → (opened hash_hex offer save_path (before ++ seen ∷ rest) offset r).result
        ≡ some (err cancelled_here)
  unfolding after_loop
  opened_stops offset (err e, disk) h = absurd (cc h)
  opened_stops offset (ok file, disk) h =
      let (rx', e) = after_loop_goes_on (receive_loop offer before (start disk file offset)) h in
      rw (
        receive_loop-append offer before (seen ∷ rest) (start disk file offset) rx' e,
        seen_stops rx',
      )

  resumed_stops :
      (r : Result IoError ℕ × Disk)
      → (resumed hash_hex offer save_path before r).result ≡ none
      → (resumed hash_hex offer save_path (before ++ seen ∷ rest) r).result
        ≡ some (err cancelled_here)
  resumed_stops (err e, disk) h = absurd (cc h)
  resumed_stops (ok offset, disk) h = opened_stops offset _ h

receive_quic_stops :
    (hash_hex : Bytes → String) (plan : ReceivePlan) (save_path : String) (before rest : List Turn)
    (seen : Turn) (d : Disk)
    → seen.cancelled ≡ true
    → (receive_quic hash_hex plan save_path before d).result ≡ none
    → (receive_quic hash_hex plan save_path (before ++ seen ∷ rest) d).result
      ≡ some (err cancelled_here)
unfolding receive_quic
receive_quic_stops hash_hex plan save_path before rest seen d up h =
    resumed_stops hash_hex plan.offer save_path before rest seen up _ h

raised :
    (id : ℕ) (flag : Bool) (flags : List (ℕ × Bool))
    → entry id flags ≡ some flag
    → entry id (raise_flag id flags) ≡ some true
raised id flag [] h = absurd (cc h)
raised id flag (e ∷ es) h = ground (arith, raised id flag es)

file_pause_raises :
    (id : ℕ) (flag : Bool) (s : FileTransferState)
    → entry id s.cancel_flags ≡ some flag
    → entry id (file_pause id s).1.cancel_flags ≡ some true
unfolding file_pause
file_pause_raises id flag s h = ground (arith, raised id flag s.cancel_flags h)

module _ (env : Env) (end_time id : ℕ) (confirmed : Bool) (save_path : String) (plan : ReceivePlan)
    (before rest : List Turn) (seen : Turn) (flag : Bool) (s : FileTransferState)
    (t : TransferTask) where
  -- The user pauses a transfer that is received here and has its flag; the loop still runs after the
  -- rounds before, and the next round reads the flag as the pause has left it. Then, whatever arrives
  -- later, the task is not paused but cancelled and its partial file is removed, so that nothing is
  -- left to go on from. The partial file is not a file of the history, and the system refuses no call
  -- after the loop.
  pub receiver_pause_loses_partial :
      find_task id s.transfer_mgr ≡ some t
      → entry id s.cancel_flags ≡ some flag
      → (receive_quic (hash_hex env) plan save_path before (file_pause id s).1.disk).result ≡ none
      → entry id (file_pause id s).1.cancel_flags ≡ some seen.cancelled
      → (receive_quic
          (hash_hex env)
          plan
          save_path
          (before ++ seen ∷ rest)
          (file_pause id s).1.disk).rx.disk.faults
        ≡ []
      → NotHistory (partial_for save_path) (file_pause id s).1
      → (s' : FileTransferState) × (end_receive env end_time id confirmed save_path plan
            (before ++ seen ∷ rest)
            (file_pause id s).1
          ≡ some s')
        × HasStatus id (λ u. u.status ≡ cancelled) s'
        × (s'.disk.files (partial_for save_path) ≡ none)
  unfolding end_receive
  receiver_pause_loses_partial found flagged running reads calm n =
      let s0 = (file_pause id s).1 in
      let up : seen.cancelled ≡ true = ground (arith, reads, file_pause_raises id flag s flagged) in
      let h =
        receive_quic_stops (hash_hex env) plan save_path before rest seen s0.disk up running in
      let p = receive_quic (hash_hex env) plan save_path (before ++ seen ∷ rest) s0.disk in
      let s1 : FileTransferState = record s0 {
        disk = p.rx.disk;
        log = s0.log ++ sent_out p.rx.sent;
      } in
      let dropped =
        stop_drops env end_time id save_path plan.offer.file_size s1 (pausing t)
          (found_after id pausing t s.transfer_mgr s0 (file_pause_mgr id s) (λ u. refl) found) n
          calm in
      let ended =
        finish_receive env end_time id save_path plan.offer.file_size (err cancelled_here) s1 in
      let same = cleared_same confirmed id ended in
      (
        cleared confirmed id ended,
        rw h,
        (dropped.0.0, ap (find_task id) same.0 ∙ dropped.0.1, dropped.0.2),
        ap (λ d. d.files (partial_for save_path)) same.1 ∙ dropped.1,
      )
