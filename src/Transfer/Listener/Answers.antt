-- ===== src/Transfer/Listener/Answers.antt =====
-- Every offer is answered exactly once: with an Accept or a Reject.
use vnt_gui_dev.Prelude.{
  ℕ, ◌+◌, ◌^◌, ◌≤◌, ◌≡◌, refl, ◌∙◌, String, Option, none, some, List, [], ◌∷◌, ◌++◌, arith, Result,
  ok, err, Bool-cases, inl, inr, length,
}
use vnt_gui_dev.Transfer.Protocol.{FileOffer, FileMsg, accept, reject, TransferRecord}
use vnt_gui_dev.Transfer.Disk.{Disk, IoError}
use vnt_gui_dev.Transfer.Filter.{is_allowed}
use vnt_gui_dev.Transfer.Manager.{TransferTask}
use vnt_gui_dev.Transfer.Receiver.{ReceivePlan, plan_receive}
use vnt_gui_dev.Transfer.Receiver.Placement.{find_duplicate, resolve_save_path}
use vnt_gui_dev.Transfer.Receiver.Placement.Fresh.{PrintsApart, Lists, resolve_save_path_is_fresh}
use vnt_gui_dev.Transfer.Receiver.Placement.Conflict.{find_duplicate_files}
use vnt_gui_dev.Transfer.State.{
  Output, to_peer, to_tcp_peer, task_event, FileTransferState, Env, hash_hex, on_found, update_task,
}
use vnt_gui_dev.Transfer.Listener.{
  Reply, quic_reply, tcp_reply, Phase, closed, waiting, receiving, quick_receive, planned, placed,
  searched, answer_offer, ext, recorded,
}

-- An Accept or a Reject on either channel.
abbrev answer_of : FileMsg → ℕ
answer_of (accept a) = 1
answer_of (reject r) = 1
answer_of _ = 0

abbrev weight : Output → ℕ
weight (to_peer m) = answer_of m
weight (to_tcp_peer r) = 1
weight _ = 0

abbrev pub answers : List Output → ℕ
answers [] = 0
answers (o ∷ os) = weight o + answers os

pub answers-append : (a b : List Output) → answers (a ++ b) ≡ answers a + answers b
answers-append [] b = omega arith
answers-append (o ∷ a) b = omega (arith, answers-append a b)

-- A way to answer that says one thing at a time.
pub record AnswersOnce (reply : Reply) : Type 0 where
  pub accepts_once : (r : ℕ) → answers (reply.accepts r) ≡ 1
  pub rejects_once : (reason : String) → answers (reply.rejects reason) ≡ 1
  pub verifies_only : answers reply.verifies ≡ 0

pub quic_reply-AnswersOnce : (offer : FileOffer) → AnswersOnce (quic_reply offer)
quic_reply-AnswersOnce offer = record {
  accepts_once = λ r. refl;
  rejects_once = λ reason. refl;
  verifies_only = refl;
}

tcp_reply-AnswersOnce : AnswersOnce tcp_reply
tcp_reply-AnswersOnce = record {
  accepts_once = λ r. refl;
  rejects_once = λ reason. refl;
  verifies_only = refl;
}

answers-on_found :
    (found : Option TransferTask) (s : FileTransferState)
    → answers (on_found found s).log ≡ answers s.log
answers-on_found none s = refl
answers-on_found (some t) s = answers-append s.log (task_event t ∷ []) ∙ omega arith

pub answers-update_task :
    (id : ℕ) (f : TransferTask → TransferTask) (s : FileTransferState)
    → answers (update_task id f s).log ≡ answers s.log
unfolding update_task
answers-update_task id f s = answers-on_found _ _

answers-recorded :
    (env : Env) (rec : TransferTask → TransferRecord) (found : Option TransferTask)
    (s : FileTransferState)
    → answers (recorded env rec found s).log ≡ answers s.log
answers-recorded env rec none s = refl
answers-recorded env rec (some t) s = answers-append s.log (task_event t ∷ []) ∙ omega arith

-- What a handler has answered so far: nothing while it waits for the user, otherwise one thing.
abbrev pub Answered : List Output → Phase × FileTransferState → Type 0
Answered before (closed, s) = answers s.log ≡ answers before + 1
Answered before (waiting id, s) = answers s.log ≡ answers before
Answered before (receiving id plan save_path, s) = answers s.log ≡ answers before + 1

module _ (env : Env) (now end_time : ℕ) (reply : Reply) (once : AnswersOnce reply)
    (remote_ip : String) (offer : FileOffer) where
  answers-quick_receive :
      (existing : String) (s : FileTransferState)
      → answers (quick_receive env now end_time reply remote_ip offer existing s).log
        ≡ answers s.log + 1
  unfolding quick_receive
  answers-quick_receive existing s =
      answers-recorded env _ _ _
      ∙ answers-update_task _ _ _
      ∙ omega (
        arith,
        answers-append s.log (reply.accepts offer.file_size ++ reply.verifies),
        answers-append (reply.accepts offer.file_size) reply.verifies,
        once.accepts_once offer.file_size,
        once.verifies_only,
      )

  planned_answers :
      (save_path : String) (s : FileTransferState) (r : Result IoError ReceivePlan) (d : Disk)
      → Answered s.log (planned env now end_time reply remote_ip offer save_path s (r, d))
  planned_answers save_path s (err e) d =
      let reason = reply.plan_failure (env.io_text e) in
      omega (arith, answers-append s.log (reply.rejects reason), once.rejects_once reason)
  planned_answers save_path s (ok plan) d = elim (Bool-cases s.auto_accept) [
    | inl takes ↦ rw takes (
        omega (
          arith,
          answers-append s.log (reply.accepts plan.resume_offset),
          once.accepts_once plan.resume_offset,
        ))
    | inr asks ↦ rw asks (answers-append s.log _ ∙ omega arith)
  ]

  -- The search for a save path has ended.
  placed_answers :
      (found : Option String) (save_path : String) (s : FileTransferState)
      → found ≡ some save_path
      → Answered s.log (placed env now end_time reply remote_ip offer found s)
  placed_answers none save_path s h = cc
  placed_answers (some p) save_path s h =
      planned_answers p s (plan_receive offer p s.disk).0 (plan_receive offer p s.disk).1

  searched_answers :
      (found : Option String) (d : Disk) (s : FileTransferState)
      → ((q : String) × (resolve_save_path env.print env.fuel s.save_dir offer.filename d ≡ some q))
      → Answered s.log (searched env now end_time reply remote_ip offer s (found, d))
  searched_answers (some existing) d s ends = answers-quick_receive existing (record s { disk = d })
  searched_answers none d s ends =
      placed_answers (resolve_save_path env.print env.fuel s.save_dir offer.filename d) ends.0
        (record s { disk = d }) ends.1

-- An offer on a channel that answers one thing at a time is accepted or rejected at once, or nothing
-- is said and the user is asked. The fuel of the search for a save path is one more than the paths
-- in use, fewer than 2^31 - 1 are in use, and the prints of the numbers below 2^31 are distinct.
pub offer_gets_one_answer :
    (env : Env) (now end_time : ℕ) (reply : Reply) (remote_ip : String) (offer : FileOffer)
    (occupied : List String) (s : FileTransferState)
    → AnswersOnce reply
    → PrintsApart env.print
    → Lists occupied s.disk
    → length occupied + 2 ≤ 2 ^ 31
    → env.fuel ≡ length occupied + 1
    → Answered s.log (answer_offer env now end_time reply remote_ip offer s)
unfolding answer_offer
offer_gets_one_answer env now end_time reply remote_ip offer occupied s once apart lists few fuel =
    elim (Bool-cases (is_allowed env.to_lowercase s.filter (ext env offer.filename))) [
      | inr filtered ↦
          rw filtered (omega (arith, answers-append s.log (reply.rejects _), once.rejects_once _))
      | inl allowed ↦
          let d = (find_duplicate (hash_hex env) s.save_dir offer s.disk).1 in
          let fresh =
            resolve_save_path_is_fresh env.print s.save_dir offer.filename occupied d apart
              (λ p h.
                lists p (rw (find_duplicate_files (hash_hex env) s.save_dir offer p s.disk) at h))
              few in
          rw allowed (
            searched_answers env now end_time reply once remote_ip offer
              (find_duplicate (hash_hex env) s.save_dir offer s.disk).0 d s
              (fresh.path, rw fuel fresh.returned))
    ]
