-- ===== src/Transfer/Listener/Decisions.antt =====
-- Every decision on an offer is answered exactly once, and a closed request leaves nothing behind.
use Prim.Native.String.{◌++◌ as ◌<>◌}
use vnt_gui_dev.Prelude.{
  ℕ, ◌+◌, ◌^◌, ◌≤◌, ◌≡◌, refl, ◌∙◌, String, Option, none, some, List, [], ◌∷◌, arith, Result, ok,
  err, Bool-cases, inl, inr, length, ◌==◌,
}
use vnt_gui_dev.Transfer.Protocol.{FileOffer}
use vnt_gui_dev.Transfer.Disk.{Disk, IoError}
use vnt_gui_dev.Transfer.Manager.{TransferTask}
use vnt_gui_dev.Transfer.Receiver.{ReceivePlan, plan_receive}
use vnt_gui_dev.Transfer.Receiver.Placement.{resolve_conflict}
use vnt_gui_dev.Transfer.Receiver.Placement.Fresh.{PrintsApart, Lists}
use vnt_gui_dev.Transfer.Receiver.Placement.Conflict.{resolve_conflict_settles}
use vnt_gui_dev.Transfer.State.{
  ReceiveDecision, accept_at, reject_for, Output, FileTransferState, Env, hash_hex, update_task,
  entry, without, forget,
}
use vnt_gui_dev.Transfer.Listener.{Reply, Phase, closed, waiting, receiving, say}
use vnt_gui_dev.Transfer.Listener.Decide.{
  rejected_with, failed_with, refused, replanned, settled_at, on_decision,
}
use vnt_gui_dev.Transfer.Listener.Answers.{
  answers, answers-append, AnswersOnce, answers-update_task,
}

entry-without {ℓ} : {V : Type ℓ} (id : ℕ) (m : List (ℕ × V)) → entry id (without id m) ≡ none
entry-without id [] = refl
entry-without id ((k, v) ∷ m) = elim (Bool-cases (k == id)) [
  | inl same ↦ rw same (entry-without id m)
  | inr other ↦ rw (other, other) (entry-without id m)
]

-- The answer has been given; and a request that is closed has left nothing behind.
abbrev pub Decided : ℕ → List Output → Phase × FileTransferState → Type 0
Decided id before (closed, s) =
    (answers s.log ≡ answers before + 1)
    × (entry id s.pending ≡ none)
    × (entry id s.cancel_flags ≡ none)
Decided id before (waiting k, s) = ⊥
Decided id before (receiving k plan save_path, s) = answers s.log ≡ answers before + 1

forgotten :
    (id : ℕ) (before : List Output) (s : FileTransferState)
    → answers s.log ≡ answers before + 1
    → Decided id before (closed, forget id s)
forgotten id before s h = (h, entry-without id s.pending, entry-without id s.cancel_flags)

module _ (env : Env) (reply : Reply) (once : AnswersOnce reply) (id : ℕ) (offer : FileOffer) where
  told_answers :
      (reason : String) (f : TransferTask → TransferTask) (s : FileTransferState)
      → answers (update_task id f (say (reply.rejects reason) s)).log ≡ answers s.log + 1
  told_answers reason f s =
      answers-update_task id f (say (reply.rejects reason) s)
      ∙ omega (arith, answers-append s.log (reply.rejects reason), once.rejects_once reason)

  refused_answers :
      (reason : String) (s : FileTransferState)
      → Decided id s.log (refused env reply id offer reason s)
  refused_answers reason s =
      let f = rejected_with env reply id offer reason in
      forgotten id s.log (update_task id f (say (reply.rejects reason) s)) (told_answers reason f s)

  replanned_answers :
      (save_path : String) (s : FileTransferState) (r : Result IoError ReceivePlan) (d : Disk)
      → Decided id s.log (replanned env reply id offer save_path s (r, d))
  replanned_answers save_path s (err e) d =
      let f = failed_with env reply id offer ("接收准备失败: " <> env.io_text e) in
      let reason = reply.plan_failure (env.io_text e) in
      let s' : FileTransferState = record s { disk = d } in
      forgotten id s.log (update_task id f (say (reply.rejects reason) s'))
        (told_answers reason f s')
  replanned_answers save_path s (ok plan) d = omega (
    arith,
    answers-append s.log (reply.accepts plan.resume_offset),
    once.accepts_once plan.resume_offset,
  )

  settled_answers :
      (found : Option String) (p : String) (d : Disk) (s : FileTransferState)
      → found ≡ some p
      → Decided id s.log (settled_at env reply id offer s (found, d))
  settled_answers none p d s h = cc
  settled_answers (some q) p d s h =
      replanned_answers q (record s { disk = d }) (plan_receive offer q d).0
        (plan_receive offer q d).1

-- Whatever the user decides, or without a decision in time: the handler accepts or rejects, once,
-- and does not go on waiting; when it rejects, neither the request nor the cancel flag of the task is
-- left. The conditions are those of the search for a save path.
pub decision_is_answered_once :
    (env : Env) (reply : Reply) (id : ℕ) (offer : FileOffer) (decision : Option ReceiveDecision)
    (occupied : List String) (s : FileTransferState)
    → AnswersOnce reply
    → PrintsApart env.print
    → Lists occupied s.disk
    → length occupied + 2 ≤ 2 ^ 31
    → env.fuel ≡ length occupied + 1
    → Decided id s.log (on_decision env reply id offer decision s)
unfolding on_decision
decision_is_answered_once env reply id offer none occupied s once apart lists few fuel =
    refused_answers env reply once id offer "等待确认超时" s
decision_is_answered_once env reply id offer (some (reject_for reason)) occupied s once apart lists
      few fuel =
    refused_answers env reply once id offer reason s
decision_is_answered_once env reply id offer (some (accept_at save_path)) occupied s once apart
      lists few fuel =
    let settled =
      resolve_conflict_settles env.print (hash_hex env) save_path offer occupied s.disk apart lists
        few in
    settled_answers env reply once id offer
      (resolve_conflict (hash_hex env) env.print env.fuel save_path offer s.disk).0 settled.0
      (resolve_conflict (hash_hex env) env.print env.fuel save_path offer s.disk).1 s
      (rw fuel settled.1)
