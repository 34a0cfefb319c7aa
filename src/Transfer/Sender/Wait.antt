-- ===== src/Transfer/Sender/Wait.antt =====
-- Waiting for the other side's Accept and Verify (`wait_for_accept`, `wait_for_verify` of
-- sender.rs). An event is what the `select!` yields; the whole wait is cut by a timeout.
use vnt_gui_dev.Prelude.{
  ℕ, Bool, Option, none, some, List, [], ◌∷◌, if◌then◌else◌, ◌==◌, Result, ok, err,
}
use vnt_gui_dev.Transfer.Protocol.{FileMsg, FileAccept, FileVerify, accept, reject, cancel, verify}
use vnt_gui_dev.Transfer.Receiver.{
  TransferError, cancelled_here, cancelled_by_peer, rejected_by_peer, connection_lost, timed_out,
}

pub data Event : Type 0 where
  message : FileMsg → Event
  lost : Event
  -- the poll interval has passed, and the cancel flag is read
  tick : Bool → Event
  timeout : Event

-- `none`: still waiting after these events.
abbrev Waiting : Type 0 → Type 0
Waiting A = Option (Result TransferError A)

abbrev on_control : {A : Type 0} → Event → Waiting A → Waiting A
on_control (message m) rest = rest
on_control lost rest = some (err connection_lost)
on_control (tick stop) rest = if stop then some (err cancelled_here) else rest
on_control timeout rest = some (err timed_out)

unfoldable pub wait_for_accept : ℕ → List Event → Waiting FileAccept
wait_for_accept task_id [] = none
wait_for_accept task_id (message (accept a) ∷ es) =
    let rest = wait_for_accept task_id es in if a.transfer_id == task_id then some (ok a) else rest
wait_for_accept task_id (message (reject r) ∷ es) = some (err (rejected_by_peer r.reason))
wait_for_accept task_id (message (cancel c) ∷ es) = some (err (cancelled_by_peer c.reason))
wait_for_accept task_id (e ∷ es) = on_control e (wait_for_accept task_id es)

unfoldable pub wait_for_verify : ℕ → List Event → Waiting FileVerify
wait_for_verify task_id [] = none
wait_for_verify task_id (message (verify v) ∷ es) =
    let rest = wait_for_verify task_id es in if v.transfer_id == task_id then some (ok v) else rest
wait_for_verify task_id (message (cancel c) ∷ es) = some (err (cancelled_by_peer c.reason))
wait_for_verify task_id (e ∷ es) = on_control e (wait_for_verify task_id es)
