-- ===== src/Transfer/ListenerTests.antt =====
-- The receiving and sending of files at concrete inputs.
use vnt_gui_dev.Prelude.{
  ◌≡◌, ◌≢◌, inr, refl, subst, sym, true, false, Option, none, some, List, [], ◌∷◌, arith, err,
}
use vnt_gui_dev.Transfer.Protocol.{Bytes, FileOffer, cancel, paused, cancelled}
use vnt_gui_dev.Transfer.Filter.{allow_all, is_allowed, normal, trim_dots}
use vnt_gui_dev.Transfer.Manager.{find_task, update, enqueue}
use vnt_gui_dev.Transfer.History.{HistoryStore, tmp_path}
use vnt_gui_dev.Transfer.Receiver.Placement.{stem_and_ext, find_duplicate, resolve_save_path}
use vnt_gui_dev.Transfer.Receiver.Placement.Fresh.{FreshPath, resolve_save_path_is_fresh}
use vnt_gui_dev.Transfer.Resumable.{ends_with, open_partial}
use vnt_gui_dev.Transfer.Receiver.{partial_for, ReceivePlan, plan_receive, cancelled_by_peer}
use vnt_gui_dev.Transfer.State.{FileTransferState, entry, new_receive_task, accept_at}
use vnt_gui_dev.Transfer.State.Commands.{file_pause}
use vnt_gui_dev.Transfer.State.Settings.{FileTransferSettings}
use vnt_gui_dev.Transfer.State.Settings.Restart.{threshold_to, command}
use vnt_gui_dev.Transfer.State.Progress.{after_reports, settled_task_is_kept}
use vnt_gui_dev.Transfer.Listener.{Phase, receiving, quic_reply, answer_offer}
use vnt_gui_dev.Transfer.Listener.Decide.{on_decision}
use vnt_gui_dev.Transfer.Listener.Frames.{HasStatus, NotHistory}
use vnt_gui_dev.Transfer.Listener.Answers.{Answered, quic_reply-AnswersOnce, offer_gets_one_answer}
use vnt_gui_dev.Transfer.Listener.Decisions.{Decided, decision_is_answered_once}
use vnt_gui_dev.Transfer.Listener.Pause.{sender_pause_keeps_partial}
use vnt_gui_dev.Transfer.Listener.Stopped.{receiver_pause_loses_partial}
use vnt_gui_dev.Transfer.Listener.Keeps.{automatic_receive_overwrites_nothing}
use vnt_gui_dev.Transfer.Listener.Receive.{begin_receive, end_receive}
use vnt_gui_dev.Transfer.Receiver.Quic.{Turn, message, tick, receive_loop, receive_quic}
use vnt_gui_dev.Transfer.Samples.{
  print, print-PrintsApart, disk, disk-Lists, offer, hash_of, task, env, state, task_listed,
}

resolve_save_path_is_fresh_example : FreshPath print 2 "d" "x" disk
resolve_save_path_is_fresh_example =
    resolve_save_path_is_fresh print "d" "x" ("d\\x" ∷ []) disk print-PrintsApart disk-Lists
      (omega arith)

found : (find_duplicate hash_of "d" offer disk).0 ≡ some "d\\x"
unfolding find_duplicate ends_with partial_for
found = refl

offer_gets_one_answer_example :
    Answered [] (answer_offer env 6 7 (quic_reply offer) "10.26.0.2" offer state)
offer_gets_one_answer_example =
    offer_gets_one_answer env 6 7 (quic_reply offer) "10.26.0.2" offer ("d\\x" ∷ []) state
      (quic_reply-AnswersOnce offer) print-PrintsApart disk-Lists (omega arith) refl

decision_is_answered_once_example :
    Decided 1 [] (on_decision env (quic_reply offer) 1 offer (some (accept_at "d\\x")) state)
decision_is_answered_once_example =
    decision_is_answered_once env (quic_reply offer) 1 offer (some (accept_at "d\\x")) ("d\\x" ∷ [])
      state (quic_reply-AnswersOnce offer) print-PrintsApart disk-Lists (omega arith) refl

abbrev codec_of : FileTransferSettings → Bytes
codec_of s = s.threshold ∷ []

abbrev settings_from : Bytes → Option FileTransferSettings
settings_from [] = none
settings_from (n ∷ ns) = some (record {
  mode = allow_all;
  extensions = [];
  auto_accept = true;
  threshold = n;
  save_dir = "d";
})

abbrev with_threshold : FileTransferState
with_threshold = (command codec_of (threshold_to 50) state).1

abbrev stopped : FileTransferState
stopped = record state {
  transfer_mgr = record state.transfer_mgr { tasks = record task { status = paused } ∷ [] };
}

stopped_listed : find_task 1 stopped.transfer_mgr ≡ some (record task { status = paused })
unfolding find_task
stopped_listed = refl

settled_task_is_kept_example :
    find_task 1
      (after_reports
        (λ a b. 0)
        (λ a b. 0)
        (record { now = 8; id = 1; bytes = 1 } ∷ [])
        stopped).transfer_mgr
    ≡ some (record task { status = paused })
settled_task_is_kept_example =
    settled_task_is_kept (λ a b. 0) (λ a b. 0) (record { now = 8; id = 1; bytes = 1 } ∷ []) 1
      (record task { status = paused }) stopped (inr (inr (inr (inr refl)))) stopped_listed

abbrev plan : ReceivePlan
plan = record { offer = offer; resume_offset = 0; partial_path = "d\\y.partial" }

abbrev pausing_turns : List Turn
pausing_turns =
    record {
      cancelled = false;
      arrival = message (cancel (record { transfer_id = 7; reason = "已暂停" }));
    }
    ∷ []

paused_by_sender :
    (receive_quic hash_of plan "d\\y" pausing_turns state.disk).result
    ≡ some (err (cancelled_by_peer "已暂停"))
unfolding receive_quic partial_for open_partial receive_loop
paused_by_sender = refl

sender_pause_keeps_partial_example :
    (s' : FileTransferState) × (end_receive env 9 1 true "d\\y" plan pausing_turns state ≡ some s')
    × HasStatus 1 (λ u. u.status ≡ paused) s'
    × (s'.disk ≡ (receive_quic hash_of plan "d\\y" pausing_turns state.disk).rx.disk)
    × (s'.history ≡ state.history)
sender_pause_keeps_partial_example =
    sender_pause_keeps_partial env 9 1 true "d\\y" plan pausing_turns state task task_listed
      paused_by_sender

abbrev seen : Turn
seen = record { cancelled = true; arrival = tick false }

abbrev stopping_turns : List Turn
stopping_turns = seen ∷ []

abbrev running : FileTransferState
running = record state { cancel_flags = (1, false) ∷ [] }

abbrev paused_here : FileTransferState
paused_here = (file_pause 1 running).1

still_running : (receive_quic hash_of plan "d\\y" [] paused_here.disk).result ≡ none
unfolding receive_quic partial_for open_partial file_pause receive_loop find_task update
still_running = refl

reads_flag : entry 1 paused_here.cancel_flags ≡ some seen.cancelled
unfolding file_pause find_task update
reads_flag = refl

calm_here : (receive_quic hash_of plan "d\\y" stopping_turns paused_here.disk).rx.disk.faults ≡ []
unfolding receive_quic partial_for open_partial file_pause receive_loop find_task update
calm_here = refl

not_saved : "d\\y.partial" ≢ tmp_path "h.json"
unfolding tmp_path
not_saved e = cc

same_history : paused_here.history ≡ state.history
unfolding file_pause find_task update
same_history = refl

not_history : NotHistory (partial_for "d\\y") paused_here
unfolding partial_for
not_history =
    subst (λ (h : HistoryStore). ("d\\y.partial" ≢ h.path) × ("d\\y.partial" ≢ tmp_path h.path))
      (sym same_history) ((λ e. cc), not_saved)

receiver_pause_loses_partial_example :
    (s' : FileTransferState) × (end_receive env 9 1 true "d\\y" plan stopping_turns paused_here
      ≡ some s')
    × HasStatus 1 (λ u. u.status ≡ cancelled) s'
    × (s'.disk.files (partial_for "d\\y") ≡ none)
receiver_pause_loses_partial_example =
    receiver_pause_loses_partial env 9 1 true "d\\y" plan [] [] seen false running task task_listed
      refl still_running reads_flag calm_here not_history

abbrev new_offer : FileOffer
new_offer = record offer { filename = "y" }

abbrev answered : Phase × FileTransferState
answered = answer_offer env 6 7 (quic_reply new_offer) "10.26.0.2" new_offer state

abbrev new_plan : ReceivePlan
new_plan = record plan { offer = new_offer }

taken_up : answered ≡ (receiving 2 new_plan "d\\y", answered.1)
unfolding answer_offer is_allowed normal trim_dots stem_and_ext find_duplicate ends_with
    resolve_save_path partial_for plan_receive enqueue
taken_up = refl

abbrev ended_or : Option FileTransferState → FileTransferState
ended_or none = state
ended_or (some s) = s

abbrev finished : FileTransferState
finished =
    ended_or
      (end_receive env 9 2 false "d\\y" new_plan stopping_turns (begin_receive 2 "d\\y" answered.1))

has_ended :
    end_receive env 9 2 false "d\\y" new_plan stopping_turns (begin_receive 2 "d\\y" answered.1)
    ≡ some finished
unfolding end_receive receive_quic partial_for open_partial receive_loop begin_receive find_task
    update answer_offer is_allowed normal trim_dots stem_and_ext find_duplicate ends_with
    resolve_save_path plan_receive enqueue new_receive_task
has_ended = refl

listed_not_saved : "d\\x" ≢ tmp_path "h.json"
unfolding tmp_path
listed_not_saved e = cc

automatic_receive_overwrites_nothing_example : finished.disk.files "d\\x" ≡ state.disk.files "d\\x"
unfolding partial_for
automatic_receive_overwrites_nothing_example =
    automatic_receive_overwrites_nothing env 6 7 9 2 (quic_reply new_offer) "10.26.0.2" new_offer
      new_plan "d\\y" "d\\x" stopping_turns state answered.1 finished taken_up has_ended refl
      (λ e. cc) ((λ e. cc), listed_not_saved)
