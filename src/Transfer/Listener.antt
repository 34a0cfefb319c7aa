-- ===== src/Transfer/Listener.antt =====
-- The listener that answers offers (src-tauri/src/file_transfer/daemon_listener.rs). A connection is
-- handled in three parts, between which commands and progress reports may run: the offer, the
-- decision of the user, and the receiving. The two channels differ in how they answer, which is a
-- `Reply`. The clock is an argument.
pub mod Connections
pub mod Decide
pub mod Receive
pub mod Frames
pub mod Pause
pub mod Stopped
pub mod Keeps
pub mod Answers
pub mod Decisions
use Prim.Native.String.{◌++◌ as ◌<>◌}
use vnt_gui_dev.Prelude.{
  ℕ, String, Bool, true, false, Option, none, some, List, [], ◌∷◌, ◌++◌, str_eq, if◌then◌else◌,
  Result, ok, err,
}
use vnt_gui_dev.Transfer.Protocol.{
  FileOffer, FileMsg, TransferRecord, receive, completed, rejected, failed,
}
use vnt_gui_dev.Transfer.Protocol as Protocol
use vnt_gui_dev.Transfer.Disk.{Disk, IoError}
use vnt_gui_dev.Transfer.Filter.{is_allowed}
use vnt_gui_dev.Transfer.Manager.{TransferTask, enqueue, find_task, tcp_default_port}
use vnt_gui_dev.Transfer.Receiver.{ReceivePlan, plan_receive}
use vnt_gui_dev.Transfer.Receiver.Placement.{
  stem_and_ext, find_duplicate, resolve_conflict, resolve_save_path,
}
use vnt_gui_dev.Transfer.State.{
  ReceiveDecision, accept_at, reject_for, PendingReceive, FileOfferPayload, accept_from,
  reject_because, Output, to_peer, to_tcp_peer, task_event, offer_event, text_event,
  FileTransferState, Env, hash_hex, with_entry, output, update_task, forget, new_receive_task,
  push_history,
}

-- How a channel tells the sender its answer.
pub record Reply : Type 0 where
  pub accepts : ℕ → List Output
  pub rejects : String → List Output
  -- the reason when the plan fails, from the text of the error
  pub plan_failure : String → String
  pub verifies : List Output

abbrev pub quic_reply : FileOffer → Reply
quic_reply offer = record {
  accepts = λ r.
      to_peer (Protocol.accept (record { transfer_id = offer.transfer_id; resume_offset = r }))
      ∷ [];
  rejects = λ reason.
      to_peer (Protocol.reject (record { transfer_id = offer.transfer_id; reason = reason })) ∷ [];
  plan_failure = λ e. "接收准备失败: " <> e;
  verifies =
      to_peer (
        Protocol.verify (record {
          transfer_id = offer.transfer_id;
          passed = true;
          expected_hash_hex = offer.file_hash_hex;
          actual_hash_hex = offer.file_hash_hex;
        }))
      ∷ [];
}

abbrev pub tcp_reply : Reply
tcp_reply = record {
  accepts = λ r. to_tcp_peer (accept_from r) ∷ [];
  rejects = λ reason. to_tcp_peer (reject_because reason) ∷ [];
  plan_failure = λ e. e;
  verifies = [];
}

abbrev pub say : List Output → FileTransferState → FileTransferState
say outputs s = record s { log = s.log ++ outputs }

-- Where the handling of a connection stands.
pub data Phase : Type 0 where
  closed : Phase
  waiting : ℕ → Phase
  receiving : ℕ → ReceivePlan → String → Phase

-- `ext`: the extension in lower case, without its dot.
abbrev drop_dot : String → String
drop_dot String.[] = ""
drop_dot (String.◌∷◌ c s) = s

abbrev pub ext : Env → String → String
ext env filename = env.to_lowercase (drop_dot (stem_and_ext filename).1)

abbrev pub with_disk : Disk → FileTransferState → FileTransferState
with_disk d s = record s { disk = d }

-- The address that the sender announces, or that of the connection.
abbrev pub remote_of : Env → String → FileOffer → String
remote_of env address offer =
    if str_eq (env.trim offer.sender_ip) "" then address else offer.sender_ip

abbrev pub quick_record : ℕ → FileOffer → String → TransferTask → TransferRecord
quick_record end_time offer existing task = record {
  id = 0;
  transfer_id = task.transfer_id;
  direction = receive;
  filename = task.filename;
  file_size = offer.file_size;
  remote_ip = task.remote_ip;
  remote_device = task.remote_device;
  channel = task.channel;
  status = completed;
  start_time = task.created_at;
  end_time = some end_time;
  bytes_transferred = offer.file_size;
  file_hash = some offer.file_hash_hex;
  error_message = none;
  file_path = some existing;
  quick_sent = true;
  avg_speed_kbps = none;
}

abbrev pub recorded :
    Env
    → (TransferTask → TransferRecord)
    → Option TransferTask
    → FileTransferState
    → FileTransferState
recorded env rec none s = s
recorded env rec (some task) s = output (task_event task) (push_history env (rec task) s)

-- The task that is found goes into the history, and is shown.
abbrev pub record_task :
    Env → ℕ → (TransferTask → TransferRecord) → FileTransferState → FileTransferState
record_task env id rec s = recorded env rec (find_task id s.transfer_mgr) s

abbrev pub enqueued : ℕ → TransferTask → FileTransferState → ℕ × FileTransferState
enqueued now task s =
    let (id, mgr) = enqueue now task s.transfer_mgr in (id, record s { transfer_mgr = mgr })

-- The parts of the handling of an offer, in a section over what they share.
module _ (env : Env) (now end_time : ℕ) (reply : Reply) (remote_ip : String)
    (offer : FileOffer) where
  abbrev pub quick_done : String → TransferTask → TransferTask
  quick_done existing t = record t {
    status = completed;
    bytes_done = offer.file_size;
    save_path = some existing;
    quick_sent = true;
  }

  -- The content is there already: the sender is told so, and nothing is transferred.
  unfoldable pub quick_receive : String → FileTransferState → FileTransferState
  quick_receive existing s =
      let told = say (reply.accepts offer.file_size ++ reply.verifies) s in
      let (id, s') =
        enqueued now (new_receive_task offer remote_ip offer.file_size existing) told in
      record_task env id (quick_record end_time offer existing)
        (update_task id (quick_done existing) s')

  abbrev pub waiting_for : ℕ → ReceivePlan → String → FileTransferState → FileTransferState
  waiting_for id plan save_path s =
      output
        (offer_event (record {
          transfer_id = offer.transfer_id;
          filename = offer.filename;
          file_size = offer.file_size;
          channel = offer.channel;
          remote_ip = remote_ip;
          remote_device = offer.sender_device;
          resume_offset = plan.resume_offset;
          default_save_path = save_path;
        }))
        (record s {
          pending =
              with_entry id
                (record {
                  offer = offer;
                  resume_offset = plan.resume_offset;
                  partial_path = plan.partial_path;
                  default_save_path = save_path;
                })
                s.pending;
        })

  -- The planned request becomes a task; it is taken up at once, or the user is asked.
  abbrev pub planned :
      String → FileTransferState → Result IoError ReceivePlan × Disk → Phase × FileTransferState
  planned save_path s (err e, d) =
      (closed, say (reply.rejects (reply.plan_failure (env.io_text e))) (with_disk d s))
  planned save_path s (ok plan, d) =
      let (id, s') =
        enqueued now (new_receive_task offer remote_ip plan.resume_offset plan.partial_path)
          (with_disk d s) in
      if s.auto_accept
      then (receiving id plan save_path, say (reply.accepts plan.resume_offset) s')
      else (waiting id, waiting_for id plan save_path s')

  -- Without a path the search for one goes on; see resolve_save_path.
  abbrev pub placed : Option String → FileTransferState → Phase × FileTransferState
  placed none s = (closed, s)
  placed (some save_path) s = planned save_path s (plan_receive offer save_path s.disk)

  abbrev pub searched : FileTransferState → Option String × Disk → Phase × FileTransferState
  searched s (some existing, d) = (closed, quick_receive existing (with_disk d s))
  searched s (none, d) =
      placed (resolve_save_path env.print env.fuel s.save_dir offer.filename d) (with_disk d s)

  unfoldable pub answer_offer : FileTransferState → Phase × FileTransferState
  unfolding quick_receive
  answer_offer s =
      if is_allowed env.to_lowercase s.filter (ext env offer.filename)
      then searched s (find_duplicate (hash_hex env) s.save_dir offer s.disk)
      else (closed, say (reply.rejects ("文件类型 ." <> (ext env offer.filename <> " 被过滤规则拒绝"))) s)
