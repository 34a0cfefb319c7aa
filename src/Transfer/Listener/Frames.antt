-- ===== src/Transfer/Listener/Frames.antt =====
-- What the steps of the listener leave alone.
use vnt_gui_dev.Prelude.{
  ℕ, ◌≡◌, ◌≢◌, refl, sym, subst, ap, ◌∙◌, List, [], String, Bool, true, false, Option, none, some,
  arith, eq_iff,
}
use vnt_gui_dev.Transfer.Protocol.{Bytes, TransferRecord}
use vnt_gui_dev.Transfer.Disk.{Disk, atomic_save}
use vnt_gui_dev.Transfer.Disk.Laws.{write_new-keeps}
use vnt_gui_dev.Transfer.Manager.{TransferTask, TransferManager, find_task, update}
use vnt_gui_dev.Transfer.Manager.Laws.{find_task-updated}
use vnt_gui_dev.Transfer.History as History
use vnt_gui_dev.Transfer.Receiver.{partial_for}
use vnt_gui_dev.Transfer.State.{FileTransferState, Env, update_task, push_history}
use vnt_gui_dev.Transfer.Listener.{record_task, recorded}
use vnt_gui_dev.Transfer.Listener.Receive.{drop_partial, cleared}

-- A path that is neither the file of the history nor the one it is written to first.
abbrev pub NotHistory : String → FileTransferState → Type 0
NotHistory p s = (p ≢ s.history.path) × (p ≢ History.tmp_path s.history.path)

atomic_save_keeps :
    (tmp path p : String) (bytes : Bytes) (d : Disk)
    → p ≢ path
    → p ≢ tmp
    → (atomic_save tmp path bytes d).1.files p ≡ d.files p
unfolding atomic_save
atomic_save_keeps tmp path p bytes d n m =
    ground (arith, write_new-keeps tmp p bytes d m, eq_iff p path, eq_iff p tmp)

push_disk :
    (encode : List TransferRecord → Bytes) (rec : TransferRecord) (h : History.HistoryStore)
    (d : Disk)
    → (History.push encode rec h d).2 ≡ (History.persist encode (History.pushed rec h) d).1
unfolding History.push
push_disk encode rec h d = ground arith

push_store :
    (encode : List TransferRecord → Bytes) (rec : TransferRecord) (h : History.HistoryStore)
    (d : Disk)
    → (History.push encode rec h d).1 ≡ History.pushed rec h
unfolding History.push
push_store encode rec h d = ground arith

pub push_history_history :
    (env : Env) (rec : TransferRecord) (s : FileTransferState)
    → (push_history env rec s).history ≡ History.pushed rec s.history
push_history_history env rec s = push_store env.encode rec s.history s.disk

module _ (env : Env) (p : String) where
  push_history_keeps :
      (rec : TransferRecord) (s : FileTransferState)
      → NotHistory p s
      → (push_history env rec s).disk.files p ≡ s.disk.files p
  unfolding History.persist History.pushed
  push_history_keeps rec s n =
      ap (λ (d : Disk). d.files p) (push_disk env.encode rec s.history s.disk)
      ∙ atomic_save_keeps (History.tmp_path s.history.path) s.history.path p _ s.disk n.0 n.1

  recorded_keeps :
      (rec : TransferTask → TransferRecord) (found : Option TransferTask) (s : FileTransferState)
      → NotHistory p s
      → (recorded env rec found s).disk.files p ≡ s.disk.files p
  recorded_keeps rec none s n = refl
  recorded_keeps rec (some task) s n = push_history_keeps (rec task) s n

  pub record_task_keeps :
      (id : ℕ) (rec : TransferTask → TransferRecord) (s : FileTransferState)
      → NotHistory p s
      → (record_task env id rec s).disk.files p ≡ s.disk.files p
  record_task_keeps id rec s n = recorded_keeps rec (find_task id s.transfer_mgr) s n

recorded_mgr :
    (env : Env) (rec : TransferTask → TransferRecord) (found : Option TransferTask)
    (s : FileTransferState)
    → (recorded env rec found s).transfer_mgr ≡ s.transfer_mgr
recorded_mgr env rec none s = refl
recorded_mgr env rec (some task) s = refl

pub record_task_mgr :
    (env : Env) (id : ℕ) (rec : TransferTask → TransferRecord) (s : FileTransferState)
    → (record_task env id rec s).transfer_mgr ≡ s.transfer_mgr
record_task_mgr env id rec s = recorded_mgr env rec (find_task id s.transfer_mgr) s

pub update_task_disk :
    (id : ℕ) (f : TransferTask → TransferTask) (s : FileTransferState)
    → (update_task id f s).disk ≡ s.disk
unfolding update_task
update_task_disk id f s = ground arith

pub update_task_history :
    (id : ℕ) (f : TransferTask → TransferTask) (s : FileTransferState)
    → (update_task id f s).history ≡ s.history
unfolding update_task
update_task_history id f s = ground arith

pub drop_partial_keeps :
    (save_path p : String) (d : Disk)
    → p ≢ partial_for save_path
    → (drop_partial save_path d).files p ≡ d.files p
drop_partial_keeps save_path p d n = ground (arith, eq_iff p (partial_for save_path))

-- With no refused call the partial file is gone.
pub drop_partial_calm :
    (save_path : String) (d : Disk)
    → d.faults ≡ []
    → (drop_partial save_path d).files (partial_for save_path) ≡ none
drop_partial_calm save_path d calm =
    ground (arith, eq_iff (partial_for save_path) (partial_for save_path))

pub cleared_same :
    (confirmed : Bool) (id : ℕ) (s : FileTransferState)
    → ((cleared confirmed id s).transfer_mgr ≡ s.transfer_mgr)
      × ((cleared confirmed id s).disk ≡ s.disk)
      × ((cleared confirmed id s).history ≡ s.history)
cleared_same true id s = (refl, refl, refl)
cleared_same false id s = (refl, refl, refl)

pub update_task-NotHistory :
    (id : ℕ) (f : TransferTask → TransferTask) (p : String) (s : FileTransferState)
    → NotHistory p s
    → NotHistory p (update_task id f s)
update_task-NotHistory id f p s n =
    subst (λ (h : History.HistoryStore). (p ≢ h.path) × (p ≢ History.tmp_path h.path))
      (sym (update_task_history id f s)) n

-- The task of an id has this status.
abbrev pub HasStatus : ℕ → (TransferTask → Type 0) → FileTransferState → Type 0
HasStatus id P s = (t : TransferTask) × (find_task id s.transfer_mgr ≡ some t) × P t

-- An update of the state is one of its queue.
pub update_task_mgr :
    (id : ℕ) (f : TransferTask → TransferTask) (s : FileTransferState)
    → (update_task id f s).transfer_mgr ≡ (update id f s.transfer_mgr).1
unfolding update_task
update_task_mgr id f s = ground arith

-- A task that is found is found, changed, after an update that keeps its id.
pub found_after :
    (id : ℕ) (f : TransferTask → TransferTask) (t : TransferTask) (m : TransferManager)
    (s : FileTransferState)
    → s.transfer_mgr ≡ (update id f m).1
    → ((u : TransferTask) → (f u).transfer_id ≡ u.transfer_id)
    → find_task id m ≡ some t
    → find_task id s.transfer_mgr ≡ some (f t)
found_after id f t m s e keeps h = ap (find_task id) e ∙ find_task-updated id f m t keeps h
