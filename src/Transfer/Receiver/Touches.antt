-- ===== src/Transfer/Receiver/Touches.antt =====
-- Which files receive_quic touches: the partial file and the one at the save path.
use vnt_gui_dev.Prelude.{
  ℕ, ◌≡◌, ◌≢◌, refl, ◌∙◌, String, Bool, true, false, Option, List, [], ◌∷◌, ◌++◌, arith, Result, ok,
  err, eq_iff, length, Bool-cases, inl, inr, str_eq, ◌==◌,
}
use vnt_gui_dev.Transfer.Protocol.{Bytes, FileOffer, FileChunk, FileMsg, chunk, complete, cancel}
use vnt_gui_dev.Transfer.Disk.{Disk, Handle, IoError, read_all}
use vnt_gui_dev.Transfer.Resumable.{write_chunk, finalize, open_partial, validate_resume}
use vnt_gui_dev.Transfer.Resumable.Laws.{write_chunk_ok}
use vnt_gui_dev.Transfer.Receiver.{
  ReceivePlan, Rx, Flow, more, done, failed, rx_of, advance, partial_for,
}
use vnt_gui_dev.Transfer.Receiver.Quic.{
  Arrival, message, lost, tick, Turn, wrote, on_chunk, on_message, turn, receive_loop, finalized,
  checked, told, after_loop, opened, resumed, receive_quic, start,
}

module _ (q p : String) (other : p ≢ q) where
  write_chunk_keeps :
      (bytes : Bytes) (off : ℕ) (file : Handle) (d : Disk)
      → file.path ≡ q
      → (write_chunk bytes off file d).1.files p ≡ d.files p
  unfolding write_chunk
  write_chunk_keeps bytes off file d at = ground (arith, eq_iff p file.path)

  finalize_keeps :
      (final : String) (d : Disk) → p ≢ final → (finalize q final d).1.files p ≡ d.files p
  unfolding finalize
  finalize_keeps final d n = ground (arith, eq_iff p q, eq_iff p final)

  open_partial_keeps : (d : Disk) → (open_partial q d).1.files p ≡ d.files p
  unfolding open_partial
  open_partial_keeps d = ground (arith, eq_iff p q)

  open_partial_path : (file : Handle) (d : Disk) → (open_partial q d).0 ≡ ok file → file.path ≡ q
  unfolding open_partial
  open_partial_path file d h = ground arith

  validate_resume_keeps_others : (n : ℕ) (d : Disk) → (validate_resume q n d).1.files p ≡ d.files p
  unfolding validate_resume
  validate_resume_keeps_others n d = ground (arith, eq_iff p q)

  read_all_keeps : (d : Disk) → (read_all q d).1.files p ≡ d.files p
  read_all_keeps d = ground arith

  -- The loop writes to `q`, and `p` has this content.
  abbrev Apart : Option Bytes → Rx → Type 0
  Apart content rx = (rx.file.path ≡ q) × (rx.disk.files p ≡ content)

  wrote-Apart :
      (content : Option Bytes) (n : ℕ) (rx : Rx) (r : Result IoError Handle) (d : Disk)
      → rx.file.path ≡ q
      → ((file : Handle) → r ≡ ok file → file.path ≡ q)
      → d.files p ≡ content
      → Apart content (rx_of (wrote n rx (r, d)))
  unfolding advance
  wrote-Apart content n rx (err e) d at path h = (at, h)
  wrote-Apart content n rx (ok file) d at path h = ground (arith, path file refl)

  chunk-Apart :
      (content : Option Bytes) (offer : FileOffer) (header : FileChunk) (bytes : Bytes) (rx : Rx)
      → Apart content rx
      → Apart content (rx_of (on_chunk offer header bytes rx))
  unfolding on_chunk
  chunk-Apart content offer header bytes rx h =
      let w =
        wrote-Apart content (length bytes) rx (write_chunk bytes header.offset rx.file rx.disk).0
          (write_chunk bytes header.offset rx.file rx.disk).1 h.0
          (λ file e. (write_chunk_ok bytes header.offset rx.file file rx.disk e).0 ∙ h.0)
          (write_chunk_keeps bytes header.offset rx.file rx.disk h.0 ∙ h.1) in
      elim (Bool-cases (header.transfer_id == offer.transfer_id)) [
        | inr foreign ↦ rw foreign h
        | inl same ↦ elim (Bool-cases (header.offset == rx.received)) [
          | inl next ↦ rw (same, next) w
          | inr gap ↦ rw (same, gap) (ground arith)
        ]
      ]

  message-Apart :
      (content : Option Bytes) (offer : FileOffer) (m : FileMsg) (rx : Rx)
      → Apart content rx
      → Apart content (rx_of (on_message offer m rx))
  unfolding on_message
  message-Apart content offer (chunk header bytes) rx h =
      chunk-Apart content offer header bytes rx h
  message-Apart content offer (complete c) rx h = h
  message-Apart content offer (cancel c) rx h = h
  message-Apart content offer _ rx h = h

  turn-Apart :
      (content : Option Bytes) (offer : FileOffer) (cancelled : Bool) (arrival : Arrival) (rx : Rx)
      → Apart content rx
      → Apart content (rx_of (turn offer (record { cancelled = cancelled; arrival = arrival }) rx))
  unfolding turn
  turn-Apart content offer true arrival rx h = h
  turn-Apart content offer false (message m) rx h = message-Apart content offer m rx h
  turn-Apart content offer false lost rx h = h
  turn-Apart content offer false (tick true) rx h = h
  turn-Apart content offer false (tick false) rx h = h

  loop-Apart :
      (content : Option Bytes) (offer : FileOffer) (turns : List Turn) (rx : Rx)
      → Apart content rx
      → Apart content (rx_of (receive_loop offer turns rx))
  unfolding receive_loop
  loop-Apart content offer [] rx h = h
  loop-Apart content offer (t ∷ ts) rx h =
      go (turn offer t rx) (turn-Apart content offer t.cancelled t.arrival rx h)
        (λ rx' k. loop-Apart content offer ts rx' k)
    where
      go :
          (f : Flow)
          → Apart content (rx_of f)
          → ((rx' : Rx) → Apart content rx' → Apart content (rx_of (receive_loop offer ts rx')))
          → Apart content (
              rx_of (elim f [
                | more rx' ↦ receive_loop offer ts rx'
                | done rx' ↦ done rx'
                | failed e rx' ↦ failed e rx'
              ]))
      go (more rx') k ih = ih rx' k
      go (done rx') k ih = k
      go (failed e rx') k ih = k

module _ (hash_hex : Bytes → String) (offer : FileOffer) (save_path p : String)
    (not_partial : p ≢ partial_for save_path) (not_saved : p ≢ save_path) where
  finalized_files :
      (rx : Rx) (r : Result IoError (Unit {0})) (d : Disk)
      → (finalized rx (r, d)).rx.disk.files p ≡ d.files p
  finalized_files rx (ok u) d = refl
  finalized_files rx (err e) d = refl

  checked_files :
      (rx : Rx) (r : Result IoError Bytes) (d : Disk)
      → (checked hash_hex offer save_path rx (r, d)).rx.disk.files p ≡ d.files p
  checked_files rx (err e) d = refl
  checked_files rx (ok c) d = elim (Bool-cases (str_eq (hash_hex c) offer.file_hash_hex)) [
    | inr other ↦ rw other
    | inl same ↦ rw same (
        finalized_files (told offer (hash_hex c) true d rx)
          (finalize (partial_for save_path) save_path d).0
          (finalize (partial_for save_path) save_path d).1
        ∙ finalize_keeps (partial_for save_path) p not_partial save_path d not_saved)
  ]

  after_loop_files :
      (f : Flow) → (after_loop hash_hex offer save_path f).rx.disk.files p ≡ (rx_of f).disk.files p
  unfolding after_loop
  after_loop_files (more rx) = refl
  after_loop_files (failed e rx) = refl
  after_loop_files (done rx) =
      checked_files (record rx { reports = rx.reports ++ rx.received ∷ [] })
        (read_all (partial_for save_path) rx.disk).0 (read_all (partial_for save_path) rx.disk).1
      ∙ read_all_keeps (partial_for save_path) p not_partial rx.disk

  opened_files :
      (turns : List Turn) (r : ℕ) (o : Result IoError Handle) (d : Disk)
      → ((file : Handle) → o ≡ ok file → file.path ≡ partial_for save_path)
      → (opened hash_hex offer save_path turns r (o, d)).rx.disk.files p ≡ d.files p
  opened_files turns r (err e) d path = refl
  opened_files turns r (ok file) d path =
      after_loop_files (receive_loop offer turns (start d file r))
      ∙ (loop-Apart (partial_for save_path) p not_partial (d.files p) offer turns (start d file r)
          (path file refl, refl)).1

  resumed_files :
      (turns : List Turn) (o : Result IoError ℕ) (d : Disk)
      → (resumed hash_hex offer save_path turns (o, d)).rx.disk.files p ≡ d.files p
  resumed_files turns (err e) d = refl
  resumed_files turns (ok r) d =
      opened_files turns r (open_partial (partial_for save_path) d).0
        (open_partial (partial_for save_path) d).1
        (λ file e. open_partial_path (partial_for save_path) p not_partial file d e)
      ∙ open_partial_keeps (partial_for save_path) p not_partial d

-- Whatever rounds are played, and whichever calls the system refuses, receive_quic changes no file
-- but the partial one and the one at the save path.
pub receive_quic_touches :
    (hash_hex : Bytes → String) (plan : ReceivePlan) (save_path p : String) (turns : List Turn)
    (d : Disk)
    → p ≢ partial_for save_path
    → p ≢ save_path
    → (receive_quic hash_hex plan save_path turns d).rx.disk.files p ≡ d.files p
unfolding receive_quic
receive_quic_touches hash_hex plan save_path p turns d n m =
    elim (Bool-cases (str_eq (partial_for save_path) plan.partial_path)) [
      | inl same ↦
          rw same
            (resumed_files hash_hex plan.offer save_path p n m turns (ok plan.resume_offset) d)
      | inr other ↦ rw other (
          resumed_files hash_hex plan.offer save_path p n m turns
            (validate_resume (partial_for save_path) plan.offer.file_size d).0
            (validate_resume (partial_for save_path) plan.offer.file_size d).1
          ∙ validate_resume_keeps_others (partial_for save_path) p n plan.offer.file_size d)
    ]
