-- ===== src/Transfer/Receiver/Quic.antt =====
-- The receiving loop of the QUIC channel (`receive_quic` of receiver.rs).
use vnt_gui_dev.Prelude.{
  ℕ, String, Bool, List, [], ◌∷◌, ◌++◌, if◌then◌else◌, ltb, ◌==◌, str_eq, length, Result, ok, err,
  Option, none, some,
}
use vnt_gui_dev.Transfer.Protocol.{
  Bytes, FileOffer, FileChunk, FileMsg, chunk, complete, verify, cancel,
}
use vnt_gui_dev.Transfer.Disk.{Disk, Handle, IoError, read_all}
use vnt_gui_dev.Transfer.Resumable.{open_partial, validate_resume, write_chunk, finalize}
use vnt_gui_dev.Transfer.Receiver.{
  TransferError, cancelled_here, cancelled_by_peer, chunk_gap, hash_mismatch, connection_lost, io,
  ReceivePlan, partial_for, Rx, Flow, more, done, failed, advance,
}

-- What the `select!` of a round yields: a message, a broken connection, or the timer, after which
-- the cancel flag is read.
pub data Arrival : Type 0 where
  message : FileMsg → Arrival
  lost : Arrival
  tick : Bool → Arrival

-- A round: the cancel flag at its top, and what arrives.
pub record Turn : Type 0 where
  pub cancelled : Bool
  pub arrival : Arrival

abbrev pub send_cancel : FileOffer → String → Rx → Rx
send_cancel offer reason rx = record rx {
  sent = rx.sent ++ cancel (record { transfer_id = offer.transfer_id; reason = reason }) ∷ [];
}

abbrev pub stop_here : FileOffer → Rx → Flow
stop_here offer rx = failed cancelled_here (send_cancel offer "接收端已取消" rx)

abbrev pub wrote : ℕ → Rx → Result IoError Handle × Disk → Flow
wrote n rx (ok file, disk) = more (advance n (record rx { disk = disk; file = file }))
wrote n rx (err e, disk) = failed (io e) (record rx { disk = disk })

unfoldable pub on_chunk : FileOffer → FileChunk → Bytes → Rx → Flow
on_chunk offer header bytes rx =
    if header.transfer_id == offer.transfer_id
    then if header.offset == rx.received
      then wrote (length bytes) rx (write_chunk bytes header.offset rx.file rx.disk)
      else if ltb header.offset rx.received
      then more rx
      else failed (chunk_gap rx.received header.offset) rx
    else more rx

unfoldable pub on_message : FileOffer → FileMsg → Rx → Flow
unfolding on_chunk
on_message offer (chunk header bytes) rx = on_chunk offer header bytes rx
on_message offer (complete c) rx = done rx
on_message offer (cancel c) rx = failed (cancelled_by_peer c.reason) (send_cancel offer "ack" rx)
on_message offer _ rx = more rx

abbrev on_arrival : FileOffer → Arrival → Rx → Flow
on_arrival offer (message m) rx = on_message offer m rx
on_arrival offer lost rx = failed connection_lost rx
on_arrival offer (tick stop) rx = if stop then stop_here offer rx else more rx

unfoldable pub turn : FileOffer → Turn → Rx → Flow
unfolding on_message
turn offer t rx = if t.cancelled then stop_here offer rx else on_arrival offer t.arrival rx

-- The rounds that have been played; `more` means that the loop goes on after them.
unfoldable pub receive_loop : FileOffer → List Turn → Rx → Flow
unfolding turn
receive_loop offer [] rx = more rx
receive_loop offer (t ∷ ts) rx = elim (turn offer t rx) [
  | more rx' ↦ receive_loop offer ts rx'
  | done rx' ↦ done rx'
  | failed e rx' ↦ failed e rx'
]

-- Where the transfer stands: its result once it has one, and the loop's variables.
pub record Progress : Type 0 where
  pub result : Option (Result TransferError ℕ)
  pub rx : Rx

abbrev pub start : Disk → Handle → ℕ → Rx
start disk file received = record {
  disk = disk;
  file = file;
  received = received;
  since_report = 0;
  sent = [];
  reports = [];
}

abbrev nowhere : Handle
nowhere = record { path = ""; pos = 0 }

abbrev pub gave_up : TransferError → Disk → Progress
gave_up e disk = record { result = some (err e); rx = start disk nowhere 0 }

abbrev pub finalized : Rx → Result IoError (Unit {0}) × Disk → Progress
finalized rx (ok _, disk) = record {
  result = some (ok rx.received);
  rx = record rx { disk = disk };
}
finalized rx (err e, disk) = record { result = some (err (io e)); rx = record rx { disk = disk } }

abbrev pub told : FileOffer → String → Bool → Disk → Rx → Rx
told offer actual same disk rx = record rx {
  disk = disk;
  sent =
      rx.sent
      ++ verify (record {
        transfer_id = offer.transfer_id;
        passed = same;
        expected_hash_hex = offer.file_hash_hex;
        actual_hash_hex = actual;
      })
        ∷ [];
}

module _ (hash_hex : Bytes → String) where
  -- The hash of the whole partial file is compared and sent, and only then the file is renamed.
  abbrev pub checked : FileOffer → String → Rx → Result IoError Bytes × Disk → Progress
  checked offer save_path rx (err e, disk) = record {
    result = some (err (io e));
    rx = record rx { disk = disk };
  }
  checked offer save_path rx (ok content, disk) =
      let actual = hash_hex content in
      let same = str_eq actual offer.file_hash_hex in
      if same
      then finalized (told offer actual same disk rx)
          (finalize (partial_for save_path) save_path disk)
      else record {
        result = some (err (hash_mismatch offer.file_hash_hex actual));
        rx = told offer actual same disk rx;
      }

  unfoldable pub after_loop : FileOffer → String → Flow → Progress
  after_loop offer save_path (more rx) = record { result = none; rx = rx }
  after_loop offer save_path (failed e rx) = record { result = some (err e); rx = rx }
  after_loop offer save_path (done rx) =
      let rx' = record rx { reports = rx.reports ++ rx.received ∷ [] } in
      checked offer save_path rx' (read_all (partial_for save_path) rx'.disk)

  abbrev pub opened : FileOffer → String → List Turn → ℕ → Result IoError Handle × Disk → Progress
  opened offer save_path turns resume_offset (err e, disk) = gave_up (io e) disk
  opened offer save_path turns resume_offset (ok file, disk) =
      after_loop offer save_path (receive_loop offer turns (start disk file resume_offset))

  abbrev pub resumed : FileOffer → String → List Turn → Result IoError ℕ × Disk → Progress
  resumed offer save_path turns (err e, disk) = gave_up (io e) disk
  resumed offer save_path turns (ok resume_offset, disk) =
      opened offer save_path turns resume_offset (open_partial (partial_for save_path) disk)

  -- A save path other than the planned one has the offset computed anew.
  unfoldable pub receive_quic : ReceivePlan → String → List Turn → Disk → Progress
  unfolding after_loop
  receive_quic plan save_path turns disk = resumed plan.offer save_path turns (
      if str_eq (partial_for save_path) plan.partial_path
      then (ok plan.resume_offset, disk)
      else validate_resume (partial_for save_path) plan.offer.file_size disk)
