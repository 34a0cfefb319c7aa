-- ===== src/Transfer/Receiver.antt =====
-- The receiving side of a transfer (src-tauri/src/file_transfer/receiver.rs): what both channels
-- share. The loops of the channels are in the children, and the proofs below them.
pub mod Quic
pub mod Tcp
pub mod Prefix
pub mod Integrity
pub mod Resume
pub mod Overwrite
pub mod Refused
pub mod Placement
pub mod Touches
use Prim.Native.String.{◌++◌ as ◌<>◌}
use vnt_gui_dev.Prelude.{
  ℕ, ◌+◌, String, Bool, true, false, List, [], ◌∷◌, ◌++◌, str_eq, if◌then◌else◌, leb,
}
use vnt_gui_dev.Transfer.Protocol.{Bytes, FileOffer, FileMsg}
use vnt_gui_dev.Transfer.Disk.{Disk, Io, IoError, Handle, ◌>>=◌, pure}
use vnt_gui_dev.Transfer.Resumable.{validate_resume}

-- How a transfer ends without success; the texts of the messages are constructors.
pub data TransferError : Type 0 where
  cancelled_here : TransferError
  cancelled_by_peer : String → TransferError
  rejected_by_peer : String → TransferError
  chunk_gap : ℕ → ℕ → TransferError
  stream_ended : ℕ → ℕ → TransferError
  closed_early : ℕ → ℕ → TransferError
  hash_mismatch : String → String → TransferError
  connection_lost : TransferError
  timed_out : TransferError
  io : IoError → TransferError

pub record ReceivePlan : Type 0 where
  pub offer : FileOffer
  pub resume_offset : ℕ
  pub partial_path : String

unfoldable pub partial_for : String → String
partial_for save_path = save_path <> ".partial"

unfoldable pub plan_receive : FileOffer → String → Io ReceivePlan
unfolding validate_resume partial_for
plan_receive offer save_path = do
  resume_offset ← validate_resume (partial_for save_path) offer.file_size
  pure (record {
    offer = offer;
    resume_offset = resume_offset;
    partial_path = partial_for save_path;
  })

-- The loop's variables: the disk and the open file, the bytes that count as received, those since
-- the last report, and what went out: messages to the sender and progress reports.
pub record Rx : Type 0 where
  pub disk : Disk
  pub file : Handle
  pub received : ℕ
  pub since_report : ℕ
  pub sent : List FileMsg
  pub reports : List ℕ

-- What one round of a loop leads to.
pub data Flow : Type 0 where
  more : Rx → Flow
  done : Rx → Flow
  failed : TransferError → Rx → Flow

abbrev pub rx_of : Flow → Rx
rx_of (more rx) = rx
rx_of (done rx) = rx
rx_of (failed e rx) = rx

abbrev pub report_bytes : ℕ
report_bytes = 524288

-- The count after `n` more bytes, with a report once enough have come.
unfoldable pub advance : ℕ → Rx → Rx
advance n rx =
    let received = rx.received + n in
    let since = rx.since_report + n in
    if leb report_bytes since
    then record rx { received = received; since_report = 0; reports = rx.reports ++ received ∷ [] }
    else record rx { received = received; since_report = since }
