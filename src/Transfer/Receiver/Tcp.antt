-- ===== src/Transfer/Receiver/Tcp.antt =====
-- The receiving loop of the TCP channel (`receive_tcp` of receiver.rs, `read_exact_n` of
-- tcp_channel.rs). The stream is the list of the bytes that the sender puts into it before it
-- closes; the system decides how many of them a read hands over.
use vnt_gui_dev.Prelude.{
  ℕ, suc, ◌-◌, String, Bool, true, false, List, [], ◌∷◌, if◌then◌else◌, leb, str_eq, length, take,
  drop, Result, ok, err, Option, none, some, min, ◌==◌,
}
use vnt_gui_dev.Transfer.Protocol.{Bytes, FileOffer}
use vnt_gui_dev.Transfer.Disk.{Disk, Handle, IoError, read_failed, read_all, write_all, flush}
use vnt_gui_dev.Transfer.Resumable.{open_partial, validate_resume, finalize}
use vnt_gui_dev.Transfer.Receiver.{
  TransferError, cancelled_here, stream_ended, closed_early, hash_mismatch, io, partial_for, Rx,
  advance,
}

pub data Arrival : Type 0 where
  -- a read is answered with at most this many bytes more than one
  readable : ℕ → Arrival
  broken : Arrival
  tick : Bool → Arrival

pub record Turn : Type 0 where
  pub cancelled : Bool
  pub arrival : Arrival

pub record TcpRx : Type 0 where
  pub rx : Rx
  pub file_remaining : ℕ
  pub stream : Bytes
  pub shut : Bool

pub data Flow : Type 0 where
  more : TcpRx → Flow
  failed : TransferError → TcpRx → Flow

abbrev pub read_buffer_size : ℕ
read_buffer_size = 262144

abbrev pub stop_here : TcpRx → Flow
stop_here s = failed cancelled_here (record s { shut = true })

abbrev pub wrote : ℕ → TcpRx → Result IoError Handle × Disk → Flow
wrote n s (err e, disk) = failed (io e) (record s { rx = record s.rx { disk = disk } })
wrote n s (ok file, disk) = more (record s {
  rx = advance n (record s.rx { disk = disk; file = file });
  file_remaining = s.file_remaining - n;
})

-- The bytes that a read returned; none at all is the end of the stream.
abbrev pub on_bytes : FileOffer → Bytes → TcpRx → Flow
on_bytes offer [] s = failed (stream_ended s.rx.received offer.file_size) s
on_bytes offer (b ∷ bs) s = wrote (length (b ∷ bs)) s (write_all (b ∷ bs) s.rx.file s.rx.disk)

unfoldable pub read_some : FileOffer → ℕ → TcpRx → Flow
unfolding advance
read_some offer extra s =
    let n = min (suc extra) (min s.file_remaining read_buffer_size) in
    on_bytes offer (take n s.stream) (record s { stream = drop n s.stream })

abbrev on_arrival : FileOffer → Arrival → TcpRx → Flow
on_arrival offer (readable extra) s = read_some offer extra s
on_arrival offer broken s = failed (io read_failed) s
on_arrival offer (tick stop) s = if stop then stop_here s else more s

unfoldable pub turn : FileOffer → Turn → TcpRx → Flow
unfolding read_some
turn offer t s = if t.cancelled then stop_here s else on_arrival offer t.arrival s

-- How the loop stands after the rounds that have been played.
pub data Outcome : Type 0 where
  going : TcpRx → Outcome
  complete : TcpRx → Outcome
  broke : TransferError → TcpRx → Outcome

unfoldable pub receive_loop : FileOffer → List Turn → TcpRx → Outcome
unfolding turn
receive_loop offer [] s = if s.file_remaining == 0 then complete s else going s
receive_loop offer (t ∷ ts) s = elim (s.file_remaining == 0) [
  | true ↦ complete s
  | false ↦ elim (turn offer t s) [ more s' ↦ receive_loop offer ts s' | failed e s' ↦ broke e s' ]
]

-- read_exact_n: `n` bytes of the stream, or the number that there were. A stream that breaks ends here
-- like one that is closed; only the text of the error differs.
unfoldable pub read_exact_n : ℕ → Bytes → Result TransferError Bytes
read_exact_n n stream =
    if leb n (length stream) then ok (take n stream) else err (closed_early (length stream) n)

pub record Progress : Type 0 where
  pub result : Option (Result TransferError ℕ)
  pub disk : Disk

abbrev pub stopped : TransferError → Disk → Progress
stopped e disk = record { result = some (err e); disk = disk }

abbrev pub finalized : ℕ → Result IoError (Unit {0}) × Disk → Progress
finalized received (ok _, disk) = record { result = some (ok received); disk = disk }
finalized received (err e, disk) = stopped (io e) disk

abbrev pub start : Disk → Handle → ℕ → ℕ → Bytes → TcpRx
start disk file received file_remaining stream = record {
  rx = record {
    disk = disk;
    file = file;
    received = received;
    since_report = 0;
    sent = [];
    reports = [];
  };
  file_remaining = file_remaining;
  stream = stream;
  shut = false;
}

-- `sha` is the hash function and `hex` its print; both come from other packages.
module _ (sha : Bytes → Bytes) (hex : Bytes → String) where
  abbrev pub checked : String → ℕ → Bytes → Result IoError Bytes × Disk → Progress
  checked save_path received hash_bytes (err e, disk) = stopped (io e) disk
  checked save_path received hash_bytes (ok content, disk) =
      if str_eq (hex (sha content)) (hex hash_bytes)
      then finalized received (finalize (partial_for save_path) save_path disk)
      else stopped (hash_mismatch (hex hash_bytes) (hex (sha content))) disk

  abbrev pub trailer : String → ℕ → Disk → Result TransferError Bytes → Progress
  trailer save_path received disk (err e) = stopped e disk
  trailer save_path received disk (ok hash_bytes) =
      checked save_path received hash_bytes (read_all (partial_for save_path) disk)

  abbrev pub flushed : String → TcpRx → Result IoError (Unit {0}) × Disk → Progress
  flushed save_path s (err e, disk) = stopped (io e) disk
  flushed save_path s (ok _, disk) = trailer save_path s.rx.received disk (read_exact_n 32 s.stream)

  unfoldable pub after_loop : String → Outcome → Progress
  unfolding read_exact_n
  after_loop save_path (going s) = record { result = none; disk = s.rx.disk }
  after_loop save_path (broke e s) = stopped e s.rx.disk
  after_loop save_path (complete s) = flushed save_path s (flush s.rx.file s.rx.disk)

  abbrev pub opened :
      FileOffer → String → List Turn → Bytes → ℕ → Result IoError Handle × Disk → Progress
  opened offer save_path turns stream resume_offset (err e, disk) = stopped (io e) disk
  opened offer save_path turns stream resume_offset (ok file, disk) = after_loop save_path (
      receive_loop offer turns
        (start disk file resume_offset (offer.file_size - resume_offset) stream))

  abbrev pub resumed : FileOffer → String → List Turn → Bytes → Result IoError ℕ × Disk → Progress
  resumed offer save_path turns stream (err e, disk) = stopped (io e) disk
  resumed offer save_path turns stream (ok resume_offset, disk) =
      opened offer save_path turns stream resume_offset (open_partial (partial_for save_path) disk)

  unfoldable pub receive_tcp : FileOffer → String → List Turn → Bytes → Disk → Progress
  unfolding after_loop
  receive_tcp offer save_path turns stream disk =
      resumed offer save_path turns stream
        (validate_resume (partial_for save_path) offer.file_size disk)
