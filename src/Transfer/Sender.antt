-- ===== src/Transfer/Sender.antt =====
-- The sending side of the QUIC channel (src-tauri/src/file_transfer/sender.rs): the chunks of a
-- file from the resume offset on, with what may arrive or fail while a chunk is sent.
pub mod Wait
pub mod Tiles
pub mod Resend
pub mod Finish
pub mod EndToEnd
use vnt_gui_dev.Prelude.{
  ℕ, ◌+◌, ◌-◌, ◌%◌, ◌^◌, String, Bool, true, false, List, [], ◌∷◌, ◌++◌, if◌then◌else◌, ltb, leb,
  ◌==◌, length, take, drop, min, Result, ok, err, Option, none, some,
}
use vnt_gui_dev.Transfer.Protocol.{Bytes, FileMsg, chunk, complete, cancel, reject}
use vnt_gui_dev.Transfer.Disk.{IoError, read_failed}
use vnt_gui_dev.Transfer.Receiver.{
  TransferError, cancelled_here, cancelled_by_peer, rejected_by_peer, connection_lost, io,
}

abbrev pub default_chunk_size : ℕ
default_chunk_size = 65536

abbrev pub quic_report_bytes : ℕ
quic_report_bytes = 524288

-- What is left of a send that is dropped: its stream was not opened, was cut in the middle of the
-- message, or had already taken the whole message.
pub data Left : Type 0 where
  nothing : Left
  part : Left
  copy : Left

-- What the connection yields, while a send is pending, which it drops: a message, or its end.
pub data Incoming : Type 0 where
  message : FileMsg → Left → Incoming
  lost : Incoming

abbrev after_drop :
    Left → Result TransferError (Unit {0}) × List Left → Result TransferError (Unit {0}) × List Left
after_drop left (r, ls) = (r, left ∷ ls)

-- While a chunk is being sent: what arrives, in order, and then whether the send succeeds. An
-- unrelated message drops the pending send, and the next turn sends the chunk again.
unfoldable pub await_send : List Incoming → Bool → Result TransferError (Unit {0}) × List Left
await_send [] true = (ok tt, [])
await_send [] false = (err connection_lost, [])
await_send (message (cancel c) left ∷ rest) sends = (err (cancelled_by_peer c.reason), left ∷ [])
await_send (message (reject r) left ∷ rest) sends = (err (rejected_by_peer r.reason), left ∷ [])
await_send (message _ left ∷ rest) sends = after_drop left (await_send rest sends)
await_send (lost ∷ rest) sends = (err connection_lost, [])

-- A round of the loop: the cancel flag, the number of bytes that the system is ready to hand over
-- (none for a failed read), what arrives during the send, and whether it succeeds.
pub record Round : Type 0 where
  pub cancelled : Bool
  pub readable : Option ℕ
  pub incoming : List Incoming
  pub sends : Bool

-- The loop's variables; `pos` is the position in the open file, `sent` has the messages that went
-- out whole, and `cut` is the number of streams that were cut.
pub record Tx : Type 0 where
  pub pos : ℕ
  pub offset : ℕ
  pub since_report : ℕ
  pub sent : List FileMsg
  pub cut : ℕ
  pub reports : List ℕ

pub data Flow : Type 0 where
  more : Tx → Flow
  ended : Tx → Flow
  failed : TransferError → Tx → Flow

abbrev pub chunk_msg : ℕ → ℕ → Bytes → FileMsg
chunk_msg task_id offset bytes =
    chunk (record { transfer_id = task_id; offset = offset; data_len = length bytes % 2 ^ 32 })
      bytes

unfoldable pub count_sent : ℕ → Bytes → Tx → Tx
count_sent task_id bytes tx =
    let offset = tx.offset + length bytes in
    let since = tx.since_report + length bytes in
    let t = record tx {
      pos = tx.pos + length bytes;
      offset = offset;
      since_report = since;
      sent = tx.sent ++ chunk_msg task_id tx.offset bytes ∷ [];
    } in
    if leb quic_report_bytes since
    then record t { since_report = 0; reports = t.reports ++ offset ∷ [] }
    else t

abbrev pub abandoned : FileMsg → List Left → Tx → Tx
abandoned m [] tx = tx
abandoned m (nothing ∷ ls) tx = abandoned m ls tx
abandoned m (part ∷ ls) tx = abandoned m ls (record tx { cut = tx.cut + 1 })
abandoned m (copy ∷ ls) tx = abandoned m ls (record tx { sent = tx.sent ++ m ∷ [] })

abbrev pub dispatched : ℕ → Bytes → Tx → Result TransferError (Unit {0}) × List Left → Flow
dispatched task_id bytes tx (ok _, ls) =
    more (count_sent task_id bytes (abandoned (chunk_msg task_id tx.offset bytes) ls tx))
dispatched task_id bytes tx (err e, ls) =
    failed e (abandoned (chunk_msg task_id tx.offset bytes) ls tx)

-- The end of the file before its size is reached ends the loop.
abbrev pub on_bytes : ℕ → Round → Bytes → Tx → Flow
on_bytes task_id r [] tx = ended tx
on_bytes task_id r (b ∷ bs) tx = dispatched task_id (b ∷ bs) tx (await_send r.incoming r.sends)

module _ (whole : Bytes) (file_size chunk_size task_id : ℕ) where
  abbrev pub on_read : Round → Option ℕ → Tx → Flow
  on_read r none tx = failed (io read_failed) tx
  on_read r (some n) tx =
      on_bytes task_id r (take (min n (min (file_size - tx.offset) chunk_size)) (drop tx.pos whole))
        tx

  unfoldable pub round : Round → Tx → Flow
  unfolding count_sent await_send
  round r tx = if r.cancelled then failed cancelled_here tx else on_read r r.readable tx

  -- The loop over the rounds that have been played, while `offset < file_size`.
  unfoldable pub send_loop : List Round → Tx → Flow
  unfolding round
  send_loop [] tx = if ltb tx.offset file_size then more tx else ended tx
  send_loop (r ∷ rs) tx = elim (ltb tx.offset file_size) [
    | false ↦ ended tx
    | true ↦ elim (round r tx) [
      | more tx' ↦ send_loop rs tx'
      | ended tx' ↦ ended tx'
      | failed e tx' ↦ failed e tx'
    ]
  ]

  -- The offset of the Accept is cut to the file's size, and the file is read from there.
  unfoldable pub send_from : ℕ → List Round → Flow
  unfolding send_loop
  send_from accepted rounds =
      let resume_offset = if ltb file_size accepted then file_size else accepted in
      send_loop rounds (record {
        pos = resume_offset;
        offset = resume_offset;
        since_report = 0;
        sent = [];
        cut = 0;
        reports = [];
      })
