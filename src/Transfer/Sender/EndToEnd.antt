-- ===== src/Transfer/Sender/EndToEnd.antt =====
-- The chunks of the sender, delivered to the receiver: the receiver ends with the whole file.
use vnt_gui_dev.Prelude.{
  ℕ, ◌+◌, ◌≤◌, ◌<◌, ◌≡◌, refl, sym, ap, ◌∙◌, subst, false, List, [], ◌∷◌, arith, length, take, drop,
  take-length, All, ltb,
}
use vnt_gui_dev.Transfer.Protocol.{
  Bytes, FileOffer, FileChunk, FileComplete, FileMsg, chunk, complete,
}
use vnt_gui_dev.Transfer.Disk.{Disk, Handle}
use vnt_gui_dev.Transfer.Resumable.{write_chunk}
use vnt_gui_dev.Transfer.Resumable.Laws.{write_chunk_calm}
use vnt_gui_dev.Transfer.Receiver.{Rx, more, done, advance}
use vnt_gui_dev.Transfer.Receiver.Quic.{message, Turn, on_chunk, on_message, turn, receive_loop}
use vnt_gui_dev.Transfer.Receiver.Prefix.{Tracks, IsSound, content, chunk-IsSound}
use vnt_gui_dev.Transfer.Sender.{Round, Tx, ended, send_from}
use vnt_gui_dev.Transfer.Sender.Tiles.{Alone, Tiles, IsSending, send_loop-IsSending}
use vnt_gui_dev.Transfer.Sender.Finish.{Calm, send_loop-finishes}

-- The messages arrive one after another, with the receiver's cancel flag down.
abbrev pub deliver : List FileMsg → List Turn → List Turn
deliver [] rest = rest
deliver (m ∷ ms) rest = record { cancelled = false; arrival = message m } ∷ deliver ms rest

advanced :
    (n : ℕ) (rx : Rx)
    → ((advance n rx).received ≡ rx.received + n) × ((advance n rx).disk ≡ rx.disk)
unfolding advance
advanced n rx = ground arith

module _ (whole : Bytes) (offer : FileOffer) where
  -- The receiver's state after a chunk that fits, with no refused call.
  chunk_more :
      (header : FileChunk) (bytes : Bytes) (rx : Rx)
      → header.transfer_id ≡ offer.transfer_id
      → header.offset ≡ rx.received
      → rx.disk.faults ≡ []
      → (rx' : Rx) × (on_chunk offer header bytes rx ≡ more rx')
        × (rx'.received ≡ rx.received + length bytes)
        × (rx'.disk.faults ≡ [])
  unfolding on_chunk
  chunk_more header bytes rx same next calm =
      let d = (write_chunk bytes header.offset rx.file rx.disk).1 in
      let file : Handle = record rx.file { pos = header.offset + length bytes } in
      let w = write_chunk_calm bytes header.offset rx.file rx.disk calm in
      let a = advanced (length bytes) (record rx { disk = d; file = file }) in
      (
        advance (length bytes) (record rx { disk = d; file = file }),
        ground (arith, w.0),
        a.0,
        ap (λ (k : Disk). k.faults) a.1 ∙ w.1,
      )

  -- Chunks that lie side by side from what has been received on are all taken.
  deliver-Tiles :
      (b : ℕ) (ms : List FileMsg) (rest : List Turn) (rx : Rx)
      → Tiles whole offer.transfer_id rx.received b ms
      → Tracks whole rx
      → rx.disk.faults ≡ []
      → (rx' : Rx) × (receive_loop offer (deliver ms rest) rx ≡ receive_loop offer rest rx')
        × (rx'.received ≡ b)
        × Tracks whole rx'
  unfolding receive_loop turn on_message
  deliver-Tiles b [] rest rx t tracks calm = (rx, refl, t, tracks)
  deliver-Tiles b (chunk header bytes ∷ ms) rest rx t tracks calm =
      let (rx₁, e, got, calm₁) = chunk_more header bytes rx t.0 t.1 calm in
      let sound = subst (IsSound whole) e (
        chunk-IsSound whole offer header bytes rx tracks
          (λ _. t.2 ∙ ap (λ k. take (length bytes) (drop k whole)) (sym t.1))) in
      let (rx', e', at, tracks') =
        deliver-Tiles b ms rest rx₁
          (subst (λ k. Tiles whole offer.transfer_id k b ms) (sym got) t.3) sound calm₁ in
      (rx', rw (e, receive_loop) e', at, tracks')
  deliver-Tiles b (_ ∷ ms) rest rx t tracks calm = absurd t

complete_ends :
    (offer : FileOffer) (c : FileComplete) (rx : Rx)
    → receive_loop offer (deliver (complete c ∷ []) []) rx ≡ done rx
unfolding receive_loop turn on_message
complete_ends offer c rx = refl

-- Nothing arrives in calm rounds, so that no send is dropped.
Calm-Alone : (rounds : List Round) → All Calm rounds → All Alone rounds
Calm-Alone [] c = tt
Calm-Alone (r ∷ rs) c = (rw c.0.quiet, Calm-Alone rs c.1)

-- A transfer from the resume offset `r`, the receiver holding the first `r` bytes of the file and
-- no call or send being refused: with as many rounds as bytes that are left, the sender's loop
-- comes to the end of the file, and its messages, followed by Complete, take the receiver's loop
-- to its end with the whole file in the partial file.
pub transfer_completes :
    (whole : Bytes) (offer : FileOffer) (chunk_size r : ℕ) (rounds : List Round) (c : FileComplete)
    (rx : Rx)
    → 0 < chunk_size
    → All Calm rounds
    → r ≤ length whole
    → length whole ≤ r + length rounds
    → Tracks whole rx
    → rx.received ≡ r
    → rx.disk.faults ≡ []
    → (tx : Tx) × (rx' : Rx) × (send_from whole (length whole) chunk_size offer.transfer_id r rounds
        ≡ ended tx)
      × (receive_loop offer (deliver tx.sent (deliver (complete c ∷ []) [])) rx ≡ done rx')
      × (content rx' ≡ whole)
      × (rx'.received ≡ length whole)
unfolding send_from
transfer_completes whole offer chunk_size r rounds c rx pos calm le fuel tracks got nf =
    let not_cut : ltb (length whole) r ≡ false = ground arith in
    let start : Tx = record {
      pos = r;
      offset = r;
      since_report = 0;
      sent = [];
      cut = 0;
      reports = [];
    } in
    let (tx, e, at_end) =
      send_loop-finishes whole chunk_size offer.transfer_id pos rounds start calm refl le fuel in
    let sending =
      send_loop-IsSending whole (length whole) chunk_size offer.transfer_id r rounds start
        (Calm-Alone rounds calm) (record { position = refl; bounded = le; tiled = refl }) in
    let sends = subst (IsSending whole (length whole) chunk_size offer.transfer_id r) e sending in
    let (rx', e', at, tracks') =
      deliver-Tiles whole offer tx.offset tx.sent (deliver (complete c ∷ []) []) rx
        (subst (λ k. Tiles whole offer.transfer_id k tx.offset tx.sent) (sym got) sends.tiled)
        tracks nf in
    (
      tx,
      rx',
      rw not_cut e,
      e' ∙ complete_ends offer c rx',
      tracks'.prefix ∙ ap (λ k. take k whole) (at ∙ at_end) ∙ take-length whole,
      at ∙ at_end,
    )
