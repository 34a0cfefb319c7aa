-- ===== src/Transfer/Receiver/Prefix.antt =====
-- The QUIC loop keeps a prefix of the file in the partial file.
use vnt_gui_dev.Prelude.{
  ℕ, ◌+◌, ◌≡◌, refl, sym, ap, ◌∙◌, Bool, true, false, List, [], ◌∷◌, ◌++◌, arith, length, take,
  drop, Result, ok, err, inl, inr, Bool-cases, ◌==◌, ==→eq, All, length-append, ◌⊎◌,
}
use vnt_gui_dev.Transfer.Protocol.{Bytes, FileOffer, FileChunk, FileMsg, chunk, complete, cancel}
use vnt_gui_dev.Transfer.Disk.{Disk, Handle, IoError, or_empty, splice}
use vnt_gui_dev.Transfer.Disk.Laws.{splice_at_end, take-add}
use vnt_gui_dev.Transfer.Resumable.{write_chunk}
use vnt_gui_dev.Transfer.Resumable.Laws.{write_chunk_ok, write_chunk_cases}
use vnt_gui_dev.Transfer.Receiver.{Rx, Flow, more, done, failed, advance}
use vnt_gui_dev.Transfer.Receiver.Quic.{
  Arrival, message, lost, tick, Turn, wrote, on_chunk, on_message, turn, receive_loop,
}

-- The content of the open file.
abbrev pub content : Rx → Bytes
content rx = or_empty (rx.disk.files rx.file.path)

-- The partial file holds exactly the first `received` bytes of `whole`.
pub record Tracks (whole : Bytes) (rx : Rx) : Type 0 where
  pub prefix : content rx ≡ take rx.received whole
  pub measured : length (content rx) ≡ rx.received

-- The partial file holds some first bytes of `whole`.
abbrev pub HoldsPrefix : Bytes → Rx → Type 0
HoldsPrefix whole rx = (n : ℕ) × (content rx ≡ take n whole)

-- A message is honest about `whole`: a chunk of this transfer carries the bytes at its offset.
abbrev pub IsHonest : Bytes → FileOffer → FileMsg → Type 0
IsHonest whole offer (chunk header bytes) =
    header.transfer_id ≡ offer.transfer_id → bytes ≡ take (length bytes) (drop header.offset whole)
IsHonest whole offer _ = Unit

abbrev pub HonestTurn : Bytes → FileOffer → Turn → Type 0
HonestTurn whole offer t = elim t.arrival [ message m ↦ IsHonest whole offer m | _ ↦ Unit ]

abbrev pub IsSound : Bytes → Flow → Type 0
IsSound whole (more rx) = Tracks whole rx
IsSound whole (done rx) = Tracks whole rx
IsSound whole (failed e rx) = HoldsPrefix whole rx

Tracks-HoldsPrefix : {whole : Bytes} {rx : Rx} → Tracks whole rx → HoldsPrefix whole rx
Tracks-HoldsPrefix {rx = rx} h = (rx.received, h.prefix)

appended :
    (whole bytes old : Bytes) (n : ℕ)
    → old ≡ take n whole
    → length old ≡ n
    → bytes ≡ take (length bytes) (drop n whole)
    → splice n bytes old ≡ take (n + length bytes) whole
appended whole bytes old n p q r =
    splice_at_end n bytes old q
    ∙ ap (λ t. t ++ bytes) p
    ∙ ap (λ t. take n whole ++ t) r
    ∙ sym (take-add n (length bytes) whole)

appended_length :
    (bytes old : Bytes) (n : ℕ) → length old ≡ n → length (splice n bytes old) ≡ n + length bytes
appended_length bytes old n q =
    rw (splice_at_end n bytes old q) (omega (arith, length-append old bytes))

wrote-IsSound :
    (whole bytes : Bytes) (rx : Rx) (r : Result IoError Handle) (disk : Disk)
    → Tracks whole rx
    → bytes ≡ take (length bytes) (drop rx.received whole)
    → ((file : Handle)
        → r ≡ ok file
        → (file.path ≡ rx.file.path)
          × (or_empty (disk.files rx.file.path) ≡ splice rx.received bytes (content rx)))
    → (or_empty (disk.files rx.file.path) ≡ content rx)
      ⊎ (or_empty (disk.files rx.file.path) ≡ splice rx.received bytes (content rx))
    → IsSound whole (wrote (length bytes) rx (r, disk))
unfolding advance
wrote-IsSound whole bytes rx (ok file) disk h honest ends either =
    let facts = ends file refl in
    let grown = appended whole bytes (content rx) rx.received h.prefix h.measured honest in
    let longer = appended_length bytes (content rx) rx.received h.measured in
    ground (arith, ap (λ p. or_empty (disk.files p)) facts.0)
wrote-IsSound whole bytes rx (err e) disk h honest ends (inl same) = (rx.received, same ∙ h.prefix)
wrote-IsSound whole bytes rx (err e) disk h honest ends (inr new) = (
  rx.received + length bytes,
  new ∙ appended whole bytes (content rx) rx.received h.prefix h.measured honest,
)

pub chunk-IsSound :
    (whole : Bytes) (offer : FileOffer) (header : FileChunk) (bytes : Bytes) (rx : Rx)
    → Tracks whole rx
    → (header.transfer_id ≡ offer.transfer_id
        → bytes ≡ take (length bytes) (drop header.offset whole))
    → IsSound whole (on_chunk offer header bytes rx)
unfolding on_chunk
chunk-IsSound whole offer header bytes rx h honest =
    elim (Bool-cases (header.transfer_id == offer.transfer_id)) [
      | inl same ↦ elim (Bool-cases (header.offset == rx.received)) [
        | inl next ↦
            let at = ==→eq header.offset rx.received next in
            rw (same, next, at)
              (wrote-IsSound whole bytes rx (write_chunk bytes rx.received rx.file rx.disk).0
                (write_chunk bytes rx.received rx.file rx.disk).1 h
                (rw at at (honest (==→eq _ _ same)))
                (λ file e. write_chunk_ok bytes rx.received rx.file file rx.disk e)
                (write_chunk_cases bytes rx.received rx.file rx.disk))
        | inr other ↦ rw (same, other) (ground (arith, Tracks-HoldsPrefix h))
      ]
      | inr foreign ↦ rw foreign h
    ]

message-IsSound :
    (whole : Bytes) (offer : FileOffer) (m : FileMsg) (rx : Rx)
    → Tracks whole rx
    → IsHonest whole offer m
    → IsSound whole (on_message offer m rx)
unfolding on_message
message-IsSound whole offer (chunk header bytes) rx h honest =
    chunk-IsSound whole offer header bytes rx h honest
message-IsSound whole offer (complete c) rx h honest = h
message-IsSound whole offer (cancel c) rx h honest = Tracks-HoldsPrefix h
message-IsSound whole offer _ rx h honest = h

turn-IsSound :
    (whole : Bytes) (offer : FileOffer) (cancelled : Bool) (arrival : Arrival) (rx : Rx)
    → Tracks whole rx
    → HonestTurn whole offer (record { cancelled = cancelled; arrival = arrival })
    → IsSound whole (turn offer (record { cancelled = cancelled; arrival = arrival }) rx)
unfolding turn
turn-IsSound whole offer true arrival rx h honest = Tracks-HoldsPrefix h
turn-IsSound whole offer false (message m) rx h honest = message-IsSound whole offer m rx h honest
turn-IsSound whole offer false lost rx h honest = Tracks-HoldsPrefix h
turn-IsSound whole offer false (tick true) rx h honest = Tracks-HoldsPrefix h
turn-IsSound whole offer false (tick false) rx h honest = h

-- Whatever rounds are played with a sender that is honest about `whole`: while the loop runs and
-- when it ends by Complete, the partial file holds exactly the first `received` bytes of `whole`;
-- when it fails, some first bytes of it.
pub receive_loop-IsSound :
    (whole : Bytes) (offer : FileOffer) (turns : List Turn) (rx : Rx)
    → Tracks whole rx
    → All (HonestTurn whole offer) turns
    → IsSound whole (receive_loop offer turns rx)
unfolding receive_loop
receive_loop-IsSound whole offer [] rx h honest = h
receive_loop-IsSound whole offer (t ∷ ts) rx h honest =
    go (turn offer t rx) (turn-IsSound whole offer t.cancelled t.arrival rx h honest.0)
      (λ rx' h'. receive_loop-IsSound whole offer ts rx' h' honest.1)
  where
    go :
        (f : Flow)
        → IsSound whole f
        → ((rx' : Rx) → Tracks whole rx' → IsSound whole (receive_loop offer ts rx'))
        → IsSound whole (elim f [
          | more rx' ↦ receive_loop offer ts rx'
          | done rx' ↦ done rx'
          | failed e rx' ↦ failed e rx'
        ])
    go (more rx') s ih = ih rx' s
    go (done rx') s ih = s
    go (failed e rx') s ih = s
