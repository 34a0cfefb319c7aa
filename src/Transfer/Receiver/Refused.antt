-- ===== src/Transfer/Receiver/Refused.antt =====
-- Why a resumed transfer of receive_tcp does not succeed.
use vnt_gui_dev.Prelude.{
  ℕ, ◌-◌, ◌<◌, ◌≡◌, ◌≢◌, sym, ap, ◌∙◌, String, List, [], ◌++◌, arith, length, take, drop, Result,
  ok, some, length-append, length-drop, length-take, take-append, drop-append, take-length,
}
use vnt_gui_dev.Transfer.Protocol.{Bytes, FileOffer}
use vnt_gui_dev.Transfer.Disk.{Disk, IoError, or_empty}
use vnt_gui_dev.Transfer.Resumable.Laws.{validate_resume_keeps}
use vnt_gui_dev.Transfer.Receiver.{partial_for}
use vnt_gui_dev.Transfer.Receiver.Tcp.{Turn, receive_tcp}
use vnt_gui_dev.Transfer.Receiver.Overwrite.{receive_tcp_assembles}

ok_inj : {a b : ℕ} → ◌≡◌ {A = Result IoError ℕ} (ok a) (ok b) → a ≡ b
ok_inj e = ground arith

overlaid :
    (sha : Bytes → Bytes) (hex : Bytes → String) (stream : Bytes) {old old' : Bytes} {n m : ℕ}
    → n ≡ m
    → old ≡ old'
    → hex (sha (take n stream ++ drop n old)) ≡ hex (take 32 (drop n stream))
    → hex (sha (take m stream ++ drop m old')) ≡ hex (take 32 (drop m stream))
overlaid sha hex stream e f h = rw (← e, ← f) h

shorter_than_whole :
    (whole : Bytes) (r : ℕ)
    → 0 < r
    → r < length whole
    → drop r whole ++ drop (length whole - r) (take r whole) ≢ whole
shorter_than_whole whole r pos lt e = absurd (
    omega (
      arith,
      ap length e,
      length-append (drop r whole) (drop (length whole - r) (take r whole)),
      length-drop r whole,
      length-drop (length whole - r) (take r whole),
      length-take r whole (omega arith),
    ))

-- The hash check of a resumed transfer compares the overlay with the whole.
overlay_is_whole :
    (sha : Bytes → Bytes) (hex : Bytes → String) (whole old : Bytes) (r size : ℕ)
    → length (drop r whole) ≡ size
    → length (sha whole) ≡ 32
    → ((c : Bytes) → hex (sha c) ≡ hex (sha whole) → c ≡ whole)
    → hex (sha (take size (drop r whole ++ sha whole) ++ drop size old))
      ≡ hex (take 32 (drop size (drop r whole ++ sha whole)))
    → drop r whole ++ drop size old ≡ whole
overlay_is_whole sha hex whole old r size len digest injective h =
    let first : take size (drop r whole ++ sha whole) ≡ drop r whole =
      ap (λ k. take k (drop r whole ++ sha whole)) (sym len)
      ∙ take-append (drop r whole) (sha whole) in
    let then_digest : drop size (drop r whole ++ sha whole) ≡ sha whole =
      ap (λ k. drop k (drop r whole ++ sha whole)) (sym len)
      ∙ drop-append (drop r whole) (sha whole) in
    let all_32 : take 32 (sha whole) ≡ sha whole =
      ap (λ k. take k (sha whole)) (sym digest) ∙ take-length (sha whole) in
    injective (drop r whole ++ drop size old) (
      ap (λ t. hex (sha (t ++ drop size old))) (sym first)
      ∙ h
      ∙ ap (λ t. hex (take 32 t)) then_digest
      ∙ ap hex all_32)

-- A resumed TCP transfer never succeeds: the partial file holds the first `r` bytes of `whole`,
-- for an `r` strictly between 0 and its length, the sender puts the rest of `whole` and then the
-- 32 bytes of its hash into the stream, no other content has that hash in print, and the system
-- refuses no call. Whatever rounds are played, the result is no success.
pub resumed_tcp_fails :
    (sha : Bytes → Bytes) (hex : Bytes → String) (offer : FileOffer) (save_path : String)
    (turns : List Turn) (whole : Bytes) (r n : ℕ) (d : Disk)
    → 0 < r
    → r < length whole
    → offer.file_size ≡ length whole
    → d.faults ≡ []
    → d.files (partial_for save_path) ≡ some (take r whole)
    → length (sha whole) ≡ 32
    → ((c : Bytes) → hex (sha c) ≡ hex (sha whole) → c ≡ whole)
    → (receive_tcp sha hex offer save_path turns (drop r whole ++ sha whole) d).result ≢ some (ok n)
resumed_tcp_fails sha hex offer save_path turns whole r n d pos lt size calm held digest injective
      h =
    let kept =
      validate_resume_keeps (partial_for save_path) offer.file_size (take r whole) d calm held
        (omega (arith, length-take r whole (omega arith))) in
    let (r', e, a) =
      receive_tcp_assembles sha hex offer save_path turns (drop r whole ++ sha whole) d n h in
    let same_r : r' ≡ r = ok_inj (sym e ∙ kept.0) ∙ length-take r whole (omega arith) in
    let same_size : offer.file_size - r' ≡ length whole - r = omega (arith, same_r) in
    shorter_than_whole whole r pos lt (
      overlay_is_whole sha hex whole (take r whole) r (length whole - r) (length-drop r whole)
        digest injective
        (overlaid sha hex (drop r whole ++ sha whole) same_size (ap or_empty kept.1) a.hashed))
