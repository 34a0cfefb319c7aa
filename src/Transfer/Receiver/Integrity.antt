-- ===== src/Transfer/Receiver/Integrity.antt =====
-- A file gets its final name only after its content has passed the hash check.
use text.Mathlib.TextLemmas.{length-append as count-append}
use Prim.Native.String.{◌++◌ as ◌<>◌, count}
use vnt_gui_dev.Prelude.{
  ℕ, ◌+◌, ◌≡◌, ◌≢◌, refl, ap, ◌∙◌, String, true, List, [], ◌∷◌, ◌++◌, arith, Result, ok, err, some,
  eq_iff, str_eq, Bool-cases, inl, inr,
}
use vnt_gui_dev.Transfer.Protocol.{Bytes, FileOffer}
use vnt_gui_dev.Transfer.Disk.{Disk, Handle, IoError, read_all}
use vnt_gui_dev.Transfer.Resumable.{finalize}
use vnt_gui_dev.Transfer.Resumable.Laws.{finalize_ok}
use vnt_gui_dev.Transfer.Receiver.{ReceivePlan, partial_for, Rx, Flow, more, done, failed}
use vnt_gui_dev.Transfer.Receiver.Quic.{
  Turn, told, resumed, opened, checked, finalized, after_loop, receive_quic,
}

-- The partial file of a path is another file.
pub partial_for-ne : (save_path : String) → partial_for save_path ≢ save_path
unfolding partial_for
partial_for-ne save_path e =
    let longer : count (save_path <> ".partial") ≡ count save_path + 8 =
      count-append save_path ".partial" in
    absurd (omega (arith, ap count e))

-- The file at `save_path` has a content with this hash.
abbrev pub HasHash : (Bytes → String) → String → String → Disk → Type 0
HasHash hash_hex expected save_path d =
    (c : Bytes) × (d.files save_path ≡ some c) × (hash_hex c ≡ expected)

renamed-HasHash :
    (hash_hex : Bytes → String) (expected save_path : String) (c : Bytes) (u : Unit {0}) (d : Disk)
    → d.files (partial_for save_path) ≡ some c
    → hash_hex c ≡ expected
    → (finalize (partial_for save_path) save_path d).0 ≡ ok u
    → HasHash hash_hex expected save_path (finalize (partial_for save_path) save_path d).1
renamed-HasHash hash_hex expected save_path c u d p q h =
    let moved = finalize_ok (partial_for save_path) save_path u d (partial_for-ne save_path) h in
    (c, moved.0 ∙ p, q)

-- What a successful read has read, and that it changes no file.
pub read_all_ok :
    (path : String) (c : Bytes) (d : Disk)
    → (read_all path d).0 ≡ ok c
    → (read_all path d).1.files path ≡ some c
read_all_ok path c d h = ground arith

module _ (hash_hex : Bytes → String) (offer : FileOffer) (save_path : String) where
  finalized_integrity :
      (rx : Rx) (n : ℕ) (c : Bytes) (d : Disk)
      → d.files (partial_for save_path) ≡ some c
      → hash_hex c ≡ offer.file_hash_hex
      → (finalized rx (finalize (partial_for save_path) save_path d)).result ≡ some (ok n)
      → HasHash hash_hex offer.file_hash_hex save_path
          (finalized rx (finalize (partial_for save_path) save_path d)).rx.disk
  finalized_integrity rx n c d p q h =
      go (finalize (partial_for save_path) save_path d).0
        (finalize (partial_for save_path) save_path d).1
        (λ u e. renamed-HasHash hash_hex offer.file_hash_hex save_path c u d p q e) h
    where
      go :
          (r : Result IoError (Unit {0})) (d' : Disk)
          → ((u : Unit {0}) → r ≡ ok u → HasHash hash_hex offer.file_hash_hex save_path d')
          → (finalized rx (r, d')).result ≡ some (ok n)
          → HasHash hash_hex offer.file_hash_hex save_path (finalized rx (r, d')).rx.disk
      go (ok u) d' k h' = k u refl
      go (err e) d' k h' = cc

  checked_integrity :
      (rx : Rx) (n : ℕ) (r : Result IoError Bytes) (d : Disk)
      → ((c : Bytes) → r ≡ ok c → d.files (partial_for save_path) ≡ some c)
      → (checked hash_hex offer save_path rx (r, d)).result ≡ some (ok n)
      → HasHash hash_hex offer.file_hash_hex save_path
          (checked hash_hex offer save_path rx (r, d)).rx.disk
  checked_integrity rx n (err e) d read h = cc
  checked_integrity rx n (ok c) d read h =
      elim (Bool-cases (str_eq (hash_hex c) offer.file_hash_hex)) [
        | inl same ↦ rw same (
            finalized_integrity (told offer (hash_hex c) true d rx) n c d (read c refl)
              ((eq_iff _ _).0 same) (rw same at h))
        | inr differ ↦ cc (rw differ at h)
      ]

  after_loop_integrity :
      (f : Flow) (n : ℕ)
      → (after_loop hash_hex offer save_path f).result ≡ some (ok n)
      → HasHash hash_hex offer.file_hash_hex save_path
          (after_loop hash_hex offer save_path f).rx.disk
  unfolding after_loop
  after_loop_integrity (more rx) n h = cc
  after_loop_integrity (failed e rx) n h = cc
  after_loop_integrity (done rx) n h =
      checked_integrity (record rx { reports = rx.reports ++ rx.received ∷ [] }) n
        (read_all (partial_for save_path) rx.disk).0 (read_all (partial_for save_path) rx.disk).1
        (λ c e. read_all_ok (partial_for save_path) c rx.disk e) h

  opened_integrity :
      (turns : List Turn) (r n : ℕ) (o : Result IoError Handle) (d : Disk)
      → (opened hash_hex offer save_path turns r (o, d)).result ≡ some (ok n)
      → HasHash hash_hex offer.file_hash_hex save_path
          (opened hash_hex offer save_path turns r (o, d)).rx.disk
  opened_integrity turns r n (err e) d h = cc
  opened_integrity turns r n (ok file) d h = after_loop_integrity _ n h

  resumed_integrity :
      (turns : List Turn) (n : ℕ) (o : Result IoError ℕ) (d : Disk)
      → (resumed hash_hex offer save_path turns (o, d)).result ≡ some (ok n)
      → HasHash hash_hex offer.file_hash_hex save_path
          (resumed hash_hex offer save_path turns (o, d)).rx.disk
  resumed_integrity turns n (err e) d h = cc
  resumed_integrity turns n (ok r) d h = opened_integrity turns r n _ _ h

-- When receive_quic succeeds, whatever the sender did and whichever calls the system refused, the
-- file at the save path is there and its hash is the one that was offered.
pub receive_quic_integrity :
    (hash_hex : Bytes → String) (plan : ReceivePlan) (save_path : String) (turns : List Turn)
    (d : Disk) (n : ℕ)
    → (receive_quic hash_hex plan save_path turns d).result ≡ some (ok n)
    → HasHash hash_hex plan.offer.file_hash_hex save_path
        (receive_quic hash_hex plan save_path turns d).rx.disk
unfolding receive_quic
receive_quic_integrity hash_hex plan save_path turns d n h =
    resumed_integrity hash_hex plan.offer save_path turns n _ _ h
