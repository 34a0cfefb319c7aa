-- ===== src/Transfer/Receiver/Overwrite.antt =====
-- What receive_tcp leaves when it succeeds.
use vnt_gui_dev.Prelude.{
  ℕ, ◌-◌, ◌≡◌, refl, sym, ap, ◌∙◌, String, List, ◌++◌, arith, length, take, drop, Result, ok, err,
  some, eq_iff, str_eq, Bool-cases, inl, inr, leb,
}
use vnt_gui_dev.Transfer.Protocol.{Bytes, FileOffer}
use vnt_gui_dev.Transfer.Disk.{Disk, Handle, IoError, or_empty, read_all, flush}
use vnt_gui_dev.Transfer.Resumable.{validate_resume, finalize, open_partial}
use vnt_gui_dev.Transfer.Resumable.Laws.{finalize_ok}
use vnt_gui_dev.Transfer.Receiver.{partial_for}
use vnt_gui_dev.Transfer.Receiver.Integrity.{partial_for-ne, read_all_ok}
use vnt_gui_dev.Transfer.Receiver.Tcp.{
  Turn, TcpRx, Outcome, going, complete, broke, receive_loop, read_exact_n, start, finalized,
  checked, trailer, flushed, after_loop, opened, resumed, receive_tcp,
}
use vnt_gui_dev.Transfer.Receiver.Resume.{Writes, LoopWrites, receive_loop-LoopWrites}

-- The file at `save_path` after a transfer that put `size` bytes of `stream` over `old`.
pub record Assembled (save_path : String) (print hex : Bytes → String) (old stream : Bytes)
    (size : ℕ) (d : Disk) : Type 0 where
  pub file : d.files save_path ≡ some (take size stream ++ drop size old)
  pub hashed : print (take size stream ++ drop size old) ≡ hex (take 32 (drop size stream))

read_all_content :
    (path : String) (c : Bytes) (d : Disk)
    → (read_all path d).0 ≡ ok c
    → or_empty (d.files path) ≡ c
read_all_content path c d h = ground arith

flush_content :
    (path : String) (file : Handle) (d : Disk)
    → or_empty ((flush file d).1.files path) ≡ or_empty (d.files path)
flush_content path file d = ground arith

-- An opened partial file is at position 0 and has the content that was there.
open_partial_ok :
    (path : String) (file : Handle) (d : Disk)
    → (open_partial path d).0 ≡ ok file
    → (file.path ≡ path)
      × (file.pos ≡ 0)
      × (or_empty ((open_partial path d).1.files path) ≡ or_empty (d.files path))
unfolding open_partial
open_partial_ok path file d h = ground (arith, eq_iff path path)

module _ (sha : Bytes → Bytes) (hex : Bytes → String) (save_path : String) where
  finalized_keeps :
      (received n : ℕ) (c : Bytes) (d : Disk)
      → d.files (partial_for save_path) ≡ some c
      → (finalized received (finalize (partial_for save_path) save_path d)).result ≡ some (ok n)
      → (finalized received (finalize (partial_for save_path) save_path d)).disk.files save_path
        ≡ some c
  finalized_keeps received n c d p h =
      go (finalize (partial_for save_path) save_path d).0
        (finalize (partial_for save_path) save_path d).1
        (λ u e.
          (finalize_ok (partial_for save_path) save_path u d (partial_for-ne save_path) e).0 ∙ p)
        h
    where
      go :
          (r : Result IoError (Unit {0})) (d' : Disk)
          → ((u : Unit {0}) → r ≡ ok u → d'.files save_path ≡ some c)
          → (finalized received (r, d')).result ≡ some (ok n)
          → (finalized received (r, d')).disk.files save_path ≡ some c
      go (ok u) d' k h' = k u refl
      go (err e) d' k h' = cc

  -- The content that is renamed, and what it was compared with.
  abbrev Kept : Bytes → Bytes → Disk → Type 0
  Kept content hash_bytes d =
      (d.files save_path ≡ some content) × (hex (sha content) ≡ hex hash_bytes)

  checked_keeps :
      (received n : ℕ) (content hash_bytes : Bytes) (r : Result IoError Bytes) (d : Disk)
      → ((c : Bytes) → r ≡ ok c → (d.files (partial_for save_path) ≡ some c) × (content ≡ c))
      → (checked sha hex save_path received hash_bytes (r, d)).result ≡ some (ok n)
      → Kept content hash_bytes (checked sha hex save_path received hash_bytes (r, d)).disk
  checked_keeps received n content hash_bytes (err e) d read h = cc
  checked_keeps received n content hash_bytes (ok c) d read h =
      elim (Bool-cases (str_eq (hex (sha c)) (hex hash_bytes))) [
        | inl same ↦
            rw (same, (read c refl).1)
              (finalized_keeps received n c d (read c refl).0 (rw same at h), (eq_iff _ _).0 same)
        | inr differ ↦ cc (rw differ at h)
      ]

  trailer_keeps :
      (received n : ℕ) (stream : Bytes) (d : Disk)
      → (trailer sha hex save_path received d (read_exact_n 32 stream)).result ≡ some (ok n)
      → Kept
          (or_empty (d.files (partial_for save_path)))
          (take 32 stream)
          (trailer sha hex save_path received d (read_exact_n 32 stream)).disk
  unfolding read_exact_n
  trailer_keeps received n stream d h = elim (Bool-cases (leb 32 (length stream))) [
    | inl enough ↦ rw enough (
        checked_keeps received n _ (take 32 stream) _ _
          (λ c e. (read_all_ok _ c d e, read_all_content _ c d e)) (rw enough at h))
    | inr short ↦ cc (rw short at h)
  ]

  flushed_keeps :
      (n : ℕ) (s : TcpRx) (r : Result IoError (Unit {0})) (d : Disk)
      → (flushed sha hex save_path s (r, d)).result ≡ some (ok n)
      → Kept
          (or_empty (d.files (partial_for save_path)))
          (take 32 s.stream)
          (flushed sha hex save_path s (r, d)).disk
  flushed_keeps n s (err e) d h = cc
  flushed_keeps n s (ok u) d h = trailer_keeps s.rx.received n s.stream d h

  after_loop_assembles :
      (old stream : Bytes) (size r n : ℕ) (o : Outcome)
      → LoopWrites (partial_for save_path) old stream size r o
      → (after_loop sha hex save_path o).result ≡ some (ok n)
      → Assembled save_path
          (λ c. hex (sha c))
          hex
          old
          stream
          size
          (after_loop sha hex save_path o).disk
  unfolding after_loop
  after_loop_assembles old stream size r n (going s) w h = cc
  after_loop_assembles old stream size r n (broke e s) w h = cc
  after_loop_assembles old stream size r n (complete s) (w, z) h =
      let kept = flushed_keeps n s (flush s.rx.file s.rx.disk).0 (flush s.rx.file s.rx.disk).1 h in
      let whole_count : w.count ≡ size = omega arith in
      let content =
        flush_content (partial_for save_path) s.rx.file s.rx.disk
        ∙ ap (λ q. or_empty (s.rx.disk.files q)) (sym w.opened_at)
        ∙ w.holds
        ∙ ap (λ m. take m stream ++ drop m old) whole_count in
      record {
        file = kept.0 ∙ ap some content;
        hashed =
            ap (λ c. hex (sha c)) (sym content)
            ∙ kept.1
            ∙ ap (λ t. hex (take 32 t)) (w.rest ∙ ap (λ m. drop m stream) whole_count);
      }

  start-Writes :
      (old stream : Bytes) (size r : ℕ) (file : Handle) (d : Disk)
      → file.path ≡ partial_for save_path
      → file.pos ≡ 0
      → or_empty (d.files (partial_for save_path)) ≡ old
      → Writes (partial_for save_path) old stream size r (start d file r size stream)
  start-Writes old stream size r file d p z c = record {
    count = 0;
    within = omega arith;
    holds = ap (λ q. or_empty (d.files q)) p ∙ c;
    position = z;
    opened_at = p;
    rest = refl;
    remaining = omega arith;
    received = omega arith;
  }

  opened_assembles :
      (offer : FileOffer) (turns : List Turn) (old stream : Bytes) (r n : ℕ)
      (o : Result IoError Handle) (d : Disk)
      → ((file : Handle)
          → o ≡ ok file
          → (file.path ≡ partial_for save_path)
            × (file.pos ≡ 0)
            × (or_empty (d.files (partial_for save_path)) ≡ old))
      → (opened sha hex offer save_path turns stream r (o, d)).result ≡ some (ok n)
      → Assembled save_path
          (λ c. hex (sha c))
          hex
          old
          stream
          (offer.file_size - r)
          (opened sha hex offer save_path turns stream r (o, d)).disk
  opened_assembles offer turns old stream r n (err e) d facts h = cc
  opened_assembles offer turns old stream r n (ok file) d facts h =
      let f = facts file refl in
      let size : ℕ = offer.file_size - r in
      after_loop_assembles old stream size r n
        (receive_loop offer turns (start d file r size stream))
        (receive_loop-LoopWrites (partial_for save_path) old stream size r offer turns
          (start d file r size stream) (start-Writes old stream size r file d f.0 f.1 f.2))
        h

  resumed_assembles :
      (offer : FileOffer) (turns : List Turn) (stream : Bytes) (n : ℕ) (o : Result IoError ℕ)
      (d : Disk)
      → (resumed sha hex offer save_path turns stream (o, d)).result ≡ some (ok n)
      → (r : ℕ) × (o ≡ ok r)
        × Assembled save_path
            (λ c. hex (sha c))
            hex
            (or_empty (d.files (partial_for save_path)))
            stream
            (offer.file_size - r)
            (resumed sha hex offer save_path turns stream (o, d)).disk
  resumed_assembles offer turns stream n (err e) d h = cc
  resumed_assembles offer turns stream n (ok r) d h = (
    r,
    refl,
    opened_assembles offer turns (or_empty (d.files (partial_for save_path))) stream r n _ _
        (λ file e. open_partial_ok (partial_for save_path) file d e) h,
  )

-- When receive_tcp succeeds, with a resume offset `r`, the saved file is the first
-- `file_size - r` bytes of the stream, followed by what the old partial file held beyond that
-- length; and the 32 bytes of the stream after those are, in print, its hash.
pub receive_tcp_assembles :
    (sha : Bytes → Bytes) (hex : Bytes → String) (offer : FileOffer) (save_path : String)
    (turns : List Turn) (stream : Bytes) (d : Disk) (n : ℕ)
    → (receive_tcp sha hex offer save_path turns stream d).result ≡ some (ok n)
    → (r : ℕ) × ((validate_resume (partial_for save_path) offer.file_size d).0 ≡ ok r)
      × Assembled save_path
          (λ c. hex (sha c))
          hex
          (or_empty (
            (validate_resume (partial_for save_path) offer.file_size d).1.files
              (partial_for save_path)))
          stream
          (offer.file_size - r)
          (receive_tcp sha hex offer save_path turns stream d).disk
unfolding receive_tcp
receive_tcp_assembles sha hex offer save_path turns stream d n h =
    resumed_assembles sha hex save_path offer turns stream n _ _ h
