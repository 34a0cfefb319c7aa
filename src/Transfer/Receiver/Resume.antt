-- ===== src/Transfer/Receiver/Resume.antt =====
-- What the TCP loop makes of the partial file. It writes from the start of the file, whatever the
-- resume offset is, since the file is opened at position 0 and nothing seeks.
use vnt_gui_dev.Prelude.{
  drop-add, ℕ, suc, ◌+◌, ◌≤◌, ◌≡◌, sym, ap, ◌∙◌, String, Bool, true, false, List, [], ◌∷◌, ◌++◌,
  append_assoc, arith, length, take, drop, Result, ok, err, eq_iff, Bool-cases, inl, inr, min,
  length-drop, length-take, ==→eq, ◌==◌, ◌⊎◌,
}
use vnt_gui_dev.Transfer.Protocol.{Bytes, FileOffer}
use vnt_gui_dev.Transfer.Disk.{Disk, Handle, IoError, write_failed, or_empty, splice, write_all}
use vnt_gui_dev.Transfer.Disk.Laws.{
  splice_over, take-add, take-length-take, drop-length-take, length-take-le, length-take-le-length,
}
use vnt_gui_dev.Transfer.Receiver.{advance}
use vnt_gui_dev.Transfer.Receiver.Tcp.{
  Arrival, readable, broken, tick, Turn, TcpRx, Flow, more, failed, wrote, on_bytes, turn, Outcome,
  going, complete, broke, receive_loop, read_buffer_size,
}

-- The content of the open file.
abbrev pub tcp_content : TcpRx → Bytes
tcp_content s = or_empty (s.rx.disk.files s.rx.file.path)

-- `count` bytes of the stream have been written over the start of the old content.
pub record Writes (path : String) (old stream : Bytes) (size start : ℕ) (s : TcpRx) : Type 0 where
  pub count : ℕ
  pub within : count ≤ length stream
  pub holds : tcp_content s ≡ take count stream ++ drop count old
  pub position : s.rx.file.pos ≡ count
  pub opened_at : s.rx.file.path ≡ path
  pub rest : s.stream ≡ drop count stream
  pub remaining : s.file_remaining + count ≡ size
  pub received : s.rx.received ≡ start + count

write_all_ok :
    (bytes : Bytes) (file : Handle) (d : Disk)
    → ((write_all bytes file d).0 ≡ err write_failed)
      ⊎ ((write_all bytes file d).0 ≡ ok (record file { pos = file.pos + length bytes }))
        × (or_empty ((write_all bytes file d).1.files file.path)
            ≡ splice file.pos bytes (or_empty (d.files file.path)))
write_all_ok bytes file d = ground (arith, eq_iff file.path file.path)

module _ (path : String) (old stream : Bytes) (size start : ℕ) where
  -- The bytes of one read, written behind those that are there.
  grown :
      (count n : ℕ) (content : Bytes)
      → count ≤ length stream
      → content ≡ take count stream ++ drop count old
      → splice count (take n (drop count stream)) content
        ≡ take (count + length (take n (drop count stream))) stream
          ++ drop (count + length (take n (drop count stream))) old
  grown count n content le p =
      let b : Bytes = take n (drop count stream) in
      let m : ℕ = length b in
      ap (λ c. splice count b c) p
      ∙ splice_over count b (take count stream) (drop count old) (length-take count stream le)
      ∙ ap (λ t. take count stream ++ (b ++ t)) (sym (drop-add count m old))
      ∙ sym (append_assoc (take count stream) b (drop (count + m) old))
      ∙ ap (λ t. (take count stream ++ t) ++ drop (count + m) old)
          (sym (take-length-take n (drop count stream)))
      ∙ ap (λ t. t ++ drop (count + m) old) (sym (take-add count m stream))

  IsWriting : Flow → Type 0
  IsWriting (more s) = Writes path old stream size start s
  IsWriting (failed e s) = Unit

  -- What a read of `bytes` has to leave for the state to be as `Writes` says after it.
  record Ready (bytes : Bytes) (s : TcpRx) : Type 0 where
    count : ℕ
    within : count + length bytes ≤ length stream
    grows :
        splice s.rx.file.pos bytes (tcp_content s)
        ≡ take (count + length bytes) stream ++ drop (count + length bytes) old
    position : s.rx.file.pos ≡ count
    opened_at : s.rx.file.path ≡ path
    rest : s.stream ≡ drop (count + length bytes) stream
    fits : length bytes ≤ s.file_remaining
    remaining : s.file_remaining + count ≡ size
    received : s.rx.received ≡ start + count

  wrote-IsWriting :
      (bytes : Bytes) (s : TcpRx) (r : Result IoError Handle) (disk : Disk)
      → Ready bytes s
      → (r ≡ err write_failed)
        ⊎ (r ≡ ok (record s.rx.file { pos = s.rx.file.pos + length bytes }))
          × (or_empty (disk.files s.rx.file.path)
              ≡ splice s.rx.file.pos bytes (or_empty (s.rx.disk.files s.rx.file.path)))
      → IsWriting (wrote (length bytes) s (r, disk))
  unfolding IsWriting advance
  wrote-IsWriting bytes s (err e) disk h o = tt
  wrote-IsWriting bytes s (ok file) disk h (inl e) = cc
  wrote-IsWriting bytes s (ok file) disk h (inr (e, w)) = record {
    count = h.count + length bytes;
    within = h.within;
    holds = ground (arith, h.grows);
    position = ground (arith, h.position);
    opened_at = ground (arith, h.opened_at);
    rest = h.rest;
    remaining = ground (arith, h.remaining, h.fits);
    received = ground (arith, h.received);
  }

  bytes-IsWriting :
      (offer : FileOffer) (bytes : Bytes) (s : TcpRx)
      → Ready bytes s
      → IsWriting (on_bytes offer bytes s)
  unfolding IsWriting
  bytes-IsWriting offer [] s h = tt
  bytes-IsWriting offer (b ∷ bs) s h =
      wrote-IsWriting (b ∷ bs) s _ _ h (write_all_ok (b ∷ bs) s.rx.file s.rx.disk)

  read-Ready :
      (n : ℕ) (s : TcpRx)
      → Writes path old stream size start s
      → n ≤ s.file_remaining
      → Ready (take n s.stream) (record s { stream = drop n s.stream })
  read-Ready n s w le = record {
    count = w.count;
    within = rw w.rest (
        omega (
          arith,
          length-take-le-length n (drop w.count stream),
          length-drop w.count stream,
          w.within,
        ));
    grows = rw (w.rest, w.position) (grown w.count n (tcp_content s) w.within w.holds);
    position = w.position;
    opened_at = w.opened_at;
    rest = rw w.rest (sym (drop-add w.count _ stream ∙ drop-length-take n (drop w.count stream)));
    fits = omega (arith, length-take-le n s.stream, le);
    remaining = w.remaining;
    received = w.received;
  }

  turn-IsWriting :
      (offer : FileOffer) (cancelled : Bool) (arrival : Arrival) (s : TcpRx)
      → Writes path old stream size start s
      → IsWriting (turn offer (record { cancelled = cancelled; arrival = arrival }) s)
  unfolding turn IsWriting
  turn-IsWriting offer true arrival s w = tt
  turn-IsWriting offer false (readable extra) s w =
      bytes-IsWriting offer _ _
        (read-Ready (min (suc extra) (min s.file_remaining read_buffer_size)) s w (omega arith))
  turn-IsWriting offer false broken s w = tt
  turn-IsWriting offer false (tick true) s w = tt
  turn-IsWriting offer false (tick false) s w = w

  abbrev pub LoopWrites : Outcome → Type 0
  LoopWrites (going s) = Writes path old stream size start s
  LoopWrites (complete s) = Writes path old stream size start s × (s.file_remaining ≡ 0)
  LoopWrites (broke e s) = Unit

  -- Whatever rounds are played: while the loop runs, and when it completes, the bytes that came
  -- are over the start of the old content; it completes when all the expected ones have come.
  pub receive_loop-LoopWrites :
      (offer : FileOffer) (turns : List Turn) (s : TcpRx)
      → Writes path old stream size start s
      → LoopWrites (receive_loop offer turns s)
  unfolding receive_loop IsWriting
  receive_loop-LoopWrites offer [] s w = elim (Bool-cases (s.file_remaining == 0)) [
    | inl z ↦ rw z (w, ==→eq s.file_remaining 0 z)
    | inr nz ↦ rw nz w
  ]
  receive_loop-LoopWrites offer (t ∷ ts) s w = elim (Bool-cases (s.file_remaining == 0)) [
    | inl z ↦ rw (z, receive_loop) (w, ==→eq s.file_remaining 0 z)
    | inr nz ↦
        rw (nz, receive_loop)
          (go (turn offer t s) (turn-IsWriting offer t.cancelled t.arrival s w)
            (λ s' w'. receive_loop-LoopWrites offer ts s' w'))
  ]
    where
      go :
          (f : Flow)
          → IsWriting f
          → ((s' : TcpRx)
              → Writes path old stream size start s'
              → LoopWrites (receive_loop offer ts s'))
          → LoopWrites (elim f [ more s' ↦ receive_loop offer ts s' | failed e s' ↦ broke e s' ])
      go (more s') h ih = ih s' h
      go (failed e s') h ih = tt
