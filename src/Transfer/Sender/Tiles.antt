-- ===== src/Transfer/Sender/Tiles.antt =====
-- The chunks that a sender has sent lie side by side, and hold the bytes of the file.
use vnt_gui_dev.Prelude.{
  ℕ, ◌+◌, ◌-◌, ◌≤◌, ◌≡◌, refl, sym, ap, ◌∙◌, Bool, true, false, List, [], ◌∷◌, ◌++◌, arith, ltb,
  leb, length, take, drop, Result, ok, err, none, some, min, Option, All, Bool-cases, inl, inr,
}
use vnt_gui_dev.Transfer.Protocol.{Bytes, FileMsg, chunk}
use vnt_gui_dev.Transfer.Disk.Laws.{take-length-take, length-take-le}
use vnt_gui_dev.Transfer.Receiver.{TransferError}
use vnt_gui_dev.Transfer.Sender.{
  Left, nothing, part, copy, Incoming, message, lost, abandoned, Round, Tx, Flow, more, ended,
  failed, chunk_msg, count_sent, dispatched, on_bytes, await_send, round, send_loop,
}

-- No send that is dropped leaves a whole message behind.
abbrev pub leaves_copy : List Incoming → Bool
leaves_copy [] = false
leaves_copy (message m copy ∷ rest) = true
leaves_copy (message m part ∷ rest) = leaves_copy rest
leaves_copy (message m nothing ∷ rest) = leaves_copy rest
leaves_copy (lost ∷ rest) = leaves_copy rest

abbrev pub Alone : Round → Type 0
Alone r = leaves_copy r.incoming ≡ false

abbrev has_copy : List Left → Bool
has_copy [] = false
has_copy (copy ∷ ls) = true
has_copy (l ∷ ls) = has_copy ls

await_send-alone :
    (incoming : List Incoming) (sends : Bool)
    → leaves_copy incoming ≡ false
    → has_copy (await_send incoming sends).1 ≡ false
unfolding await_send
await_send-alone [] true h = refl
await_send-alone [] false h = refl
await_send-alone (message m copy ∷ rest) sends h = absurd (cc h)
await_send-alone (message m part ∷ rest) sends h = ground (arith, await_send-alone rest sends h)
await_send-alone (message m nothing ∷ rest) sends h = ground (arith, await_send-alone rest sends h)
await_send-alone (lost ∷ rest) sends h = refl

-- The messages are chunks of transfer `id` that cover the bytes of `whole` from `a` up to `b`.
abbrev pub Tiles : Bytes → ℕ → ℕ → ℕ → List FileMsg → Type 0
Tiles whole id a b [] = a ≡ b
Tiles whole id a b (chunk header bytes ∷ ms) =
    (header.transfer_id ≡ id)
    × (header.offset ≡ a)
    × (bytes ≡ take (length bytes) (drop a whole))
    × Tiles whole id (a + length bytes) b ms
Tiles whole id a b (_ ∷ ms) = ⊥

Tiles-snoc :
    (whole : Bytes) (id a b : ℕ) (ms : List FileMsg) (bytes : Bytes)
    → Tiles whole id a b ms
    → bytes ≡ take (length bytes) (drop b whole)
    → Tiles whole id a (b + length bytes) (ms ++ chunk_msg id b bytes ∷ [])
Tiles-snoc whole id a b [] bytes t h = (
  refl,
  sym t,
  h ∙ ap (λ k. take (length bytes) (drop k whole)) (sym t),
  ap (λ k. k + length bytes) t,
)
Tiles-snoc whole id a b (chunk header bs ∷ ms) bytes t h =
    (t.0, t.1, t.2, Tiles-snoc whole id (a + length bs) b ms bytes t.3 h)
Tiles-snoc whole id a b (_ ∷ ms) bytes t h = absurd t

-- The chunks sent so far cover the file from `start` up to the offset, which is the position in
-- the file and does not pass its size.
pub record Sends (whole : Bytes) (file_size task_id start : ℕ) (tx : Tx) : Type 0 where
  pub position : tx.pos ≡ tx.offset
  pub bounded : tx.offset ≤ file_size
  pub tiled : Tiles whole task_id start tx.offset tx.sent

module _ (whole : Bytes) (file_size chunk_size task_id start : ℕ) where
  abbrev pub IsSending : Flow → Type 0
  IsSending (more tx) = Sends whole file_size task_id start tx
  IsSending (ended tx) = Sends whole file_size task_id start tx
  IsSending (failed e tx) = Sends whole file_size task_id start tx

  count_sent-Sends :
      (bytes : Bytes) (tx : Tx)
      → Sends whole file_size task_id start tx
      → bytes ≡ take (length bytes) (drop tx.offset whole)
      → tx.offset + length bytes ≤ file_size
      → Sends whole file_size task_id start (count_sent task_id bytes tx)
  unfolding count_sent
  count_sent-Sends bytes tx s h le =
      let t = Tiles-snoc whole task_id start tx.offset tx.sent bytes s.tiled h in
      let p : tx.pos + length bytes ≡ tx.offset + length bytes = omega (arith, s.position) in
      elim (Bool-cases (leb 524288 (tx.since_report + length bytes))) [
        | inl big ↦ rw big (record { position = p; bounded = le; tiled = t })
        | inr small ↦ rw small (record { position = p; bounded = le; tiled = t })
      ]

  abandoned-Sends :
      (m : FileMsg) (ls : List Left) (tx : Tx)
      → has_copy ls ≡ false
      → Sends whole file_size task_id start tx
      → Sends whole file_size task_id start (abandoned m ls tx)
        × ((abandoned m ls tx).offset ≡ tx.offset)
  abandoned-Sends m [] tx h s = (s, refl)
  abandoned-Sends m (nothing ∷ ls) tx h s = abandoned-Sends m ls tx h s
  abandoned-Sends m (part ∷ ls) tx h s =
      abandoned-Sends m ls (record tx { cut = tx.cut + 1 }) h
        (record { position = s.position; bounded = s.bounded; tiled = s.tiled })
  abandoned-Sends m (copy ∷ ls) tx h s = absurd (cc h)

  bytes-IsSending :
      (r : Round) (bytes : Bytes) (tx : Tx)
      → Alone r
      → Sends whole file_size task_id start tx
      → bytes ≡ take (length bytes) (drop tx.offset whole)
      → tx.offset + length bytes ≤ file_size
      → IsSending (on_bytes task_id r bytes tx)
  bytes-IsSending r [] tx alone s h le = s
  bytes-IsSending r (b ∷ bs) tx alone s h le =
      go (await_send r.incoming r.sends) (await_send-alone r.incoming r.sends alone)
    where
      go :
          (o : Result TransferError (Unit {0}) × List Left)
          → has_copy o.1 ≡ false
          → IsSending (dispatched task_id (b ∷ bs) tx o)
      go (ok u, ls) none_left =
          let k = abandoned-Sends (chunk_msg task_id tx.offset (b ∷ bs)) ls tx none_left s in
          count_sent-Sends (b ∷ bs) (abandoned (chunk_msg task_id tx.offset (b ∷ bs)) ls tx) k.0
            (h ∙ ap (λ (o : ℕ). take (length (b ∷ bs)) (drop o whole)) (sym k.1))
            (omega (arith, k.1))
      go (err e, ls) none_left =
          (abandoned-Sends (chunk_msg task_id tx.offset (b ∷ bs)) ls tx none_left s).0

  round-IsSending :
      (cancelled sends : Bool) (readable : Option ℕ) (incoming : List Incoming) (tx : Tx)
      → leaves_copy incoming ≡ false
      → Sends whole file_size task_id start tx
      → IsSending (
          round whole file_size chunk_size task_id
            (record {
              cancelled = cancelled;
              readable = readable;
              incoming = incoming;
              sends = sends;
            })
            tx)
  unfolding round
  round-IsSending true sends readable incoming tx alone s = s
  round-IsSending false sends none incoming tx alone s = s
  round-IsSending false sends (some n) incoming tx alone s =
      let m : ℕ = min n (min (file_size - tx.offset) chunk_size) in
      bytes-IsSending
        (record { cancelled = false; readable = some n; incoming = incoming; sends = sends })
        (take m (drop tx.pos whole)) tx alone s
        (rw s.position (sym (take-length-take m (drop tx.offset whole))))
        (omega (arith, length-take-le m (drop tx.pos whole), s.bounded))

  -- Whatever happens in the rounds, unless a send that is dropped has already put its whole message
  -- on the connection, the chunks that were sent cover the file without a gap or an overlap from the
  -- resume offset up to the offset reached, and hold the file's bytes.
  pub send_loop-IsSending :
      (rounds : List Round) (tx : Tx)
      → All Alone rounds
      → Sends whole file_size task_id start tx
      → IsSending (send_loop whole file_size chunk_size task_id rounds tx)
  unfolding send_loop
  send_loop-IsSending [] tx alone s = elim (Bool-cases (ltb tx.offset file_size)) [
    | inl below ↦ rw below s
    | inr reached ↦ rw reached s
  ]
  send_loop-IsSending (r ∷ rs) tx alone s = elim (Bool-cases (ltb tx.offset file_size)) [
    | inl below ↦
        rw (below, send_loop)
          (go (round whole file_size chunk_size task_id r tx)
            (round-IsSending r.cancelled r.sends r.readable r.incoming tx alone.0 s)
            (λ tx' s'. send_loop-IsSending rs tx' alone.1 s'))
    | inr reached ↦ rw (reached, send_loop) s
  ]
    where
      go :
          (f : Flow)
          → IsSending f
          → ((tx' : Tx)
              → Sends whole file_size task_id start tx'
              → IsSending (send_loop whole file_size chunk_size task_id rs tx'))
          → IsSending (elim f [
            | more tx' ↦ send_loop whole file_size chunk_size task_id rs tx'
            | ended tx' ↦ ended tx'
            | failed e tx' ↦ failed e tx'
          ])
      go (more tx') h ih = ih tx' h
      go (ended tx') h ih = h
      go (failed e tx') h ih = h
