-- ===== src/Transfer/Sender/Finish.antt =====
-- The sending loop comes to the end of the file when nothing interferes.
use vnt_gui_dev.Prelude.{
  ℕ, suc, ◌+◌, ◌-◌, ◌≤◌, ◌<◌, ◌≡◌, true, false, List, [], ◌∷◌, arith, ltb, length, take, drop, some,
  min, Bool-cases, inl, inr, ltb→lt, ltb→le, All, length-drop,
}
use vnt_gui_dev.Transfer.Protocol.{Bytes}
use vnt_gui_dev.Transfer.Disk.Laws.{length-take-le}
use vnt_gui_dev.Transfer.Sender.{
  Round, Tx, more, ended, count_sent, on_bytes, await_send, round, send_loop,
}

-- A round in which the flag is down, at least one byte is ready, nothing arrives, and the send
-- succeeds.
pub record Calm (r : Round) : Type 0 where
  pub extra : ℕ
  pub running : r.cancelled ≡ false
  pub ready : r.readable ≡ some (suc extra)
  pub quiet : r.incoming ≡ []
  pub sends : r.sends ≡ true

take_nonempty : (n : ℕ) (xs : Bytes) → 0 < n → 0 < length xs → 0 < length (take n xs)
take_nonempty n [] p q = absurd (omega arith)
take_nonempty n (x ∷ xs) p q = let e : n ≡ suc (n - 1) = omega arith in rw e (omega arith)

counted :
    (task_id : ℕ) (bytes : Bytes) (tx : Tx)
    → ((count_sent task_id bytes tx).pos ≡ tx.pos + length bytes)
      × ((count_sent task_id bytes tx).offset ≡ tx.offset + length bytes)
unfolding count_sent
counted task_id bytes tx = ground arith

module _ (whole : Bytes) (chunk_size task_id : ℕ) (positive : 0 < chunk_size) where
  bytes_more :
      (r : Round) (bytes : Bytes) (tx : Tx)
      → r.incoming ≡ []
      → r.sends ≡ true
      → 0 < length bytes
      → on_bytes task_id r bytes tx ≡ more (count_sent task_id bytes tx)
  unfolding await_send
  bytes_more r [] tx q s p = absurd (omega arith)
  bytes_more r (b ∷ bs) tx q s p = rw (q, s)

  -- Such a round sends at least one byte, and no more than there are.
  round_more :
      (r : Round) (tx : Tx)
      → Calm r
      → tx.pos ≡ tx.offset
      → tx.offset < length whole
      → (tx' : Tx) × (round whole (length whole) chunk_size task_id r tx ≡ more tx')
        × (tx'.pos ≡ tx'.offset)
        × (tx.offset < tx'.offset)
        × (tx'.offset ≤ length whole)
  unfolding round
  round_more r tx c p lt =
      let m : ℕ = min (suc c.extra) (min (length whole - tx.offset) chunk_size) in
      let b : Bytes = take m (drop tx.pos whole) in
      let some_left : 0 < length (drop tx.pos whole) = omega (arith, length-drop tx.pos whole) in
      let some_read : 0 < length b = take_nonempty m (drop tx.pos whole) (omega arith) some_left in
      let n = counted task_id b tx in
      (
        count_sent task_id b tx,
        rw (c.running, c.ready) (bytes_more r b tx c.quiet c.sends some_read),
        omega (arith, n.0, n.1),
        omega (arith, n.1),
        omega (arith, n.1, length-take-le m (drop tx.pos whole)),
      )

  -- With as many such rounds as bytes that are left, the loop ends at the end of the file.
  pub send_loop-finishes :
      (rounds : List Round) (tx : Tx)
      → All Calm rounds
      → tx.pos ≡ tx.offset
      → tx.offset ≤ length whole
      → length whole ≤ tx.offset + length rounds
      → (tx' : Tx) × (send_loop whole (length whole) chunk_size task_id rounds tx ≡ ended tx')
        × (tx'.offset ≡ length whole)
  unfolding send_loop
  send_loop-finishes [] tx c p le fuel =
      let e : ltb tx.offset (length whole) ≡ false = ground arith in (tx, rw e, omega arith)
  send_loop-finishes (r ∷ rs) tx c p le fuel = elim (Bool-cases (ltb tx.offset (length whole))) [
    | inl below ↦
        let (tx₁, e, p₁, grew, le₁) = round_more r tx c.0 p (ltb→lt _ _ below) in
        let (tx', e', at_end) = send_loop-finishes rs tx₁ c.1 p₁ le₁ (omega arith) in
        (tx', rw (below, e, send_loop) e', at_end)
    | inr reached ↦ (tx, rw (reached, send_loop), omega (arith, ltb→le _ _ reached))
  ]
