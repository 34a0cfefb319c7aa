-- ===== src/Transfer/Sender/Resend.antt =====
-- A chunk whose send is dropped.
use vnt_gui_dev.Prelude.{
  ℕ, ◌+◌, ◌≡◌, refl, sym, ◌∙◌, ap, true, List, [], ◌∷◌, ◌++◌, append_assoc, append-nil, All, arith,
  length, ok,
}
use vnt_gui_dev.Transfer.Protocol.{Bytes, FileMsg, cancel, reject}
use vnt_gui_dev.Transfer.Sender.{
  Left, nothing, part, copy, Incoming, message, lost, abandoned, Round, Tx, more, chunk_msg,
  count_sent, await_send, on_bytes,
}

-- A message that is neither a cancellation nor a rejection.
abbrev pub IsUnrelated : Incoming → Type 0
IsUnrelated (message (cancel c) left) = ⊥
IsUnrelated (message (reject r) left) = ⊥
IsUnrelated (message m left) = Unit
IsUnrelated lost = ⊥

abbrev pub lefts : List Incoming → List Left
lefts [] = []
lefts (message m left ∷ rest) = left ∷ lefts rest
lefts (lost ∷ rest) = lefts rest

-- The copies of a message that the dropped sends have left.
abbrev pub copies : FileMsg → List Left → List FileMsg
copies m [] = []
copies m (copy ∷ ls) = m ∷ copies m ls
copies m (l ∷ ls) = copies m ls

await_unrelated :
    (incoming : List Incoming)
    → All IsUnrelated incoming
    → await_send incoming true ≡ (ok tt, lefts incoming)
unfolding await_send
await_unrelated [] h = refl
await_unrelated (message (cancel c) left ∷ rest) h = absurd h.0
await_unrelated (message (reject r) left ∷ rest) h = absurd h.0
await_unrelated (message m left ∷ rest) h = rw (await_unrelated rest h.1)
await_unrelated (lost ∷ rest) h = absurd h.0

abandoned_sent :
    (m : FileMsg) (ls : List Left) (tx : Tx)
    → ((abandoned m ls tx).sent ≡ tx.sent ++ copies m ls) × ((abandoned m ls tx).offset ≡ tx.offset)
abandoned_sent m [] tx = (sym (append-nil tx.sent), refl)
abandoned_sent m (nothing ∷ ls) tx = abandoned_sent m ls tx
abandoned_sent m (part ∷ ls) tx = abandoned_sent m ls (record tx { cut = tx.cut + 1 })
abandoned_sent m (copy ∷ ls) tx =
    let rest = abandoned_sent m ls (record tx { sent = tx.sent ++ m ∷ [] }) in
    (rest.0 ∙ append_assoc tx.sent (m ∷ []) (copies m ls), rest.1)

count_sent_sent :
    (task_id : ℕ) (bytes : Bytes) (tx : Tx)
    → ((count_sent task_id bytes tx).sent ≡ tx.sent ++ chunk_msg task_id tx.offset bytes ∷ [])
      × ((count_sent task_id bytes tx).offset ≡ tx.offset + length bytes)
unfolding count_sent
count_sent_sent task_id bytes tx = ground arith

-- In a round whose flag is down, in which bytes are read and in which only unrelated messages
-- arrive before the send succeeds, the same chunk goes out once more for every dropped send that
-- had already put it on the connection; the offset moves on once.
pub unrelated_message_repeats_chunk :
    (task_id : ℕ) (b : ℕ) (bs : Bytes) (r : Round) (tx : Tx)
    → All IsUnrelated r.incoming
    → r.sends ≡ true
    → (tx' : Tx) × (on_bytes task_id r (b ∷ bs) tx ≡ more tx')
      × (tx'.sent
          ≡ tx.sent
            ++ (copies (chunk_msg task_id tx.offset (b ∷ bs)) (lefts r.incoming)
                ++ chunk_msg task_id tx.offset (b ∷ bs) ∷ []))
      × (tx'.offset ≡ tx.offset + length (b ∷ bs))
unrelated_message_repeats_chunk task_id b bs r tx h s =
    let m = chunk_msg task_id tx.offset (b ∷ bs) in
    let ls = lefts r.incoming in
    let a = abandoned_sent m ls tx in
    let n = count_sent_sent task_id (b ∷ bs) (abandoned m ls tx) in
    (
      count_sent task_id (b ∷ bs) (abandoned m ls tx),
      rw (s, await_unrelated r.incoming h),
      n.0
          ∙ ap (λ (o : ℕ). (abandoned m ls tx).sent ++ chunk_msg task_id o (b ∷ bs) ∷ []) a.1
          ∙ ap (λ (q : List FileMsg). q ++ m ∷ []) a.0
          ∙ append_assoc tx.sent (copies m ls) (m ∷ []),
      n.1 ∙ ap (λ (o : ℕ). o + length (b ∷ bs)) a.1,
    )
