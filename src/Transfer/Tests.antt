-- ===== src/Transfer/Tests.antt =====
-- The transfer at concrete inputs: a file of three bytes in two rounds, a partial file of one byte.
use vnt_gui_dev.Prelude.{
  ℕ, ◌≡◌, ◌≢◌, ◌⊎◌, refl, String, Bool, true, false, none, some, List, [], ◌∷◌, ◌++◌, ◌==◌, arith,
  Bool-cases, inl, inr, ◌-◌, ◌&&◌, str_eq, if◌then◌else◌, length, take, ok,
}
use vnt_gui_dev.Transfer.Protocol.{Bytes, FileOffer, FileMsg, chunk, complete, quic}
use vnt_gui_dev.Transfer.Disk.{Disk, atomic_save, or_empty}
use vnt_gui_dev.Transfer.Disk.Laws.{atomic_save_all_or_nothing}
use vnt_gui_dev.Transfer.Resumable.{validate_resume, write_chunk, finalize, open_partial}
use vnt_gui_dev.Transfer.Receiver.{ReceivePlan, Rx, done, partial_for, advance}
use vnt_gui_dev.Transfer.Receiver.Quic.{
  message, Turn, receive_loop, receive_quic, turn, on_message, on_chunk, after_loop,
}
use vnt_gui_dev.Transfer.Receiver.Prefix.{Tracks, content, IsSound, receive_loop-IsSound}
use vnt_gui_dev.Transfer.Receiver.Integrity.{HasHash, receive_quic_integrity}
use vnt_gui_dev.Transfer.Receiver.Tcp as Tcp
use vnt_gui_dev.Transfer.Receiver.Overwrite.{receive_tcp_assembles, Assembled}
use vnt_gui_dev.Transfer.Receiver.Refused.{resumed_tcp_fails}
use vnt_gui_dev.Transfer.Sender.{
  Round, Tx, Incoming, copy, more, ended, chunk_msg, on_bytes, send_from, send_loop,
}
use vnt_gui_dev.Transfer.Sender.Resend.{unrelated_message_repeats_chunk}
use vnt_gui_dev.Transfer.Sender.Tiles.{IsSending, send_loop-IsSending}
use vnt_gui_dev.Transfer.Sender.Finish.{Calm}
use vnt_gui_dev.Transfer.Sender.EndToEnd.{deliver, transfer_completes}

abbrev whole : Bytes
whole = 1 ∷ 2 ∷ 3 ∷ []

abbrev file_offer : FileOffer
file_offer = record {
  transfer_id = 7;
  filename = "x";
  file_size = 3;
  file_hash_hex = "hash";
  chunk_size = 2;
  channel = quic;
  sender_device = "pc";
  sender_ip = "10.26.0.2";
}

abbrev disk : Disk
disk = record { files = λ p. if str_eq p "x.partial" then some (1 ∷ []) else none; faults = [] }

abbrev rx : Rx
rx = record {
  disk = disk;
  file = record { path = "x.partial"; pos = 1 };
  received = 1;
  since_report = 0;
  sent = [];
  reports = [];
}

rx-Tracks : Tracks whole rx
rx-Tracks = record { prefix = refl; measured = refl }

abbrev calm_round : Round
calm_round = record { cancelled = false; readable = some 9; incoming = []; sends = true }

calm_round-Calm : Calm calm_round
calm_round-Calm = record { extra = 8; running = refl; ready = refl; quiet = refl; sends = refl }

abbrev calm_rounds : List Round
calm_rounds = calm_round ∷ calm_round ∷ []

transfer_completes_example :
    (tx : Tx) × (rx' : Rx) × (send_from whole 3 2 7 1 calm_rounds ≡ ended tx)
    × (receive_loop file_offer
          (deliver tx.sent (deliver (complete (record { transfer_id = 7 }) ∷ []) []))
          rx
        ≡ done rx')
    × (content rx' ≡ whole)
    × (rx'.received ≡ 3)
transfer_completes_example =
    transfer_completes whole file_offer 2 1 calm_rounds (record { transfer_id = 7 }) rx
      (omega arith) (calm_round-Calm, (calm_round-Calm, tt)) (omega arith) (omega arith) rx-Tracks
      refl refl

abbrev turns : List Turn
turns =
    record {
      cancelled = false;
      arrival = message (chunk (record { transfer_id = 7; offset = 1; data_len = 2 }) (2 ∷ 3 ∷ []));
    }
    ∷ record { cancelled = false; arrival = message (complete (record { transfer_id = 7 })) }
    ∷ []

receive_loop-IsSound_example : IsSound whole (receive_loop file_offer turns rx)
receive_loop-IsSound_example =
    receive_loop-IsSound whole file_offer turns rx rx-Tracks ((λ _. refl), (tt, tt))

abbrev hash_of : Bytes → String
hash_of content = if length content == 3 then "hash" else "other"

abbrev plan : ReceivePlan
plan = record { offer = file_offer; resume_offset = 1; partial_path = "x.partial" }

receive_quic_run : (receive_quic hash_of plan "x" turns disk).result ≡ some (ok 3)
unfolding receive_quic receive_loop turn on_message on_chunk write_chunk advance after_loop finalize
    open_partial validate_resume partial_for
receive_quic_run = refl

receive_quic_integrity_example :
    HasHash hash_of "hash" "x" (receive_quic hash_of plan "x" turns disk).rx.disk
receive_quic_integrity_example =
    receive_quic_integrity hash_of plan "x" turns disk 3 receive_quic_run

send_loop-IsSending_example : IsSending whole 3 2 7 1 (
    send_loop whole 3 2 7 calm_rounds
      (record { pos = 1; offset = 1; since_report = 0; sent = []; cut = 0; reports = [] }))
send_loop-IsSending_example =
    send_loop-IsSending whole 3 2 7 1 calm_rounds
      (record { pos = 1; offset = 1; since_report = 0; sent = []; cut = 0; reports = [] })
      (refl, (refl, tt)) (record { position = refl; bounded = omega arith; tiled = refl })

atomic_save_all_or_nothing_example :
    ((atomic_save "x.tmp" "x" whole disk).0 ≡ ok tt)
      × ((atomic_save "x.tmp" "x" whole disk).1.files "x" ≡ some whole)
    ⊎ ((atomic_save "x.tmp" "x" whole disk).0 ≢ ok tt)
      × ((atomic_save "x.tmp" "x" whole disk).1.files "x" ≡ disk.files "x")
atomic_save_all_or_nothing_example = atomic_save_all_or_nothing "x.tmp" "x" whole disk (λ e. cc)

abbrev zeros_32 : Bytes
zeros_32 =
    0 ∷ 0 ∷ 0 ∷ 0 ∷ 0 ∷ 0 ∷ 0 ∷ 0 ∷ 0 ∷ 0 ∷ 0 ∷ 0 ∷ 0 ∷ 0 ∷ 0 ∷ 0 ∷ 0 ∷ 0 ∷ 0 ∷ 0 ∷ 0 ∷ 0 ∷ 0 ∷ 0
    ∷ 0 ∷ 0 ∷ 0 ∷ 0 ∷ 0 ∷ 0 ∷ 0 ∷ 0 ∷ []

abbrev is_whole : Bytes → Bool
is_whole (a ∷ b ∷ c ∷ []) = (a == 1) && ((b == 2) && (c == 3))
is_whole other = false

-- A digest that tells the file from everything else.
abbrev digest : Bytes → Bytes
digest c = if is_whole c then zeros_32 else []

abbrev print : Bytes → String
print b = if length b == 32 then "y" else ""

is_whole-eq : (c : Bytes) → is_whole c ≡ true → c ≡ whole
is_whole-eq [] h = absurd (ground arith)
is_whole-eq (x ∷ []) h = absurd (ground arith)
is_whole-eq (x ∷ y ∷ []) h = absurd (ground arith)
is_whole-eq (x ∷ y ∷ z ∷ []) h = ground arith
is_whole-eq (x ∷ y ∷ z ∷ w ∷ ws) h = absurd (ground arith)

digest_injective : (c : Bytes) → print (digest c) ≡ print (digest whole) → c ≡ whole
digest_injective c h = elim (Bool-cases (is_whole c)) [
  | inl e ↦ is_whole-eq c e
  | inr e ↦ cc (rw e at h)
]

abbrev tcp_turns : List Tcp.Turn
tcp_turns =
    record { cancelled = false; arrival = Tcp.readable 9 }
    ∷ record { cancelled = false; arrival = Tcp.readable 9 }
    ∷ []

partial_found : disk.files (partial_for "x") ≡ some (take 1 whole)
unfolding partial_for
partial_found = refl

resumed_tcp_fails_example :
    (Tcp.receive_tcp digest print file_offer "x" tcp_turns (2 ∷ 3 ∷ zeros_32) disk).result
    ≢ some (ok 3)
resumed_tcp_fails_example =
    resumed_tcp_fails digest print file_offer "x" tcp_turns whole 1 3 disk (omega arith)
      (omega arith) refl refl partial_found refl digest_injective

abbrev empty_disk : Disk
empty_disk = record { files = λ p. none; faults = [] }

receive_tcp_run :
    (Tcp.receive_tcp digest print file_offer "x" tcp_turns (whole ++ zeros_32) empty_disk).result
    ≡ some (ok 3)
unfolding Tcp.receive_tcp Tcp.receive_loop Tcp.turn Tcp.read_some Tcp.after_loop Tcp.read_exact_n
    advance finalize open_partial validate_resume partial_for
receive_tcp_run = refl

receive_tcp_assembles_example :
    (r : ℕ) × ((validate_resume (partial_for "x") 3 empty_disk).0 ≡ ok r)
    × Assembled "x"
        (λ c. print (digest c))
        print
        (or_empty ((validate_resume (partial_for "x") 3 empty_disk).1.files (partial_for "x")))
        (whole ++ zeros_32)
        (3 - r)
        (Tcp.receive_tcp digest print file_offer "x" tcp_turns (whole ++ zeros_32) empty_disk).disk
receive_tcp_assembles_example =
    receive_tcp_assembles digest print file_offer "x" tcp_turns (whole ++ zeros_32) empty_disk 3
      receive_tcp_run

abbrev unrelated : FileMsg
unrelated = complete (record { transfer_id = 7 })

abbrev disturbed : Round
disturbed = record calm_round { incoming = Incoming.message unrelated copy ∷ [] }

abbrev at_start : Tx
at_start = record { pos = 0; offset = 0; since_report = 0; sent = []; cut = 0; reports = [] }

unrelated_message_repeats_chunk_example :
    (tx' : Tx) × (on_bytes 7 disturbed (1 ∷ 2 ∷ []) at_start ≡ more tx')
    × (tx'.sent ≡ chunk_msg 7 0 (1 ∷ 2 ∷ []) ∷ chunk_msg 7 0 (1 ∷ 2 ∷ []) ∷ [])
    × (tx'.offset ≡ 2)
unrelated_message_repeats_chunk_example =
    unrelated_message_repeats_chunk 7 1 (2 ∷ []) disturbed at_start (tt, tt) refl
