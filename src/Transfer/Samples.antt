-- ===== src/Transfer/Samples.antt =====
-- Inputs for the tests of receiving and sending: one task, one request, and a disk with one file.
use vnt_gui_dev.Prelude.{
  ℕ, zero, suc, ◌≡◌, refl, sym, ap, ◌∙◌, String, true, false, none, some, [], ◌∷◌, arith, length,
  str_eq, if◌then◌else◌, ◌==◌,
}
use vnt_gui_dev.Transfer.Protocol.{Bytes, FileOffer, quic, receive, pending}
use vnt_gui_dev.Transfer.Disk.{Disk}
use vnt_gui_dev.Transfer.Filter.{allow_all}
use vnt_gui_dev.Transfer.Manager.{TransferTask, find_task}
use vnt_gui_dev.Transfer.Receiver.Placement.Fresh.{PrintsApart, Lists}
use vnt_gui_dev.Transfer.State.{FileTransferState, Env}

abbrev pub print : ℕ → String
print zero = ""
print (suc n) = String.◌∷◌ "1" (print n)

abbrev count : String → ℕ
count String.[] = zero
count (String.◌∷◌ c s) = suc (count s)

count-print : (n : ℕ) → count (print n) ≡ n
count-print zero = refl
count-print (suc n) = ap suc (count-print n)

pub print-PrintsApart : PrintsApart print
print-PrintsApart m n _ _ e = sym (count-print m) ∙ ap count e ∙ count-print n

abbrev pub disk : Disk
disk = record { files = λ p. if str_eq p "d\\x" then some (9 ∷ []) else none; faults = [] }

pub disk-Lists : Lists ("d\\x" ∷ []) disk
disk-Lists p h = ground arith

abbrev pub offer : FileOffer
offer = record {
  transfer_id = 7;
  filename = "x";
  file_size = 1;
  file_hash_hex = "other";
  chunk_size = 2;
  channel = quic;
  sender_device = "pc";
  sender_ip = "10.26.0.2";
}

abbrev pub hash_of : Bytes → String
hash_of content = if length content == 1 then "other" else "hash"

abbrev pub task : TransferTask
task = record {
  transfer_id = 1;
  filename = "x";
  file_size = 1;
  bytes_done = 0;
  direction = receive;
  channel = quic;
  status = pending;
  remote_ip = "10.26.0.2";
  remote_device = "pc";
  error_message = none;
  speed_kbps = none;
  eta_seconds = none;
  created_at = 5;
  file_path = none;
  save_path = none;
  resume_offset = 0;
  quick_sent = false;
  last_progress_time = none;
}

abbrev pub env : Env
env = record {
  sha = λ content. content;
  hex = hash_of;
  encode = λ records. [];
  to_lowercase = λ s. s;
  trim = λ s. s;
  print = print;
  io_text = λ e. "io";
  lost_text = "lost";
  fuel = 2;
}

abbrev pub state : FileTransferState
state = record {
  transfer_mgr = record { tasks = task ∷ []; next_id = 2; permits = 3; size_threshold = 100 };
  history = record { path = "h.json"; records = []; next_id = 1 };
  filter = record { mode = allow_all; extensions = [] };
  auto_accept = true;
  threshold = 100;
  config_dir = "c";
  save_dir = "d";
  pending =
      (
        1,
        record {
          offer = offer;
          resume_offset = 0;
          partial_path = "d\\y.partial";
          default_save_path = "d\\y";
        },
      )
      ∷ [];
  cancel_flags = (1, false) ∷ [];
  disk = disk;
  log = [];
}

pub task_listed : find_task 1 state.transfer_mgr ≡ some task
unfolding find_task
task_listed = refl
