-- ===== src/Transfer/Protocol.antt =====
-- Messages and states of the file transfer (src-tauri/src/file_transfer/protocol.rs).
-- A byte is a number; the integers of the messages are natural numbers.
use vnt_gui_dev.Prelude.{ℕ, String, Bool, true, false, Option, List}

abbrev pub Bytes : Type 0
Bytes = List ℕ

pub data TransferChannel : Type 0 where
  quic : TransferChannel
  tcp : ℕ → TransferChannel

unfoldable pub is_tcp : TransferChannel → Bool
is_tcp quic = false
is_tcp (tcp port) = true

pub record FileOffer : Type 0 where
  pub transfer_id : ℕ
  pub filename : String
  pub file_size : ℕ
  pub file_hash_hex : String
  pub chunk_size : ℕ
  pub channel : TransferChannel
  pub sender_device : String
  pub sender_ip : String

pub record FileAccept : Type 0 where
  pub transfer_id : ℕ
  pub resume_offset : ℕ

pub record FileReject : Type 0 where
  pub transfer_id : ℕ
  pub reason : String

pub record FileChunk : Type 0 where
  pub transfer_id : ℕ
  pub offset : ℕ
  pub data_len : ℕ

pub record FileComplete : Type 0 where
  pub transfer_id : ℕ

pub record FileVerify : Type 0 where
  pub transfer_id : ℕ
  pub passed : Bool
  pub expected_hash_hex : String
  pub actual_hash_hex : String

pub record FileCancel : Type 0 where
  pub transfer_id : ℕ
  pub reason : String

pub record FileResumeRequest : Type 0 where
  pub transfer_id : ℕ
  pub filename : String
  pub file_size : ℕ
  pub file_hash_hex : String

pub record FileResumeAck : Type 0 where
  pub transfer_id : ℕ
  pub resume_offset : ℕ

pub record TextMessage : Type 0 where
  pub msg_id : ℕ
  pub timestamp : ℕ
  pub text : String
  pub from : String

pub data FileMsg : Type 0 where
  offer : FileOffer → FileMsg
  accept : FileAccept → FileMsg
  reject : FileReject → FileMsg
  chunk : FileChunk → Bytes → FileMsg
  complete : FileComplete → FileMsg
  verify : FileVerify → FileMsg
  cancel : FileCancel → FileMsg
  resume_request : FileResumeRequest → FileMsg
  resume_ack : FileResumeAck → FileMsg
  text : TextMessage → FileMsg

pub data TransferDirection : Type 0 where
  send receive : TransferDirection

pub TransferDirection-discrete : Discrete TransferDirection
TransferDirection-discrete = hlevel

pub data TransferStatus : Type 0 where
  pending transferring paused completed failed cancelled rejected : TransferStatus

pub record TransferRecord : Type 0 where
  pub id : ℕ
  pub transfer_id : ℕ
  pub direction : TransferDirection
  pub filename : String
  pub file_size : ℕ
  pub remote_ip : String
  pub remote_device : String
  pub channel : TransferChannel
  pub status : TransferStatus
  pub start_time : ℕ
  pub end_time : Option ℕ
  pub bytes_transferred : ℕ
  pub file_hash : Option String
  pub error_message : Option String
  pub file_path : Option String
  pub quick_sent : Bool
  pub avg_speed_kbps : Option ℕ
