-- ===== src/Transfer/Listener/Connections.antt =====
-- The first message of a QUIC connection, and the handshake of a TCP connection
-- (`handle_quic_connection`, `handle_tcp_connection` of src-tauri/src/file_transfer/daemon_listener.rs).
use vnt_gui_dev.Prelude.{ℕ, String, Option, none, some, str_eq, if◌then◌else◌}
use vnt_gui_dev.Transfer.Protocol.{
  FileOffer, FileMsg, TransferRecord, receive, completed, rejected, failed,
}
use vnt_gui_dev.Transfer.Protocol as Protocol
use vnt_gui_dev.Transfer.Manager.{tcp_default_port}
use vnt_gui_dev.Transfer.State.{text_event, FileTransferState, Env, output}
use vnt_gui_dev.Transfer.Listener.{quic_reply, tcp_reply, Phase, closed, remote_of, answer_offer}

-- `handle_offer` up to its wait, and `handle_tcp_connection` after its handshake.
unfoldable pub handle_offer :
    Env → ℕ → ℕ → String → FileOffer → FileTransferState → Phase × FileTransferState
unfolding answer_offer
handle_offer env now end_time address offer s =
    answer_offer env now end_time (quic_reply offer) (remote_of env address offer) offer s

unfoldable pub handle_tcp_offer :
    Env → ℕ → ℕ → String → FileOffer → FileTransferState → Phase × FileTransferState
unfolding answer_offer
handle_tcp_offer env now end_time address offer s =
    answer_offer env now end_time tcp_reply (remote_of env address offer) offer s

-- What `handle_quic_connection` does with the first message.
unfoldable pub handle_quic_connection :
    Env → ℕ → ℕ → String → FileMsg → FileTransferState → Phase × FileTransferState
unfolding handle_offer
handle_quic_connection env now end_time address (Protocol.text t) s =
    (closed, output (text_event t) s)
handle_quic_connection env now end_time address (Protocol.offer o) s =
    handle_offer env now end_time address o s
handle_quic_connection env now end_time address _ s = (closed, s)

-- The fields of the JSON handshake; `none` where one is missing or of another type.
pub record Handshake : Type 0 where
  pub kind : Option String
  pub transfer_id : Option ℕ
  pub filename : Option String
  pub file_size : Option ℕ
  pub file_hash : Option String
  pub sender_device : Option String
  pub sender_ip : Option String

abbrev unwrap_or {ℓ} : {A : Type ℓ} → A → Option A → A
unwrap_or a none = a
unwrap_or a (some b) = b

unfoldable pub offer_of : Handshake → FileOffer
offer_of hs = record {
  transfer_id = unwrap_or 0 hs.transfer_id;
  filename = unwrap_or "unknown" hs.filename;
  file_size = unwrap_or 0 hs.file_size;
  file_hash_hex = unwrap_or "" hs.file_hash;
  chunk_size = 0;
  channel = Protocol.tcp tcp_default_port;
  sender_device = unwrap_or "" hs.sender_device;
  sender_ip = unwrap_or "" hs.sender_ip;
}

unfoldable pub handle_tcp_connection :
    Env → ℕ → ℕ → String → Handshake → FileTransferState → Phase × FileTransferState
unfolding handle_tcp_offer offer_of
handle_tcp_connection env now end_time address hs s =
    if str_eq (unwrap_or "" hs.kind) "offer"
    then handle_tcp_offer env now end_time address (offer_of hs) s
    else (closed, s)
