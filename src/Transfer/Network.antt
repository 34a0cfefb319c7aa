-- ===== src/Transfer/Network.antt =====
-- The network of the file transfer (src-tauri/src/file_transfer/network.rs): messages on a connection,
-- and the UDP probe by which a sender learns the identity and the ports of a receiver. Text is the list
-- of its code points. The serialisation of bincode and the text of a node id are arguments.
pub mod Messages
pub mod Probe
use vnt_gui_dev.Prelude.{
  ℕ, ◌*◌, Bool, true, false, ◌&&◌, ◌||◌, Option, none, some, List, [], ◌∷◌, ◌++◌, ◌==◌, ltb, leb,
  if◌then◌else◌, take, Result, ok, err,
}
use vnt_gui_dev.Prelude.Decimal.{decimal, parse_u16}
use vnt_gui_dev.Prelude.Text.{trim, strip_prefix, split}
use vnt_gui_dev.Frame.{max_frame_size, frame, Head, read_head, read_body}
use vnt_gui_dev.Transfer.Protocol.{FileMsg}

-- How receiving and probing fail; the texts are constructors.
pub data NetworkError : Type 0 where
  head_missing body_missing undecodable : NetworkError
  too_large : ℕ → NetworkError
  unknown_kind : ℕ → NetworkError
  timed_out not_utf8 not_a_node_id : NetworkError
  malformed : List ℕ → NetworkError

-- bincode, for the messages.
pub record FileCodec : Type 0 where
  pub bytes_of : FileMsg → List ℕ
  pub msg_of : List ℕ → Option FileMsg

abbrev pub type_filetransfer : ℕ
type_filetransfer = 1

module _ (codec : FileCodec) where
  unfoldable pub send_msg : FileMsg → List ℕ
  send_msg m = frame type_filetransfer (codec.bytes_of m)

  abbrev pub with_message : Option FileMsg → Result NetworkError FileMsg
  with_message none = err undecodable
  with_message (some m) = ok m

  abbrev decoded : Option (List ℕ) → Result NetworkError FileMsg
  decoded none = err body_missing
  decoded (some payload) = with_message (codec.msg_of payload)

  abbrev with_head : Option Head → Result NetworkError FileMsg
  with_head none = err head_missing
  with_head (some h) =
      if h.kind == type_filetransfer
      then if ltb max_frame_size h.len
        then err (too_large h.len)
        else decoded (read_body h.len h.rest)
      else err (unknown_kind h.kind)

  -- The next message, from the bytes of the stream that was accepted.
  unfoldable pub recv_msg : List ℕ → Result NetworkError FileMsg
  recv_msg bytes = with_head (read_head bytes)

abbrev pub default_quic_port : ℕ
default_quic_port = 34249

-- `VNTFT1` and `VNTFT1:`
abbrev pub probe_magic : List ℕ
probe_magic = b'V' ∷ b'N' ∷ b'T' ∷ b'F' ∷ b'T' ∷ b'1' ∷ []

abbrev pub probe_prefix : List ℕ
probe_prefix = b'V' ∷ b'N' ∷ b'T' ∷ b'F' ∷ b'T' ∷ b'1' ∷ b':' ∷ []

-- `next`, on the parts that are left.
abbrev part : ℕ → List (List ℕ) → Option (List ℕ)
part _ [] = none
part ℕ.zero (p ∷ _) = some p
part (ℕ.suc n) (_ ∷ ps) = part n ps

abbrev pub port_of : Option (List ℕ) → Option ℕ
port_of none = none
port_of (some p) = parse_u16 p

abbrev pub quic_port_or : Option ℕ → ℕ
quic_port_or none = default_quic_port
quic_port_or (some p) = if ltb 0 p then p else default_quic_port

abbrev pub tcp_port_or : Option ℕ → ℕ
tcp_port_or none = 0
tcp_port_or (some p) = p

pub record ProbeInfo (NodeId : Type 0) : Type 0 where
  pub node_id : NodeId
  pub quic_port : ℕ
  pub tcp_port : ℕ

bytes_eq : List ℕ → List ℕ → Bool
bytes_eq [] [] = true
bytes_eq (a ∷ ps) (b ∷ qs) = a == b && bytes_eq ps qs
bytes_eq (a ∷ ps) [] = false
bytes_eq [] (b ∷ qs) = false

module _ {NodeId : Type 0} (node_text : NodeId → List ℕ) where
  unfoldable pub probe_reply : ProbeInfo NodeId → List ℕ
  probe_reply info =
      probe_prefix
      ++ (node_text info.node_id
          ++ b':' ∷ (decimal info.quic_port ++ b':' ∷ (decimal info.tcp_port ++ 10 ∷ [])))

  -- One turn of the probe server: only the magic is answered, with the port that is published then.
  unfoldable pub answer_probe : ProbeInfo NodeId → List ℕ → Option (List ℕ)
  unfolding bytes_eq
  answer_probe info request =
      if bytes_eq (take 256 request) probe_magic then some (probe_reply info) else none

module _ {NodeId : Type 0} (node_of : List ℕ → Option NodeId) where
  abbrev with_node : Option ℕ → Option ℕ → Option NodeId → Result NetworkError (ProbeInfo NodeId)
  with_node quic tcp none = err not_a_node_id
  with_node quic tcp (some node) =
      ok (record { node_id = node; quic_port = quic_port_or quic; tcp_port = tcp_port_or tcp })

  abbrev pub with_parts : List (List ℕ) → Result NetworkError (ProbeInfo NodeId)
  with_parts [] = err (malformed [])
  with_parts (node ∷ ports) =
      with_node (port_of (part 0 ports)) (port_of (part 1 ports)) (node_of node)

  abbrev pub with_body : List ℕ → Option (List ℕ) → Result NetworkError (ProbeInfo NodeId)
  with_body text none = err (malformed text)
  with_body text (some body) = with_parts (split body)

  -- What the sender learns from the reply, which is none if the text is not UTF-8.
  unfoldable pub read_reply : Option (List ℕ) → Result NetworkError (ProbeInfo NodeId)
  unfolding split trim strip_prefix
  read_reply none = err not_utf8
  read_reply (some text) = with_body (trim text) (strip_prefix probe_prefix (trim text))

  -- The probe: the reply, if one comes in time.
  unfoldable pub probe : Option (Option (List ℕ)) → Result NetworkError (ProbeInfo NodeId)
  unfolding read_reply
  probe none = err timed_out
  probe (some reply) = read_reply reply
