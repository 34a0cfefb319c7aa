-- ===== src/Desktop/Network.antt =====
-- A connection of the desktop sharing (src-tauri/src/desktop_share/network.rs): how a message becomes
-- the bytes of a stream, and how it is received. The serialisation of bincode is an argument.
pub mod RoundTrip
use vnt_gui_dev.Prelude.{
  ℕ, String, Bool, Option, none, some, List, [], ◌∷◌, ◌++◌, ◌==◌, ltb, if◌then◌else◌, length, take,
  drop, Result, ok, err,
}
use vnt_gui_dev.Frame.{max_frame_size, frame, Head, read_head, read_body}
use vnt_gui_dev.Desktop.Protocol.{
  ControlMsg, InputEvent, VideoFrameHeader, RecvMessage, control, input, clipboard, video,
}

-- How sending or receiving fails; the texts are constructors.
pub data NetworkError : Type 0 where
  head_missing body_missing header_missing undecodable : NetworkError
  too_large : ℕ → NetworkError
  unknown_kind : ℕ → NetworkError
  length_differs : ℕ → ℕ → NetworkError

abbrev pub video_header_len : ℕ
video_header_len = 21

-- bincode, for each type that is sent.
pub record Codec : Type 0 where
  pub control_bytes : ControlMsg → List ℕ
  pub control_of : List ℕ → Option ControlMsg
  pub input_bytes : InputEvent → List ℕ
  pub input_of : List ℕ → Option InputEvent
  pub text_bytes : String → List ℕ
  pub text_of : List ℕ → Option String
  pub header_bytes : VideoFrameHeader → List ℕ
  pub header_of : List ℕ → Option VideoFrameHeader

module _ (codec : Codec) where
  unfoldable pub send_control : ControlMsg → List ℕ
  send_control m = frame 0 (codec.control_bytes m)

  unfoldable pub send_input : InputEvent → List ℕ
  send_input e = frame 1 (codec.input_bytes e)

  unfoldable pub send_clipboard : String → List ℕ
  send_clipboard text = frame 2 (codec.text_bytes text)

  unfoldable pub send_video : VideoFrameHeader → List ℕ → Result NetworkError (List ℕ)
  send_video header bytes =
      if header.data_len == length bytes
      then ok (frame 3 (codec.header_bytes header ++ bytes))
      else err (length_differs header.data_len (length bytes))

  abbrev pub decoded {ℓ} :
      {A : Type ℓ} → (A → RecvMessage) → Option A → Result NetworkError RecvMessage
  decoded wrap none = err undecodable
  decoded wrap (some a) = ok (wrap a)

  abbrev pub video_with : List ℕ → Option VideoFrameHeader → Result NetworkError RecvMessage
  video_with bytes none = err undecodable
  video_with bytes (some header) =
      if header.data_len == length bytes
      then ok (video header bytes)
      else err (length_differs header.data_len (length bytes))

  unfoldable pub decode_video : List ℕ → Result NetworkError RecvMessage
  decode_video payload =
      if ltb (length payload) video_header_len
      then err header_missing
      else video_with (drop video_header_len payload)
          (codec.header_of (take video_header_len payload))

  unfoldable pub decode : ℕ → List ℕ → Result NetworkError RecvMessage
  unfolding decode_video
  decode kind payload =
      if kind == 0
      then decoded control (codec.control_of payload)
      else if kind == 1
      then decoded input (codec.input_of payload)
      else if kind == 2
      then decoded clipboard (codec.text_of payload)
      else if kind == 3
      then decode_video payload
      else err (unknown_kind kind)

  abbrev pub with_body : ℕ → Option (List ℕ) → Result NetworkError RecvMessage
  with_body kind none = err body_missing
  with_body kind (some payload) = decode kind payload

  abbrev pub with_head : Option Head → Result NetworkError RecvMessage
  with_head none = err head_missing
  with_head (some head) =
      if ltb max_frame_size head.len
      then err (too_large head.len)
      else with_body head.kind (read_body head.len head.rest)

  -- The message on the next stream, whose bytes these are.
  unfoldable pub recv_next : List ℕ → Result NetworkError RecvMessage
  recv_next stream = with_head (read_head stream)
