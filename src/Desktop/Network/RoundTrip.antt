-- ===== src/Desktop/Network/RoundTrip.antt =====
-- What is sent is received.
use vnt_gui_dev.Prelude.{
  ℕ, ◌^◌, ◌≤◌, ◌<◌, ◌≡◌, sym, ◌∙◌, ap, if◌then◌else◌, true, false, some, List, ◌++◌, ◌==◌, ltb,
  arith, length, take, drop, take-append, drop-append, length-append, Result, ok, err, Bool-cases,
  inl, inr, ==_refl, ==→eq, ltb→lt, ltb→le,
}
use vnt_gui_dev.Frame.{max_frame_size, frame, read_head-frame, read_body_all}
use vnt_gui_dev.Desktop.Protocol.{VideoFrameHeader, RecvMessage, control, input, clipboard, video}
use vnt_gui_dev.Desktop.Network.{
  NetworkError, too_large, Codec, video_header_len, send_control, send_input, send_clipboard,
  send_video, decode_video, decode, recv_next,
}

-- bincode reads back what it has written of the message, and writes a video header in 21 bytes.
abbrev pub HeaderInverse : Codec → VideoFrameHeader → Type 0
HeaderInverse codec h =
    (codec.header_of (codec.header_bytes h) ≡ some h)
    × (length (codec.header_bytes h) ≡ video_header_len)

abbrev pub Inverse : Codec → RecvMessage → Type 0
Inverse codec (control m) = codec.control_of (codec.control_bytes m) ≡ some m
Inverse codec (input e) = codec.input_of (codec.input_bytes e) ≡ some e
Inverse codec (clipboard t) = codec.text_of (codec.text_bytes t) ≡ some t
Inverse codec (video h bytes) = HeaderInverse codec h

-- The stream of a message, and its payload.
unfoldable pub send : Codec → RecvMessage → Result NetworkError (List ℕ)
unfolding send_control send_input send_clipboard send_video
send codec (control m) = ok (send_control codec m)
send codec (input e) = ok (send_input codec e)
send codec (clipboard t) = ok (send_clipboard codec t)
send codec (video h bytes) = send_video codec h bytes

abbrev pub payload_of : Codec → RecvMessage → List ℕ
payload_of codec (control m) = codec.control_bytes m
payload_of codec (input e) = codec.input_bytes e
payload_of codec (clipboard t) = codec.text_bytes t
payload_of codec (video h bytes) = codec.header_bytes h ++ bytes

recv_frame :
    (codec : Codec) (kind : ℕ) (payload : List ℕ)
    → length payload ≤ max_frame_size
    → recv_next codec (frame kind payload) ≡ decode codec kind payload
unfolding recv_next
recv_frame codec kind payload h =
    let fits : ltb max_frame_size (length payload) ≡ false = ground arith in
    rw (read_head-frame kind payload (omega arith), fits, read_body_all payload)

recv_too_large :
    (codec : Codec) (kind : ℕ) (payload : List ℕ)
    → max_frame_size < length payload
    → length payload < 2 ^ 32
    → recv_next codec (frame kind payload) ≡ err (too_large (length payload))
unfolding recv_next
recv_too_large codec kind payload h small =
    let over : ltb max_frame_size (length payload) ≡ true = ground arith in
    rw (read_head-frame kind payload small, over)

sent_as : {a b : List ℕ} → ◌≡◌ {A = Result NetworkError (List ℕ)} (ok a) (ok b) → b ≡ a
sent_as e = cc

decode_video_lem :
    (codec : Codec) (h : VideoFrameHeader) (bytes : List ℕ)
    → HeaderInverse codec h
    → h.data_len ≡ length bytes
    → decode_video codec (codec.header_bytes h ++ bytes) ≡ ok (video h bytes)
unfolding decode_video
decode_video_lem codec h bytes inverse same =
    let head : take video_header_len (codec.header_bytes h ++ bytes) ≡ codec.header_bytes h =
      ap (λ n. take n (codec.header_bytes h ++ bytes)) (sym (inverse.1))
      ∙ take-append (codec.header_bytes h) bytes in
    let tail : drop video_header_len (codec.header_bytes h ++ bytes) ≡ bytes =
      ap (λ n. drop n (codec.header_bytes h ++ bytes)) (sym (inverse.1))
      ∙ drop-append (codec.header_bytes h) bytes in
    let long : ltb (length (codec.header_bytes h ++ bytes)) video_header_len ≡ false =
      ground (arith, length-append (codec.header_bytes h) bytes, inverse.1) in
    let exact : (h.data_len == length bytes) ≡ true = rw same (==_refl (length bytes)) in
    rw (long, head, tail, inverse.0, exact)

-- The payload is received as the message, if it is not too large.
received :
    (codec : Codec) (kind : ℕ) (payload : List ℕ) (m : RecvMessage)
    → length payload < 2 ^ 32
    → decode codec kind payload ≡ ok m
    → recv_next codec (frame kind payload)
      ≡ (if ltb max_frame_size (length payload) then err (too_large (length payload)) else ok m)
received codec kind payload m small h = elim (Bool-cases (ltb max_frame_size (length payload))) [
  | inl over ↦ rw over (recv_too_large codec kind payload (ltb→lt _ _ over) small)
  | inr fits ↦ rw fits (recv_frame codec kind payload (ltb→le _ _ fits) ∙ h)
]

-- Every message that can be sent is received as it was sent, whatever its kind, if its payload has at
-- most 8 MiB; a larger one is sent all the same, and refused by the receiver. bincode reads back what
-- it has written of the message, and the length fits in 32 bits.
pub sent_is_received :
    (codec : Codec) (m : RecvMessage) (stream : List ℕ)
    → Inverse codec m
    → length (payload_of codec m) < 2 ^ 32
    → send codec m ≡ ok stream
    → recv_next codec stream ≡ (
        if ltb max_frame_size (length (payload_of codec m))
        then err (too_large (length (payload_of codec m)))
        else ok m)
unfolding send decode
sent_is_received codec (control m) stream inverse small h =
    ap (recv_next codec) (sent_as h)
    ∙ received codec 0 (codec.control_bytes m) (control m) small (rw inverse)
sent_is_received codec (input e) stream inverse small h =
    ap (recv_next codec) (sent_as h)
    ∙ received codec 1 (codec.input_bytes e) (input e) small (rw inverse)
sent_is_received codec (clipboard t) stream inverse small h =
    ap (recv_next codec) (sent_as h)
    ∙ received codec 2 (codec.text_bytes t) (clipboard t) small (rw inverse)
sent_is_received codec (video v bytes) stream inverse small h =
    elim (Bool-cases (v.data_len == length bytes)) [
      | inr differs ↦ cc (rw differs at h)
      | inl exact ↦
          ap (recv_next codec) (sent_as (rw exact at h))
          ∙ received codec 3 (codec.header_bytes v ++ bytes) (video v bytes) small
              (decode_video_lem codec v bytes inverse (==→eq _ _ exact))
    ]
