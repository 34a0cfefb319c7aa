-- ===== src/Transfer/Network/Messages.antt =====
-- A message that is sent on a connection of the file transfer is the one that is received.
use vnt_gui_dev.Prelude.{◌^◌, ◌<◌, ◌≡◌, ap, if◌then◌else◌, some, ltb, length, ok, err}
use vnt_gui_dev.Frame.{max_frame_size, read_head-frame, read_body_all}
use vnt_gui_dev.Transfer.Protocol.{FileMsg}
use vnt_gui_dev.Transfer.Network.{too_large, FileCodec, with_message, send_msg, recv_msg}

-- If the bytes of a message read back as the message and have a length that fits
-- in 32 bits, then receiving what was sent gives the message, unless it is longer than a frame may be,
-- which the receiver says with the length.
sent_msg_is_received :
    (codec : FileCodec) (m : FileMsg)
    → codec.msg_of (codec.bytes_of m) ≡ some m
    → length (codec.bytes_of m) < 2 ^ 32
    → recv_msg codec (send_msg codec m) ≡ (
        if ltb max_frame_size (length (codec.bytes_of m))
        then err (too_large (length (codec.bytes_of m)))
        else ok m)
unfolding recv_msg send_msg
sent_msg_is_received codec m inverse h =
    let n = length (codec.bytes_of m) in
    rw (read_head-frame 1 (codec.bytes_of m) h, read_body_all (codec.bytes_of m))
      (ap (λ o. if ltb max_frame_size n then err (too_large n) else with_message codec o) inverse)
