-- ===== src/Desktop/Tests.antt =====
-- The desktop session and the encoder at concrete inputs.
use vnt_gui_dev.Prelude.{
  ℕ, ◌≡◌, refl, String, true, false, none, some, List, [], ◌∷◌, arith, ok, err, Option, ltb, inl,
  inr, if◌then◌else◌,
}
use vnt_gui_dev.Desktop.Protocol.{
  ClientCapabilities, GrantedCapabilities, ScreenInfo, RecvMessage, control, network, connection,
  ControlMsg, ping, connect_request, connect_accept, connect_reject,
}
use vnt_gui_dev.Desktop.State.{SessionManager, sent, closed, new, no_info, waiting_confirm}
use vnt_gui_dev.Desktop.Session.{
  Dial, Arrival, received, request_connect, handle_incoming, accept_pending, reject_pending,
  no_pending,
}
use vnt_gui_dev.Desktop.Session.Invariant.{
  started, stepped, incoming, IsValid, reachable_sessions-IsValid,
}
use vnt_gui_dev.Desktop.Session.Busy.{active_session_is_kept}
use vnt_gui_dev.Desktop.Session.Stuck.{
  arriving, rejecting, after_tries, Blocked, failed_acceptance_blocks,
}
use vnt_gui_dev.Frame.{max_frame_size}
use vnt_gui_dev.Desktop.Network.{Codec, too_large, send_control, recv_next}
use vnt_gui_dev.Desktop.Network.RoundTrip.{send, sent_is_received}
use vnt_gui_dev.Desktop.Encoder.{Annexb, push_nal, convert_annexb_to_annexb, convert_avcc_to_annexb}
use vnt_gui_dev.Desktop.Encoder.Streams.{
  annexb_of, avcc_of, push_all, both_formats_push_units, prefix_parameter_is_lost,
}

abbrev debug : RecvMessage → String
debug m = "message"

abbrev caps : ClientCapabilities
caps = record { mouse = true; keyboard = true; clipboard = false; view_only = false }

abbrev granted : GrantedCapabilities
granted = record { mouse = true; keyboard = true; clipboard = false; view_only = false }

abbrev screen : ScreenInfo
screen = record { width = 1920; height = 1080; dpi = 96; monitor_count = 1 }

abbrev request : Arrival
request = record {
  accepted = ok 4;
  remote_address = "10.26.0.2:5000";
  received = ok (control (connect_request "pc" "node" caps));
}

abbrev waiting : SessionManager
waiting = record new { state = record no_info { state = waiting_confirm }; pending = some 4 }

reachable_sessions-IsValid_example : IsValid (handle_incoming request new).1
reachable_sessions-IsValid_example =
    reachable_sessions-IsValid debug (handle_incoming request new).1
      (stepped started (incoming request new))

abbrev accepted : Dial
accepted = record {
  connect = ok 5;
  send = ok tt;
  answer = received (ok (control (connect_accept granted screen)));
}

active_session_is_kept_example :
    (request_connect debug 0 "10.26.0.2" "pc" "node" caps accepted waiting
      ≡ (err (connection "当前会话未空闲，请先断开后再连接"), waiting))
    × (record (handle_incoming request waiting).1 { wire = [] } ≡ waiting)
    × (handle_incoming
          (record {
            accepted = ok 6;
            remote_address = "10.26.0.3:5000";
            received = ok (control (connect_request "other" "id" caps));
          })
          waiting
        ≡ (
          ok none,
          record waiting { wire = sent 6 (connect_reject "本机当前忙，请稍后再试") ∷ closed 6 "busy" ∷ [] },
        ))
active_session_is_kept_example =
    active_session_is_kept debug 0 "10.26.0.2" "pc" "node" caps accepted request 6 "10.26.0.3:5000"
      "other" "id" caps waiting (inr (inl refl))

abbrev stuck : SessionManager
stuck =
    after_tries debug (arriving request ∷ rejecting "no" ∷ [])
      (accept_pending (err (network "down")) 0 granted screen waiting).1

failed_acceptance_blocks_example :
    ((accept_pending (err (network "down")) 0 granted screen waiting).0 ≡ err (network "down"))
    × Blocked stuck
    × (stuck.connection ≡ none)
    × ((accept_pending (ok tt) 0 granted screen stuck).0 ≡ err no_pending)
    × ((reject_pending "no" stuck).0 ≡ err no_pending)
    × ((request_connect debug 0 "10.26.0.2" "pc" "node" caps accepted stuck).0
        ≡ err (connection "当前会话未空闲，请先断开后再连接"))
failed_acceptance_blocks_example =
    failed_acceptance_blocks debug (network "down") 0 granted screen 4 waiting
      (arriving request ∷ rejecting "no" ∷ []) (ok tt) "no" "10.26.0.2" "pc" "node" caps accepted
      refl refl

abbrev empty : Annexb
empty = record { sps_pps = []; out = []; saw_idr = false }

abbrev units : List (List ℕ)
units = (103 ∷ 100 ∷ []) ∷ (101 ∷ 136 ∷ 132 ∷ []) ∷ []

both_formats_push_units_example :
    (convert_annexb_to_annexb (annexb_of units) empty ≡ push_all units empty)
    × (convert_avcc_to_annexb (annexb_of units) empty ≡ push_all units empty)
    × (convert_avcc_to_annexb (avcc_of units) empty ≡ push_all units empty)
both_formats_push_units_example =
    both_formats_push_units units empty ((omega arith, refl), ((omega arith, refl), tt)) refl

prefix_parameter_is_lost_example :
    push_nal (103 ∷ 100 ∷ []) (push_nal (103 ∷ 100 ∷ 31 ∷ []) empty)
    ≡ push_nal (103 ∷ 100 ∷ 31 ∷ []) empty
prefix_parameter_is_lost_example = prefix_parameter_is_lost 103 (100 ∷ []) (31 ∷ []) empty refl refl

abbrev ping_bytes : ControlMsg → List ℕ
ping_bytes (ping n) = n ∷ []
ping_bytes m = []

abbrev ping_of : List ℕ → Option ControlMsg
ping_of [] = none
ping_of (n ∷ ns) = some (ping n)

abbrev codec : Codec
codec = record {
  control_bytes = ping_bytes;
  control_of = ping_of;
  input_bytes = λ e. [];
  input_of = λ bytes. none;
  text_bytes = λ t. [];
  text_of = λ bytes. none;
  header_bytes = λ h. [];
  header_of = λ bytes. none;
}

pings : send codec (control (ping 7)) ≡ ok (send_control codec (ping 7))
unfolding send
pings = refl

sent_is_received_example :
    recv_next codec (send_control codec (ping 7))
    ≡ (if ltb max_frame_size 1 then err (too_large 1) else ok (control (ping 7)))
sent_is_received_example =
    sent_is_received codec (control (ping 7)) (send_control codec (ping 7)) refl (omega arith) pings
