-- ===== src/Desktop/Session/Busy.antt =====
-- Requests during a session, and the end of a session.
use vnt_gui_dev.Prelude.{
  ℕ, ◌≡◌, refl, sym, String, true, Option, none, some, List, [], ◌∷◌, ◌++◌, arith, append-nil,
  append_assoc, ok, err, ◌⊎◌,
}
use vnt_gui_dev.Desktop.Protocol.{
  ClientCapabilities, GrantedCapabilities, RecvMessage, control, connect_request, connect_reject,
  connect_accept, disconnected, connection,
}
use vnt_gui_dev.Desktop.Session.Invariant.{is_some}
use vnt_gui_dev.Desktop.State.{
  SessionState, SessionManager, Event, sent, closed, sharing, connecting, waiting_confirm,
  is_active, enter_sharing, fail, ended, no_info,
}
use vnt_gui_dev.Desktop.Session.{
  Dial, Answer, Arrival, received, request_connect, handle_incoming, disconnect, close_active,
  close_pending,
}

-- A session is being set up, waits for the user, or runs.
abbrev pub InUse : SessionState → Type 0
InUse state = (state ≡ connecting) ⊎ (state ≡ waiting_confirm) ⊎ (state ≡ sharing)

InUse-is_active : (m : SessionManager) → InUse m.state.state → is_active m.state.state ≡ true
InUse-is_active m h = ground arith

-- While a session is being set up, waits for the user or runs, a request of this device fails
-- without a change. Whatever connection comes in, and whatever is read from it, everything but the
-- wire stays as it is; a request that is read is answered with a rejection on its own connection,
-- which is then closed.
pub active_session_is_kept :
    (debug : RecvMessage → String) (now : ℕ) (remote_ip device_name node_id : String)
    (caps : ClientCapabilities) (dial : Dial) (a : Arrival) (conn : ℕ)
    (address other other_id : String) (other_caps : ClientCapabilities) (m : SessionManager)
    → InUse m.state.state
    → (request_connect debug now remote_ip device_name node_id caps dial m
        ≡ (err (connection "当前会话未空闲，请先断开后再连接"), m))
      × (record (handle_incoming a m).1 { wire = m.wire } ≡ m)
      × (handle_incoming
            (record {
              accepted = ok conn;
              remote_address = address;
              received = ok (control (connect_request other other_id other_caps));
            })
            m
          ≡ (
            ok none,
            record m {
              wire =
                  (m.wire ++ sent conn (connect_reject "本机当前忙，请稍后再试") ∷ [])
                  ++ closed conn "busy" ∷ [];
            },
          ))
unfolding request_connect handle_incoming
active_session_is_kept debug now remote_ip device_name node_id caps dial a conn address other
      other_id other_caps m used =
    let act = InUse-is_active m used in
    (ground (arith, act), ground (arith, act), ground (arith, act))

-- What an answer grants, if it is an acceptance.
abbrev pub granted_in : Answer → Option GrantedCapabilities
granted_in (received (ok (control (connect_accept granted screen)))) = some granted
granted_in other = none

-- A request of this device succeeds only with the connection that was made and an acceptance in
-- answer to the one request sent on it; the session then shares on that connection with exactly
-- what the peer has granted.
request_connect_grants :
    (debug : RecvMessage → String) (now : ℕ) (remote_ip device_name node_id : String)
    (caps : ClientCapabilities) (dial : Dial) (m : SessionManager) (conn : ℕ)
    → (request_connect debug now remote_ip device_name node_id caps dial m).0 ≡ ok conn
    → (dial.connect ≡ ok conn)
      × (is_some (granted_in dial.answer) ≡ true)
      × ((request_connect debug now remote_ip device_name node_id caps dial m).1.state.state
          ≡ sharing)
      × ((request_connect debug now remote_ip device_name node_id caps dial m).1.state.capabilities
          ≡ granted_in dial.answer)
      × ((request_connect debug now remote_ip device_name node_id caps dial m).1.connection
          ≡ some conn)
      × ((request_connect debug now remote_ip device_name node_id caps dial m).1.wire
          ≡ m.wire ++ sent conn (connect_request device_name node_id caps) ∷ [])
unfolding request_connect enter_sharing fail
request_connect_grants debug now remote_ip device_name node_id caps dial m conn h = ground arith

abbrev goodbye : Option ℕ → String → List Event
goodbye none reason = []
goodbye (some c) reason = sent c (disconnected reason) ∷ closed c reason ∷ []

abbrev refusal : Option ℕ → String → List Event
refusal none reason = []
refusal (some c) reason = closed c reason ∷ []

close_active-wire :
    (c : Option ℕ) (reason : String) (m : SessionManager)
    → (close_active c reason m).wire ≡ m.wire ++ goodbye c reason
close_active-wire none reason m = sym (append-nil m.wire)
close_active-wire (some c) reason m =
    append_assoc m.wire (sent c (disconnected reason) ∷ []) (closed c reason ∷ [])

close_pending-wire :
    (c : Option ℕ) (reason : String) (m : SessionManager)
    → (close_pending c reason m).wire ≡ m.wire ++ refusal c reason
close_pending-wire none reason m = sym (append-nil m.wire)
close_pending-wire (some c) reason m = refl

-- Disconnecting ends whatever is there: the peer of the connection is told and the connection
-- closed, then the connection of a waiting request is closed, and nothing of either is kept.
disconnect_clears :
    (reason : String) (m : SessionManager)
    → ((disconnect reason m).connection ≡ none)
      × ((disconnect reason m).pending ≡ none)
      × ((disconnect reason m).pending_info ≡ none)
      × ((disconnect reason m).state ≡ record no_info { state = ended reason })
      × ((disconnect reason m).wire
          ≡ m.wire ++ (goodbye m.connection reason ++ refusal m.pending reason))
unfolding disconnect
disconnect_clears reason m =
    let m' = close_active m.connection reason m in
    let bye = goodbye m.connection reason in
    ground (
      arith,
      close_active-wire m.connection reason m,
      close_pending-wire m'.pending reason m',
      append_assoc m.wire bye (refusal m.pending reason),
    )
