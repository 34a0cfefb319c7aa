-- ===== src/Desktop/Session.antt =====
-- The operations of the desktop session (src-tauri/src/desktop_share/session.rs): one state machine
-- for the controlling and for the controlled side. The results of the network's calls are arguments
-- of the operations. A message whose sending fails is in the log where the code drops the error.
pub mod Invariant
pub mod Busy
pub mod Stuck
use Prim.Native.String.{◌++◌ as ◌<>◌}
use vnt_gui_dev.Prelude.{
  ℕ, ◌-◌, String, Bool, true, false, Option, none, some, List, [], ◌∷◌, ◌++◌, if◌then◌else◌, Result,
  ok, err,
}
use vnt_gui_dev.Desktop.Protocol.{
  ClientCapabilities, GrantedCapabilities, ScreenInfo, ControlMsg, RecvMessage, DesktopError,
  control, connect_request, connect_accept, connect_reject, disconnected, connection, protocol,
  error_text,
}
use vnt_gui_dev.Desktop.State.{
  SessionRole, SessionState, SessionStats, SessionInfo, ConnectRequestInfo, Event, SessionManager,
  no_info, new, log, is_active, set_info, fail, enter_sharing, update_stats, idle, controller, host,
  waiting_confirm, connecting, sharing, ended, failed, sent, closed, get_state, no_stats,
}

-- What the peer's side of `request_connect` does: the connection, whether the request could be
-- sent, and the answer within the 30 seconds.
pub data Answer : Type 0 where
  timeout : Answer
  received : Result DesktopError RecvMessage → Answer

pub record Dial : Type 0 where
  pub connect : Result DesktopError ℕ
  pub send : Result DesktopError (Unit {0})
  pub answer : Answer

module _ (debug : RecvMessage → String) where
  abbrev unexpected : RecvMessage → SessionManager → Result DesktopError ℕ × SessionManager
  unexpected other m = (err (protocol ("意外消息: " <> debug other)), fail "对端返回了意外的消息" m)

  abbrev on_answer : ℕ → ℕ → Answer → SessionManager → Result DesktopError ℕ × SessionManager
  on_answer now conn (received (ok (control (connect_accept granted screen)))) m =
      (ok conn, enter_sharing now (some conn) (some granted) (some screen) none m)
  on_answer now conn (received (ok (control (connect_reject reason)))) m =
      (err (connection ("对方拒绝: " <> reason)), fail ("对方拒绝: " <> reason) m)
  on_answer now conn (received (ok other)) m = unexpected other m
  on_answer now conn (received (err e)) m =
      (err (connection ("接收响应失败: " <> error_text e)), fail (error_text e) m)
  on_answer now conn timeout m = (err (connection "连接确认超时"), fail "等待确认超时" m)

  abbrev on_sent :
      Result DesktopError (Unit {0})
      → ℕ
      → ℕ
      → ControlMsg
      → Answer
      → SessionManager
      → Result DesktopError ℕ × SessionManager
  on_sent (err e) now conn request answer m = (err e, fail (error_text e) m)
  on_sent (ok _) now conn request answer m = on_answer now conn answer (log (sent conn request) m)

  abbrev on_connected :
      Dial
      → ℕ
      → ControlMsg
      → Result DesktopError ℕ
      → SessionManager
      → Result DesktopError ℕ × SessionManager
  on_connected dial now request (err e) m = (err e, fail (error_text e) m)
  on_connected dial now request (ok conn) m = on_sent dial.send now conn request dial.answer m

  unfoldable pub request_connect :
      (now : ℕ) (remote_ip device_name node_id : String)
      → ClientCapabilities
      → Dial
      → SessionManager
      → Result DesktopError ℕ × SessionManager
  request_connect now remote_ip device_name node_id capabilities dial m =
      if is_active m.state.state
      then (err (connection "当前会话未空闲，请先断开后再连接"), m)
      else on_connected dial now (connect_request device_name node_id capabilities) dial.connect (
          set_info
            (record no_info {
              state = connecting;
              role = controller;
              remote_device = some device_name;
              remote_address = some (remote_ip <> ":探测发现");
            })
            m)

-- A connection that comes in, and what is first read from it.
pub record Arrival : Type 0 where
  pub accepted : Result DesktopError ℕ
  pub remote_address : String
  pub received : Result DesktopError RecvMessage

abbrev on_request :
    ℕ
    → String
    → ConnectRequestInfo
    → SessionManager
    → Result DesktopError (Option ConnectRequestInfo) × SessionManager
on_request conn address info m =
    if is_active m.state.state
    then (ok none, log (closed conn "busy") (log (sent conn (connect_reject "本机当前忙，请稍后再试")) m))
    else (
      ok (some info),
      record m {
        pending = some conn;
        pending_info = some info;
        state = record no_info {
          state = waiting_confirm;
          role = host;
          remote_device = some info.device_name;
          remote_address = some address;
        };
      },
    )

abbrev on_first_message :
    ℕ
    → String
    → Result DesktopError RecvMessage
    → SessionManager
    → Result DesktopError (Option ConnectRequestInfo) × SessionManager
on_first_message conn address
      (ok (control (connect_request device_name client_node_id capabilities))) m =
    on_request conn address
      (record {
        device_name = device_name;
        client_node_id = client_node_id;
        capabilities = capabilities;
      })
      m
on_first_message conn address (ok other) m = (ok none, log (closed conn "protocol error") m)
on_first_message conn address (err e) m = (ok none, log (closed conn "read error") m)

abbrev on_accepted :
    Arrival
    → Result DesktopError ℕ
    → SessionManager
    → Result DesktopError (Option ConnectRequestInfo) × SessionManager
on_accepted a (err e) m = (err e, m)
on_accepted a (ok conn) m = on_first_message conn a.remote_address a.received m

unfoldable pub handle_incoming :
    Arrival → SessionManager → Result DesktopError (Option ConnectRequestInfo) × SessionManager
handle_incoming a m = on_accepted a a.accepted m

abbrev pub no_pending : DesktopError
no_pending = connection "没有待处理的连接请求"

abbrev accept_sent :
    Result DesktopError (Unit {0})
    → ℕ
    → ℕ
    → GrantedCapabilities
    → ScreenInfo
    → SessionManager
    → Result DesktopError ℕ × SessionManager
accept_sent (err e) now conn granted screen m = (err e, m)
accept_sent (ok _) now conn granted screen m = (
  ok conn,
  enter_sharing now (some conn) (some granted) (some screen) none
      (log (sent conn (connect_accept granted screen)) m),
)

abbrev accept_taken :
    Result DesktopError (Unit {0})
    → ℕ
    → Option ℕ
    → GrantedCapabilities
    → ScreenInfo
    → SessionManager
    → Result DesktopError ℕ × SessionManager
accept_taken send now none granted screen m = (err no_pending, m)
accept_taken send now (some conn) granted screen m =
    accept_sent send now conn granted screen (record m { pending = none })

-- `send` is the result of sending the acceptance.
unfoldable pub accept_pending :
    Result DesktopError (Unit {0})
    → ℕ
    → GrantedCapabilities
    → ScreenInfo
    → SessionManager
    → Result DesktopError ℕ × SessionManager
accept_pending send now granted screen m = accept_taken send now m.pending granted screen m

abbrev reject_taken :
    Option ℕ → String → SessionManager → Result DesktopError (Unit {0}) × SessionManager
reject_taken none reason m = (err no_pending, m)
reject_taken (some conn) reason m = (
  ok tt,
  log (closed conn reason) (
      log (sent conn (connect_reject reason)) (record m {
        pending = none;
        pending_info = none;
        state = record no_info { state = ended reason };
      })),
)

unfoldable pub reject_pending :
    String → SessionManager → Result DesktopError (Unit {0}) × SessionManager
reject_pending reason m = reject_taken m.pending reason m

abbrev pub close_active : Option ℕ → String → SessionManager → SessionManager
close_active none reason m = m
close_active (some conn) reason m =
    log (closed conn reason)
      (log (sent conn (disconnected reason)) (record m { connection = none }))

abbrev pub close_pending : Option ℕ → String → SessionManager → SessionManager
close_pending none reason m = m
close_pending (some conn) reason m = log (closed conn reason) (record m { pending = none })

unfoldable pub disconnect : String → SessionManager → SessionManager
disconnect reason m =
    let m' = close_active m.connection reason m in
    let m'' = close_pending m'.pending reason m' in
    record m'' { pending_info = none; state = record no_info { state = ended reason } }
