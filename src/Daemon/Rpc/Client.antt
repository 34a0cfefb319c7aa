-- ===== src/Daemon/Rpc/Client.antt =====
-- The GUI's side of the daemon's RPC (src-tauri/src/daemon/rpc_client.rs). What the network does with a
-- request is an argument; the debug text of an unexpected response is one too.
use Prim.Native.String.{◌++◌ as ◌<>◌}
use vnt_gui_dev.Prelude.{ℕ, String, List, Result, ok, err}
use vnt_gui_dev.App.Config.{VntConfig}
use vnt_gui_dev.App.Log.{LogEntry}
use vnt_gui_dev.Ftp.Log.{FtpLogEntry}
use vnt_gui_dev.Daemon.State.{PeerInfo}
use vnt_gui_dev.Daemon.Ftp.{FtpConfigWithSecrets}
use vnt_gui_dev.Daemon.Rpc.{
  DaemonRequest, DaemonResponse, pong, state, ok_response, logs, event, into_result,
}

-- What is read within ten seconds of the request.
pub data Read (Text : Type 0) : Type 0 where
  line : Text → Read Text
  failed : String → Read Text
  closed timed_out : Read Text

-- The network and the texts: whether the daemon can be reached, the text of the request, whether it
-- can be sent, and what is read then.
pub record Network (Value Text : Type 0) : Type 0 where
  pub connect : Result String (Unit {0})
  pub print : DaemonRequest → Result String Text
  pub send : Text → Result String (Unit {0})
  pub next : Text → Read Text
  pub parse : Text → Result String (DaemonResponse Value)

module _ {Value Text : Type 0} (net : Network Value Text)
    (show : DaemonResponse Value → String) where
  abbrev pub parsed : Result String (DaemonResponse Value) → Result String (DaemonResponse Value)
  parsed (ok r) = ok r
  parsed (err e) = err ("解析响应失败: " <> e)

  abbrev on_read : Read Text → Result String (DaemonResponse Value)
  on_read (line text) = parsed (net.parse text)
  on_read (failed e) = err ("读取响应失败: " <> e)
  on_read closed = err "daemon 未返回响应（连接关闭）"
  on_read timed_out = err "等待 daemon 响应超时"

  abbrev on_sent : Text → Result String (Unit {0}) → Result String (DaemonResponse Value)
  on_sent text (ok _) = on_read (net.next text)
  on_sent text (err e) = err ("发送请求失败: " <> e)

  abbrev on_printed : Result String Text → Result String (DaemonResponse Value)
  on_printed (ok text) = on_sent text (net.send text)
  on_printed (err e) = err ("序列化请求失败: " <> e)

  abbrev on_connected :
      DaemonRequest → Result String (Unit {0}) → Result String (DaemonResponse Value)
  on_connected req (ok _) = on_printed (net.print req)
  on_connected req (err e) = err ("连接 daemon 失败: " <> e)

  unfoldable pub send_request : DaemonRequest → Result String (DaemonResponse Value)
  send_request req = on_connected req net.connect

  abbrev unexpected : {A : Type 0} → DaemonResponse Value → Result String A
  unexpected r = err ("意外响应: " <> show r)

  abbrev forget : Result String (DaemonResponse Value) → Result String (Unit {0})
  forget (ok _) = ok tt
  forget (err e) = err e

  -- `into_result`, and no value.
  abbrev pub checked : Result String (DaemonResponse Value) → Result String (Unit {0})
  unfolding into_result
  checked (ok r) = forget (into_result r)
  checked (err e) = err e

  abbrev parsed_logs : Result String (List FtpLogEntry) → Result String (List FtpLogEntry)
  parsed_logs (ok es) = ok es
  parsed_logs (err e) = err ("解析日志失败: " <> e)

  abbrev uptime_of : Result String (DaemonResponse Value) → Result String ℕ
  uptime_of (ok (pong n)) = ok n
  uptime_of (ok other) = unexpected other
  uptime_of (err e) = err e

  abbrev peers_of : Result String (DaemonResponse Value) → Result String (List PeerInfo)
  peers_of (ok (state s)) = ok s.peers
  peers_of (ok other) = unexpected other
  peers_of (err e) = err e

  abbrev logs_of : Result String (DaemonResponse Value) → Result String (List LogEntry)
  logs_of (ok (logs es)) = ok es
  logs_of (ok other) = unexpected other
  logs_of (err e) = err e

  abbrev value_of : Result String (DaemonResponse Value) → Result String Value
  value_of (ok (event name value)) = ok value
  value_of (ok other) = unexpected other
  value_of (err e) = err e

  abbrev entries_of :
      (Value → Result String (List FtpLogEntry))
      → Result String Value
      → Result String (List FtpLogEntry)
  entries_of from_value (err e) = err e
  entries_of from_value (ok value) = parsed_logs (from_value value)

  abbrev done_of : Result String (DaemonResponse Value) → Result String (Unit {0})
  done_of (ok ok_response) = ok tt
  done_of (ok other) = unexpected other
  done_of (err e) = err e

  unfoldable pub ping : Result String ℕ
  ping = uptime_of (send_request DaemonRequest.ping)

  unfoldable pub get_state : Result String (DaemonResponse Value)
  get_state = send_request DaemonRequest.get_state

  unfoldable pub vnt_start : VntConfig → Result String (Unit {0})
  vnt_start config = checked (send_request (DaemonRequest.vnt_start config))

  unfoldable pub vnt_stop : Result String (Unit {0})
  vnt_stop = checked (send_request DaemonRequest.vnt_stop)

  unfoldable pub vnt_restart : VntConfig → Result String (Unit {0})
  vnt_restart config = checked (send_request (DaemonRequest.vnt_restart config))

  unfoldable pub ftp_start : FtpConfigWithSecrets → Result String (Unit {0})
  ftp_start config = checked (send_request (DaemonRequest.ftp_start config))

  unfoldable pub ftp_stop : Result String (Unit {0})
  ftp_stop = checked (send_request DaemonRequest.ftp_stop)

  unfoldable pub ftp_restart : FtpConfigWithSecrets → Result String (Unit {0})
  ftp_restart config = checked (send_request (DaemonRequest.ftp_restart config))

  unfoldable pub vnt_list_peers : Result String (List PeerInfo)
  vnt_list_peers = peers_of (send_request DaemonRequest.vnt_list_peers)

  unfoldable pub ftp_get_logs :
      (Value → Result String (List FtpLogEntry)) → Result String (List FtpLogEntry)
  ftp_get_logs from_value =
      entries_of from_value (value_of (send_request DaemonRequest.ftp_get_logs))

  unfoldable pub vnt_get_logs : Result String (List LogEntry)
  vnt_get_logs = logs_of (send_request DaemonRequest.vnt_get_logs)

  unfoldable pub vnt_clear_logs : Result String (Unit {0})
  vnt_clear_logs = done_of (send_request DaemonRequest.vnt_clear_logs)

  -- `shutdown_daemon`: whatever comes back, it is a success.
  unfoldable pub shutdown_daemon : Result String (Unit {0})
  shutdown_daemon = elim (send_request DaemonRequest.shutdown) [ ok _ ↦ ok tt | err _ ↦ ok tt ]
