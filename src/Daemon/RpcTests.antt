-- ===== src/Daemon/RpcTests.antt =====
-- The daemon's RPC at concrete inputs: the text of a request or a response is itself.
use vnt_gui_dev.Prelude.{
  ℕ, refl, String, Bool, true, false, none, some, List, [], ◌∷◌, length, Result, ok, err,
}
use vnt_gui_dev.Transfer.Protocol.{Bytes}
use vnt_gui_dev.App.Config.{VntConfig}
use vnt_gui_dev.Ftp.Log.{FtpLogEntry}
use vnt_gui_dev.Ftp.Server.{stopped_status}
use vnt_gui_dev.Daemon.State.{StoredState, default_state}
use vnt_gui_dev.Daemon.Vnt
use vnt_gui_dev.Daemon.Ftp
use vnt_gui_dev.Daemon.Ftp.{FtpConfigWithSecrets}
use vnt_gui_dev.Daemon.Rpc.{
  DaemonRequest, DaemonResponse, Daemon, Surroundings, vnt_part, ftp_part, with_vnt, with_ftp,
  get_state,
}
use vnt_gui_dev.Daemon.Rpc.Client
use vnt_gui_dev.Daemon.Rpc.Connection.{Json, Turn, handle_connection}
use vnt_gui_dev.Daemon.Rpc.Calls.{Texts, Does, network, rpc_calls_are_transparent}
use vnt_gui_dev.Daemon.Rpc.Lines.{Count, every_line_is_answered}

data Line : Type 0 where
  request : DaemonRequest → Line
  response : DaemonResponse String → Line
  nothing : Line

abbrev is_nothing : Line → Bool
is_nothing (request r) = false
is_nothing (response r) = false
is_nothing nothing = true

abbrev request_of : Line → Result String DaemonRequest
request_of (request r) = ok r
request_of (response r) = err "not a request"
request_of nothing = err "nothing"

abbrev response_of : Line → Result String (DaemonResponse String)
response_of (request r) = err "not a response"
response_of (response r) = ok r
response_of nothing = err "nothing"

abbrev json : Json String Line
json = record {
  is_blank = is_nothing;
  empty = nothing;
  parse = request_of;
  print = λ r. some (response r);
}

abbrev texts : Texts String Line
texts = record {
  json = json;
  request_text = request;
  response_text = response;
  response_of = response_of;
  requests = λ r. refl;
  responses = λ r plain. refl;
  prints = λ r. refl;
  not_blank = λ r. refl;
}

abbrev encode : StoredState → Bytes
encode s = []

abbrev to_value : List FtpLogEntry → Result String String
to_value es = ok "logs"

abbrev show : DaemonResponse String → String
show r = "response"

abbrev surroundings : Surroundings
surroundings = record {
  now = 9;
  ftp = record { root_exists = true; root_is_dir = true; build = ok tt; listen = ok tt };
}

abbrev daemon : Daemon
daemon = record {
  runtime = none;
  server = record { runtime = none; status = stopped_status };
  keyring = record { passwords = λ n. none; refuses = λ n. none };
  state = default_state 5;
  disk = record { files = λ p. none; faults = [] };
  ftp_logs = [];
  rt_logs = [];
}

abbrev config : VntConfig
config = record {
  id = "a";
  name = "home";
  token = "t";
  device_name = none;
  device_id = none;
  virtual_ip = none;
  server_address = none;
  password = none;
  server_encrypt = false;
  in_ips = [];
  out_ips = [];
  compressor = none;
  mtu = none;
  use_tcp = false;
  use_ws = false;
  no_proxy = false;
  created_at = "c";
  updated_at = "u";
  last_used = none;
}

abbrev ftp : FtpConfigWithSecrets
ftp = record {
  enabled = true;
  auto_start_with_app = false;
  root_dir = "d";
  port = 2121;
  so_reuseaddr = true;
  pasv_ports = none;
  users = [];
}

abbrev trim : String → String
trim s = s

abbrev shown : ℕ → String
shown n = "n"

abbrev DoesHere :
    Result String (Unit {0}) → DaemonRequest → Result String (Unit {0}) → Daemon → Type 0
DoesHere = Does encode trim shown to_value show texts surroundings daemon

abbrev net : Client.Network String Line
net = network encode trim shown to_value show texts surroundings daemon

rpc_calls_are_transparent_example :
    (let r = Vnt.start encode config (vnt_part daemon) in
      DoesHere
        (Client.vnt_start net show config)
        (DaemonRequest.vnt_start config)
        r.0
        (with_vnt r.1 daemon))
    × (let r = Vnt.stop encode (vnt_part daemon) in
        DoesHere (Client.vnt_stop net show) DaemonRequest.vnt_stop r.0 (with_vnt r.1 daemon))
    × (let r = Vnt.restart encode config (vnt_part daemon) in
        DoesHere
          (Client.vnt_restart net show config)
          (DaemonRequest.vnt_restart config)
          r.0
          (with_vnt r.1 daemon))
    × (let r = Ftp.start encode trim shown surroundings.ftp ftp (ftp_part daemon) in
        DoesHere
          (Client.ftp_start net show ftp)
          (DaemonRequest.ftp_start ftp)
          r.0
          (with_ftp r.1 daemon))
    × (let r = Ftp.stop encode trim shown (ftp_part daemon) in
        DoesHere (Client.ftp_stop net show) DaemonRequest.ftp_stop r.0 (with_ftp r.1 daemon))
    × (let r = Ftp.restart encode trim shown surroundings.ftp ftp (ftp_part daemon) in
        DoesHere
          (Client.ftp_restart net show ftp)
          (DaemonRequest.ftp_restart ftp)
          r.0
          (with_ftp r.1 daemon))
rpc_calls_are_transparent_example =
    rpc_calls_are_transparent encode trim shown to_value show texts surroundings daemon config ftp

abbrev turns : List (Turn Line)
turns =
    record { line = some (request get_state); surroundings = surroundings; sends = true }
    ∷ record { line = some nothing; surroundings = surroundings; sends = true }
    ∷ record {
      line = some (response DaemonResponse.ok_response);
      surroundings = surroundings;
      sends = true;
    }
    ∷ []

every_line_is_answered_example :
    let s = handle_connection encode trim shown to_value json turns daemon in
    Count s.cancelled (length s.sent) 2
every_line_is_answered_example =
    every_line_is_answered encode trim shown to_value json response (λ r. refl) turns daemon
      ((refl, refl), ((refl, refl), ((refl, refl), tt)))
