-- ===== src/Daemon/Ftp/Lifecycle.antt =====
-- The FTP service and what the daemon's state says of it.
use vnt_gui_dev.Prelude.{ℕ, ◌≡◌, String, false, none, arith, ok, err}
use vnt_gui_dev.Transfer.Protocol.{Bytes}
use vnt_gui_dev.Ftp.Config.{FtpConfig}
use vnt_gui_dev.Ftp.Server.{FtpServer, Env, start_ftp, stop_ftp, ftp_status}
use vnt_gui_dev.Daemon.State.{StoredState}
use vnt_gui_dev.Daemon.Ftp.{
  FtpDaemon, FtpConfigWithSecrets, Keyring, from_rpc_cfg, set_passwords, start, stop, restart,
}

-- The status shows the address of the instance that runs, and none where none runs.
abbrev pub Agrees : FtpServer → Type 0
Agrees s = (ftp_status s).listen_addr ≡ s.runtime

start_ftp-Agrees :
    (trim : String → String) (shown : ℕ → String) (env : Env) (cfg : FtpConfig) (s : FtpServer)
    → Agrees (start_ftp trim shown env cfg s).1
unfolding start_ftp ftp_status
start_ftp-Agrees trim shown env cfg s = ground arith

stop_ftp-Agrees : (s : FtpServer) → Agrees (stop_ftp s)
unfolding stop_ftp ftp_status
stop_ftp-Agrees s = ground arith

-- Starting, stopping and restarting keep the status in step with the server: it shows the address
-- of the instance that runs, and none where none runs, also after a start that failed; a stop
-- always ends the instance, and the daemon's state says so.
pub ftp_operations_agree :
    (encode : StoredState → Bytes) (trim : String → String) (shown : ℕ → String) (env : Env)
    (rpc : FtpConfigWithSecrets) (d : FtpDaemon)
    → Agrees d.server
    → Agrees (start encode trim shown env rpc d).1.server
      × Agrees (stop encode trim shown d).1.server
      × Agrees (restart encode trim shown env rpc d).1.server
      × ((stop encode trim shown d).1.server.runtime ≡ none)
      × ((stop encode trim shown d).1.state.ftp_running ≡ false)
unfolding start stop restart
ftp_operations_agree encode trim shown env rpc d v =
    let cfg = from_rpc_cfg rpc in
    ground (
      arith,
      start_ftp-Agrees trim shown env cfg d.server,
      start_ftp-Agrees trim shown env cfg (stop_ftp d.server),
      stop_ftp-Agrees d.server,
    )

failed_start_ftp :
    (trim : String → String) (shown : ℕ → String) (env : Env) (cfg : FtpConfig) (s : FtpServer)
    (e : String)
    → (start_ftp trim shown env cfg s).0 ≡ err e
    → (start_ftp trim shown env cfg s).1.runtime ≡ none
unfolding start_ftp
failed_start_ftp trim shown env cfg s e h = ground arith

-- Whenever a start whose passwords could be stored fails, for whatever reason, the passwords stay
-- stored, and an instance that ran before is stopped; the daemon's state and its file stay as they
-- were, so that they go on saying that FTP runs if they said so.
pub failed_start_leaves_state :
    (encode : StoredState → Bytes) (trim : String → String) (shown : ℕ → String) (env : Env)
    (rpc : FtpConfigWithSecrets) (d : FtpDaemon) (k : Keyring) (e : String)
    → set_passwords (from_rpc_cfg rpc).users d.keyring ≡ (ok tt, k)
    → (start encode trim shown env rpc d).0 ≡ err e
    → ((start encode trim shown env rpc d).1.keyring ≡ k)
      × ((start encode trim shown env rpc d).1.server.runtime ≡ none)
      × ((start encode trim shown env rpc d).1.state ≡ d.state)
      × ((start encode trim shown env rpc d).1.disk ≡ d.disk)
unfolding start
failed_start_leaves_state encode trim shown env rpc d k e stored h =
    ground (arith, failed_start_ftp trim shown env (from_rpc_cfg rpc) d.server e)
