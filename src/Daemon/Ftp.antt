-- ===== src/Daemon/Ftp.antt =====
-- The daemon's FTP service (src-tauri/src/daemon/ftp_manager.rs) and its configuration on the RPC
-- (rpc_protocol.rs). The credential store of the system (the keyring crate) is a map from names to
-- passwords; `refuses` gives the error for a name whose password is not stored.
pub mod Secrets
pub mod Lifecycle
use Prim.Native.String.{◌++◌ as ◌<>◌}
use vnt_gui_dev.Prelude.{
  ℕ, String, Bool, true, false, Option, none, some, List, [], ◌∷◌, str_eq, if◌then◌else◌, Result,
  ok, err,
}
use vnt_gui_dev.Transfer.Protocol.{Bytes}
use vnt_gui_dev.Transfer.Disk.{Disk}
use vnt_gui_dev.Ftp.Config.{FtpPermissions, FtpUser, FtpConfig}
use vnt_gui_dev.Ftp.Server.{FtpServer, Env, start_ftp, stop_ftp}
use vnt_gui_dev.Daemon.State.{RuntimeState, StoredState, save}

pub record FtpUserWithPassword : Type 0 where
  pub username : String
  pub password : String
  pub permissions : FtpPermissions

pub record FtpConfigWithSecrets : Type 0 where
  pub enabled : Bool
  pub auto_start_with_app : Bool
  pub root_dir : String
  pub port : ℕ
  pub so_reuseaddr : Bool
  pub pasv_ports : Option (ℕ × ℕ)
  pub users : List FtpUserWithPassword

abbrev user_of : FtpUserWithPassword → FtpUser
user_of u = record {
  username = u.username;
  password = u.password;
  password_set = false;
  permissions = u.permissions;
}

abbrev users_of : List FtpUserWithPassword → List FtpUser
users_of [] = []
users_of (u ∷ us) = user_of u ∷ users_of us

unfoldable pub from_rpc_cfg : FtpConfigWithSecrets → FtpConfig
from_rpc_cfg rpc = record {
  enabled = rpc.enabled;
  auto_start_with_app = rpc.auto_start_with_app;
  auto_start_with_system = false;
  root_dir = rpc.root_dir;
  port = rpc.port;
  so_reuseaddr = rpc.so_reuseaddr;
  pasv_ports = rpc.pasv_ports;
  users = users_of rpc.users;
}

pub record Keyring : Type 0 where
  pub passwords : String → Option String
  pub refuses : String → Option String

abbrev pub put_password : String → String → Keyring → Keyring
put_password name password k = record k {
  passwords = λ n. if str_eq n name then some password else k.passwords n;
}

abbrev unless_refused :
    String
    → Option String
    → Keyring
    → Result String (Unit {0}) × Keyring
    → Result String (Unit {0}) × Keyring
unless_refused name none k rest = rest
unless_refused name (some e) k rest = (err ("写入系统凭据库失败（用户 " <> name <> "）: " <> e), k)

-- The passwords of the users go into the store one after the other, until one cannot.
abbrev pub set_passwords : List FtpUser → Keyring → Result String (Unit {0}) × Keyring
set_passwords [] k = (ok tt, k)
set_passwords (u ∷ us) k =
    let rest = set_passwords us (put_password u.username u.password k) in
    if str_eq u.password ""
    then (err ("用户 " <> u.username <> " 的密码为空（RPC 未携带或凭据缺失），无法启动 FTP"), k)
    else unless_refused u.username (k.refuses u.username) k rest

abbrev missing : String → String
missing name = "用户 " <> name <> " 的密码在凭据库中不存在，无法自动恢复 FTP 服务（请在 GUI 中重新设置密码）"

abbrev fill_user :
    FtpUser → Option String → Result String (List FtpUser) → Result String (List FtpUser)
fill_user u none rest = err (missing u.username)
fill_user u (some p) (err e) = err e
fill_user u (some p) (ok us) = ok (record u { password = p } ∷ us)

abbrev own_or : String → Option String → Option String
own_or password found = if str_eq password "" then found else some password

-- The passwords that are not known, from the store: the first missing one is the error.
abbrev pub fill_passwords : Keyring → List FtpUser → Result String (List FtpUser)
fill_passwords k [] = ok []
fill_passwords k (u ∷ us) =
    fill_user u (own_or u.password (k.passwords u.username)) (fill_passwords k us)

pub record FtpDaemon : Type 0 where
  pub server : FtpServer
  pub keyring : Keyring
  pub state : RuntimeState
  pub disk : Disk

module _ (encode : StoredState → Bytes) (trim : String → String) (shown : ℕ → String) where
  abbrev saved : FtpDaemon → FtpDaemon
  saved d = record d { disk = save encode d.state d.disk }

  abbrev on_started :
      FtpConfig
      → Result String (Unit {0}) × FtpServer
      → FtpDaemon
      → Result String (Unit {0}) × FtpDaemon
  on_started cfg (err e, server) d = (err e, record d { server = server })
  on_started cfg (ok _, server) d = (
    ok tt,
    saved (record d {
      server = server;
      state = record d.state { ftp_running = true; ftp_was_running = true; ftp_config = some cfg };
    }),
  )

  abbrev on_stored :
      Env
      → FtpConfig
      → Result String (Unit {0}) × Keyring
      → FtpDaemon
      → Result String (Unit {0}) × FtpDaemon
  on_stored env cfg (err e, k) d = (err e, record d { keyring = k })
  on_stored env cfg (ok _, k) d =
      on_started cfg (start_ftp trim shown env cfg d.server) (record d { keyring = k })

  unfoldable pub start_inner : Env → FtpConfig → FtpDaemon → Result String (Unit {0}) × FtpDaemon
  unfolding save start_ftp
  start_inner env cfg d = on_stored env cfg (set_passwords cfg.users d.keyring) d

  unfoldable pub start :
      Env → FtpConfigWithSecrets → FtpDaemon → Result String (Unit {0}) × FtpDaemon
  unfolding start_inner from_rpc_cfg
  start env rpc d = start_inner env (from_rpc_cfg rpc) d

  unfoldable pub stop : FtpDaemon → Result String (Unit {0}) × FtpDaemon
  unfolding save stop_ftp
  stop d = (
    ok tt,
    saved (record d {
      server = stop_ftp d.server;
      state = record d.state { ftp_running = false; ftp_was_running = false };
    }),
  )

  unfoldable pub restart :
      Env → FtpConfigWithSecrets → FtpDaemon → Result String (Unit {0}) × FtpDaemon
  unfolding start_inner from_rpc_cfg stop
  restart env rpc d = start_inner env (from_rpc_cfg rpc) (stop d).1

  abbrev on_filled :
      Env
      → FtpConfig
      → Result String (List FtpUser)
      → FtpDaemon
      → Result String (Unit {0}) × FtpDaemon
  on_filled env cfg (err e) d = (err e, d)
  on_filled env cfg (ok users) d = start_inner env (record cfg { users = users }) d

  unfoldable pub start_restored : Env → FtpConfig → FtpDaemon → Result String (Unit {0}) × FtpDaemon
  unfolding start_inner
  start_restored env cfg d = on_filled env cfg (fill_passwords d.keyring cfg.users) d
