-- ===== src/Ftp/Auth.antt =====
-- The login of an FTP user (src-tauri/src/ftp/auth.rs). A directory is the list of its names, so
-- the text of a configured root is split by an argument.
pub mod Login
use vnt_gui_dev.Prelude.{
  ℕ, String, Bool, true, false, Option, none, some, List, [], ◌∷◌, str_eq, if◌then◌else◌, find,
  Result, ok, err,
}
use vnt_gui_dev.Ftp.Config.{FtpPermissions, FtpUser, FtpConfig}
use vnt_gui_dev.Ftp.Log.{FtpLogEntry, push_log}

pub record FtpUserDetail : Type 0 where
  pub username : String
  pub permissions : FtpPermissions
  pub root_dir : List String
  pub client_ip : String

pub record UserStore : Type 0 where
  pub users : List FtpUser
  pub root_dir : List String
  pub client_ips : List (String × String)

unfoldable pub from_config : (String → List String) → FtpConfig → UserStore
from_config path_of cfg = record {
  users = cfg.users;
  root_dir = path_of cfg.root_dir;
  client_ips = [];
}

unfoldable pub find_user : UserStore → String → Option FtpUser
find_user store username = find (λ u. str_eq u.username username) store.users

pub record Credentials : Type 0 where
  pub password : Option String
  pub source_ip : String

-- The server's memory: the users, and the log.
pub record Server : Type 0 where
  pub store : UserStore
  pub log : List FtpLogEntry

abbrev unwrap_or : {A : Type 0} → Option A → A → A
unwrap_or none a = a
unwrap_or (some b) a = b

abbrev note : (time ip user action detail : String) → Server → Server
note time ip user action detail s = record s { log = push_log time ip user action detail s.log }

-- The latest entry of a user hides the earlier ones.
abbrev pub insert_ip : String → String → List (String × String) → List (String × String)
insert_ip username ip ips = (username, ip) ∷ ips

abbrev pub ip_of : String → List (String × String) → Option String
ip_of username [] = none
ip_of username (e ∷ es) = if str_eq e.0 username then some e.1 else ip_of username es

abbrev record_ip : String → String → Server → Server
record_ip username ip s = record s {
  store = record s.store { client_ips = insert_ip username ip s.store.client_ips };
}

abbrev login_error : String
login_error = "用户名或密码错误"

abbrev check_user :
    String → String → Credentials → Option FtpUser → Server → Result String String × Server
check_user time username creds none s =
    (err login_error, note time creds.source_ip username "登录失败" "用户不存在" s)
check_user time username creds (some user) s =
    if str_eq user.password ""
    then (err login_error, note time creds.source_ip username "登录失败" "凭据缺失" s)
    else if str_eq user.password (unwrap_or creds.password "")
    then (
      ok username,
      record_ip username creds.source_ip (note time creds.source_ip username "登录成功" "CONNECT" s),
    )
    else (err login_error, note time creds.source_ip username "登录失败" "密码错误" s)

-- The name of the user that is logged in.
unfoldable pub authenticate : String → String → Credentials → Server → Result String String × Server
authenticate time username creds s = check_user time username creds (find_user s.store username) s

abbrev detail_of : String → Option FtpUser → UserStore → Result String FtpUserDetail
detail_of username none store = err "用户不存在"
detail_of username (some user) store = ok (record {
  username = user.username;
  permissions = user.permissions;
  root_dir = store.root_dir;
  client_ip = unwrap_or (ip_of username store.client_ips) "127.0.0.1";
})

unfoldable pub provide_user_detail : UserStore → String → Result String FtpUserDetail
provide_user_detail store username = detail_of username (find_user store username) store

-- `UserDetail::home`
unfoldable pub home : FtpUserDetail → Option (List String)
home user = some user.root_dir
