-- ===== src/Ftp/Server.antt =====
-- Starting and stopping the FTP server (src-tauri/src/ftp/server.rs). What libunftp answers, and
-- whether the root exists and is a directory, are in `Env`; `trim` and `shown` (of a number) are
-- arguments. A listening task that ends later than 3 seconds after the start is not modelled.
use Prim.Native.String.{◌++◌ as ◌<>◌}
use vnt_gui_dev.Prelude.{
  ℕ, String, Bool, true, false, not, Option, none, some, List, [], ◌∷◌, str_eq, if◌then◌else◌,
  Result, ok, err,
}
use vnt_gui_dev.Ftp.Config.{FtpConfig, FtpUser}

pub record FtpServerStatus : Type 0 where
  pub state : String
  pub listen_addr : Option String
  pub error : Option String

-- The running instance's address, and the status.
pub record FtpServer : Type 0 where
  pub runtime : Option String
  pub status : FtpServerStatus

abbrev pub stopped_status : FtpServerStatus
stopped_status = record { state = "stopped"; listen_addr = none; error = none }

unfoldable pub ftp_status : FtpServer → FtpServerStatus
ftp_status s = if str_eq s.status.state "" then record s.status { state = "stopped" } else s.status

unfoldable pub stop_ftp : FtpServer → FtpServer
stop_ftp s = record { runtime = none; status = stopped_status }

abbrev set_status_error : String → FtpServer → FtpServer
set_status_error msg s = record s { status = record s.status { state = "error"; error = some msg } }

abbrev failed : String → FtpServer → Result String (Unit {0}) × FtpServer
failed msg s = (err msg, set_status_error msg s)

pub record Env : Type 0 where
  pub root_exists : Bool
  pub root_is_dir : Bool
  pub build : Result String (Unit {0})
  pub listen : Result String (Unit {0})

abbrev no_users : List FtpUser → Bool
no_users [] = true
no_users (u ∷ us) = false

abbrev on_listen :
    String → Result String (Unit {0}) → FtpServer → Result String (Unit {0}) × FtpServer
on_listen bind (err e) s = failed ("FTP 监听失败 " <> bind <> ": " <> e) s
on_listen bind (ok _) s = (
  ok tt,
  record {
    runtime = some bind;
    status = record { state = "running"; listen_addr = some bind; error = none };
  },
)

abbrev on_build :
    String → Env → Result String (Unit {0}) → FtpServer → Result String (Unit {0}) × FtpServer
on_build bind env (err e) s = failed ("FTP 服务器构建失败: " <> e) s
on_build bind env (ok _) s = on_listen bind env.listen s

-- An instance that runs is stopped first.
unfoldable pub start_ftp :
    (trim : String → String) (shown : ℕ → String)
    → Env
    → FtpConfig
    → FtpServer
    → Result String (Unit {0}) × FtpServer
unfolding stop_ftp
start_ftp trim shown env cfg s₀ =
    let s = stop_ftp s₀ in
    if str_eq (trim cfg.root_dir) ""
    then failed "FTP 根目录未配置，请先选择 ROOT 目录" s
    else if not env.root_exists
    then failed ("根目录不存在: " <> cfg.root_dir) s
    else if not env.root_is_dir
    then failed ("根目录不是文件夹: " <> cfg.root_dir) s
    else if no_users cfg.users
    then failed "至少需要添加一个 FTP 用户" s
    else on_build ("0.0.0.0:" <> shown cfg.port) env env.build s
