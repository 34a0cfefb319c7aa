-- ===== src/Ftp/Config.antt =====
-- The settings of the FTP server (src-tauri/src/ftp/config.rs).
use vnt_gui_dev.Prelude.{ℕ, String, Bool, true, false, Option, none, List, [], if◌then◌else◌}

pub record FtpPermissions : Type 0 where
  pub upload : Bool
  pub download : Bool
  pub delete : Bool
  pub readonly : Bool

unfoldable pub normalize : FtpPermissions → FtpPermissions
normalize p = if p.readonly then record p { upload = false; delete = false } else p

pub record FtpUser : Type 0 where
  pub username : String
  pub password : String
  pub password_set : Bool
  pub permissions : FtpPermissions

pub record FtpConfig : Type 0 where
  pub enabled : Bool
  pub auto_start_with_app : Bool
  pub auto_start_with_system : Bool
  pub root_dir : String
  pub port : ℕ
  pub so_reuseaddr : Bool
  pub pasv_ports : Option (ℕ × ℕ)
  pub users : List FtpUser

abbrev pub default_config : FtpConfig
default_config = record {
  enabled = false;
  auto_start_with_app = false;
  auto_start_with_system = false;
  root_dir = "";
  port = 2121;
  so_reuseaddr = true;
  pasv_ports = none;
  users = [];
}
