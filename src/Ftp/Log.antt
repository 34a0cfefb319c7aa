-- ===== src/Ftp/Log.antt =====
-- The log of the FTP connections (src-tauri/src/ftp/log.rs), the oldest entry first. The time of an
-- entry is an argument, and an address is its text.
pub mod Ring
use vnt_gui_dev.Prelude.{ℕ, String, List, [], ◌∷◌, ◌++◌, leb, if◌then◌else◌, length, drop}

pub record FtpLogEntry : Type 0 where
  pub time : String
  pub ip : String
  pub user : String
  pub action : String
  pub detail : String

abbrev pub max_logs : ℕ
max_logs = 500

unfoldable pub push_log :
    (time ip user action detail : String) → List FtpLogEntry → List FtpLogEntry
push_log time ip user action detail buf =
    (if leb max_logs (length buf) then drop 1 buf else buf)
    ++ record { time = time; ip = ip; user = user; action = action; detail = detail } ∷ []

abbrev rev_onto : List FtpLogEntry → List FtpLogEntry → List FtpLogEntry
rev_onto [] acc = acc
rev_onto (e ∷ es) acc = rev_onto es (e ∷ acc)

-- The latest first.
unfoldable pub get_logs : List FtpLogEntry → List FtpLogEntry
get_logs buf = rev_onto buf []

unfoldable pub clear_logs : List FtpLogEntry → List FtpLogEntry
clear_logs buf = []
