-- ===== src/Ftp/Tests.antt =====
-- The FTP server at concrete inputs: a root of one directory, and a user who may upload.
use vnt_gui_dev.Prelude.{◌≡◌, refl, true, false, ◌||◌, str_eq, some, List, [], ◌∷◌, ok}
use vnt_gui_dev.Ftp.Config.{FtpPermissions, FtpUser}
use vnt_gui_dev.Ftp.Auth.{Server, Credentials, FtpUserDetail, find_user, authenticate}
use vnt_gui_dev.Ftp.Auth.Login.{LogsIn, login_is_checked}
use vnt_gui_dev.Ftp.Tree.{dir, file, node_at}
use vnt_gui_dev.Ftp.Tree.Upload.{pieces}
use vnt_gui_dev.Ftp.Storage.{
  Component, normal, parent_dir, root_dir, Platform, World, resolve, put, get, del, mkd, rmd,
  rename,
}
use vnt_gui_dev.Ftp.Storage.Root.{AllOk, is_ok, names_drive, resolve_is_confined}
use vnt_gui_dev.Ftp.Tree.{is_under}
use vnt_gui_dev.Ftp.Storage.Rights.{Denied, readonly_user_changes_nothing}
use vnt_gui_dev.Ftp.Storage.Confined.{operations_stay_in_root}
use vnt_gui_dev.Ftp.Storage.Drive.{drive_name_escapes}
use vnt_gui_dev.Ftp.Storage.RoundTrip.{put_then_get}

-- Windows, as far as one drive goes.
abbrev windows : Platform
windows = record { debug = λ path. "path"; is_drive = λ c. str_eq c "C:" }

abbrev up_and_down : FtpPermissions
up_and_down = record { upload = true; download = true; delete = false; readonly = false }

abbrev ann : FtpUserDetail
ann = record {
  username = "ann";
  permissions = up_and_down;
  root_dir = "srv" ∷ [];
  client_ip = "10.26.0.2";
}

abbrev read_only : FtpUserDetail
read_only = record ann {
  permissions = record { upload = true; download = true; delete = true; readonly = true };
}

abbrev world : World
world = record {
  tree = record { nodes = ("srv" ∷ [], dir) ∷ ("etc" ∷ [], file (1 ∷ [])) ∷ []; faults = [] };
  log = [];
  time = "12:00:00";
}

abbrev name : List Component
name = normal "x" ∷ []

abbrev escape : List Component
escape = normal "x" ∷ parent_dir ∷ parent_dir ∷ normal "etc" ∷ []

resolve_is_confined_example :
    (is_ok (resolve windows ann escape) ≡ false)
    × AllOk
        (λ full. (is_under ("srv" ∷ []) full || names_drive windows.is_drive escape) ≡ true)
        (resolve windows ann escape)
resolve_is_confined_example = resolve_is_confined windows ann escape

operations_stay_in_root_example :
    (node_at ("etc" ∷ []) (put windows [] ann (pieces ((7 ∷ []) ∷ [])) name 0 world).1.tree.nodes
      ≡ some (file (1 ∷ [])))
    × (node_at ("etc" ∷ []) (del windows [] ann name world).1.tree.nodes ≡ some (file (1 ∷ [])))
    × (node_at ("etc" ∷ []) (mkd windows [] ann name world).1.tree.nodes ≡ some (file (1 ∷ [])))
    × (node_at ("etc" ∷ []) (rmd windows [] ann name world).1.tree.nodes ≡ some (file (1 ∷ [])))
    × (node_at ("etc" ∷ []) (rename windows [] ann name escape world).1.tree.nodes
        ≡ some (file (1 ∷ [])))
operations_stay_in_root_example =
    operations_stay_in_root windows [] ann (pieces ((7 ∷ []) ∷ [])) name escape 0 world ("etc" ∷ [])
      refl refl refl

abbrev with_drive : World
with_drive = record world { tree = record world.tree { nodes = ("C:" ∷ [], dir) ∷ [] } }

drive_name_escapes_example :
    (is_under ("srv" ∷ []) ("C:" ∷ "x" ∷ []) ≡ false)
    × ((mkd windows [] ann (root_dir ∷ normal "C:" ∷ normal "x" ∷ []) with_drive).0 ≡ ok tt)
    × (node_at
          ("C:" ∷ "x" ∷ [])
          (mkd windows [] ann (root_dir ∷ normal "C:" ∷ normal "x" ∷ []) with_drive).1.tree.nodes
        ≡ some dir)
drive_name_escapes_example =
    drive_name_escapes windows [] ann "C:" "x" "srv" [] with_drive refl refl refl refl refl refl
      refl refl refl

readonly_user_changes_nothing_example :
    Denied world (put windows [] read_only (pieces ((7 ∷ []) ∷ [])) name 0 world)
    × Denied world (del windows [] read_only name world)
    × Denied world (mkd windows [] read_only name world)
    × Denied world (rmd windows [] read_only name world)
    × Denied world (rename windows [] read_only name name world)
readonly_user_changes_nothing_example =
    readonly_user_changes_nothing windows [] read_only (pieces ((7 ∷ []) ∷ [])) name name 0 world
      refl

resolved_name : resolve windows ann name ≡ ok ("srv" ∷ "x" ∷ [])
unfolding resolve
resolved_name = refl

put_then_get_example :
    ((put windows [] ann (pieces ((7 ∷ 8 ∷ []) ∷ (9 ∷ []) ∷ [])) name 0 world).0 ≡ ok 3)
    × ((get windows [] ann name 0
          (put windows [] ann (pieces ((7 ∷ 8 ∷ []) ∷ (9 ∷ []) ∷ [])) name 0 world).1).0
        ≡ ok (7 ∷ 8 ∷ 9 ∷ []))
put_then_get_example =
    put_then_get windows [] ann name ("srv" ∷ "x" ∷ []) ((7 ∷ 8 ∷ []) ∷ (9 ∷ []) ∷ []) world
      resolved_name refl refl refl refl refl refl

abbrev bob : FtpUser
bob = record { username = "bob"; password = "pw"; password_set = true; permissions = up_and_down }

abbrev server : Server
server = record {
  store = record { users = bob ∷ []; root_dir = "srv" ∷ []; client_ips = [] };
  log = [];
}

abbrev right : Credentials
right = record { password = some "pw"; source_ip = "10.26.0.3" }

bob_logs_in : (authenticate "12:00:00" "bob" right server).0 ≡ ok "bob"
unfolding authenticate find_user
bob_logs_in = refl

login_is_checked_example : (user : FtpUser) × LogsIn "12:00:00" "bob" "bob" right server user
login_is_checked_example = login_is_checked "12:00:00" "bob" "bob" right server bob_logs_in
