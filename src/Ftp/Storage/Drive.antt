-- ===== src/Ftp/Storage/Drive.antt =====
-- A name that is read as a drive.
use vnt_gui_dev.Prelude.{
  ◌≡◌, refl, String, true, false, none, some, List, [], ◌∷◌, str_eq, arith, ok,
}
use vnt_gui_dev.Ftp.Auth.{FtpUserDetail}
use vnt_gui_dev.Ftp.Tree.{Tree, dir, node_at, is_under, create_dir}
use vnt_gui_dev.Ftp.Tree.Upload.{path_eq_refl}
use vnt_gui_dev.Ftp.Storage.{normal, root_dir, Platform, World, resolve, mkd, check_write}

drive_is_resolved :
    (os : Platform) (user : FtpUserDetail) (c x : String)
    → os.is_drive c ≡ true
    → os.is_drive x ≡ false
    → resolve os user (root_dir ∷ normal c ∷ normal x ∷ []) ≡ ok (c ∷ x ∷ [])
unfolding resolve
drive_is_resolved os user c x h n = ground (arith, h, n)

create_dir_calm :
    (c x : String) (t : Tree)
    → t.faults ≡ []
    → node_at (c ∷ []) t.nodes ≡ some dir
    → node_at (c ∷ x ∷ []) t.nodes ≡ none
    → ((create_dir (c ∷ x ∷ []) t).0 ≡ ok tt)
      × (node_at (c ∷ x ∷ []) (create_dir (c ∷ x ∷ []) t).1.nodes ≡ some dir)
create_dir_calm c x t calm parent free = ground (arith, path_eq_refl (c ∷ x ∷ []))

-- Where the name `c` is read as a drive, a user with the right to upload, whose root is not on
-- `c`, makes a directory outside the root by sending the path `/c/x`: where `c` is a directory, `x`
-- is not there and the system refuses no call, the directory `x` of `c` is made.
pub drive_name_escapes :
    (os : Platform) (root : List String) (user : FtpUserDetail) (c x r : String) (rs : List String)
    (w : World)
    → os.is_drive c ≡ true
    → os.is_drive x ≡ false
    → user.root_dir ≡ r ∷ rs
    → str_eq r c ≡ false
    → user.permissions.readonly ≡ false
    → user.permissions.upload ≡ true
    → w.tree.faults ≡ []
    → node_at (c ∷ []) w.tree.nodes ≡ some dir
    → node_at (c ∷ x ∷ []) w.tree.nodes ≡ none
    → (is_under user.root_dir (c ∷ x ∷ []) ≡ false)
      × ((mkd os root user (root_dir ∷ normal c ∷ normal x ∷ []) w).0 ≡ ok tt)
      × (node_at
            (c ∷ x ∷ [])
            (mkd os root user (root_dir ∷ normal c ∷ normal x ∷ []) w).1.tree.nodes
          ≡ some dir)
unfolding mkd check_write
drive_name_escapes os root user c x r rs w h n e other ro up calm parent free =
    let made = create_dir_calm c x w.tree calm parent free in
    let resolved = drive_is_resolved os user c x h n in
    let after : ((mkd os root user (root_dir ∷ normal c ∷ normal x ∷ []) w).0 ≡ ok tt)
        × (node_at (c ∷ x ∷ [])
              (mkd os root user (root_dir ∷ normal c ∷ normal x ∷ []) w).1.tree.nodes
            ≡ some dir) =
      rw resolved (ground (arith, made)) in
    (rw (e, other) refl, after.0, after.1)
