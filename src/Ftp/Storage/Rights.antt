-- ===== src/Ftp/Storage/Rights.antt =====
-- What a user without a right can do.
use vnt_gui_dev.Prelude.{ℕ, ◌≡◌, String, Bool, true, false, List, arith, Result, err}
use vnt_gui_dev.Ftp.Auth.{FtpUserDetail}
use vnt_gui_dev.Ftp.Tree.{Input}
use vnt_gui_dev.Ftp.Storage.{
  Platform, Component, FtpError, permission_denied, World, check_write, put, del, mkd, rmd, rename,
}

abbrev pub is_denied : {A : Type 0} → Result FtpError A → Bool
is_denied (err (permission_denied m)) = true
is_denied other = false

-- An operation that is denied, and has touched nothing of the tree.
abbrev pub Denied : {A : Type 0} → World → Result FtpError A × World → Type 0
Denied w r = (is_denied r.0 ≡ true) × (r.1.tree ≡ w.tree)

-- A read-only user is denied every operation that writes, whatever the other rights say, and no
-- such operation touches the tree.
pub readonly_user_changes_nothing :
    (os : Platform) (root : List String) (user : FtpUserDetail) (input : Input)
    (path to : List Component) (start_pos : ℕ) (w : World)
    → user.permissions.readonly ≡ true
    → Denied w (put os root user input path start_pos w)
      × Denied w (del os root user path w)
      × Denied w (mkd os root user path w)
      × Denied w (rmd os root user path w)
      × Denied w (rename os root user path to w)
unfolding put del mkd rmd rename check_write
readonly_user_changes_nothing os root user input path to start_pos w ro = ground arith

-- A user without the right to upload writes, creates and renames nothing.
upload_right_is_needed :
    (os : Platform) (root : List String) (user : FtpUserDetail) (input : Input)
    (path to : List Component) (start_pos : ℕ) (w : World)
    → user.permissions.upload ≡ false
    → Denied w (put os root user input path start_pos w)
      × Denied w (mkd os root user path w)
      × Denied w (rename os root user path to w)
unfolding put mkd rename check_write
upload_right_is_needed os root user input path to start_pos w up = ground arith

-- A user without the right to delete removes nothing.
delete_right_is_needed :
    (os : Platform) (root : List String) (user : FtpUserDetail) (path : List Component) (w : World)
    → user.permissions.delete ≡ false
    → Denied w (del os root user path w) × Denied w (rmd os root user path w)
unfolding del rmd check_write
delete_right_is_needed os root user path w del = ground arith
