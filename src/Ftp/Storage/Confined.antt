-- ===== src/Ftp/Storage/Confined.antt =====
-- What an operation leaves alone: everything outside the user's root.
use vnt_gui_dev.Prelude.{
  ℕ, ◌≡◌, subst, String, true, false, not, ◌||◌, List, arith, ltb, Result-cases, inl, inr, ok,
}
use vnt_gui_dev.Ftp.Auth.{FtpUserDetail}
use vnt_gui_dev.Ftp.Tree.{Input, is_under, node_at, open_write, quiet}
use vnt_gui_dev.Ftp.Tree.Kept.{
  open_write-keeps, copy-keeps, remove_file-keeps, create_dir-keeps, remove_dir-keeps, rename-keeps,
}
use vnt_gui_dev.Ftp.Storage.{
  Component, Platform, World, resolve, put, del, mkd, rmd, rename, check_write,
}
use vnt_gui_dev.Ftp.Storage.Root.{AllOk, names_drive, resolve_is_confined}

module _ (os : Platform) (root : List String) (user : FtpUserDetail) where
  resolve-under :
      (path : List Component) (full : List String)
      → names_drive os.is_drive path ≡ false
      → resolve os user path ≡ ok full
      → is_under user.root_dir full ≡ true
  resolve-under path full plain e =
      let u : (is_under user.root_dir full || names_drive os.is_drive path) ≡ true =
        subst
          (λ r. AllOk (λ q. (is_under user.root_dir q || names_drive os.is_drive path) ≡ true) r) e
          ((resolve_is_confined os user path).1) in
      ground (arith, u, plain)

  check_write-tree : (action : String) (w : World) → (check_write os user action w).1.tree ≡ w.tree
  unfolding check_write
  check_write-tree action w = ground arith

  module _ (p : List String) (out : is_under user.root_dir p ≡ false) where
    put-keeps :
        (input : Input) (path : List Component) (start_pos : ℕ) (w : World)
        → names_drive os.is_drive path ≡ false
        → node_at p (put os root user input path start_pos w).1.tree.nodes ≡ node_at p w.tree.nodes
    unfolding put
    put-keeps input path start_pos w plain = elim (Result-cases (resolve os user path)) [
      | inl (full, e) ↦
          let u = resolve-under path full plain e in
          let t = (open_write (not (ltb 0 start_pos)) full w.tree).1 in
          let t' = (quiet t).1 in
          ground (
            arith,
            e,
            check_write-tree "上传" w,
            open_write-keeps user.root_dir p out (not (ltb 0 start_pos)) full w.tree u,
            copy-keeps user.root_dir p out full start_pos 0 input t u,
            copy-keeps user.root_dir p out full start_pos 0 input t' u,
          )
      | inr (x, e) ↦ ground (arith, e, check_write-tree "上传" w)
    ]

    del-keeps :
        (path : List Component) (w : World)
        → names_drive os.is_drive path ≡ false
        → node_at p (del os root user path w).1.tree.nodes ≡ node_at p w.tree.nodes
    unfolding del
    del-keeps path w plain = elim (Result-cases (resolve os user path)) [
      | inl (full, e) ↦ ground (
        arith,
        e,
        check_write-tree "删除" w,
        remove_file-keeps user.root_dir p out full w.tree (resolve-under path full plain e),
      )
      | inr (x, e) ↦ ground (arith, e, check_write-tree "删除" w)
    ]

    mkd-keeps :
        (path : List Component) (w : World)
        → names_drive os.is_drive path ≡ false
        → node_at p (mkd os root user path w).1.tree.nodes ≡ node_at p w.tree.nodes
    unfolding mkd
    mkd-keeps path w plain = elim (Result-cases (resolve os user path)) [
      | inl (full, e) ↦ ground (
        arith,
        e,
        check_write-tree "上传" w,
        create_dir-keeps user.root_dir p out full w.tree (resolve-under path full plain e),
      )
      | inr (x, e) ↦ ground (arith, e, check_write-tree "上传" w)
    ]

    rmd-keeps :
        (path : List Component) (w : World)
        → names_drive os.is_drive path ≡ false
        → node_at p (rmd os root user path w).1.tree.nodes ≡ node_at p w.tree.nodes
    unfolding rmd
    rmd-keeps path w plain = elim (Result-cases (resolve os user path)) [
      | inl (full, e) ↦ ground (
        arith,
        e,
        check_write-tree "删除" w,
        remove_dir-keeps user.root_dir p out full w.tree (resolve-under path full plain e),
      )
      | inr (x, e) ↦ ground (arith, e, check_write-tree "删除" w)
    ]

    rename-op-keeps :
        (from to : List Component) (w : World)
        → names_drive os.is_drive from ≡ false
        → names_drive os.is_drive to ≡ false
        → node_at p (rename os root user from to w).1.tree.nodes ≡ node_at p w.tree.nodes
    unfolding rename
    rename-op-keeps from to w pf pt = elim (Result-cases (resolve os user from)) [
      | inl (f, ef) ↦ elim (Result-cases (resolve os user to)) [
        | inl (t, et) ↦ ground (
          arith,
          ef,
          et,
          check_write-tree "重命名" w,
          rename-keeps user.root_dir p out f t w.tree (resolve-under from f pf ef)
              (resolve-under to t pt et),
        )
        | inr (x, et) ↦ ground (arith, ef, et, check_write-tree "重命名" w)
      ]
      | inr (x, ef) ↦ ground (arith, ef, check_write-tree "重命名" w)
    ]

-- No operation of a user on paths without a name that is read as a drive changes anything outside
-- the user's root: at a path that is not under it there is afterwards what was there before,
-- whatever else the client sends.
pub operations_stay_in_root :
    (os : Platform) (root : List String) (user : FtpUserDetail) (input : Input)
    (path to : List Component) (start_pos : ℕ) (w : World) (p : List String)
    → is_under user.root_dir p ≡ false
    → names_drive os.is_drive path ≡ false
    → names_drive os.is_drive to ≡ false
    → (node_at p (put os root user input path start_pos w).1.tree.nodes ≡ node_at p w.tree.nodes)
      × (node_at p (del os root user path w).1.tree.nodes ≡ node_at p w.tree.nodes)
      × (node_at p (mkd os root user path w).1.tree.nodes ≡ node_at p w.tree.nodes)
      × (node_at p (rmd os root user path w).1.tree.nodes ≡ node_at p w.tree.nodes)
      × (node_at p (rename os root user path to w).1.tree.nodes ≡ node_at p w.tree.nodes)
operations_stay_in_root os root user input path to start_pos w p out plain plain_to = (
  put-keeps os root user p out input path start_pos w plain,
  del-keeps os root user p out path w plain,
  mkd-keeps os root user p out path w plain,
  rmd-keeps os root user p out path w plain,
  rename-op-keeps os root user p out path to w plain plain_to,
)
