-- ===== src/Ftp/Storage/Root.antt =====
-- Where a client's path leads to.
use vnt_gui_dev.Prelude.{
  ℕ, zero, suc, ◌≡◌, refl, ◌∙◌, String, Bool, true, false, ◌||◌, List, [], ◌∷◌, ◌++◌, append-nil,
  arith, length, Result, ok, err,
}
use vnt_gui_dev.Ftp.Auth.{FtpUserDetail}
use vnt_gui_dev.Ftp.Tree.{is_under}
use vnt_gui_dev.Ftp.Tree.Kept.{is_under_append, is_under_trans}
use vnt_gui_dev.Ftp.Storage.{
  Component, normal, cur_dir, parent_dir, root_dir, prefix, FtpError, Platform, resolve,
  resolve_loop, in_root, unstack, push_name, push_all,
}

abbrev pub is_ok : {A : Type 0} → Result FtpError A → Bool
is_ok (ok a) = true
is_ok (err e) = false

-- Whether a walk, so many directories below the root, stays at or below it, and meets no drive and
-- no root in its middle.
abbrev pub stays_inside : ℕ → List Component → Bool
stays_inside depth [] = true
stays_inside depth (normal c ∷ cs) = stays_inside (suc depth) cs
stays_inside depth (cur_dir ∷ cs) = stays_inside depth cs
stays_inside zero (parent_dir ∷ cs) = false
stays_inside (suc depth) (parent_dir ∷ cs) = stays_inside depth cs
stays_inside zero (root_dir ∷ cs) = stays_inside zero cs
stays_inside (suc depth) (root_dir ∷ cs) = false
stays_inside depth (prefix p ∷ cs) = false

loop_accepts :
    (os : Platform) (path : List Component) (parts : List String) (cs : List Component)
    → is_ok (resolve_loop os path parts cs) ≡ stays_inside (length parts) cs
loop_accepts os path parts [] = refl
loop_accepts os path parts (normal c ∷ cs) = loop_accepts os path (c ∷ parts) cs
loop_accepts os path parts (cur_dir ∷ cs) = loop_accepts os path parts cs
loop_accepts os path [] (parent_dir ∷ cs) = refl
loop_accepts os path (p ∷ ps) (parent_dir ∷ cs) = loop_accepts os path ps cs
loop_accepts os path [] (root_dir ∷ cs) = loop_accepts os path [] cs
loop_accepts os path (p ∷ ps) (root_dir ∷ cs) = refl
loop_accepts os path [] (prefix x ∷ cs) = refl
loop_accepts os path (p ∷ ps) (prefix x ∷ cs) = refl

abbrev pub AllOk : (List String → Type 0) → Result FtpError (List String) → Type 0
AllOk P (ok full) = P full
AllOk P (err e) = Unit

-- Whether a component is a name that is read as a drive.
abbrev pub names_drive : (String → Bool) → List Component → Bool
names_drive is_drive [] = false
names_drive is_drive (normal c ∷ cs) = is_drive c || names_drive is_drive cs
names_drive is_drive (other ∷ cs) = names_drive is_drive cs

abbrev pub has_drive : (String → Bool) → List String → Bool
has_drive is_drive [] = false
has_drive is_drive (c ∷ cs) = is_drive c || has_drive is_drive cs

unstack-has_drive :
    (is_drive : String → Bool) (ps acc : List String)
    → has_drive is_drive (unstack ps acc) ≡ (has_drive is_drive ps || has_drive is_drive acc)
unstack-has_drive is_drive [] acc = refl
unstack-has_drive is_drive (p ∷ ps) acc = ground (arith, unstack-has_drive is_drive ps (p ∷ acc))

-- The names that are left have a drive only if the path or the stack has one.
loop_names :
    (os : Platform) (path cs : List Component) (parts : List String)
    → names_drive os.is_drive cs ≡ false
    → has_drive os.is_drive parts ≡ false
    → AllOk (λ ps. has_drive os.is_drive ps ≡ false) (resolve_loop os path parts cs)
loop_names os path [] parts n h = h
loop_names os path (normal c ∷ cs) parts n h =
    loop_names os path cs (c ∷ parts) (ground (arith, n)) (ground (arith, n, h))
loop_names os path (cur_dir ∷ cs) parts n h = loop_names os path cs parts n h
loop_names os path (parent_dir ∷ cs) [] n h = tt
loop_names os path (parent_dir ∷ cs) (p ∷ ps) n h = loop_names os path cs ps n (ground (arith, h))
loop_names os path (root_dir ∷ cs) [] n h = loop_names os path cs [] n h
loop_names os path (root_dir ∷ cs) (p ∷ ps) n h = tt
loop_names os path (prefix x ∷ cs) [] n h = tt
loop_names os path (prefix x ∷ cs) (p ∷ ps) n h = tt

push_all-under :
    (is_drive : String → Bool) (root cs full : List String)
    → has_drive is_drive cs ≡ false
    → is_under root full ≡ true
    → is_under root (push_all is_drive cs full) ≡ true
push_all-under is_drive root [] full n u = u
push_all-under is_drive root (c ∷ cs) full n u =
    let plain : is_drive c ≡ false = ground (arith, n) in
    push_all-under is_drive root cs (push_name is_drive c full) (ground (arith, n))
      (rw plain (is_under_trans root full (full ++ c ∷ []) u (is_under_append full (c ∷ []))))

in_root_ok :
    (os : Platform) (user : FtpUserDetail) (r : Result FtpError (List String))
    → is_ok (in_root os user r) ≡ is_ok r
in_root_ok os user (ok parts) = refl
in_root_ok os user (err e) = refl

in_root_under :
    (os : Platform) (user : FtpUserDetail) (r : Result FtpError (List String)) (drive : Bool)
    → (drive ≡ false → AllOk (λ ps. has_drive os.is_drive ps ≡ false) r)
    → AllOk (λ full. (is_under user.root_dir full || drive) ≡ true) (in_root os user r)
in_root_under os user (err e) drive h = tt
in_root_under os user (ok parts) true h = ground arith
in_root_under os user (ok parts) false h =
    let plain : has_drive os.is_drive parts ≡ false = h refl in
    let u : is_under user.root_dir user.root_dir ≡ true =
      rw (append-nil user.root_dir) at (is_under_append user.root_dir []) in
    rw
      (push_all-under os.is_drive user.root_dir (unstack parts []) user.root_dir
        (ground (arith, unstack-has_drive os.is_drive parts [], plain)) u)
      refl

-- A client's path is resolved exactly if its walk never leaves the root upwards and names no drive
-- prefix and no root in its middle. What it is resolved to is the user's root or lies below it,
-- unless one of its names is read as a drive.
pub resolve_is_confined :
    (os : Platform) (user : FtpUserDetail) (path : List Component)
    → (is_ok (resolve os user path) ≡ stays_inside 0 path)
      × AllOk
          (λ full. (is_under user.root_dir full || names_drive os.is_drive path) ≡ true)
          (resolve os user path)
unfolding resolve
resolve_is_confined os user path = (
  in_root_ok os user (resolve_loop os path [] path) ∙ loop_accepts os path [] path,
  in_root_under os user (resolve_loop os path [] path) (names_drive os.is_drive path)
      (λ n. loop_names os path path [] n refl),
)
