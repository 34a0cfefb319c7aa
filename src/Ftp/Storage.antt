-- ===== src/Ftp/Storage.antt =====
-- The storage of the FTP server (src-tauri/src/ftp/storage.rs): paths kept under the user's root,
-- rights checked, operations logged. A client's path is the list of its components, as
-- `Path::components` gives them. What the platform adds is an argument: see Platform.
pub mod Root
pub mod Rights
pub mod Confined
pub mod RoundTrip
pub mod Drive
use Prim.Native.String.{◌++◌ as ◌<>◌}
use vnt_gui_dev.Prelude.{
  ℕ, String, Bool, true, false, not, Option, none, some, List, [], ◌∷◌, ◌++◌, ltb, str_eq,
  if◌then◌else◌, length, drop, Result, ok, err,
}
use vnt_gui_dev.Transfer.Protocol.{Bytes}
use vnt_gui_dev.Ftp.Config.{FtpPermissions}
use vnt_gui_dev.Ftp.Auth.{FtpUserDetail}
use vnt_gui_dev.Ftp.Log.{FtpLogEntry, push_log}
use vnt_gui_dev.Ftp.Tree.{
  Tree, Node, dir, TreeError, Input, metadata as tree_metadata, read_dir, open_read, open_write,
  quiet, copy, remove_file, create_dir, remove_dir, rename as tree_rename, is_under,
}

pub data Component : Type 0 where
  normal : String → Component
  cur_dir : Component
  parent_dir : Component
  root_dir : Component
  prefix : String → Component

pub data FtpError : Type 0 where
  permission_denied : String → FtpError
  transient : TreeError → FtpError
  not_a_dir : FtpError

-- The server's side of an operation: the tree, the log and the time of day.
pub record World : Type 0 where
  pub tree : Tree
  pub log : List FtpLogEntry
  pub time : String

abbrev pub Op : Type 0 → Type 0
Op A = World → Result FtpError A × World

abbrev continue : {A B : Type 0} → Result FtpError A → (A → Op B) → Op B
continue (ok a) f w = f a w
continue (err e) f w = (err e, w)

infixl 5 ◌>>=◌ ◌>>◌
abbrev ◌>>=◌ : {A B : Type 0} → Op A → (A → Op B) → Op B
◌>>=◌ m f w = let (r, w') = m w in continue r f w'

abbrev ◌>>◌ : {A B : Type 0} → Op A → Op B → Op B
m >> k = m >>= λ _. k

abbrev pure : {A : Type 0} → A → Op A
pure a w = (ok a, w)

abbrev fail : {A : Type 0} → FtpError → Op A
fail e w = (err e, w)

abbrev lift : {A : Type 0} → Result FtpError A → Op A
lift r w = (r, w)

abbrev as_transient : {A : Type 0} → Result TreeError A → Result FtpError A
as_transient (ok a) = ok a
as_transient (err e) = err (transient e)

-- A call of the file system, its error as a transient one.
abbrev call : {A : Type 0} → (Tree → Result TreeError A × Tree) → Op A
call act w = let (r, t) = act w.tree in (as_transient r, record w { tree = t })

abbrev log_op : FtpUserDetail → (action detail : String) → Op (Unit {0})
log_op user action detail w =
    (ok tt, record w { log = push_log w.time user.client_ip user.username action detail w.log })

-- The platform: the text of a client's path, and whether a name is read as a drive, as "C:" is on
-- Windows.
pub record Platform : Type 0 where
  pub debug : List Component → String
  pub is_drive : String → Bool

-- `PathBuf::push`: a name that is read as a drive replaces the path.
abbrev pub push_name : (String → Bool) → String → List String → List String
push_name is_drive c full = if is_drive c then c ∷ [] else full ++ c ∷ []

abbrev pub push_all : (String → Bool) → List String → List String → List String
push_all is_drive [] full = full
push_all is_drive (c ∷ cs) full = push_all is_drive cs (push_name is_drive c full)

-- The names from the stack, whose head is the last of them.
abbrev pub unstack : List String → List String → List String
unstack [] acc = acc
unstack (p ∷ ps) acc = unstack ps (p ∷ acc)

abbrev pub in_root :
    Platform → FtpUserDetail → Result FtpError (List String) → Result FtpError (List String)
in_root os user (ok parts) = ok (push_all os.is_drive (unstack parts []) user.root_dir)
in_root os user (err e) = err e

module _ (os : Platform) where
  abbrev pub resolve_loop :
      List Component → List String → List Component → Result FtpError (List String)
  resolve_loop path parts [] = ok parts
  resolve_loop path parts (normal c ∷ cs) = resolve_loop path (c ∷ parts) cs
  resolve_loop path parts (cur_dir ∷ cs) = resolve_loop path parts cs
  resolve_loop path [] (parent_dir ∷ cs) = err (permission_denied "path traversal blocked")
  resolve_loop path (p ∷ ps) (parent_dir ∷ cs) = resolve_loop path ps cs
  resolve_loop path [] (root_dir ∷ cs) = resolve_loop path [] cs
  resolve_loop path (p ∷ ps) (root_dir ∷ cs) =
      err (permission_denied ("root separator in path not allowed: " <> os.debug path))
  resolve_loop path parts (prefix x ∷ cs) =
      err (permission_denied ("absolute path not allowed: " <> os.debug path))

  unfoldable pub resolve : FtpUserDetail → List Component → Result FtpError (List String)
  resolve user path = in_root os user (resolve_loop path [] path)

  abbrev write_allowed : FtpPermissions → String → Bool
  write_allowed perms action =
      if str_eq action "上传"
      then perms.upload
      else if str_eq action "删除"
      then perms.delete
      else if str_eq action "重命名"
      then perms.upload
      else false

  unfoldable pub check_write : FtpUserDetail → String → Op (Unit {0})
  check_write user action w =
      if user.permissions.readonly
      then (log_op user action "拒绝：只读用户" >> fail (permission_denied "readonly user")) w
      else if write_allowed user.permissions action
      then (ok tt, w)
      else (log_op user action "拒绝：无权限"
            >> fail (permission_denied ("no " <> action <> " permission")))
          w

  unfoldable pub check_read : FtpUserDetail → Op (Unit {0})
  check_read user w =
      if user.permissions.download
      then (ok tt, w)
      else (err (permission_denied "no download permission"), w)

  abbrev joined : List String → String
  joined [] = ""
  joined (a ∷ []) = a
  joined (a ∷ b ∷ bs) = a <> "/" <> joined (b ∷ bs)

  -- The path as the client sees it: from the root of the storage on.
  unfoldable pub display_path : List String → List String → String
  display_path root full =
      if is_under root full then joined (drop (length root) full) else joined full

  unfoldable pub metadata : FtpUserDetail → List Component → Op Node
  unfolding resolve
  metadata user path = do full ← lift (resolve user path); call (tree_metadata full)

  unfoldable pub list : FtpUserDetail → List Component → Op (List (String × Node))
  unfolding resolve
  list user path = do full ← lift (resolve user path); call (read_dir full)

  abbrev seek_to : ℕ → Op (Unit {0})
  seek_to start_pos w = if ltb 0 start_pos then call quiet w else (ok tt, w)

  module _ (root : List String) where
    -- The bytes that the returned reader gives.
    unfoldable pub get : FtpUserDetail → List Component → ℕ → Op Bytes
    unfolding resolve check_read display_path
    get user path start_pos = do
      check_read user
      full ← lift (resolve user path)
      content ← call (open_read full)
      seek_to start_pos
      log_op user "下载" (display_path root full)
      pure (drop start_pos content)

    unfoldable pub put : FtpUserDetail → Input → List Component → ℕ → Op ℕ
    unfolding resolve check_write display_path
    put user input path start_pos = do
      check_write user "上传"
      full ← lift (resolve user path)
      call (open_write (not (ltb 0 start_pos)) full)
      seek_to start_pos
      n ← call (copy full start_pos 0 input)
      call quiet
      log_op user "上传" (display_path root full)
      pure n

    unfoldable pub del : FtpUserDetail → List Component → Op (Unit {0})
    unfolding resolve check_write display_path
    del user path = do
      check_write user "删除"
      full ← lift (resolve user path)
      call (remove_file full)
      log_op user "删除" (display_path root full)

    unfoldable pub mkd : FtpUserDetail → List Component → Op (Unit {0})
    unfolding resolve check_write display_path
    mkd user path = do
      check_write user "上传"
      full ← lift (resolve user path)
      call (create_dir full)
      log_op user "新建目录" (display_path root full)

    unfoldable pub rmd : FtpUserDetail → List Component → Op (Unit {0})
    unfolding resolve check_write display_path
    rmd user path = do
      check_write user "删除"
      full ← lift (resolve user path)
      call (remove_dir full)
      log_op user "删除目录" (display_path root full)

    unfoldable pub rename : FtpUserDetail → (from to : List Component) → Op (Unit {0})
    unfolding resolve check_write display_path
    rename user from to = do
      check_write user "重命名"
      from_full ← lift (resolve user from)
      to_full ← lift (resolve user to)
      call (tree_rename from_full to_full)
      log_op user "重命名" (display_path root from_full <> " → " <> display_path root to_full)

  abbrev only_dir : Node → Op (Unit {0})
  only_dir dir w = (ok tt, w)
  only_dir other w = (err not_a_dir, w)

  unfoldable pub cwd : FtpUserDetail → List Component → Op (Unit {0})
  unfolding resolve
  cwd user path = do
    full ← lift (resolve user path)
    node ← call (tree_metadata full)
    only_dir node
