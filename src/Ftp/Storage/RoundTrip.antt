-- ===== src/Ftp/Storage/RoundTrip.antt =====
-- Uploading a file and downloading it.
use vnt_gui_dev.Prelude.{◌≡◌, String, true, false, some, List, [], arith, length, ok}
use vnt_gui_dev.Transfer.Protocol.{Bytes}
use vnt_gui_dev.Ftp.Auth.{FtpUserDetail}
use vnt_gui_dev.Ftp.Tree.{Tree, file, node_at, is_dir, parent_of, open_write}
use vnt_gui_dev.Ftp.Tree.Upload.{pieces, joined, path_eq_refl, copy_calm}
use vnt_gui_dev.Ftp.Storage.{Component, Platform, World, resolve, put, get, check_write, check_read}

open_write_calm :
    (full : List String) (t : Tree)
    → t.faults ≡ []
    → is_dir (node_at full t.nodes) ≡ false
    → is_dir (node_at (parent_of full) t.nodes) ≡ true
    → ((open_write true full t).0 ≡ ok tt)
      × (node_at full (open_write true full t).1.nodes ≡ some (file []))
      × ((open_write true full t).1.faults ≡ [])
open_write_calm full t calm free parent = ground (arith, path_eq_refl full)

-- On a calm file system a user with the rights to upload and download who uploads a file whole into
-- an existing directory, under a name that is not a directory, is told its length, and a download
-- of the same path then gives exactly the bytes that were sent, whatever the file held before.
pub put_then_get :
    (os : Platform) (root : List String) (user : FtpUserDetail) (path : List Component)
    (full : List String) (bs : List Bytes) (w : World)
    → resolve os user path ≡ ok full
    → w.tree.faults ≡ []
    → user.permissions.readonly ≡ false
    → user.permissions.upload ≡ true
    → user.permissions.download ≡ true
    → is_dir (node_at full w.tree.nodes) ≡ false
    → is_dir (node_at (parent_of full) w.tree.nodes) ≡ true
    → ((put os root user (pieces bs) path 0 w).0 ≡ ok (length (joined bs)))
      × ((get os root user path 0 (put os root user (pieces bs) path 0 w).1).0 ≡ ok (joined bs))
unfolding put get check_write check_read
put_then_get os root user path full bs w e calm ro up down free parent =
    let o = open_write_calm full w.tree calm free parent in
    let c = copy_calm full 0 [] bs (open_write true full w.tree).1 o.2 o.1 in ground (arith, o, c)
