-- ===== src/Transfer/Resumable.antt =====
-- Partial files and resumption (src-tauri/src/file_transfer/resumable.rs).
pub mod Laws
use Prim.Native.String.{len, slice}
use vnt_gui_dev.Prelude.{
  ℕ, ◌-◌, String, Bool, true, false, ◌&&◌, List, if◌then◌else◌, leb, ltb, filter, str_eq, Result,
  ok, err,
}
use vnt_gui_dev.Transfer.Protocol.{Bytes}
use vnt_gui_dev.Transfer.Disk.{
  Disk, Io, IoError, Handle, ◌>>=◌, ◌>>◌, pure, exists, metadata_len, remove_file, rename,
  open_keep, seek_start, write_all, flush,
}

-- `let _ = call`: the error is dropped, what the call did stays.
abbrev pub ignore : {A : Type 0} → Io A → Io (Unit {0})
ignore m d = (ok tt, (m d).1)

unfoldable pub open_partial : String → Io Handle
open_partial path = open_keep path

unfoldable pub resume_offset : String → Io ℕ
resume_offset path d = if exists path d then metadata_len path d else (ok 0, d)

-- A partial file longer than the file that is expected is removed, and the transfer starts at 0.
unfoldable pub validate_resume : String → ℕ → Io ℕ
unfolding resume_offset
validate_resume path expected_size = do
  offset ← resume_offset path
  if ltb expected_size offset then (do ignore (remove_file path); pure 0) else pure offset

unfoldable pub write_chunk : Bytes → ℕ → Handle → Io Handle
write_chunk bytes write_offset file = do
  sought ← seek_start write_offset file
  written ← write_all bytes sought
  flush written
  pure written

unfoldable pub finalize : String → String → Io (Unit {0})
finalize partial_path final_path d =
    (if exists final_path d
        then (do remove_file final_path; rename partial_path final_path)
        else rename partial_path final_path)
      d

-- `name.ends_with(suffix)`, on bytes.
unfoldable pub ends_with : String → String → Bool
ends_with name suffix =
    leb (len suffix) (len name) && str_eq (slice name (len name - len suffix) (len name)) suffix

-- The names, in the listing of a directory, of the partial files. None is removed.
unfoldable pub cleanup_orphans : List String → List String
unfolding ends_with
cleanup_orphans names = filter (λ name. ends_with name ".partial") names
