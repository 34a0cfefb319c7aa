-- ===== src/Transfer/Receiver/Placement.antt =====
-- Where a received file goes (`find_duplicate`, `resolve_conflict` and `resolve_save_path` of
-- receiver.rs). A path is a text, with the separators of Windows; the name in an offer is one
-- component. The print of a number is an argument, and so is the hash with its print. The counter of
-- the candidates is an i32, as a bit pattern.
pub mod Fresh
pub mod Conflict
use Prim.Native.Char.{code}
use Prim.Native.String
use Prim.Native.String.{◌++◌ as ◌<>◌}
use vnt_gui_dev.Prelude.{
  ℕ, zero, suc, ◌+◌, ◌%◌, ◌^◌, String, Bool, true, false, not, ◌||◌, Option, none, some, ◌==◌,
  str_eq, if◌then◌else◌, Result, ok, err,
}
use vnt_gui_dev.Transfer.Protocol.{Bytes, FileOffer}
use vnt_gui_dev.Transfer.Disk.{Disk, IoError, exists, metadata_len, read_all}
use vnt_gui_dev.Transfer.Resumable.{ends_with}
use vnt_gui_dev.Transfer.Receiver.{partial_for}

abbrev prepend : String → Option (String × String) → Option (String × String)
prepend c none = none
prepend c (some (before, after)) = some (c <> before, after)

abbrev or_else {ℓ} : {A : Type ℓ} → Option A → Option A → Option A
or_else none b = b
or_else (some a) b = some a

-- The parts before and after the last character that passes the test.
pub split_last : (ℕ → Bool) → String → Option (String × String)
split_last p String.[] = none
split_last p (String.◌∷◌ c s) =
    or_else (prepend (String.◌∷◌ c "") (split_last p s)) (if p (code c) then some ("", s) else none)

abbrev is_dot : ℕ → Bool
is_dot c = c == b'.'

abbrev is_separator : ℕ → Bool
is_separator c = c == 92 || c == b'/'

abbrev stem_of : String → Option (String × String) → String × String
stem_of name none = (name, "")
stem_of name (some (before, after)) =
    if str_eq before "" then (name, "") else (before, "." <> after)

-- `file_stem`, and `extension` behind its dot.
unfoldable pub stem_and_ext : String → String × String
unfolding split_last
stem_and_ext name = if str_eq name ".." then (name, "") else stem_of name (split_last is_dot name)

-- `dir.join(name)` puts a separator between, unless there is one.
abbrev pub directory_prefix : String → String
directory_prefix dir =
    if str_eq dir "" || ends_with dir "\\" || ends_with dir "/" then dir else dir <> "\\"

abbrev pub join : String → String → String
join dir name = directory_prefix dir <> name

abbrev parts_of : String → Option (String × String) → String × String
parts_of path none = ("", path)
parts_of path (some (dir, name)) = (dir, name)

-- `parent` and `file_name`
unfoldable pub parent_and_name : String → String × String
unfolding split_last
parent_and_name path = parts_of path (split_last is_separator path)

module _ (print : ℕ → String) where
  -- "{stem}({n}){ext}" in the directory
  unfoldable pub candidate : String → String → ℕ → String
  unfolding stem_and_ext
  candidate dir name n =
      let (stem, ext) = stem_and_ext name in join dir (stem <> ("(" <> (print n <> (")" <> ext))))

  unfoldable pub candidate_loop : ℕ → String → String → ℕ → Disk → Option String
  candidate_loop zero dir name n d = none
  candidate_loop (suc fuel) dir name n d =
      let rest = candidate_loop fuel dir name ((n + 1) % 2 ^ 32) d in
      if exists (candidate dir name n) d then rest else some (candidate dir name n)

  -- `none` means that the fuel has run out.
  unfoldable pub resolve_save_path : ℕ → String → String → Disk → Option String
  unfolding candidate_loop
  resolve_save_path fuel dir name d =
      if exists (join dir name) d then candidate_loop fuel dir name 1 d else some (join dir name)

module _ (hash_hex : Bytes → String) where
  abbrev pub same_hash : FileOffer → Result IoError Bytes → Bool
  same_hash offer (ok content) = str_eq (hash_hex content) offer.file_hash_hex
  same_hash offer (err e) = false

  abbrev pub hashed : FileOffer → String → Result IoError Bytes × Disk → Option String × Disk
  hashed offer target (r, d) = (if same_hash offer r then some target else none, d)

  -- A file whose length cannot be read is hashed all the same.
  abbrev pub sized : FileOffer → String → Result IoError ℕ × Disk → Option String × Disk
  sized offer target (ok n, d) =
      if n == offer.file_size then hashed offer target (read_all target d) else (none, d)
  sized offer target (err e, d) = hashed offer target (read_all target d)

  unfoldable pub find_duplicate : String → FileOffer → Disk → Option String × Disk
  find_duplicate dir offer d =
      let target = join dir offer.filename in
      if not (exists target d) || exists (partial_for target) d
      then (none, d)
      else sized offer target (metadata_len target d)

  abbrev pub settled :
      (print : ℕ → String)
      → ℕ
      → String
      → FileOffer
      → Result IoError Bytes × Disk
      → Option String × Disk
  settled print fuel save_path offer (r, d) =
      if same_hash offer r
      then (some save_path, d)
      else (let (dir, name) = parent_and_name save_path in
          (resolve_save_path print fuel dir name d, d))

  unfoldable pub resolve_conflict :
      (ℕ → String) → ℕ → String → FileOffer → Disk → Option String × Disk
  unfolding resolve_save_path parent_and_name
  resolve_conflict print fuel save_path offer d =
      if not (exists save_path d) || exists (partial_for save_path) d
      then (some save_path, d)
      else settled print fuel save_path offer (read_all save_path d)
