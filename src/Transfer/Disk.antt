-- ===== src/Transfer/Disk.antt =====
-- The file operations that the transfer calls, as those of std::fs (tokio::fs passes them on).
-- A disk is a map from paths to contents. Each call may be refused by the system: `faults` says,
-- call by call, which are, and where the list has ended none is.
pub mod Laws
use vnt_gui_dev.Prelude.{
  ℕ, ◌+◌, ◌-◌, ◌≡◌, String, Bool, true, false, Option, none, some, List, [], ◌∷◌, ◌++◌, str_eq,
  if◌then◌else◌, length, take, drop, Result, ok, err, zero, suc,
}
use vnt_gui_dev.Transfer.Protocol.{Bytes}

pub record Disk : Type 0 where
  pub files : String → Option Bytes
  pub faults : List Bool

-- The error messages of the calls, without the text of the system's own error.
pub data IoError : Type 0 where
  open_failed metadata_failed seek_failed write_failed flush_failed remove_failed rename_failed :
      IoError
  read_failed : IoError

-- An action on the disk: its result, and the disk that it leaves.
abbrev pub Io : Type 0 → Type 0
Io A = Disk → Result IoError A × Disk

abbrev continue : {A B : Type 0} → Result IoError A → (A → Io B) → Io B
continue (ok a) f d = f a d
continue (err e) f d = (err e, d)

infixl 5 ◌>>=◌ ◌>>◌
abbrev pub ◌>>=◌ : {A B : Type 0} → Io A → (A → Io B) → Io B
◌>>=◌ m f d = let (r, d') = m d in continue r f d'

abbrev pub ◌>>◌ : {A B : Type 0} → Io A → Io B → Io B
m >> k = m >>= λ _. k

abbrev pub pure : {A : Type 0} → A → Io A
pure a d = (ok a, d)

abbrev pub next_fault : List Bool → Bool
next_fault [] = false
next_fault (b ∷ bs) = b

abbrev pub rest_of : List Bool → List Bool
rest_of [] = []
rest_of (b ∷ bs) = bs

-- A call that may be refused, and then changes nothing.
abbrev pub attempt : {A : Type 0} → IoError → Io A → Io A
attempt e act d =
    let d' = record d { faults = rest_of d.faults } in
    if next_fault d.faults then (err e, d') else act d'

abbrev pub write_file : String → Option Bytes → Disk → Disk
write_file path content d = record d { files = λ p. if str_eq p path then content else d.files p }

-- `path.exists()`
abbrev pub is_some : {A : Type 0} → Option A → Bool
is_some none = false
is_some (some a) = true

abbrev pub exists : String → Disk → Bool
exists path d = is_some (d.files path)

abbrev pub or_empty : Option Bytes → Bytes
or_empty none = []
or_empty (some content) = content

abbrev found_or :
    {A : Type 0} → IoError → Option Bytes → (Bytes → A × Disk) → Disk → Result IoError A × Disk
found_or e none f d = (err e, d)
found_or e (some content) f d = let (a, d') = f content in (ok a, d')

-- fs::metadata(path)?.len()
abbrev pub metadata_len : String → Io ℕ
metadata_len path =
    attempt metadata_failed (λ d. found_or metadata_failed (d.files path) (λ c. (length c, d)) d)

-- fs::remove_file
abbrev pub remove_file : String → Io (Unit {0})
remove_file path =
    attempt remove_failed
      (λ d. found_or remove_failed (d.files path) (λ _. (tt, write_file path none d)) d)

-- fs::rename, which replaces a file of the new name.
abbrev pub rename : String → String → Io (Unit {0})
rename from to = attempt rename_failed (λ d.
    found_or rename_failed (d.files from)
      (λ c. (tt, write_file to (some c) (write_file from none d))) d)

-- The whole content of a file, read from its start.
abbrev pub read_all : String → Io Bytes
read_all path = attempt read_failed (λ d. found_or read_failed (d.files path) (λ c. (c, d)) d)

-- An open file: its path, and the position of its next write.
pub record Handle : Type 0 where
  pub path : String
  pub pos : ℕ

abbrev pub zeros : ℕ → Bytes
zeros zero = []
zeros (suc n) = 0 ∷ zeros n

-- What a write of `bytes` at `pos` makes of a content; a gap before `pos` is filled with zeros.
-- A write of nothing changes nothing.
abbrev pub splice : ℕ → Bytes → Bytes → Bytes
splice pos [] content = content
splice pos (b ∷ bs) content =
    take pos content
    ++ (zeros (pos - length content) ++ (b ∷ (bs ++ drop (pos + suc (length bs)) content)))

-- OpenOptions with read, write and create, and without truncate: the position is 0.
abbrev pub open_keep : String → Io Handle
open_keep path = attempt open_failed (λ d.
    (ok (record { path = path; pos = 0 }), write_file path (some (or_empty (d.files path))) d))

abbrev pub seek_start : ℕ → Handle → Io Handle
seek_start n h = attempt seek_failed (λ d. (ok (record h { pos = n }), d))

-- write_all: all the bytes, and the position moves behind them.
abbrev pub write_all : Bytes → Handle → Io Handle
write_all bytes h = attempt write_failed (λ d. (
  ok (record h { pos = h.pos + length bytes }),
  write_file h.path (some (splice h.pos bytes (or_empty (d.files h.path)))) d,
))

abbrev pub flush : Handle → Io (Unit {0})
flush h = attempt flush_failed (λ d. (ok tt, d))

-- The bytes go behind what the file holds one by one, so that a refusal may come after any of them.
abbrev pub append_all : String → Bytes → Io (Unit {0})
append_all path [] = pure tt
append_all path (b ∷ bs) =
    attempt write_failed
      (λ d. (ok tt, write_file path (some (or_empty (d.files path) ++ b ∷ [])) d))
    >> append_all path bs

-- fs::write: the file is created or emptied, and then written.
unfoldable pub write_new : String → Bytes → Io (Unit {0})
write_new path bytes =
    attempt open_failed (λ d. (ok tt, write_file path (some []) d)) >> append_all path bytes

-- The way in which settings and histories are saved: into a second file, which is then renamed.
unfoldable pub atomic_save : String → String → Bytes → Io (Unit {0})
unfolding write_new
atomic_save tmp path bytes = write_new tmp bytes >> rename tmp path
