-- ===== src/Transfer/History.antt =====
-- The history of transfers (src-tauri/src/file_transfer/history.rs). Its JSON text comes from
-- serde_json: `encode` and `decode` are arguments, and so is the case mapping of the searches.
pub mod Ids
pub mod Query
pub mod Reload
use Prim.Native.String.{◌++◌ as ◌<>◌}
use text.Mathlib.Text.{find?}
use vnt_gui_dev.Prelude.{
  ℕ, ◌+◌, ◌-◌, ◌%◌, ◌^◌, max, String, Bool, true, false, not, ◌&&◌, ◌||◌, Option, none, some, List,
  [], ◌∷◌, ◌++◌, ◌==◌, leb, if◌then◌else◌, find, filter, any, take, length, update_first, Result,
  ok, err,
}
use vnt_gui_dev.Transfer.Protocol.{
  Bytes, TransferRecord, TransferDirection, TransferDirection-discrete,
}
use vnt_gui_dev.Transfer.Disk.{Disk, Io, IoError, exists, is_some, read_all, atomic_save}

pub record HistoryStore : Type 0 where
  pub path : String
  pub records : List TransferRecord
  pub next_id : ℕ

abbrev pub max_id : List TransferRecord → ℕ
max_id [] = 0
max_id (r ∷ rs) = max r.id (max_id rs)

-- `path.with_extension("json.tmp")` of a path that ends in `.json`.
unfoldable pub tmp_path : String → String
tmp_path path = path <> ".tmp"

module _ (decode : Bytes → Option (List TransferRecord)) where
  abbrev parsed : Option (List TransferRecord) → List TransferRecord
  parsed none = []
  parsed (some rs) = rs

  abbrev loaded : Result IoError Bytes × Disk → List TransferRecord × Disk
  loaded (ok content, d) = (parsed (decode content), d)
  loaded (err e, d) = ([], d)

  -- A missing, unreadable or corrupt file is an empty history.
  unfoldable pub load : String → Disk → HistoryStore × Disk
  load path d =
      let (records, d') = if exists path d then loaded (read_all path d) else ([], d) in
      (record { path = path; records = records; next_id = (max_id records + 1) % 2 ^ 64 }, d')

-- A change of the store in memory, and its result; it is saved afterwards.
abbrev pub has_id : ℕ → TransferRecord → Bool
has_id id r = r.id == id

abbrev has_transfer_id : ℕ → TransferRecord → Bool
has_transfer_id id r = r.transfer_id == id

unfoldable pub pushed : TransferRecord → HistoryStore → HistoryStore
pushed rec s = record s {
  records = s.records ++ record rec { id = s.next_id } ∷ [];
  next_id = (s.next_id + 1) % 2 ^ 64;
}

unfoldable pub upserted : TransferRecord → HistoryStore → HistoryStore
unfolding pushed
upserted rec s =
    if is_some (find (has_transfer_id rec.transfer_id) s.records)
    then record s { records = update_first (has_transfer_id rec.transfer_id) (λ _. rec) s.records }
    else pushed rec s

unfoldable pub deleted : ℕ → HistoryStore → HistoryStore
deleted id s = record s { records = filter (λ r. not (has_id id r)) s.records }

abbrev pub contains : List ℕ → ℕ → Bool
contains ids id = any (λ i. i == id) ids

unfoldable pub deleted_many : List ℕ → HistoryStore → HistoryStore
deleted_many ids s = record s { records = filter (λ r. not (contains ids r.id)) s.records }

unfoldable pub cleared : HistoryStore → HistoryStore
cleared s = record s { records = [] }

-- The state of an operation: the store in memory, which keeps the change if the save fails.
abbrev pub Op : Type 0 → Type 0
Op A = HistoryStore → Disk → Result IoError A × HistoryStore × Disk

abbrev with_result :
    {A : Type 0}
    → A
    → HistoryStore
    → Result IoError (Unit {0}) × Disk
    → Result IoError A × HistoryStore × Disk
with_result a s (ok _, d) = (ok a, s, d)
with_result a s (err e, d) = (err e, s, d)

module _ (encode : List TransferRecord → Bytes) where
  unfoldable pub persist : HistoryStore → Io (Unit {0})
  unfolding tmp_path
  persist s = atomic_save (tmp_path s.path) s.path (encode s.records)

  unfoldable pub push : TransferRecord → Op ℕ
  unfolding pushed
  push rec s d = let s' = pushed rec s in with_result s.next_id s' (persist s' d)

  unfoldable pub upsert : TransferRecord → Op (Unit {0})
  unfolding upserted
  upsert rec s d = let s' = upserted rec s in with_result tt s' (persist s' d)

  unfoldable pub delete : ℕ → Op (Unit {0})
  unfolding deleted
  delete id s d = let s' = deleted id s in with_result tt s' (persist s' d)

  unfoldable pub delete_many : List ℕ → Op ℕ
  unfolding deleted_many
  delete_many ids s d =
      let s' = deleted_many ids s in
      with_result (length s.records - length s'.records) s' (persist s' d)

  unfoldable pub clear_all : Op (Unit {0})
  unfolding cleared
  clear_all s d = let s' = cleared s in with_result tt s' (persist s' d)

abbrev direction_matches : Option TransferDirection → TransferRecord → Bool
direction_matches none r = true
direction_matches (some dir) r = elim (TransferDirection-discrete r.direction dir) [
  | yes _ ↦ true
  | no _ ↦ false
]

-- `text.contains(part)`
abbrev text_contains : String → String → Bool
text_contains text part = is_some (find? text part)

-- `sort_by` on descending times is stable: a record goes before the equal ones that followed it.
abbrev pub insert_desc : TransferRecord → List TransferRecord → List TransferRecord
insert_desc r [] = r ∷ []
insert_desc r (u ∷ us) =
    let rest = insert_desc r us in if leb u.start_time r.start_time then r ∷ u ∷ us else u ∷ rest

abbrev pub sort_desc : List TransferRecord → List TransferRecord
sort_desc [] = []
sort_desc (r ∷ rs) = insert_desc r (sort_desc rs)

module _ (to_lowercase : String → String) where
  abbrev keyword_matches : Option String → TransferRecord → Bool
  keyword_matches none r = true
  keyword_matches (some kw) r =
      text_contains (to_lowercase r.filename) (to_lowercase kw)
      || text_contains (to_lowercase r.remote_ip) (to_lowercase kw)

  unfoldable pub matches : Option TransferDirection → Option String → TransferRecord → Bool
  matches direction keyword r = direction_matches direction r && keyword_matches keyword r

  unfoldable pub query :
      Option TransferDirection → Option String → ℕ → HistoryStore → List TransferRecord
  query direction keyword limit s =
      take (max limit 1) (sort_desc (filter (matches direction keyword) s.records))

unfoldable pub count : HistoryStore → ℕ
count s = length s.records
