-- ===== src/Transfer/Filter.antt =====
-- Which file types may be received (src-tauri/src/file_transfer/filter.rs, `is_allowed` of
-- receiver.rs, `to_filter` of config.rs). The case mapping of the standard library is an argument,
-- since its tables are not modelled.
pub mod Laws
use Prim.Native.Char.{code}
use Prim.Native.String
use vnt_gui_dev.Prelude.{
  String, Bool, true, false, not, ◌||◌, List, [], ◌∷◌, if◌then◌else◌, ◌==◌, str_eq, filter, any,
}

pub data FilterMode : Type 0 where
  whitelist blacklist allow_all deny_all : FilterMode

-- The extensions are a set.
pub record FileTypeFilter : Type 0 where
  pub mode : FilterMode
  pub extensions : List String

-- `trim_start_matches('.')`
unfoldable pub trim_dots : String → String
trim_dots String.[] = ""
trim_dots (String.◌∷◌ c s) =
    let rest = trim_dots s in if code c == b'.' then rest else String.◌∷◌ c s

-- `HashSet::contains`, `insert` and `remove`
abbrev pub contains : String → List String → Bool
contains x xs = any (λ y. str_eq x y) xs

abbrev pub insert : String → List String → List String
insert x xs = if contains x xs then xs else x ∷ xs

abbrev pub remove : String → List String → List String
remove x xs = filter (λ y. not (str_eq x y)) xs

abbrev pub is_empty : String → Bool
is_empty s = str_eq s ""

abbrev without_extension : FilterMode → Bool
without_extension allow_all = true
without_extension blacklist = true
without_extension whitelist = false
without_extension deny_all = false

abbrev by_mode : FilterMode → Bool → Bool
by_mode allow_all listed = true
by_mode deny_all listed = false
by_mode whitelist listed = listed
by_mode blacklist listed = not listed

module _ (to_lowercase : String → String) where
  unfoldable pub normal : String → String
  normal extension = to_lowercase (trim_dots extension)

  unfoldable pub is_allowed : FileTypeFilter → String → Bool
  is_allowed f extension =
      let ext = normal extension in
      if is_empty ext then without_extension f.mode else by_mode f.mode (contains ext f.extensions)

  unfoldable pub add_extension : String → FileTypeFilter → FileTypeFilter
  add_extension ext f = record f { extensions = insert (normal ext) f.extensions }

  unfoldable pub remove_extension : String → FileTypeFilter → FileTypeFilter
  remove_extension ext f = record f { extensions = remove (normal ext) f.extensions }
