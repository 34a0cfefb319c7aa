-- ===== src/Transfer/Filter/Laws.antt =====
-- What adding and removing an extension changes, mode by mode.
use vnt_gui_dev.Prelude.{
  ◌≡◌, String, Bool, false, not, ◌||◌, ◌&&◌, List, [], ◌∷◌, str_eq, eq_iff, arith,
}
use vnt_gui_dev.Transfer.Filter.{
  FilterMode, whitelist, blacklist, allow_all, deny_all, FileTypeFilter, contains, insert, remove,
  is_empty, normal, is_allowed, add_extension, remove_extension,
}

contains-insert :
    (x y : String) (xs : List String) → contains x (insert y xs) ≡ (str_eq x y || contains x xs)
contains-insert x y [] = ground (arith, eq_iff x y)
contains-insert x y (z ∷ xs) =
    ground (arith, eq_iff x y, eq_iff x z, eq_iff y z, contains-insert x y xs)

pub contains-remove :
    (x y : String) (xs : List String)
    → contains x (remove y xs) ≡ (not (str_eq x y) && contains x xs)
contains-remove x y [] = ground (arith, eq_iff x y)
contains-remove x y (z ∷ xs) =
    ground (arith, eq_iff x y, eq_iff x z, eq_iff y z, contains-remove x y xs)

-- The answer of a filter after a change of its set by one extension.
abbrev pub after_add : FilterMode → Bool → Bool → Bool
after_add whitelist same before = same || before
after_add blacklist same before = not same && before
after_add allow_all same before = before
after_add deny_all same before = before

abbrev pub after_remove : FilterMode → Bool → Bool → Bool
after_remove whitelist same before = not same && before
after_remove blacklist same before = same || before
after_remove allow_all same before = before
after_remove deny_all same before = before

module _ (to_lowercase : String → String) (f : FileTypeFilter) (ext query : String) where
  -- For a query with an extension: after adding `ext`, a whitelist also allows, and a blacklist
  -- also refuses, what has the same normal form; after removing it, a whitelist also refuses, and
  -- a blacklist also allows, that. Every other answer is as before, and so are the other modes.
  is_allowed_after_change :
      is_empty (normal to_lowercase query) ≡ false
      → (is_allowed to_lowercase (add_extension to_lowercase ext f) query
          ≡ after_add f.mode
              (str_eq (normal to_lowercase query) (normal to_lowercase ext))
              (is_allowed to_lowercase f query))
        × (is_allowed to_lowercase (remove_extension to_lowercase ext f) query
            ≡ after_remove f.mode
                (str_eq (normal to_lowercase query) (normal to_lowercase ext))
                (is_allowed to_lowercase f query))
  unfolding is_allowed add_extension remove_extension
  is_allowed_after_change some_ext =
      let q = normal to_lowercase query in
      let e = normal to_lowercase ext in
      (
        ground (arith, contains-insert q e f.extensions),
        ground (arith, contains-remove q e f.extensions),
      )
