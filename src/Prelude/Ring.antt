-- ===== src/Prelude/Ring.antt =====
-- A list that keeps the latest elements only.
use Prim.Native.Nat.{ℕ, ◌+◌, ◌-◌, ◌≤◌}
use mathlib.Core.Path.{◌≡◌}
use mathlib.Core.List.{List, [], ◌∷◌, ◌++◌}
use native.Mathlib.Omega.{arith}
use vnt_gui_dev.Prelude.Tests.{leb, if◌then◌else◌}
use vnt_gui_dev.Prelude.Lists.{length, drop, length-append, length-drop, drop-add, drop_append_le}

module _ {A : Type 0} (capacity : ℕ) where
  abbrev pub latest : List A → List A
  latest all = drop (length all - capacity) all

  -- The oldest goes when the list is full.
  abbrev pub put : A → List A → List A
  put e buf = (if leb capacity (length buf) then drop 1 buf else buf) ++ e ∷ []

  pub put_keeps_latest :
      1 ≤ capacity → (e : A) (all : List A) → put e (latest all) ≡ latest (all ++ e ∷ [])
  put_keeps_latest h e all =
      let n = length all - capacity in
      ground (
        arith,
        length-drop n all,
        length-append all (e ∷ []),
        drop-add n 1 all,
        drop_append_le n all (e ∷ []) (omega arith),
        drop_append_le (n + 1) all (e ∷ []),
      )
