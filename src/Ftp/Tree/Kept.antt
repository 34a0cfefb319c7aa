-- ===== src/Ftp/Tree/Kept.antt =====
-- What the calls of the file system leave alone: the nodes outside a directory under which the
-- paths of the calls lie.
use vnt_gui_dev.Prelude.{
  ℕ, ◌+◌, ◌≡◌, refl, String, Bool, true, false, none, some, List, [], ◌∷◌, ◌++◌, arith, length,
  drop, eq_iff,
}
use vnt_gui_dev.Ftp.Tree.{
  Tree, Nodes, Input, is_under, path_eq, node_at, without, moved, copy, open_write, remove_file,
  create_dir, remove_dir, rename as tree_rename, write_at,
}

pub is_under_append : (root rest : List String) → is_under root (root ++ rest) ≡ true
is_under_append [] rest = refl
is_under_append (r ∷ rs) rest = ground (arith, eq_iff r r, is_under_append rs rest)

-- A path under the root is not one outside.
outside_ne :
    (root q p : List String)
    → is_under root q ≡ true
    → is_under root p ≡ false
    → path_eq q p ≡ false
outside_ne [] q p u o = absurd (cc o)
outside_ne (r ∷ rs) [] p u o = absurd (cc u)
outside_ne (r ∷ rs) (x ∷ xs) [] u o = refl
outside_ne (r ∷ rs) (x ∷ xs) (y ∷ ys) u o =
    ground (arith, outside_ne rs xs ys, eq_iff r x, eq_iff x y, eq_iff r y)

path_eq_cong : (a q p : List String) → path_eq a q ≡ true → path_eq a p ≡ path_eq q p
path_eq_cong [] [] p h = refl
path_eq_cong [] (y ∷ ys) p h = absurd (cc h)
path_eq_cong (x ∷ xs) [] p h = absurd (cc h)
path_eq_cong (x ∷ xs) (y ∷ ys) [] h = refl
path_eq_cong (x ∷ xs) (y ∷ ys) (z ∷ zs) h =
    ground (arith, path_eq_cong xs ys zs, eq_iff x y, eq_iff x z, eq_iff y z)

node_at-without :
    (q p : List String) (es : Nodes) → path_eq q p ≡ false → node_at p (without q es) ≡ node_at p es
node_at-without q p [] ne = refl
node_at-without q p (e ∷ es) ne = ground (arith, node_at-without q p es ne, path_eq_cong e.0 q p)

pub is_under_trans :
    (root q p : List String) → is_under root q ≡ true → is_under q p ≡ true → is_under root p ≡ true
is_under_trans [] q p u v = refl
is_under_trans (r ∷ rs) [] p u v = absurd (cc u)
is_under_trans (r ∷ rs) (x ∷ xs) [] u v = absurd (cc v)
is_under_trans (r ∷ rs) (x ∷ xs) (y ∷ ys) u v =
    ground (arith, is_under_trans rs xs ys, eq_iff r x, eq_iff x y, eq_iff r y)

module _ (root p : List String) (out : is_under root p ≡ false) where
  node_at-moved :
      (from to : List String) (es : Nodes)
      → is_under root from ≡ true
      → is_under root to ≡ true
      → node_at p (moved from to es) ≡ node_at p es
  node_at-moved from to [] f t = refl
  node_at-moved from to (e ∷ es) f t =
      let target = to ++ drop (length from) e.0 in
      ground (
        arith,
        node_at-moved from to es f t,
        outside_ne root e.0 p,
        is_under_trans root from e.0 f,
        outside_ne root target p (is_under_trans root to target t (is_under_append to _)) out,
      )

  pub open_write-keeps :
      (b : Bool) (q : List String) (t : Tree)
      → is_under root q ≡ true
      → node_at p (open_write b q t).1.nodes ≡ node_at p t.nodes
  open_write-keeps b q t u =
      let ne = outside_ne root q p u out in ground (arith, node_at-without q p t.nodes ne)

  write_at-keeps :
      (q : List String) (pos : ℕ) (bytes : List ℕ) (t : Tree)
      → is_under root q ≡ true
      → node_at p (write_at q pos bytes t).1.nodes ≡ node_at p t.nodes
  write_at-keeps q pos bytes t u =
      let ne = outside_ne root q p u out in ground (arith, node_at-without q p t.nodes ne)

  pub copy-keeps :
      (q : List String) (pos count : ℕ) (input : Input) (t : Tree)
      → is_under root q ≡ true
      → node_at p (copy q pos count input t).1.nodes ≡ node_at p t.nodes
  copy-keeps q pos count [] t u = refl
  copy-keeps q pos count (none ∷ rest) t u = refl
  copy-keeps q pos count (some bytes ∷ rest) t u =
      let t' = (write_at q pos bytes t).1 in
      ground (
        arith,
        write_at-keeps q pos bytes t u,
        copy-keeps q (pos + length bytes) (count + length bytes) rest t' u,
      )

  pub remove_file-keeps :
      (q : List String) (t : Tree)
      → is_under root q ≡ true
      → node_at p (remove_file q t).1.nodes ≡ node_at p t.nodes
  remove_file-keeps q t u =
      let ne = outside_ne root q p u out in ground (arith, node_at-without q p t.nodes ne)

  pub create_dir-keeps :
      (q : List String) (t : Tree)
      → is_under root q ≡ true
      → node_at p (create_dir q t).1.nodes ≡ node_at p t.nodes
  create_dir-keeps q t u =
      let ne = outside_ne root q p u out in ground (arith, node_at-without q p t.nodes ne)

  pub remove_dir-keeps :
      (q : List String) (t : Tree)
      → is_under root q ≡ true
      → node_at p (remove_dir q t).1.nodes ≡ node_at p t.nodes
  remove_dir-keeps q t u =
      let ne = outside_ne root q p u out in ground (arith, node_at-without q p t.nodes ne)

  pub rename-keeps :
      (from to : List String) (t : Tree)
      → is_under root from ≡ true
      → is_under root to ≡ true
      → node_at p (tree_rename from to t).1.nodes ≡ node_at p t.nodes
  rename-keeps from to t f u =
      let ne = outside_ne root to p u out in
      ground (
        arith,
        node_at-without to p t.nodes ne,
        node_at-moved from to t.nodes f u,
        node_at-moved from to (without to t.nodes) f u,
      )
