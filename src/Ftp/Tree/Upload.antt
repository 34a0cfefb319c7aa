-- ===== src/Ftp/Tree/Upload.antt =====
-- What a file holds after an upload on a calm file system.
use vnt_gui_dev.Prelude.{
  ℕ, ◌+◌, ◌≡◌, refl, true, some, List, [], ◌∷◌, ◌++◌, append-nil, append_assoc, arith, length,
  length-append, ok, String, eq_iff,
}
use vnt_gui_dev.Transfer.Protocol.{Bytes}
use vnt_gui_dev.Transfer.Disk.Laws.{splice_at_end}
use vnt_gui_dev.Ftp.Tree.{Tree, file, Input, path_eq, node_at, write_at, copy}

-- An upload that arrives whole.
abbrev pub pieces : List Bytes → Input
pieces [] = []
pieces (b ∷ bs) = some b ∷ pieces bs

abbrev pub joined : List Bytes → Bytes
joined [] = []
joined (b ∷ bs) = b ++ joined bs

pub path_eq_refl : (p : List String) → path_eq p p ≡ true
path_eq_refl [] = refl
path_eq_refl (a ∷ xs) = ground (arith, eq_iff a a, path_eq_refl xs)

write_at_calm :
    (q : List String) (content bytes : Bytes) (t : Tree)
    → t.faults ≡ []
    → node_at q t.nodes ≡ some (file content)
    → ((write_at q (length content) bytes t).0 ≡ ok tt)
      × (node_at q (write_at q (length content) bytes t).1.nodes ≡ some (file (content ++ bytes)))
      × ((write_at q (length content) bytes t).1.faults ≡ [])
write_at_calm q content bytes t calm at =
    ground (arith, path_eq_refl q, splice_at_end (length content) bytes content)

pub copy_calm :
    (q : List String) (count : ℕ) (content : Bytes) (bs : List Bytes) (t : Tree)
    → t.faults ≡ []
    → node_at q t.nodes ≡ some (file content)
    → ((copy q (length content) count (pieces bs) t).0 ≡ ok (count + length (joined bs)))
      × (node_at q (copy q (length content) count (pieces bs) t).1.nodes
          ≡ some (file (content ++ joined bs)))
      × ((copy q (length content) count (pieces bs) t).1.faults ≡ [])
copy_calm q count content [] t calm at = ground (arith, append-nil content)
copy_calm q count content (b ∷ bs) t calm at =
    let w = write_at_calm q content b t calm at in
    let t' = (write_at q (length content) b t).1 in
    let ih = copy_calm q (count + length b) (content ++ b) bs t' w.2 w.1 in
    ground (
      arith,
      w.0,
      ih,
      length-append content b,
      length-append b (joined bs),
      append_assoc content b (joined bs),
    )
