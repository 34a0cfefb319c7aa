-- ===== src/Ftp/Tree.antt =====
-- The file tree under the FTP server, as tokio::fs shows it: a path is the list of its names, a
-- node a directory or a file. Each call may be refused by the system, as `faults` says call by
-- call. There are no links in the tree.
pub mod Kept
pub mod Upload
use vnt_gui_dev.Prelude.{
  ℕ, zero, suc, String, Bool, true, false, not, ◌&&◌, ◌||◌, Option, none, some, List, [], ◌∷◌, ◌++◌,
  str_eq, if◌then◌else◌, length, drop, filter, any, Result, ok, err, ◌+◌,
}
use vnt_gui_dev.Transfer.Protocol.{Bytes}
use vnt_gui_dev.Transfer.Disk.{splice}

pub data Node : Type 0 where
  dir : Node
  file : Bytes → Node

abbrev pub Nodes : Type 0
Nodes = List (List String × Node)

pub record Tree : Type 0 where
  pub nodes : Nodes
  pub faults : List Bool

pub data TreeError : Type 0 where
  refused : TreeError
  not_found : TreeError
  not_a_dir : TreeError
  is_a_dir : TreeError
  exists_already : TreeError
  not_empty : TreeError
  input_failed : TreeError
  into_itself : TreeError

abbrev pub path_eq : List String → List String → Bool
path_eq [] [] = true
path_eq [] (b ∷ bs) = false
path_eq (a ∷ xs) [] = false
path_eq (a ∷ xs) (b ∷ bs) = str_eq a b && path_eq xs bs

-- `p.starts_with(root)`
abbrev pub is_under : List String → List String → Bool
is_under [] p = true
is_under (r ∷ rs) [] = false
is_under (r ∷ rs) (a ∷ xs) = str_eq r a && is_under rs xs

abbrev pub node_at : List String → Nodes → Option Node
node_at p [] = none
node_at p (e ∷ es) = if path_eq e.0 p then some e.1 else node_at p es

abbrev pub without : List String → Nodes → Nodes
without p [] = []
without p (e ∷ es) = let rest = without p es in if path_eq e.0 p then rest else e ∷ rest

abbrev pub with_node : List String → Node → Nodes → Nodes
with_node p n es = (p, n) ∷ without p es

-- A path below `from` goes to the same place below `to`.
abbrev pub moved_path : List String → List String → List String → List String
moved_path from to p = if is_under from p then to ++ drop (length from) p else p

abbrev pub moved : List String → List String → Nodes → Nodes
moved from to [] = []
moved from to (e ∷ es) = (moved_path from to e.0, e.1) ∷ moved from to es

abbrev pub parent_of : List String → List String
parent_of [] = []
parent_of (a ∷ []) = []
parent_of (a ∷ b ∷ bs) = a ∷ parent_of (b ∷ bs)

abbrev pub is_dir : Option Node → Bool
is_dir (some dir) = true
is_dir other = false

abbrev pub Io : Type 0 → Type 0
Io A = Tree → Result TreeError A × Tree

abbrev next_fault : List Bool → Bool
next_fault [] = false
next_fault (b ∷ bs) = b

abbrev rest_of : List Bool → List Bool
rest_of [] = []
rest_of (b ∷ bs) = bs

abbrev pub attempt : {A : Type 0} → Io A → Io A
attempt act t =
    let t' = record t { faults = rest_of t.faults } in
    if next_fault t.faults then (err refused, t') else act t'

abbrev pub found : Option Node → Tree → Result TreeError Node × Tree
found none t = (err not_found, t)
found (some n) t = (ok n, t)

abbrev pub metadata : List String → Io Node
metadata p = attempt (λ t. found (node_at p t.nodes) t)

-- The names directly below a path.
abbrev name_below : List String → List String → Option String
name_below [] (a ∷ []) = some a
name_below [] other = none
name_below (r ∷ rs) [] = none
name_below (r ∷ rs) (a ∷ xs) = if str_eq r a then name_below rs xs else none

abbrev add_entry : Option String → Node → List (String × Node) → List (String × Node)
add_entry none n rest = rest
add_entry (some a) n rest = (a, n) ∷ rest

abbrev pub entries_below : List String → Nodes → List (String × Node)
entries_below p [] = []
entries_below p (e ∷ es) = add_entry (name_below p e.0) e.1 (entries_below p es)

abbrev pub read_dir : List String → Io (List (String × Node))
read_dir p = attempt (λ t.
    if is_dir (node_at p t.nodes) then (ok (entries_below p t.nodes), t) else (err not_a_dir, t))

abbrev opened : Option Node → Tree → Result TreeError Bytes × Tree
opened none t = (err not_found, t)
opened (some dir) t = (err is_a_dir, t)
opened (some (file content)) t = (ok content, t)

-- File::open: the content to read.
abbrev pub open_read : List String → Io Bytes
open_read p = attempt (λ t. opened (node_at p t.nodes) t)

-- A change of the nodes, with its result.
abbrev pub put_nodes : {A : Type 0} → A → Nodes → Tree → Result TreeError A × Tree
put_nodes a nodes t = (ok a, record t { nodes = nodes })

abbrev kept : Bool → Bytes → Bytes
kept true content = []
kept false content = content

abbrev opened_write : Bool → List String → Option Node → Tree → Result TreeError (Unit {0}) × Tree
opened_write truncate p none t =
    if is_dir (node_at (parent_of p) t.nodes)
    then put_nodes tt (with_node p (file []) t.nodes) t
    else (err not_found, t)
opened_write truncate p (some dir) t = (err is_a_dir, t)
opened_write truncate p (some (file content)) t =
    put_nodes tt (with_node p (file (kept truncate content)) t.nodes) t

-- OpenOptions with write and create, and with truncate or without.
abbrev pub open_write : Bool → List String → Io (Unit {0})
open_write truncate p = attempt (λ t. opened_write truncate p (node_at p t.nodes) t)

-- Seeking and flushing an open file change no node.
abbrev pub quiet : Io (Unit {0})
quiet = attempt (λ t. (ok tt, t))

abbrev content_of : Option Node → Bytes
content_of (some (file content)) = content
content_of other = []

abbrev pub write_at : List String → ℕ → Bytes → Io (Unit {0})
write_at p pos bytes = attempt (λ t.
    put_nodes tt (with_node p (file (splice pos bytes (content_of (node_at p t.nodes)))) t.nodes) t)

-- What is read from the client, piece by piece: bytes, or a failure.
abbrev pub Input : Type 0
Input = List (Option Bytes)

-- tokio::io::copy into an open file, from a position on: the number of bytes copied.
abbrev pub copy : List String → ℕ → ℕ → Input → Io ℕ
copy p pos count [] t = (ok count, t)
copy p pos count (none ∷ rest) t = (err input_failed, t)
copy p pos count (some bytes ∷ rest) t =
    let (r, t') = write_at p pos bytes t in
    elim r [
      | ok _ ↦ copy p (pos + length bytes) (count + length bytes) rest t'
      | err e ↦ (err e, t')
    ]

abbrev removed_file : List String → Option Node → Tree → Result TreeError (Unit {0}) × Tree
removed_file p none t = (err not_found, t)
removed_file p (some dir) t = (err is_a_dir, t)
removed_file p (some (file content)) t = put_nodes tt (without p t.nodes) t

abbrev pub remove_file : List String → Io (Unit {0})
remove_file p = attempt (λ t. removed_file p (node_at p t.nodes) t)

abbrev created_dir : List String → Option Node → Tree → Result TreeError (Unit {0}) × Tree
created_dir p (some n) t = (err exists_already, t)
created_dir p none t =
    if is_dir (node_at (parent_of p) t.nodes)
    then put_nodes tt (with_node p dir t.nodes) t
    else (err not_found, t)

abbrev pub create_dir : List String → Io (Unit {0})
create_dir p = attempt (λ t. created_dir p (node_at p t.nodes) t)

abbrev is_empty : {A : Type 0} → List A → Bool
is_empty [] = true
is_empty (a ∷ xs) = false

abbrev removed_dir : List String → Option Node → Tree → Result TreeError (Unit {0}) × Tree
removed_dir p none t = (err not_found, t)
removed_dir p (some (file content)) t = (err not_a_dir, t)
removed_dir p (some dir) t =
    if is_empty (entries_below p t.nodes)
    then put_nodes tt (without p t.nodes) t
    else (err not_empty, t)

abbrev pub remove_dir : List String → Io (Unit {0})
remove_dir p = attempt (λ t. removed_dir p (node_at p t.nodes) t)

abbrev renamed : List String → List String → Option Node → Tree → Result TreeError (Unit {0}) × Tree
renamed from to none t = (err not_found, t)
renamed from to (some n) t =
    if is_under from to && not (path_eq from to)
    then (err into_itself, t)
    else if is_dir (node_at to t.nodes)
    then (err exists_already, t)
    else if is_dir (node_at (parent_of to) t.nodes)
    then put_nodes tt (moved from to (if path_eq from to then t.nodes else without to t.nodes)) t
    else (err not_found, t)

-- fs::rename: a file in the new place is replaced, a directory there is not.
abbrev pub rename : List String → List String → Io (Unit {0})
rename from to = attempt (λ t. renamed from to (node_at from t.nodes) t)
