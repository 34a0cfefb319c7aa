-- ===== src/App/Log/Ring.antt =====
-- What the log holds after any number of records.
use vnt_gui_dev.Prelude.{
  String, ◌≡◌, refl, ap, ◌∙◌, some, List, [], ◌∷◌, ◌++◌, append-nil, append_assoc, arith,
  if◌then◌else◌, Bool-cases, inl, inr,
}
use vnt_gui_dev.Prelude.Ring.{latest, put_keeps_latest}
use vnt_gui_dev.App.Log.{
  LogEntry, AppLogger, Record, Write, whole, lost, partial, FileLine, line, part, is_dropped,
  entry_of, in_file, written, push, write_entry, log, max_log_lines,
}

-- A call of the logger: its time, its record, and what becomes of the write.
pub record Call : Type 0 where
  pub now : String
  pub entry : Record
  pub write : Write

abbrev pub log_all : List Call → AppLogger → AppLogger
log_all [] l = l
log_all (c ∷ cs) l = log_all cs (log c.now c.entry c.write l)

-- What a call adds to the entries, and to the lines of the file.
abbrev pub added : Call → List LogEntry
added c = if is_dropped c.entry then [] else entry_of c.now c.entry ∷ []

-- What is in the file of an entry: its line, nothing, or a part.
abbrev pub line_left : Write → LogEntry → List FileLine
line_left whole e = line e ∷ []
line_left lost e = []
line_left partial e = part e ∷ []

in_file_lem : (w : Write) (e : LogEntry) → in_file w e ≡ line_left w e
in_file_lem whole e = refl
in_file_lem lost e = refl
in_file_lem partial e = refl

abbrev pub added_lines : Call → List FileLine
added_lines c = if is_dropped c.entry then [] else line_left c.write (entry_of c.now c.entry)

abbrev pub entries : List Call → List LogEntry
entries [] = []
entries (c ∷ cs) = added c ++ entries cs

abbrev pub file_lines : List Call → List FileLine
file_lines [] = []
file_lines (c ∷ cs) = added_lines c ++ file_lines cs

push_keeps_latest :
    (e : LogEntry) (all : List LogEntry)
    → push e (latest max_log_lines all) ≡ latest max_log_lines (all ++ e ∷ [])
unfolding push
push_keeps_latest e all = put_keeps_latest max_log_lines (omega arith) e all

-- The logger has the latest of the entries `all` in its buffer, and `lines` in its file.
abbrev Holds : List LogEntry → List FileLine → AppLogger → Type 0
Holds all lines l = (l.buffer ≡ latest max_log_lines all) × (l.file ≡ some lines)

log-Holds :
    (c : Call) (all : List LogEntry) (lines : List FileLine) (l : AppLogger)
    → Holds all lines l
    → Holds (all ++ added c) (lines ++ added_lines c) (log c.now c.entry c.write l)
unfolding log write_entry
log-Holds c all lines l h = elim (Bool-cases (is_dropped c.entry)) [
  | inl dropped ↦ rw (dropped, append-nil all, append-nil lines) h
  | inr kept ↦
      let e = entry_of c.now c.entry in
      rw kept (
        ap (push e) h.0 ∙ push_keeps_latest e all,
        ap (written c.write e) h.1
            ∙ ap (λ (q : List FileLine). some (lines ++ q)) (in_file_lem c.write e),
      )
]

log_all-Holds :
    (cs : List Call) (all : List LogEntry) (lines : List FileLine) (l : AppLogger)
    → Holds all lines l
    → Holds (all ++ entries cs) (lines ++ file_lines cs) (log_all cs l)
log_all-Holds [] all lines l h = rw (append-nil all, append-nil lines) h
log_all-Holds (c ∷ cs) all lines l h =
    rw
      (
        ← append_assoc all (added c) (entries cs),
        ← append_assoc lines (added_lines c) (file_lines cs),
      )
      (log_all-Holds cs (all ++ added c) (lines ++ added_lines c) (log c.now c.entry c.write l)
        (log-Holds c all lines l h))

-- Whatever is logged, a logger that starts with an open and empty file and an empty buffer has in its
-- buffer the latest 2000 of the records that are not dropped, also of those that the file has not
-- taken. Its file has, in order, the line of every record that is not dropped, except that of a
-- failed write it has nothing or a part.
pub log_holds_latest :
    (cs : List Call) (l : AppLogger)
    → l.buffer ≡ []
    → l.file ≡ some []
    → ((log_all cs l).file ≡ some (file_lines cs))
      × ((log_all cs l).buffer ≡ latest max_log_lines (entries cs))
log_holds_latest cs l empty opened = let h = log_all-Holds cs [] [] l (empty, opened) in (h.1, h.0)
