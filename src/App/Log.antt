-- ===== src/App/Log.antt =====
-- The log of the application (src-tauri/src/logger.rs, LogEntry of state.rs): the ring of the latest
-- entries, the file, and the events for the front end. The clock's text is an argument.
pub mod Ring
use vnt_gui_dev.Prelude.{
  ℕ, String, Bool, true, false, not, ◌&&◌, ◌||◌, Option, none, some, List, [], ◌∷◌, ◌++◌, leb,
  if◌then◌else◌, length, drop,
}

pub data LogLevel : Type 0 where
  info warn error debug : LogLevel

pub record LogEntry : Type 0 where
  pub timestamp : String
  pub level : LogLevel
  pub message : String

abbrev pub max_log_lines : ℕ
max_log_lines = 2000

-- `LogBuffer::push`, the oldest entry first.
unfoldable pub push : LogEntry → List LogEntry → List LogEntry
push entry buf = (if leb max_log_lines (length buf) then drop 1 buf else buf) ++ entry ∷ []

unfoldable pub append : (now : String) → LogLevel → String → List LogEntry → List LogEntry
unfolding push
append now level message buf =
    push (record { timestamp = now; level = level; message = message }) buf

unfoldable pub clear : List LogEntry → List LogEntry
clear buf = []

-- What becomes of the write of a line: the file takes it whole, nothing of it, or a part. A failure is
-- not noticed.
pub data Write : Type 0 where
  whole : Write
  lost : Write
  partial : Write

pub data FileLine : Type 0 where
  line : LogEntry → FileLine
  part : LogEntry → FileLine

-- The logger: the lines of the file, if it could be opened, and the events of the front end, once the
-- application is attached; both with the oldest first.
pub record AppLogger : Type 0 where
  pub buffer : List LogEntry
  pub file : Option (List FileLine)
  pub attached : Bool
  pub events : List LogEntry

-- The levels of the `log` crate.
pub data Level : Type 0 where
  error warn info debug trace : Level

-- A record: `desktop` and `noise` are the tests on its module's path.
pub record Record : Type 0 where
  pub level : Level
  pub desktop : Bool
  pub noise : Bool
  pub message : String

abbrev pub level_of : Level → LogLevel
level_of Level.error = LogLevel.error
level_of Level.warn = LogLevel.warn
level_of Level.debug = LogLevel.debug
level_of Level.info = LogLevel.info
level_of Level.trace = LogLevel.info

abbrev pub is_detail : LogLevel → Bool
is_detail LogLevel.info = true
is_detail LogLevel.debug = true
is_detail LogLevel.warn = false
is_detail LogLevel.error = false

abbrev pub in_file : Write → LogEntry → List FileLine
in_file whole entry = line entry ∷ []
in_file lost entry = []
in_file partial entry = part entry ∷ []

abbrev pub written : Write → LogEntry → Option (List FileLine) → Option (List FileLine)
written w entry none = none
written w entry (some lines) = some (lines ++ in_file w entry)

unfoldable pub write_entry : LogEntry → (is_desktop : Bool) → Write → AppLogger → AppLogger
unfolding push
write_entry entry is_desktop w l = record l {
  buffer = push entry l.buffer;
  file = written w entry l.file;
  events = if not is_desktop && l.attached then l.events ++ entry ∷ [] else l.events;
}

unfoldable pub is_dropped : Record → Bool
is_dropped r = (r.desktop || r.noise) && is_detail (level_of r.level)

abbrev pub entry_of : (now : String) → Record → LogEntry
entry_of now r = record { timestamp = now; level = level_of r.level; message = r.message }

unfoldable pub log : (now : String) → Record → Write → AppLogger → AppLogger
unfolding write_entry
log now r w l = if is_dropped r then l else write_entry (entry_of now r) r.desktop w l
