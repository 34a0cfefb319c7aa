-- ===== src/Ftp/Log/Ring.antt =====
-- The log keeps the latest entries.
use vnt_gui_dev.Prelude.{
  ◌-◌, ◌≡◌, refl, List, [], ◌∷◌, ◌++◌, append-nil, append_assoc, arith, length, drop,
}
use vnt_gui_dev.Prelude.Ring.{put_keeps_latest}
use vnt_gui_dev.Ftp.Log.{FtpLogEntry, push_log, max_logs}

-- One call of the log after another.
abbrev pub push_all : List FtpLogEntry → List FtpLogEntry → List FtpLogEntry
push_all [] buf = buf
push_all (e ∷ es) buf = push_all es (push_log e.time e.ip e.user e.action e.detail buf)

push_log_keeps_latest :
    (e : FtpLogEntry) (all : List FtpLogEntry)
    → push_log e.time e.ip e.user e.action e.detail (drop (length all - max_logs) all)
      ≡ drop (length (all ++ e ∷ []) - max_logs) (all ++ e ∷ [])
unfolding push_log
push_log_keeps_latest e all = put_keeps_latest max_logs (omega arith) e all

keeps_latest :
    (es all : List FtpLogEntry)
    → push_all es (drop (length all - max_logs) all)
      ≡ drop (length (all ++ es) - max_logs) (all ++ es)
keeps_latest [] all = rw (append-nil all) refl
keeps_latest (e ∷ es) all =
    rw (push_log_keeps_latest e all, ← append_assoc all (e ∷ []) es)
      (keeps_latest es (all ++ e ∷ []))

-- Any number of calls leaves in an empty log exactly the latest 500 entries, in their order, or all
-- of them where there are fewer.
log_keeps_latest_entries : (es : List FtpLogEntry) → push_all es [] ≡ drop (length es - max_logs) es
log_keeps_latest_entries es = keeps_latest es []
