-- ===== src/Daemon/Rpc/Lines.antt =====
-- The lines of a connection.
use vnt_gui_dev.Prelude.{
  ℕ, ◌+◌, ◌≤◌, ◌≡◌, refl, String, Bool, true, false, Option, none, some, List, [], ◌∷◌,
  if◌then◌else◌, Result, ok, err, arith, length, length-append, All, Bool-cases, inl, inr,
}
use vnt_gui_dev.Transfer.Protocol.{Bytes}
use vnt_gui_dev.Ftp.Log.{FtpLogEntry}
use vnt_gui_dev.Daemon.State.{StoredState}
use vnt_gui_dev.Daemon.Vnt
use vnt_gui_dev.Daemon.Ftp
use vnt_gui_dev.Ftp.Server.{stop_ftp}
use vnt_gui_dev.Daemon.Rpc.{
  DaemonRequest, DaemonResponse, Daemon, shutdown, respond, handle_request,
}
use vnt_gui_dev.Daemon.Rpc.Connection.{
  Json, Turn, Turned, Served, Next, continue, break, cancel, after_reply, on_request, on_line,
  carry_on, turn, handle_connection,
}

-- How many lines are answered: all that ask, or, if the daemon ends, not more than those.
abbrev pub Count : (cancelled : Bool) → ℕ → ℕ → Type 0
Count false n asked = n ≡ asked
Count true n asked = n ≤ asked

module _ {Value Text : Type 0} (encode : StoredState → Bytes) (trim : String → String)
    (shown : ℕ → String) (to_value : List FtpLogEntry → Result String Value)
    (json : Json Value Text) (printed : DaemonResponse Value → Text)
    (prints : (r : DaemonResponse Value) → json.print r ≡ some (printed r)) where
  abbrev reads : Option Text → Bool
  reads none = false
  reads (some text) = true

  -- A line is read, and a response can be sent.
  abbrev pub Works : Turn Text → Type 0
  Works t = (reads t.line ≡ true) × (t.sends ≡ true)

  -- The lines that are not blank.
  abbrev asks : Option Text → ℕ
  asks none = 0
  asks (some text) = if json.is_blank text then 0 else 1

  abbrev pub questions : List (Turn Text) → ℕ
  questions [] = 0
  questions (t ∷ ts) = asks t.line + questions ts

  abbrev breaks : Next → Bool
  breaks continue = false
  breaks break = true
  breaks cancel = false

  breaks-after_reply : (ends : Bool) → breaks (after_reply ends) ≡ false
  breaks-after_reply true = refl
  breaks-after_reply false = refl

  abbrev Answers : ℕ → Turned Text → Type 0
  Answers n t = (length t.sent ≡ n) × (breaks t.next ≡ false)

  on_request-Answers :
      (t : Turn Text) (p : Result String DaemonRequest) (d : Daemon)
      → t.sends ≡ true
      → Answers 1 (on_request encode trim shown to_value json t p d)
  on_request-Answers t (err e) d sends = rw sends (refl, refl)
  on_request-Answers t (ok req) d sends =
      let handled = handle_request encode trim shown to_value t.surroundings req d in
      rw (sends, prints handled.0.0) (refl, breaks-after_reply handled.0.1)

  on_line-Answers :
      (t : Turn Text) (l : Option Text) (d : Daemon)
      → reads l ≡ true
      → t.sends ≡ true
      → Answers (asks l) (on_line encode trim shown to_value json t l d)
  on_line-Answers t none d h sends = absurd (cc h)
  on_line-Answers t (some text) d h sends = elim (Bool-cases (json.is_blank text)) [
    | inl blank ↦ rw blank (refl, refl)
    | inr asked ↦ rw asked (on_request-Answers t (json.parse text) d sends)
  ]

  turn-Answers :
      (t : Turn Text) (d : Daemon)
      → Works t
      → Answers (asks t.line) (turn encode trim shown to_value json t d)
  unfolding turn
  turn-Answers t d works = on_line-Answers t t.line d works.0 works.1

  Count-add : (b : Bool) (m k n asked : ℕ) → m ≡ n → Count b k asked → Count b (m + k) (n + asked)
  Count-add false m k n asked e c = omega arith
  Count-add true m k n asked e c = omega arith

  carry_on-Count :
      (sent : List Text) (next : Next) (d : Daemon) (rest : Daemon → Served Text) (n asked : ℕ)
      → Answers n (record { sent = sent; next = next; daemon = d })
      → Count (rest d).cancelled (length (rest d).sent) asked
      → let all = carry_on (record { sent = sent; next = next; daemon = d }) rest in
        Count all.cancelled (length all.sent) (n + asked)
  carry_on-Count sent continue d rest n asked a c =
      rw (length-append sent (rest d).sent) (Count-add (rest d).cancelled _ _ n asked a.0 c)
  carry_on-Count sent break d rest n asked a c = absurd (cc a.1)
  carry_on-Count sent cancel d rest n asked a c = omega arith

  -- Where every line can be read and every response printed and sent, a connection that does not end
  -- the daemon answers each line that is not blank exactly once, malformed lines as well; one that
  -- ends the daemon answers no more lines than there are.
  pub every_line_is_answered :
      (ts : List (Turn Text)) (d : Daemon)
      → All Works ts
      → let s = handle_connection encode trim shown to_value json ts d in
        Count s.cancelled (length s.sent) (questions ts)
  unfolding handle_connection
  every_line_is_answered [] d works = refl
  every_line_is_answered (t ∷ ts) d works =
      let turned = turn encode trim shown to_value json t d in
      carry_on-Count turned.sent turned.next turned.daemon
        (handle_connection encode trim shown to_value json ts) (asks t.line) (questions ts)
        (turn-Answers t d works.0) (every_line_is_answered ts turned.daemon works.1)

  -- A request to end the daemon whose response cannot be sent: both services are stopped and their
  -- states say so, but the daemon goes on.
  unsent_shutdown_leaves_daemon :
      (t : Turn Text) (text : Text) (d : Daemon)
      → t.line ≡ some text
      → t.sends ≡ false
      → json.is_blank text ≡ false
      → json.parse text ≡ ok shutdown
      → let s = handle_connection encode trim shown to_value json (t ∷ []) d in
        (s.cancelled ≡ false)
        × (s.daemon.runtime ≡ none)
        × (s.daemon.server.runtime ≡ none)
        × (s.daemon.state.vnt_running ≡ false)
        × (s.daemon.state.ftp_running ≡ false)
  unfolding handle_connection turn handle_request respond Vnt.stop Ftp.stop stop_ftp
  unsent_shutdown_leaves_daemon t text d line sends asked parsed =
      let response = (respond encode trim shown to_value t.surroundings shutdown d).0 in
      rw (line, sends, asked, parsed, prints response) (refl, refl, refl, refl, refl)
