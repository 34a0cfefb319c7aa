-- ===== src/Daemon/Rpc/Connection.antt =====
-- A connection of the daemon's RPC, line by line (`handle_connection` of
-- src-tauri/src/daemon/rpc_server.rs).
use vnt_gui_dev.Prelude.{
  ℕ, String, Bool, true, false, Option, none, some, List, [], ◌∷◌, ◌++◌, if◌then◌else◌, Result, ok,
  err,
}
use vnt_gui_dev.Transfer.Protocol.{Bytes}
use vnt_gui_dev.Ftp.Log.{FtpLogEntry}
use vnt_gui_dev.Daemon.State.{StoredState}
use vnt_gui_dev.Daemon.Rpc.{
  DaemonRequest, DaemonResponse, error, Daemon, Surroundings, handle_request,
}

-- The texts of serde_json, which are of a type of their own: which lines are blank, and what stands in
-- the place of a text that could not be made.
pub record Json (Value Text : Type 0) : Type 0 where
  pub is_blank : Text → Bool
  pub empty : Text
  pub parse : Text → Result String DaemonRequest
  pub print : DaemonResponse Value → Option Text

-- A turn of the loop: the line that is read, `none` if reading fails; what the request meets; and
-- whether a response can be sent.
pub record Turn (Text : Type 0) : Type 0 where
  pub line : Option Text
  pub surroundings : Surroundings
  pub sends : Bool

-- How a turn ends: the loop goes on, or the connection ends, or the daemon.
pub data Next : Type 0 where
  continue break cancel : Next

pub record Turned (Text : Type 0) : Type 0 where
  pub sent : List Text
  pub next : Next
  pub daemon : Daemon

pub record Served (Text : Type 0) : Type 0 where
  pub sent : List Text
  pub cancelled : Bool
  pub daemon : Daemon

abbrev or_default : {Text : Type 0} → Text → Option Text → Text
or_default empty none = empty
or_default empty (some s) = s

abbrev pub after_reply : (ends : Bool) → Next
after_reply true = cancel
after_reply false = continue

abbrev pub carry_on : {Text : Type 0} → Turned Text → (Daemon → Served Text) → Served Text
carry_on t rest = elim t.next [
  | continue ↦ record (rest t.daemon) { sent = t.sent ++ (rest t.daemon).sent }
  | break ↦ record { sent = t.sent; cancelled = false; daemon = t.daemon }
  | cancel ↦ record { sent = t.sent; cancelled = true; daemon = t.daemon }
]

module _ {Value Text : Type 0} (encode : StoredState → Bytes) (trim : String → String)
    (shown : ℕ → String) (to_value : List FtpLogEntry → Result String Value)
    (json : Json Value Text) where
  abbrev reply : Bool → Option Text → (ends : Bool) → Daemon → Turned Text
  reply sends none ends d = record { sent = []; next = after_reply ends; daemon = d }
  reply true (some text) ends d = record { sent = text ∷ []; next = after_reply ends; daemon = d }
  reply false (some text) ends d = record { sent = []; next = break; daemon = d }

  abbrev pub on_request : Turn Text → Result String DaemonRequest → Daemon → Turned Text
  on_request t (err e) d =
      reply t.sends (some (or_default json.empty (json.print (error "parse_error" e)))) false d
  on_request t (ok req) d =
      let handled = handle_request encode trim shown to_value t.surroundings req d in
      reply t.sends (json.print handled.0.0) handled.0.1 handled.1

  abbrev pub on_line : Turn Text → Option Text → Daemon → Turned Text
  on_line t none d = record { sent = []; next = break; daemon = d }
  on_line t (some line) d =
      if json.is_blank line
      then record { sent = []; next = continue; daemon = d }
      else on_request t (json.parse line) d

  unfoldable pub turn : Turn Text → Daemon → Turned Text
  turn t d = on_line t t.line d

  unfoldable pub handle_connection : List (Turn Text) → Daemon → Served Text
  handle_connection [] d = record { sent = []; cancelled = false; daemon = d }
  handle_connection (t ∷ ts) d = carry_on (turn t d) (handle_connection ts)
