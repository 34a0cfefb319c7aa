-- ===== src/Desktop/Session/Invariant.antt =====
-- What holds of the session between two operations, whatever the peers and the user do.
use vnt_gui_dev.Prelude.{ℕ, ◌≡◌, refl, String, Bool, true, false, Option, none, some, arith, Result}
use vnt_gui_dev.Desktop.Protocol.{
  ClientCapabilities, GrantedCapabilities, ScreenInfo, RecvMessage, DesktopError,
}
use vnt_gui_dev.Desktop.State.{
  SessionManager, SessionState, SessionStats, waiting_confirm, connecting, sharing, ended, failed,
  new, enter_sharing, update_stats, fail,
}
use vnt_gui_dev.Desktop.Session.{
  Dial, Arrival, request_connect, handle_incoming, accept_pending, reject_pending, disconnect,
}

abbrev pub is_some : {A : Type 0} → Option A → Bool
is_some none = false
is_some (some a) = true

-- A connection is held exactly while sharing, with what was granted on it; a request waits only
-- before that.
abbrev pub Fits : SessionState → Option ℕ → Option ℕ → Option GrantedCapabilities → Type 0
Fits sharing conn pending granted =
    (is_some conn ≡ true) × (pending ≡ none) × (is_some granted ≡ true)
Fits waiting_confirm conn pending granted = conn ≡ none
Fits SessionState.idle conn pending granted = (conn ≡ none) × (pending ≡ none)
Fits connecting conn pending granted = (conn ≡ none) × (pending ≡ none)
Fits (ended r) conn pending granted = (conn ≡ none) × (pending ≡ none)
Fits (failed e) conn pending granted = (conn ≡ none) × (pending ≡ none)

abbrev pub IsValid : SessionManager → Type 0
IsValid m = Fits m.state.state m.connection m.pending m.state.capabilities

-- One operation of the session, with any results of the network's calls.
pub data Step (debug : RecvMessage → String) : SessionManager → SessionManager → Type 0 where
  request :
      (now : ℕ) (remote_ip device_name node_id : String) (caps : ClientCapabilities) (dial : Dial)
      (m : SessionManager)
      → Step debug m (request_connect debug now remote_ip device_name node_id caps dial m).1
  incoming : (a : Arrival) (m : SessionManager) → Step debug m (handle_incoming a m).1
  accept :
      (send : Result DesktopError (Unit {0})) (now : ℕ) (granted : GrantedCapabilities)
      (screen : ScreenInfo) (m : SessionManager)
      → Step debug m (accept_pending send now granted screen m).1
  reject : (reason : String) (m : SessionManager) → Step debug m (reject_pending reason m).1
  hang_up : (reason : String) (m : SessionManager) → Step debug m (disconnect reason m)
  measure :
      (updater : SessionStats → SessionStats) (m : SessionManager)
      → Step debug m (update_stats updater m)

pub data Reachable (debug : RecvMessage → String) : SessionManager → Type 0 where
  started : Reachable debug new
  stepped : {m m' : SessionManager} → Reachable debug m → Step debug m m' → Reachable debug m'

request_connect-IsValid :
    (debug : RecvMessage → String) (now : ℕ) (remote_ip device_name node_id : String)
    (caps : ClientCapabilities) (dial : Dial) (m : SessionManager)
    → IsValid m
    → IsValid (request_connect debug now remote_ip device_name node_id caps dial m).1
unfolding request_connect enter_sharing fail
request_connect-IsValid debug now remote_ip device_name node_id caps dial m v = ground arith

handle_incoming-IsValid :
    (a : Arrival) (m : SessionManager) → IsValid m → IsValid (handle_incoming a m).1
unfolding handle_incoming
handle_incoming-IsValid a m v = ground arith

accept_pending-IsValid :
    (send : Result DesktopError (Unit {0})) (now : ℕ) (granted : GrantedCapabilities)
    (screen : ScreenInfo) (m : SessionManager)
    → IsValid m
    → IsValid (accept_pending send now granted screen m).1
unfolding accept_pending enter_sharing
accept_pending-IsValid send now granted screen m v = ground arith

reject_pending-IsValid :
    (reason : String) (m : SessionManager) → IsValid m → IsValid (reject_pending reason m).1
unfolding reject_pending
reject_pending-IsValid reason m v = ground arith

disconnect-IsValid :
    (reason : String) (m : SessionManager) → IsValid m → IsValid (disconnect reason m)
unfolding disconnect
disconnect-IsValid reason m v = ground arith

Step-IsValid :
    (debug : RecvMessage → String) {m m' : SessionManager}
    → Step debug m m'
    → IsValid m
    → IsValid m'
unfolding update_stats
Step-IsValid debug (request now ip name node caps dial m) v =
    request_connect-IsValid debug now ip name node caps dial m v
Step-IsValid debug (incoming a m) v = handle_incoming-IsValid a m v
Step-IsValid debug (accept send now granted screen m) v =
    accept_pending-IsValid send now granted screen m v
Step-IsValid debug (reject reason m) v = reject_pending-IsValid reason m v
Step-IsValid debug (hang_up reason m) v = disconnect-IsValid reason m v
Step-IsValid debug (measure updater m) v = v

-- After any sequence of whole operations: a connection is held exactly while the session is
-- sharing, and then with capabilities that were granted and no request left to answer; a request
-- waits for an answer only in the waiting state.
pub reachable_sessions-IsValid :
    (debug : RecvMessage → String) (m : SessionManager) → Reachable debug m → IsValid m
reachable_sessions-IsValid debug m started = (refl, refl)
reachable_sessions-IsValid debug m (stepped r s) =
    Step-IsValid debug s (reachable_sessions-IsValid debug _ r)
