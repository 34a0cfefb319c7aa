-- ===== src/Desktop/Session/Stuck.antt =====
-- An acceptance that cannot be sent.
use vnt_gui_dev.Prelude.{ℕ, ◌≡◌, refl, ◌∙◌, String, none, some, List, [], ◌∷◌, arith, Result, err}
use vnt_gui_dev.Desktop.Protocol.{
  ClientCapabilities, GrantedCapabilities, ScreenInfo, RecvMessage, DesktopError, connection,
}
use vnt_gui_dev.Desktop.State.{SessionManager, waiting_confirm}
use vnt_gui_dev.Desktop.Session.{
  Dial, Arrival, request_connect, handle_incoming, accept_pending, reject_pending, no_pending,
}

-- What may be tried afterwards, short of disconnecting.
pub data Try : Type 0 where
  requesting :
      (now : ℕ) → (remote_ip device_name node_id : String) → ClientCapabilities → Dial → Try
  arriving : Arrival → Try
  accepting : Result DesktopError (Unit {0}) → ℕ → GrantedCapabilities → ScreenInfo → Try
  rejecting : String → Try

-- The session waits for the user's word on a request that is no longer there.
abbrev pub Blocked : SessionManager → Type 0
Blocked m = (m.state.state ≡ waiting_confirm) × (m.pending ≡ none)

module _ (debug : RecvMessage → String) where
  unfoldable pub after_try : Try → SessionManager → SessionManager
  unfolding request_connect handle_incoming accept_pending reject_pending
  after_try (requesting now remote_ip device_name node_id caps dial) m =
      (request_connect debug now remote_ip device_name node_id caps dial m).1
  after_try (arriving a) m = (handle_incoming a m).1
  after_try (accepting send now granted screen) m = (accept_pending send now granted screen m).1
  after_try (rejecting reason) m = (reject_pending reason m).1

  unfoldable pub after_tries : List Try → SessionManager → SessionManager
  unfolding after_try
  after_tries [] m = m
  after_tries (t ∷ ts) m = after_tries ts (after_try t m)

  try_keeps :
      (t : Try) (m : SessionManager)
      → Blocked m
      → Blocked (after_try t m) × ((after_try t m).connection ≡ m.connection)
  unfolding after_try request_connect handle_incoming accept_pending reject_pending
  try_keeps (requesting now remote_ip device_name node_id caps dial) m b = ground arith
  try_keeps (arriving a) m b = ground arith
  try_keeps (accepting send now granted screen) m b = ground arith
  try_keeps (rejecting reason) m b = ground arith

  tries_keep :
      (ts : List Try) (m : SessionManager)
      → Blocked m
      → Blocked (after_tries ts m) × ((after_tries ts m).connection ≡ m.connection)
  unfolding after_tries
  tries_keep [] m b = (b, refl)
  tries_keep (t ∷ ts) m b =
      let k = try_keeps t m b in
      let rest = tries_keep ts (after_try t m) k.0 in (rest.0, rest.1 ∙ k.1)

  waiting_refuses :
      (send : Result DesktopError (Unit {0})) (now : ℕ) (granted : GrantedCapabilities)
      (screen : ScreenInfo) (reason remote_ip device_name node_id : String)
      (caps : ClientCapabilities) (dial : Dial) (m : SessionManager)
      → Blocked m
      → ((accept_pending send now granted screen m).0 ≡ err no_pending)
        × ((reject_pending reason m).0 ≡ err no_pending)
        × ((request_connect debug now remote_ip device_name node_id caps dial m).0
            ≡ err (connection "当前会话未空闲，请先断开后再连接"))
  unfolding accept_pending reject_pending request_connect
  waiting_refuses send now granted screen reason remote_ip device_name node_id caps dial m b =
      ground arith

  failed_accept :
      (e : DesktopError) (now : ℕ) (granted : GrantedCapabilities) (screen : ScreenInfo) (conn : ℕ)
      (m : SessionManager)
      → m.pending ≡ some conn
      → m.state.state ≡ waiting_confirm
      → ((accept_pending (err e) now granted screen m).0 ≡ err e)
        × Blocked (accept_pending (err e) now granted screen m).1
        × ((accept_pending (err e) now granted screen m).1.connection ≡ m.connection)
  unfolding accept_pending
  failed_accept e now granted screen conn m p w = ground arith

  -- When a request waits and the acceptance cannot be sent, the error is passed on and the request is
  -- taken, but the session stays in the waiting state. However many requests, arrivals, acceptances
  -- and rejections follow, it stays there with no request and no new connection, and each further
  -- acceptance, rejection or request of this device fails.
  pub failed_acceptance_blocks :
      (e : DesktopError) (now : ℕ) (granted : GrantedCapabilities) (screen : ScreenInfo) (conn : ℕ)
      (m : SessionManager) (ts : List Try) (send : Result DesktopError (Unit {0}))
      (reason remote_ip device_name node_id : String) (caps : ClientCapabilities) (dial : Dial)
      → m.pending ≡ some conn
      → m.state.state ≡ waiting_confirm
      → (let s = after_tries ts (accept_pending (err e) now granted screen m).1 in
          ((accept_pending (err e) now granted screen m).0 ≡ err e)
          × Blocked s
          × (s.connection ≡ m.connection)
          × ((accept_pending send now granted screen s).0 ≡ err no_pending)
          × ((reject_pending reason s).0 ≡ err no_pending)
          × ((request_connect debug now remote_ip device_name node_id caps dial s).0
              ≡ err (connection "当前会话未空闲，请先断开后再连接")))
  failed_acceptance_blocks e now granted screen conn m ts send reason remote_ip device_name node_id
        caps dial p w =
      let f = failed_accept e now granted screen conn m p w in
      let after = (accept_pending (err e) now granted screen m).1 in
      let k = tries_keep ts after f.1 in
      let r =
        waiting_refuses send now granted screen reason remote_ip device_name node_id caps dial
          (after_tries ts after) k.0 in
      (f.0, k.0, k.1 ∙ f.2, r.0, r.1, r.2)
