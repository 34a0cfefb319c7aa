-- ===== src/Daemon/Rpc/Calls.antt =====
-- A call of the GUI does to the daemon what the managers do.
use vnt_gui_dev.Prelude.{
  ℕ, ◌≡◌, refl, ap, String, Bool, true, false, some, List, [], ◌∷◌, append-nil, Result, ok, err,
}
use vnt_gui_dev.Transfer.Protocol.{Bytes}
use vnt_gui_dev.App.Config.{VntConfig}
use vnt_gui_dev.Ftp.Log.{FtpLogEntry}
use vnt_gui_dev.Daemon.State.{StoredState}
use vnt_gui_dev.Daemon.Ftp.{FtpConfigWithSecrets}
use vnt_gui_dev.Daemon.Vnt
use vnt_gui_dev.Daemon.Ftp
use vnt_gui_dev.Daemon.Rpc.{
  DaemonRequest, DaemonResponse, ok_response, error, Daemon, Surroundings, vnt_part, ftp_part,
  with_vnt, with_ftp, into_result, respond, ends, handle_request, answer,
}
use vnt_gui_dev.Daemon.Rpc.Connection.{Json, Served, after_reply, carry_on, turn, handle_connection}
use vnt_gui_dev.Daemon.Rpc.Client.{Network, Read, line, closed, send_request, parsed, checked}
use vnt_gui_dev.Daemon.Rpc.Client

-- The answers of the requests that control a service.
abbrev pub IsAnswer : {Value : Type 0} → DaemonResponse Value → Type 0
IsAnswer ok_response = Unit
IsAnswer (error code message) = Unit
IsAnswer other = ⊥

-- The texts: a request reads back as it was written, and so does an answer that carries no data (the
-- text of a state leaves the passwords out); the text of a request is not blank.
pub record Texts (Value Text : Type 0) : Type 0 where
  pub json : Json Value Text
  pub request_text : DaemonRequest → Text
  pub response_text : DaemonResponse Value → Text
  pub response_of : Text → Result String (DaemonResponse Value)
  pub requests : (r : DaemonRequest) → json.parse (request_text r) ≡ ok r
  pub responses : (r : DaemonResponse Value) → IsAnswer r → response_of (response_text r) ≡ ok r
  pub prints : (r : DaemonResponse Value) → json.print r ≡ some (response_text r)
  pub not_blank : (r : DaemonRequest) → json.is_blank (request_text r) ≡ false

served_once :
    {Text : Type 0} (sent : List Text) (b : Bool) (d : Daemon)
    → carry_on
        (record { sent = sent; next = after_reply b; daemon = d })
        (λ d. record { sent = []; cancelled = false; daemon = d })
      ≡ record { sent = sent; cancelled = b; daemon = d }
served_once sent true d = refl
served_once sent false d = rw (append-nil sent) refl

module _ {Value Text : Type 0} (encode : StoredState → Bytes) (trim : String → String)
    (shown : ℕ → String) (to_value : List FtpLogEntry → Result String Value)
    (show : DaemonResponse Value → String) (texts : Texts Value Text) (e : Surroundings)
    (d : Daemon) where
  -- The daemon serves a connection on which one line arrives.
  abbrev pub serve : Text → Served Text
  serve text =
      handle_connection encode trim shown to_value texts.json
        (record { line = some text; surroundings = e; sends = true } ∷ []) d

  abbrev first_line : List Text → Read Text
  first_line [] = closed
  first_line (l ∷ ls) = line l

  abbrev pub network : Network Value Text
  network = record {
    connect = ok tt;
    print = λ r. ok (texts.request_text r);
    send = λ _. ok tt;
    next = λ text. first_line (serve text).sent;
    parse = texts.response_of;
  }

  served :
      (r : DaemonRequest)
      → serve (texts.request_text r) ≡ record {
        sent = texts.response_text (respond encode trim shown to_value e r d).0 ∷ [];
        cancelled = ends r;
        daemon = (respond encode trim shown to_value e r d).1;
      }
  unfolding handle_connection turn handle_request
  served r =
      let response = (respond encode trim shown to_value e r d).0 in
      rw (texts.not_blank r, texts.requests r, texts.prints response) (served_once _ (ends r) _)

  send_request_answer :
      (r : DaemonRequest)
      → IsAnswer (respond encode trim shown to_value e r d).0
      → send_request network show r ≡ ok (respond encode trim shown to_value e r d).0
  unfolding send_request
  send_request_answer r plain = rw (served r) (
      ap (parsed network show) (texts.responses (respond encode trim shown to_value e r d).0 plain))

  answer-IsAnswer :
      (code : String) (result : Result String (Unit {0}))
      → IsAnswer (answer encode trim shown to_value code result)
  answer-IsAnswer code (ok u) = tt
  answer-IsAnswer code (err m) = tt

  checked_answer :
      (code : String) (result : Result String (Unit {0}))
      → checked network show (ok (answer encode trim shown to_value code result)) ≡ result
  unfolding into_result
  checked_answer code (ok u) = refl
  checked_answer code (err m) = refl

  -- A call, which sends the request, returns `result`, and leaves the daemon as `after`, which goes on.
  abbrev pub Does :
      (call : Result String (Unit {0})) → DaemonRequest → Result String (Unit {0}) → Daemon → Type 0
  Does call r result after =
      (call ≡ result)
      × ((serve (texts.request_text r)).daemon ≡ after)
      × ((serve (texts.request_text r)).cancelled ≡ false)

  does :
      (r : DaemonRequest) (code : String) (result : Result String (Unit {0})) (after : Daemon)
      → ends r ≡ false
      → respond encode trim shown to_value e r d
        ≡ (answer encode trim shown to_value code result, after)
      → Does (checked network show (send_request network show r)) r result after
  does r code result after goes h =
      let plain : IsAnswer (respond encode trim shown to_value e r d).0 =
        rw h (answer-IsAnswer code result) in
      rw (send_request_answer r plain, served r, h, goes) (checked_answer code result, refl, refl)

  -- Over a connection that works, where requests and answers without data read back, each call of the GUI that controls a
  -- service returns what the manager returns, and leaves the daemon as the manager leaves it.
  pub rpc_calls_are_transparent :
      (config : VntConfig) (ftp : FtpConfigWithSecrets)
      → (let r = Vnt.start encode config (vnt_part d) in
          Does
            (Client.vnt_start network show config)
            (DaemonRequest.vnt_start config)
            r.0
            (with_vnt r.1 d))
        × (let r = Vnt.stop encode (vnt_part d) in
            Does (Client.vnt_stop network show) DaemonRequest.vnt_stop r.0 (with_vnt r.1 d))
        × (let r = Vnt.restart encode config (vnt_part d) in
            Does
              (Client.vnt_restart network show config)
              (DaemonRequest.vnt_restart config)
              r.0
              (with_vnt r.1 d))
        × (let r = Ftp.start encode trim shown e.ftp ftp (ftp_part d) in
            Does
              (Client.ftp_start network show ftp)
              (DaemonRequest.ftp_start ftp)
              r.0
              (with_ftp r.1 d))
        × (let r = Ftp.stop encode trim shown (ftp_part d) in
            Does (Client.ftp_stop network show) DaemonRequest.ftp_stop r.0 (with_ftp r.1 d))
        × (let r = Ftp.restart encode trim shown e.ftp ftp (ftp_part d) in
            Does
              (Client.ftp_restart network show ftp)
              (DaemonRequest.ftp_restart ftp)
              r.0
              (with_ftp r.1 d))
  unfolding respond Client.vnt_start Client.vnt_stop Client.vnt_restart Client.ftp_start
      Client.ftp_stop Client.ftp_restart
  rpc_calls_are_transparent config ftp = (
    does (DaemonRequest.vnt_start config) "vnt_start_failed" _ _ refl refl,
    does DaemonRequest.vnt_stop "vnt_stop_failed" _ _ refl refl,
    does (DaemonRequest.vnt_restart config) "vnt_restart_failed" _ _ refl refl,
    does (DaemonRequest.ftp_start ftp) "ftp_start_failed" _ _ refl refl,
    does DaemonRequest.ftp_stop "ftp_stop_failed" _ _ refl refl,
    does (DaemonRequest.ftp_restart ftp) "ftp_restart_failed" _ _ refl refl,
  )
