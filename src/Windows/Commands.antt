-- ===== src/Windows/Commands.antt =====
-- `_pairing_command_loop` of bridge/windows/observer.py, one command at a time, and the filter of
-- `MqttPublisher._on_message` before it.
pub mod Reached
pub mod Attempts
pub mod Untouched
pub mod Refined
use presence_bridge.Prelude.{
  ℕ, ◌/◌, Bool, true, false, ◌&&◌, ◌||◌, not, List, [], ◌∷◌, Option, none, some, String, ◌==◌,
  codes, strip, lower, ℤ, pos, Result, ok, err, ◌>>=◌, ◌>>◌, guard, Bytes, if◌then◌else◌,
}
use presence_bridge.Json.{Value, int, Payload, get, as_payload, is_text, or_else, to_int, text_at}
use presence_bridge.Runtime.{Runtime}
use presence_bridge.Protocol.Errors.{ProtocolError}
use presence_bridge.Protocol.Base64.{b64url_decode}
use presence_bridge.Protocol.Link.{PairingLink, protocol_version, validate}
use presence_bridge.Coordinator.Types.{seconds, is_member}
use presence_bridge.Coordinator.Status.{is_pairing_session_id}
use presence_bridge.Windows.Config.{ObserverConfig, max_ℤ, min_ℤ}
use presence_bridge.Windows.State.{
  Observer, Host, Run, Job, app_job, manual_job, status, send, is_running, cancel_and_wait,
}
use presence_bridge.Windows.Removals.{equals, run_identity_removal}

abbrev min_pairing_timeout_seconds : ℕ
min_pairing_timeout_seconds = 60

abbrev max_pairing_timeout_seconds : ℕ
max_pairing_timeout_seconds = 600

unfoldable pub clamp_timeout : ℤ → ℤ
clamp_timeout n =
    min_ℤ (pos max_pairing_timeout_seconds) (max_ℤ (pos min_pairing_timeout_seconds) n)

-- a command that is refused: "Invalid pairing command"
pub data Invalid : Type 0 where
  invalid : Invalid

abbrev given {ℓ} : {A : Type ℓ} → Option A → Result Invalid A
given none = err invalid
given (some a) = ok a

abbrev unless_error : {A : Type 0} → Result ProtocolError A → Result Invalid A
unless_error (ok a) = ok a
unless_error (err _) = err invalid

module _ (rt : Runtime) (host : Host) (config : ObserverConfig) where
  -- The link of an app pairing, validated.
  unfoldable pub app_link : String → Payload → Result Invalid PairingLink
  app_link session_id payload = do
    guard config.app_pairing_enabled invalid
    expires_at ← given (to_int (get "expires_at" payload))
    secret ← unless_error (b64url_decode (codes (text_at rt.repr "app_secret" payload)))
    let link : PairingLink = record {
      session_id = session_id;
      observer_id = config.observer_id;
      expires_at = expires_at;
      secret = secret;
      version = pos protocol_version;
    } in
        unless_error (validate (pos (seconds host.now)) link none false) >> ok link

  unfoldable pub start_job : String → String → Payload → Result Invalid Job
  start_job action session_id payload =
      let public_key = strip (text_at rt.repr "public_key" payload) in
      do
        timeout ← given (to_int (or_else (get "timeout_seconds" payload) (int (pos 300))))
        guard (host.loads_key public_key) invalid
        if action == "start_app_pairing"
            then (do
              link ← app_link session_id payload
              gatt ← given (as_payload (get "gatt" payload))
              ok (app_job link public_key (clamp_timeout timeout) gatt))
            else ok (manual_job session_id public_key (clamp_timeout timeout))

  -- A new task in place of the old one, which has ended.
  unfoldable pub begin : String → String → Job → Observer → Observer
  begin action session_id job o = record o {
    run =
        some
          (record { job = job; in_body = false; paused = false; cancelling = false; done = false });
    action = some action;
    session_id = some session_id;
    bond_repair_offer = none;
    committed = false;
    attempt_expires_at = none;
  }

  unfoldable pub is_duplicate : String → String → Observer → Bool
  is_duplicate action session_id o =
      is_running o.run && equals o.action action && equals o.session_id session_id

  unfoldable pub start : String → String → Result Invalid Job → Observer → Observer
  start action session_id (err _) o = send (status session_id "error" "Invalid pairing command") o
  start action session_id (ok job) o =
      if is_duplicate action session_id o
      then o
      else begin action session_id job (cancel_and_wait o.run o)

  unfoldable pub complete : String → Observer → Observer
  complete session_id o =
      if equals o.session_id session_id && is_running o.run
      then record o { committed = true }
      else o

  abbrev pub cancelling_run : Option Run → Option Run
  cancelling_run none = none
  cancelling_run (some r) = some (record r { cancelling = true })

  unfoldable pub cancel : String → Observer → Observer
  cancel session_id o =
      if is_running o.run && (session_id == "" || equals o.session_id session_id)
      then record o { run = cancelling_run o.run }
      else o

  abbrev pub action_in : Payload → String
  action_in payload = lower (strip (text_at rt.repr "action" payload))

  abbrev pub session_in : Payload → String
  session_in payload = strip (text_at rt.repr "session_id" payload)

  abbrev pub is_start : String → Bool
  is_start action = action == "start" || action == "start_app_pairing"

  unfoldable pub handle_command : Payload → Observer → Observer
  handle_command payload o =
      let action = action_in payload in
      let session_id = session_in payload in
      if action == "forget_identity" || action == "repair_pairing"
      then run_identity_removal rt host config.observer_id payload o
      else if action == "complete"
      then complete session_id o
      else if action == "cancel"
      then cancel session_id o
      else if is_start action && is_pairing_session_id session_id
      then start action session_id (start_job action session_id payload) o
      else o

-- `_on_message`: a command on one of the two topics; a removal that the broker kept is left out.
unfoldable pub accepted_command : List String → String → Bool → Option Value → Option Payload
accepted_command topics topic retained none = none
accepted_command topics topic retained (some value) = elim (as_payload value) [
  | none ↦ none
  | some payload ↦
      if is_member topic topics
        && not (is_text (get "action" payload) "forget_identity" && retained)
      then some payload
      else none
]
