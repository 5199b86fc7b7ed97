-- ===== src/Receiver/Commands.antt =====
-- The commands of the Linux receiver: `command`, `_cancel` and the end of `_pair` in
-- custom_components/presence_bridge/receiver/engine.py. `mono` is time.monotonic(), in microseconds.
pub mod Once
use presence_bridge.Prelude.{
  ℕ, ◌+◌, ltb, Bool, true, false, ◌&&◌, ◌||◌, not, List, [], ◌∷◌, Option, none, some, String, ◌==◌,
  Dict, insert, length, codes, eqb, ℤ, pos, eqb_ℤ, Result, ok, err, ◌>>=◌, ◌>>◌, guard,
  if◌then◌else◌,
}
use presence_bridge.Json.{Value, str, int, Payload, get, get_default, is_text, to_text, to_int}
use presence_bridge.Runtime.{Runtime}
use presence_bridge.Coordinator.Types.{is_member}
use presence_bridge.Protocol.Errors.{ProtocolError}
use presence_bridge.Protocol.Base64.{b64url_decode}
use presence_bridge.Protocol.Link.{PairingLink, protocol_version, validate}

-- What a command raises: a ProtocolError, an invalid number or key, or a ReceiverError.
pub data CommandError : Type 0 where
  protocol : ProtocolError → CommandError
  not_a_number invalid_key unsupported_key already_pairing : CommandError

-- What loading a public key gives: whether it is an RSA key of 2048 bits; an error otherwise.
pub data Loaded : Type 0 where
  not_loaded : Loaded
  loaded : Bool → Loaded

-- `running` is whether there is a pairing task that is not done; a deadline of 0 is none.
pub record Engine : Type 0 where
  pub session : Option PairingLink
  pub running : Bool
  pub completed : Bool
  pub result_sent : Bool
  pub peers : Dict String
  pub deadline : ℕ
  pub retired : List String

abbrev pub same_link : Option PairingLink → PairingLink → Bool
same_link none link = false
same_link (some s) link =
    s.session_id == link.session_id
    && s.observer_id == link.observer_id
    && eqb_ℤ s.expires_at link.expires_at
    && eqb s.secret link.secret
    && eqb_ℤ s.version link.version

abbrev pub is_session : Option PairingLink → Value → Bool
is_session none value = false
is_session (some s) value = is_text value s.session_id

-- self.retired.add(session_id), with its bound
unfoldable pub retire : String → List String → List String
retire session_id retired =
    let added = if is_member session_id retired then retired else session_id ∷ retired in
    if ltb 256 (length added) then session_id ∷ [] else added

abbrev pub retired_with : Option PairingLink → List String → List String
retired_with none retired = retired
retired_with (some s) retired = retire s.session_id retired

-- The end of the pairing task: its `finally` block.
unfoldable pub end_pairing : Engine → Engine
end_pairing engine =
    if engine.running
    then record engine { running = false; retired = retired_with engine.session engine.retired }
    else engine

-- What the pairing task does to the state: the phone is near, its bond is saved, the result is sent,
-- or it ends.
pub data PairingEvent : Type 0 where
  phone_found : (mono : ℕ) → PairingEvent
  bond_saved : (fingerprint peer : String) → PairingEvent
  identity_sent pairing_ended : PairingEvent

abbrev pub pairing_step : PairingEvent → Engine → Engine
pairing_step (phone_found mono) engine = record engine { deadline = mono + 300000000 }
pairing_step (bond_saved fingerprint peer) engine = record engine {
  peers = insert fingerprint peer engine.peers;
}
pairing_step identity_sent engine = record engine { result_sent = true }
pairing_step pairing_ended engine = end_pairing engine

unfoldable pub handle_pairing : PairingEvent → Engine → Engine
handle_pairing event engine = if engine.running then pairing_step event engine else engine

module _ (rt : Runtime) where
  abbrev text : String → Payload → String
  text key payload = to_text rt.repr (get_default key (str "") payload)

  abbrev raised : {A : Type 0} → Result ProtocolError A → Result CommandError A
  raised (ok a) = ok a
  raised (err e) = err (protocol e)

  abbrev number : Option ℤ → Result CommandError ℤ
  number none = err not_a_number
  number (some n) = ok n

  -- The link of a start, validated; `clock` is int(time.time()).
  unfoldable pub link_of : ℤ → Payload → Result CommandError PairingLink
  link_of clock payload = do
    expires_at ← number (to_int (get_default "expires_at" (int (pos 0)) payload))
    secret ← raised (b64url_decode (codes (text "app_secret" payload)))
    let link : PairingLink = record {
      session_id = text "session_id" payload;
      observer_id = text "observer_id" payload;
      expires_at = expires_at;
      secret = secret;
      version = pos protocol_version;
    } in
        raised (validate clock link none false) >> ok link

  -- A new session, whose task starts.
  unfoldable pub open_session : PairingLink → Engine → Engine
  open_session link engine = record engine {
    session = some link;
    running = true;
    completed = false;
    result_sent = false;
    deadline = 0;
  }

  unfoldable pub start_idle : Loaded → PairingLink → Engine → Result CommandError Engine
  start_idle not_loaded link engine = err invalid_key
  start_idle (loaded supported) link engine =
      if supported then ok (open_session link engine) else err unsupported_key

  -- A start of a session that is used up, or for another receiver, is left out; a repeated one too.
  unfoldable pub start : String → Loaded → PairingLink → Engine → Result CommandError Engine
  start observer_id key link engine =
      if not (link.observer_id == observer_id) || is_member link.session_id engine.retired
      then ok engine
      else if engine.running
      then (if same_link engine.session link then ok engine else err already_pairing)
      else start_idle key link engine

  unfoldable pub complete : ℕ → Engine → Engine
  complete mono engine =
      if engine.result_sent && ltb mono engine.deadline
      then record engine { completed = true }
      else engine

  -- `command`, but for a removal, which `forget` answers and which leaves this state.
  unfoldable pub command :
      ℤ → ℕ → String → (Value → Loaded) → Payload → Engine → Result CommandError Engine
  command clock mono observer_id load_key payload engine =
      let action = get "action" payload in
      let started = link_of clock payload >>= λ link.
      start observer_id (load_key (get "public_key" payload)) link engine in
      if is_text action "start_app_pairing"
      then started
      else if is_text action "cancel" && is_session engine.session (get "session_id" payload)
      then ok (end_pairing engine)
      else if is_text action "complete" && is_session engine.session (get "session_id" payload)
      then ok (complete mono engine)
      else ok engine
