-- ===== src/Coordinator/Status.antt =====
-- `_pairing_status_message` and `_accept_bond_repair_offer`.
pub mod Budget
use presence_bridge.Prelude.{
  ℕ, ◌+◌, ◌*◌, ◌/◌, ltb, leb, Bool, true, false, ◌&&◌, ◌||◌, not, List, [], ◌∷◌, ◌++◌, Option, none,
  some, String, ◌==◌, Dict, lookup, insert, any, codes, cut, strip, lower, matches, is_token,
  is_lower_hex, ℤ, pos, negsuc, if◌then◌else◌, ◌≡◌, refl, arith,
}
use presence_bridge.Json.{
  Value, null, bool, int, frac, str, Payload, get, as_payload, truthy, is_text, is_null, to_text,
  text_at, or_else,
}
use presence_bridge.Runtime.{Runtime}
use presence_bridge.Coordinator.Types.{
  Coordinator, Session, ObserverState, IdentityRow, RepairOffer, seconds, is_member, active_states,
}
use presence_bridge.Coordinator.Topic.{Message, observer_id_from_topic}
use presence_bridge.Coordinator.Lease.{
  Leases, truthy_lease, accepted_attempt, accepted_completion, with_attempt, with_completion,
}
use presence_bridge.Coordinator.Public.{update, set_pairing_state}

-- _PAIRING_SESSION_ID_RE.fullmatch
unfoldable pub is_pairing_session_id : String → Bool
unfolding matches
is_pairing_session_id s = matches is_token 16 96 (codes s)

-- re.fullmatch(r"[0-9a-f]{64}", s)
unfoldable pub is_fingerprint : String → Bool
unfolding matches
is_fingerprint s = matches is_lower_hex 64 64 (codes s)

micros : ℤ → ℤ
micros (pos n) = pos (n * 1000000)
micros (negsuc n) = negsuc (n * 1000000 + 999999)

-- float(value), in millionths
unfoldable pub float_of : Runtime → Value → Option ℤ
unfolding micros
float_of rt (int n) = some (micros n)
float_of rt (frac n) = some n
float_of rt (bool b) = some (pos (if b then 1000000 else 0))
float_of rt (str s) = rt.parse_float s
float_of rt _ = none

-- float(value or 0) in millionths; `none` is the TypeError or ValueError
unfoldable pub to_float : Runtime → Value → Option ℤ
unfolding float_of
to_float rt v = if truthy v then float_of rt v else some (pos 0)

-- `now < deadline <= now + span`, for a deadline in microseconds
abbrev pub in_future : ℕ → ℕ → ℤ → Bool
in_future now span (pos d) = ltb now d && leb d (now + span)
in_future now span (negsuc d) = false

abbrev owned_by : Option IdentityRow → String → String → Bool
owned_by none person observer = true
owned_by (some row) person observer = row.person_entity_id == person && row.paired_by == observer

-- a task that a handler starts
pub data Task : Type 0 where
  cancel_orphan : String → String → Task
  process_result : Payload → Task

-- the status fields that are copied from the payload
abbrev pub copied_keys : List String
copied_keys =
    "detail_code" ∷ "advertisement_status" ∷ "advertisement_error" ∷ "gatt_host" ∷ "transport"
    ∷ "rssi" ∷ []

abbrev pub terminal_states : List String
terminal_states = "cancelled" ∷ "timeout" ∷ "error" ∷ []

abbrev pub is_orphan : String → String → List (String × String) → Bool
is_orphan observer_id session_id = any (λ (o, s). o == observer_id && s == session_id)

abbrev pub is_from : String → Payload → Session → Bool
is_from topic_observer payload session =
    is_text (get "session_id" payload) session.session_id
    && is_text (get "observer_id" payload) session.observer_id
    && topic_observer == session.observer_id

consumed : Dict Value
consumed = ("invitation_consumed", bool true) ∷ ("pairing_uri", null) ∷ ("qr_data_uri", null) ∷ []

-- what the first half adds to `status_extra`
attempt_extra : Option ℕ → Dict Value
attempt_extra none = []
attempt_extra (some a) =
    ("attempt_expires_at", int (pos a)) ∷ ("handoff_started", bool true) ∷ consumed

-- what the second half adds, from the leases as they are then
lease_extra : Option ℕ → Leases → Dict Value
lease_extra (some c) l =
    ("completion_expires_at", int (pos c)) ∷ ("effective_expires_at", int (pos c)) ∷ consumed
lease_extra none l = elim (truthy_lease l.completion) [
  | some c ↦
      ("completion_expires_at", int (pos c)) ∷ ("effective_expires_at", int (pos c)) ∷ consumed
  | none ↦ elim (truthy_lease l.attempt) [
    | some a ↦
        ("attempt_expires_at", int (pos a))
        ∷ ("effective_expires_at", int (pos a))
        ∷ ("handoff_started", bool true)
        ∷ consumed
    | none ↦ []
  ]
]

repair_extra : Option RepairOffer → Dict Value
repair_extra none = []
repair_extra (some offer) =
    ("repair_id", str offer.repair_id) ∷ ("repair_expires_at", frac (pos offer.expires_at)) ∷ []

module _ (rt : Runtime) (now : ℕ) where
  -- The offer that `_accept_bond_repair_offer` stores, if it stores one.
  unfoldable pub repair_offer : Payload → Session → Dict IdentityRow → Option RepairOffer
  unfolding get to_text text_at is_text is_pairing_session_id is_fingerprint
  repair_offer payload session identities = elim (as_payload (get "bond_repair" payload)) [
    | none ↦ none
    | some offer ↦
        let fingerprint = text_at rt.repr "fingerprint" offer in
        let repair_id = text_at rt.repr "repair_id" offer in
        elim (to_float rt (get "expires_at" offer)) [
          | none ↦ none
          | some (negsuc d) ↦ none
          | some (pos deadline) ↦
              if is_pairing_session_id repair_id
                && is_fingerprint fingerprint
                && is_text (get "session_id" offer) session.session_id
                && in_future now 610000000 (pos deadline)
                && owned_by (lookup (cut 16 fingerprint) identities) session.person_entity_id
                    session.observer_id
              then some (record {
                repair_id = repair_id;
                session_id = session.session_id;
                fingerprint = fingerprint;
                expires_at = deadline;
                person_entity_id = session.person_entity_id;
                observer_id = session.observer_id;
              })
              else none
        ]
  ]

  copy_fields : List String → Payload → Dict Value
  copy_fields [] payload = []
  copy_fields (k ∷ ks) payload =
      let rest = copy_fields ks payload in
      if is_null (get k payload)
      then rest
      else (k, str (cut 120 (to_text rt.repr (get k payload)))) ∷ rest

  -- `observer.online = True; observer.last_seen = _utcnow()`
  unfoldable pub heartbeat : String → Dict ObserverState → Dict ObserverState
  heartbeat observer_id observers = elim (lookup observer_id observers) [
    | none ↦ observers
    | some o ↦ insert observer_id (record o { online = true; last_seen = some now }) observers
  ]

  -- the end of the handler, for a message of the current session in an allowed state
  unfoldable pub apply_status : String → Payload → Session → Coordinator → Coordinator
  unfolding attempt_extra lease_extra copy_fields repair_extra consumed
  apply_status state payload session c =
      let code = cut 120 (text_at rt.repr "detail_code" payload) in
      let before : Leases = record {
        attempt = session.attempt_expires_at;
        completion = session.completion_expires_at;
      } in
      let attempt = accepted_attempt (seconds now) code (get "attempt_expires_at" payload) before in
      let between = with_attempt attempt before in
      let completion =
        accepted_completion (seconds now) code (get "completion_expires_at" payload) between in
      let after = with_completion completion between in
      let offer =
        if state == "error" && code == "iphone_saved_bond_unreachable"
        then repair_offer payload session c.identities
        else none in
      let session' = record session {
        attempt_expires_at = after.attempt;
        completion_expires_at = after.completion;
      } in
      record c {
        pairing_public =
            set_pairing_state (rt.isoformat now) state
              (cut 240 (to_text rt.repr (or_else (get "message" payload) (str "Pairing update"))))
              (update
                (update (update (copy_fields copied_keys payload) (attempt_extra attempt))
                  (lease_extra completion after))
                (repair_extra offer))
              c.pairing_public;
        pairing_session = if is_member state active_states then some session' else none;
        bond_repair_offer = elim offer [ none ↦ c.bond_repair_offer | some o ↦ some o ];
      }

  -- a status message of the current session
  unfoldable pub session_status : String → Payload → Session → Coordinator → Coordinator
  session_status state payload session c =
      let c' = record c { observers = heartbeat session.observer_id c.observers } in
      if is_member state active_states || is_member state terminal_states
      then apply_status state payload session c'
      else c'

  -- A message with no session in HA: the receiver is told to stop, once.
  unfoldable pub orphan_status : String → String → Payload → Coordinator → Coordinator × List Task
  orphan_status topic_observer state payload c =
      let observer_id = lower (strip (text_at rt.repr "observer_id" payload)) in
      let session_id = strip (text_at rt.repr "session_id" payload) in
      if is_member state active_states
        && observer_id == topic_observer
        && is_pairing_session_id session_id
        && not (is_orphan observer_id session_id c.orphan_cancels)
      then (
        record c { orphan_cancels = (observer_id, session_id) ∷ c.orphan_cancels },
        cancel_orphan observer_id session_id ∷ [],
      )
      else (c, [])

  unfoldable pub pairing_status_message : Message → Coordinator → Coordinator × List Task
  pairing_status_message message c = elim (as_payload message.payload) [
    | none ↦ (c, [])
    | some payload ↦
        let state = lower (text_at rt.repr "state" payload) in
        let topic_observer = observer_id_from_topic message.topic in
        elim c.pairing_session [
          | none ↦ orphan_status topic_observer state payload c
          | some session ↦
              if is_from topic_observer payload session
              then (session_status state payload session c, [])
              else (c, [])
        ]
  ]

  -- A status message that does not carry the session, the receiver and the topic of the current
  -- session changes nothing and starts nothing.
  pub pairing_status_message_foreign :
      (message : Message) (c : Coordinator) (session : Session) (payload : Payload)
      → c.pairing_session ≡ some session
      → as_payload message.payload ≡ some payload
      → is_from (observer_id_from_topic message.topic) payload session ≡ false
      → pairing_status_message message c ≡ (c, [])
  unfolding pairing_status_message
  pairing_status_message_foreign message c session payload e p f = ground arith
