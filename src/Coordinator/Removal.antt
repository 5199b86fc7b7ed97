-- ===== src/Coordinator/Removal.antt =====
-- Removing a phone: `async_remove_identity`, and what it shares with `async_repair_pairing`. A receiver
-- has to confirm the removal before Home Assistant forgets the phone.
pub mod Answers
pub mod Confirmed
use Prim.Native.String.{◌++◌ as append}
use presence_bridge.Prelude.{
  ℕ, ◌+◌, ◌*◌, ◌-◌, leb, ltb, ◌=ℕ◌, Bool, true, false, ◌&&◌, ◌||◌, not, List, [], ◌∷◌, ◌++◌, Option,
  none, some, String, ◌==◌, Dict, lookup, insert, erase, cut, starts_with, codes, is_digit, is_hex,
  Result, ok, err, ℤ, pos, Bytes, if◌then◌else◌, ◌≡◌, refl,
}
use presence_bridge.Json.{
  Value, Payload, obj, str, get, get_default, as_payload, or_else, text_at, is_text, is_true,
}
use presence_bridge.Runtime.{Runtime}
use presence_bridge.Coordinator.Types.{
  Coordinator, ObserverState, IdentityRow, IdentityState, RepairOffer, RemovalRequest, Session,
  is_member,
}
use presence_bridge.Coordinator.Public.{set_pairing_state}
use presence_bridge.Coordinator.Topic.{Message, observer_id_from_topic}
use presence_bridge.Coordinator.Action.{
  World, Env, Act, HaError, Command, forget_identity, repair_pairing, unknown_identity,
  pairing_active, receiver_offline, update_receiver, identity_mismatch, removal_unconfirmed,
  removal_failed, invalid_hex, repair_expired, repair_offline, assignment_changed, continue,
  publish, save, ◌>>=◌, ◌>>◌,
}
use presence_bridge.Coordinator.Pairing.{start_pairing}

is_blank : ℕ → Bool
is_blank c = c =ℕ 32 || (leb 9 c && leb c 13)

hex_value : ℕ → ℕ
hex_value c = if is_digit c then c - b'0' else if leb c b'F' then c - b'A' + 10 else c - b'a' + 10

-- bytes.fromhex: pairs of digits, with space between them
unfoldable pub from_hex : Bytes → Option Bytes
unfolding is_blank hex_value
from_hex [] = some []
from_hex (c ∷ []) = if is_blank c then some [] else none
from_hex (c ∷ d ∷ s) =
    let after_blank = from_hex (d ∷ s) in
    let after_pair = from_hex s in
    if is_blank c
    then after_blank
    else if is_hex c && is_hex d
    then (elim after_pair [ none ↦ none | some bs ↦ some ((16 * hex_value c + hex_value d) ∷ bs) ])
    else none

-- hashlib.sha256(bytes.fromhex(row["irk"])).hexdigest()
unfoldable pub fingerprint_of : Runtime → String → Option String
unfolding from_hex
fingerprint_of rt irk = elim (from_hex (codes irk)) [
  | none ↦ none
  | some bs ↦ some (rt.sha256_hex bs)
]

-- _rebuild_identity_states
unfoldable pub rebuild : Dict IdentityState → Dict IdentityRow → Dict IdentityState
rebuild previous [] = []
rebuild previous ((identity_id, row) ∷ rows) =
    let rest = rebuild previous rows in
    let label = cut 100 (if row.label == "" then row.person_entity_id else row.label) in
    let state : IdentityState = elim (lookup identity_id previous) [
      | some existing ↦ record existing { person_entity_id = row.person_entity_id; label = label }
      | none ↦ record {
        identity_id = identity_id;
        person_entity_id = row.person_entity_id;
        label = label;
        is_home = false;
        observer_id = none;
        observer_name = none;
        area_id = none;
        rssi = none;
        signal_seen_at = none;
        last_seen = none;
      }
    ] in
    if starts_with row.person_entity_id "person." then (identity_id, state) ∷ rest else rest

unfoldable pub rebuild_identity_states : Coordinator → Coordinator
unfolding rebuild
rebuild_identity_states c = record c { identity_states = rebuild c.identity_states c.identities }

-- Whether a removal result answers the request, by its content and by its topic.
unfoldable pub answers : RemovalRequest → Message → Payload → Bool
answers pending message payload =
    is_text (get "observer_id" payload) pending.observer_id
    && is_text (get "identity_id" payload) pending.identity_id
    && is_text (get "fingerprint" payload) pending.fingerprint
    && observer_id_from_topic message.topic == pending.observer_id

-- future.set_result, once
unfoldable pub set_reply : Payload → RemovalRequest → RemovalRequest
set_reply payload request = record request {
  reply = elim request.reply [ none ↦ some payload | some p ↦ some p ];
}

unfoldable pub reply_to :
    Message → Payload → String → Option RemovalRequest → Dict RemovalRequest → Dict RemovalRequest
reply_to message payload request_id none requests = requests
reply_to message payload request_id (some pending) requests =
    if answers pending message payload
    then insert request_id (set_reply payload pending) requests
    else requests

-- _identity_removal_result_message
unfoldable pub removal_result_message :
    Runtime → Message → Dict RemovalRequest → Dict RemovalRequest
unfolding reply_to
removal_result_message rt message requests = elim (as_payload message.payload) [
  | none ↦ requests
  | some payload ↦
      let request_id = text_at rt.repr "request_id" payload in
      reply_to message payload request_id (lookup request_id requests) requests
]

-- The results that arrive while a request waits, in order.
unfoldable pub receive : Runtime → List Message → Dict RemovalRequest → Dict RemovalRequest
receive rt [] requests = requests
receive rt (m ∷ ms) requests = receive rt ms (removal_result_message rt m requests)

abbrev pub reply_of : Option RemovalRequest → Option Payload
reply_of none = none
reply_of (some request) = request.reply

-- What is made of the future: `none` is the timeout after 70 seconds.
unfoldable pub judge : Option Payload → Result HaError (Unit {0})
judge none = err removal_unconfirmed
judge (some payload) =
    if is_true (get "success" payload)
    then ok tt
    else err (
        removal_failed (
          or_else (get "message" payload)
            (str "Windows Bluetooth removal failed; the HA association was preserved")))

-- `self._removal_requests.update`
abbrev pub with_requests : (Dict RemovalRequest → Dict RemovalRequest) → World → World
with_requests f w = record w {
  coordinator = record (w.coordinator) { removal_requests = f w.coordinator.removal_requests };
}

-- `finally: self._removal_requests.pop(request_id, None)`
abbrev drop_request : String → Result HaError (Unit {0}) × World → Result HaError (Unit {0}) × World
drop_request request_id (r, w) = (r, with_requests (erase request_id) w)

-- `await asyncio.wait_for(future, timeout=70)`, in which `received` arrives
unfoldable pub await_reply : Runtime → String → List Message → Act (Unit {0})
await_reply rt request_id received w =
    let w' = with_requests (receive rt received) w in
    (judge (reply_of (lookup request_id w'.coordinator.removal_requests)), w')

-- `_async_request_bond_removal`; `command` is what it publishes.
unfoldable pub request_bond_removal :
    Runtime → Env → List Message → String → String → Command → Act (Unit {0})
request_bond_removal rt env received observer_id fingerprint command w =
    let request : RemovalRequest = record {
      observer_id = observer_id;
      identity_id = cut 16 fingerprint;
      fingerprint = fingerprint;
      reply = none;
    } in
    drop_request env.token (
      (publish env observer_id command >>= λ _. await_reply rt env.token received)
        (with_requests (insert env.token request) w))

abbrev pub forget_command : Env → String → Command
forget_command env fingerprint =
    forget_identity env.token (cut 16 fingerprint) fingerprint (env.now + 75000000)

abbrev pub reset_key : String → String → String
reset_key person_entity_id observer_id = append person_entity_id (append ":" observer_id)

-- _async_require_phone_reset
unfoldable pub require_phone_reset : Env → String → String → Act (Unit {0})
require_phone_reset env person_entity_id observer_id w =
    if starts_with person_entity_id "person."
    then save env (record w {
      coordinator = record (w.coordinator) {
        phone_bond_resets =
            insert (reset_key person_entity_id observer_id) true w.coordinator.phone_bond_resets;
      };
    })
    else (ok tt, w)

-- What `_async_forget_identity` does once the row is gone and saved.
unfoldable pub after_forget : Runtime → Env → String → Coordinator → Coordinator
after_forget rt env identity_id c =
    let c' = rebuild_identity_states c in
    if elim (lookup "identity_id" c.pairing_public) [
      | none ↦ false
      | some v ↦ is_text v identity_id
    ]
    then record c' {
      pairing_public =
          set_pairing_state (rt.isoformat env.now) "idle"
            "Phone removed from Home Assistant and the receiver; ready for a new pairing" []
            c.pairing_public;
    }
    else c'

-- A failed save puts the row back.
abbrev settle_forget :
    Runtime
    → Env
    → String
    → IdentityRow
    → Result HaError (Unit {0}) × World
    → Result HaError (Unit {0}) × World
settle_forget rt env identity_id row (ok u, w) =
    (ok tt, record w { coordinator = after_forget rt env identity_id w.coordinator })
settle_forget rt env identity_id row (err e, w) = (
  err e,
  record w {
    coordinator = record (w.coordinator) {
      identities = insert identity_id row w.coordinator.identities;
    };
  },
)

-- `_async_forget_identity`; the removal of the registry's entries is Home Assistant's.
unfoldable pub forget : Runtime → Env → String → IdentityRow → Act (Unit {0})
forget rt env identity_id row w = settle_forget rt env identity_id row (
    save env (record w {
      coordinator = record (w.coordinator) {
        identities = erase identity_id w.coordinator.identities;
      };
    }))

-- The checks of `_async_remove_identity_locked`: the row and the fingerprint, or what is raised.
unfoldable pub check_removal :
    Runtime → String → Coordinator → Result HaError (IdentityRow × String)
check_removal rt identity_id c = elim (lookup identity_id c.identities) [
  | none ↦ err unknown_identity
  | some row ↦ elim c.pairing_session [
    | some s ↦ err pairing_active
    | none ↦ elim (lookup row.paired_by c.observers) [
      | none ↦ err receiver_offline
      | some observer ↦
          if not observer.online
          then err receiver_offline
          else if not (is_member "identity_removal" observer.capabilities)
          then err update_receiver
          else elim (fingerprint_of rt row.irk) [
            | none ↦ err invalid_hex
            | some fingerprint ↦
                if cut 16 fingerprint == identity_id
                then ok (row, fingerprint)
                else err identity_mismatch
          ]
    ]
  ]
]

-- From the checks on: the receiver removes the bond, then Home Assistant forgets the phone.
unfoldable pub remove_checked :
    Runtime → Env → List Message → String → Result HaError (IdentityRow × String) → Act (Unit {0})
remove_checked rt env received identity_id (err e) w = (err e, w)
remove_checked rt env received identity_id (ok (row, fingerprint)) w =
    (do
      request_bond_removal rt env received row.paired_by fingerprint
          (forget_command env fingerprint)
      require_phone_reset env row.person_entity_id row.paired_by
      forget rt env identity_id row)
      w

-- async_remove_identity
unfoldable pub remove_identity : Runtime → Env → List Message → String → Act (Unit {0})
remove_identity rt env received identity_id w =
    remove_checked rt env received identity_id (check_removal rt identity_id w.coordinator) w
