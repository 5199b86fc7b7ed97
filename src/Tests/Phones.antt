-- ===== src/Tests/Phones.antt =====
-- The theorems on enrolling, reading and removing a phone.
use presence_bridge.Prelude.{
  ℕ, Bool, true, List, [], ◌∷◌, Option, none, some, String, ℤ, pos, negsuc, Dict, lookup, insert,
  erase, Result, ok, err, ◌≡◌, ◌≢◌, ◌≤◌, ◌<◌, refl, arith, ltb, if◌then◌else◌,
}
use presence_bridge.Json.{Value, Payload, end, field, str, int, bool, obj}
use presence_bridge.Coordinator.Types.{Coordinator, is_member}
use presence_bridge.Coordinator.Topic.{Message, observer_id_from_topic}
use presence_bridge.Coordinator.Action.{World, HaError, publish, save}
use presence_bridge.Coordinator.Matching.{Phone}
use presence_bridge.Coordinator.Removal.{remove_identity}
use presence_bridge.Coordinator.Removal.Confirmed.{
  IsSafe, IsRemoved, remove_identity-IsSafe, remove_identity-IsRemoved,
}
use presence_bridge.Coordinator.Enroll.{
  Waiting, wait_for_phone, current, selected_id, owner_of, assign,
}
use presence_bridge.Coordinator.Enroll.Assigned.{
  IsHeard, IsAssigned, wait_for_phone-IsHeard, assign-IsAssigned,
}
use presence_bridge.Signals.{Reply, signal, issued, get, post}
use presence_bridge.Signals.Redeemed.{IsRedeemed, post-IsRedeemed}
use presence_bridge.Signals.Limited.{Reading, reads_after, get-limited}
use presence_bridge.Bonds.{BondDevice, Sighting, remove_identity_bonds}
use presence_bridge.Bonds.Confirmation.{IsSettled, remove_identity_bonds-IsSettled}
use presence_bridge.Receiver.{Bluez, Answer, forget}
use presence_bridge.Coordinator.Repair.{repair_pairing_at}
use presence_bridge.Coordinator.Repair.Safe.{IsRepaired, repair_pairing_at-IsRepaired}
use presence_bridge.Tests.Fixtures.{
  rt, env, session, pairing, coordinator, world, session_token, fingerprint, phone_key, identity,
  identity_state,
}

abbrev confirmation : Message
confirmation = record {
  topic = "presence_bridge/v1/observers/desk/identity_removal/result";
  payload = obj (
      field "request_id" (str session_token) (
        field "observer_id" (str "desk") (
          field "identity_id" (str "0123456789abcdef")
            (field "fingerprint" (str fingerprint) (field "success" (bool true) end)))));
}

abbrev removed : Result HaError (Unit {0}) × World
removed = remove_identity rt env (confirmation ∷ []) "0123456789abcdef" world

remove_identity-IsSafe_example :
    IsSafe rt env (confirmation ∷ []) "0123456789abcdef" world removed.1
remove_identity-IsSafe_example =
    remove_identity-IsSafe rt env (confirmation ∷ []) "0123456789abcdef" world

remove_identity-IsRemoved_example :
    IsRemoved rt env (confirmation ∷ []) "0123456789abcdef" world removed.1
unfolding remove_identity presence_bridge.Coordinator.Removal.remove_checked
    presence_bridge.Coordinator.Removal.check_removal
    presence_bridge.Coordinator.Removal.fingerprint_of presence_bridge.Coordinator.Removal.from_hex
    presence_bridge.Coordinator.Removal.request_bond_removal
    presence_bridge.Coordinator.Removal.await_reply presence_bridge.Coordinator.Removal.receive
    presence_bridge.Coordinator.Removal.removal_result_message
    presence_bridge.Coordinator.Removal.reply_to presence_bridge.Coordinator.Removal.answers
    presence_bridge.Coordinator.Removal.set_reply presence_bridge.Coordinator.Removal.judge
    presence_bridge.Coordinator.Removal.require_phone_reset
    presence_bridge.Coordinator.Removal.forget presence_bridge.Coordinator.Removal.after_forget
    lookup insert erase is_member publish save observer_id_from_topic presence_bridge.Prelude.cut
    presence_bridge.Prelude.starts_with presence_bridge.Json.as_payload presence_bridge.Json.text_at
    presence_bridge.Json.get presence_bridge.Json.or_else presence_bridge.Json.to_text
    presence_bridge.Json.truthy presence_bridge.Json.is_text presence_bridge.Json.is_true
remove_identity-IsRemoved_example =
    remove_identity-IsRemoved rt env (confirmation ∷ []) "0123456789abcdef" world removed.1 refl

abbrev waiting : Waiting
waiting = record { clock = λ k. 1000000000; sleep = λ k c. c }

abbrev phone : Phone
phone = record { irk = phone_key; identity_address = none; paired_by = some "desk" }

wait_for_phone-IsHeard_example : IsHeard rt 180 waiting 0 phone 20 0 pairing
unfolding wait_for_phone current presence_bridge.Coordinator.Lease.pairing_deadline
    presence_bridge.Coordinator.Matching.matches_for_irk presence_bridge.Prelude.matches
    presence_bridge.Coordinator.Matching.match_observers
    presence_bridge.Coordinator.Matching.match_observer
    presence_bridge.Coordinator.Matching.best_signal presence_bridge.Coordinator.Matching.signal_of
    presence_bridge.Coordinator.Observers.parse_timestamp presence_bridge.Json.truthy
    presence_bridge.Json.to_text presence_bridge.Coordinator.Matching.phone_of
wait_for_phone-IsHeard_example =
    wait_for_phone-IsHeard rt 180 waiting 0 phone 20 0 pairing pairing refl

assign-IsAssigned_example :
    IsAssigned session phone_key "0123456789abcdef" coordinator
      (assign rt 1000000000 session phone_key none "0123456789abcdef" coordinator)
unfolding selected_id owner_of
assign-IsAssigned_example =
    assign-IsAssigned rt 1000000000 session phone_key "0123456789abcdef" none coordinator refl

abbrev old_token : String
old_token = "abcdefghijklmnopqrstuvwxyzABCDEFGHIJKLMNOPQ"

abbrev new_token : String
new_token = "ABCDEFGHIJKLMNOPQRSTUVWXYZabcdefghijklmnopq"

abbrev exchanged : Reply × Coordinator
exchanged = post rt 1000000000 old_token new_token (λ _. true) coordinator

post-IsRedeemed_example :
    (new_token ≡ new_token)
    × IsRedeemed rt 1000000000 old_token new_token 7777000 coordinator exchanged.1
unfolding post presence_bridge.Signals.redeem presence_bridge.Signals.authorized lookup
    presence_bridge.Signals.matches_access presence_bridge.Signals.is_access_token
    presence_bridge.Prelude.matches presence_bridge.Signals.new_access
post-IsRedeemed_example =
    post-IsRedeemed rt 1000000000 old_token new_token new_token (λ _. true) 7777000 coordinator
      exchanged.1 refl

abbrev third : Coordinator
third = record coordinator {
  identities = ("0011223344556677", identity) ∷ [];
  identity_states =
      ("0011223344556677", record (identity_state) { identity_id = "0011223344556677" }) ∷ [];
}

abbrev second : Coordinator
second = record coordinator {
  identities = ("fedcba9876543210", identity) ∷ [];
  identity_states =
      ("fedcba9876543210", record (identity_state) { identity_id = "fedcba9876543210" }) ∷ [];
}

-- the second phone is read in between
abbrev between : List Reading
between =
    record { clock = 1000000000; now = 500000001; token = old_token; coordinator = second } ∷ []

get-limited_example : ◌≢◌ {A = String} "0011223344556677" "0123456789abcdef"
unfolding get presence_bridge.Signals.limited_read presence_bridge.Signals.recent_reads insert
    presence_bridge.Signals.authorized lookup presence_bridge.Signals.matches_access
    presence_bridge.Signals.is_access_token presence_bridge.Prelude.matches reads_after
    presence_bridge.Signals.new_access
get-limited_example =
    get-limited rt 1000000000 1000000000 500000000 500000002 old_token old_token "0123456789abcdef"
      "0011223344556677" coordinator third between [] (("0123456789abcdef", 500000000) ∷ [])
      (("0123456789abcdef", 500000000)
        ∷ ("fedcba9876543210", 500000001)
        ∷ ("0011223344556677", 500000002)
        ∷ [])
      refl (omega arith, tt) (omega arith) refl

abbrev bond : BondDevice
bond = record { device_id = "id"; address = "4A0000000001"; container_id = ""; transport = "ble" }

-- the bond and the key at first, and nothing from the third look on
abbrev sightings : ℕ → Sighting
sightings k =
    if ltb k 3
    then record {
      bonded = bond ∷ [];
      saved = record { irk = phone_key; registry_leaf = "4a0000000001" } ∷ [];
    }
    else record { bonded = []; saved = [] }

remove_identity_bonds-IsSettled_example :
    IsSettled rt fingerprint sightings []
      (remove_identity_bonds rt fingerprint sightings (λ _. true) [])
remove_identity_bonds-IsSettled_example =
    remove_identity_bonds-IsSettled rt fingerprint sightings (λ _. true) []

abbrev command : Payload
command = field "request_id" (str session_token) (
    field "observer_id" (str "desk") (
      field "identity_id" (str "0123456789abcdef")
        (field "fingerprint" (str fingerprint) (field "expires_at" (int (pos 1075)) end))))

abbrev bluez : Bluez
bluez = record { read = λ _. some fingerprint; devices = []; removes = λ _. true }

-- an offer for the phone, and its repair
abbrev offered : World
offered = record {
  coordinator = record coordinator {
    pairing_public = ("state", str "error") ∷ ("repair_id", str "repair-identifier") ∷ [];
    bond_repair_offer = some (record {
      repair_id = "repair-identifier";
      session_id = session_token;
      fingerprint = fingerprint;
      expires_at = 1200000000;
      person_entity_id = "person.anna";
      observer_id = "desk";
    });
  };
  outbox = [];
}

repair_pairing_at-IsRepaired_example :
    IsRepaired rt env
      (confirmation ∷ [])
      "repair-identifier"
      offered
      (repair_pairing_at rt env (confirmation ∷ []) "repair-identifier" offered).1
repair_pairing_at-IsRepaired_example =
    repair_pairing_at-IsRepaired rt env (confirmation ∷ []) "repair-identifier" offered
