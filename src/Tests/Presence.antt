-- ===== src/Tests/Presence.antt =====
-- The theorems on receivers, on where a phone is, and on what is read of it.
use presence_bridge.Prelude.{true, List, [], ◌∷◌, none, negsuc, All, length, ◌≡◌, ◌≤◌, refl}
use presence_bridge.Json.{Value, end, nil, cons, field, str, int, arr, obj, null}
use presence_bridge.Coordinator.Types.{is_member}
use presence_bridge.Coordinator.Observers.{normalize_observations, expire_runtime_state}
use presence_bridge.Coordinator.Observers.Normalized.{IsNormal, normalize_observations-IsNormal}
use presence_bridge.Coordinator.Observers.Expiry.{
  IsCurrent, IsPresent, expire_runtime_state-IsCurrent,
}
use presence_bridge.Coordinator.Matching.{
  Match, Phone, match_observer, newest, resolve_state, show_at,
}
use presence_bridge.Coordinator.Matching.Strongest.{IsMatch, match_observer-IsMatch}
use presence_bridge.Coordinator.Matching.Selection.{IsShown, resolve_state-IsShown}
use presence_bridge.Coordinator.Telemetry.{signal_payload}
use presence_bridge.Coordinator.Telemetry.Fresh.{IsRecent, IsSorted, signal_payload-IsSorted}
use presence_bridge.PersonLink.{
  Person, person_link_status, find_person, owners, owned_by_other, tracker_status,
}
use presence_bridge.PersonLink.Cases.{Alone, Owns, person_link_status-linked}
use presence_bridge.Tests.Fixtures.{rt, coordinator, desk, identity_state, phone_key}

abbrev row : Value
row = obj (field "address" (str "4a0000000001") (field "rssi" (int (negsuc 59)) end))

normalize_observations-IsNormal_example :
    All IsNormal (normalize_observations rt (arr (cons row (cons null nil))) (str "t0"))
    × (length (normalize_observations rt (arr (cons row (cons null nil))) (str "t0")) ≤ 200)
normalize_observations-IsNormal_example =
    normalize_observations-IsNormal rt (str "t0") (arr (cons row (cons null nil)))

expire_runtime_state-IsCurrent_example :
    let c' = expire_runtime_state 1100000000 75 180 coordinator in
    All (λ e. IsCurrent 1100000000 75 e.1) c'.observers
    × All (λ e. IsPresent 1100000000 180 e.1) c'.identity_states
expire_runtime_state-IsCurrent_example =
    expire_runtime_state-IsCurrent 1100000000 75 180 coordinator

abbrev phone : Phone
phone = record { irk = phone_key; identity_address = none; paired_by = none }

match_observer-IsMatch_example :
    IsMatch rt 1000000000 180 phone "desk" desk (match_observer rt 1000000000 180 phone desk)
match_observer-IsMatch_example = match_observer-IsMatch rt 1000000000 180 phone desk

abbrev near : Match
near = record { observer = desk; rssi = negsuc 59; seen = 990000000 }

abbrev far : Match
far = record { observer = record desk { observer_id = "hall" }; rssi = negsuc 79; seen = 995000000 }

resolve_state-IsShown_example :
    (s : Match) × IsShown (near ∷ far ∷ []) (newest near (far ∷ [])) s
    × (resolve_state (near ∷ far ∷ []) identity_state
        ≡ show_at s (newest near (far ∷ [])) identity_state)
resolve_state-IsShown_example = resolve_state-IsShown near (far ∷ []) identity_state

signal_payload-IsSorted_example :
    let p =
      signal_payload rt 1000000000 180 (λ _. none) "0123456789abcdef" identity_state coordinator in
    IsRecent 1000000000 p.receivers × IsSorted p.receivers
signal_payload-IsSorted_example =
    signal_payload-IsSorted rt 1000000000 180 (λ _. none) "0123456789abcdef" identity_state
      coordinator

abbrev people : List Person
people =
    record {
      entity_id = "person.anna";
      device_trackers = "device_tracker.phone" ∷ [];
      editable = true;
    }
    ∷ record { entity_id = "person.ben"; device_trackers = []; editable = true }
    ∷ []

person_link_status-linked_example :
    Owns "person.anna" "device_tracker.phone" people
    × Alone "person.anna" "device_tracker.phone" people
unfolding person_link_status find_person owners owned_by_other tracker_status is_member
person_link_status-linked_example =
    person_link_status-linked people "person.anna" "device_tracker.phone" refl
