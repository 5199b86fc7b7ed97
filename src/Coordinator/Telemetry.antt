-- ===== src/Coordinator/Telemetry.antt =====
-- What the panel and the phone's own app read of an identity: `signal_payload` and `identity_payload`.
-- Points in time stay numbers here; the code renders them with `isoformat`.
pub mod Fresh
use presence_bridge.Prelude.{
  ℕ, ltb, leb, Bool, true, false, ◌&&◌, not, List, [], ◌∷◌, Option, none, some, String, ◌==◌, Dict,
  lookup, filter, find?, map, length, ℤ, ltb_ℤ, if◌then◌else◌,
}
use presence_bridge.Runtime.{Runtime}
use presence_bridge.Coordinator.Types.{
  Coordinator, ObserverState, IdentityState, IdentityRow, within_seconds,
}
use presence_bridge.Coordinator.Matching.{Match, Phone, matches_for_irk, equals}

-- An entry of "receivers".
pub record Reading : Type 0 where
  pub observer_id : String
  pub name : String
  pub area_name : Option String
  pub rssi : ℤ
  pub sampled_at : ℕ

pub record SignalPayload : Type 0 where
  pub label : String
  pub rssi : Option ℤ
  pub sampled_at : Option ℕ
  pub fresh : Bool
  pub server_time : ℕ
  pub receivers : List Reading

abbrev area_name : (String → Option String) → Option String → Option String
area_name areas none = none
area_name areas (some area) = areas area

abbrev reading : (String → Option String) → Match → Reading
reading areas m = record {
  observer_id = m.observer.observer_id;
  name = m.observer.name;
  area_name = area_name areas m.observer.area_id;
  rssi = m.rssi;
  sampled_at = m.seen;
}

unfoldable pub readings : (String → Option String) → ℕ → List Match → List Reading
readings areas now [] = []
readings areas now (m ∷ ms) =
    let rest = readings areas now ms in
    if within_seconds now m.seen 45 then reading areas m ∷ rest else rest

-- receivers.sort(key=rssi, reverse=True), which is stable
unfoldable pub place : Reading → List Reading → List Reading
place r [] = r ∷ []
place r (s ∷ rest) =
    let later = place r rest in if ltb_ℤ r.rssi s.rssi then s ∷ later else r ∷ s ∷ rest

unfoldable pub sort : List Reading → List Reading
sort [] = []
sort (r ∷ rest) = place r (sort rest)

abbrev strength : Option Reading → Option ℤ
strength none = none
strength (some r) = some r.rssi

abbrev is_some : {A : Type 0} → Option A → Bool
is_some none = false
is_some (some _) = true

abbrev irk_of : Option IdentityRow → String
irk_of none = ""
irk_of (some row) = row.irk

-- `areas` gives the name of a room; a missing row has no key, and no receivers.
unfoldable pub signal_payload :
    Runtime
    → ℕ
    → ℕ
    → (String → Option String)
    → String
    → IdentityState
    → Coordinator
    → SignalPayload
signal_payload rt now away_timeout areas identity_id state c =
    let phone : Phone = record {
      irk = irk_of (lookup identity_id c.identities);
      identity_address = none;
      paired_by = none;
    } in
    let receivers = sort (readings areas now (matches_for_irk rt now away_timeout phone c)) in
    let selected = find? (λ r. equals state.observer_id r.observer_id) receivers in
    record {
      label = state.label;
      rssi = strength selected;
      sampled_at = state.signal_seen_at;
      fresh = is_some selected;
      server_time = now;
      receivers = receivers;
    }

-- `0 <= (now - state.signal_seen_at).total_seconds() <= 45` for a phone at home
unfoldable pub room_fresh : ℕ → IdentityState → Bool
room_fresh now state = elim state.signal_seen_at [
  | none ↦ false
  | some seen ↦ state.is_home && leb seen now && within_seconds now seen 45
]

pub record IdentityPayload : Type 0 where
  pub state : IdentityState
  pub signal : SignalPayload
  pub shown_observer_name : Option String
  pub shown_area_id : Option String
  pub shown_area_name : Option String
  pub shown_room_fresh : Bool
  pub last_known_area : Option String
  pub receiver_count : ℕ

abbrev when : {A : Type 0} → Bool → Option A → Option A
when true v = v
when false v = none

-- `identity_payload`, less the tracker entity and its status, which `person_link_status` gives
unfoldable pub identity_payload :
    Runtime
    → ℕ
    → ℕ
    → (String → Option String)
    → String
    → IdentityState
    → Coordinator
    → IdentityPayload
identity_payload rt now away_timeout areas identity_id state c =
    let signal = signal_payload rt now away_timeout areas identity_id state c in
    let fresh = room_fresh now state in
    let area = area_name areas state.area_id in
    record {
      state = state;
      signal = signal;
      shown_observer_name = when fresh state.observer_name;
      shown_area_id = when fresh state.area_id;
      shown_area_name = when fresh area;
      shown_room_fresh = fresh;
      last_known_area = area;
      receiver_count = length signal.receivers;
    }
