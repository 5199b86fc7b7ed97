-- ===== src/Coordinator/Observers.antt =====
-- Receivers and their observations: `_status_message`, `_observations_message`,
-- `_normalize_observations`, `_ensure_observer` and `_expire_runtime_state`.
pub mod Normalized
pub mod Expiry
use Prim.Native.Char.{code}
use Prim.Native.String.{count}
use presence_bridge.Prelude.{
  ℕ, zero, suc, ◌+◌, leb, ◌=ℕ◌, max, Bool, true, false, ◌&&◌, ◌||◌, not, List, [], ◌∷◌, Option,
  none, some, String, ◌==◌, Dict, lookup, insert, map, take, codes, cut, upper, is_upper_hex,
  length, ℤ, pos, negsuc, leb_ℤ, ltb_ℤ, if◌then◌else◌,
}
use presence_bridge.Json.{
  Value, null, bool, str, Payload, get, get_default, as_payload, as_list, truthy, to_int, to_text,
  text_at, or_else,
}
use presence_bridge.Runtime.{Runtime}
use presence_bridge.Coordinator.Types.{
  Coordinator, ObserverState, IdentityState, Observation, within_seconds,
}
use presence_bridge.Coordinator.Topic.{Message, observer_id_from_topic}

-- the upper-case hexadecimal digits of a text
unfoldable pub hex_only : String → String
hex_only String.[] = String.[]
hex_only (String.◌∷◌ c s) =
    let rest = hex_only s in if is_upper_hex (code c) then String.◌∷◌ c rest else rest

-- ":".join(address[index : index + 2] for index in range(0, 12, 2))
unfoldable pub colon_pairs : String → String
colon_pairs (String.◌∷◌ a (String.◌∷◌ b (String.◌∷◌ c s))) =
    String.◌∷◌ a (String.◌∷◌ b (String.◌∷◌ ":" (colon_pairs (String.◌∷◌ c s))))
colon_pairs s = s

-- MIN_RSSI and the upper bound of `_normalize_observations`
abbrev pub min_rssi : ℤ
min_rssi = negsuc 104

abbrev pub max_rssi : ℤ
max_rssi = pos 20

module _ (rt : Runtime) where
  -- str(value or "")
  abbrev text_or : Value → Value → String
  text_or v d = to_text rt.repr (or_else v d)

  -- One row of the input; `none` where the loop goes on without it.
  unfoldable pub normalize_row : Value → Value → Option Observation
  normalize_row captured_at value = elim (as_payload value) [
    | none ↦ none
    | some row ↦
        let address = hex_only (upper (text_at rt.repr "address" row)) in
        elim (to_int (get "rssi" row)) [
          | none ↦ none
          | some rssi ↦
              if length (codes address) =ℕ 12 && leb_ℤ min_rssi rssi && leb_ℤ rssi max_rssi
              then some (record {
                address = colon_pairs address;
                rssi = rssi;
                name = cut 100 (text_at rt.repr "name" row);
                seen_at = cut 40 (text_or (or_else (get "seen_at" row) captured_at) (str ""));
              })
              else none
        ]
  ]

  unfoldable pub normalize_rows : Value → List Value → List Observation
  normalize_rows captured_at [] = []
  normalize_rows captured_at (row ∷ rows) =
      let rest = normalize_rows captured_at rows in
      elim (normalize_row captured_at row) [ none ↦ rest | some o ↦ o ∷ rest ]

  unfoldable pub normalize_observations : Value → Value → List Observation
  normalize_observations value captured_at = elim (as_list value) [
    | none ↦ []
    | some rows ↦ normalize_rows captured_at (take 200 rows)
  ]

  -- `value` is a JSON value of the payload
  unfoldable pub parse_timestamp : Value → Option ℕ
  parse_timestamp value = if truthy value then rt.parse_datetime (to_text rt.repr value) else none

  unfoldable pub ensure_observer : String → Payload → Coordinator → ObserverState × Coordinator
  ensure_observer observer_id payload c = elim (lookup observer_id c.observers) [
    | some observer ↦ (observer, c)
    | none ↦
        let observer : ObserverState = record {
          observer_id = observer_id;
          name = cut 100 (text_or (get "name" payload) (str observer_id));
          online = false;
          area_id = elim (lookup observer_id c.observer_areas) [ none ↦ none | some area ↦ area ];
          last_seen = none;
          observations = [];
          capabilities = [];
          version = "";
        } in
        (observer, record c { observers = insert observer_id observer c.observers })
  ]

  abbrev now_or : Option ℕ → ℕ → Option ℕ
  now_or none now = some now
  now_or (some t) now = some t

  -- str(payload.get("name") or observer.name or observer_id)[:100]
  abbrev name_of : Payload → ObserverState → String → String
  name_of payload observer observer_id =
      cut 100 (text_or (or_else (get "name" payload) (str observer.name)) (str observer_id))

  unfoldable pub observer_from_status : ℕ → String → Payload → ObserverState → ObserverState
  observer_from_status now observer_id payload observer =
      let online = truthy (get_default "online" (bool true) payload) in
      record observer {
        name = name_of payload observer observer_id;
        online = online;
        last_seen = if online then now_or (parse_timestamp (get "timestamp" payload)) now else none;
        observations = if online then observer.observations else [];
        version = cut 40 (text_or (get "version" payload) (str observer.version));
        capabilities = elim (as_list (get "capabilities" payload)) [
          | none ↦ observer.capabilities
          | some rows ↦ map (λ v. cut 40 (to_text rt.repr v)) (take 20 rows)
        ];
      }

  -- `none` where the handler returns at once
  unfoldable pub payload_of : Message → Option Payload
  payload_of message =
      if observer_id_from_topic message.topic == "" then none else as_payload message.payload

  unfoldable pub status_message : ℕ → Message → Coordinator → Coordinator
  status_message now message c = elim (payload_of message) [
    | none ↦ c
    | some payload ↦
        let observer_id = observer_id_from_topic message.topic in
        let (observer, c') = ensure_observer observer_id payload c in
        record c' {
          observers =
              insert observer_id (observer_from_status now observer_id payload observer)
                c'.observers;
        }
  ]

  unfoldable pub observer_from_observations : ℕ → String → Payload → ObserverState → ObserverState
  observer_from_observations now observer_id payload observer = record observer {
    observations =
        normalize_observations (get "observations" payload)
          (or_else (get "timestamp" payload) (get "captured_at" payload));
    name = name_of payload observer observer_id;
    online = true;
    last_seen = now_or (parse_timestamp (get "timestamp" payload)) now;
  }

  -- `resolve` is `_resolve_identities`
  unfoldable pub observations_message :
      (Coordinator → Coordinator) → ℕ → Message → Coordinator → Coordinator
  observations_message resolve now message c = elim (payload_of message) [
    | none ↦ c
    | some payload ↦
        let observer_id = observer_id_from_topic message.topic in
        let (observer, c') = ensure_observer observer_id payload c in
        resolve (record c' {
          observers =
              insert observer_id (observer_from_observations now observer_id payload observer)
                c'.observers;
        })
  ]

-- `last_seen and (now - last_seen).total_seconds() <= timeout`
abbrev pub is_recent : ℕ → ℕ → Option ℕ → Bool
is_recent now timeout none = false
is_recent now timeout (some t) = within_seconds now t timeout

unfoldable pub expire_observer : ℕ → ℕ → ObserverState → ObserverState
expire_observer now timeout o =
    let online = is_recent now timeout o.last_seen in
    record o { online = online; observations = if online then o.observations else [] }

unfoldable pub expire_identity : ℕ → ℕ → IdentityState → IdentityState
expire_identity now timeout s = record s { is_home = is_recent now timeout s.last_seen }

abbrev map_values {ℓ} : {V : Type ℓ} → (V → V) → Dict V → Dict V
map_values f [] = []
map_values f ((k, v) ∷ d) = (k, f v) ∷ map_values f d

-- `_expire_runtime_state`; the timeouts are the properties `observer_timeout` and `away_timeout`
unfoldable pub expire_runtime_state : ℕ → ℕ → ℕ → Coordinator → Coordinator
expire_runtime_state now observer_timeout away_timeout c = record c {
  observers = map_values (expire_observer now observer_timeout) c.observers;
  identity_states = map_values (expire_identity now away_timeout) c.identity_states;
}

-- `away_timeout` and `observer_timeout`, from the option: at least 30 seconds
unfoldable pub timeout_of : ℕ → ℕ
timeout_of option = max 30 option
