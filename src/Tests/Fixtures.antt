-- ===== src/Tests/Fixtures.antt =====
-- Concrete values that the tests share.
use presence_bridge.Prelude.{
  true, false, [], ◌∷◌, none, some, String, ◌==◌, Bytes, pos, negsuc, Result, ok, err, lower,
  if◌then◌else◌,
}
use presence_bridge.Json.{str}
use presence_bridge.Runtime.{Runtime}
use presence_bridge.Protocol.Link.{PairingLink}
use presence_bridge.Coordinator.Types.{
  Coordinator, ObserverState, Observation, IdentityRow, IdentityState, Session,
}
use presence_bridge.Coordinator.Action.{World, Env, HaError}

abbrev pub secret_bytes : Bytes
secret_bytes =
    1 ∷ 2 ∷ 3 ∷ 4 ∷ 5 ∷ 6 ∷ 7 ∷ 8 ∷ 9 ∷ 10 ∷ 11 ∷ 12 ∷ 13 ∷ 14 ∷ 15 ∷ 16 ∷ 17 ∷ 18 ∷ 19 ∷ 20 ∷ 21
    ∷ 22 ∷ 23 ∷ 24 ∷ 25 ∷ 26 ∷ 27 ∷ 28 ∷ 29 ∷ 30 ∷ 31 ∷ 255 ∷ []

abbrev pub fingerprint : String
fingerprint = "0123456789abcdef0123456789abcdef0123456789abcdef0123456789abcdef"

abbrev pub phone_key : String
phone_key = "00112233445566778899AABBCCDDEEFF"

abbrev pub phone_address : String
phone_address = "4A:00:00:00:00:01"

abbrev pub rt : Runtime
rt = record {
  repr = λ _. "{}";
  parse_float = λ _. none;
  parse_datetime = λ s. if s == "t0" then some 990000000 else none;
  isoformat = λ _. "2026-01-01T00:00:00+00:00";
  sha256_hex = λ _. fingerprint;
  hmac = λ _ _. secret_bytes;
  resolve_private_address = λ irk address. address == phone_address;
  casefold = lower;
  urlencode = λ _. "oname=Desk";
  ascii = λ _. "AQID";
  qr_data_uri = λ _. "data:image/svg+xml;base64,";
}

abbrev pub session_token : String
session_token = "abcdefghijklmnop"

-- 1000 seconds after the epoch
abbrev pub env : Env
env = record {
  now = 1000000000;
  monotonic = 500000000;
  person_name = λ s. if s == "person.anna" then some "Anna" else none;
  delivers = λ _ _. true;
  saves = λ _. true;
  has_area = λ _. true;
  token = session_token;
  secret = secret_bytes;
}

abbrev pub link : PairingLink
link = record {
  session_id = session_token;
  observer_id = "desk";
  expires_at = pos 1300;
  secret = secret_bytes;
  version = pos 2;
}

abbrev pub heard : Observation
heard = record { address = phone_address; rssi = negsuc 59; name = ""; seen_at = "t0" }

abbrev pub desk : ObserverState
desk = record {
  observer_id = "desk";
  name = "Desk";
  online = true;
  area_id = none;
  last_seen = some 990000000;
  observations = heard ∷ [];
  capabilities = "app_pairing" ∷ "identity_removal" ∷ [];
  version = "1";
}

abbrev pub identity : IdentityRow
identity = record {
  irk = phone_key;
  person_entity_id = "person.anna";
  label = "iPhone - Anna";
  created_at = "";
  paired_by = "desk";
  identity_address = none;
  monitor_pending = some (record { digest = fingerprint; expires = 1600 });
  monitor_access = some (record { digest = fingerprint; expires = 1600 });
}

abbrev pub identity_state : IdentityState
identity_state = record {
  identity_id = "0123456789abcdef";
  person_entity_id = "person.anna";
  label = "iPhone - Anna";
  is_home = true;
  observer_id = some "desk";
  observer_name = some "Desk";
  area_id = none;
  rssi = none;
  signal_seen_at = some 990000000;
  last_seen = some 990000000;
}

abbrev pub coordinator : Coordinator
coordinator = record {
  identities = ("0123456789abcdef", identity) ∷ [];
  observer_areas = [];
  phone_bond_resets = [];
  observers = ("desk", desk) ∷ [];
  identity_states = ("0123456789abcdef", identity_state) ∷ [];
  pairing_public = ("state", str "idle") ∷ [];
  pairing_session = none;
  next_handle = 1;
  orphan_cancels = [];
  removal_requests = [];
  bond_repair_offer = none;
}

abbrev pub world : World
world = record { coordinator = coordinator; outbox = [] }

abbrev pub session : Session
session = record {
  handle = 0;
  session_id = session_token;
  observer_id = "desk";
  person_entity_id = "person.anna";
  person_name = "Anna";
  expires_at = 1300;
  started_monotonic = 500000000;
  link = link;
  attempt_expires_at = some 1200;
  completion_expires_at = none;
  result_processing = false;
}

abbrev pub pairing : Coordinator
pairing = record coordinator { pairing_session = some session }

abbrev pub value_of : {A : Type 0} → A → Result HaError A → A
value_of d (ok a) = a
value_of d (err e) = d
