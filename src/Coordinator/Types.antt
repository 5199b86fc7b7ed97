-- ===== src/Coordinator/Types.antt =====
-- The coordinator's state: models.py, the constants of const.py, and the fields that `__init__` sets.
-- Points in time are whole microseconds since the epoch; deadlines are whole seconds.
use presence_bridge.Prelude.{
  ℕ, ◌+◌, ◌*◌, ◌/◌, leb, Bool, List, [], ◌∷◌, Option, String, ◌==◌, Dict, any, ℤ,
}
use presence_bridge.Json.{Value, Payload}
use presence_bridge.Protocol.Link.{PairingLink}

abbrev pub default_away_timeout : ℕ
default_away_timeout = 180

abbrev pub default_observer_timeout : ℕ
default_observer_timeout = 75

abbrev pub min_pairing_timeout : ℕ
min_pairing_timeout = 60

abbrev pub max_pairing_timeout : ℕ
max_pairing_timeout = 600

abbrev pub pairing_handoff_timeout : ℕ
pairing_handoff_timeout = 300

abbrev pub pairing_completion_timeout : ℕ
pairing_completion_timeout = 300

-- int(time.time())
abbrev pub seconds : ℕ → ℕ
seconds now = now / 1000000

-- `later - earlier <= timedelta(seconds=span)`
abbrev pub within_seconds : ℕ → ℕ → ℕ → Bool
within_seconds later earlier span = leb later (earlier + span * 1000000)

-- text in {…}
unfoldable pub is_member : String → List String → Bool
is_member s names = any (λ name. s == name) names

abbrev pub active_states : List String
active_states =
    "preparing" ∷ "advertising" ∷ "waiting_for_app" ∷ "connecting" ∷ "bonding" ∷ "identity_captured"
    ∷ "verifying" ∷ []

abbrev pub completion_codes : List String
completion_codes =
    "iphone_session_verified" ∷ "iphone_bond_ready" ∷ "iphone_bond_settling"
    ∷ "iphone_bond_reconnecting" ∷ "iphone_claim_received" ∷ "iphone_claim_accepted"
    ∷ "iphone_ack_deferred" ∷ "identity_captured" ∷ []

abbrev pub handoff_codes : List String
handoff_codes =
    "iphone_advertisement_seen" ∷ "iphone_candidate_unverified" ∷ "receiver_proximity_confirmed"
    ∷ []

-- One row of `_normalize_observations`; `seen_at` stays the text that the receiver sent.
pub record Observation : Type 0 where
  pub address : String
  pub rssi : ℤ
  pub name : String
  pub seen_at : String

pub record ObserverState : Type 0 where
  pub observer_id : String
  pub name : String
  pub online : Bool
  pub area_id : Option String
  pub last_seen : Option ℕ
  pub observations : List Observation
  pub capabilities : List String
  pub version : String

pub record IdentityState : Type 0 where
  pub identity_id : String
  pub person_entity_id : String
  pub label : String
  pub is_home : Bool
  pub observer_id : Option String
  pub observer_name : Option String
  pub area_id : Option String
  pub rssi : Option ℤ
  pub signal_seen_at : Option ℕ
  pub last_seen : Option ℕ

-- A signal credential of signal_access.py: the digest of its token, and when it expires.
pub record Access : Type 0 where
  pub digest : String
  pub expires : ℕ

-- A row of `memory["identities"]`, with the keys that the code writes.
pub record IdentityRow : Type 0 where
  pub irk : String
  pub person_entity_id : String
  pub label : String
  pub created_at : String
  pub paired_by : String
  pub identity_address : Option String
  pub monitor_pending : Option Access
  pub monitor_access : Option Access

-- `self._pairing_session`. `handle` is the identity of the object, which `is` compares.
pub record Session : Type 0 where
  pub handle : ℕ
  pub session_id : String
  pub observer_id : String
  pub person_entity_id : String
  pub person_name : String
  pub expires_at : ℕ
  pub started_monotonic : ℕ
  pub link : PairingLink
  pub attempt_expires_at : Option ℕ
  pub completion_expires_at : Option ℕ
  pub result_processing : Bool

-- `self._bond_repair_offer`
pub record RepairOffer : Type 0 where
  pub repair_id : String
  pub session_id : String
  pub fingerprint : String
  pub expires_at : ℕ
  pub person_entity_id : String
  pub observer_id : String

-- An entry of `self._removal_requests`; `reply` is the future, once a result is set.
pub record RemovalRequest : Type 0 where
  pub observer_id : String
  pub identity_id : String
  pub fingerprint : String
  pub reply : Option Payload

pub record Coordinator : Type 0 where
  pub identities : Dict IdentityRow
  pub observer_areas : Dict (Option String)
  pub phone_bond_resets : Dict Bool
  pub observers : Dict ObserverState
  pub identity_states : Dict IdentityState
  pub pairing_public : Dict Value
  pub pairing_session : Option Session
  pub next_handle : ℕ
  pub orphan_cancels : List (String × String)
  pub removal_requests : Dict RemovalRequest
  pub bond_repair_offer : Option RepairOffer
