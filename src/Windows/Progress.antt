-- ===== src/Windows/Progress.antt =====
-- What the receiver reports of an app pairing, and the lease of the attempt: `publish_progress` in
-- `_run_app_pairing_session`, and `_offer_bond_repair`, of bridge/windows/observer.py. Deadlines of
-- reports are whole seconds; the lease is in microseconds.
pub mod Leased
use presence_bridge.Prelude.{
  ℕ, ◌+◌, ◌*◌, ◌/◌, ◌=ℕ◌, min, Bool, true, false, ◌&&◌, ◌||◌, not, List, [], ◌∷◌, ◌++◌, Option,
  none, some, String, ◌==◌, Dict, lookup, Result, ok, err, Bytes, pos, if◌then◌else◌,
}
use presence_bridge.Json.{Value, int, str, Payload, get, is_true}
use presence_bridge.Runtime.{Runtime}
use presence_bridge.Coordinator.Types.{seconds}
use presence_bridge.Coordinator.Removal.{fingerprint_of}
use presence_bridge.Windows.Keys.{KeyRecord, normalize_address, select_irk_record_for_address}
use presence_bridge.Windows.Keys.Registry.{OsError, Key, read_irks}
use presence_bridge.Windows.State.{Observer, BondOffer, status, send}

-- A lease as it is reported: its two deadlines, and what else goes into the status.
pub record Lease : Type 0 where
  pub attempt_expires_at : Option ℕ
  pub completion_expires_at : Option ℕ
  pub fields : Dict Value

-- `progress`
pub record Progress : Type 0 where
  pub state : String
  pub message : String
  pub detail_code : String
  pub extra : Dict Value

progress_states : Dict String
progress_states =
    ("waiting_for_iphone_advertisement", "waiting_for_app")
    ∷ ("iphone_advertisement_seen", "connecting")
    ∷ ("iphone_candidate_unverified", "connecting")
    ∷ ("receiver_proximity_confirmed", "connecting")
    ∷ ("iphone_connected", "verifying")
    ∷ ("iphone_session_verified", "bonding")
    ∷ ("iphone_bond_ready", "bonding")
    ∷ ("iphone_bond_settling", "bonding")
    ∷ ("iphone_authentication_required", "bonding")
    ∷ ("iphone_claim_received", "bonding")
    ∷ ("iphone_claim_rejected", "waiting_for_app")
    ∷ ("iphone_claim_accepted", "bonding")
    ∷ ("iphone_ack_deferred", "bonding")
    ∷ ("iphone_session_mismatch", "waiting_for_app")
    ∷ ("iphone_connection_failed", "connecting")
    ∷ ("iphone_connection_retry", "connecting")
    ∷ ("iphone_signal_too_weak", "connecting")
    ∷ ("iphone_bond_reset", "bonding")
    ∷ ("iphone_bond_refresh", "connecting")
    ∷ ("legacy_receiver_advertising", "waiting_for_app")
    ∷ ("windows_adapter_recovering", "waiting_for_app")
    ∷ []

abbrev or_waiting : Option String → String
or_waiting none = "waiting_for_app"
or_waiting (some state) = state

-- progress_states.get(code, "waiting_for_app")
unfoldable pub progress_state : String → String
unfolding progress_states
progress_state code = or_waiting (lookup code progress_states)

-- A phone that is only seen or connected is not told from any other.
unfoldable pub public_code : String → String
public_code code =
    if code == "iphone_advertisement_seen" || code == "iphone_connected"
    then "iphone_candidate_unverified"
    else code

-- a or b, for deadlines
abbrev pub or_deadline : Option ℕ → Option ℕ → Option ℕ
or_deadline none b = b
or_deadline (some a) b = if a =ℕ 0 then b else some a

-- min(self._app_attempt_expires_at or bounded, bounded)
abbrev pub least_lease : Option ℕ → ℕ → ℕ
least_lease none bounded = bounded
least_lease (some a) bounded = if a =ℕ 0 then bounded else min a bounded

-- The lease after a report; `now` is in microseconds.
unfoldable pub lease_after : ℕ → Lease → Option ℕ → Option ℕ
lease_after now lease held =
    elim (or_deadline lease.attempt_expires_at lease.completion_expires_at) [
      | none ↦ held
      | some s ↦
          if s =ℕ 0 then held else some (least_lease held (min (s * 1000000) (now + 300000000)))
    ]

abbrev deadline_field : String → Option ℕ → Dict Value
deadline_field key none = []
deadline_field key (some s) = (key, int (pos s)) ∷ []

unfoldable pub progress_of : ℕ → String → String → String → Lease → Progress
progress_of expires_at transport code message lease =
    let shown = public_code code in
    record {
      state = progress_state shown;
      message = message;
      detail_code = shown;
      extra =
          ("expires_at", int (pos expires_at))
            ∷ ("detail_code", str shown)
            ∷ ("transport", str transport)
            ∷ lease.fields
          ++ deadline_field "attempt_expires_at" lease.attempt_expires_at
          ++ deadline_field "completion_expires_at" lease.completion_expires_at;
    }

-- `publish_progress`
unfoldable pub publish_progress :
    ℕ → String → ℕ → String → String → Lease → Observer → Progress × Observer
publish_progress now session_id expires_at code message lease o =
    let progress = progress_of expires_at "iphone_peripheral" code message lease in
    (
      progress,
      send (status session_id progress.state message)
          (record o { attempt_expires_at = lease_after now lease o.attempt_expires_at }),
    )

-- The one saved key at an address, by its fingerprint; a registry that cannot be read, or a key that
-- is not hexadecimal, raises.
unfoldable pub saved_fingerprint :
    Runtime → (Bytes → Bytes → Bytes) → Result OsError (List KeyRecord) → String → Option String
saved_fingerprint rt aes (err _) address = none
saved_fingerprint rt aes (ok records) address =
    elim (select_irk_record_for_address aes records address) [
      | none ↦ none
      | some record_found ↦ fingerprint_of rt record_found.irk
    ]

-- `_offer_bond_repair`, with the token that `secrets` gives; `true` is that it makes an offer
unfoldable pub offer_bond_repair :
    Runtime
    → (Bytes → Bytes → Bytes)
    → ℕ
    → Option Key
    → String
    → String
    → String
    → String
    → Payload
    → Observer
    → Bool × Observer
offer_bond_repair rt aes now root task token session_id code lease o =
    let address = normalize_address rt (get "matched_address" lease) in
    if not (code == "iphone_saved_bond_unreachable")
      || not (is_true (get "session_scoped_advertisement" lease))
      || task == ""
      || address == ""
    then (false, o)
    else elim (saved_fingerprint rt aes (read_irks rt true root) address) [
      | none ↦ (false, o)
      | some fingerprint ↦ (
        true,
        record o {
          bond_repair_offer = some (record {
            repair_id = token;
            session_id = session_id;
            fingerprint = fingerprint;
            expires_at = seconds now + 600;
          });
        },
      )
    ]
