-- ===== src/Windows/Client.antt =====
-- The leases and the bond repair of the reverse GATT client: `ReverseGattPairingClient` of
-- bridge/windows/reverse_gatt_client.py. `mono` is time.monotonic() and `epoch` time.time(), in
-- microseconds; what Windows lists before and after a removal is a parameter.
pub mod Repaired
use presence_bridge.Prelude.{
  ℕ, ◌+◌, ◌*◌, ◌/◌, leb, Bool, true, false, ◌&&◌, ◌||◌, not, List, [], ◌∷◌, ◌++◌, Option, none,
  some, String, ◌==◌, Dict, erase, filter, any, all, map, find?, lower, ℤ, Result, ok, err,
  if◌then◌else◌,
}
use presence_bridge.Json.{Value, int, str, bool}
use presence_bridge.Coordinator.Types.{is_member}
use presence_bridge.Bonds.{BondDevice, KeyRow, select_bond_devices, is_empty}
use presence_bridge.Windows.Progress.{Lease}

pub record Client : Type 0 where
  pub service_uuids : List String
  pub session_service_uuid : Option String
  pub matched_service_uuid : Option String
  pub matched_address : String
  pub matched_rssi : Option ℤ
  pub handoff_deadline : Option ℕ
  pub handoff_expires_at : Option ℕ
  pub completion_deadline : Option ℕ
  pub completion_expires_at : Option ℕ
  pub secure_bond_confirmed : Bool
  pub ack_auth_failures : Dict ℕ
  pub authenticated_ack_addresses : List String
  pub fresh_discovery_addresses : List String
  pub initial_discovery_failures : Dict ℕ
  pub qr_verified_addresses : List String
  pub reused_bond_addresses : List String
  pub bond_repair_used : Bool

abbrev address_field : String → Dict Value
address_field address = if address == "" then [] else ("matched_address", str address) ∷ []

abbrev rssi_field : Option ℤ → Dict Value
rssi_field none = []
rssi_field (some n) = ("rssi", int n) ∷ []

-- The advertisement was the one of this session.
abbrev is_scoped : Option String → Option String → Bool
is_scoped none matched = false
is_scoped (some s) none = false
is_scoped (some s) (some m) = m == s

-- lease_payload
unfoldable pub lease_payload : Client → Lease
lease_payload c = record {
  attempt_expires_at = c.handoff_expires_at;
  completion_expires_at = c.completion_expires_at;
  fields =
      address_field c.matched_address
      ++ rssi_field c.matched_rssi
      ++ (if is_scoped c.session_service_uuid c.matched_service_uuid
          then ("session_scoped_advertisement", bool true) ∷ []
          else []);
}

-- `_start_handoff_lease`
unfoldable pub start_handoff_lease : ℕ → ℕ → Client → Client
start_handoff_lease mono epoch c = elim c.handoff_deadline [
  | some _ ↦ c
  | none ↦ record c {
    handoff_deadline = some (mono + 300000000);
    handoff_expires_at = some ((epoch + 300000000) / 1000000);
  }
]

-- `_start_completion_lease`
unfoldable pub start_completion_lease : ℕ → ℕ → Client → Client
start_completion_lease mono epoch c =
    let c' = start_handoff_lease mono epoch c in
    elim c.completion_deadline [
      | some _ ↦ c
      | none ↦ record c' {
        completion_deadline = c'.handoff_deadline;
        completion_expires_at = c'.handoff_expires_at;
      }
    ]

abbrev first_service : List String → Option String
first_service [] = none
first_service (s ∷ _) = some s

-- the service of this session, where it is among the matching ones; the first of them otherwise
abbrev matched_service : Option String → List String → Option String
matched_service none matching = first_service matching
matched_service (some s) matching = if is_member s matching then some s else first_service matching

-- `_matches_advertisement`, of the services that the advertisement has
unfoldable pub matches_advertisement : List String → Option ℤ → Client → Bool × Client
matches_advertisement services rssi c =
    let matching = filter (λ s. is_member s (map lower services)) c.service_uuids in
    if is_empty matching then (false, c) else (
      true,
      record c {
        matched_rssi = rssi;
        matched_service_uuid = matched_service c.session_service_uuid matching;
      },
    )

-- Why a repair ends: it is not permitted, or there is no time, or the removal failed, or it is done and
-- the connection has to be made anew.
pub data RepairEnd : Type 0 where
  unavailable timed_out reset_failed bond_reset : RepairEnd

pub data RemovalFault : Type 0 where
  no_saved_bond not_unpaired not_verified : RemovalFault

abbrev pub same_device : BondDevice → BondDevice → Bool
same_device a b =
    a.device_id == b.device_id
    && a.address == b.address
    && a.container_id == b.container_id
    && a.transport == b.transport

abbrev pub has_id : List BondDevice → BondDevice → Bool
has_id devices d = any (λ e. e.device_id == d.device_id) devices

abbrev pub peer_targets : List String → List BondDevice → List BondDevice
peer_targets addresses inventory =
    select_bond_devices
      (map (λ d. record { irk = ""; registry_leaf = d.address })
        (filter (λ d. d.transport == "ble" && is_member d.address addresses) inventory))
      inventory

-- Only the targets are gone.
abbrev pub only_gone : List BondDevice → List BondDevice → List BondDevice → Bool
only_gone targets inventory remaining =
    not (any (has_id remaining) targets)
    && all (has_id remaining) (filter (λ d. not (any (same_device d) targets)) inventory)

-- Its part on Windows, for the addresses of the phone: what is bonded before and
-- after, and whether every target was unpaired
unfoldable pub remove_peer_bonds :
    List String → List BondDevice → List BondDevice → Bool → Result RemovalFault (Unit {0})
remove_peer_bonds addresses inventory remaining unpaired =
    let targets = peer_targets addresses inventory in
    if is_empty targets
    then err no_saved_bond
    else if not unpaired
    then err not_unpaired
    else if only_gone targets inventory remaining
    then ok tt
    else err not_verified

-- What a removal for a phone meets: the system, the connection and the Bluetooth address that it
-- knows, the phone's addresses, what Windows lists before and after, whether every target is unpaired,
-- and whether `client.unpair()` and `_unpair_candidate` return.
pub record PeerBonds : Type 0 where
  pub on_windows : Bool
  pub has_client : Bool
  pub native_address : Option ℕ
  pub addresses : List String
  pub inventory : List BondDevice
  pub remaining : List BondDevice
  pub unpaired : Bool
  pub client_unpairs : Bool
  pub candidate_unpairs : Bool

abbrev pub is_known : Option ℕ → Bool
is_known none = false
is_known (some _) = true

-- The removal goes by what Windows lists.
unfoldable pub is_listed : PeerBonds → Bool
is_listed b = b.on_windows && (not b.has_client || is_known b.native_address)

-- `_remove_verified_peer_bonds`
unfoldable pub remove_verified_peer_bonds : PeerBonds → Result RemovalFault (Unit {0})
remove_verified_peer_bonds b =
    if is_listed b
    then remove_peer_bonds b.addresses b.inventory b.remaining b.unpaired
    else if (if b.has_client then b.client_unpairs else b.candidate_unpairs)
    then ok tt
    else err not_unpaired

abbrev without : String → List String → List String
without address = filter (λ a. not (a == address))

-- a set of addresses, with this one
abbrev added : String → List String → List String
added address addresses = if is_member address addresses then addresses else address ∷ addresses

-- The client after the removal, or after its failure.
unfoldable pub after_removal : String → Result RemovalFault (Unit {0}) → Client → RepairEnd × Client
after_removal address (err _) c = (reset_failed, c)
after_removal address (ok _) c = (
  bond_reset,
  record c {
    secure_bond_confirmed = false;
    authenticated_ack_addresses = without address c.authenticated_ack_addresses;
    reused_bond_addresses = without address c.reused_bond_addresses;
    fresh_discovery_addresses = added address c.fresh_discovery_addresses;
    initial_discovery_failures = erase address c.initial_discovery_failures;
    ack_auth_failures = erase address c.ack_auth_failures;
  },
)

-- `_repair_verified_bond`, with the time that is left
unfoldable pub repair_verified_bond :
    String → (remaining_time : ℕ) → Result RemovalFault (Unit {0}) → Client → RepairEnd × Client
repair_verified_bond address remaining_time removal c =
    if not (is_member address c.qr_verified_addresses) || c.bond_repair_used
    then (unavailable, c)
    else if leb remaining_time 5000000
    then (timed_out, c)
    else after_removal address removal (record c { bond_repair_used = true })
