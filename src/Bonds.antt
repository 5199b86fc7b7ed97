-- ===== src/Bonds.antt =====
-- Removing a phone's bonds on Windows: bridge/windows/identity_removal.py. What Windows reports is a
-- parameter, one sighting for each time it is asked.
pub mod Confirmation
use presence_bridge.Prelude.{
  ℕ, zero, suc, ◌+◌, ◌=ℕ◌, Bool, true, false, ◌&&◌, ◌||◌, not, List, [], ◌∷◌, ◌++◌, Option, none,
  some, String, ◌==◌, Dict, lookup, insert, erase, filter, any, map, length, matches, codes, is_hex,
  is_upper_hex, upper, is_lower_hex, eqb, Result, ok, err, Bytes, if◌then◌else◌,
}
use presence_bridge.Runtime.{Runtime}
use presence_bridge.Coordinator.Types.{is_member}
use presence_bridge.Coordinator.Pairing.{values}
use presence_bridge.Coordinator.Removal.{fingerprint_of}

pub record BondDevice : Type 0 where
  pub device_id : String
  pub address : String
  pub container_id : String
  pub transport : String

-- a row of the saved keys; a missing entry reads as ""
pub record KeyRow : Type 0 where
  pub irk : String
  pub registry_leaf : String

pub data BondError : Type 0 where
  invalid_fingerprint unidentified still_saved unpair_failed : BondError

-- What Windows reports at one time: its bonded devices and its saved keys.
pub record Sighting : Type 0 where
  pub bonded : List BondDevice
  pub saved : List KeyRow

is_separator : ℕ → Bool
is_separator c = c =ℕ 58 || c =ℕ 45

-- compact_address, whose "" is `none`
unfoldable pub compact_address : String → Option Bytes
unfolding is_separator
compact_address value =
    let digits = filter (λ c. not (is_separator c)) (codes (upper value)) in
    if matches is_upper_hex 12 12 digits then some digits else none

abbrev is_key_of : Runtime → String → KeyRow → Bool
is_key_of rt fingerprint row =
    matches is_hex 32 32 (codes row.irk)
    && elim (fingerprint_of rt row.irk) [ none ↦ false | some f ↦ f == fingerprint ]

-- identity_records, once the fingerprint is 64 digits
unfoldable pub identity_records : Runtime → List KeyRow → String → List KeyRow
identity_records rt records fingerprint = filter (is_key_of rt fingerprint) records

abbrev at_leaf : BondDevice → KeyRow → Bool
at_leaf device row = elim (compact_address row.registry_leaf) [
  | none ↦ false
  | some digits ↦ eqb digits (codes device.address)
]

-- device.address in addresses
unfoldable pub is_direct : List KeyRow → BondDevice → Bool
is_direct records device = any (at_leaf device) records

abbrev shares_container : List BondDevice → BondDevice → Bool
shares_container direct device =
    any (λ d. not (d.container_id == "") && d.container_id == device.container_id) direct

unfoldable pub select_bond_devices : List KeyRow → List BondDevice → List BondDevice
select_bond_devices records devices =
    let direct = filter (is_direct records) devices in
    filter (λ device. is_direct records device || shares_container direct device) devices

-- {device.device_id: device for device in devices}
unfoldable pub by_id : List BondDevice → Dict BondDevice → Dict BondDevice
by_id [] d = d
by_id (device ∷ devices) d = by_id devices (insert device.device_id device d)

abbrev recorded : Option (List BondDevice) → List BondDevice
recorded none = []
recorded (some devices) = devices

unfoldable pub targets_of : Runtime → String → Sighting → Dict (List BondDevice) → List BondDevice
targets_of rt fingerprint seen journal = values (
    by_id
      (recorded (lookup fingerprint journal)
        ++ select_bond_devices (identity_records rt seen.saved fingerprint) seen.bonded)
      [])

-- Nothing of the phone is left: no target is bonded, and no key is saved.
unfoldable pub is_gone : Runtime → String → List BondDevice → Sighting → Bool
is_gone rt fingerprint targets seen =
    not (
      any
        (λ device.
          any (λ t. t.device_id == device.device_id) targets
          || any (λ t. t.address == device.address) targets)
        seen.bonded)
    && length (identity_records rt seen.saved fingerprint) =ℕ 0

-- The first of `n` looks from look `k` on that finds nothing left.
unfoldable pub confirm : Runtime → String → List BondDevice → (ℕ → Sighting) → ℕ → ℕ → Option ℕ
confirm rt fingerprint targets sightings zero k = none
confirm rt fingerprint targets sightings (suc n) k =
    let later = confirm rt fingerprint targets sightings n (k + 1) in
    if is_gone rt fingerprint targets (sightings k) then some k else later

abbrev pub is_empty : {A : Type 0} → List A → Bool
is_empty [] = true
is_empty (_ ∷ _) = false

abbrev pub is_fingerprint : String → Bool
is_fingerprint s = matches is_lower_hex 64 64 (codes s)

-- The looks after the targets were unpaired, and what they come to.
unfoldable pub settle :
    String
    → List BondDevice
    → Option ℕ
    → Dict (List BondDevice)
    → Result BondError ℕ × Dict (List BondDevice)
settle fingerprint targets none journal = (err still_saved, journal)
settle fingerprint targets (some k) journal = (ok (length targets), erase fingerprint journal)

-- `remove_identity_bonds`, on the journal as it was read. `sightings 0` is what Windows reports first,
-- and 1 to 8 are the looks after; `unpairs` is whether the removal of the targets returns.
unfoldable pub remove_identity_bonds :
    Runtime
    → String
    → (ℕ → Sighting)
    → (List BondDevice → Bool)
    → Dict (List BondDevice)
    → Result BondError ℕ × Dict (List BondDevice)
remove_identity_bonds rt fingerprint sightings unpairs journal =
    let seen = sightings 0 in
    let targets = targets_of rt fingerprint seen journal in
    let journal' = if is_empty targets then journal else insert fingerprint targets journal in
    if not (is_fingerprint fingerprint)
    then (err invalid_fingerprint, journal)
    else if not (is_empty (identity_records rt seen.saved fingerprint)) && is_empty targets
    then (err unidentified, journal)
    else if not (unpairs targets)
    then (err unpair_failed, journal')
    else settle fingerprint targets (confirm rt fingerprint targets sightings 8 1) journal'
