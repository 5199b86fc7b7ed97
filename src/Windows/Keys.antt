-- ===== src/Windows/Keys.antt =====
-- The private keys that Windows saves, and the choice among them: `normalize_address`,
-- `read_windows_private_ble_irks`, `select_new_irk_records`, `select_irk_record_for_address` and
-- `verified_app_identity_payload` of bridge/windows/observer.py. AES is a parameter.
pub mod Registry
pub mod Unique
use Prim.Native.Char.{Char}
use Prim.Native.String.{char_at}
use presence_bridge.Prelude.{
  ℕ, zero, suc, ◌-◌, ◌/◌, ◌%◌, leb, ◌=ℕ◌, Bool, true, false, ◌&&◌, not, List, [], ◌∷◌, ◌++◌, Option,
  none, some, String, ◌==◌, Dict, lookup, insert, filter, any, codes, matches, is_upper_hex, upper,
  eqb, Bytes, Result, ok, err, length, if◌then◌else◌,
}
use presence_bridge.Json.{Value, str, bool, or_else, to_text}
use presence_bridge.Runtime.{Runtime}
use presence_bridge.Coordinator.Observers.{hex_only, colon_pairs}
use presence_bridge.Coordinator.Removal.{from_hex}
use presence_bridge.Coordinator.Pairing.{values}

-- A row of the saved keys.
pub record KeyRecord : Type 0 where
  pub registry_path : String
  pub registry_leaf : String
  pub value_name : String
  pub irk : String

-- normalize_address, of a text
unfoldable pub normalize_text : String → String
normalize_text value =
    let compact = hex_only (upper value) in
    if length (codes compact) =ℕ 12 then colon_pairs compact else ""

-- normalize_address
unfoldable pub normalize_address : Runtime → Value → String
unfolding normalize_text
normalize_address rt value = normalize_text (to_text rt.repr (or_else value (str "")))

-- str(row.get("irk") or "").upper(), and whether it is 32 digits
unfoldable pub irk_of : KeyRecord → String
irk_of row = upper row.irk

unfoldable pub is_irk : String → Bool
is_irk irk = matches is_upper_hex 32 32 (codes irk)

-- d.setdefault(k, v)
unfoldable pub set_default {ℓ} : {V : Type ℓ} → String → V → Dict V → Dict V
set_default k v d = elim (lookup k d) [ none ↦ insert k v d | some _ ↦ d ]

abbrev is_new : List KeyRecord → KeyRecord → Bool
is_new baseline row =
    is_irk (irk_of row) && not (any (λ known. irk_of known == irk_of row) baseline)

-- One row for each key, the first.
unfoldable pub first_by_irk : List KeyRecord → Dict KeyRecord → Dict KeyRecord
first_by_irk [] d = d
first_by_irk (row ∷ rows) d = first_by_irk rows (set_default (irk_of row) row d)

-- One row for each key, the last.
unfoldable pub last_by_irk : List KeyRecord → Dict KeyRecord → Dict KeyRecord
last_by_irk [] d = d
last_by_irk (row ∷ rows) d = last_by_irk rows (insert (irk_of row) row d)

unfoldable pub select_new_irk_records : List KeyRecord → List KeyRecord → List KeyRecord
select_new_irk_records baseline current =
    values (first_by_irk (filter (is_new baseline) current) [])

-- The row at this identity address, with a key.
unfoldable pub is_direct : String → KeyRecord → Bool
is_direct normalized row = is_irk (irk_of row) && normalize_text row.registry_leaf == normalized

-- xs[:n] and xs[n:]
abbrev first : ℕ → Bytes → Bytes
first zero s = []
first (suc n) [] = []
first (suc n) (c ∷ s) = c ∷ first n s

abbrev without_first : ℕ → Bytes → Bytes
without_first zero s = s
without_first (suc n) [] = []
without_first (suc n) (c ∷ s) = without_first n s

abbrev zeros : Bytes
zeros = 0 ∷ 0 ∷ 0 ∷ 0 ∷ 0 ∷ 0 ∷ 0 ∷ 0 ∷ 0 ∷ 0 ∷ 0 ∷ 0 ∷ 0 ∷ []

-- the value of a dict of one entry
abbrev pub only : Dict KeyRecord → Option KeyRecord
only ((_, row) ∷ []) = some row
only _ = none

-- `aes` is the AES block under a key, in ECB mode
module _ (aes : Bytes → Bytes → Bytes) where
  unfoldable pub is_resolved : Bytes → KeyRecord → Bool
  is_resolved raw row = is_irk (irk_of row) && elim (from_hex (codes (irk_of row))) [
    | none ↦ false
    | some key ↦ eqb (without_first 13 (aes key (zeros ++ first 3 raw))) (without_first 3 raw)
  ]

  -- raw_address[0] & 0xC0 == 0x40
  unfoldable pub is_resolvable : Bytes → Bool
  is_resolvable [] = false
  is_resolvable (c ∷ _) = c / 64 % 4 =ℕ 1

  unfoldable pub select_resolved : List KeyRecord → Option Bytes → Option KeyRecord
  select_resolved records none = none
  select_resolved records (some raw) =
      if is_resolvable raw then only (first_by_irk (filter (is_resolved raw) records) []) else none

  abbrev pub or_resolved : List KeyRecord → String → Option KeyRecord → Option KeyRecord
  or_resolved records normalized (some row) = some row
  or_resolved records normalized none =
      select_resolved records (from_hex (codes (hex_only normalized)))

  unfoldable pub select_irk_record_for_address : List KeyRecord → String → Option KeyRecord
  select_irk_record_for_address records address =
      let normalized = normalize_text address in
      if normalized == ""
      then none
      else or_resolved records normalized
          (only (last_by_irk (filter (is_direct normalized) records) []))

pub data InvalidIrk : Type 0 where
  invalid_irk : InvalidIrk

-- verified_app_identity_payload
unfoldable pub verified_app_identity_payload : KeyRecord → Result InvalidIrk (Dict Value)
verified_app_identity_payload row =
    let irk = irk_of row in
    if is_irk irk
    then ok (("irk", str irk) ∷ ("claim_verified", bool true) ∷ [])
    else err invalid_irk
