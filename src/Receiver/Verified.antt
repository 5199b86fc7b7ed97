-- ===== src/Receiver/Verified.antt =====
-- The Linux receiver removes only the peer that it enrolled with this phone's key.
use presence_bridge.Prelude.{
  ℕ, Bool, true, false, List, [], ◌∷◌, none, some, String, Dict, lookup, any, ◌≡◌, ◌⊎◌,
}
use presence_bridge.Json.{Payload}
use presence_bridge.Runtime.{Runtime}
use presence_bridge.Receiver.{
  Bluez, Answer, success, unconfirmed, text_or_empty, is_addressed, is_paired_at,
}

-- What holds when a peer is handed to BlueZ for removal.
pub record IsVerified (rt : Runtime) (now : ℕ) (observer_id : String) (pairing : Bool)
    (peers : Dict String) (bluez : Bluez) (payload : Payload) (peer : String) : Type 0 where
  pub addressed : is_addressed rt now observer_id payload ≡ true
  pub not_pairing : pairing ≡ false
  pub enrolled : lookup (text_or_empty rt "fingerprint" payload) peers ≡ some peer
  pub same_key :
      (bluez.read peer ≡ some (text_or_empty rt "fingerprint" payload))
      ⊎ ((bluez.read peer ≡ none) × (any (is_paired_at peer) bluez.devices ≡ false))

abbrev pub is_success : Answer → Bool
is_success (success _) = true
is_success _ = false

-- The peers that a part of the command hands to BlueZ, all such that `P` holds, with its answer.
pub data IsForgotten (bluez : Bluez) (P : String → Type 0) : List String × Answer → Type 0 where
  untouched : (answer : Answer) → is_success answer ≡ false → IsForgotten bluez P ([], answer)
  removed :
      (peer : String)
      → P peer
      → bluez.removes peer ≡ true
      → IsForgotten bluez P (peer ∷ [], success peer)
  unsettled :
      (peer : String)
      → P peer
      → bluez.removes peer ≡ false
      → IsForgotten bluez P (peer ∷ [], unconfirmed peer)
