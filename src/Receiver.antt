-- ===== src/Receiver.antt =====
-- The Linux receiver's answer to a removal command: `_forget` of
-- custom_components/presence_bridge/receiver/engine.py. The keys that BlueZ saves, its devices and the
-- removal itself are parameters.
pub mod Verified
pub mod Keys
pub mod Commands
pub mod Pairing
use presence_bridge.Prelude.{
  ℕ, ◌+◌, ◌*◌, ltb, leb, Bool, true, false, ◌&&◌, ◌||◌, not, List, [], ◌∷◌, Option, none, some,
  String, ◌==◌, Dict, lookup, any, cut, codes, matches, is_lower_hex, is_token, ℤ, pos, negsuc,
  if◌then◌else◌,
}
use presence_bridge.Json.{Value, Payload, get, get_default, is_text, to_text, str, int}
use presence_bridge.Runtime.{Runtime}
use presence_bridge.Coordinator.Status.{to_float}

-- `org.bluez.Device1` of an object: its address, and whether it is paired.
pub record Device : Type 0 where
  pub address : String
  pub paired : Bool

-- What the receiver has of the outside.
pub record Bluez : Type 0 where
  -- the fingerprint of the saved key of a peer; `none` is a ReceiverError
  pub read : String → Option String
  pub devices : List Device
  -- whether `transport.remove` returns
  pub removes : String → Bool

-- What a command comes to: ignored, refused, or the peer that was removed or may be.
pub data Answer : Type 0 where
  ignored busy unknown unreadable changed : Answer
  unconfirmed : String → Answer
  success : String → Answer

abbrev text_or_empty : Runtime → String → Payload → String
text_or_empty rt key payload = to_text rt.repr (get_default key (str "") payload)

-- time.time() < deadline <= time.time() + 90; a deadline that is no number raises, and gets no answer too
abbrev in_window : ℕ → Option ℤ → Bool
in_window now (some (pos d)) = ltb now d && leb d (now + 90000000)
in_window now _ = false

unfoldable pub is_addressed : Runtime → ℕ → String → Payload → Bool
is_addressed rt now observer_id payload =
    let fingerprint = text_or_empty rt "fingerprint" payload in
    matches is_lower_hex 64 64 (codes fingerprint)
    && matches is_token 16 96 (codes (text_or_empty rt "request_id" payload))
    && is_text (get "identity_id" payload) (cut 16 fingerprint)
    && is_text (get "observer_id" payload) observer_id
    && in_window now (to_float rt (get_default "expires_at" (int (pos 0)) payload))

abbrev is_paired_at : String → Device → Bool
is_paired_at peer device = device.address == peer && device.paired

-- transport.remove: the peer is handed to BlueZ, with what comes of it.
unfoldable pub hand_over : Bluez → String → List String × Answer
hand_over bluez peer = (peer ∷ [], if bluez.removes peer then success peer else unconfirmed peer)

-- The peer may be removed if its key is the phone's, or if it has none and is not paired. With the
-- answer go the peers that were handed to BlueZ.
unfoldable pub remove_peer : Bluez → String → String → List String × Answer
remove_peer bluez fingerprint peer = elim (bluez.read peer) [
  | some f ↦ if f == fingerprint then hand_over bluez peer else ([], changed)
  | none ↦ if any (is_paired_at peer) bluez.devices then ([], unreadable) else hand_over bluez peer
]

unfoldable pub remove_known : Bluez → String → Option String → List String × Answer
remove_known bluez fingerprint none = ([], unknown)
remove_known bluez fingerprint (some peer) =
    if peer == "" then ([], unknown) else remove_peer bluez fingerprint peer

-- `_forget`; `pairing` is whether a pairing task runs.
unfoldable pub forget :
    Runtime → ℕ → String → Bool → Dict String → Bluez → Payload → List String × Answer
forget rt now observer_id pairing peers bluez payload =
    let fingerprint = text_or_empty rt "fingerprint" payload in
    if not (is_addressed rt now observer_id payload)
    then ([], ignored)
    else if pairing
    then ([], busy)
    else remove_known bluez fingerprint (lookup fingerprint peers)
