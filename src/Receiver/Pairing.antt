-- ===== src/Receiver/Pairing.antt =====
-- The pairing task of the Linux receiver: `_pair` of custom_components/presence_bridge/receiver/engine.py,
-- what it does in order, given what it meets. What the phone sends, BlueZ's files and the encryption
-- are parameters.
pub mod Proved
use presence_bridge.Prelude.{
  ℕ, ◌+◌, ◌*◌, ◌=ℕ◌, Bool, true, false, ◌&&◌, not, List, [], ◌∷◌, ◌++◌, Option, none, some, String,
  Dict, codes, Bytes, ℤ, pos, negsuc, eqb_ℤ, Result, ok, err, if◌then◌else◌,
}
use presence_bridge.Json.{
  Value, null, bool, int, frac, str, Payload, get, get_default, is_text, to_text, or_else,
}
use presence_bridge.Runtime.{Runtime}
use presence_bridge.Protocol.Errors.{ProtocolError}
use presence_bridge.Protocol.Link.{PairingLink}
use presence_bridge.Protocol.Proofs.{verify_claim, acceptance_proof}
use presence_bridge.Receiver.Keys.{Bond, BondFile, read, address, fingerprint}

-- How a pairing ends before its time.
pub data PairFault : Type 0 where
  stopped failed other_session no_proof no_bond : PairFault

-- What a pairing does: it posts a status, connects, writes the acceptance to the phone, saves the peer
-- of a fingerprint, sends the encrypted identity, and advertises the completion.
pub data PairEvent : Type 0 where
  posted : (state code : String) → PairEvent
  accepted : Bytes → PairEvent
  saved_peer : (fingerprint peer : String) → PairEvent
  sent_identity : String → PairEvent
  completion : PairEvent

-- What a pairing meets: the search for the phone, what the phone sends as its session and its claim,
-- the bonding, the address at BlueZ, the file of the peer at each of the looks, whether the write and
-- the saving return, the encryption, and the wait for the commit and the time after it.
pub record Meeting : Type 0 where
  pub clock : ℤ
  pub found : Result PairFault (Unit {0})
  pub session : Result PairFault Payload
  pub claim : Result PairFault Payload
  pub paired : Result PairFault (Unit {0})
  pub peer_address : String
  pub files : List (String → BondFile)
  pub written : Result PairFault (Unit {0})
  pub saved : Result PairFault (Unit {0})
  pub encrypt : Dict Value → Option String
  pub committed : Result PairFault (Unit {0})

-- value == number, where the number may be negative
unfoldable pub is_number : Value → ℤ → Bool
is_number (bool b) n = eqb_ℤ n (pos (if b then 1 else 0))
is_number (int m) n = eqb_ℤ m n
is_number (frac m) (pos n) = eqb_ℤ m (pos (n * 1000000))
is_number (frac m) (negsuc n) = eqb_ℤ m (negsuc (n * 1000000 + 999999))
is_number _ n = false

-- The payload has all fields of `public_session_payload(link)`.
unfoldable pub is_for : PairingLink → Payload → Bool
is_for link payload =
    is_number (get "v" payload) link.version
    && is_text (get "sid" payload) link.session_id
    && is_text (get "oid" payload) link.observer_id
    && is_number (get "exp" payload) link.expires_at

abbrev is_verified : Result ProtocolError Bool → Bool
is_verified (ok b) = b
is_verified (err _) = false

-- The first bond that is read, in at most as many looks as there are files.
unfoldable pub wait_for_bond : String → List (String → BondFile) → Option Bond
wait_for_bond peer [] = none
wait_for_bond peer (file ∷ files) =
    let later = wait_for_bond peer files in
    elim (read peer file) [ ok bond ↦ some bond | err _ ↦ later ]

-- Events, and the fault that ends them.
abbrev pub Course : Type 0
Course = List PairEvent × Option PairFault

abbrev pub then_course : List PairEvent → Course → Course
then_course events (later, fault) = (events ++ later, fault)

-- What comes after a step that may fail.
abbrev pub after : Result PairFault (Unit {0}) → Course → Course
after (ok _) course = course
after (err f) course = ([], some f)

unfoldable pub identity_payload : Bond → String → Dict Value
identity_payload bond peer =
    ("irk", str bond.irk)
    ∷ ("claim_verified", bool true)
    ∷ ("identity_address", str peer)
    ∷ ("secure_exchange_complete", bool true)
    ∷ []

module _ (rt : Runtime) (link : PairingLink) (m : Meeting) where
  -- str(claim.get("proof", "") or "")
  abbrev pub proof_in : Payload → Bytes
  proof_in payload = codes (to_text rt.repr (or_else (get "proof" payload) (str "")))

  abbrev pub is_proved : Payload → Bool
  is_proved claim =
      is_for link claim
      && is_verified (verify_claim rt.hmac m.clock link (proof_in claim) none true)

  -- The identity is encrypted and sent; the completion is advertised after the commit.
  unfoldable pub send_identity : Option String → Course
  send_identity none = ([], some failed)
  send_identity (some ciphertext) =
      then_course (posted "identity_captured" "identity_captured" ∷ sent_identity ciphertext ∷ [])
        (after m.committed (completion ∷ [], none))

  abbrev pub saved_peers : Bond → String → Option String → Course
  saved_peers bond peer none = ([], some failed)
  saved_peers bond peer (some f) =
      then_course (posted "bonding" "iphone_claim_accepted" ∷ saved_peer f peer ∷ [])
        (after m.saved (send_identity (m.encrypt (identity_payload bond peer))))

  -- The acceptance is written, and the peer is saved under the fingerprint of its key.
  unfoldable pub accept : String → Bond → Result ProtocolError Bytes → Course
  accept peer bond (err _) = ([], some failed)
  accept peer bond (ok proof) =
      after m.written
        (then_course (accepted proof ∷ []) (saved_peers bond peer (fingerprint rt bond)))

  unfoldable pub with_bond : String → Option Bond → Course
  with_bond peer none = ([], some no_bond)
  with_bond peer (some bond) = accept peer bond (acceptance_proof rt.hmac m.clock link)

  abbrev pub with_address : {E : Type 0} → Result E String → Course
  with_address (err _) = ([], some failed)
  with_address (ok peer) = with_bond peer (wait_for_bond peer m.files)

  -- The claim is checked, and the phone is bonded.
  unfoldable pub with_claim : Result PairFault Payload → Course
  with_claim (err f) = ([], some f)
  with_claim (ok claim) =
      if is_proved claim
      then then_course (posted "bonding" "iphone_claim_received" ∷ [])
          (after m.paired (with_address (address m.peer_address)))
      else ([], some no_proof)

  unfoldable pub with_session : Result PairFault Payload → Course
  with_session (err f) = ([], some f)
  with_session (ok session) =
      if is_for link session then with_claim m.claim else ([], some other_session)

  -- the handlers
  unfoldable pub pair_end : Option PairFault → List PairEvent
  pair_end none = []
  pair_end (some stopped) = posted "cancelled" "cancelled" ∷ []
  pair_end (some _) = posted "error" "linux_pairing_failed" ∷ []

  abbrev pub ended : Course → List PairEvent
  ended (events, fault) = events ++ pair_end fault

  -- `_pair`
  unfoldable pub run_pair : List PairEvent
  run_pair = ended (
      then_course (posted "advertising" "receiver_ready" ∷ []) (
        after m.found (
          then_course (posted "connecting" "receiver_proximity_confirmed" ∷ [])
            (with_session m.session))))
