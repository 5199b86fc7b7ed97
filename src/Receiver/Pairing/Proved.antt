-- ===== src/Receiver/Pairing/Proved.antt =====
-- The Linux receiver sends an identity only for a phone that proved that it holds the invitation, and
-- only with the key of its authenticated bond.
use presence_bridge.Prelude.{
  Bool, true, false, List, [], ◌∷◌, ◌++◌, Option, none, some, String, Bytes, Result, ok, err, Any,
  if◌then◌else◌, ◌≡◌, ◌⊎◌, inl, inr, refl,
}
use presence_bridge.Json.{Payload}
use presence_bridge.Runtime.{Runtime}
use presence_bridge.Protocol.Errors.{ProtocolError}
use presence_bridge.Protocol.Link.{PairingLink}
use presence_bridge.Protocol.Proofs.{acceptance_proof}
use presence_bridge.Receiver.Keys.{Bond, KeyError, address, fingerprint}
use presence_bridge.Receiver.Pairing.{
  PairFault, stopped, failed, other_session, no_proof, no_bond, PairEvent, posted, accepted,
  sent_identity, completion, Meeting, is_for, wait_for_bond, Course, then_course, after,
  identity_payload, is_proved, send_identity, saved_peers, accept, with_bond, with_address,
  with_claim, with_session, pair_end, run_pair,
}

-- The events send this identity.
abbrev pub Sends : String → List PairEvent → Type 0
Sends c = Any (λ e. e ≡ sent_identity c)

Sends-append : (c : String) (es fs : List PairEvent) → Sends c (es ++ fs) → Sends c es ⊎ Sends c fs
Sends-append c [] fs h = inr h
Sends-append c (e ∷ es) fs (inl h) = inl (inl h)
Sends-append c (e ∷ es) fs (inr h) = elim (Sends-append c es fs h) [
  | inl g ↦ inl (inr g)
  | inr g ↦ inr g
]

Sends-after :
    (c : String) (r : Result PairFault (Unit {0})) (course : Course)
    → Sends c (after r course).0
    → (r ≡ ok tt) × Sends c course.0
Sends-after c (ok _) course h = (refl, h)
Sends-after c (err f) course h = absurd h

-- What holds when the identity `c` is sent.
pub record IsProved (rt : Runtime) (link : PairingLink) (m : Meeting) (c : String) : Type 0 where
  pub session : Payload
  pub session_sent : m.session ≡ ok session
  pub session_fits : is_for link session ≡ true
  pub claim : Payload
  pub claim_sent : m.claim ≡ ok claim
  pub claim_proved : is_proved rt link m claim ≡ true
  pub peer : String
  pub peer_address : address m.peer_address ≡ ok peer
  pub bond : Bond
  pub bond_read : wait_for_bond peer m.files ≡ some bond
  pub written : m.written ≡ ok tt
  pub encrypted : m.encrypt (identity_payload bond peer) ≡ some c

module _ (rt : Runtime) (link : PairingLink) (m : Meeting) (c : String) where
  Sends-send_identity : (o : Option String) → Sends c (send_identity rt link m o).0 → o ≡ some c
  unfolding send_identity
  Sends-send_identity none h = absurd h
  Sends-send_identity (some d) (inl e) = cc (e)
  Sends-send_identity (some d) (inr (inl e)) = cc (e)
  Sends-send_identity (some d) (inr (inr h)) =
      none_after (Sends-after c m.committed (completion ∷ [], none) h).1
    where
      none_after : Sends c (completion ∷ []) → ◌≡◌ {A = Option String} (some d) (some c)
      none_after (inl e) = cc (e)
      none_after (inr g) = absurd g

  Sends-saved_peers :
      (bond : Bond) (peer : String) (o : Option String)
      → Sends c (saved_peers rt link m bond peer o).0
      → m.encrypt (identity_payload bond peer) ≡ some c
  Sends-saved_peers bond peer none h = absurd h
  Sends-saved_peers bond peer (some f) (inl e) = cc (e)
  Sends-saved_peers bond peer (some f) (inr (inl e)) = cc (e)
  Sends-saved_peers bond peer (some f) (inr (inr h)) =
      Sends-send_identity (m.encrypt (identity_payload bond peer))
        (Sends-after c m.saved (send_identity rt link m (m.encrypt (identity_payload bond peer)))
          h).1

  Sends-accept :
      (peer : String) (bond : Bond) (o : Result ProtocolError Bytes)
      → Sends c (accept rt link m peer bond o).0
      → (m.written ≡ ok tt) × (m.encrypt (identity_payload bond peer) ≡ some c)
  unfolding accept
  Sends-accept peer bond (err _) h = absurd h
  Sends-accept peer bond (ok proof) h =
      let (w, g) =
        Sends-after c m.written
          (then_course (accepted proof ∷ [])
            (saved_peers rt link m bond peer (fingerprint rt bond)))
          h in
      (w, rest g)
    where
      rest :
          Sends c (accepted proof ∷ (saved_peers rt link m bond peer (fingerprint rt bond)).0)
          → m.encrypt (identity_payload bond peer) ≡ some c
      rest (inl e) = cc (e)
      rest (inr g) = Sends-saved_peers bond peer (fingerprint rt bond) g

  -- The bond that was read, and the rest.
  abbrev Bonded : String → Type 0
  Bonded peer =
      (bond : Bond) × (wait_for_bond peer m.files ≡ some bond)
      × (m.written ≡ ok tt)
      × (m.encrypt (identity_payload bond peer) ≡ some c)

  Sends-with_bond :
      (peer : String) (o : Option Bond)
      → wait_for_bond peer m.files ≡ o
      → Sends c (with_bond rt link m peer o).0
      → Bonded peer
  unfolding with_bond
  Sends-with_bond peer none q h = absurd h
  Sends-with_bond peer (some bond) q h =
      let (w, e) = Sends-accept peer bond (acceptance_proof rt.hmac m.clock link) h in
      (bond, q, w, e)

  Sends-with_address :
      (r : Result KeyError String)
      → Sends c (with_address rt link m r).0
      → (peer : String) × (r ≡ ok peer) × Bonded peer
  Sends-with_address (err _) h = absurd h
  Sends-with_address (ok peer) h =
      (peer, refl, Sends-with_bond peer (wait_for_bond peer m.files) refl h)

  Sends-with_claim :
      (r : Result PairFault Payload)
      → Sends c (with_claim rt link m r).0
      → (claim : Payload) × (r ≡ ok claim)
        × (is_proved rt link m claim ≡ true)
        × (peer : String) × (address m.peer_address ≡ ok peer)
        × Bonded peer
  unfolding with_claim
  Sends-with_claim (err f) h = absurd h
  Sends-with_claim (ok claim) h = go (is_proved rt link m claim) refl h
    where
      bonded : Course
      bonded = after m.paired (with_address rt link m (address m.peer_address))

      go :
          (b : Bool)
          → is_proved rt link m claim ≡ b
          → Sends c
              (if b
                then then_course (posted "bonding" "iphone_claim_received" ∷ []) bonded
                else ([], some no_proof)).0
          → (claim' : Payload) × (◌≡◌ {A = Result PairFault Payload} (ok claim) (ok claim'))
            × (is_proved rt link m claim' ≡ true)
            × (peer : String) × (address m.peer_address ≡ ok peer)
            × Bonded peer
      go false q g = absurd g
      go true q (inl e) = cc (e)
      go true q (inr g) =
          let (peer, a, b) =
            Sends-with_address (address m.peer_address)
              (Sends-after c m.paired (with_address rt link m (address m.peer_address)) g).1 in
          (claim, refl, q, peer, a, b)

  Sends-with_session :
      (r : Result PairFault Payload)
      → m.session ≡ r
      → Sends c (with_session rt link m r).0
      → IsProved rt link m c
  unfolding with_session
  Sends-with_session (err f) q h = absurd h
  Sends-with_session (ok session) q h = go (is_for link session) refl h
    where
      go :
          (b : Bool)
          → is_for link session ≡ b
          → Sends c (if b then with_claim rt link m m.claim else ([], some other_session)).0
          → IsProved rt link m c
      go false e g = absurd g
      go true e g =
          let (claim, s, p, peer, a, (bond, b, w, k)) = Sends-with_claim m.claim g in
          record {
            session = session;
            session_sent = q;
            session_fits = e;
            claim = claim;
            claim_sent = s;
            claim_proved = p;
            peer = peer;
            peer_address = a;
            bond = bond;
            bond_read = b;
            written = w;
            encrypted = k;
          }

  pair_end-silent : (f : Option PairFault) → Sends c (pair_end rt link m f) → ⊥
  unfolding pair_end
  pair_end-silent none h = h
  pair_end-silent (some stopped) (inl e) = cc (e)
  pair_end-silent (some stopped) (inr h) = h
  pair_end-silent (some failed) (inl e) = cc (e)
  pair_end-silent (some failed) (inr h) = h
  pair_end-silent (some other_session) (inl e) = cc (e)
  pair_end-silent (some other_session) (inr h) = h
  pair_end-silent (some no_proof) (inl e) = cc (e)
  pair_end-silent (some no_proof) (inr h) = h
  pair_end-silent (some no_bond) (inl e) = cc (e)
  pair_end-silent (some no_bond) (inr h) = h

  -- The Linux receiver sends an identity only after the phone showed the session of this invitation
  -- and a claim with the proof for it, and after the acceptance was written to the phone; the identity
  -- is that of the bond that was read for the phone's address.
  pub run_pair-IsProved : Sends c (run_pair rt link m) → IsProved rt link m c
  unfolding run_pair
  run_pair-IsProved (inl e) = cc (e)
  run_pair-IsProved (inr h) = elim (Sends-append c course.0 (pair_end rt link m course.1) h) [
    | inl g ↦ found (Sends-after c m.found connected g).1
    | inr g ↦ absurd (pair_end-silent course.1 g)
  ]
    where
      connected : Course
      connected =
          then_course (posted "connecting" "receiver_proximity_confirmed" ∷ [])
            (with_session rt link m m.session)

      course : Course
      course = after m.found connected

      found : Sends c connected.0 → IsProved rt link m c
      found (inl e) = cc (e)
      found (inr g) = Sends-with_session m.session refl g
