-- ===== src/Windows/Session/Secure.antt =====
-- An app pairing sends only the identity of the phone that went through the encrypted exchange.
use presence_bridge.Prelude.{
  ltb, Bool, true, false, ◌&&◌, List, [], ◌∷◌, ◌++◌, Option, none, some, String, filter, length,
  Bytes, Result, ok, err, Any, codes, if◌then◌else◌, ◌≡◌, ◌⊎◌, inl, inr, refl, ap, ◌∙◌, sym, subst,
}
use presence_bridge.Coordinator.Observers.{hex_only}
use presence_bridge.Coordinator.Removal.{from_hex}
use presence_bridge.Windows.Keys.{
  KeyRecord, is_direct, normalize_text, select_new_irk_records, select_irk_record_for_address,
  verified_app_identity_payload,
}
use presence_bridge.Windows.Keys.Unique.{IsUnique, resolves, select_irk_record_for_address-IsUnique}
use presence_bridge.Windows.Session.{
  Fault, gatt, cancelled, other, Event, posted, bridge_result, resumed, sent_result, receipt, Peer,
  Encounter, Part, part, before, handled, released, conclude, stuck, failing, run_with_baseline,
  show_receipt, deliver, capture, encrypted, deliver_encrypted, deliver_captured, exchange,
  run_app_session, run_paused, pause_again, confirm_receipt,
}

-- What goes out to Home Assistant and to the phone.
abbrev pub is_output : Event → Bool
is_output (bridge_result _) = true
is_output (sent_result _) = true
is_output (receipt shown) = shown
is_output _ = false

filter-append :
    (p : Event → Bool) (es fs : List Event) → filter p (es ++ fs) ≡ filter p es ++ filter p fs
filter-append p [] fs = refl
filter-append p (e ∷ es) fs = at (p e) (filter-append p es fs)
  where
    at :
        (b : Bool)
        → filter p (es ++ fs) ≡ filter p es ++ filter p fs
        → (if b then e ∷ filter p (es ++ fs) else filter p (es ++ fs))
          ≡ (if b then e ∷ filter p es else filter p es) ++ filter p fs
    at true h = ap (λ t. e ∷ t) h
    at false h = h

append-nil : (es : List Event) → es ++ [] ≡ es
append-nil [] = refl
append-nil (e ∷ es) = ap (λ t. e ∷ t) (append-nil es)

handled-silent : (e : Encounter) (f : Option Fault) → filter is_output (handled e f) ≡ []
unfolding handled
handled-silent e none = refl
handled-silent e (some (gatt t code)) = at (e.interactive && e.leased)
  where
    at : (c : Bool) → filter is_output (if c then receipt false ∷ [] else []) ≡ []
    at true = refl
    at false = refl
handled-silent e (some cancelled) = refl
handled-silent e (some other) = refl

stuck-silent : (e : Encounter) (f : Option Fault) → filter is_output (stuck e f) ≡ []
unfolding stuck
stuck-silent e none = handled-silent e none
stuck-silent e (some (gatt t code)) = refl
stuck-silent e (some cancelled) = handled-silent e (some cancelled)
stuck-silent e (some other) = handled-silent e (some other)

-- The outputs of a session are those of its part.
conclude-outputs :
    (e : Encounter) (p : Part) → filter is_output (conclude e p) ≡ filter is_output p.events
unfolding conclude
conclude-outputs e p = split (p.has_heartbeat && e.heartbeat_fails)
  where
    at : (c : Bool) → filter is_output (released c) ≡ []
    at true = refl
    at false = refl

    split :
        (b : Bool)
        → filter is_output (
            if b
            then p.events ++ stuck e p.fault
            else p.events ++ (handled e p.fault ++ released p.has_paused))
          ≡ filter is_output p.events
    split true =
        filter-append is_output p.events (stuck e p.fault)
        ∙ ap (λ t. filter is_output p.events ++ t) (stuck-silent e p.fault)
        ∙ append-nil (filter is_output p.events)
    split false =
        filter-append is_output p.events (handled e p.fault ++ released p.has_paused)
        ∙ ap (λ t. filter is_output p.events ++ t)
            (filter-append is_output (handled e p.fault) (released p.has_paused)
              ∙ ap (λ t. t ++ filter is_output (released p.has_paused)) (handled-silent e p.fault)
              ∙ at p.has_paused)
        ∙ append-nil (filter is_output p.events)

-- What a session puts out: nothing, the identity, on both topics, or that and then the completion
-- receipt.
pub data Outputs (e : Encounter) (P : String → Type 0) : List Event → Type 0 where
  nothing : Outputs e P []
  identity : (c : String) → P c → Outputs e P (bridge_result c ∷ sent_result c ∷ [])
  complete :
      (c : String)
      → P c
      → e.commit ≡ ok tt
      → Outputs e P (bridge_result c ∷ sent_result c ∷ receipt true ∷ [])

show_receipt-Outputs :
    (e : Encounter) (P : String → Type 0) (c : String) (r : Result Fault (Unit {0}))
    → P c
    → e.commit ≡ r
    → Outputs e P (bridge_result c ∷ sent_result c ∷ filter is_output (show_receipt e r).events)
unfolding show_receipt pause_again confirm_receipt
show_receipt-Outputs e P c (err f) p q = identity c p
show_receipt-Outputs e P c (ok _) p q = go e.second_fault
  where
    confirmed :
        (m : Result Fault (Unit {0}))
        → Outputs e P
            (bridge_result c ∷ sent_result c ∷ filter is_output (confirm_receipt m).events)
    confirmed (ok _) = complete c p q
    confirmed (err f) = identity c p

    go :
        (m : Option Fault)
        → Outputs e P (bridge_result c ∷ sent_result c ∷ filter is_output (pause_again e m).events)
    go none = confirmed e.confirm
    go (some f) = identity c p

-- The key that was captured: one of the reads had it as the only one that fits the phone's address.
pub record IsCaptured (aes : Bytes → Bytes → Bytes) (e : Encounter) (peer : Peer) (c : String)
    : Type 0 where
  pub verified : e.peer ≡ ok peer
  pub secure : peer.secure_exchange_complete ≡ true
  pub row : KeyRecord
  pub only_key :
      Any
        (λ saved.
          IsUnique (is_direct (normalize_text peer.address)) saved row
          ⊎ IsUnique
              (resolves aes (from_hex (codes (hex_only (normalize_text peer.address)))))
              saved
              row)
        e.reads
  pub encrypted_to : encrypted aes e (verified_app_identity_payload row) ≡ some c

module _ (aes : Bytes → Bytes → Bytes) where
  abbrev Fits : String → KeyRecord → List KeyRecord → Type 0
  Fits address row saved =
      IsUnique (is_direct (normalize_text address)) saved row
      ⊎ IsUnique (resolves aes (from_hex (codes (hex_only (normalize_text address))))) saved row

  capture-Fits :
      (last : Fault) (baseline : List KeyRecord) (address : String) (reads : List (List KeyRecord))
      (row : KeyRecord)
      → capture aes last baseline address reads ≡ ok row
      → Any (Fits address row) reads
  unfolding capture
  capture-Fits last baseline address [] row h = cc (h)
  capture-Fits last baseline address (current ∷ reads) row h =
      go (select_irk_record_for_address aes current address)
        (ltb 1 (length (select_new_irk_records baseline current))) refl
        (capture-Fits last baseline address reads row) h
    where
      go :
          (m : Option KeyRecord) (b : Bool)
          → select_irk_record_for_address aes current address ≡ m
          → (capture aes last baseline address reads ≡ ok row → Any (Fits address row) reads)
          → ◌≡◌ {A = Result Fault KeyRecord}
              (elim m [
                | some r ↦ ok r
                | none ↦ if b then err other else capture aes last baseline address reads
              ])
              (ok row)
          → Any (Fits address row) (current ∷ reads)
      go (some r) b q ih g =
          let same : r ≡ row = cc (g) in
          inl (select_irk_record_for_address-IsUnique aes current address row (q ∙ ap some same))
      go none true q ih g = cc (g)
      go none false q ih g = inr (ih g)

  deliver_captured-Outputs :
      (e : Encounter) (peer : Peer) (m : Result Fault KeyRecord)
      → e.peer ≡ ok peer
      → peer.secure_exchange_complete ≡ true
      → capture aes e.last e.baseline peer.address e.reads ≡ m
      → Outputs e (IsCaptured aes e peer) (filter is_output (deliver_captured aes e m).events)
  unfolding deliver_captured deliver_encrypted deliver
  deliver_captured-Outputs e peer (err f) q s k = nothing
  deliver_captured-Outputs e peer (ok row) q s k =
      go (encrypted aes e (verified_app_identity_payload row)) refl
    where
      go :
          (o : Option String)
          → encrypted aes e (verified_app_identity_payload row) ≡ o
          → Outputs e (IsCaptured aes e peer) (filter is_output (deliver_encrypted aes e o).events)
      go none f = nothing
      go (some c) f = at e.heartbeat_fails (
          show_receipt-Outputs e (IsCaptured aes e peer) c e.commit
            (record {
              verified = q;
              secure = s;
              row = row;
              only_key = capture-Fits e.last e.baseline peer.address e.reads row k;
              encrypted_to = f;
            })
            refl)
        where
          sent : Part
          sent =
              before
                (posted "identity_captured" "identity_captured"
                  ∷ resumed
                  ∷ bridge_result c
                  ∷ sent_result c
                  ∷ [])
                (show_receipt e e.commit)

          at :
              (b : Bool)
              → Outputs e (IsCaptured aes e peer) (filter is_output sent.events)
              → Outputs e
                  (IsCaptured aes e peer)
                  (filter is_output (if b then failing other else sent).events)
          at true h = nothing
          at false h = h

  Sent : Encounter → String → Type 0
  Sent e c = (peer : Peer) × IsCaptured aes e peer c

  Outputs-peer :
      (e : Encounter) (peer : Peer) (es : List Event)
      → Outputs e (IsCaptured aes e peer) es
      → Outputs e (Sent e) es
  unfolding Sent
  Outputs-peer e peer _ nothing = nothing
  Outputs-peer e peer _ (identity c p) = identity c (peer, p)
  Outputs-peer e peer _ (complete c p q) = complete c (peer, p) q

  exchange-Outputs :
      (e : Encounter) (m : Result Fault Peer)
      → e.peer ≡ m
      → Outputs e (Sent e) (filter is_output (exchange aes e m).events)
  unfolding exchange
  exchange-Outputs e (err f) q = nothing
  exchange-Outputs e (ok peer) q = at peer.secure_exchange_complete refl
    where
      taken : Part
      taken =
          before (posted "bonding" "iphone_claim_accepted" ∷ [])
            (deliver_captured aes e (capture aes e.last e.baseline peer.address e.reads))

      at :
          (b : Bool)
          → peer.secure_exchange_complete ≡ b
          → Outputs e (Sent e) (
              filter is_output
                (if b then taken else failing (gatt false "iphone_secure_exchange_missing")).events)
      at true s = Outputs-peer e peer _ (
          deliver_captured-Outputs e peer (capture aes e.last e.baseline peer.address e.reads) q s
            refl)
      at false s = nothing

  -- The identity that an app pairing sends is the encryption of the only saved key that fits the
  -- address of a phone that went through the encrypted exchange; it is sent once at most, on each of
  -- the two topics, and the
  -- receipt of the completion is shown only after it, and once Home Assistant has committed it.
  pub run_app_session-Outputs :
      (e : Encounter)
      → Outputs e
          (λ c. (peer : Peer) × IsCaptured aes e peer c)
          (filter is_output (run_app_session aes e))
  unfolding run_app_session run_paused run_with_baseline Sent
  run_app_session-Outputs e = at e.pause_fault
    where
      ended :
          (p : Part)
          → Outputs e (Sent e) (filter is_output p.events)
          → Outputs e (Sent e) (filter is_output (conclude e p))
      ended p h = subst (Outputs e (Sent e)) (sym (conclude-outputs e p)) h

      begun : (m : Option Fault) → Outputs e (Sent e) (filter is_output (run_with_baseline aes e m))
      begun none = ended (exchange aes e e.peer) (exchange-Outputs e e.peer refl)
      begun (some f) = ended (part [] (some f) true) nothing

      at : (m : Option Fault) → Outputs e (Sent e) (filter is_output (run_paused aes e m))
      at none = begun e.baseline_fault
      at (some f) = ended (part [] (some f) false) nothing
