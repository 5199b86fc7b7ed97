-- ===== src/Windows/Removals/Shown.antt =====
-- A removal that the receiver reports as done was permitted, and Windows showed it.
use presence_bridge.Prelude.{
  ℕ, Bool, true, false, not, Option, none, some, String, Dict, Result, ok, err, if◌then◌else◌, ◌≡◌,
  ◌⊎◌, inl, inr, refl, arith, subst, sym, ap, ◌∙◌, List,
}
use presence_bridge.Json.{Payload, is_text, get}
use presence_bridge.Runtime.{Runtime}
use presence_bridge.Bonds.{BondDevice, BondError, remove_identity_bonds}
use presence_bridge.Bonds.Confirmation.{IsSettled, remove_identity_bonds-IsSettled}
use presence_bridge.Windows.State.{
  Observer, Host, Run, RemovalError, pause_scanner, resume_scanner, is_running, stop_run,
  finish_run, offer_mismatch, pairing_active, scanner_busy, heartbeat, send,
}
use presence_bridge.Windows.Removals.{
  is_offered, stop_attempt, take_offer, remove_paused, pause_and_remove, attempt_removal,
  after_offer, removal_of, fingerprint_in,
}

module _ (rt : Runtime) (host : Host) (id : String) (payload : Payload) where
  abbrev pub is_repair : Bool
  is_repair = is_text (get "action" payload) "repair_pairing"

  -- What holds of a removal that is done, from the state before to the state after.
  pub record IsShown (o o' : Observer) (count : ℕ) : Type 0 where
    pub settled :
        IsSettled rt
          (fingerprint_in rt host id payload)
          host.sightings
          o.journal
          (ok count, o'.journal)
    pub task_ended : is_running o'.run ≡ false
    pub scan_goes_on : o'.pause_requested ≡ false
    pub permitted :
        (is_repair ≡ false) × (is_running o.run ≡ false)
        ⊎ (is_repair ≡ true)
          × (is_offered rt host id payload o.session_id o.bond_repair_offer ≡ true)
          × (o'.bond_repair_offer ≡ none)

  -- The state in which the removal begins.
  record IsTaken (o o' : Observer) : Type 0 where
    same_journal : o'.journal ≡ o.journal
    by_offer :
        (is_repair ≡ false) × (o'.run ≡ o.run)
        ⊎ (is_repair ≡ true)
          × (is_offered rt host id payload o.session_id o.bond_repair_offer ≡ true)
          × (o'.bond_repair_offer ≡ none)

  stop_attempt-journal :
      (m : Option Run) (o : Observer)
      → ((stop_attempt rt host id payload m o).1.journal ≡ o.journal)
        × ((stop_attempt rt host id payload m o).1.bond_repair_offer ≡ o.bond_repair_offer)
  unfolding stop_attempt stop_run finish_run
  stop_attempt-journal none o = (refl, refl)
  stop_attempt-journal (some r) o = (ground arith, ground arith)

  take_offer-IsTaken :
      (o : Observer)
      → (take_offer rt host id payload o).0 ≡ ok tt
      → IsTaken o (take_offer rt host id payload o).1
  unfolding take_offer
  take_offer-IsTaken o h =
      go is_repair (is_offered rt host id payload o.session_id o.bond_repair_offer) refl refl h
    where
      o₁ : Observer
      o₁ = record o { bond_repair_offer = none }

      choice : Bool → Bool → Result RemovalError (Unit {0}) × Observer
      choice b c =
          if not b
          then (ok tt, o)
          else if c
          then stop_attempt rt host id payload o.run o₁
          else (err offer_mismatch, o)

      go :
          (b c : Bool)
          → is_repair ≡ b
          → is_offered rt host id payload o.session_id o.bond_repair_offer ≡ c
          → (choice b c).0 ≡ ok tt
          → IsTaken o (choice b c).1
      go false c e f g = record { same_journal = refl; by_offer = inl (e, refl) }
      go true false e f g = cc (g)
      go true true e f g = record {
        same_journal = (stop_attempt-journal o.run o₁).0;
        by_offer = inr (e, f, (stop_attempt-journal o.run o₁).1);
      }

  removal_of-ok :
      (m : Result BondError ℕ) (n : ℕ) → removal_of rt host id payload m ≡ ok n → m ≡ ok n
  removal_of-ok (ok k) n h = cc (h)
  removal_of-ok (err e) n h = cc (h)

  -- The removal itself, with what it keeps.
  record IsRemoved (o o' : Observer) (count : ℕ) : Type 0 where
    was_free : is_running o.run ≡ false
    result :
        remove_identity_bonds rt
          (fingerprint_in rt host id payload)
          host.sightings
          host.unpairs
          o.journal
        ≡ (ok count, o'.journal)
    same_run : o'.run ≡ o.run
    same_offer : o'.bond_repair_offer ≡ o.bond_repair_offer
    resumed : o'.pause_requested ≡ false

  pause_and_remove-IsRemoved :
      (o : Observer) (n : ℕ)
      → (pause_and_remove rt host id payload o).0 ≡ ok n
      → IsRemoved o (pause_and_remove rt host id payload o).1 n
  unfolding pause_and_remove pause_scanner remove_paused resume_scanner
  pause_and_remove-IsRemoved o n h = go (is_running o.run) host.scanner_stops refl h
    where
      outcome : Result BondError ℕ × Dict (List BondDevice)
      outcome =
          remove_identity_bonds rt (fingerprint_in rt host id payload) host.sightings host.unpairs
            o.journal

      done : Bool → Observer
      done c =
          resume_scanner
            (record (send heartbeat (record o { pause_requested = c })) { journal = outcome.1 })

      choice : Bool → Bool → Result RemovalError ℕ × Observer
      choice b c =
          if b
          then (err pairing_active, o)
          else if c
          then (removal_of rt host id payload outcome.0, done c)
          else (err scanner_busy, record o { pause_requested = c })

      go :
          (b c : Bool) → is_running o.run ≡ b → (choice b c).0 ≡ ok n → IsRemoved o (choice b c).1 n
      go true c e g = cc (g)
      go false false e g = cc (g)
      go false true e g = record {
        was_free = e;
        result = cc (removal_of-ok outcome.0 n g);
        same_run = refl;
        same_offer = refl;
        resumed = refl;
      }

  -- When a removal is reported as done, Windows has shown that nothing of the phone is left, and the
  -- phone is out of the journal; no pairing task ran while it was removed, the scan goes on, and a
  -- removal by a repair used up the open offer that the command names, and that is of the current
  -- session.
  pub attempt_removal-IsShown :
      (o : Observer) (count : ℕ)
      → (attempt_removal rt host id payload o).0 ≡ ok count
      → IsShown o (attempt_removal rt host id payload o).1 count
  unfolding attempt_removal
  attempt_removal-IsShown o count h = go (take_offer rt host id payload o) (take_offer-IsTaken o) h
    where
      allowed :
          (o' o'' : Observer)
          → IsRemoved o' o'' count
          → (is_repair ≡ false) × (o'.run ≡ o.run)
            ⊎ (is_repair ≡ true)
              × (is_offered rt host id payload o.session_id o.bond_repair_offer ≡ true)
              × (o'.bond_repair_offer ≡ none)
          → (is_repair ≡ false) × (is_running o.run ≡ false)
            ⊎ (is_repair ≡ true)
              × (is_offered rt host id payload o.session_id o.bond_repair_offer ≡ true)
              × (o''.bond_repair_offer ≡ none)
      allowed o' o'' r (inl (e, f)) = inl (e, ap is_running (sym f) ∙ r.was_free)
      allowed o' o'' r (inr (e, f, g)) = inr (e, f, r.same_offer ∙ g)

      shown : (o' o'' : Observer) → IsTaken o o' → IsRemoved o' o'' count → IsShown o o'' count
      shown o' o'' t r = record {
        settled =
            subst
              (λ j.
                IsSettled rt (fingerprint_in rt host id payload) host.sightings j
                  (ok count, o''.journal))
              t.same_journal
              (subst (IsSettled rt (fingerprint_in rt host id payload) host.sightings o'.journal)
                r.result
                (remove_identity_bonds-IsSettled rt (fingerprint_in rt host id payload)
                  host.sightings host.unpairs o'.journal));
        task_ended = ap is_running r.same_run ∙ r.was_free;
        scan_goes_on = r.resumed;
        permitted = allowed o' o'' r t.by_offer;
      }

      go :
          (m : Result RemovalError (Unit {0}) × Observer)
          → (m.0 ≡ ok tt → IsTaken o m.1)
          → (after_offer rt host id payload m).0 ≡ ok count
          → IsShown o (after_offer rt host id payload m).1 count
      go (err e, o') t g = cc (g)
      go (ok _, o') t g = shown o' _ (t refl) (pause_and_remove-IsRemoved o' count g)
