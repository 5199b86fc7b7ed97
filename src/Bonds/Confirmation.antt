-- ===== src/Bonds/Confirmation.antt =====
-- A removal on Windows returns only after Windows itself showed that nothing is left.
use presence_bridge.Prelude.{
  ℕ, zero, suc, ◌+◌, ◌≤◌, ◌<◌, Bool, true, false, List, Option, none, some, String, Dict, lookup,
  insert, erase, length, Result, ok, err, if◌then◌else◌, ◌≡◌, subst, ◌⊎◌, Bool-cases, not, ◌&&◌,
  inl, inr, refl, arith,
}
use presence_bridge.Coordinator.Removal.Answers.{lookup-inserted, lookup-erased}
use presence_bridge.Runtime.{Runtime}
use presence_bridge.Bonds.{
  BondDevice, Sighting, BondError, invalid_fingerprint, unidentified, still_saved, unpair_failed,
  identity_records, is_fingerprint, is_gone, confirm, settle, targets_of, remove_identity_bonds,
  is_empty,
}

confirm-IsGone :
    (rt : Runtime) (fingerprint : String) (targets : List BondDevice) (sightings : ℕ → Sighting)
    (n k j : ℕ)
    → confirm rt fingerprint targets sightings n k ≡ some j
    → (k ≤ j) × (j < k + n) × (is_gone rt fingerprint targets (sightings j) ≡ true)
unfolding confirm
confirm-IsGone rt fingerprint targets sightings zero k j h = cc (h)
confirm-IsGone rt fingerprint targets sightings (suc n) k j h =
    split (is_gone rt fingerprint targets (sightings k)) refl
      (confirm-IsGone rt fingerprint targets sightings n (k + 1) j) h
  where
    split :
        (b : Bool)
        → is_gone rt fingerprint targets (sightings k) ≡ b
        → (confirm rt fingerprint targets sightings n (k + 1) ≡ some j
            → (k + 1 ≤ j) × (j < k + 1 + n) × (is_gone rt fingerprint targets (sightings j) ≡ true))
        → (if b then some k else confirm rt fingerprint targets sightings n (k + 1)) ≡ some j
        → (k ≤ j) × (j < k + suc n) × (is_gone rt fingerprint targets (sightings j) ≡ true)
    split true e f g =
        let same : k ≡ j = cc (g) in
        (
          ground (arith, same),
          ground (arith, same),
          subst (λ i. is_gone rt fingerprint targets (sightings i) ≡ true) same e,
        )
    split false e f g = let (a, b, c) = f g in (ground (arith, a), ground (arith, b), c)

-- What a removal has shown and left in the journal.
pub data IsSettled (rt : Runtime) (fingerprint : String) (sightings : ℕ → Sighting)
    (journal : Dict (List BondDevice)) : Result BondError ℕ × Dict (List BondDevice) → Type 0 where
  removed :
      (k : ℕ) (after : Dict (List BondDevice))
      → (1 ≤ k) × (k < 9)
      → is_gone rt fingerprint (targets_of rt fingerprint (sightings 0) journal) (sightings k)
        ≡ true
      → lookup fingerprint after ≡ none
      → IsSettled rt fingerprint sightings journal
          (ok (length (targets_of rt fingerprint (sightings 0) journal)), after)
  refused :
      (e : BondError)
      → (e ≡ invalid_fingerprint) ⊎ (e ≡ unidentified)
      → IsSettled rt fingerprint sightings journal (err e, journal)
  failed :
      (e : BondError) (after : Dict (List BondDevice))
      → (e ≡ unpair_failed) ⊎ (e ≡ still_saved)
      → ((is_empty (targets_of rt fingerprint (sightings 0) journal) ≡ true) × (after ≡ journal))
        ⊎ (lookup fingerprint after ≡ some (targets_of rt fingerprint (sightings 0) journal))
      → IsSettled rt fingerprint sightings journal (err e, after)

-- A removal that returns saw, at one of its eight looks, neither a target bonded nor a key saved, and
-- took the phone out of the journal. One that is refused, for the fingerprint or because no bond is
-- found for a saved key, leaves the journal alone; one that fails after that leaves in it every target
-- for the next try, and leaves it alone only where there was no target.
pub remove_identity_bonds-IsSettled :
    (rt : Runtime) (fingerprint : String) (sightings : ℕ → Sighting)
    (unpairs : List BondDevice → Bool) (journal : Dict (List BondDevice))
    → IsSettled rt fingerprint sightings journal
        (remove_identity_bonds rt fingerprint sightings unpairs journal)
unfolding remove_identity_bonds settle
remove_identity_bonds-IsSettled rt fingerprint sightings unpairs journal =
    go (not (is_fingerprint fingerprint))
      (not (is_empty (identity_records rt (sightings 0).saved fingerprint)) && is_empty targets)
      (not (unpairs targets)) (confirm rt fingerprint targets sightings 8 1) refl
  where
    targets : List BondDevice
    targets = targets_of rt fingerprint (sightings 0) journal

    journal' : Dict (List BondDevice)
    journal' = if is_empty targets then journal else insert fingerprint targets journal

    left :
        ((is_empty targets ≡ true) × (journal' ≡ journal))
        ⊎ (lookup fingerprint journal' ≡ some targets)
    left = elim (Bool-cases (is_empty targets)) [
      | inl e ↦ inl (e, rw (e) refl)
      | inr e ↦ inr (rw (e) (lookup-inserted fingerprint targets journal))
    ]

    go :
        (a b c : Bool) (m : Option ℕ)
        → confirm rt fingerprint targets sightings 8 1 ≡ m
        → IsSettled rt fingerprint sightings journal (
            if a
            then (err invalid_fingerprint, journal)
            else if b
            then (err unidentified, journal)
            else if c
            then (err unpair_failed, journal')
            else settle fingerprint targets m journal')
    go true b c m e = refused invalid_fingerprint (inl refl)
    go false true c m e = refused unidentified (inr refl)
    go false false true m e = failed unpair_failed journal' (inl refl) left
    go false false false none e = failed still_saved journal' (inr refl) left
    go false false false (some k) e =
        let (lo, hi, gone) = confirm-IsGone rt fingerprint targets sightings 8 1 k e in
        removed k (erase fingerprint journal') (lo, hi) gone (lookup-erased fingerprint journal')
