-- ===== src/Windows/Keys/Unique.antt =====
-- The key that is chosen for an address is the only saved key that fits it.
mod Index
use presence_bridge.Prelude.{
  ℕ, Bool, true, false, List, [], ◌∷◌, Option, none, some, String, ◌==◌, Dict, filter, codes, Bytes,
  All, Any, All-map, Any-All, Any-const, Any-map, if◌then◌else◌, ◌≡◌, ◌⊎◌, inl, inr, refl, arith,
  sym, ap, ◌∙◌, subst, ◌&&◌,
}
use presence_bridge.Coordinator.Observers.{hex_only}
use presence_bridge.Coordinator.Removal.{from_hex}
use presence_bridge.Windows.Keys.{
  KeyRecord, irk_of, first_by_irk, last_by_irk, is_direct, is_resolved, is_resolvable, only,
  select_resolved, or_resolved, normalize_text, select_irk_record_for_address,
}
use presence_bridge.Windows.Keys.Unique.Index.{
  IsKey, IsIndex, first_by_irk-IsIndex, last_by_irk-IsIndex,
}

-- The row is saved and passes the test, and all saved rows that pass it have its key.
pub record IsUnique (test : KeyRecord → Bool) (records : List KeyRecord) (r : KeyRecord)
    : Type 0 where
  pub is_saved : Any (λ row. row ≡ r) records
  pub is_fit : test r ≡ true
  pub is_only : All (λ row. test row ≡ true → irk_of row ≡ irk_of r) records

Any-filtered :
    (test : KeyRecord → Bool) (r : KeyRecord) (rows : List KeyRecord)
    → Any (λ row. row ≡ r) (filter test rows)
    → Any (λ row. row ≡ r) rows × (test r ≡ true)
Any-filtered test r [] h = absurd h
Any-filtered test r (row ∷ rows) h = at (test row) refl (Any-filtered test r rows) h
  where
    at :
        (b : Bool)
        → test row ≡ b
        → (Any (λ x. x ≡ r) (filter test rows) → Any (λ x. x ≡ r) rows × (test r ≡ true))
        → Any (λ x. x ≡ r) (if b then row ∷ filter test rows else filter test rows)
        → Any (λ x. x ≡ r) (row ∷ rows) × (test r ≡ true)
    at true e ih (inl g) = (inl g, subst (λ x. test x ≡ true) g e)
    at true e ih (inr g) = (inr (ih g).0, (ih g).1)
    at false e ih g = (inr (ih g).0, (ih g).1)

All-unfilter :
    (P : KeyRecord → Type 0) (test : KeyRecord → Bool) (rows : List KeyRecord)
    → All P (filter test rows)
    → All (λ row. test row ≡ true → P row) rows
All-unfilter P test [] h = tt
All-unfilter P test (row ∷ rows) h = at (test row) refl (All-unfilter P test rows) h
  where
    at :
        (b : Bool)
        → test row ≡ b
        → (All P (filter test rows) → All (λ x. test x ≡ true → P x) rows)
        → All P (if b then row ∷ filter test rows else filter test rows)
        → All (λ x. test x ≡ true → P x) (row ∷ rows)
    at true e ih (p, g) = (λ _. p, ih g)
    at false e ih g = (λ t. cc (t, e), ih g)

All-self : (rows : List KeyRecord) → All (λ r. Any (λ row. row ≡ r) rows) rows
All-self [] = tt
All-self (row ∷ rows) = (
  inl refl,
  All-map (λ r. Any (λ x. x ≡ r) rows) (λ r. Any (λ x. x ≡ r) (row ∷ rows)) rows (λ r h. inr h)
      (All-self rows),
)

-- An index of one entry.
single-IsUnique :
    (test : KeyRecord → Bool) (records : List KeyRecord) (k : String) (r : KeyRecord)
    → IsIndex
        (λ x. Any (λ row. row ≡ x) (filter test records))
        (filter test records)
        []
        ((k, r) ∷ [])
    → IsUnique test records r
single-IsUnique test records k r x =
    let rows = filter test records in
    let saved : Any (λ row. row ≡ r) rows = (x.fits_all (All-self rows) tt).0 in
    let same : All (λ row. k ≡ irk_of row) rows =
      All-map (λ row. IsKey (irk_of row) ((k, r) ∷ [])) (λ row. k ≡ irk_of row) rows one
        x.has_all in
    let mine : k ≡ irk_of r =
      Any-const (k ≡ irk_of r) (λ row. (row ≡ r) × (k ≡ irk_of row)) rows
        (λ row (e, f). f ∙ ap irk_of e)
        (Any-All (λ row. row ≡ r) (λ row. k ≡ irk_of row) (λ row. (row ≡ r) × (k ≡ irk_of row)) rows
          (λ row e f. (e, f)) saved same) in
    record {
      is_saved = (Any-filtered test r records saved).0;
      is_fit = (Any-filtered test r records saved).1;
      is_only =
          All-unfilter (λ row. irk_of row ≡ irk_of r) test records
            (All-map (λ row. k ≡ irk_of row) (λ row. irk_of row ≡ irk_of r) rows
              (λ row e. sym e ∙ mine) same);
    }
  where
    one : (row : KeyRecord) → IsKey (irk_of row) ((k, r) ∷ []) → k ≡ irk_of row
    one row (inl e) = e
    one row (inr h) = absurd h

only-IsUnique :
    (test : KeyRecord → Bool) (records : List KeyRecord) (r : KeyRecord) (d : Dict KeyRecord)
    → IsIndex (λ x. Any (λ row. row ≡ x) (filter test records)) (filter test records) [] d
    → only d ≡ some r
    → IsUnique test records r
only-IsUnique test records r [] x h = cc (h)
only-IsUnique test records r ((k, row) ∷ []) x h = single-IsUnique test records k r (
    subst
      (λ y.
        IsIndex (λ z. Any (λ w. w ≡ z) (filter test records)) (filter test records) []
          ((k, y) ∷ []))
      (cc (h)) x)
only-IsUnique test records r (_ ∷ _ ∷ _) x h = cc (h)

module _ (aes : Bytes → Bytes → Bytes) where
  -- The test that the raw address gives.
  abbrev pub resolves : Option Bytes → KeyRecord → Bool
  resolves none row = false
  resolves (some raw) row = is_resolvable aes raw && is_resolved aes raw row

  select_resolved-IsUnique :
      (records : List KeyRecord) (raw : Option Bytes) (r : KeyRecord)
      → select_resolved aes records raw ≡ some r
      → IsUnique (resolves raw) records r
  unfolding select_resolved
  select_resolved-IsUnique records none r h = cc (h)
  select_resolved-IsUnique records (some raw) r h = at (is_resolvable aes raw) refl h
    where
      at :
          (b : Bool)
          → is_resolvable aes raw ≡ b
          → (if b then only (first_by_irk (filter (is_resolved aes raw) records) []) else none)
            ≡ some r
          → IsUnique (resolves (some raw)) records r
      at false e g = cc (g)
      at true e g =
          let u =
            only-IsUnique (is_resolved aes raw) records r
              (first_by_irk (filter (is_resolved aes raw) records) [])
              (first_by_irk-IsIndex _ (filter (is_resolved aes raw) records) []) g in
          record {
            is_saved = u.is_saved;
            is_fit = rw (e) u.is_fit;
            is_only =
                All-map (λ row. is_resolved aes raw row ≡ true → irk_of row ≡ irk_of r)
                  (λ row. resolves (some raw) row ≡ true → irk_of row ≡ irk_of r) records
                  (λ row f t. f (ground (arith, t))) u.is_only;
          }

  -- The key that is chosen for an address belongs to a saved row, and it is the only one among the
  -- saved keys that has this identity address, or else the only one that the address, a resolvable
  -- private one, was made with.
  pub select_irk_record_for_address-IsUnique :
      (records : List KeyRecord) (address : String) (r : KeyRecord)
      → select_irk_record_for_address aes records address ≡ some r
      → IsUnique (is_direct (normalize_text address)) records r
        ⊎ IsUnique (resolves (from_hex (codes (hex_only (normalize_text address))))) records r
  unfolding select_irk_record_for_address
  select_irk_record_for_address-IsUnique records address r h =
      go (normalize_text address == "")
        (only (last_by_irk (filter (is_direct (normalize_text address)) records) [])) refl h
    where
      normalized : String
      normalized = normalize_text address

      go :
          (b : Bool) (m : Option KeyRecord)
          → only (last_by_irk (filter (is_direct normalized) records) []) ≡ m
          → (if b then none else or_resolved aes records normalized m) ≡ some r
          → IsUnique (is_direct normalized) records r
            ⊎ IsUnique (resolves (from_hex (codes (hex_only normalized)))) records r
      go true m e g = cc (g)
      go false (some row) e g = inl (
          only-IsUnique (is_direct normalized) records r _
            (last_by_irk-IsIndex _ (filter (is_direct normalized) records) []) (cc (e, g)))
      go false none e g =
          inr (select_resolved-IsUnique records (from_hex (codes (hex_only normalized))) r g)
