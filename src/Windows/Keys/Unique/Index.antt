-- ===== src/Windows/Keys/Unique/Index.antt =====
-- The indexes of the saved rows by key: every row's key is in the index, and its rows are saved ones.
use presence_bridge.Prelude.{
  Bool, true, false, List, [], ◌∷◌, Option, none, some, String, ◌==◌, eq_iff, Dict, lookup, insert,
  All, Any, if◌then◌else◌, ◌≡◌, inl, inr, refl, arith,
}
use presence_bridge.Windows.Keys.{KeyRecord, irk_of, set_default, first_by_irk, last_by_irk}

-- A key of the dict.
abbrev pub IsKey : String → Dict KeyRecord → Type 0
IsKey k = Any (λ (j, _). j ≡ k)

insert-IsKey : (k : String) (v : KeyRecord) (d : Dict KeyRecord) → IsKey k (insert k v d)
unfolding insert
insert-IsKey k v [] = inl refl
insert-IsKey k v ((j, w) ∷ d) = at (j == k) refl (insert-IsKey k v d)
  where
    at :
        (b : Bool)
        → j == k ≡ b
        → IsKey k (insert k v d)
        → IsKey k (if b then (j, v) ∷ d else (j, w) ∷ insert k v d)
    at true e g = inl (ground (arith, e, eq_iff j k))
    at false e g = inr g

IsKey-insert :
    (i k : String) (v : KeyRecord) (d : Dict KeyRecord) → IsKey i d → IsKey i (insert k v d)
unfolding insert
IsKey-insert i k v [] h = absurd h
IsKey-insert i k v ((j, w) ∷ d) h = at (j == k) (IsKey-insert i k v d) h
  where
    at :
        (b : Bool)
        → (IsKey i d → IsKey i (insert k v d))
        → IsKey i ((j, w) ∷ d)
        → IsKey i (if b then (j, v) ∷ d else (j, w) ∷ insert k v d)
    at true ih g = g
    at false ih (inl g) = inl g
    at false ih (inr g) = inr (ih g)

module _ (P : KeyRecord → Type 0) where
  abbrev Fit : Dict KeyRecord → Type 0
  Fit = All (λ (_, row). P row)

  Fit-insert : (k : String) (v : KeyRecord) (d : Dict KeyRecord) → P v → Fit d → Fit (insert k v d)
  unfolding insert
  Fit-insert k v [] p h = (p, tt)
  Fit-insert k v ((j, w) ∷ d) p (q, h) = at (j == k) (Fit-insert k v d p h)
    where
      at : (b : Bool) → Fit (insert k v d) → Fit (if b then (j, v) ∷ d else (j, w) ∷ insert k v d)
      at true g = (p, h)
      at false g = (q, g)

-- A key that is looked up with a result is one of the dict.
lookup-IsKey : (k : String) (v : KeyRecord) (d : Dict KeyRecord) → lookup k d ≡ some v → IsKey k d
unfolding lookup
lookup-IsKey k v [] h = cc (h)
lookup-IsKey k v ((j, w) ∷ d) h = at (j == k) refl (lookup-IsKey k v d) h
  where
    at :
        (b : Bool)
        → j == k ≡ b
        → (lookup k d ≡ some v → IsKey k d)
        → (if b then some w else lookup k d) ≡ some v
        → IsKey k ((j, w) ∷ d)
    at true e ih g = inl (ground (arith, e, eq_iff j k))
    at false e ih g = inr (ih g)

-- A step of an index by key: it has the key, keeps the others, and takes its rows from the list.
record IsStep (P : KeyRecord → Type 0) (row : KeyRecord) (d d' : Dict KeyRecord) : Type 0 where
  has : IsKey (irk_of row) d'
  keeps : (i : String) → IsKey i d → IsKey i d'
  fits : P row → All (λ (_, r). P r) d → All (λ (_, r). P r) d'

insert-IsStep :
    (P : KeyRecord → Type 0) (row : KeyRecord) (d : Dict KeyRecord)
    → IsStep P row d (insert (irk_of row) row d)
insert-IsStep P row d = record {
  has = insert-IsKey (irk_of row) row d;
  keeps = λ i. IsKey-insert i (irk_of row) row d;
  fits = Fit-insert P (irk_of row) row d;
}

set_default-IsStep :
    (P : KeyRecord → Type 0) (row : KeyRecord) (d : Dict KeyRecord)
    → IsStep P row d (set_default (irk_of row) row d)
unfolding set_default
set_default-IsStep P row d = at (lookup (irk_of row) d) refl
  where
    at :
        (m : Option KeyRecord)
        → lookup (irk_of row) d ≡ m
        → IsStep P row d (elim m [ none ↦ insert (irk_of row) row d | some _ ↦ d ])
    at none e = insert-IsStep P row d
    at (some v) e = record {
      has = lookup-IsKey (irk_of row) v d e;
      keeps = λ i h. h;
      fits = λ p h. h;
    }

-- What an index of the rows comes to.
pub record IsIndex (P : KeyRecord → Type 0) (rows : List KeyRecord) (d d' : Dict KeyRecord)
    : Type 0 where
  pub has_all : All (λ row. IsKey (irk_of row) d') rows
  pub keeps_all : (i : String) → IsKey i d → IsKey i d'
  pub fits_all : All P rows → All (λ (_, r). P r) d → All (λ (_, r). P r) d'

next-IsIndex :
    (P : KeyRecord → Type 0) (row : KeyRecord) (rows : List KeyRecord) (d d' d'' : Dict KeyRecord)
    → IsStep P row d d'
    → IsIndex P rows d' d''
    → IsIndex P (row ∷ rows) d d''
next-IsIndex P row rows d d' d'' s x = record {
  has_all = (x.keeps_all _ s.has, x.has_all);
  keeps_all = λ i h. x.keeps_all i (s.keeps i h);
  fits_all = λ (p, ps) h. x.fits_all ps (s.fits p h);
}

pub first_by_irk-IsIndex :
    (P : KeyRecord → Type 0) (rows : List KeyRecord) (d : Dict KeyRecord)
    → IsIndex P rows d (first_by_irk rows d)
unfolding first_by_irk
first_by_irk-IsIndex P [] d = record { has_all = tt; keeps_all = λ i h. h; fits_all = λ _ h. h }
first_by_irk-IsIndex P (row ∷ rows) d =
    next-IsIndex P row rows d _ _ (set_default-IsStep P row d)
      (first_by_irk-IsIndex P rows (set_default (irk_of row) row d))

pub last_by_irk-IsIndex :
    (P : KeyRecord → Type 0) (rows : List KeyRecord) (d : Dict KeyRecord)
    → IsIndex P rows d (last_by_irk rows d)
unfolding last_by_irk
last_by_irk-IsIndex P [] d = record { has_all = tt; keeps_all = λ i h. h; fits_all = λ _ h. h }
last_by_irk-IsIndex P (row ∷ rows) d =
    next-IsIndex P row rows d _ _ (insert-IsStep P row d)
      (last_by_irk-IsIndex P rows (insert (irk_of row) row d))
