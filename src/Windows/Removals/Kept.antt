-- ===== src/Windows/Removals/Kept.antt =====
-- The answers to removals that are kept: the last 32.
use presence_bridge.Prelude.{
  ℕ, suc, ◌≤◌, ltb, Bool, true, false, inl, inr, Bool-cases, ◌==◌, if◌then◌else◌, ◌⊎◌, sym, [], ◌∷◌,
  none, some, String, eq_iff, Dict, lookup, insert, lookup-insert, length, ◌≡◌, refl, arith, ap,
  ◌∙◌,
}
use presence_bridge.Coordinator.Removal.Answers.{lookup-inserted}
use presence_bridge.Windows.State.{RemovalResult}
use presence_bridge.Windows.Removals.{trim}

pub length-trim : (d : Dict RemovalResult) → length (trim d) ≤ 32
unfolding trim
length-trim [] = omega arith
length-trim (entry ∷ d) = ground (arith, length-trim d)

-- How many answers are behind the one to this request.
unfoldable pub behind : String → Dict RemovalResult → ℕ
behind k [] = 0
behind k ((j, row) ∷ d) = let rest = behind k d in if j == k then length d else rest

-- The answer to the request is kept, with at most `n` behind it.
abbrev pub IsAnswered : ℕ → String → RemovalResult → Dict RemovalResult → Type 0
IsAnswered n k row d = (lookup k d ≡ some row) × (behind k d ≤ n)

pub trim-IsAnswered :
    (n : ℕ) (k : String) (row : RemovalResult) (d : Dict RemovalResult)
    → n ≤ 31
    → IsAnswered n k row d
    → IsAnswered n k row (trim d)
unfolding trim lookup behind
trim-IsAnswered n k row [] le (h, _) = cc (h)
trim-IsAnswered n k row ((j, w) ∷ d) le (h, few) =
    at (j == k) refl (λ f g. trim-IsAnswered n k row d le (f, g)) h few
  where
    at :
        (b : Bool)
        → (j == k) ≡ b
        → ((lookup k d ≡ some row) → behind k d ≤ n → IsAnswered n k row (trim d))
        → (if b then some w else lookup k d) ≡ some row
        → (if b then length d else behind k d) ≤ n
        → IsAnswered n k row (if ltb 31 (length d) then trim d else (j, w) ∷ d)
    at true e by_rest f g =
        let short : ltb 31 (length d) ≡ false = ground (arith, g, le) in
        rw (short) (rw (e) f, rw (e) g)
    at false e by_rest f g = elim (Bool-cases (ltb 31 (length d))) [
      | inl long ↦ rw (long) (by_rest f g)
      | inr short ↦ rw (short) (rw (e) f, rw (e) g)
    ]

length-insert-new :
    (k : String) (row : RemovalResult) (d : Dict RemovalResult)
    → lookup k d ≡ none
    → length (insert k row d) ≡ suc (length d)
unfolding insert lookup
length-insert-new k row [] h = refl
length-insert-new k row ((i, w) ∷ d) h = ground (arith, h, length-insert-new k row d)

-- A new answer goes to the end.
behind-insert :
    (k j : String) (row new : RemovalResult) (d : Dict RemovalResult)
    → lookup j d ≡ none
    → lookup k d ≡ some row
    → behind k (insert j new d) ≤ suc (behind k d)
unfolding insert lookup behind
behind-insert k j row new [] fresh h = cc (h)
behind-insert k j row new ((i, w) ∷ d) fresh h =
    ground (arith, fresh, h, length-insert-new j new d, behind-insert k j row new d)

pub insert-IsAnswered :
    (n : ℕ) (k j : String) (row new : RemovalResult) (d : Dict RemovalResult)
    → lookup j d ≡ none
    → IsAnswered n k row d
    → IsAnswered (suc n) k row (insert j new d)
insert-IsAnswered n k j row new d fresh (h, few) =
    (other (Bool-cases (j == k)), omega (arith, few, behind-insert k j row new d fresh h))
  where
    other : ((j == k) ≡ true) ⊎ ((j == k) ≡ false) → lookup k (insert j new d) ≡ some row
    other (inl same) =
        let q : lookup k d ≡ none = ap (λ i. lookup i d) (sym ((eq_iff j k).0 same)) ∙ fresh in
        cc (q, h)
    other (inr e) = rw (lookup-insert j k new d, e) h

behind-first :
    (k : String) (row : RemovalResult) (d : Dict RemovalResult)
    → lookup k d ≡ none
    → behind k (insert k row d) ≡ 0
unfolding insert lookup behind
behind-first k row [] h = ground (arith, eq_iff k k)
behind-first k row ((j, w) ∷ d) h = ground (arith, h, behind-first k row d)

pub first-IsAnswered :
    (k : String) (row : RemovalResult) (d : Dict RemovalResult)
    → lookup k d ≡ none
    → IsAnswered 0 k row (trim (insert k row d))
first-IsAnswered k row d h =
    trim-IsAnswered 0 k row (insert k row d) (omega arith)
      (lookup-inserted k row d, omega (arith, behind-first k row d h))
