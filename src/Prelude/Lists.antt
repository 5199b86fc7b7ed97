-- ===== src/Prelude/Lists.antt =====
-- Lists over native numbers, under the library's names, and predicates by recursion on a list.
use Prim.Native.Nat.{ℕ, zero, suc, ◌+◌, ◌≤◌}
use mathlib.Core.Path.{◌≡◌, refl, ap, sym, ◌∙◌}
use mathlib.Core.Logic.{◌≢◌, ◌⊎◌, inl, inr}
use mathlib.Core.Bool.{Bool, true, false, ◌&&◌, ◌||◌}
use mathlib.Core.List.{List, [], ◌∷◌, ◌++◌}
use mathlib.Core.Option.{Option, none, some}
use native.Mathlib.Omega.{arith}
use presence_bridge.Prelude.Tests.{if◌then◌else◌, and-left, and-right}

module _ {ℓ} {A : Type ℓ} where
  abbrev pub length : List A → ℕ
  length [] = 0
  length (x ∷ xs) = suc (length xs)

  -- xs[:n]
  abbrev pub take : ℕ → List A → List A
  take zero xs = []
  take (suc n) [] = []
  take (suc n) (x ∷ xs) = x ∷ take n xs

  abbrev pub get_elem? : List A → ℕ → Option A
  get_elem? [] i = none
  get_elem? (x ∷ xs) zero = some x
  get_elem? (x ∷ xs) (suc i) = get_elem? xs i

  -- any(p(x) for x in xs)
  abbrev pub any : (A → Bool) → List A → Bool
  any p [] = false
  any p (x ∷ xs) = p x || any p xs

  -- all(p(x) for x in xs)
  abbrev pub all : (A → Bool) → List A → Bool
  all p [] = true
  all p (x ∷ xs) = p x && all p xs

  -- [x for x in xs if p(x)]
  abbrev pub filter : (A → Bool) → List A → List A
  filter p [] = []
  filter p (x ∷ xs) = let rest = filter p xs in if p x then x ∷ rest else rest

  -- next((x for x in xs if p(x)), None)
  abbrev pub find? : (A → Bool) → List A → Option A
  find? p [] = none
  find? p (x ∷ xs) = let rest = find? p xs in if p x then some x else rest

  pub length-append : (xs ys : List A) → length (xs ++ ys) ≡ length xs + length ys
  length-append [] ys = omega arith
  length-append (x ∷ xs) ys = omega (arith, length-append xs ys)

  pub length-take-le : (n : ℕ) (xs : List A) → length (take n xs) ≤ n
  length-take-le zero xs = omega arith
  length-take-le (suc n) [] = omega arith
  length-take-le (suc n) (x ∷ xs) = omega (arith, length-take-le n xs)

  pub length-filter-le : (p : A → Bool) (xs : List A) → length (filter p xs) ≤ length xs
  length-filter-le p [] = omega arith
  length-filter-le p (x ∷ xs) = ground (arith, length-filter-le p xs)

  pub all-append : (p : A → Bool) (xs ys : List A) → all p (xs ++ ys) ≡ (all p xs && all p ys)
  all-append p [] ys = refl
  all-append p (x ∷ xs) ys = ground (arith, all-append p xs ys)

module _ {ℓ κ} {A : Type ℓ} (P : A → Type κ) where
  abbrev pub All : List A → Type κ
  All [] = Unit
  All (x ∷ xs) = P x × All xs

  pub All-append : (xs ys : List A) → All xs → All ys → All (xs ++ ys)
  All-append [] ys hx hy = hy
  All-append (x ∷ xs) ys (px, hx) hy = (px, All-append xs ys hx hy)

  pub All-take : (n : ℕ) (xs : List A) → All xs → All (take n xs)
  All-take zero xs h = tt
  All-take (suc n) [] h = tt
  All-take (suc n) (x ∷ xs) (px, h) = (px, All-take n xs h)

abbrev pub Any {ℓ} : {A : Type ℓ} → (A → Type 0) → List A → Type 0
Any P [] = ⊥
Any P (x ∷ xs) = P x ⊎ Any P xs

-- No entry of the list is `sep`.
abbrev pub Lacks : ℕ → List ℕ → Type 0
Lacks sep = All (λ c. c ≢ sep)

-- A separator that the first parts lack splits a list in one way only.
pub append-sep-injective :
    (sep : ℕ) (s s' t t' : List ℕ)
    → Lacks sep s
    → Lacks sep s'
    → s ++ (sep ∷ t) ≡ s' ++ (sep ∷ t')
    → (s ≡ s') × (t ≡ t')
append-sep-injective sep [] [] t t' h h' e = (refl, cc)
append-sep-injective sep [] (c ∷ s') t t' h h' e = absurd (h'.0 (cc))
append-sep-injective sep (c ∷ s) [] t t' h h' e = absurd (h.0 (cc))
append-sep-injective sep (c ∷ s) (c' ∷ s') t t' h h' e =
    let (p, q) = append-sep-injective sep s s' t t' h.1 h'.1 (cc) in (cc (p), q)

-- A test that `sep` fails keeps it out of the list.
pub Lacks-all : (p : ℕ → Bool) (sep : ℕ) (s : List ℕ) → p sep ≡ false → all p s ≡ true → Lacks sep s
Lacks-all p sep [] n h = tt
Lacks-all p sep (c ∷ s) n h = (
  λ e. cc (ap p e, n, and-left (p c) (all p s) h),
  Lacks-all p sep s n (and-right (p c) (all p s) h),
)

module _ {ℓ} {A : Type ℓ} where
  pub All-filter {κ} :
      (P : A → Type κ) (p : A → Bool) (xs : List A) → All P xs → All P (filter p xs)
  All-filter P p [] h = tt
  All-filter P p (x ∷ xs) (hx, hs) = split (p x) (All-filter P p xs hs)
    where
      split : (b : Bool) → All P (filter p xs) → All P (if b then x ∷ filter p xs else filter p xs)
      split true rest = (hx, rest)
      split false rest = rest

  -- a kept entry stays in the filtered list
  pub Any-filter :
      (P : A → Type 0) (p : A → Bool) (xs : List A)
      → ((x : A) → P x → p x ≡ true)
      → Any P xs
      → Any P (filter p xs)
  Any-filter P p [] f h = absurd h
  Any-filter P p (x ∷ xs) f (inl h) = rw (f x h) (inl h)
  Any-filter P p (x ∷ xs) f (inr h) = split (p x) (Any-filter P p xs f h)
    where
      split : (b : Bool) → Any P (filter p xs) → Any P (if b then x ∷ filter p xs else filter p xs)
      split true rest = inr rest
      split false rest = rest

  pub Any-map : (P Q : A → Type 0) (xs : List A) → ((x : A) → P x → Q x) → Any P xs → Any Q xs
  Any-map P Q [] f h = absurd h
  Any-map P Q (x ∷ xs) f (inl h) = inl (f x h)
  Any-map P Q (x ∷ xs) f (inr h) = inr (Any-map P Q xs f h)

  -- what holds of all entries holds of the entry that there is
  pub Any-All :
      (P Q R : A → Type 0) (xs : List A)
      → ((x : A) → P x → Q x → R x)
      → Any P xs
      → All Q xs
      → Any R xs
  Any-All P Q R [] f h a = absurd h
  Any-All P Q R (x ∷ xs) f (inl h) (q, a) = inl (f x h q)
  Any-All P Q R (x ∷ xs) f (inr h) (q, a) = inr (Any-All P Q R xs f h a)

  -- a fact about some entry, whichever it is
  pub Any-const : (C : Type 0) (P : A → Type 0) (xs : List A) → ((x : A) → P x → C) → Any P xs → C
  Any-const C P [] f h = absurd h
  Any-const C P (x ∷ xs) f (inl h) = f x h
  Any-const C P (x ∷ xs) f (inr h) = Any-const C P xs f h

  pub All-map {κ μ} :
      (P : A → Type κ) (Q : A → Type μ) (xs : List A) → ((x : A) → P x → Q x) → All P xs → All Q xs
  All-map P Q [] f h = tt
  All-map P Q (x ∷ xs) f (px, h) = (f x px, All-map P Q xs f h)

pub find?-some :
    {A : Type 0} (p : A → Bool) (xs : List A) (x : A)
    → find? p xs ≡ some x
    → (p x ≡ true) × Any (λ y. y ≡ x) xs
find?-some p [] x h = cc
find?-some {A} p (y ∷ xs) x h = split (p y) refl (find?-some p xs x) h
  where
    split :
        (b : Bool)
        → p y ≡ b
        → (find? p xs ≡ some x → (p x ≡ true) × Any (λ y'. y' ≡ x) xs)
        → (if b then some y else find? p xs) ≡ some x
        → (p x ≡ true) × Any (λ y'. y' ≡ x) (y ∷ xs)
    split true e ih g = let q : y ≡ x = cc (g) in (ap p (sym q) ∙ e, inl q)
    split false e ih g = ((ih g).0, inr (ih g).1)
