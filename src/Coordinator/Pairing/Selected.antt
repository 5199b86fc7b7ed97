-- ===== src/Coordinator/Pairing/Selected.antt =====
-- The receiver that `_select_observer` selects.
use presence_bridge.Prelude.{
  Bool, true, false, List, [], ◌∷◌, none, some, String, ◌==◌, eq_iff, Dict, Any, Any-map, Any-All,
  Any-const, All, filter, find?, find?-some, ◌≡◌, refl, sym, ap, ◌∙◌, inl, inr, if◌then◌else◌,
}
use presence_bridge.Runtime.{Runtime}
use presence_bridge.Coordinator.Types.{ObserverState}
use presence_bridge.Coordinator.Pairing.{is_candidate, values, least, before, select_observer}

-- The receiver that a request selects is online, supports app pairing, and is the one asked for.
pub record IsSelected (requested : String) (observers : Dict ObserverState) (o : ObserverState)
    : Type 0 where
  pub is_known : Any (λ p. p ≡ o) (values observers)
  pub is_able : is_candidate o ≡ true
  pub is_requested : (requested == "") ≡ false → o.observer_id ≡ requested

all_candidates :
    (os : List ObserverState) → All (λ o. is_candidate o ≡ true) (filter is_candidate os)
all_candidates [] = tt
all_candidates (o ∷ os) = split (is_candidate o) refl (all_candidates os)
  where
    split :
        (b : Bool)
        → is_candidate o ≡ b
        → All (λ p. is_candidate p ≡ true) (filter is_candidate os)
        → All
            (λ p. is_candidate p ≡ true)
            (if b then o ∷ filter is_candidate os else filter is_candidate os)
    split true e h = (e, h)
    split false e h = h

known_candidate :
    (o : ObserverState) (os : List ObserverState)
    → Any (λ p. p ≡ o) (filter is_candidate os)
    → Any (λ p. p ≡ o) os
known_candidate o [] h = h
known_candidate o (q ∷ os) h = split (is_candidate q) (known_candidate o os) h
  where
    split :
        (b : Bool)
        → (Any (λ p. p ≡ o) (filter is_candidate os) → Any (λ p. p ≡ o) os)
        → Any (λ p. p ≡ o) (if b then q ∷ filter is_candidate os else filter is_candidate os)
        → Any (λ p. p ≡ o) (q ∷ os)
    split true f (inl e) = inl e
    split true f (inr m) = inr (f m)
    split false f m = inr (f m)

least-Any :
    (key : ObserverState → String) (o : ObserverState) (os : List ObserverState)
    → Any (λ p. p ≡ least key o os) (o ∷ os)
unfolding least
least-Any key o [] = inl refl
least-Any key o (q ∷ os) = split (before (key q) (key o)) (least-Any key q os) (least-Any key o os)
  where
    split :
        (b : Bool)
        → Any (λ p. p ≡ least key q os) (q ∷ os)
        → Any (λ p. p ≡ least key o os) (o ∷ os)
        → Any (λ p. p ≡ least key (if b then q else o) os) (o ∷ q ∷ os)
    split true f g = inr f
    split false f (inl e) = inl e
    split false f (inr e) = inr (inr e)

is_able_of :
    (o : ObserverState) (os : List ObserverState)
    → Any (λ p. p ≡ o) (filter is_candidate os)
    → is_candidate o ≡ true
is_able_of o os a =
    Any-const (is_candidate o ≡ true) (λ _. is_candidate o ≡ true) (filter is_candidate os)
      (λ _ h. h)
      (Any-All (λ p. p ≡ o) (λ p. is_candidate p ≡ true) (λ _. is_candidate o ≡ true)
        (filter is_candidate os) (λ p e h. ap is_candidate (sym e) ∙ h) a (all_candidates os))

pub select_observer-IsSelected :
    (rt : Runtime) (requested : String) (observers : Dict ObserverState) (o : ObserverState)
    → select_observer rt requested observers ≡ some o
    → IsSelected requested observers o
unfolding select_observer
select_observer-IsSelected rt requested observers o h = split (requested == "") refl h
  where
    found :
        Any (λ p. p ≡ o) (filter is_candidate (values observers))
        → ((requested == "") ≡ false → o.observer_id ≡ requested)
        → IsSelected requested observers o
    found a r = record {
      is_known = known_candidate o (values observers) a;
      is_able = is_able_of o (values observers) a;
      is_requested = r;
    }

    first :
        (os : List ObserverState)
        → (elim os [ [] ↦ none | p ∷ ps ↦ some (least (λ q. rt.casefold q.name) p ps) ]) ≡ some o
        → Any (λ p. p ≡ o) os
    first [] e = cc
    first (p ∷ ps) e =
        let q : least (λ q. rt.casefold q.name) p ps ≡ o = cc (e) in
        Any-map _ _ (p ∷ ps) (λ _ f. f ∙ q) (least-Any (λ q. rt.casefold q.name) p ps)

    split :
        (b : Bool)
        → (requested == "") ≡ b
        → (if b
            then (elim (filter is_candidate (values observers)) [
              | [] ↦ none
              | p ∷ ps ↦ some (least (λ q. rt.casefold q.name) p ps)
            ])
            else find? (λ p. p.observer_id == requested) (filter is_candidate (values observers)))
          ≡ some o
        → IsSelected requested observers o
    split true e g = found (first _ g) (λ f. cc (e, f))
    split false e g =
        let (t, a) = find?-some (λ p. p.observer_id == requested) _ o g in
        found a (λ _. (eq_iff o.observer_id requested).0 t)
