-- ===== src/Coordinator/Matching/Strongest.antt =====
-- `_matches_for_irk` finds, for each receiver, the strongest of the newest signals.
use presence_bridge.Prelude.{
  ℕ, ◌≤◌, true, List, [], ◌∷◌, Option, none, some, String, ◌≤ℤ◌, All, Any, ltb, ltb_ℤ, ◌=ℕ◌, ◌≡◌,
  refl, arith, subst, sym, ◌⊎◌, inl, inr, Option-cases, Bool-cases,
}
use presence_bridge.Runtime.{Runtime}
use presence_bridge.Coordinator.Types.{ObserverState, Observation}
use presence_bridge.Coordinator.Matching.{
  Match, Signal, Phone, newer, signal_of, best_signal, match_observer,
}

-- at least as new, and at least as strong where equally new
pub record Beats (s t : Signal) : Type 0 where
  pub as_new : t.heard ≤ s.heard
  pub as_strong : t.heard ≡ s.heard → t.strength ≤ℤ s.strength

abbrev pub BeatsAny : Signal → Option Signal → Type 0
BeatsAny s none = Unit
BeatsAny s (some t) = Beats s t

newer-Beats : (s : Signal) (o : Option Signal) → Beats (newer s o) s × BeatsAny (newer s o) o
unfolding newer
newer-Beats s none = ground arith
newer-Beats s (some t) = ground arith

newer_one_of : (s t : Signal) → (newer s (some t) ≡ s) ⊎ (newer s (some t) ≡ t)
unfolding newer
newer_one_of s t = elim (Bool-cases (ltb t.heard s.heard)) [
  | inl e ↦ inl (ground arith)
  | inr e ↦ elim (Bool-cases (s.heard =ℕ t.heard)) [
    | inr f ↦ inr (ground arith)
    | inl f ↦ elim (Bool-cases (ltb_ℤ t.strength s.strength)) [
      | inl g ↦ inl (ground arith)
      | inr g ↦ inr (ground arith)
    ]
  ]
]

Beats-refl : (s : Signal) → Beats s s
Beats-refl s = ground arith

Beats-trans : (r s : Signal) (o : Option Signal) → Beats r s → BeatsAny s o → BeatsAny r o
Beats-trans r s none p q = tt
Beats-trans r s (some t) p q = ground arith

newer_first : (s : Signal) → newer s none ≡ s
unfolding newer
newer_first s = refl

module _ (rt : Runtime) (now away : ℕ) (phone : Phone) (observer_id : String) where
  -- `r` is one of the signals heard, and the strongest of the newest of them.
  pub record IsStrongest (r : Signal) (os : List Observation) : Type 0 where
    pub is_heard : Any (λ o. signal_of rt now away phone observer_id o ≡ some r) os
    pub beats : All (λ o. BeatsAny r (signal_of rt now away phone observer_id o)) os

  -- What the scan has at its end, from what it starts with.
  abbrev Found : Option Signal → List Observation → Option Signal → Type 0
  Found best os none =
      (best ≡ none) × All (λ o. signal_of rt now away phone observer_id o ≡ none) os
  Found best os (some r) =
      ((best ≡ some r) ⊎ Any (λ o. signal_of rt now away phone observer_id o ≡ some r) os)
      × BeatsAny r best
      × All (λ o. BeatsAny r (signal_of rt now away phone observer_id o)) os

  Found-skip :
      (o : Observation) (os : List Observation) (best result : Option Signal)
      → signal_of rt now away phone observer_id o ≡ none
      → Found best os result
      → Found best (o ∷ os) result
  Found-skip o os best none e (b, h) = (b, (e, h))
  Found-skip o os best (some r) e (inl b, h, hs) = (inl b, h, (rw e tt, hs))
  Found-skip o os best (some r) e (inr b, h, hs) = (inr (inr b), h, (rw e tt, hs))

  Found-add :
      (o : Observation) (os : List Observation) (s : Signal) (best result : Option Signal)
      → signal_of rt now away phone observer_id o ≡ some s
      → Found (some (newer s best)) os result
      → Found best (o ∷ os) result
  Found-add o os s best none e (b, h) = cc (b)
  Found-add o os s best (some r) e (b, h, hs) = (
    from best b,
    Beats-trans r (newer s best) best h (newer-Beats s best).1,
    (rw e (Beats-trans r (newer s best) (some s) h (newer-Beats s best).0), hs),
  )
    where
      from :
          (best' : Option Signal)
          → (some (newer s best') ≡ some r)
            ⊎ Any (λ o. signal_of rt now away phone observer_id o ≡ some r) os
          → (best' ≡ some r)
            ⊎ Any (λ o. signal_of rt now away phone observer_id o ≡ some r) (o ∷ os)
      from best' (inr m) = inr (inr m)
      from none (inl p) = inr (inl (cc (e, p, newer_first s)))
      from (some t) (inl p) = elim (newer_one_of s t) [
        | inl q ↦ inr (inl (cc (e, p, q)))
        | inr q ↦ inl (cc (p, q))
      ]

  best_signal-Found :
      (os : List Observation) (best : Option Signal)
      → Found best os (best_signal rt now away phone observer_id best os)
  unfolding best_signal
  best_signal-Found [] none = (refl, tt)
  best_signal-Found [] (some b) = (inl refl, Beats-refl b, tt)
  best_signal-Found (o ∷ os) best =
      elim (Option-cases (signal_of rt now away phone observer_id o)) [
        | inl e ↦ rw (e, best_signal) (Found-skip o os best _ e (best_signal-Found os best))
        | inr (s, e) ↦
            rw (e, best_signal)
              (Found-add o os s best _ e (best_signal-Found os (some (newer s best))))
      ]

  -- The entry for a receiver says who heard the phone and how, or that nobody did.
  abbrev pub IsMatch : ObserverState → Option Match → Type 0
  IsMatch observer none =
      (observer.online ≡ true)
      → All (λ o. signal_of rt now away phone observer_id o ≡ none) observer.observations
  IsMatch observer (some m) =
      (m.observer ≡ observer)
      × (observer.online ≡ true)
      × IsStrongest (record { strength = m.rssi; heard = m.seen }) observer.observations

abbrev entry : ObserverState → Option Signal → Option Match
entry observer none = none
entry observer (some s) = some (record { observer = observer; rssi = s.strength; seen = s.heard })

match_observer_online :
    (rt : Runtime) (now away : ℕ) (phone : Phone) (observer : ObserverState)
    → observer.online ≡ true
    → match_observer rt now away phone observer
      ≡ entry observer
          (best_signal rt now away phone observer.observer_id none observer.observations)
unfolding match_observer
match_observer_online rt now away phone observer on = ground (arith, on)

entry-IsMatch :
    (rt : Runtime) (now away : ℕ) (phone : Phone) (observer : ObserverState) (o : Option Signal)
    → observer.online ≡ true
    → Found rt now away phone observer.observer_id none observer.observations o
    → IsMatch rt now away phone observer.observer_id observer (entry observer o)
entry-IsMatch rt now away phone observer none on f = λ _. f.1
entry-IsMatch rt now away phone observer (some r) on (inl b, h, hs) = cc (b)
entry-IsMatch rt now away phone observer (some r) on (inr b, h, hs) =
    (refl, on, record { is_heard = b; beats = hs })

-- A receiver is listed exactly if it is online and hears the phone, and then with the strongest of
-- the newest signals that count: no older signal holds the strength at an old peak.
pub match_observer-IsMatch :
    (rt : Runtime) (now away : ℕ) (phone : Phone) (observer : ObserverState)
    → IsMatch rt now away phone observer.observer_id observer
        (match_observer rt now away phone observer)
unfolding match_observer
match_observer-IsMatch rt now away phone observer = elim (Bool-cases observer.online) [
  | inr off ↦ rw (off, match_observer) (λ h. cc (h))
  | inl on ↦
      subst (IsMatch rt now away phone observer.observer_id observer)
        (sym (match_observer_online rt now away phone observer on))
        (entry-IsMatch rt now away phone observer _ on
          (best_signal-Found rt now away phone observer.observer_id observer.observations none))
]
