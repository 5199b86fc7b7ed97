-- ===== src/Coordinator/Observers/Expiry.antt =====
-- Who is online and who is home after `_expire_runtime_state`.
use presence_bridge.Prelude.{
  ℕ, ◌+◌, ◌*◌, ◌≤◌, true, false, [], ◌∷◌, Option, none, some, Dict, All, ◌≡◌, ◌↔◌, refl, arith,
}
use presence_bridge.Coordinator.Types.{Coordinator, ObserverState, IdentityState}
use presence_bridge.Coordinator.Observers.{
  expire_observer, expire_identity, expire_runtime_state, is_recent, map_values,
}

-- seen at most `timeout` seconds ago
abbrev pub SeenWithin : ℕ → ℕ → Option ℕ → Type 0
SeenWithin now timeout none = ⊥
SeenWithin now timeout (some t) = now ≤ t + timeout * 1000000

pub record IsCurrent (now timeout : ℕ) (o : ObserverState) : Type 0 where
  pub online_iff : (o.online ≡ true) ↔ SeenWithin now timeout o.last_seen
  pub offline_clear : o.online ≡ false → o.observations ≡ []

abbrev pub IsPresent : ℕ → ℕ → IdentityState → Type 0
IsPresent now timeout s = (s.is_home ≡ true) ↔ SeenWithin now timeout s.last_seen

is_recent_iff :
    (now timeout : ℕ) (t : Option ℕ) → (is_recent now timeout t ≡ true) ↔ SeenWithin now timeout t
is_recent_iff now timeout none = (λ h. ground arith, λ h. absurd h)
is_recent_iff now timeout (some t) = (λ h. ground arith, λ h. ground arith)

expire_observer-IsCurrent :
    (now timeout : ℕ) (o : ObserverState) → IsCurrent now timeout (expire_observer now timeout o)
unfolding expire_observer
expire_observer-IsCurrent now timeout o = record {
  online_iff = is_recent_iff now timeout o.last_seen;
  offline_clear = λ h. rw h refl;
}

module _ (now observer_timeout away_timeout : ℕ) where
  expire_observers :
      (d : Dict ObserverState)
      → All
          (λ e. IsCurrent now observer_timeout e.1)
          (map_values (expire_observer now observer_timeout) d)
  expire_observers [] = tt
  expire_observers ((k, o) ∷ d) =
      (expire_observer-IsCurrent now observer_timeout o, expire_observers d)

  expire_identities :
      (d : Dict IdentityState)
      → All (λ e. IsPresent now away_timeout e.1) (map_values (expire_identity now away_timeout) d)
  unfolding expire_identity
  expire_identities [] = tt
  expire_identities ((k, s) ∷ d) = (is_recent_iff now away_timeout s.last_seen, expire_identities d)

-- After `_expire_runtime_state` a receiver is online exactly if it was seen within its timeout, and
-- one that is offline has no observations; a phone is home exactly if it was seen within its timeout.
pub expire_runtime_state-IsCurrent :
    (now observer_timeout away_timeout : ℕ) (c : Coordinator)
    → let c' = expire_runtime_state now observer_timeout away_timeout c in
      All (λ e. IsCurrent now observer_timeout e.1) c'.observers
      × All (λ e. IsPresent now away_timeout e.1) c'.identity_states
unfolding expire_runtime_state
expire_runtime_state-IsCurrent now observer_timeout away_timeout c = (
  expire_observers now observer_timeout away_timeout c.observers,
  expire_identities now observer_timeout away_timeout c.identity_states,
)
