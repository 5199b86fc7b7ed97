-- ===== src/Coordinator/Pairing/Opened.antt =====
-- What a call of `async_start_pairing` that returns has done.
use presence_bridge.Prelude.{
  ℕ, ◌+◌, ◌≤◌, Bool, true, false, List, [], ◌∷◌, ◌++◌, Option, none, some, String, eq_iff, ok, ℤ,
  pos, negsuc, Dict, ◌≡◌, refl, arith, sym, ap, ◌∙◌, ◌⊎◌, inl, inr, if◌then◌else◌,
}
use presence_bridge.Json.{Value}
use presence_bridge.Runtime.{Runtime}
use presence_bridge.Coordinator.Types.{Session, ObserverState, seconds}
use presence_bridge.Coordinator.Action.{
  World, Env, Act, Command, start_app_pairing, publish, >>=-ok, ◌>>=◌,
}
use presence_bridge.Coordinator.Pairing.{
  open_session, start_pairing, cancel_pairing, clamp_timeout, select_observer, reusable,
  is_reusable, new_session, start_checked, start_selected, existing_person,
}
use presence_bridge.Coordinator.Pairing.Selected.{IsSelected, select_observer-IsSelected}

-- A session as it is opened: for this person and receiver, with no lease yet.
pub record IsOpened (env : Env) (person : String) (o : ObserverState) (timeout : ℕ) (s : Session)
    : Type 0 where
  pub for_person : s.person_entity_id ≡ person
  pub at_observer : s.observer_id ≡ o.observer_id
  pub is_new : s.session_id ≡ env.token
  pub expires : s.expires_at ≡ seconds env.now + timeout
  pub no_attempt : s.attempt_expires_at ≡ none
  pub no_completion : s.completion_expires_at ≡ none
  pub not_processing : s.result_processing ≡ false

clamp_timeout_bounds : (t : ℤ) → (60 ≤ clamp_timeout t) × (clamp_timeout t ≤ 600)
unfolding clamp_timeout
clamp_timeout_bounds (pos n) = omega arith
clamp_timeout_bounds (negsuc n) = omega arith

open_session-IsOpened :
    (rt : Runtime) (env : Env) (person name : String) (o : ObserverState) (timeout : ℕ)
    (w w' : World) (p : Dict Value)
    → open_session rt env person name o timeout w ≡ (ok p, w')
    → (s : Session) × (w'.coordinator.pairing_session ≡ some s)
      × IsOpened env person o timeout s
      × (w'.outbox
          ≡ w.outbox
            ++ (
              o.observer_id,
              start_app_pairing env.token o.observer_id
                  (seconds env.now + timeout)
                  timeout
                  env.secret,
            )
              ∷ [])
unfolding open_session publish
open_session-IsOpened rt env person name o timeout w w' p h = (
  new_session env person name o.observer_id timeout w.coordinator.next_handle,
  ground arith,
  record {
    for_person = refl;
    at_observer = refl;
    is_new = refl;
    expires = refl;
    no_attempt = refl;
    no_completion = refl;
    not_processing = refl;
  },
  ground arith,
)

-- What a call that returned has made of the world.
pub record IsStarted (env : Env) (person : String) (o : ObserverState) (timeout : ℕ) (w w' : World)
    : Type 0 where
  pub session : Session
  pub is_current : w'.coordinator.pairing_session ≡ some session
  pub for_person : session.person_entity_id ≡ person
  pub at_observer : session.observer_id ≡ o.observer_id
  pub is_reused_or_new :
      (w' ≡ w)
      ⊎ (IsOpened env person o timeout session
          × (sent : List (String × Command)) × (w'.outbox
              ≡ sent
                ++ (
                  o.observer_id,
                  start_app_pairing env.token o.observer_id
                      (seconds env.now + timeout)
                      timeout
                      env.secret,
                )
                  ∷ []))

is_reusable-target :
    (env : Env) (person observer_id : String) (force : Bool) (s : Session)
    → is_reusable env person observer_id force s ≡ true
    → (s.person_entity_id ≡ person) × (s.observer_id ≡ observer_id)
unfolding is_reusable
is_reusable-target env person observer_id force s h =
    ground (arith, eq_iff s.person_entity_id person, eq_iff s.observer_id observer_id)

start_selected-IsStarted :
    (rt : Runtime) (env : Env) (person name : String) (timeout : ℕ) (force : Bool)
    (o : ObserverState) (w w' : World) (p : Dict Value)
    → start_selected rt env person timeout force name o w ≡ (ok p, w')
    → IsStarted env person o timeout w w'
unfolding start_selected
start_selected-IsStarted rt env person name timeout force o w w' p h =
    go (reusable env person o.observer_id force w.coordinator.pairing_session) refl h
  where
    fresh : Act (Dict Value)
    fresh v = open_session rt env person name o timeout v

    next : Unit {0} → Act (Dict Value)
    next _ v =
        fresh (record v { coordinator = record (v.coordinator) { bond_repair_offer = none } })

    opened :
        (u : Unit {0}) (v : World) → next u v ≡ (ok p, w') → IsStarted env person o timeout w w'
    opened u v e =
        let v' : World = record v {
          coordinator = record (v.coordinator) { bond_repair_offer = none };
        } in
        let (s, is, new, out) = open_session-IsOpened rt env person name o timeout v' w' p e in
        record {
          session = s;
          is_current = is;
          for_person = new.for_person;
          at_observer = new.at_observer;
          is_reused_or_new = inr (new, v.outbox, out);
        }

    kept :
        (m : Option Session)
        → w.coordinator.pairing_session ≡ m
        → reusable env person o.observer_id force m ≡ true
        → w ≡ w'
        → IsStarted env person o timeout w w'
    kept none e t same = cc (t)
    kept (some s) e t same = record {
      session = s;
      is_current = ap (λ v. v.coordinator.pairing_session) (sym same) ∙ e;
      for_person = (is_reusable-target env person o.observer_id force s t).0;
      at_observer = (is_reusable-target env person o.observer_id force s t).1;
      is_reused_or_new = inl (sym same);
    }

    go :
        (b : Bool)
        → reusable env person o.observer_id force w.coordinator.pairing_session ≡ b
        → (if b then (ok w.coordinator.pairing_public, w) else (cancel_pairing rt env >>= next) w)
          ≡ (ok p, w')
        → IsStarted env person o timeout w w'
    go true e g = kept w.coordinator.pairing_session refl e (cc (g))
    go false e g = let (u, v, _, r) = >>=-ok (cancel_pairing rt env) next w g in opened u v r

-- After a call that returns there is a session for that person, at a receiver that the request
-- selects: one that is online, supports app pairing and is the one asked for, if one is. Either
-- nothing changed, or the session is new: it has no lease yet, it expires after one to ten
-- minutes, and the last command that was published starts it.
pub start_pairing-IsOpened :
    (rt : Runtime) (env : Env) (person requested : String) (t : ℤ) (force : Bool) (w w' : World)
    (p : Dict Value)
    → start_pairing rt env person requested t force w ≡ (ok p, w')
    → (o : ObserverState) × IsSelected requested w.coordinator.observers o
      × (60 ≤ clamp_timeout t)
      × (clamp_timeout t ≤ 600)
      × IsStarted env person o (clamp_timeout t) w w'
unfolding start_pairing start_checked
start_pairing-IsOpened rt env person requested t force w w' p h =
    go (existing_person env person) (select_observer rt requested w.coordinator.observers) refl h
  where
    go :
        (m : Option String) (n : Option ObserverState)
        → select_observer rt requested w.coordinator.observers ≡ n
        → start_checked (start_selected rt env person (clamp_timeout t) force) m n w ≡ (ok p, w')
        → (o : ObserverState) × IsSelected requested w.coordinator.observers o
          × (60 ≤ clamp_timeout t)
          × (clamp_timeout t ≤ 600)
          × IsStarted env person o (clamp_timeout t) w w'
    go none n f g = cc (g)
    go (some name) none f g = cc (g)
    go (some name) (some o) f g = (
      o,
      select_observer-IsSelected rt requested w.coordinator.observers o f,
      (clamp_timeout_bounds t).0,
      (clamp_timeout_bounds t).1,
      start_selected-IsStarted rt env person name (clamp_timeout t) force o w w' p g,
    )
