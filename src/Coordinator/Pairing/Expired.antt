-- ===== src/Coordinator/Pairing/Expired.antt =====
-- A pairing past its deadline is cancelled by the periodic check.
use presence_bridge.Prelude.{
  ℕ, ◌<◌, leb, Bool, true, false, Option, none, some, ok, if◌then◌else◌, ◌≡◌, refl, arith, ap, sym,
  subst, ◌∙◌,
}
use presence_bridge.Runtime.{Runtime}
use presence_bridge.Coordinator.Types.{Session, seconds}
use presence_bridge.Coordinator.Lease.{pairing_deadline}
use presence_bridge.Coordinator.Action.{World, Env, publish, >>=-ok}
use presence_bridge.Coordinator.Pairing.{cancel_pairing, refresh_pairing, refresh_session, time_out}

-- There is no session, or one that still has time.
pub data IsLive (now : ℕ) : Option Session → Type 0 where
  idle : IsLive now none
  in_time : (s : Session) → seconds now < pairing_deadline s → IsLive now (some s)

cancel_pairing-none :
    (rt : Runtime) (env : Env) (w w' : World) (u : Unit {0})
    → cancel_pairing rt env w ≡ (ok u, w')
    → w'.coordinator.pairing_session ≡ none
unfolding cancel_pairing publish
cancel_pairing-none rt env w w' u h = ground arith

time_out-none :
    (rt : Runtime) (env : Env) (s : Session) (w w' : World) (u : Unit {0})
    → time_out rt env s w ≡ (ok u, w')
    → w'.coordinator.pairing_session ≡ none
unfolding time_out
time_out-none rt env s w w' u h =
    let (t, v, cancelled, e) = >>=-ok (cancel_pairing rt env) _ w h in
    sym (ap (λ r. r.1.coordinator.pairing_session) e) ∙ cancel_pairing-none rt env w v t cancelled

-- After a periodic check that returns no session is open whose deadline has passed.
pub refresh_pairing-IsLive :
    (rt : Runtime) (env : Env) (w w' : World) (u : Unit {0})
    → refresh_pairing rt env w ≡ (ok u, w')
    → IsLive env.now w'.coordinator.pairing_session
unfolding refresh_pairing refresh_session
refresh_pairing-IsLive rt env w w' u h = go w.coordinator.pairing_session refl h
  where
    checked :
        (s : Session) (b : Bool)
        → w.coordinator.pairing_session ≡ some s
        → leb (pairing_deadline s) (seconds env.now) ≡ b
        → (if b then time_out rt env s w else (ok tt, w)) ≡ (ok u, w')
        → IsLive env.now w'.coordinator.pairing_session
    checked s true e l g = subst (IsLive env.now) (sym (time_out-none rt env s w w' u g)) idle
    checked s false e l g =
        subst (IsLive env.now) (sym e ∙ ap (λ r. r.1.coordinator.pairing_session) g)
          (in_time s (ground (arith, l)))

    go :
        (m : Option Session)
        → w.coordinator.pairing_session ≡ m
        → refresh_session rt env m w ≡ (ok u, w')
        → IsLive env.now w'.coordinator.pairing_session
    go none e g = subst (IsLive env.now) (sym e ∙ ap (λ r. r.1.coordinator.pairing_session) g) idle
    go (some s) e g = checked s _ e refl g
