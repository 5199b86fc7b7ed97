-- ===== src/Coordinator/Status/Budget.antt =====
-- The time budget of a pairing attempt, over single status messages and over runs of them.
use presence_bridge.Prelude.{
  ℕ, ◌≤◌, ◌||◌, List, [], ◌∷◌, Option, none, some, String, All, ◌≡◌, refl, arith, inl, inr,
  Bool-cases, Option-cases,
}
use native.Mathlib.Nat.{le_refl}
use presence_bridge.Json.{Payload, as_payload}
use presence_bridge.Runtime.{Runtime}
use presence_bridge.Coordinator.Types.{Coordinator, Session, seconds, is_member, active_states}
use presence_bridge.Coordinator.Topic.{Message, observer_id_from_topic}
use presence_bridge.Coordinator.Lease.{Leases, update_leases, lease_deadline}
use presence_bridge.Coordinator.Lease.Monotone.{Running, Running-mono, update_leases_monotone}
use presence_bridge.Coordinator.Status.{
  apply_status, session_status, orphan_status, is_from, pairing_status_message, terminal_states,
}

abbrev pub leases : Session → Leases
leases s = record { attempt = s.attempt_expires_at; completion = s.completion_expires_at }

-- `t` is the session object `s` with other leases
pub record IsSameSession (s t : Session) : Type 0 where
  pub same_handle : t.handle ≡ s.handle
  pub same_session_id : t.session_id ≡ s.session_id
  pub same_observer : t.observer_id ≡ s.observer_id
  pub same_person : t.person_entity_id ≡ s.person_entity_id
  pub same_expiry : t.expires_at ≡ s.expires_at
  pub same_processing : t.result_processing ≡ s.result_processing

-- The session after a message: gone, or the same one, its deadline not later than `d`.
abbrev pub Keeps : ℕ → Session → Option Session → Type 0
Keeps d s none = Unit
Keeps d s (some t) = IsSameSession s t × Running d (lease_deadline (leases t))

Keeps-self : (s : Session) (d : ℕ) → lease_deadline (leases s) ≡ some d → Keeps d s (some s)
Keeps-self s d h = (
  record {
    same_handle = refl;
    same_session_id = refl;
    same_observer = refl;
    same_person = refl;
    same_expiry = refl;
    same_processing = refl;
  },
  rw h (le_refl d),
)

module _ (rt : Runtime) (now : ℕ) (n : 5 ≤ seconds now) where
  apply_status-Keeps :
      (state : String) (payload : Payload) (s : Session) (c : Coordinator) (d : ℕ)
      → lease_deadline (leases s) ≡ some d
      → Keeps d s (apply_status rt now state payload s c).pairing_session
  unfolding apply_status
  apply_status-Keeps state payload s c d h = elim (Bool-cases (is_member state active_states)) [
    | inr e ↦ rw e tt
    | inl e ↦ rw e (
      record {
        same_handle = refl;
        same_session_id = refl;
        same_observer = refl;
        same_person = refl;
        same_expiry = refl;
        same_processing = refl;
      },
      unfold update_leases in update_leases_monotone (seconds now) _ _ _ (leases s) d n h,
    )
  ]

  session_status-Keeps :
      (state : String) (payload : Payload) (s : Session) (c : Coordinator) (d : ℕ)
      → c.pairing_session ≡ some s
      → lease_deadline (leases s) ≡ some d
      → Keeps d s (session_status rt now state payload s c).pairing_session
  unfolding session_status
  session_status-Keeps state payload s c d e h =
      elim (Bool-cases (is_member state active_states || is_member state terminal_states)) [
        | inl t ↦ rw t (apply_status-Keeps state payload s _ d h)
        | inr f ↦ rw (f, e) (Keeps-self s d h)
      ]

  -- One status message, whatever it says.
  pub pairing_status_message-Keeps :
      (message : Message) (s : Session) (c : Coordinator) (d : ℕ)
      → c.pairing_session ≡ some s
      → lease_deadline (leases s) ≡ some d
      → Keeps d s (pairing_status_message rt now message c).0.pairing_session
  unfolding pairing_status_message
  pairing_status_message-Keeps message s c d e h =
      elim (Option-cases (as_payload message.payload)) [
        | inl p ↦ rw (p, pairing_status_message) (rw e (Keeps-self s d h))
        | inr (payload, p) ↦
            elim (Bool-cases (is_from (observer_id_from_topic message.topic) payload s)) [
              | inl t ↦
                  rw (p, e, t, pairing_status_message) (session_status-Keeps _ payload s c d e h)
              | inr f ↦ rw (p, e, f, pairing_status_message) (rw e (Keeps-self s d h))
            ]
      ]

-- Status messages one after another, each with the time at which it is handled.
pub run_status : Runtime → List (ℕ × Message) → Coordinator → Coordinator
run_status rt [] c = c
run_status rt ((now, message) ∷ rest) c =
    run_status rt rest (pairing_status_message rt now message c).0

IsSameSession-trans : (s t u : Session) → IsSameSession s t → IsSameSession t u → IsSameSession s u
IsSameSession-trans s t u p q = ground arith

Keeps-trans :
    (s t : Session) (d e : ℕ) (o : Option Session)
    → IsSameSession s t
    → e ≤ d
    → Keeps e t o
    → Keeps d s o
Keeps-trans s t d e none p le k = tt
Keeps-trans s t d e (some u) p le k =
    (IsSameSession-trans s t u p k.0, Running-mono e d (lease_deadline (leases u)) le k.1)

gone_stays :
    (rt : Runtime) (now : ℕ) (message : Message) (c : Coordinator)
    → c.pairing_session ≡ none
    → (pairing_status_message rt now message c).0.pairing_session ≡ none
unfolding pairing_status_message orphan_status
gone_stays rt now message c e = ground arith

Running-some : (d : ℕ) (o : Option ℕ) → Running d o → (e : ℕ) × (o ≡ some e) × (e ≤ d)
Running-some d none r = absurd r
Running-some d (some e) r = (e, refl, r)

run_gone :
    (rt : Runtime) (events : List (ℕ × Message)) (c : Coordinator)
    → c.pairing_session ≡ none
    → (run_status rt events c).pairing_session ≡ none
unfolding run_status
run_gone rt [] c e = e
run_gone rt ((now, message) ∷ rest) c e =
    run_gone rt rest (pairing_status_message rt now message c).0 (gone_stays rt now message c e)

-- If the session has a lease, then after any status messages, at any times after the first five
-- seconds of 1970, it is gone or is the same session, still with a lease and with no later deadline.
pub run_status-Keeps :
    (rt : Runtime) (events : List (ℕ × Message)) (s : Session) (c : Coordinator) (d : ℕ)
    → All (λ e. 5 ≤ seconds e.0) events
    → c.pairing_session ≡ some s
    → lease_deadline (leases s) ≡ some d
    → Keeps d s (run_status rt events c).pairing_session
unfolding run_status
run_status-Keeps rt [] s c d n e h = rw e (Keeps-self s d h)
run_status-Keeps rt ((now, message) ∷ rest) s c d n e h =
    let c' = (pairing_status_message rt now message c).0 in
    let k = pairing_status_message-Keeps rt now n.0 message s c d e h in
    elim (Option-cases c'.pairing_session) [
      | inl g ↦ rw (run_gone rt rest c' g) tt
      | inr (t, g) ↦
          let kt : Keeps d s (some t) = rw g at k in
          let (e', r, le) = Running-some d (lease_deadline (leases t)) kt.1 in
          Keeps-trans s t d e' (run_status rt rest c').pairing_session kt.0 le
            (run_status-Keeps rt rest t c' e' n.1 g r)
    ]
