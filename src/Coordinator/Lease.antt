-- ===== src/Coordinator/Lease.antt =====
-- Deadlines of a pairing: `_pairing_deadline`, `_bounded_lease_deadline`, and the part of
-- `_pairing_status_message` that starts, shortens and keeps them.
pub mod Monotone
use presence_bridge.Prelude.{
  ℕ, ◌+◌, ◌≤◌, ◌<◌, min, ltb, leb, Bool, true, false, ◌&&◌, ◌=ℕ◌, Option, none, some, String, ℤ,
  pos, negsuc, if◌then◌else◌, ◌≡◌, arith, ◌⊎◌, inl, inr, ◌∙◌, ap, Option-cases,
}
use native.Mathlib.Nat.{le_refl}
use presence_bridge.Json.{Value, to_int}
use presence_bridge.Coordinator.Types.{
  Session, pairing_handoff_timeout, pairing_completion_timeout, handoff_codes, completion_codes,
  is_member,
}

abbrev pub or_else {ℓ} : {A : Type ℓ} → Option A → A → A
or_else none d = d
or_else (some a) d = a

-- A deadline that is missing or 0 is skipped.
unfoldable pub pairing_deadline : Session → ℕ
pairing_deadline session =
    if ltb 0 (or_else session.completion_expires_at 0)
    then or_else session.completion_expires_at 0
    else if ltb 0 (or_else session.attempt_expires_at 0)
    then or_else session.attempt_expires_at 0
    else session.expires_at

-- `now - 5 < deadline <= now + maximum + 30`. A negative deadline passes the first test only in the
-- first five seconds of 1970.
bounded : ℕ → ℕ → ℤ → Option ℕ
bounded now maximum (negsuc n) = none
bounded now maximum (pos deadline) =
    if ltb now (deadline + 5) && leb deadline (now + maximum + 30)
    then some (min deadline (now + maximum))
    else none

unfoldable pub bounded_lease_deadline : Value → ℕ → ℕ → Option ℕ
unfolding bounded
bounded_lease_deadline value now maximum = elim (to_int value) [
  | none ↦ none
  | some deadline ↦ bounded now maximum deadline
]

-- the two leases of a session
pub record Leases : Type 0 where
  pub attempt : Option ℕ
  pub completion : Option ℕ

-- `session.get(key)` in a test: a lease of 0 counts as none
unfoldable pub truthy_lease : Option ℕ → Option ℕ
truthy_lease none = none
truthy_lease (some a) = if a =ℕ 0 then none else some a

abbrev is_none : Option ℕ → Bool
is_none none = true
is_none (some a) = false

-- The attempt lease that a status message gives: its own, or a new one at the first handoff code.
attempt_offer : ℕ → String → Value → Leases → Option ℕ
unfolding truthy_lease
attempt_offer now code value l = elim (bounded_lease_deadline value now pairing_handoff_timeout) [
  | some a ↦ some a
  | none ↦
      if is_member code handoff_codes
        && is_none (truthy_lease l.attempt)
        && is_none (truthy_lease l.completion)
      then some (now + pairing_handoff_timeout)
      else none
]

-- The attempt lease as it is stored: never later than the one before, none once completion started.
unfoldable pub accepted_attempt : ℕ → String → Value → Leases → Option ℕ
unfolding attempt_offer
accepted_attempt now code value l =
    let offer = attempt_offer now code value l in
    if is_none (truthy_lease l.completion)
    then elim offer [ none ↦ none | some a ↦ some (min a (or_else (truthy_lease l.attempt) a)) ]
    else none

-- `attempt_expires_at` of the session after the first half of the handler
abbrev pub with_attempt : Option ℕ → Leases → Leases
with_attempt none l = l
with_attempt (some a) l = record l { attempt = some a }

completion_offer : ℕ → String → Value → Leases → Option ℕ
unfolding truthy_lease
completion_offer now code value l =
    elim (bounded_lease_deadline value now pairing_completion_timeout) [
      | some c ↦ some c
      | none ↦
          if is_member code completion_codes && is_none (truthy_lease l.completion)
          then some (or_else (truthy_lease l.attempt) (now + pairing_completion_timeout))
          else none
    ]

-- The completion lease as it is stored: never past the attempt, nor past the one before.
unfoldable pub accepted_completion : ℕ → String → Value → Leases → Option ℕ
unfolding completion_offer
accepted_completion now code value l = elim (completion_offer now code value l) [
  | none ↦ none
  | some c ↦
      some
        (min (min c (or_else (truthy_lease l.attempt) c)) (or_else (truthy_lease l.completion) c))
]

abbrev pub with_completion : Option ℕ → Leases → Leases
with_completion none l = l
with_completion (some c) l = record l { completion = some c }

-- What one status message does to the leases.
unfoldable pub update_leases : ℕ → String → Value → Value → Leases → Leases
update_leases now code attempt_value completion_value l =
    let l' = with_attempt (accepted_attempt now code attempt_value l) l in
    with_completion (accepted_completion now code completion_value l') l'

-- the active deadline, as `pairing_deadline` reads it, where there is one
unfoldable pub lease_deadline : Leases → Option ℕ
unfolding truthy_lease
lease_deadline l =
    if is_none (truthy_lease l.completion)
    then truthy_lease l.attempt
    else truthy_lease l.completion
