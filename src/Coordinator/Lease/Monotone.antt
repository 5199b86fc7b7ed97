-- ===== src/Coordinator/Lease/Monotone.antt =====
-- The deadline of a running attempt never moves later.
use presence_bridge.Prelude.{
  ℕ, ◌+◌, ◌≤◌, ◌<◌, Option, none, some, String, ◌≡◌, arith, ◌⊎◌, inl, inr, ◌∙◌, ap, Option-cases,
}
use native.Mathlib.Nat.{le_refl}
use presence_bridge.Json.{Value}
use presence_bridge.Coordinator.Lease.{
  Leases, accepted_attempt, accepted_completion, bounded_lease_deadline, lease_deadline,
  truthy_lease, update_leases, with_attempt, with_completion,
}

-- the lease, if there is one, is at most `d`
abbrev pub AtMost : ℕ → Option ℕ → Type 0
AtMost d none = Unit
AtMost d (some a) = a ≤ d

-- the lease, if there is one, is at most `d` and not 0
abbrev Until : ℕ → Option ℕ → Type 0
Until d none = Unit
Until d (some a) = (0 < a) × (a ≤ d)

accepted_attempt-Until :
    (now : ℕ) (code : String) (value : Value) (l : Leases)
    → 5 ≤ now
    → Until (now + 300) (accepted_attempt now code value l)
unfolding accepted_attempt bounded_lease_deadline
accepted_attempt-Until now code value l h = ground arith

accepted_attempt-Until_attempt :
    (now : ℕ) (code : String) (value : Value) (l : Leases) (a : ℕ)
    → 5 ≤ now
    → truthy_lease l.attempt ≡ some a
    → Until a (accepted_attempt now code value l)
unfolding accepted_attempt bounded_lease_deadline
accepted_attempt-Until_attempt now code value l a n h = ground arith

accepted_completion-Until_attempt :
    (now : ℕ) (code : String) (value : Value) (l : Leases) (a : ℕ)
    → 5 ≤ now
    → truthy_lease l.attempt ≡ some a
    → Until a (accepted_completion now code value l)
unfolding accepted_completion bounded_lease_deadline
accepted_completion-Until_attempt now code value l a n h = ground arith

accepted_completion-Until_completion :
    (now : ℕ) (code : String) (value : Value) (l : Leases) (c : ℕ)
    → 5 ≤ now
    → truthy_lease l.completion ≡ some c
    → Until c (accepted_completion now code value l)
unfolding accepted_completion bounded_lease_deadline
accepted_completion-Until_completion now code value l c n h = ground arith

accepted_completion-Until :
    (now : ℕ) (code : String) (value : Value) (l : Leases)
    → 5 ≤ now
    → truthy_lease l.attempt ≡ none
    → Until (now + 300) (accepted_completion now code value l)
unfolding accepted_completion bounded_lease_deadline
accepted_completion-Until now code value l n h = ground arith

-- there is a lease, and it is at most `d`
abbrev pub Running : ℕ → Option ℕ → Type 0
Running d none = ⊥
Running d (some a) = a ≤ d

pub Running-mono : (a d : ℕ) (o : Option ℕ) → a ≤ d → Running a o → Running d o
Running-mono a d none h u = u
Running-mono a d (some x) h u = omega arith

deadline-with-Running :
    (l : Leases) (oa oc : Option ℕ) (d : ℕ)
    → Running d (lease_deadline l)
    → Until d oa
    → Until d oc
    → Running d (lease_deadline (with_completion oc (with_attempt oa l)))
unfolding lease_deadline
deadline-with-Running l none none d h a c = h
deadline-with-Running l none (some x) d h a c = ground arith
deadline-with-Running l (some y) none d h a c = ground arith
deadline-with-Running l (some y) (some x) d h a c = ground arith

deadline-with :
    (l : Leases) (oa oc : Option ℕ) (d : ℕ)
    → AtMost d (lease_deadline l)
    → Until d oa
    → Until d oc
    → AtMost d (lease_deadline (with_completion oc (with_attempt oa l)))
unfolding lease_deadline
deadline-with l none none d h a c = h
deadline-with l none (some x) d h a c = ground arith
deadline-with l (some y) none d h a c = ground arith
deadline-with l (some y) (some x) d h a c = ground arith

Until-mono : (a d : ℕ) (o : Option ℕ) → a ≤ d → Until a o → Until d o
Until-mono a d none h u = tt
Until-mono a d (some x) h u = omega arith

no_attempt_after_completion :
    (now : ℕ) (code : String) (value : Value) (l : Leases) (c d : ℕ)
    → truthy_lease l.completion ≡ some c
    → Until d (accepted_attempt now code value l)
unfolding accepted_attempt
no_attempt_after_completion now code value l c d h = ground arith

truthy_positive : (a : ℕ) → 0 < a → truthy_lease (some a) ≡ some a
unfolding truthy_lease
truthy_positive a h = ground arith

module _ (now : ℕ) (code : String) (vc : Value) (l : Leases) (n : 5 ≤ now) where
  -- the completion lease stays within the attempt, as it is after the first half of the handler
  completion_within_attempt :
      (d : ℕ) (oa : Option ℕ)
      → truthy_lease l.attempt ≡ some d
      → Until d oa
      → Until d (accepted_completion now code vc (with_attempt oa l))
  completion_within_attempt d none h u = accepted_completion-Until_attempt now code vc l d n h
  completion_within_attempt d (some a) h u =
      Until-mono a d (accepted_completion now code vc (with_attempt (some a) l)) u.1 (
        accepted_completion-Until_attempt now code vc (with_attempt (some a) l) a n
          (truthy_positive a u.0))

  completion_within_completion :
      (d : ℕ) (oa : Option ℕ)
      → truthy_lease l.completion ≡ some d
      → Until d (accepted_completion now code vc (with_attempt oa l))
  completion_within_completion d none h = accepted_completion-Until_completion now code vc l d n h
  completion_within_completion d (some a) h =
      accepted_completion-Until_completion now code vc (with_attempt (some a) l) d n h

  completion_within_budget :
      (oa : Option ℕ)
      → truthy_lease l.attempt ≡ none
      → Until (now + 300) oa
      → Until (now + 300) (accepted_completion now code vc (with_attempt oa l))
  completion_within_budget none h u = accepted_completion-Until now code vc l n h
  completion_within_budget (some a) h u =
      Until-mono a (now + 300) (accepted_completion now code vc (with_attempt (some a) l)) u.1 (
        accepted_completion-Until_attempt now code vc (with_attempt (some a) l) a n
          (truthy_positive a u.0))

deadline_cases :
    (l : Leases)
    → ((truthy_lease l.attempt ≡ none) × (lease_deadline l ≡ none))
      ⊎ ((c : ℕ) × (truthy_lease l.completion ≡ some c) × (lease_deadline l ≡ some c))
      ⊎ ((a : ℕ) × (truthy_lease l.attempt ≡ some a) × (lease_deadline l ≡ some a))
unfolding lease_deadline
deadline_cases l = elim (Option-cases (truthy_lease l.completion)) [
  | inr (c, e) ↦ inr (inl (c, e, rw e))
  | inl e ↦ elim (Option-cases (truthy_lease l.attempt)) [
    | inl f ↦ inl (f, rw (e, f))
    | inr (a, f) ↦ inr (inr (a, f, rw (e, f)))
  ]
]

-- Once a lease runs, no status message moves the active deadline later, at any time after the first
-- five seconds of 1970 and with any claimed lease: there still is a deadline, and it stays or moves
-- earlier.
pub update_leases_monotone :
    (now : ℕ) (code : String) (va vc : Value) (l : Leases) (d : ℕ)
    → 5 ≤ now
    → lease_deadline l ≡ some d
    → Running d (lease_deadline (update_leases now code va vc l))
unfolding update_leases
update_leases_monotone now code va vc l d n h =
    let oa = accepted_attempt now code va l in
    let from : Running d (lease_deadline l) = rw h (le_refl d) in
    elim (deadline_cases l) [
      | inl (f, e) ↦ cc (h, e)
      | inr (inl (c, e, k)) ↦
          let p : c ≡ d = cc (h, k) in
          deadline-with-Running l oa _ d from (no_attempt_after_completion now code va l c d e)
            (completion_within_completion now code vc l n d oa (e ∙ ap some p))
      | inr (inr (a, f, k)) ↦
          let p : a ≡ d = cc (h, k) in
          let u = accepted_attempt-Until_attempt now code va l d n (f ∙ ap some p) in
          deadline-with-Running l oa _ d from u
            (completion_within_attempt now code vc l n d oa (f ∙ ap some p) u)
    ]

-- A status message that starts the attempt gives it at most five minutes, at any time after the first
-- five seconds of 1970.
pub update_leases_starts :
    (now : ℕ) (code : String) (va vc : Value) (l : Leases)
    → 5 ≤ now
    → lease_deadline l ≡ none
    → AtMost (now + 300) (lease_deadline (update_leases now code va vc l))
unfolding update_leases
update_leases_starts now code va vc l n h =
    let oa = accepted_attempt now code va l in
    let from : AtMost (now + 300) (lease_deadline l) = rw h tt in
    elim (deadline_cases l) [
      | inl (f, e) ↦
          let u = accepted_attempt-Until now code va l n in
          deadline-with l oa _ (now + 300) from u (completion_within_budget now code vc l n oa f u)
      | inr (inl (c, e, k)) ↦ cc (h, k)
      | inr (inr (a, f, k)) ↦ cc (h, k)
    ]
