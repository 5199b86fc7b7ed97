-- ===== src/Signals/Limited.antt =====
-- An identity is read at most once in a second, whatever else is read meanwhile.
use presence_bridge.Prelude.{
  ℕ, ◌+◌, ◌<◌, ltb, Bool, true, false, List, [], ◌∷◌, Option, none, some, String, Dict, lookup,
  insert, lookup-insert, eq_iff, All, if◌then◌else◌, ◌≡◌, ◌==◌, Bool-cases, inl, inr, refl, arith,
  sym, ap, subst, ◌∙◌, ◌≢◌,
}
use presence_bridge.Runtime.{Runtime}
use presence_bridge.Coordinator.Types.{Coordinator, IdentityRow}
use presence_bridge.Coordinator.Removal.Answers.{lookup-inserted}
use presence_bridge.Signals.{
  Reply, signal, too_many_requests, authorized, last_read, limited_read, recent_reads, get,
}

-- A request to read: the clocks, the token, and what the coordinator has then.
pub record Reading : Type 0 where
  pub clock : ℕ
  pub now : ℕ
  pub token : String
  pub coordinator : Coordinator

-- The times of the last reads after these requests.
unfoldable pub reads_after : Runtime → List Reading → Dict ℕ → Dict ℕ
reads_after rt [] reads = reads
reads_after rt (q ∷ qs) reads =
    reads_after rt qs (get rt q.clock q.now q.token q.coordinator reads).1

read_at :
    (now : ℕ) (m : Option (String × IdentityRow)) (reads reads' : Dict ℕ) (id : String)
    → limited_read now m reads ≡ (signal id, reads')
    → (lookup id reads' ≡ some now) × (ltb now (last_read (lookup id reads) + 1000000) ≡ false)
unfolding limited_read
read_at now none reads reads' id h = cc (h)
read_at now (some (k, row)) reads reads' id h =
    split (ltb now (last_read (lookup k reads) + 1000000)) refl h
  where
    split :
        (b : Bool)
        → ltb now (last_read (lookup k reads) + 1000000) ≡ b
        → ◌≡◌ {A = Reply × Dict ℕ}
            (if b
              then (too_many_requests, reads)
              else (signal k, insert k now (recent_reads now reads)))
            (signal id, reads')
        → (lookup id reads' ≡ some now) × (ltb now (last_read (lookup id reads) + 1000000) ≡ false)
    split true e g = cc (g)
    split false e g =
        let same : k ≡ id = cc (g) in
        let after : insert k now (recent_reads now reads) ≡ reads' = cc (g) in
        (
          subst (λ r. lookup id r ≡ some now) after
              (rw (sym same) (lookup-inserted k now (recent_reads now reads))),
          rw (sym same) e,
        )

recent_reads-kept :
    (t now : ℕ) (id : String) (reads : Dict ℕ)
    → t < now + 1000000
    → lookup id reads ≡ some now
    → lookup id (recent_reads t reads) ≡ some now
unfolding recent_reads lookup
recent_reads-kept t now id [] lt h = cc (h)
recent_reads-kept t now id ((k, u) ∷ reads) lt h =
    ground (arith, lt, h, eq_iff k id, recent_reads-kept t now id reads lt)

-- A read less than a second later leaves the time of this identity's read.
limited_read-kept :
    (t now : ℕ) (id : String) (m : Option (String × IdentityRow)) (reads : Dict ℕ)
    → t < now + 1000000
    → lookup id reads ≡ some now
    → lookup id (limited_read t m reads).1 ≡ some now
unfolding limited_read
limited_read-kept t now id none reads lt h = h
limited_read-kept t now id (some (k, row)) reads lt h =
    split (ltb t (last_read (lookup k reads) + 1000000)) refl
  where
    split :
        (b : Bool)
        → ltb t (last_read (lookup k reads) + 1000000) ≡ b
        → (let r : Reply × Dict ℕ =
              if b
              then (too_many_requests, reads)
              else (signal k, insert k t (recent_reads t reads)) in
            lookup id r.1 ≡ some now)
    split true e = h
    split false e =
        let kept = recent_reads-kept t now id reads lt h in
        let inserted = lookup-insert k id t (recent_reads t reads) in
        elim (Bool-cases (k == id)) [
          | inl same ↦
              let q : lookup k reads ≡ some now =
                ap (λ i. lookup i reads) ((eq_iff k id).0 same) ∙ h in
              absurd (ground (arith, q, e, lt))
          | inr other ↦ rw (inserted, other) kept
        ]

reads_after-kept :
    (rt : Runtime) (now : ℕ) (id : String) (qs : List Reading) (reads : Dict ℕ)
    → All (λ q. q.now < now + 1000000) qs
    → lookup id reads ≡ some now
    → lookup id (reads_after rt qs reads) ≡ some now
unfolding reads_after get
reads_after-kept rt now id [] reads lts h = h
reads_after-kept rt now id (q ∷ qs) reads (lt, lts) h =
    reads_after-kept rt now id qs _ lts (limited_read-kept q.now now id _ reads lt h)

-- An identity that was read is not read again within a second, whatever tokens are used and whatever
-- is read in between: a read that is answered within a second of another, after any requests in that
-- second, is of another identity.
pub get-limited :
    (rt : Runtime) (clock clock' now now' : ℕ) (token token' id id' : String) (c c' : Coordinator)
    (qs : List Reading) (reads reads' reads'' : Dict ℕ)
    → get rt clock now token c reads ≡ (signal id, reads')
    → All (λ q. q.now < now + 1000000) qs
    → now' < now + 1000000
    → get rt clock' now' token' c' (reads_after rt qs reads') ≡ (signal id', reads'')
    → id' ≢ id
unfolding get
get-limited rt clock clock' now now' token token' id id' c c' qs reads reads' reads'' h lts lt g
      same =
    let (was, _) =
      read_at now (authorized rt clock token (λ r. r.monitor_access) c.identity_states c.identities)
        reads reads' id h in
    let (_, late) =
      read_at now'
        (authorized rt clock' token' (λ r. r.monitor_access) c'.identity_states c'.identities)
        (reads_after rt qs reads') reads'' id' g in
    let seen : lookup id' (reads_after rt qs reads') ≡ some now =
      ap (λ i. lookup i (reads_after rt qs reads')) same
      ∙ reads_after-kept rt now id qs reads' lts was in
    ground (arith, lt, late, seen)
