-- ===== src/Windows/Progress/Leased.antt =====
-- The lease of an attempt only shrinks.
use presence_bridge.Prelude.{
  ℕ, ◌+◌, ◌*◌, ◌≤◌, ◌<◌, ◌=ℕ◌, min, Bool, true, false, Option, none, some, String, if◌then◌else◌,
  ◌≡◌, ◌⊎◌, inl, inr, refl, arith, ap,
}
use presence_bridge.Windows.State.{Observer}
use presence_bridge.Windows.Progress.{
  Lease, or_deadline, least_lease, lease_after, publish_progress,
}

-- What a report does to the lease that is held.
pub data IsLeased (now : ℕ) : Option ℕ → Option ℕ → Type 0 where
  kept : (held : Option ℕ) → IsLeased now held held
  opened :
      (held : Option ℕ) (a : ℕ)
      → (held ≡ none) ⊎ (held ≡ some 0)
      → a ≤ now + 300000000
      → IsLeased now held (some a)
  shortened : (h a : ℕ) → 0 < h → a ≤ h → a ≤ now + 300000000 → IsLeased now (some h) (some a)

least_lease-IsLeased :
    (now bounded : ℕ) (held : Option ℕ)
    → bounded ≤ now + 300000000
    → IsLeased now held (some (least_lease held bounded))
least_lease-IsLeased now b none h = opened none b (inl refl) h
least_lease-IsLeased now b (some a) h = at (a =ℕ 0) refl
  where
    at : (c : Bool) → a =ℕ 0 ≡ c → IsLeased now (some a) (some (if c then b else min a b))
    at true e = opened (some a) b (inr (ap some (ground (arith, e)))) h
    at false e = shortened a (min a b) (ground (arith, e)) (omega arith) (omega (arith, h))

-- A report of progress leaves the lease of the attempt, or opens one that ends within five minutes,
-- or shortens the one that there is; it never makes it longer.
pub publish_progress-IsLeased :
    (now : ℕ) (session_id : String) (expires_at : ℕ) (code message : String) (lease : Lease)
    (o : Observer)
    → IsLeased now o.attempt_expires_at
        (publish_progress now session_id expires_at code message lease o).1.attempt_expires_at
unfolding publish_progress lease_after
publish_progress-IsLeased now session_id expires_at code message lease o =
    go (or_deadline lease.attempt_expires_at lease.completion_expires_at)
  where
    held : Option ℕ
    held = o.attempt_expires_at

    at :
        (b : Bool) (s : ℕ)
        → IsLeased now held
            (if b then held else some (least_lease held (min (s * 1000000) (now + 300000000))))
    at true s = kept held
    at false s = least_lease-IsLeased now (min (s * 1000000) (now + 300000000)) held (omega arith)

    go :
        (m : Option ℕ)
        → IsLeased now held (elim m [
          | none ↦ held
          | some s ↦
              if s =ℕ 0 then held else some (least_lease held (min (s * 1000000) (now + 300000000)))
        ])
    go none = kept held
    go (some s) = at (s =ℕ 0) s
