-- ===== src/Windows/Scan/Snapshot.antt =====
-- What the receiver publishes of its scan: bounded, recent, and the strongest first.
use presence_bridge.Prelude.{
  ℕ, zero, suc, ◌≤◌, Bool, true, false, List, [], ◌∷◌, Dict, filter, take, length, length-take-le,
  ltb_ℤ, All, All-take, All-map, if◌then◌else◌, ◌≡◌, refl, arith,
}
use presence_bridge.Coordinator.Pairing.{values}
use presence_bridge.Windows.Scan.{Row, Scan, is_recent, keep_recent, place, sort, publish_snapshot}

-- Each row is at least as strong as all after it.
pub IsSorted : List Row → Type 0
IsSorted [] = Unit {0}
IsSorted (r ∷ rest) = All (λ s. ltb_ℤ r.rssi s.rssi ≡ false) rest × IsSorted rest

All-place : (P : Row → Type 0) (r : Row) (rs : List Row) → P r → All P rs → All P (place r rs)
unfolding place
All-place P r [] p h = (p, tt)
All-place P r (s ∷ rest) p (q, h) = at (ltb_ℤ r.rssi s.rssi) (All-place P r rest p h)
  where
    at : (b : Bool) → All P (place r rest) → All P (if b then s ∷ place r rest else r ∷ s ∷ rest)
    at true k = (q, k)
    at false k = (p, (q, h))

All-sort : (P : Row → Type 0) (rs : List Row) → All P rs → All P (sort rs)
unfolding sort
All-sort P [] h = h
All-sort P (r ∷ rs) (p, h) = All-place P r (sort rs) p (All-sort P rs h)

place-IsSorted : (r : Row) (rs : List Row) → IsSorted rs → IsSorted (place r rs)
unfolding place IsSorted
place-IsSorted r [] h = (tt, tt)
place-IsSorted r (s ∷ rest) (p, h) = at (ltb_ℤ r.rssi s.rssi) refl (place-IsSorted r rest h)
  where
    at :
        (b : Bool)
        → ltb_ℤ r.rssi s.rssi ≡ b
        → IsSorted (place r rest)
        → IsSorted (if b then s ∷ place r rest else r ∷ s ∷ rest)
    at true e k = (All-place (λ t. ltb_ℤ s.rssi t.rssi ≡ false) r rest (ground (arith, e)) p, k)
    at false e k = (
      (
        e,
        All-map (λ t. ltb_ℤ s.rssi t.rssi ≡ false) (λ t. ltb_ℤ r.rssi t.rssi ≡ false) rest
            (λ t q. ground (arith, e, q)) p,
      ),
      (p, h),
    )

sort-IsSorted : (rs : List Row) → IsSorted (sort rs)
unfolding sort IsSorted
sort-IsSorted [] = tt
sort-IsSorted (r ∷ rs) = place-IsSorted r (sort rs) (sort-IsSorted rs)

take-IsSorted : (n : ℕ) (rs : List Row) → IsSorted rs → IsSorted (take n rs)
unfolding IsSorted
take-IsSorted zero rs h = tt
take-IsSorted (suc n) [] h = tt
take-IsSorted (suc n) (r ∷ rs) (p, h) = (All-take _ n rs p, take-IsSorted n rs h)

keep_recent-All :
    (now ttl : ℕ) (d : Dict Row)
    → All (λ row. is_recent now ttl row ≡ true) (values (keep_recent now ttl d))
unfolding keep_recent
keep_recent-All now ttl [] = tt
keep_recent-All now ttl ((k, row) ∷ d) = at (is_recent now ttl row) refl (keep_recent-All now ttl d)
  where
    P : Row → Type 0
    P r = is_recent now ttl r ≡ true

    at :
        (b : Bool)
        → is_recent now ttl row ≡ b
        → All P (values (filter (λ (_, r). is_recent now ttl r) d))
        → All P (
            values (
              if b
              then (k, row) ∷ filter (λ (_, r). is_recent now ttl r) d
              else filter (λ (_, r). is_recent now ttl r) d))
    at true e h = (e, h)
    at false e h = h

-- What holds of a snapshot.
pub record IsSnapshot (now ttl max_observations : ℕ) (rows : List Row) (scan : Scan) : Type 0 where
  pub bounded : length rows ≤ max_observations
  pub recent : All (λ row. is_recent now ttl row ≡ true) rows
  pub sorted : IsSorted rows
  pub kept_recent : All (λ row. is_recent now ttl row ≡ true) (values scan.observations)

-- A snapshot has at most as many rows as the receiver may publish, all seen within the observation's
-- lifetime, the strongest first; and the receiver forgets all older observations.
pub publish_snapshot-IsSnapshot :
    (now ttl max_observations : ℕ) (scan : Scan)
    → IsSnapshot now ttl max_observations
        (publish_snapshot now ttl max_observations scan).0
        (publish_snapshot now ttl max_observations scan).1
unfolding publish_snapshot
publish_snapshot-IsSnapshot now ttl n scan =
    let kept = values (keep_recent now ttl scan.observations) in
    let recent = keep_recent-All now ttl scan.observations in
    record {
      bounded = length-take-le n (sort kept);
      recent = All-take _ n (sort kept) (All-sort _ kept recent);
      sorted = take-IsSorted n (sort kept) (sort-IsSorted kept);
      kept_recent = recent;
    }
