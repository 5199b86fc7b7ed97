-- ===== src/Coordinator/Telemetry/Fresh.antt =====
-- The receivers of a signal reading: recent, and the strongest first.
use presence_bridge.Prelude.{
  ℕ, Bool, true, false, List, [], ◌∷◌, Option, String, ltb_ℤ, All, if◌then◌else◌, ◌≡◌, refl, arith,
}
use presence_bridge.Runtime.{Runtime}
use presence_bridge.Coordinator.Types.{Coordinator, IdentityState, within_seconds}
use presence_bridge.Coordinator.Matching.{Match}
use presence_bridge.Coordinator.Telemetry.{Reading, reading, readings, place, sort, signal_payload}

-- Each reading is at least as strong as all after it.
pub IsSorted : List Reading → Type 0
IsSorted [] = Unit {0}
IsSorted (r ∷ rest) = All (λ s. ltb_ℤ r.rssi s.rssi ≡ false) rest × IsSorted rest

pub IsRecent : ℕ → List Reading → Type 0
IsRecent now = All (λ r. within_seconds now r.sampled_at 45 ≡ true)

All-place :
    (P : Reading → Type 0) (r : Reading) (rs : List Reading) → P r → All P rs → All P (place r rs)
unfolding place
All-place P r [] p h = (p, tt)
All-place P r (s ∷ rest) p (q, h) = split (ltb_ℤ r.rssi s.rssi) (All-place P r rest p h)
  where
    split : (b : Bool) → All P (place r rest) → All P (if b then s ∷ place r rest else r ∷ s ∷ rest)
    split true k = (q, k)
    split false k = (p, (q, h))

All-readings :
    (areas : String → Option String) (now : ℕ) (ms : List Match)
    → IsRecent now (readings areas now ms)
unfolding IsRecent readings
All-readings areas now [] = tt
All-readings areas now (m ∷ ms) =
    split (within_seconds now m.seen 45) refl (All-readings areas now ms)
  where
    split :
        (b : Bool)
        → within_seconds now m.seen 45 ≡ b
        → All (λ r. within_seconds now r.sampled_at 45 ≡ true) (readings areas now ms)
        → All
            (λ r. within_seconds now r.sampled_at 45 ≡ true)
            (if b then reading areas m ∷ readings areas now ms else readings areas now ms)
    split true e h = (e, h)
    split false e h = h

All-sort : (P : Reading → Type 0) (rs : List Reading) → All P rs → All P (sort rs)
unfolding sort
All-sort P [] h = h
All-sort P (r ∷ rs) (p, h) = All-place P r (sort rs) p (All-sort P rs h)

weaker :
    (r s t : Reading)
    → ltb_ℤ r.rssi s.rssi ≡ false
    → ltb_ℤ s.rssi t.rssi ≡ false
    → ltb_ℤ r.rssi t.rssi ≡ false
weaker r s t h g = ground (arith, h, g)

All-weaker :
    (r s : Reading) (rs : List Reading)
    → ltb_ℤ r.rssi s.rssi ≡ false
    → All (λ t. ltb_ℤ s.rssi t.rssi ≡ false) rs
    → All (λ t. ltb_ℤ r.rssi t.rssi ≡ false) rs
All-weaker r s [] h g = tt
All-weaker r s (t ∷ rs) h (p, g) = (weaker r s t h p, All-weaker r s rs h g)

place-IsSorted : (r : Reading) (rs : List Reading) → IsSorted rs → IsSorted (place r rs)
unfolding place IsSorted
place-IsSorted r [] h = (tt, tt)
place-IsSorted r (s ∷ rest) (p, h) = split (ltb_ℤ r.rssi s.rssi) refl (place-IsSorted r rest h)
  where
    split :
        (b : Bool)
        → ltb_ℤ r.rssi s.rssi ≡ b
        → IsSorted (place r rest)
        → IsSorted (if b then s ∷ place r rest else r ∷ s ∷ rest)
    split true e k = (All-place (λ t. ltb_ℤ s.rssi t.rssi ≡ false) r rest (ground (arith, e)) p, k)
    split false e k = ((e, All-weaker r s rest e p), (p, h))

sort-IsSorted : (rs : List Reading) → IsSorted (sort rs)
unfolding sort IsSorted
sort-IsSorted [] = tt
sort-IsSorted (r ∷ rs) = place-IsSorted r (sort rs) (sort-IsSorted rs)

-- Every receiver of a signal reading heard the phone in the last 45 seconds, and the receivers are
-- listed from the strongest to the weakest.
pub signal_payload-IsSorted :
    (rt : Runtime) (now away_timeout : ℕ) (areas : String → Option String) (id : String)
    (state : IdentityState) (c : Coordinator)
    → IsRecent now ((signal_payload rt now away_timeout areas id state c).receivers)
      × IsSorted ((signal_payload rt now away_timeout areas id state c).receivers)
unfolding signal_payload IsRecent
signal_payload-IsSorted rt now away_timeout areas id state c = (
  All-sort (λ r. within_seconds now r.sampled_at 45 ≡ true) _ (All-readings areas now _),
  sort-IsSorted _,
)
