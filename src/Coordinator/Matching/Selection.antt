-- ===== src/Coordinator/Matching/Selection.antt =====
-- Where `_resolve_identities` shows a phone.
use presence_bridge.Prelude.{
  ℕ, ◌+◌, ◌≤◌, ltb, ltb_ℤ, Bool, true, false, List, [], ◌∷◌, Option, none, some, String, ℤ, ◌≤ℤ◌,
  pos_part, neg_part, All, Any, find?, find?-some, Any-const, Any-All, ap, All-map, All-filter,
  Any-filter, ◌≡◌, refl, arith, inl, inr, if◌then◌else◌,
}
use presence_bridge.Coordinator.Types.{IdentityState, within_seconds}
use presence_bridge.Coordinator.Matching.{
  Match, newest, strongest, choose, recent, resolve_state, show_at, equals, nearly_as_strong,
}

-- `t` is the time of an entry, and no entry is newer
abbrev IsLatest : List Match → ℕ → Type 0
IsLatest ms t = Any (λ n. n.seen ≡ t) ms × All (λ n. n.seen ≤ t) ms

newest-IsLatest : (m : Match) (ms : List Match) → IsLatest (m ∷ ms) (newest m ms)
unfolding newest
newest-IsLatest m [] = (inl refl, (omega arith, tt))
newest-IsLatest m (n ∷ rest) =
    pick (ltb m.seen n.seen) refl (newest-IsLatest n rest) (newest-IsLatest m rest)
  where
    pick :
        (b : Bool)
        → ltb m.seen n.seen ≡ b
        → IsLatest (n ∷ rest) (newest n rest)
        → IsLatest (m ∷ rest) (newest m rest)
        → IsLatest (m ∷ n ∷ rest) (newest (if b then n else m) rest)
    pick true e (a, (h, hs)) _ = (inr a, (ground arith, (h, hs)))
    pick false e _ (inl a, (h, hs)) = (inl a, (h, (ground arith, hs)))
    pick false e _ (inr a, (h, hs)) = (inr (inr a), (h, (ground arith, hs)))

-- `s` is an entry, and no entry is stronger
abbrev IsStrongest : List Match → Match → Type 0
IsStrongest ms s = Any (λ n. n ≡ s) ms × All (λ n. n.rssi ≤ℤ s.rssi) ms

strongest-IsStrongest : (m : Match) (ms : List Match) → IsStrongest (m ∷ ms) (strongest m ms)
unfolding strongest
strongest-IsStrongest m [] = (inl refl, (omega arith, tt))
strongest-IsStrongest m (n ∷ rest) =
    pick (ltb_ℤ m.rssi n.rssi) refl (strongest-IsStrongest n rest) (strongest-IsStrongest m rest)
  where
    pick :
        (b : Bool)
        → ltb_ℤ m.rssi n.rssi ≡ b
        → IsStrongest (n ∷ rest) (strongest n rest)
        → IsStrongest (m ∷ rest) (strongest m rest)
        → IsStrongest (m ∷ n ∷ rest) (strongest (if b then n else m) rest)
    pick true e (a, (h, hs)) _ = (inr a, (ground arith, (h, hs)))
    pick false e _ (inl a, (h, hs)) = (inl a, (h, (ground arith, hs)))
    pick false e _ (inr a, (h, hs)) = (inr (inr a), (h, (ground arith, hs)))

-- `n` is at most 6 dB weaker than `s`
abbrev pub NearlyAsStrong : ℤ → ℤ → Type 0
NearlyAsStrong n s = pos_part s + neg_part n ≤ pos_part n + 6 + neg_part s

-- the choice is an entry, and no entry is more than 6 dB stronger
abbrev IsChoice : List Match → Match → Type 0
IsChoice ms s = Any (λ n. n ≡ s) ms × All (λ n. NearlyAsStrong s.rssi n.rssi) ms

choose-IsChoice :
    (shown : Option String) (m : Match) (ms : List Match) → IsChoice (m ∷ ms) (choose shown m ms)
unfolding choose
choose-IsChoice shown m ms = pick (find? here (m ∷ ms)) (find?-some here (m ∷ ms))
  where
    here : Match → Bool
    here n = equals shown n.observer.observer_id

    best : Match
    best = strongest m ms

    max : IsStrongest (m ∷ ms) best
    max = strongest-IsStrongest m ms

    weaker :
        (current : Match)
        → NearlyAsStrong current.rssi best.rssi
        → All (λ n. NearlyAsStrong current.rssi n.rssi) (m ∷ ms)
    weaker current near =
        All-map (λ n. n.rssi ≤ℤ best.rssi) (λ n. NearlyAsStrong current.rssi n.rssi) (m ∷ ms)
          (λ n h. omega arith) max.1

    stay :
        (current : Match) (b : Bool)
        → nearly_as_strong current.rssi best.rssi ≡ b
        → Any (λ n. n ≡ current) (m ∷ ms)
        → IsChoice (m ∷ ms) (if b then current else best)
    stay current true e a = (a, weaker current (ground arith))
    stay current false e a = (max.0, weaker best (omega arith))

    pick :
        (o : Option Match)
        → ((x : Match) → o ≡ some x → (here x ≡ true) × Any (λ n. n ≡ x) (m ∷ ms))
        → IsChoice (m ∷ ms) (elim o [
          | none ↦ best
          | some current ↦ if nearly_as_strong current.rssi best.rssi then current else best
        ])
    pick none f = (max.0, weaker best (omega arith))
    pick (some current) f = stay current _ refl (f current refl).1

-- What a round of the resolution shows: a recent match, not more than 6 dB weaker than any recent one.
pub record IsShown (ms : List Match) (last : ℕ) (m : Match) : Type 0 where
  pub is_match : Any (λ n. n ≡ m) (recent last ms)
  pub near : All (λ n. NearlyAsStrong m.rssi n.rssi) (recent last ms)

recent-newest :
    (m : Match) (ms : List Match)
    → Any (λ n. n.seen ≡ newest m ms) (recent (newest m ms) (m ∷ ms))
      × All (λ n. n.seen ≤ newest m ms) (recent (newest m ms) (m ∷ ms))
unfolding recent
recent-newest m ms =
    let (a, h) = newest-IsLatest m ms in
    let close = λ (n : Match). within_seconds (newest m ms) n.seen 30 in
    (
      Any-filter (λ n. n.seen ≡ newest m ms) close (m ∷ ms) (λ n e. ground arith) a,
      All-filter (λ n. n.seen ≤ newest m ms) close (m ∷ ms) h,
    )

IsLatest-unique : (ms : List Match) (s t : ℕ) → IsLatest ms s → IsLatest ms t → s ≡ t
IsLatest-unique ms s t (a, h) (b, k) =
    let le : s ≤ t =
      Any-const (s ≤ t) (λ n. s ≤ t) ms (λ n x. x)
        (Any-All (λ n. n.seen ≡ s) (λ n. n.seen ≤ t) (λ n. s ≤ t) ms (λ n e f. omega arith) a k) in
    let ge : t ≤ s =
      Any-const (t ≤ s) (λ n. t ≤ s) ms (λ n x. x)
        (Any-All (λ n. n.seen ≡ t) (λ n. n.seen ≤ s) (λ n. t ≤ s) ms (λ n e f. omega arith) b h) in
    omega arith

shown_from :
    (state : IdentityState) (last : ℕ) (rs : List Match)
    → IsLatest rs last
    → (s : Match) × IsChoice rs s
      × ((elim rs [
        | [] ↦ state
        | n ∷ ns ↦ show_at (choose state.observer_id n ns) (newest n ns) state
      ])
          ≡ show_at s last state)
shown_from state last [] l = absurd l.0
shown_from state last (n ∷ ns) l =
    let e = IsLatest-unique (n ∷ ns) (newest n ns) last (newest-IsLatest n ns) l in
    (
      choose state.observer_id n ns,
      choose-IsChoice state.observer_id n ns,
      ap (λ t. show_at (choose state.observer_id n ns) t state) e,
    )

-- A phone that is heard is shown as home, last seen at its newest signal, at a receiver whose own
-- signal is at most 30 seconds older than that, and not more than 6 dB weaker than any such signal.
pub resolve_state-IsShown :
    (m : Match) (ms : List Match) (state : IdentityState)
    → (s : Match) × IsShown (m ∷ ms) (newest m ms) s
      × (resolve_state (m ∷ ms) state ≡ show_at s (newest m ms) state)
unfolding resolve_state
resolve_state-IsShown m ms state =
    let (s, c, e) =
      shown_from state (newest m ms) (recent (newest m ms) (m ∷ ms)) (recent-newest m ms) in
    (s, record { is_match = c.0; near = c.1 }, e)
