-- ===== src/Windows/Broker/Onward.antt =====
-- A turn of the wait that goes on keeps the deadline within bounds.
use presence_bridge.Prelude.{
  ℕ, ◌+◌, ◌≤◌, ◌<◌, leb, Bool, true, false, Option, none, some, String, if◌then◌else◌, ◌≡◌, inl,
  inr, refl, arith, ◌∙◌, subst,
}
use presence_bridge.Json.{Payload, get, is_text, text_at}
use presence_bridge.Runtime.{Runtime}
use presence_bridge.Coordinator.Types.{seconds}
use presence_bridge.Windows.Broker.{
  File, absent, report, Look, timed_out, Waiting, again, ended, seconds_at, least_positive,
  attempt_after, is_leased, leased, unless_late, code_of, act, own_report, turn,
}
use presence_bridge.Windows.Broker.Turns.{
  IsHeld, IsLeasedFrom, leased-IsLeasedFrom, IsSame, act-IsSame,
}

-- What a turn of the loop does when it goes on.
pub data IsOnward (mono : ℕ) (w w' : Waiting) : Type 0 where
  still_open :
      w.attempt ≡ none
      → w'.attempt ≡ none
      → w'.deadline ≡ w.deadline
      → mono < w.deadline
      → IsOnward mono w w'
  opened :
      (a : ℕ)
      → w.attempt ≡ none
      → w'.attempt ≡ some a
      → 0 < a
      → is_leased w'.lease ≡ true
      → w'.deadline ≤ mono + 300000000
      → mono < w'.deadline
      → IsOnward mono w w'
  shortened :
      (a b : ℕ)
      → w.attempt ≡ some a
      → w'.attempt ≡ some b
      → 0 < b
      → is_leased w'.lease ≡ true
      → w'.deadline ≤ w.deadline
      → mono < w'.deadline
      → IsOnward mono w w'

-- A look that the loop takes into account: no file yet, or a report of this session.
pub data IsOwn (session_id : String) : File → Type 0 where
  not_there : IsOwn session_id absent
  own :
      (payload : Payload)
      → is_text (get "session_id" payload) session_id ≡ true
      → IsOwn session_id (report payload)

pub IsOnward-IsHeld : (mono : ℕ) (w w' : Waiting) → IsOnward mono w w' → IsHeld w'.attempt w'.lease
unfolding IsHeld
IsOnward-IsHeld mono w w' (still_open e f d l) = rw (f) tt
IsOnward-IsHeld mono w w' (opened a e f p l d q) = rw (f) (p, l)
IsOnward-IsHeld mono w w' (shortened a b e f p l d q) = rw (f) (p, l)

module _ (rt : Runtime) (receipt : Bool) (session_id : String) where
  IsSame-IsOnward :
      (mono : ℕ) (w w' w'' : Waiting)
      → IsLeasedFrom mono w w'
      → leb w'.deadline mono ≡ false
      → IsSame w' w''
      → IsOnward mono w w''
  unfolding IsLeasedFrom
  IsSame-IsOnward mono w w' w'' (inl (e, f, d)) l s =
      still_open e (s.same_attempt ∙ f) (s.same_deadline ∙ d) (ground (arith, l, d))
  IsSame-IsOnward mono w w' w'' (inr (a, f, p, g, inl (e, d))) l s =
      opened a e (s.same_attempt ∙ f) p (s.still_held a f (rw (g) (ground (arith, p))))
        (ground (arith, s.same_deadline, d)) (ground (arith, s.same_deadline, l))
  IsSame-IsOnward mono w w' w'' (inr (a, f, p, g, inr (b, e, d))) l s =
      shortened b a e (s.same_attempt ∙ f) p (s.still_held a f (rw (g) (ground (arith, p))))
        (ground (arith, s.same_deadline, d)) (ground (arith, s.same_deadline, l))

  own_report-IsOnward :
      (look : Look) (payload : Payload) (w w' : Waiting)
      → IsHeld w.attempt w.lease
      → own_report rt receipt session_id look payload w ≡ again w'
      → IsOnward look.mono w w'
  unfolding own_report
  own_report-IsOnward look payload w w' h g = go (leb updated.deadline look.mono) refl g
    where
      least : ℕ
      least =
          least_positive (seconds_at "attempt_expires_at" payload)
            (seconds_at "completion_expires_at" payload)

      updated : Waiting
      updated =
          leased look
            (attempt_after (seconds look.epoch) (code_of rt receipt session_id payload) least
              w.attempt)
            w

      go :
          (b : Bool)
          → leb updated.deadline look.mono ≡ b
          → (if b
              then ended timed_out
              else act rt receipt session_id look payload (text_at rt.repr "state" payload) updated)
            ≡ again w'
          → IsOnward look.mono w w'
      go true e f = cc (f)
      go false e f =
          IsSame-IsOnward look.mono w updated w'
            (leased-IsLeasedFrom look (code_of rt receipt session_id payload) least w h) e
            (act-IsSame rt receipt session_id look payload (text_at rt.repr "state" payload) updated
              w' f)

  unless_late-IsOnward :
      (look : Look) (w w' : Waiting)
      → IsHeld w.attempt w.lease
      → unless_late look w ≡ again w'
      → IsOnward look.mono w w'
  unfolding IsHeld
  unless_late-IsOnward look w w' h g = go (leb w.deadline look.mono) w.attempt refl refl g
    where
      onward : (m : Option ℕ) → w.attempt ≡ m → look.mono < w.deadline → IsOnward look.mono w w
      onward none e l = still_open e e refl l
      onward (some a) e l =
          let (p, k) : (0 < a) × (is_leased w.lease ≡ true) = subst (λ m. IsHeld m w.lease) e h in
          shortened a a e e p k (omega arith) l

      go :
          (b : Bool) (m : Option ℕ)
          → leb w.deadline look.mono ≡ b
          → w.attempt ≡ m
          → (if b then ended timed_out else again w) ≡ again w'
          → IsOnward look.mono w w'
      go true m e f k = cc (k)
      go false m e f k =
          let same : w ≡ w' = cc (k) in
          subst (IsOnward look.mono w) same (onward m f (ground (arith, e)))

  pub turn-IsOnward :
      (look : Look) (file : File) (w w' : Waiting)
      → IsOwn session_id file
      → IsHeld w.attempt w.lease
      → turn rt receipt session_id look file w ≡ again w'
      → IsOnward look.mono w w'
  unfolding turn
  turn-IsOnward look _ w w' (own payload e) h g =
      own_report-IsOnward look payload w w' h (rw (e) at g)
  turn-IsOnward look _ w w' not_there h g = unless_late-IsOnward look w w' h g
