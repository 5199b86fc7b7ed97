-- ===== src/Windows/Broker/Turns.antt =====
-- What one turn of the wait for the pairing helper does to its deadlines.
use presence_bridge.Prelude.{
  [], ◌==◌, ℕ, ◌+◌, ◌-◌, ◌*◌, ◌≤◌, ◌<◌, min, Bool, true, false, Option, none, some, String,
  if◌then◌else◌, ◌≡◌, ◌⊎◌, inl, inr, refl, arith, subst,
}
use presence_bridge.Json.{Payload, get, is_text}
use presence_bridge.Runtime.{Runtime}
use presence_bridge.Coordinator.Types.{seconds}
use presence_bridge.Windows.Progress.{lease_after}
use presence_bridge.Windows.Broker.{
  Look, Waiting, again, ended, attempt_after, is_leased, deadline_after, leased, is_same, call_back,
  ending_of_success, helper_failed, code_of, message_of, pass_on, act,
}

-- The lease is held once the attempt has a deadline.
unfoldable pub IsHeld : Option ℕ → Option ℕ → Type 0
IsHeld none l = Unit {0}
IsHeld (some a) l = (0 < a) × (is_leased l ≡ true)

-- What the update of the deadlines comes to, before the look acts on it.
unfoldable pub IsLeasedFrom : ℕ → Waiting → Waiting → Type 0
IsLeasedFrom mono w w' =
    ((w.attempt ≡ none) × (w'.attempt ≡ none) × (w'.deadline ≡ w.deadline))
    ⊎ (a : ℕ) × (w'.attempt ≡ some a)
      × (0 < a)
      × (w'.lease ≡ some a)
      × (((w.attempt ≡ none) × (w'.deadline ≤ mono + 300000000))
          ⊎ (b : ℕ) × (w.attempt ≡ some b) × (w'.deadline ≤ w.deadline))

-- The attempt's deadline: positive, at most five minutes off where it is new, never later.
attempt_after-some :
    (now : ℕ) (code : String) (least a : ℕ) (attempt : Option ℕ)
    → attempt_after now code least attempt ≡ some a
    → ((attempt ≡ none) × (0 < a) × (a ≤ (now + 300) * 1000000))
      ⊎ (b : ℕ) × (attempt ≡ some b) × ((0 < b) → 0 < a)
unfolding attempt_after
attempt_after-some now code least a none h = inl (refl, ground (arith, h), ground (arith, h))
attempt_after-some now code least a (some b) h = inr (b, refl, λ p. ground (arith, h, p))

attempt_after-none :
    (now : ℕ) (code : String) (least : ℕ) (attempt : Option ℕ)
    → attempt_after now code least attempt ≡ none
    → attempt ≡ none
unfolding attempt_after
attempt_after-none now code least none h = refl
attempt_after-none now code least (some b) h = ground (arith, h)

pub leased-IsLeasedFrom :
    (look : Look) (code : String) (least : ℕ) (w : Waiting)
    → IsHeld w.attempt w.lease
    → IsLeasedFrom look.mono w
        (leased look (attempt_after (seconds look.epoch) code least w.attempt) w)
unfolding IsLeasedFrom leased deadline_after IsHeld
leased-IsLeasedFrom look code least w h =
    go (attempt_after (seconds look.epoch) code least w.attempt) refl
  where
    now : ℕ
    now = seconds look.epoch

    fresh :
        (a : ℕ)
        → a ≤ (now + 300) * 1000000
        → (if is_leased w.lease
            then min w.deadline (look.mono + a - now * 1000000)
            else look.mono + a - now * 1000000)
          ≤ look.mono + 300000000
    fresh a e = ground (arith, e)

    held :
        (b a : ℕ)
        → w.attempt ≡ some b
        → (0 < b)
          × ((if is_leased w.lease
                then min w.deadline (look.mono + a - now * 1000000)
                else look.mono + a - now * 1000000)
              ≤ w.deadline)
    held b a e =
        let (p, l) : (0 < b) × (is_leased w.lease ≡ true) = subst (λ m. IsHeld m w.lease) e h in
        (p, rw (l) (omega arith))

    settle :
        (a : ℕ)
        → ((w.attempt ≡ none) × (0 < a) × (a ≤ (now + 300) * 1000000))
          ⊎ (b : ℕ) × (w.attempt ≡ some b) × ((0 < b) → 0 < a)
        → IsLeasedFrom look.mono w (leased look (some a) w)
    settle a (inl (n, p, q)) = inr (a, refl, p, refl, inl (n, fresh a q))
    settle a (inr (b, f, k)) = inr (a, refl, k (held b a f).0, refl, inr (b, f, (held b a f).1))

    go :
        (m : Option ℕ)
        → attempt_after now code least w.attempt ≡ m
        → IsLeasedFrom look.mono w (leased look m w)
    go none e = inl (attempt_after-none now code least w.attempt e, refl, refl)
    go (some a) e = settle a (attempt_after-some now code least a w.attempt e)

lease_after-held :
    (now s : ℕ) (m : Option ℕ)
    → is_leased m ≡ true
    → is_leased (
        lease_after now
          (record { attempt_expires_at = some s; completion_expires_at = none; fields = [] })
          m)
      ≡ true
unfolding lease_after
lease_after-held now s none h = cc (h)
lease_after-held now s (some l) h = ground (arith, h)

-- The callback leaves the deadlines, and a lease that is held stays held.
call_back-held :
    (receipt : Bool) (look : Look) (code message : String) (w : Waiting) (a : ℕ)
    → w.attempt ≡ some a
    → is_leased w.lease ≡ true
    → is_leased (call_back receipt look code message w).lease ≡ true
unfolding call_back
call_back-held true look code message w a e l = l
call_back-held false look code message w a e l =
    rw (e) (lease_after-held look.epoch (seconds a) w.lease l)

-- The same deadlines, and a lease that stays held.
pub record IsSame (w w' : Waiting) : Type 0 where
  pub same_deadline : w'.deadline ≡ w.deadline
  pub same_attempt : w'.attempt ≡ w.attempt
  pub still_held :
      (a : ℕ) → w.attempt ≡ some a → is_leased w.lease ≡ true → is_leased w'.lease ≡ true

call_back-deadlines :
    (receipt : Bool) (look : Look) (code message : String) (w : Waiting)
    → ((call_back receipt look code message w).deadline ≡ w.deadline)
      × ((call_back receipt look code message w).attempt ≡ w.attempt)
unfolding call_back
call_back-deadlines true look code message w = (refl, refl)
call_back-deadlines false look code message w = (refl, refl)

IsSame-refl : (w : Waiting) → IsSame w w
IsSame-refl w = record { same_deadline = refl; same_attempt = refl; still_held = λ a e l. l }

if-IsSame : (b : Bool) (w x y : Waiting) → IsSame w x → IsSame w y → IsSame w (if b then x else y)
if-IsSame true w x y h g = h
if-IsSame false w x y h g = g

module _ (rt : Runtime) (receipt : Bool) (session_id : String) where
  pass_on-IsSame :
      (look : Look) (code message : String) (w : Waiting)
      → IsSame w (pass_on rt receipt session_id look code message w)
  unfolding pass_on
  pass_on-IsSame look code message w =
      if-IsSame (is_same w.last_update code message) w _ _ (IsSame-refl w) (record {
        same_deadline = (call_back-deadlines receipt look code message w').0;
        same_attempt = (call_back-deadlines receipt look code message w').1;
        still_held = λ a e l. call_back-held receipt look code message w' a e l;
      })
    where
      w' : Waiting
      w' = record w { last_update = some (code, message) }

  pub act-IsSame :
      (look : Look) (payload : Payload) (state : String) (w w' : Waiting)
      → act rt receipt session_id look payload state w ≡ again w'
      → IsSame w w'
  unfolding act
  act-IsSame look payload state w w' h = go (state == "success") (state == "error") h
    where
      onward : Waiting
      onward =
          if state == "progress"
          then pass_on rt receipt session_id look (code_of rt receipt session_id payload)
              (message_of rt receipt session_id payload) w
          else w

      onward-IsSame : IsSame w onward
      onward-IsSame =
          if-IsSame (state == "progress") w _ w (pass_on-IsSame look _ _ w) (IsSame-refl w)

      go :
          (b c : Bool)
          → (if b
              then ended (ending_of_success rt receipt session_id payload)
              else if c
              then ended (
                  helper_failed
                    (is_text (get "failure_state" payload) "timeout")
                    (code_of rt receipt session_id payload)
                    (message_of rt receipt session_id payload))
              else again onward)
            ≡ again w'
          → IsSame w w'
      go true c g = cc (g)
      go false true g = cc (g)
      go false false g = let same : onward ≡ w' = cc (g) in subst (IsSame w) same onward-IsSame
