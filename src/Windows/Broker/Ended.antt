-- ===== src/Windows/Broker/Ended.antt =====
-- The wait for the pairing helper ends, unless the result file keeps what another session left.
use presence_bridge.Prelude.{
  ℕ, zero, suc, ◌+◌, ◌-◌, ◌*◌, ◌≤◌, Bool, false, Option, none, some, String, ◌≡◌, ◌⊎◌, inl, inr,
  refl, arith, ap, ◌∙◌, subst,
}
use presence_bridge.Json.{Payload, get, is_text}
use presence_bridge.Runtime.{Runtime}
use presence_bridge.Windows.Broker.{
  File, report, Look, Ending, Waiting, Turn, again, ended, turn, wait_for_helper,
}
use presence_bridge.Windows.Broker.Turns.{IsHeld}
use presence_bridge.Windows.Broker.Onward.{
  IsOnward, still_open, opened, shortened, IsOwn, IsOnward-IsHeld, turn-IsOnward,
}

-- A look of the loop at another session's report.
pub data IsForeign (session_id : String) : File → Type 0 where
  foreign :
      (payload : Payload)
      → is_text (get "session_id" payload) session_id ≡ false
      → IsForeign session_id (report payload)

module _ (rt : Runtime) (receipt : Bool) (session_id : String) where
  -- `n` more looks are enough for the deadline that there is: those of 0.35 seconds until it, and 859
  -- more as long as no attempt was opened.
  Enough : ℕ → ℕ → Waiting → Type 0
  Enough n mono w =
      ((a : ℕ) × (w.attempt ≡ some a) × (w.deadline ≤ mono + n * 350000))
      ⊎ (m : ℕ) × (n ≡ m + 859) × (w.attempt ≡ none) × (w.deadline ≤ mono + m * 350000)

  -- After a turn that goes on, one look less is enough.
  IsOnward-Enough :
      (n mono mono' : ℕ) (w w' : Waiting)
      → mono + 350000 ≤ mono'
      → Enough n mono w
      → IsOnward mono w w'
      → (k : ℕ) × (n ≡ suc k) × Enough k mono' w'
  unfolding Enough
  IsOnward-Enough n mono mono' w w' t (inl (a, e, d)) (still_open f g q l) = cc (e, f)
  IsOnward-Enough n mono mono' w w' t (inl (a, e, d)) (opened b f g p h q l) = cc (e, f)
  IsOnward-Enough n mono mono' w w' t (inl (a, e, d)) (shortened b c f g p h q l) =
      (n - 1, omega (arith, d, q, l), inl (c, g, omega (arith, t, d, q, l)))
  IsOnward-Enough n mono mono' w w' t (inr (m, s, e, d)) (still_open f g q l) = (
    n - 1,
    omega (arith, s),
    inr (m - 1, omega (arith, s, d, l), g, rw (q) (omega (arith, t, d, l))),
  )
  IsOnward-Enough n mono mono' w w' t (inr (m, s, e, d)) (opened b f g p h q l) =
      (n - 1, omega (arith, s), inl (b, g, omega (arith, t, s, q)))
  IsOnward-Enough n mono mono' w w' t (inr (m, s, e, d)) (shortened b c f g p h q l) = cc (e, f)

  -- A turn is followed by the end, or by a wait that ends.
  turn-ends :
      (looks : ℕ → Look) (n k : ℕ) (w : Waiting) (t : Turn)
      → turn rt receipt session_id (looks k) (looks k).file w ≡ t
      → ((w' : Waiting)
          → t ≡ again w'
          → (r : Ending) × (wait_for_helper rt receipt session_id n (k + 1) looks w' ≡ some r))
      → (r : Ending) × (wait_for_helper rt receipt session_id (suc n) k looks w ≡ some r)
  unfolding wait_for_helper
  turn-ends looks n k w t q f = go t (ap after q) f
    where
      after : Turn → Option Ending
      after t' = elim t' [
        | again v ↦ wait_for_helper rt receipt session_id n (k + 1) looks v
        | ended e ↦ some e
      ]

      go :
          (t' : Turn)
          → wait_for_helper rt receipt session_id (suc n) k looks w ≡ after t'
          → ((w' : Waiting)
              → t' ≡ again w'
              → (r : Ending) × (wait_for_helper rt receipt session_id n (k + 1) looks w' ≡ some r))
          → (r : Ending) × (wait_for_helper rt receipt session_id (suc n) k looks w ≡ some r)
      go (ended e) p g = (e, p)
      go (again w') p g = let (r, h) = g w' refl in (r, p ∙ h)

  wait_for_helper-Enough :
      (looks : ℕ → Look) (n k : ℕ) (w : Waiting)
      → ((i : ℕ) → IsOwn session_id (looks i).file)
      → ((i : ℕ) → (looks i).mono + 350000 ≤ (looks (i + 1)).mono)
      → IsHeld w.attempt w.lease
      → Enough n (looks k).mono w
      → (r : Ending) × (wait_for_helper rt receipt session_id (suc n) k looks w ≡ some r)
  wait_for_helper-Enough looks zero k w mine late h enough =
      turn-ends looks zero k w (turn rt receipt session_id (looks k) (looks k).file w) refl (λ w' e.
        let on = turn-IsOnward rt receipt session_id (looks k) (looks k).file w w' (mine k) h e in
        let (j, q, _) =
          IsOnward-Enough zero (looks k).mono (looks (k + 1)).mono w w' (late k) enough on in
        absurd (ground (arith, q)))
  wait_for_helper-Enough looks (suc n) k w mine late h enough =
      turn-ends looks (suc n) k w (turn rt receipt session_id (looks k) (looks k).file w) refl
        (λ w' e.
          let on = turn-IsOnward rt receipt session_id (looks k) (looks k).file w w' (mine k) h e in
          let (j, q, rest) =
            IsOnward-Enough (suc n) (looks k).mono (looks (k + 1)).mono w w' (late k) enough on in
          let same : j ≡ n = omega (arith, q) in
          wait_for_helper-Enough looks n (k + 1) w' mine late
            (IsOnward-IsHeld (looks k).mono w w' on)
            (subst (λ i. Enough i (looks (k + 1)).mono w') same rest))

  -- The wait for the helper ends: where each look finds no file or a report of this session, and comes
  -- at least 0.35 seconds after the one before, a wait whose deadline is `m` such steps away, with no
  -- attempt opened before, has its result within `m + 860` looks, however often the helper moves the
  -- deadline of the attempt.
  pub wait_for_helper-ends :
      (looks : ℕ → Look) (w : Waiting) (m : ℕ)
      → ((i : ℕ) → IsOwn session_id (looks i).file)
      → ((i : ℕ) → (looks i).mono + 350000 ≤ (looks (i + 1)).mono)
      → w.attempt ≡ none
      → w.deadline ≤ (looks 0).mono + m * 350000
      → (r : Ending) × (wait_for_helper rt receipt session_id (m + 860) 0 looks w ≡ some r)
  unfolding IsHeld Enough
  wait_for_helper-ends looks w m mine late fresh d =
      let size : suc (m + 859) ≡ m + 860 = omega arith in
      subst (λ n. (r : Ending) × (wait_for_helper rt receipt session_id n 0 looks w ≡ some r)) size
        (wait_for_helper-Enough looks (m + 859) 0 w mine late (rw (fresh) tt)
          (inr (m, refl, fresh, d)))

  -- While the result file holds another session's report, the wait does not end, whatever the clock
  -- says: no look gives a result.
  pub wait_for_helper-foreign :
      (looks : ℕ → Look) (n k : ℕ) (w : Waiting)
      → ((i : ℕ) → IsForeign session_id (looks i).file)
      → wait_for_helper rt receipt session_id n k looks w ≡ none
  unfolding wait_for_helper turn
  wait_for_helper-foreign looks zero k w other = refl
  wait_for_helper-foreign looks (suc n) k w other =
      go (looks k).file (other k) (wait_for_helper-foreign looks n (k + 1) w other)
    where
      go :
          (f : File)
          → IsForeign session_id f
          → wait_for_helper rt receipt session_id n (k + 1) looks w ≡ none
          → (elim (turn rt receipt session_id (looks k) f w) [
            | again w' ↦ wait_for_helper rt receipt session_id n (k + 1) looks w'
            | ended e ↦ some e
          ])
            ≡ none
      go _ (foreign payload e) h = rw (e) h
