-- ===== src/Signals/Redeemed.antt =====
-- What a signal credential gives, once and for how long.
use presence_bridge.Prelude.{
  ℕ, ◌+◌, ◌*◌, ◌<◌, Bool, true, false, ◌&&◌, [], ◌∷◌, Option, none, some, String, Dict, lookup,
  insert, eq_iff, codes, Any, if◌then◌else◌, ◌≡◌, inl, inr, refl, arith, subst,
}
use presence_bridge.Runtime.{Runtime}
use presence_bridge.Coordinator.Types.{Coordinator, IdentityRow, IdentityState, Access, seconds}
use presence_bridge.Coordinator.Removal.Answers.{lookup-inserted}
use presence_bridge.Signals.{
  Reply, issued, not_saved, is_access_token, new_access, matches_access, authorized, is_shown,
  redeemed, redeem, post,
}

-- The row is the identity's, and the token is its credential in this field.
pub record IsHolder (rt : Runtime) (now : ℕ) (token : String) (field : IdentityRow → Option Access)
    (id : String) (row : IdentityRow) (c : Coordinator) : Type 0 where
  pub saved : Any (λ entry. entry ≡ (id, row)) c.identities
  pub matching : matches_access rt now token (field row) ≡ true

found :
    (rt : Runtime) (now : ℕ) (token : String) (field : IdentityRow → Option Access)
    (states : Dict IdentityState) (rows : Dict IdentityRow) (id : String) (row : IdentityRow)
    → authorized rt now token field states rows ≡ some (id, row)
    → Any (λ entry. entry ≡ (id, row)) rows × (matches_access rt now token (field row) ≡ true)
unfolding authorized
found rt now token field states [] id row h = cc (h)
found rt now token field states ((k, r) ∷ rows) id row h =
    split (is_shown k states) (matches_access rt now token (field r)) refl
      (found rt now token field states rows id row) h
  where
    split :
        (a b : Bool)
        → matches_access rt now token (field r) ≡ b
        → (authorized rt now token field states rows ≡ some (id, row)
            → Any (λ entry. entry ≡ (id, row)) rows
              × (matches_access rt now token (field row) ≡ true))
        → (if a && b then some (k, r) else authorized rt now token field states rows)
          ≡ some (id, row)
        → Any (λ entry. entry ≡ (id, row)) ((k, r) ∷ rows)
          × (matches_access rt now token (field row) ≡ true)
    split true true e f g =
        let same : (k, r) ≡ (id, row) = cc (g) in
        (inl same, subst (λ p. matches_access rt now token (field p.1) ≡ true) same e)
    split true false e f g = let (a, m) = f g in (inr a, m)
    split false b e f g = let (a, m) = f g in (inr a, m)

-- What a token was redeemed for.
pub record IsRedeemed (rt : Runtime) (clock : ℕ) (token fresh : String) (expires_at : ℕ)
    (c c' : Coordinator) : Type 0 where
  pub id : String
  pub row : IdentityRow
  pub holder : IsHolder rt clock token (λ r. r.monitor_pending) id row c
  pub after : IdentityRow
  pub now_saved : lookup id c'.identities ≡ some after
  pub same_key : after.irk ≡ row.irk
  pub used_up : (now : ℕ) (t : String) → matches_access rt now t after.monitor_pending ≡ false
  pub opens :
      (now : ℕ)
      → is_access_token fresh ≡ true
      → now < expires_at * 1000000
      → matches_access rt now fresh after.monitor_access ≡ true
  pub ninety_days : expires_at ≡ seconds clock + 7776000

redeem-IsRedeemed :
    (rt : Runtime) (clock : ℕ) (token fresh : String) (c : Coordinator) (id : String)
    (row : IdentityRow)
    → IsHolder rt clock token (λ r. r.monitor_pending) id row c
    → IsRedeemed rt clock token fresh ((new_access rt clock fresh 7776000).expires) c (record c {
      identities = insert id (redeemed (new_access rt clock fresh 7776000) row) c.identities;
    })
unfolding redeemed new_access matches_access
redeem-IsRedeemed rt clock token fresh c id row h = record {
  id = id;
  row = row;
  holder = h;
  after = redeemed (new_access rt clock fresh 7776000) row;
  now_saved = lookup-inserted id (redeemed (new_access rt clock fresh 7776000) row) c.identities;
  same_key = refl;
  used_up = λ now t. refl;
  opens = λ now e l.
      ground (arith, e, l, eq_iff (rt.sha256_hex (codes fresh)) (rt.sha256_hex (codes fresh)));
  ninety_days = refl;
}

-- A token is exchanged only where it is an identity's pending credential. After the exchange no token
-- is that identity's pending credential any more, and the issued token, if it has the form of one, is
-- its credential for reading until it expires, after ninety days.
pub post-IsRedeemed :
    (rt : Runtime) (clock : ℕ) (token fresh t : String) (saves : Coordinator → Bool)
    (expires_at : ℕ) (c c' : Coordinator)
    → post rt clock token fresh saves c ≡ (issued t expires_at, c')
    → (t ≡ fresh) × IsRedeemed rt clock token fresh expires_at c c'
unfolding post redeem
post-IsRedeemed rt clock token fresh t saves expires_at c c' h =
    go (authorized rt clock token (λ r. r.monitor_pending) c.identity_states c.identities) refl h
  where
    access : Access
    access = new_access rt clock fresh 7776000

    saved_as : String → IdentityRow → Coordinator
    saved_as id row = record c { identities = insert id (redeemed access row) c.identities }

    settled :
        (b : Bool) (id : String) (row : IdentityRow)
        → IsHolder rt clock token (λ r. r.monitor_pending) id row c
        → ◌≡◌ {A = Reply × Coordinator}
            (if b
              then (issued fresh access.expires, saved_as id row)
              else (not_saved, saved_as id row))
            (issued t expires_at, c')
        → (t ≡ fresh) × IsRedeemed rt clock token fresh expires_at c c'
    settled false id row k e = cc (e)
    settled true id row k e =
        let same : ◌≡◌ {A = ℕ × Coordinator} (access.expires, saved_as id row) (expires_at, c') =
          cc (e) in
        (
          cc (e),
          subst (λ q. IsRedeemed rt clock token fresh q.0 c q.1) same
              (redeem-IsRedeemed rt clock token fresh c id row k),
        )

    go :
        (m : Option (String × IdentityRow))
        → authorized rt clock token (λ r. r.monitor_pending) c.identity_states c.identities ≡ m
        → redeem rt clock fresh saves m c ≡ (issued t expires_at, c')
        → (t ≡ fresh) × IsRedeemed rt clock token fresh expires_at c c'
    go none e g = cc (g)
    go (some (id, row)) e g =
        let (at_row, m) =
          found rt clock token (λ r. r.monitor_pending) c.identity_states c.identities id row e in
        settled (saves (saved_as id row)) id row (record { saved = at_row; matching = m }) g
