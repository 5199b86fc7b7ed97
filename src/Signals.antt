-- ===== src/Signals.antt =====
-- Credentials for reading one phone's signal: signal_access.py, and the view of signal_api.py.
pub mod Redeemed
pub mod Limited
use presence_bridge.Prelude.{
  ℕ, ◌+◌, ◌*◌, ◌/◌, ltb, Bool, true, false, ◌&&◌, not, List, [], ◌∷◌, Option, none, some, String,
  ◌==◌, Dict, lookup, insert, matches, codes, is_token, if◌then◌else◌,
}
use presence_bridge.Runtime.{Runtime}
use presence_bridge.Coordinator.Types.{Coordinator, IdentityRow, IdentityState, Access, seconds}

-- TOKEN_RE.fullmatch
unfoldable pub is_access_token : String → Bool
is_access_token token = matches is_token 43 43 (codes token)

-- `new_access`, for the token that `secrets` gives
unfoldable pub new_access : Runtime → ℕ → String → ℕ → Access
new_access rt now token lifetime = record {
  digest = rt.sha256_hex (codes token);
  expires = seconds now + lifetime;
}

unfoldable pub matches_access : Runtime → ℕ → String → Option Access → Bool
matches_access rt now token none = false
matches_access rt now token (some access) =
    is_access_token token
    && ltb now (access.expires * 1000000)
    && rt.sha256_hex (codes token) == access.digest

-- What the view answers: 401, 429, 503, a failure to save, the signal of an identity, or a new token.
pub data Reply : Type 0 where
  unauthorized too_many_requests unavailable not_saved : Reply
  signal : String → Reply
  issued : (token : String) (expires_at : ℕ) → Reply

abbrev pub is_shown : String → Dict IdentityState → Bool
is_shown identity_id states = elim (lookup identity_id states) [ none ↦ false | some _ ↦ true ]

-- `authorized`: the first shown identity whose credential is this token
unfoldable pub authorized :
    Runtime
    → ℕ
    → String
    → (IdentityRow → Option Access)
    → Dict IdentityState
    → Dict IdentityRow
    → Option (String × IdentityRow)
authorized rt now token field states [] = none
authorized rt now token field states ((identity_id, row) ∷ rows) =
    let rest = authorized rt now token field states rows in
    if is_shown identity_id states && matches_access rt now token (field row)
    then some (identity_id, row)
    else rest

abbrev pub last_read : Option ℕ → ℕ
last_read none = 0
last_read (some t) = t

-- {k: t for k, t in reads.items() if now - t < 60}
unfoldable pub recent_reads : ℕ → Dict ℕ → Dict ℕ
recent_reads now [] = []
recent_reads now ((k, t) ∷ reads) =
    let rest = recent_reads now reads in if ltb now (t + 60000000) then (k, t) ∷ rest else rest

-- At most one read of an identity in a second; `now` is time.monotonic().
unfoldable pub limited_read : ℕ → Option (String × IdentityRow) → Dict ℕ → Reply × Dict ℕ
limited_read now none reads = (unauthorized, reads)
limited_read now (some (identity_id, row)) reads =
    if ltb now (last_read (lookup identity_id reads) + 1000000)
    then (too_many_requests, reads)
    else (signal identity_id, insert identity_id now (recent_reads now reads))

-- `SignalView.get`, where the coordinator is loaded; `clock` is time.time()
unfoldable pub get : Runtime → ℕ → ℕ → String → Coordinator → Dict ℕ → Reply × Dict ℕ
get rt clock now token c reads =
    limited_read now
      (authorized rt clock token (λ row. row.monitor_access) c.identity_states c.identities) reads

-- The row after its one-time credential was used.
unfoldable pub redeemed : Access → IdentityRow → IdentityRow
redeemed access row = record row { monitor_pending = none; monitor_access = some access }

unfoldable pub redeem :
    Runtime
    → ℕ
    → String
    → (Coordinator → Bool)
    → Option (String × IdentityRow)
    → Coordinator
    → Reply × Coordinator
redeem rt clock fresh saves none c = (unauthorized, c)
redeem rt clock fresh saves (some (identity_id, row)) c =
    let access = new_access rt clock fresh 7776000 in
    let c' = record c { identities = insert identity_id (redeemed access row) c.identities } in
    if saves c' then (issued fresh access.expires, c') else (not_saved, c')

-- `SignalView.post`; `fresh` is the token that `secrets` gives
unfoldable pub post :
    Runtime → ℕ → String → String → (Coordinator → Bool) → Coordinator → Reply × Coordinator
post rt clock token fresh saves c =
    redeem rt clock fresh saves
      (authorized rt clock token (λ row. row.monitor_pending) c.identity_states c.identities) c

-- `get_coordinator` raises where the integration is not loaded.
abbrev pub when_loaded :
    {A : Type 0} → Option Coordinator → (Coordinator → Reply × A) → A → Reply × A
when_loaded none f a = (unavailable, a)
when_loaded (some c) f a = f c
