-- ===== src/Coordinator/Public.antt =====
-- `pairing_public`, the pairing state that the panel shows, and `_set_pairing_state`.
use presence_bridge.Prelude.{
  true, false, List, [], ◌∷◌, none, some, String, eq_iff, Dict, lookup, insert, lookup-insert,
  if◌then◌else◌, ◌≡◌, refl, arith, ◌∙◌,
}
use presence_bridge.Json.{Value, bool, str}
use presence_bridge.Coordinator.Types.{active_states, is_member}

-- { **d, **extra }
unfoldable pub update : Dict Value → Dict Value → Dict Value
update d [] = d
update d ((k, v) ∷ extra) = update (insert k v d) extra

-- {key: value for key, value in d.items() if key in names}
unfoldable pub restrict : List String → Dict Value → Dict Value
restrict names [] = []
restrict names ((k, v) ∷ d) =
    let rest = restrict names d in if is_member k names then (k, v) ∷ rest else rest

abbrev pub identity_keys : List String
identity_keys = "person_entity_id" ∷ "person_name" ∷ "observer_id" ∷ "observer_name" ∷ []

abbrev pub attempt_keys : List String
attempt_keys =
    "expires_at" ∷ "attempt_expires_at" ∷ "completion_expires_at" ∷ "effective_expires_at"
    ∷ "handoff_started" ∷ "invitation_consumed" ∷ "phone_bond_reset_required" ∷ "pairing_uri"
    ∷ "qr_data_uri" ∷ []

-- the keys that survive a change to `state`
unfoldable pub preserved : String → Dict Value → Dict Value
unfolding restrict
preserved state public =
    let kept = restrict identity_keys public in
    if is_member state active_states then update kept (restrict attempt_keys public) else kept

-- `timestamp` is `dt_util.now().isoformat()`
unfoldable pub set_pairing_state : String → String → String → Dict Value → Dict Value → Dict Value
set_pairing_state timestamp state message extra public = insert "updated_at" (str timestamp) (
    insert "message" (str message) (
      insert "active" (bool (is_member state active_states))
        (insert "state" (str state) (update (preserved state public) extra))))

lookup-update_absent :
    (j : String) (extra d : Dict Value)
    → lookup j extra ≡ none
    → lookup j (update d extra) ≡ lookup j d
unfolding update lookup
lookup-update_absent j [] d h = refl
lookup-update_absent j ((k, v) ∷ extra) d h =
    ground (arith, lookup-update_absent j extra (insert k v d), lookup-insert k j v d, eq_iff k j)

lookup-restrict :
    (names : List String) (j : String) (d : Dict Value)
    → lookup j (restrict names d) ≡ (if is_member j names then lookup j d else none)
unfolding restrict lookup
lookup-restrict names j [] = ground arith
lookup-restrict names j ((k, v) ∷ d) = ground (arith, lookup-restrict names j d, eq_iff k j)

lookup-preserved_terminal :
    (state j : String) (public : Dict Value)
    → is_member state active_states ≡ false
    → lookup j (preserved state public)
      ≡ (if is_member j identity_keys then lookup j public else none)
unfolding preserved
lookup-preserved_terminal state j public h =
    ground (arith, h, lookup-restrict identity_keys j public)

lookup-preserved_identity :
    (state j : String) (public : Dict Value)
    → is_member j attempt_keys ≡ false
    → is_member j identity_keys ≡ true
    → lookup j (preserved state public) ≡ lookup j public
unfolding preserved
lookup-preserved_identity state j public a i = ground (
  arith,
  a,
  i,
  lookup-restrict identity_keys j public,
  lookup-restrict attempt_keys j public,
  lookup-update_absent j (restrict attempt_keys public) (restrict identity_keys public),
)

abbrev pub set_keys : List String
set_keys = "state" ∷ "active" ∷ "message" ∷ "updated_at" ∷ []

-- A key that the call does not write itself is read as it was preserved.
pub lookup-set_pairing_state :
    (timestamp state message j : String) (extra public : Dict Value)
    → is_member j set_keys ≡ false
    → lookup j extra ≡ none
    → lookup j (set_pairing_state timestamp state message extra public)
      ≡ lookup j (preserved state public)
unfolding set_pairing_state is_member
lookup-set_pairing_state timestamp state message j extra public f h = simp lookup-insert (
    ground (
      arith,
      eq_iff "updated_at" j,
      eq_iff "message" j,
      eq_iff "active" j,
      eq_iff "state" j,
      eq_iff j "updated_at",
      eq_iff j "message",
      eq_iff j "active",
      eq_iff j "state",
      lookup-update_absent j extra (preserved state public),
    ))

-- A change to a state that is not active forgets everything about the attempt: of the keys that the
-- call does not write, only the person and the receiver are still there, unchanged.
pub set_pairing_state_terminal :
    (timestamp state message j : String) (extra public : Dict Value)
    → is_member state active_states ≡ false
    → is_member j set_keys ≡ false
    → lookup j extra ≡ none
    → lookup j (set_pairing_state timestamp state message extra public)
      ≡ (if is_member j identity_keys then lookup j public else none)
set_pairing_state_terminal timestamp state message j extra public t f h =
    lookup-set_pairing_state timestamp state message j extra public f h
    ∙ lookup-preserved_terminal state j public t

-- The `state` that the panel shows is the one that was set, and `active` says whether it is one of
-- the active states.
pub lookup-set_pairing_state_state :
    (timestamp state message : String) (extra public : Dict Value)
    → let p = set_pairing_state timestamp state message extra public in
      (lookup "state" p ≡ some (str state))
      × (lookup "active" p ≡ some (bool (is_member state active_states)))
unfolding set_pairing_state
lookup-set_pairing_state_state timestamp state message extra public =
    (simp lookup-insert, simp lookup-insert)
