-- ===== src/Coordinator/Removal/Confirmed.antt =====
-- A phone is forgotten only when its receiver has confirmed the removal.
use presence_bridge.Prelude.{
  true, List, none, some, String, lookup, erase, starts_with, Result, ok, err, ◌≡◌, refl, arith,
  sym, ap, ◌∙◌,
}
use presence_bridge.Runtime.{Runtime}
use presence_bridge.Coordinator.Types.{Coordinator, IdentityRow}
use presence_bridge.Coordinator.Topic.{Message}
use presence_bridge.Coordinator.Action.{
  World, Env, Act, continue, ◌>>◌, HaError, Command, publish, save, >>=-ok,
}
use presence_bridge.Coordinator.Removal.{
  await_reply, request_bond_removal, forget_command, reset_key, after_forget,
  rebuild_identity_states, require_phone_reset, forget, remove_checked, remove_identity,
  check_removal,
}
use presence_bridge.Coordinator.Removal.Answers.{
  IsConfirmed, request_bond_removal-IsConfirmed, lookup-inserted, lookup-erased,
}

publish-coordinator :
    (env : Env) (o : String) (command : Command) (w : World)
    → (publish env o command w).1.coordinator ≡ w.coordinator
unfolding publish
publish-coordinator env o command w = ground arith

-- A request leaves the phones alone, whether it succeeds or not, and leaves nothing pending.
pub request_bond_removal-frame :
    (rt : Runtime) (env : Env) (received : List Message) (observer_id fingerprint : String)
    (command : Command) (w : World)
    → (let v = (request_bond_removal rt env received observer_id fingerprint command w).1 in
        (v.coordinator.identities ≡ w.coordinator.identities)
        × (lookup env.token v.coordinator.removal_requests ≡ none))
unfolding request_bond_removal publish await_reply
request_bond_removal-frame rt env received observer_id fingerprint command w =
    (ground arith, lookup-erased env.token _)

-- What a removal comes to: nothing was forgotten, or the receiver that paired the phone confirmed.
pub data IsSafe (rt : Runtime) (env : Env) (received : List Message) (identity_id : String)
    (w w' : World) : Type 0 where
  kept :
      w'.coordinator.identities ≡ w.coordinator.identities → IsSafe rt env received identity_id w w'
  confirmed :
      (row : IdentityRow) (fingerprint : String)
      → check_removal rt identity_id w.coordinator ≡ ok (row, fingerprint)
      → IsConfirmed rt env.token row.paired_by fingerprint received
      → IsSafe rt env received identity_id w w'

-- However a removal ends, an error included: the phones are as before, or the checks passed and,
-- while the request waited, the receiver that paired the phone answered this request, for this
-- phone, that the removal succeeded.
pub remove_identity-IsSafe :
    (rt : Runtime) (env : Env) (received : List Message) (identity_id : String) (w : World)
    → IsSafe rt env received identity_id w (remove_identity rt env received identity_id w).1
unfolding remove_identity remove_checked
remove_identity-IsSafe rt env received identity_id w = checked _ refl
  where
    checked :
        (c : Result HaError (IdentityRow × String))
        → check_removal rt identity_id w.coordinator ≡ c
        → IsSafe rt env received identity_id w (remove_checked rt env received identity_id c w).1
    checked (err x) e = kept refl
    checked (ok (row, fingerprint)) e = requested _ refl
      where
        command : Command
        command = forget_command env fingerprint

        rest : Unit {0} → Act (Unit {0})
        rest _ =
            require_phone_reset env row.person_entity_id row.paired_by
            >> forget rt env identity_id row

        requested :
            (p : Result HaError (Unit {0}) × World)
            → request_bond_removal rt env received row.paired_by fingerprint command w ≡ p
            → IsSafe rt env received identity_id w (continue (p.0) rest (p.1)).1
        requested (err x, v) f = kept (
            ap (λ r. r.1.coordinator.identities) (sym f)
            ∙ (request_bond_removal-frame rt env received row.paired_by fingerprint command w).0)
        requested (ok u, v) f = confirmed row fingerprint e (
            request_bond_removal-IsConfirmed rt env received row.paired_by fingerprint command w v
              f)

after_forget-identities :
    (rt : Runtime) (env : Env) (identity_id : String) (c : Coordinator)
    → (after_forget rt env identity_id c).identities ≡ c.identities
unfolding after_forget rebuild_identity_states
after_forget-identities rt env identity_id c = ground arith

after_forget-resets :
    (rt : Runtime) (env : Env) (identity_id : String) (c : Coordinator)
    → (after_forget rt env identity_id c).phone_bond_resets ≡ c.phone_bond_resets
unfolding after_forget rebuild_identity_states
after_forget-resets rt env identity_id c = ground arith

forget-ok :
    (rt : Runtime) (env : Env) (identity_id : String) (row : IdentityRow) (w w' : World)
    → forget rt env identity_id row w ≡ (ok tt, w')
    → (lookup identity_id w'.coordinator.identities ≡ none)
      × (w'.coordinator.phone_bond_resets ≡ w.coordinator.phone_bond_resets)
unfolding forget save
forget-ok rt env identity_id row w w' h =
    let c : Coordinator = record (w.coordinator) {
      identities = erase identity_id w.coordinator.identities;
    } in
    ground (
      arith,
      lookup-erased identity_id w.coordinator.identities,
      after_forget-identities rt env identity_id c,
      after_forget-resets rt env identity_id c,
    )

require_phone_reset-ok :
    (env : Env) (person observer_id : String) (w w' : World)
    → require_phone_reset env person observer_id w ≡ (ok tt, w')
    → starts_with person "person." ≡ true
    → lookup (reset_key person observer_id) w'.coordinator.phone_bond_resets ≡ some true
unfolding require_phone_reset save
require_phone_reset-ok env person observer_id w w' h t =
    ground
      (arith, lookup-inserted (reset_key person observer_id) true w.coordinator.phone_bond_resets)

-- What a removal that returned has done, to the phone's row and to what the receiver confirmed.
pub record IsRemoved (rt : Runtime) (env : Env) (received : List Message) (identity_id : String)
    (w w' : World) : Type 0 where
  pub row : IdentityRow
  pub fingerprint : String
  pub allowed : check_removal rt identity_id w.coordinator ≡ ok (row, fingerprint)
  pub by_receiver : IsConfirmed rt env.token row.paired_by fingerprint received
  pub forgotten : lookup identity_id w'.coordinator.identities ≡ none
  pub must_reset :
      starts_with row.person_entity_id "person." ≡ true
      → lookup (reset_key row.person_entity_id row.paired_by) w'.coordinator.phone_bond_resets
        ≡ some true

-- A removal that returns passed the checks and was confirmed by the receiver; the phone is gone, and
-- its person has to reset it at that receiver before the next pairing.
pub remove_identity-IsRemoved :
    (rt : Runtime) (env : Env) (received : List Message) (identity_id : String) (w w' : World)
    → remove_identity rt env received identity_id w ≡ (ok tt, w')
    → IsRemoved rt env received identity_id w w'
unfolding remove_identity remove_checked
remove_identity-IsRemoved rt env received identity_id w w' h = checked _ refl h
  where
    checked :
        (c : Result HaError (IdentityRow × String))
        → check_removal rt identity_id w.coordinator ≡ c
        → remove_checked rt env received identity_id c w ≡ (ok tt, w')
        → IsRemoved rt env received identity_id w w'
    checked (err x) e g = cc (g)
    checked (ok (row, fingerprint)) e g =
        let ask : Act (Unit {0}) =
          request_bond_removal rt env received row.paired_by fingerprint
            (forget_command env fingerprint) in
        let mark : Act (Unit {0}) = require_phone_reset env row.person_entity_id row.paired_by in
        let (u, v, asked, g1) = >>=-ok ask (λ _. mark >> forget rt env identity_id row) w g in
        let (u', v', marked, g2) = >>=-ok mark (λ _. forget rt env identity_id row) v g1 in
        let (gone, same) = forget-ok rt env identity_id row v' w' g2 in
        record {
          row = row;
          fingerprint = fingerprint;
          allowed = e;
          by_receiver =
              request_bond_removal-IsConfirmed rt env received row.paired_by fingerprint
                (forget_command env fingerprint) w v asked;
          forgotten = gone;
          must_reset = λ t.
              ap (lookup (reset_key row.person_entity_id row.paired_by)) same
              ∙ require_phone_reset-ok env row.person_entity_id row.paired_by v v' marked t;
        }
