-- ===== src/Coordinator/Repair/Safe.antt =====
-- A repair forgets a phone only when its receiver has confirmed the removal of the bond.
use presence_bridge.Prelude.{
  List, [], true, cut, pos, Option, none, String, Dict, Result, ok, err, ◌≡◌, refl, sym, ap, ◌∙◌,
}
use presence_bridge.Json.{Value}
use presence_bridge.Runtime.{Runtime}
use presence_bridge.Coordinator.Types.{IdentityRow, RepairOffer}
use presence_bridge.Coordinator.Public.{set_pairing_state}
use presence_bridge.Coordinator.Topic.{Message}
use presence_bridge.Coordinator.Action.{World, Env, Act, HaError, continue, ◌>>◌}
use presence_bridge.Coordinator.Pairing.{start_pairing}
use presence_bridge.Coordinator.Removal.{request_bond_removal, require_phone_reset}
use presence_bridge.Coordinator.Removal.Answers.{IsConfirmed, request_bond_removal-IsConfirmed}
use presence_bridge.Coordinator.Removal.Confirmed.{request_bond_removal-frame}
use presence_bridge.Coordinator.Repair.{
  repair_command, check_repair, forget_if_saved, default_pairing_timeout, report_failure,
  repair_steps, repair_checked, repair_pairing_at,
}

-- What a repair comes to: no phone was forgotten, or the receiver of the offer confirmed.
pub data IsRepaired (rt : Runtime) (env : Env) (received : List Message) (repair_id : String)
    (w w' : World) : Type 0 where
  kept :
      w'.coordinator.identities ≡ w.coordinator.identities
      → IsRepaired rt env received repair_id w w'
  confirmed :
      (offer : RepairOffer) (row : Option IdentityRow)
      → check_repair env repair_id w.coordinator ≡ ok (offer, row)
      → IsConfirmed rt env.token offer.observer_id offer.fingerprint received
      → IsRepaired rt env received repair_id w w'

-- However a repair ends, an error included: the phones are as before, or the offer passed the checks
-- and, while the request waited, its receiver answered this request, for the offer's bond, that the
-- removal succeeded.
pub repair_pairing_at-IsRepaired :
    (rt : Runtime) (env : Env) (received : List Message) (repair_id : String) (w : World)
    → IsRepaired rt env received repair_id w (repair_pairing_at rt env received repair_id w).1
unfolding repair_pairing_at repair_checked repair_steps
repair_pairing_at-IsRepaired rt env received repair_id w = checked _ refl
  where
    checked :
        (c : Result HaError (RepairOffer × Option IdentityRow))
        → check_repair env repair_id w.coordinator ≡ c
        → IsRepaired rt env received repair_id w (repair_checked rt env received c w).1
    checked (err x) e = kept refl
    checked (ok (offer, row)) e = requested _ refl
      where
        w1 : World
        w1 = record w {
          coordinator = record (w.coordinator) {
            bond_repair_offer = none;
            pairing_public =
                set_pairing_state (rt.isoformat env.now) "repairing"
                  "Removing the saved bond and verifying Windows" [] w.coordinator.pairing_public;
          };
        }

        rest : Unit {0} → Act (Dict Value)
        rest _ =
            require_phone_reset env offer.person_entity_id offer.observer_id
            >> (forget_if_saved rt env (cut 16 offer.fingerprint) row
                >> start_pairing rt env offer.person_entity_id offer.observer_id
                    (pos default_pairing_timeout) true)

        requested :
            (p : Result HaError (Unit {0}) × World)
            → request_bond_removal rt env received offer.observer_id offer.fingerprint
                (repair_command env offer)
                w1
              ≡ p
            → IsRepaired rt env received repair_id w
                (report_failure rt env (continue (p.0) rest (p.1))).1
        requested (err x, v) f = kept (
            ap (λ r. r.1.coordinator.identities) (sym f)
            ∙ (request_bond_removal-frame rt env received offer.observer_id offer.fingerprint
                (repair_command env offer) w1).0)
        requested (ok u, v) f = confirmed offer row e (
            request_bond_removal-IsConfirmed rt env received offer.observer_id offer.fingerprint
              (repair_command env offer) w1 v f)
