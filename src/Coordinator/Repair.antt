-- ===== src/Coordinator/Repair.antt =====
-- `async_repair_pairing`: removing the saved bond of a failed attempt, and pairing again.
pub mod Safe
use presence_bridge.Prelude.{
  ℕ, ◌+◌, leb, Bool, true, false, ◌&&◌, not, List, [], ◌∷◌, Option, none, some, String, ◌==◌, Dict,
  lookup, cut, Result, ok, err, pos, if◌then◌else◌,
}
use presence_bridge.Json.{Value, str, is_text}
use presence_bridge.Runtime.{Runtime}
use presence_bridge.Coordinator.Types.{Coordinator, IdentityRow, RepairOffer}
use presence_bridge.Coordinator.Public.{set_pairing_state}
use presence_bridge.Coordinator.Topic.{Message}
use presence_bridge.Coordinator.Action.{
  World, Env, Act, HaError, Command, repair_pairing, repair_expired, repair_offline,
  assignment_changed, ◌>>◌,
}
use presence_bridge.Coordinator.Pairing.{start_pairing}
use presence_bridge.Coordinator.Removal.{request_bond_removal, require_phone_reset, forget}

abbrev pub repair_command : Env → RepairOffer → Command
repair_command env offer =
    repair_pairing env.token (cut 16 offer.fingerprint) offer.fingerprint (env.now + 75000000)
      offer.repair_id offer.session_id

abbrev assigned_as_offered : RepairOffer → Option IdentityRow → Bool
assigned_as_offered offer none = true
assigned_as_offered offer (some row) =
    row.person_entity_id == offer.person_entity_id && row.paired_by == offer.observer_id

abbrev is_repairable : Env → String → Coordinator → RepairOffer → Bool
is_repairable env repair_id c offer =
    offer.repair_id == repair_id
    && not (leb offer.expires_at env.now)
    && elim (lookup "repair_id" c.pairing_public) [ none ↦ false | some v ↦ is_text v repair_id ]

-- The checks of `async_repair_pairing`: the offer and the phone's row, if it has one.
unfoldable pub check_repair :
    Env → String → Coordinator → Result HaError (RepairOffer × Option IdentityRow)
check_repair env repair_id c = elim c.pairing_session [
  | some s ↦ err repair_expired
  | none ↦ elim c.bond_repair_offer [
    | none ↦ err repair_expired
    | some offer ↦
        if not (is_repairable env repair_id c offer)
        then err repair_expired
        else elim (lookup offer.observer_id c.observers) [
          | none ↦ err repair_offline
          | some observer ↦
              if not observer.online
              then err repair_offline
              else if assigned_as_offered offer (lookup (cut 16 offer.fingerprint) c.identities)
              then ok (offer, lookup (cut 16 offer.fingerprint) c.identities)
              else err assignment_changed
        ]
  ]
]

abbrev pub forget_if_saved : Runtime → Env → String → Option IdentityRow → Act (Unit {0})
forget_if_saved rt env identity_id none w = (ok tt, w)
forget_if_saved rt env identity_id (some row) w = forget rt env identity_id row w

abbrev pub default_pairing_timeout : ℕ
default_pairing_timeout = 600

-- `except Exception: …; raise`
abbrev pub report_failure :
    Runtime → Env → Result HaError (Dict Value) × World → Result HaError (Dict Value) × World
report_failure rt env (ok p, w) = (ok p, w)
report_failure rt env (err e, w) = (
  err e,
  record w {
    coordinator = record (w.coordinator) {
      pairing_public =
          set_pairing_state (rt.isoformat env.now) "error"
            "Repair could not be completed; check the receiver before retrying"
            (("detail_code", str "bond_repair_failed") ∷ []) w.coordinator.pairing_public;
    };
  },
)

-- The part of `async_repair_pairing` under `try`.
unfoldable pub repair_steps :
    Runtime → Env → List Message → RepairOffer → Option IdentityRow → Act (Dict Value)
repair_steps rt env received offer row = do
  request_bond_removal rt env received offer.observer_id offer.fingerprint
      (repair_command env offer)
  require_phone_reset env offer.person_entity_id offer.observer_id
  forget_if_saved rt env (cut 16 offer.fingerprint) row
  start_pairing rt env offer.person_entity_id offer.observer_id (pos default_pairing_timeout) true

unfoldable pub repair_checked :
    Runtime
    → Env
    → List Message
    → Result HaError (RepairOffer × Option IdentityRow)
    → Act (Dict Value)
repair_checked rt env received (err e) w = (err e, w)
repair_checked rt env received (ok (offer, row)) w = report_failure rt env (
    repair_steps rt env received offer row (record w {
      coordinator = record (w.coordinator) {
        bond_repair_offer = none;
        pairing_public =
            set_pairing_state (rt.isoformat env.now) "repairing"
              "Removing the saved bond and verifying Windows" [] w.coordinator.pairing_public;
      };
    }))

-- async_repair_pairing
unfoldable pub repair_pairing_at : Runtime → Env → List Message → String → Act (Dict Value)
repair_pairing_at rt env received repair_id w =
    repair_checked rt env received (check_repair env repair_id w.coordinator) w
