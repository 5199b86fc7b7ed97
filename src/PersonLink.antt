-- ===== src/PersonLink.antt =====
-- Whether a person follows the phone's tracker: person_link.py.
pub mod Cases
use presence_bridge.Prelude.{
  Bool, true, false, not, List, [], ◌∷◌, Option, none, some, String, ◌==◌, filter, any, map,
  if◌then◌else◌,
}
use presence_bridge.Coordinator.Types.{is_member}

-- A person of Home Assistant, with the attributes `device_trackers` and `editable`.
pub record Person : Type 0 where
  pub entity_id : String
  pub device_trackers : List String
  pub editable : Bool

-- The texts that the code returns, by name.
pub data LinkStatus : Type 0 where
  person_not_ready tracker_pending tracker_already_owned linked : LinkStatus
  person_managed_in_yaml manual_configuration_required : LinkStatus

-- hass.states.get, among the persons
unfoldable pub find_person : String → List Person → Option Person
find_person id [] = none
find_person id (p ∷ ps) = let rest = find_person id ps in if p.entity_id == id then some p else rest

-- the persons that have the tracker
unfoldable pub owners : String → List Person → List String
owners tracker [] = []
owners tracker (p ∷ ps) =
    let rest = owners tracker ps in
    if is_member tracker p.device_trackers then p.entity_id ∷ rest else rest

unfoldable pub owned_by_other : String → List String → Bool
owned_by_other id ids = any (λ owner. not (owner == id)) ids

unfoldable pub tracker_status : Bool → String → List String → LinkStatus
tracker_status editable id ids =
    if owned_by_other id ids
    then tracker_already_owned
    else if is_member id ids
    then linked
    else if not editable
    then person_managed_in_yaml
    else manual_configuration_required

-- `tracker` is `none` for `None` and for "".
unfoldable pub person_link_status : List Person → String → Option String → LinkStatus
person_link_status people id tracker = elim (find_person id people) [
  | none ↦ person_not_ready
  | some selected ↦ elim tracker [
    | none ↦ tracker_pending
    | some t ↦ tracker_status selected.editable id (owners t people)
  ]
]
