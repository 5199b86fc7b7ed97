-- ===== src/Coordinator/Areas.antt =====
-- Assigning a receiver to a room: `async_set_observer_area`.
use presence_bridge.Prelude.{
  ℕ, Bool, true, not, Option, none, some, String, lookup, insert, ok, err, if◌then◌else◌,
}
use presence_bridge.Runtime.{Runtime}
use presence_bridge.Coordinator.Types.{Coordinator, ObserverState}
use presence_bridge.Coordinator.Matching.{resolve_identities}
use presence_bridge.Coordinator.Action.{
  World, Env, Act, unknown_observer, unknown_area, continue, save,
}

abbrev is_area : Env → Option String → Bool
is_area env none = true
is_area env (some area) = env.has_area area

unfoldable pub in_area : String → Option String → ObserverState → Coordinator → Coordinator
in_area observer_id area observer c = record c {
  observer_areas = insert observer_id area c.observer_areas;
  observers = insert observer_id (record observer { area_id = area }) c.observers;
}

-- Both arguments are stripped, the first in lower case; `none` is an empty room.
unfoldable pub set_observer_area : Runtime → Env → ℕ → String → Option String → Act (Unit {0})
set_observer_area rt env away_timeout observer_id area w =
    elim (lookup observer_id w.coordinator.observers) [
      | none ↦ (err unknown_observer, w)
      | some observer ↦
          if not (is_area env area)
          then (err unknown_area, w)
          else let w' : World = record w {
            coordinator = in_area observer_id area observer w.coordinator;
          } in
            continue (save env w').0
              (λ _ v. (
                ok tt,
                record v { coordinator = resolve_identities rt env.now away_timeout v.coordinator },
              ))
              (save env w').1
    ]
