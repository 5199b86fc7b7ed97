-- ===== src/Tests/Sessions.antt =====
-- The theorems on a pairing session, from its start to the end of its budget.
use presence_bridge.Prelude.{
  ℕ, Bool, true, false, List, [], ◌∷◌, Option, none, some, String, ℤ, pos, negsuc, Dict, lookup,
  All, Result, ok, err, ◌≡◌, ◌≤◌, refl, arith,
}
use presence_bridge.Json.{Value, end, field, str, int, obj}
use presence_bridge.Coordinator.Types.{ObserverState, is_member}
use presence_bridge.Coordinator.Topic.{Message}
use presence_bridge.Coordinator.Lease.{Leases, update_leases, lease_deadline}
use presence_bridge.Coordinator.Public.{set_pairing_state, set_pairing_state_terminal}
use presence_bridge.Coordinator.Status.Budget.{Keeps, run_status, run_status-Keeps}
use presence_bridge.Coordinator.Action.{World, HaError, publish}
use presence_bridge.Protocol.Link.{validate, is_session_id, is_observer_id}
use presence_bridge.Protocol.Uri.{to_uri}
use presence_bridge.Coordinator.Pairing.{
  refresh_pairing, refresh_session, time_out, start_pairing, start_checked, start_selected,
  select_observer, is_candidate, cancel_pairing, open_session, is_reusable, clamp_timeout,
}
use presence_bridge.Coordinator.Pairing.Selected.{IsSelected}
use presence_bridge.Coordinator.Pairing.Opened.{IsStarted, start_pairing-IsOpened}
use presence_bridge.Coordinator.Pairing.Expired.{IsLive, refresh_pairing-IsLive}
use presence_bridge.Tests.Fixtures.{
  rt, env, session, pairing, coordinator, world, session_token, value_of,
}

abbrev shown : Dict Value
shown =
    ("state", str "bonding")
    ∷ ("pairing_uri", str "presencepair://pair")
    ∷ ("observer_id", str "desk")
    ∷ []

set_pairing_state_terminal_example :
    lookup "pairing_uri" (set_pairing_state "t" "timeout" "late" [] shown) ≡ none
unfolding is_member lookup
set_pairing_state_terminal_example =
    set_pairing_state_terminal "t" "timeout" "late" "pairing_uri" [] shown refl refl refl

-- a status message of a receiver, on its own topic
abbrev status_of : String → String → Message
status_of observer state = record {
  topic = "presence_bridge/v1/observers/desk/pairing/status";
  payload = obj (
      field "session_id" (str session_token) (
        field "observer_id" (str observer) (
          field "state" (str state) (
            field "detail_code" (str "iphone_claim_accepted")
              (field "completion_expires_at" (int (pos 1290)) end)))));
}

abbrev events : List (ℕ × Message)
events = (1000000000, status_of "desk" "bonding") ∷ (1010000000, status_of "desk" "verifying") ∷ []

run_status-Keeps_example : Keeps 1200 session (run_status rt events pairing).pairing_session
unfolding lease_deadline
run_status-Keeps_example =
    run_status-Keeps rt events session pairing 1200 (omega arith, (omega arith, tt)) refl refl

abbrev started : Result HaError (Dict Value) × World
started = start_pairing rt env "person.anna" "desk" (pos 300) false world

start_pairing-IsOpened_example :
    (o : ObserverState) × IsSelected "desk" coordinator.observers o
    × (60 ≤ clamp_timeout (pos 300))
    × (clamp_timeout (pos 300) ≤ 600)
    × IsStarted env "person.anna" o (clamp_timeout (pos 300)) world started.1
unfolding start_pairing start_checked start_selected select_observer is_candidate is_member
    cancel_pairing publish open_session clamp_timeout to_uri validate is_session_id is_observer_id
    is_reusable presence_bridge.Prelude.starts_with
start_pairing-IsOpened_example =
    start_pairing-IsOpened rt env "person.anna" "desk" (pos 300) false world started.1
      (value_of [] started.0) refl

abbrev late : World
late = record {
  coordinator = record pairing {
    pairing_session = some (record session { attempt_expires_at = some 999 });
  };
  outbox = [];
}

abbrev refreshed : Result HaError (Unit {0}) × World
refreshed = refresh_pairing rt env late

refresh_pairing-IsLive_example : IsLive 1000000000 refreshed.1.coordinator.pairing_session
unfolding refresh_pairing refresh_session time_out cancel_pairing publish
    presence_bridge.Coordinator.Lease.pairing_deadline
refresh_pairing-IsLive_example = refresh_pairing-IsLive rt env late refreshed.1 tt refl
