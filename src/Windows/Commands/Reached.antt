-- ===== src/Windows/Commands/Reached.antt =====
-- What holds of the receiver after any sequence of commands and of events of its pairing task.
use presence_bridge.Prelude.{
  false, [], Option, none, some, String, Result, ok, err, ◌≡◌, refl, arith, ◌∙◌, sym,
}
use presence_bridge.Json.{Payload}
use presence_bridge.Runtime.{Runtime}
use presence_bridge.Windows.Config.{ObserverConfig}
use presence_bridge.Windows.State.{Observer, Host, Run, Job, RunEvent, handle_event}
use presence_bridge.Windows.State.Sound.{
  IsSound, is_pausing, if-IsSound, cancel_and_wait-IsSound, cancel_and_wait-paused,
  handle_event-IsSound,
}
use presence_bridge.Windows.Removals.Sound.{run_identity_removal-IsSound}
use presence_bridge.Windows.Commands.{
  Invalid, begin, is_duplicate, start, complete, cancel, cancelling_run, handle_command,
}

-- The receiver as it starts, with the journal that it finds.
pub record IsInitial (o : Observer) : Type 0 where
  pub no_run : o.run ≡ none
  pub no_results : o.removal_results ≡ []
  pub not_paused : o.pause_requested ≡ false

-- One step: a command, or what the pairing task does to the shared state.
pub data Step (rt : Runtime) (config : ObserverConfig) : Observer → Observer → Type 0 where
  by_command :
      (host : Host) (payload : Payload) (o : Observer)
      → Step rt config o (handle_command rt host config payload o)
  by_task : (e : RunEvent) (o : Observer) → Step rt config o (handle_event e o)

pub data Reachable (rt : Runtime) (config : ObserverConfig) : Observer → Type 0 where
  initially : (o : Observer) → IsInitial o → Reachable rt config o
  next : (o o' : Observer) → Reachable rt config o → Step rt config o o' → Reachable rt config o'

module _ (rt : Runtime) (host : Host) (config : ObserverConfig) where
  start-IsSound :
      (action session_id : String) (job : Result Invalid Job) (o : Observer)
      → IsSound o
      → IsSound (start rt host config action session_id job o)
  unfolding start begin
  start-IsSound action session_id (err _) o h = record {
    few_results = h.few_results;
    scan_paused = h.scan_paused;
  }
  start-IsSound action session_id (ok job) o h =
      if-IsSound (is_duplicate rt host config action session_id o) _ _ h (record {
        few_results = (cancel_and_wait-IsSound o.run o refl h).few_results;
        scan_paused = cancel_and_wait-paused o.run o refl h;
      })

  complete-IsSound :
      (session_id : String) (o : Observer)
      → IsSound o
      → IsSound (complete rt host config session_id o)
  unfolding complete
  complete-IsSound session_id o h =
      if-IsSound _ _ _ (record { few_results = h.few_results; scan_paused = h.scan_paused }) h

  cancelling_run-pausing :
      (m : Option Run) → is_pausing (cancelling_run rt host config m) ≡ is_pausing m
  cancelling_run-pausing none = refl
  cancelling_run-pausing (some r) = refl

  cancel-IsSound :
      (session_id : String) (o : Observer)
      → IsSound o
      → IsSound (cancel rt host config session_id o)
  unfolding cancel
  cancel-IsSound session_id o h =
      if-IsSound _ _ _
        (record {
          few_results = h.few_results;
          scan_paused = h.scan_paused ∙ sym (cancelling_run-pausing o.run);
        })
        h

  handle_command-IsSound :
      (payload : Payload) (o : Observer)
      → IsSound o
      → IsSound (handle_command rt host config payload o)
  unfolding handle_command
  handle_command-IsSound payload o h =
      if-IsSound _ _ _ (run_identity_removal-IsSound rt host config.observer_id payload o h) (
        if-IsSound _ _ _ (complete-IsSound _ o h)
          (if-IsSound _ _ _ (cancel-IsSound _ o h) (if-IsSound _ _ _ (start-IsSound _ _ _ o h) h)))

Step-IsSound :
    (rt : Runtime) (config : ObserverConfig) (o o' : Observer)
    → Step rt config o o'
    → IsSound o
    → IsSound o'
Step-IsSound rt config _ _ (by_command host payload o) h =
    handle_command-IsSound rt host config payload o h
Step-IsSound rt config _ _ (by_task e o) h = handle_event-IsSound e o h

initial-IsSound : (o : Observer) → IsInitial o → IsSound o
initial-IsSound o i = record {
  few_results = ground (arith, i.no_results);
  scan_paused = ground (arith, i.not_paused, i.no_run);
}

-- After any sequence of commands and of events of the pairing task, in which its heartbeat task does
-- not fail, the presence scan is paused exactly while a pairing task that is not done has it paused, so
-- that no removal, cancelled or replaced attempt leaves it paused; and at most 32 answers to removals
-- are kept.
pub Reachable→IsSound :
    (rt : Runtime) (config : ObserverConfig) (o : Observer) → Reachable rt config o → IsSound o
Reachable→IsSound rt config _ (initially o i) = initial-IsSound o i
Reachable→IsSound rt config _ (next o o' r s) =
    Step-IsSound rt config o o' s (Reachable→IsSound rt config o r)
