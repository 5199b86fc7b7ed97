-- ===== src/Windows/Commands/Refined.antt =====
-- The commands and the pairing task refine the attempts of `Windows.Commands.Attempts`.
use presence_bridge.Prelude.{
  Bool, true, false, ◌&&◌, ◌||◌, Option, none, some, String, ◌==◌, eq_iff, Result, ok, err,
  if◌then◌else◌, ◌≡◌, ◌⊎◌, inl, inr, refl, arith, sym, subst,
}
use presence_bridge.Json.{Payload}
use presence_bridge.Runtime.{Runtime}
use presence_bridge.Coordinator.Status.{is_pairing_session_id}
use presence_bridge.Windows.Config.{ObserverConfig}
use presence_bridge.Windows.State.{Observer, Host, Run, Job, RunEvent, is_running, handle_event}
use presence_bridge.Windows.Removals.{equals}
use presence_bridge.Windows.Commands.{
  Invalid, begin, is_duplicate, start, complete, cancel, cancelling_run, start_job, handle_command,
  action_in, session_in, is_start,
}
use presence_bridge.Windows.Commands.Attempts.{
  Input, command, task_event, AttemptStep, stays, opens, commits, attempt_at, attempt_of, IsKept,
  IsKept-refl, IsKept-step, if-IsKept, handle_event-step, waiting, committed,
}
use presence_bridge.Windows.Commands.Untouched.{run_identity_removal-IsKept}

-- What a step is told.
pub data Told : Type 0 where
  told : Host → Payload → Told
  happened : RunEvent → Told

module _ (rt : Runtime) (config : ObserverConfig) where
  abbrev pub handle : Told → Observer → Observer
  handle (told host payload) o = handle_command rt host config payload o
  handle (happened e) o = handle_event e o

  abbrev pub input_of : Told → Input
  input_of (told host payload) =
      command (action_in rt host config payload) (session_in rt host config payload)
  input_of (happened e) = task_event

  module _ (host : Host) (payload : Payload) where
    -- what an input does to the attempt of a state
    abbrev Goes : Input → Observer → Observer → Type 0
    Goes i o o' = AttemptStep i (attempt_of o) (attempt_of o')

    if-Goes :
        (i : Input) (o : Observer) (b : Bool) (x y : Observer)
        → (b ≡ true → Goes i o x)
        → (b ≡ false → Goes i o y)
        → Goes i o (if b then x else y)
    if-Goes i o true x y h g = h refl
    if-Goes i o false x y h g = g refl

    complete-Goes :
        (session_id : String) (o : Observer)
        → Goes (command "complete" session_id) o (complete rt host config session_id o)
    unfolding complete
    complete-Goes session_id o =
        if-Goes (command "complete" session_id) o _ _ _
          (λ e. at o.session_id (is_running o.run) o.committed e) (λ _. stays _ _)
      where
        at :
            (m : Option String) (b c : Bool)
            → (equals m session_id && b) ≡ true
            → AttemptStep (command "complete" session_id) (attempt_at b m c) (attempt_at b m true)
        at none b c e = cc (e)
        at (some s) false c e = ground (arith, e)
        at (some s) true true e = stays _ _
        at (some s) true false e =
            subst (λ x. AttemptStep (command "complete" session_id) (waiting x) (committed x))
              (ground (arith, e, eq_iff s session_id)) (commits session_id)

    cancelling_run-running :
        (m : Option Run) → is_running (cancelling_run rt host config m) ≡ is_running m
    cancelling_run-running none = refl
    cancelling_run-running (some r) = refl

    cancel-IsKept :
        (session_id : String) (o : Observer) → IsKept o (cancel rt host config session_id o)
    unfolding cancel
    cancel-IsKept session_id o =
        if-IsKept o _ _ _
          (record {
            same_session = refl;
            same_committed = refl;
            goes_on = inl (cancelling_run-running o.run);
          })
          (IsKept-refl o)

    start-Goes :
        (action session_id : String) (job : Result Invalid Job) (o : Observer)
        → (is_start rt host config action && is_pairing_session_id session_id) ≡ true
        → Goes (command action session_id) o (start rt host config action session_id job o)
    unfolding start begin
    start-Goes action session_id (err _) o e = stays _ _
    start-Goes action session_id (ok job) o e =
        if-Goes (command action session_id) o (is_duplicate rt host config action session_id o) _ _
          (λ _. stays _ _)
          (λ _. opens action session_id _ (ground (arith, e)) (which (action == "start") refl))
      where
        which :
            (b : Bool)
            → (action == "start") ≡ b
            → (action ≡ "start") ⊎ (action ≡ "start_app_pairing")
        which true f = inl (ground (arith, f, eq_iff action "start"))
        which false f = inr (ground (arith, e, f, eq_iff action "start_app_pairing"))

    command-Goes :
        (o : Observer)
        → Goes
            (command (action_in rt host config payload) (session_in rt host config payload))
            o
            (handle_command rt host config payload o)
    unfolding handle_command
    command-Goes o =
        if-Goes i o (action == "forget_identity" || action == "repair_pairing") _ _
          (λ _.
            IsKept-step i o _ (run_identity_removal-IsKept rt config.observer_id host payload o))
          (λ _.
            if-Goes i o (action == "complete") _ _
              (λ e.
                subst (λ a. Goes (command a session_id) o (complete rt host config session_id o))
                  (sym (ground (arith, e, eq_iff action "complete"))) (complete-Goes session_id o))
              (λ _.
                if-Goes i o (action == "cancel") _ _
                  (λ _. IsKept-step i o _ (cancel-IsKept session_id o))
                  (λ _.
                    if-Goes i o (is_start rt host config action && is_pairing_session_id session_id)
                      _ _
                      (start-Goes action session_id
                        (start_job rt host config action session_id payload) o)
                      (λ _. stays _ _))))
      where
        action : String
        action = action_in rt host config payload

        session_id : String
        session_id = session_in rt host config payload

        i : Input
        i = command action session_id

  -- Every command and every event of the pairing task does to the attempt only what its input allows:
  -- the attempt stays or is closed, a start with a valid session opens its session, uncommitted, and
  -- only a `complete` that names the session that waits commits it.
  pub handle-refines :
      (t : Told) (o : Observer) → AttemptStep (input_of t) (attempt_of o) (attempt_of (handle t o))
  handle-refines (told host payload) o = command-Goes host payload o
  handle-refines (happened e) o = handle_event-step e o
