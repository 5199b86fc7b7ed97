-- ===== src/Windows/Commands/Attempts.antt =====
-- What the receiver promises of an attempt: one is open at a time, only a start opens it, and only a
-- `complete` for its session commits it. The commands and the pairing task do no more than this.
use presence_bridge.Prelude.{
  Bool, true, false, Option, none, some, String, if◌then◌else◌, ◌≡◌, ◌⊎◌, inl, inr, refl, arith,
  ◌∙◌,
}
use presence_bridge.Coordinator.Status.{is_pairing_session_id}
use presence_bridge.Windows.State.{
  Observer, Run, RunEvent, is_running, finish_run, stop_run, run_event, handle_event, pause_run,
  capture_run, pause_again, fail_run, end_run, cancel_run, pause_scanner, resume_scanner,
}

-- The attempt that the receiver works on.
pub data Attempt : Type 0 where
  idle : Attempt
  waiting : String → Attempt
  committed : String → Attempt

pub data Input : Type 0 where
  command : (action session_id : String) → Input
  task_event : Input

pub data AttemptStep : Input → Attempt → Attempt → Type 0 where
  stays : (i : Input) (a : Attempt) → AttemptStep i a a
  closes : (i : Input) (a : Attempt) → AttemptStep i a idle
  opens :
      (action session_id : String) (a : Attempt)
      → is_pairing_session_id session_id ≡ true
      → (action ≡ "start") ⊎ (action ≡ "start_app_pairing")
      → AttemptStep (command action session_id) a (waiting session_id)
  commits :
      (session_id : String)
      → AttemptStep (command "complete" session_id) (waiting session_id) (committed session_id)

abbrev pub attempt_at : Bool → Option String → Bool → Attempt
attempt_at true (some s) true = committed s
attempt_at true (some s) false = waiting s
attempt_at _ _ _ = idle

-- The attempt of a state.
abbrev pub attempt_of : Observer → Attempt
attempt_of o = attempt_at (is_running o.run) o.session_id o.committed

-- The session stays, and the task goes on or has ended.
pub record IsKept (o o' : Observer) : Type 0 where
  pub same_session : o'.session_id ≡ o.session_id
  pub same_committed : o'.committed ≡ o.committed
  pub goes_on : (is_running o'.run ≡ is_running o.run) ⊎ (is_running o'.run ≡ false)

pub IsKept-refl : (o : Observer) → IsKept o o
IsKept-refl o = record { same_session = refl; same_committed = refl; goes_on = inl refl }

pub IsKept-trans : (o o' o'' : Observer) → IsKept o o' → IsKept o' o'' → IsKept o o''
IsKept-trans o o' o'' h g = record {
  same_session = g.same_session ∙ h.same_session;
  same_committed = g.same_committed ∙ h.same_committed;
  goes_on = both h.goes_on g.goes_on;
}
  where
    both :
        (is_running o'.run ≡ is_running o.run) ⊎ (is_running o'.run ≡ false)
        → (is_running o''.run ≡ is_running o'.run) ⊎ (is_running o''.run ≡ false)
        → (is_running o''.run ≡ is_running o.run) ⊎ (is_running o''.run ≡ false)
    both (inl e) (inl f) = inl (f ∙ e)
    both (inr e) (inl f) = inr (f ∙ e)
    both _ (inr f) = inr f

pub IsKept-step :
    (i : Input) (o o' : Observer) → IsKept o o' → AttemptStep i (attempt_of o) (attempt_of o')
IsKept-step i o o' h = rw (h.same_session, h.same_committed) (by h.goes_on)
  where
    by :
        (is_running o'.run ≡ is_running o.run) ⊎ (is_running o'.run ≡ false)
        → AttemptStep i (attempt_of o) (attempt_at (is_running o'.run) o.session_id o.committed)
    by (inl e) = rw (e) (stays i _)
    by (inr e) = rw (e) (closes i _)

pub if-IsKept :
    (o : Observer) (b : Bool) (x y : Observer)
    → IsKept o x
    → IsKept o y
    → IsKept o (if b then x else y)
if-IsKept o true x y h g = h
if-IsKept o false x y h g = g

pub stop_run-IsKept : (r : Run) (o : Observer) → IsKept o (stop_run r o)
unfolding stop_run finish_run
stop_run-IsKept r o =
    if-IsKept o r.in_body _ _
      (record { same_session = refl; same_committed = refl; goes_on = inr refl })
      (record { same_session = refl; same_committed = refl; goes_on = inr refl })

run_event-IsKept :
    (e : RunEvent) (r : Run) (o : Observer) → o.run ≡ some r → IsKept o (run_event e r o)
unfolding run_event pause_scanner resume_scanner finish_run
run_event-IsKept (pause_run stops) r o q = record {
  same_session = refl;
  same_committed = refl;
  goes_on = inl (ground (arith, q));
}
run_event-IsKept capture_run r o q = record {
  same_session = refl;
  same_committed = refl;
  goes_on = inl (ground (arith, q));
}
run_event-IsKept (pause_again stops) r o q = record {
  same_session = refl;
  same_committed = refl;
  goes_on = inl (ground (arith, q));
}
run_event-IsKept fail_run r o q = record {
  same_session = refl;
  same_committed = refl;
  goes_on = inl (ground (arith, q));
}
run_event-IsKept end_run r o q = record {
  same_session = refl;
  same_committed = refl;
  goes_on = inr refl;
}
run_event-IsKept cancel_run r o q = stop_run-IsKept r o

-- An event of the pairing task never commits an attempt, nor opens one.
pub handle_event-step :
    (e : RunEvent) (o : Observer)
    → AttemptStep task_event (attempt_of o) (attempt_of (handle_event e o))
unfolding handle_event
handle_event-step e o = IsKept-step task_event o _ (go o.run refl)
  where
    go :
        (m : Option Run)
        → o.run ≡ m
        → IsKept o (elim m [ none ↦ o | some r ↦ if r.done then o else run_event e r o ])
    go none q = IsKept-refl o
    go (some r) q = if-IsKept o r.done _ _ (IsKept-refl o) (run_event-IsKept e r o q)
