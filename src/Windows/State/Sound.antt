-- ===== src/Windows/State/Sound.antt =====
-- The scan is paused exactly while a pairing task has it paused, and the answers to removals that are
-- kept are few: what the task does keeps this.
use presence_bridge.Prelude.{
  ◌≤◌, Bool, true, false, ◌&&◌, not, Option, none, some, length, if◌then◌else◌, ◌≡◌, refl, arith,
}
use presence_bridge.Windows.State.{
  Observer, Run, RunEvent, pause_run, capture_run, pause_again, fail_run, end_run, cancel_run,
  pause_scanner, resume_scanner, finish_run, stop_run, cancel_and_wait, run_event, handle_event,
}

-- A task that is not done has the scan paused.
abbrev pub is_pausing : Option Run → Bool
is_pausing none = false
is_pausing (some r) = r.paused && not r.done

pub record IsSound (o : Observer) : Type 0 where
  pub few_results : length o.removal_results ≤ 32
  pub scan_paused : o.pause_requested ≡ is_pausing o.run

pub if-IsSound : (b : Bool) (x y : Observer) → IsSound x → IsSound y → IsSound (if b then x else y)
if-IsSound true x y h g = h
if-IsSound false x y h g = g

pub finish_run-IsSound :
    (r : Run) (o : Observer)
    → o.run ≡ some r
    → r.done ≡ false
    → IsSound o
    → IsSound (finish_run r o)
unfolding finish_run
finish_run-IsSound r o e d h = record {
  few_results = h.few_results;
  scan_paused = ground (arith, h.scan_paused, e, d);
}

pub stop_run-IsSound :
    (r : Run) (o : Observer) → o.run ≡ some r → r.done ≡ false → IsSound o → IsSound (stop_run r o)
unfolding stop_run
stop_run-IsSound r o e d h =
    let k = finish_run-IsSound r o e d h in
    if-IsSound r.in_body _ _ (record { few_results = k.few_results; scan_paused = k.scan_paused }) k

pub cancel_and_wait-IsSound :
    (m : Option Run) (o : Observer) → o.run ≡ m → IsSound o → IsSound (cancel_and_wait m o)
unfolding cancel_and_wait
cancel_and_wait-IsSound none o e h = h
cancel_and_wait-IsSound (some r) o e h = go r.done refl
  where
    go : (b : Bool) → r.done ≡ b → IsSound (if b then o else stop_run r o)
    go true d = h
    go false d = stop_run-IsSound r o e d h

-- After waiting, no task runs.
pub cancel_and_wait-paused :
    (m : Option Run) (o : Observer)
    → o.run ≡ m
    → IsSound o
    → (cancel_and_wait m o).pause_requested ≡ false
unfolding cancel_and_wait stop_run finish_run
cancel_and_wait-paused none o e h = ground (arith, h.scan_paused, e)
cancel_and_wait-paused (some r) o e h = ground (arith, h.scan_paused, e)

run_event-IsSound :
    (e : RunEvent) (r : Run) (o : Observer)
    → o.run ≡ some r
    → r.done ≡ false
    → IsSound o
    → IsSound (run_event e r o)
unfolding run_event pause_scanner resume_scanner
run_event-IsSound (pause_run stops) r o e d h = record {
  few_results = h.few_results;
  scan_paused = ground (arith, d);
}
run_event-IsSound capture_run r o e d h = record {
  few_results = h.few_results;
  scan_paused = ground (arith, d);
}
run_event-IsSound (pause_again stops) r o e d h = record {
  few_results = h.few_results;
  scan_paused = ground (arith, d);
}
run_event-IsSound fail_run r o e d h = record {
  few_results = h.few_results;
  scan_paused = ground (arith, d, e, h.scan_paused);
}
run_event-IsSound end_run r o e d h = finish_run-IsSound r o e d h
run_event-IsSound cancel_run r o e d h = stop_run-IsSound r o e d h

pub handle_event-IsSound : (e : RunEvent) (o : Observer) → IsSound o → IsSound (handle_event e o)
unfolding handle_event
handle_event-IsSound e o h = go o.run refl
  where
    live :
        (r : Run) (b : Bool)
        → o.run ≡ some r
        → r.done ≡ b
        → IsSound (if b then o else run_event e r o)
    live r true q d = h
    live r false q d = run_event-IsSound e r o q d h

    go :
        (m : Option Run)
        → o.run ≡ m
        → IsSound (elim m [ none ↦ o | some r ↦ if r.done then o else run_event e r o ])
    go none q = h
    go (some r) q = live r r.done q refl
