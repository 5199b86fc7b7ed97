-- ===== src/Windows/Removals/Sound.antt =====
-- A removal leaves the scan as it was, and keeps at most 32 answers.
use presence_bridge.Prelude.{
  ℕ, Bool, true, false, not, Option, none, some, String, lookup, Result, ok, err, if◌then◌else◌,
  ◌≡◌, refl, arith,
}
use presence_bridge.Json.{Payload, is_text, get}
use presence_bridge.Runtime.{Runtime}
use presence_bridge.Windows.State.{
  Observer, Host, Run, RemovalError, RemovalResult, pause_scanner, resume_scanner, is_running,
}
use presence_bridge.Windows.State.Sound.{IsSound, is_pausing, if-IsSound, stop_run-IsSound}
use presence_bridge.Windows.Removals.{
  remember, is_valid, is_offered, stop_attempt, take_offer, remove_paused, pause_and_remove,
  attempt_removal, after_offer, report, answer_again, by_cache, run_identity_removal, request_in,
}
use presence_bridge.Windows.Removals.Kept.{length-trim}

module _ (rt : Runtime) (host : Host) (observer_id : String) (payload : Payload) where
  IsSoundAfter : {A : Type 0} → A × Observer → Type 0
  IsSoundAfter (_, o) = IsSound o

  if-IsSoundAfter :
      {A : Type 0} (b : Bool) (x y : A × Observer)
      → (b ≡ true → IsSound x.1)
      → (b ≡ false → IsSound y.1)
      → IsSound (if b then x else y).1
  if-IsSoundAfter true x y h g = h refl
  if-IsSoundAfter false x y h g = g refl

  stop_attempt-IsSound :
      (m : Option Run) (o : Observer)
      → o.run ≡ m
      → IsSound o
      → IsSound (stop_attempt rt host observer_id payload m o).1
  unfolding stop_attempt
  stop_attempt-IsSound none o e h = h
  stop_attempt-IsSound (some r) o e h =
      if-IsSoundAfter r.done _ _ (λ _. h)
        (λ d.
          if-IsSoundAfter host.task_stops _ _ (λ _. stop_run-IsSound r o e d h)
            (λ _. record {
              few_results = h.few_results;
              scan_paused = ground (arith, e, h.scan_paused);
            }))

  take_offer-IsSound :
      (o : Observer) → IsSound o → IsSound (take_offer rt host observer_id payload o).1
  unfolding take_offer
  take_offer-IsSound o h =
      if-IsSoundAfter (not (is_text (get "action" payload) "repair_pairing")) _ _ (λ _. h)
        (λ _.
          if-IsSoundAfter (is_offered rt host observer_id payload o.session_id o.bond_repair_offer)
            _ _
            (λ _.
              stop_attempt-IsSound o.run (record o { bond_repair_offer = none }) refl
                (record { few_results = h.few_results; scan_paused = h.scan_paused }))
            (λ _. h))

  not-pausing : (m : Option Run) → is_running m ≡ false → is_pausing m ≡ false
  not-pausing none e = refl
  not-pausing (some r) e = ground (arith, e)

  pause_and_remove-IsSound :
      (o : Observer) → IsSound o → IsSound (pause_and_remove rt host observer_id payload o).1
  unfolding pause_and_remove pause_scanner remove_paused resume_scanner
  pause_and_remove-IsSound o h =
      if-IsSoundAfter (is_running o.run) _ _ (λ _. h)
        (λ e.
          if-IsSoundAfter host.scanner_stops _ _
            (λ _. record {
              few_results = h.few_results;
              scan_paused = ground (arith, not-pausing o.run e);
            })
            (λ s. record {
              few_results = h.few_results;
              scan_paused = ground (arith, s, not-pausing o.run e);
            }))

  after_offer-IsSound :
      (m : Result RemovalError (Unit {0}) × Observer)
      → IsSound m.1
      → IsSound (after_offer rt host observer_id payload m).1
  after_offer-IsSound (ok _, o) h = pause_and_remove-IsSound o h
  after_offer-IsSound (err _, o) h = h

  report-IsSound :
      (m : Result RemovalError ℕ × Observer)
      → IsSound m.1
      → IsSound (report rt host observer_id payload m)
  unfolding report remember
  report-IsSound (result, o) h = record { few_results = length-trim _; scan_paused = h.scan_paused }

  by_cache-IsSound :
      (m : Option RemovalResult) (o : Observer)
      → IsSound o
      → IsSound (by_cache rt host observer_id payload m o)
  unfolding answer_again attempt_removal
  by_cache-IsSound none o h = report-IsSound _ (after_offer-IsSound _ (take_offer-IsSound o h))
  by_cache-IsSound (some cached) o h =
      if-IsSound _ _ _ (record { few_results = h.few_results; scan_paused = h.scan_paused }) h

  pub run_identity_removal-IsSound :
      (o : Observer) → IsSound o → IsSound (run_identity_removal rt host observer_id payload o)
  unfolding run_identity_removal
  run_identity_removal-IsSound o h =
      if-IsSound (is_valid rt host observer_id payload) _ _
        (by_cache-IsSound (lookup (request_in rt host observer_id payload) o.removal_results) o h) h
