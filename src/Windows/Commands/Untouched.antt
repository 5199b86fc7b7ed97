-- ===== src/Windows/Commands/Untouched.antt =====
-- A removal command keeps the session, and the task goes on or has ended.
use presence_bridge.Prelude.{
  ℕ, Bool, true, false, not, Option, none, some, String, Result, ok, err, if◌then◌else◌, ◌≡◌, inl,
  refl, arith,
}
use presence_bridge.Json.{Payload, is_text, get}
use presence_bridge.Runtime.{Runtime}
use presence_bridge.Windows.State.{
  Observer, Host, Run, RemovalError, RemovalResult, is_running, offer_mismatch, pairing_active,
  pause_scanner, resume_scanner,
}
use presence_bridge.Windows.Removals.{
  is_offered, stop_attempt, take_offer, remove_paused, pause_and_remove, attempt_removal,
  after_offer, report, remember, answer_again, by_cache, run_identity_removal,
}
use presence_bridge.Windows.Commands.Attempts.{
  IsKept, IsKept-refl, IsKept-trans, if-IsKept, stop_run-IsKept,
}

module _ (rt : Runtime) (id : String) (host : Host) (payload : Payload) where
  if-IsKept-pair :
      {A : Type 0} (o : Observer) (b : Bool) (x y : A × Observer)
      → IsKept o x.1
      → IsKept o y.1
      → IsKept o (if b then x else y).1
  if-IsKept-pair o true x y h g = h
  if-IsKept-pair o false x y h g = g

  stop_attempt-IsKept :
      (m : Option Run) (o : Observer) → o.run ≡ m → IsKept o (stop_attempt rt host id payload m o).1
  unfolding stop_attempt
  stop_attempt-IsKept none o e = IsKept-refl o
  stop_attempt-IsKept (some r) o e = if-IsKept-pair o r.done _ _ (IsKept-refl o) (
      if-IsKept-pair o host.task_stops _ _ (stop_run-IsKept r o)
        (record { same_session = refl; same_committed = refl; goes_on = inl (ground (arith, e)) }))

  take_offer-IsKept : (o : Observer) → IsKept o (take_offer rt host id payload o).1
  unfolding take_offer
  take_offer-IsKept o =
      if-IsKept-pair o (not (is_text (get "action" payload) "repair_pairing")) (ok tt, o) _
        (IsKept-refl o)
        (if-IsKept-pair o (is_offered rt host id payload o.session_id o.bond_repair_offer) _
          (err offer_mismatch, o)
          (IsKept-trans o (record o { bond_repair_offer = none }) _
            (record { same_session = refl; same_committed = refl; goes_on = inl refl })
            (stop_attempt-IsKept o.run (record o { bond_repair_offer = none }) refl))
          (IsKept-refl o))

  pause_and_remove-IsKept : (o : Observer) → IsKept o (pause_and_remove rt host id payload o).1
  unfolding pause_and_remove pause_scanner remove_paused resume_scanner
  pause_and_remove-IsKept o =
      if-IsKept-pair o (is_running o.run) (err pairing_active, o) _ (IsKept-refl o)
        (if-IsKept-pair o host.scanner_stops _ _
          (record { same_session = refl; same_committed = refl; goes_on = inl refl })
          (record { same_session = refl; same_committed = refl; goes_on = inl refl }))

  after_offer-IsKept :
      (o : Observer) (m : Result RemovalError (Unit {0}) × Observer)
      → IsKept o m.1
      → IsKept o (after_offer rt host id payload m).1
  after_offer-IsKept o (ok _, o') h = IsKept-trans o o' _ h (pause_and_remove-IsKept o')
  after_offer-IsKept o (err _, o') h = h

  report-IsKept :
      (o : Observer) (m : Result RemovalError ℕ × Observer)
      → IsKept o m.1
      → IsKept o (report rt host id payload m)
  unfolding report remember
  report-IsKept o (result, o') h = record {
    same_session = h.same_session;
    same_committed = h.same_committed;
    goes_on = h.goes_on;
  }

  by_cache-IsKept :
      (m : Option RemovalResult) (o : Observer) → IsKept o (by_cache rt host id payload m o)
  unfolding answer_again attempt_removal
  by_cache-IsKept none o = report-IsKept o _ (after_offer-IsKept o _ (take_offer-IsKept o))
  by_cache-IsKept (some cached) o =
      if-IsKept o _ _ _ (record { same_session = refl; same_committed = refl; goes_on = inl refl })
        (IsKept-refl o)

  pub run_identity_removal-IsKept :
      (o : Observer) → IsKept o (run_identity_removal rt host id payload o)
  unfolding run_identity_removal
  run_identity_removal-IsKept o = if-IsKept o _ _ _ (by_cache-IsKept _ o) (IsKept-refl o)
