-- ===== src/Windows/Removals/Repeated.antt =====
-- A repeated removal command gets the answer of the first one.
use presence_bridge.Prelude.{
  ℕ, suc, ◌+◌, subst, ◌≤◌, Bool, true, false, List, if◌then◌else◌, sym, [], ◌∷◌, Option, none, some,
  String, eq_iff, Dict, lookup, length, ok, err, ◌≡◌, refl, arith, ap, ◌∙◌, Result,
}
use presence_bridge.Json.{Payload, text_at}
use presence_bridge.Runtime.{Runtime}
use presence_bridge.Windows.State.{
  Observer, Host, Run, RemovalError, RemovalResult, removal_result, send, stop_run, finish_run,
  pause_scanner, resume_scanner,
}
use presence_bridge.Windows.Removals.Kept.{
  behind, IsAnswered, trim-IsAnswered, insert-IsAnswered, first-IsAnswered,
}
use presence_bridge.Windows.Removals.{
  remember, request_in, fingerprint_in, is_valid, stop_attempt, take_offer, remove_paused,
  pause_and_remove, attempt_removal, after_offer, outcome_of, report, answer_again, by_cache,
  run_identity_removal,
}

module _ (rt : Runtime) (observer_id : String) (payload : Payload) where
  stop_attempt-results :
      (host : Host) (run : Option Run) (o : Observer)
      → (stop_attempt rt host observer_id payload run o).1.removal_results ≡ o.removal_results
  unfolding stop_attempt stop_run finish_run
  stop_attempt-results host none o = refl
  stop_attempt-results host (some r) o = ground arith

  take_offer-results :
      (host : Host) (o : Observer)
      → (take_offer rt host observer_id payload o).1.removal_results ≡ o.removal_results
  unfolding take_offer
  take_offer-results host o =
      ground (arith, stop_attempt-results host o.run (record o { bond_repair_offer = none }))

  pause_and_remove-results :
      (host : Host) (o : Observer)
      → (pause_and_remove rt host observer_id payload o).1.removal_results ≡ o.removal_results
  unfolding pause_and_remove pause_scanner remove_paused resume_scanner
  pause_and_remove-results host o = ground arith

  attempt_removal-results :
      (host : Host) (o : Observer)
      → (attempt_removal rt host observer_id payload o).1.removal_results ≡ o.removal_results
  unfolding attempt_removal
  attempt_removal-results host o =
      go (take_offer rt host observer_id payload o) (take_offer-results host o)
    where
      go :
          (m : Result RemovalError (Unit {0}) × Observer)
          → m.1.removal_results ≡ o.removal_results
          → (after_offer rt host observer_id payload m).1.removal_results ≡ o.removal_results
      go (ok _, o') e = pause_and_remove-results host o' ∙ e
      go (err _, o') e = e

  -- The row that a report of this result saves.
  abbrev pub reported : Host → Result RemovalError ℕ → RemovalResult
  reported host result = record {
    request_id = request_in rt host observer_id payload;
    identity_id = text_at rt.repr "identity_id" payload;
    fingerprint = fingerprint_in rt host observer_id payload;
    observer_id = observer_id;
    outcome = outcome_of rt host observer_id payload result;
  }

  report-first :
      (host : Host) (m : Result RemovalError ℕ × Observer)
      → lookup (request_in rt host observer_id payload) m.1.removal_results ≡ none
      → IsAnswered 0
          (request_in rt host observer_id payload)
          (reported host m.0)
          (report rt host observer_id payload m).removal_results
  unfolding report remember
  report-first host (result, o) h =
      first-IsAnswered (request_in rt host observer_id payload) (reported host result)
        o.removal_results h

  report-IsAnswered :
      (host : Host) (n : ℕ) (k : String) (row : RemovalResult)
      (m : Result RemovalError ℕ × Observer)
      → n ≤ 30
      → lookup (request_in rt host observer_id payload) m.1.removal_results ≡ none
      → IsAnswered n k row m.1.removal_results
      → IsAnswered (suc n) k row (report rt host observer_id payload m).removal_results
  unfolding report remember
  report-IsAnswered host n k row (result, o) le fresh h =
      trim-IsAnswered (suc n) k row _ (omega (arith, le)) (
        insert-IsAnswered n k (request_in rt host observer_id payload) row (reported host result)
          o.removal_results fresh h)

  answer_again-results :
      (host : Host) (cached : RemovalResult) (o : Observer)
      → (answer_again rt host observer_id payload cached o).removal_results ≡ o.removal_results
  unfolding answer_again
  answer_again-results host cached o = ground arith

  -- Another request leaves the answer, with one more behind it at most.
  run_identity_removal-IsAnswered :
      (host : Host) (n : ℕ) (k : String) (row : RemovalResult) (o : Observer)
      → n ≤ 30
      → IsAnswered n k row o.removal_results
      → IsAnswered
          (suc n)
          k
          row
          (run_identity_removal rt host observer_id payload o).removal_results
  unfolding run_identity_removal
  run_identity_removal-IsAnswered host n k row o le (h, few) =
      at (is_valid rt host observer_id payload)
    where
      id : String
      id = request_in rt host observer_id payload

      kept : (d : Dict RemovalResult) → d ≡ o.removal_results → IsAnswered (suc n) k row d
      kept d e = (
        ap (lookup k) e ∙ h,
        subst (λ results. behind k results ≤ suc n) (sym e) (omega (arith, few)),
      )

      cached :
          (m : Option RemovalResult)
          → lookup id o.removal_results ≡ m
          → IsAnswered (suc n) k row (by_cache rt host observer_id payload m o).removal_results
      cached (some answer) e = kept _ (answer_again-results host answer o)
      cached none e =
          let same = attempt_removal-results host o in
          report-IsAnswered host n k row (attempt_removal rt host observer_id payload o) le
            (ap (lookup id) same ∙ e)
            (ap (lookup k) same ∙ h, subst (λ results. behind k results ≤ n) (sym same) few)

      at :
          (b : Bool)
          → IsAnswered
              (suc n)
              k
              row
              (if b
                then by_cache rt host observer_id payload (lookup id o.removal_results) o
                else o).removal_results
      at true = cached (lookup id o.removal_results) refl
      at false = kept o.removal_results refl

  answer_again-reported :
      (host host' : Host) (result : Result RemovalError ℕ) (o : Observer)
      → answer_again rt host' observer_id payload (reported host result) o
        ≡ send (removal_result (reported host result)) o
  unfolding answer_again
  answer_again-reported host host' result o = ground (
    arith,
    eq_iff (fingerprint_in rt host observer_id payload)
        (fingerprint_in rt host observer_id payload),
  )

-- A removal request, with what the receiver meets when it runs.
pub record Request : Type 0 where
  pub host : Host
  pub payload : Payload

-- Removal requests, one after the other.
unfoldable pub run_removals : Runtime → String → List Request → Observer → Observer
run_removals rt observer_id [] o = o
run_removals rt observer_id (q ∷ qs) o =
    run_removals rt observer_id qs (run_identity_removal rt q.host observer_id q.payload o)

run_removals-IsAnswered :
    (rt : Runtime) (observer_id : String) (qs : List Request) (n : ℕ) (k : String)
    (row : RemovalResult) (o : Observer)
    → n + length qs ≤ 31
    → IsAnswered n k row o.removal_results
    → IsAnswered (n + length qs) k row (run_removals rt observer_id qs o).removal_results
unfolding run_removals
run_removals-IsAnswered rt observer_id [] n k row o le (h, few) = (h, omega (arith, few))
run_removals-IsAnswered rt observer_id (q ∷ qs) n k row o le h =
    let (kept, few) =
      run_removals-IsAnswered rt observer_id qs (suc n) k row
        (run_identity_removal rt q.host observer_id q.payload o) (omega (arith, le))
        (run_identity_removal-IsAnswered rt observer_id q.payload q.host n k row o
          (omega (arith, le)) h) in
    (kept, omega (arith, few))

-- A removal request is not carried out again while its answer is kept: when a valid request that had
-- no answer yet is given again, valid still, after at most 31 other requests, the second run removes
-- nothing and only sends the answer of the first again, whatever Windows reports by then.
pub run_identity_removal-repeated :
    (rt : Runtime) (observer_id : String) (payload : Payload) (host host' : Host)
    (others : List Request) (o : Observer)
    → is_valid rt host observer_id payload ≡ true
    → is_valid rt host' observer_id payload ≡ true
    → lookup (request_in rt host observer_id payload) o.removal_results ≡ none
    → length others ≤ 31
    → run_identity_removal rt host' observer_id payload
        (run_removals rt observer_id others (run_identity_removal rt host observer_id payload o))
      ≡ send
          (removal_result (
            reported rt observer_id payload host (attempt_removal rt host observer_id payload o).0))
          (run_removals rt observer_id others (run_identity_removal rt host observer_id payload o))
unfolding run_identity_removal
run_identity_removal-repeated rt observer_id payload host host' others o v v' fresh few =
    rw (v, v', fresh)
      (ap (λ m. by_cache rt host' observer_id payload m later) (kept.0)
        ∙ answer_again-reported rt observer_id payload host host'
            (attempt_removal rt host observer_id payload o).0 later)
  where
    id : String
    id = request_in rt host observer_id payload

    first : Observer
    first = report rt host observer_id payload (attempt_removal rt host observer_id payload o)

    later : Observer
    later = run_removals rt observer_id others first

    kept :
        IsAnswered
          (0 + length others)
          id
          (reported rt observer_id payload host (attempt_removal rt host observer_id payload o).0)
          later.removal_results
    kept = run_removals-IsAnswered rt observer_id others 0 id _ first (omega (arith, few)) (
        report-first rt observer_id payload host (attempt_removal rt host observer_id payload o)
          (ap (lookup id) (attempt_removal-results rt observer_id payload host o) ∙ fresh))
