-- ===== src/Windows/Removals.antt =====
-- `_run_identity_removal` of bridge/windows/observer.py.
pub mod Kept
pub mod Repeated
pub mod Sound
pub mod Shown
use presence_bridge.Prelude.{
  ℕ, ◌+◌, ◌*◌, ltb, leb, Bool, true, false, ◌&&◌, ◌||◌, not, List, [], ◌∷◌, Option, none, some,
  String, ◌==◌, Dict, lookup, insert, cut, length, ℤ, pos, negsuc, Result, ok, err, if◌then◌else◌,
}
use presence_bridge.Json.{Payload, get, is_text, text_at}
use presence_bridge.Runtime.{Runtime}
use presence_bridge.Coordinator.Status.{is_pairing_session_id, is_fingerprint, to_float}
use presence_bridge.Bonds.{BondDevice, BondError, remove_identity_bonds}
use presence_bridge.Windows.State.{
  Observer, Host, Run, BondOffer, Removal, RemovalError, RemovalResult, removed, refused,
  offer_mismatch, still_stopping, pairing_active, scanner_busy, bonds, Sent, removal_result,
  heartbeat, send, pause_scanner, resume_scanner, is_running, stop_run,
}

abbrev pub equals : Option String → String → Bool
equals none s = false
equals (some t) s = t == s

-- time.time() < deadline <= time.time() + 90
abbrev in_window : ℕ → Option ℤ → Bool
in_window now (some (pos d)) = ltb now d && leb d (now + 90000000)
in_window now _ = false

-- while len(results) > 32: results.pop(next(iter(results)))
unfoldable pub trim : Dict RemovalResult → Dict RemovalResult
trim [] = []
trim (entry ∷ results) =
    let rest = trim results in if ltb 31 (length results) then rest else entry ∷ results

unfoldable pub remember : RemovalResult → Observer → Observer
remember result o = record o {
  removal_results = trim (insert result.request_id result o.removal_results);
}

module _ (rt : Runtime) (host : Host) (observer_id : String) (payload : Payload) where
  abbrev pub fingerprint_in : String
  fingerprint_in = text_at rt.repr "fingerprint" payload

  abbrev pub request_in : String
  request_in = text_at rt.repr "request_id" payload

  unfoldable pub is_valid : Bool
  is_valid =
      in_window host.now (to_float rt (get "expires_at" payload))
      && is_pairing_session_id request_in
      && is_fingerprint fingerprint_in
      && text_at rt.repr "identity_id" payload == cut 16 fingerprint_in
      && is_text (get "observer_id" payload) observer_id

  -- The offer is open, is the one that the command names, and is of the current session.
  unfoldable pub is_offered : Option String → Option BondOffer → Bool
  is_offered session_id none = false
  is_offered session_id (some offer) =
      ltb host.now (offer.expires_at * 1000000)
      && is_text (get "repair_id" payload) offer.repair_id
      && is_text (get "session_id" payload) offer.session_id
      && is_text (get "fingerprint" payload) offer.fingerprint
      && equals session_id offer.session_id

  -- The failed attempt is stopped; where it does not end in ten seconds, it goes on to be cancelled.
  unfoldable pub stop_attempt : Option Run → Observer → Result RemovalError (Unit {0}) × Observer
  stop_attempt none o = (ok tt, o)
  stop_attempt (some r) o =
      if r.done
      then (ok tt, o)
      else if host.task_stops
      then (ok tt, stop_run r o)
      else (err still_stopping, record o { run = some (record r { cancelling = true }) })

  unfoldable pub take_offer : Observer → Result RemovalError (Unit {0}) × Observer
  take_offer o =
      if not (is_text (get "action" payload) "repair_pairing")
      then (ok tt, o)
      else if is_offered o.session_id o.bond_repair_offer
      then stop_attempt o.run (record o { bond_repair_offer = none })
      else (err offer_mismatch, o)

  abbrev pub removal_of : Result BondError ℕ → Result RemovalError ℕ
  removal_of (ok count) = ok count
  removal_of (err e) = err (bonds e)

  -- The removal while the scan is paused, and its end.
  unfoldable pub remove_paused : Observer → Result RemovalError ℕ × Observer
  remove_paused o =
      let o' = send heartbeat o in
      let (result, journal) =
        remove_identity_bonds rt fingerprint_in host.sightings host.unpairs o'.journal in
      (removal_of result, resume_scanner (record o' { journal = journal }))

  unfoldable pub pause_and_remove : Observer → Result RemovalError ℕ × Observer
  pause_and_remove o =
      let (returned, o') = pause_scanner host.scanner_stops o in
      if is_running o.run
      then (err pairing_active, o)
      else if returned
      then remove_paused o'
      else (err scanner_busy, o')

  abbrev pub after_offer :
      Result RemovalError (Unit {0}) × Observer → Result RemovalError ℕ × Observer
  after_offer (ok _, o) = pause_and_remove o
  after_offer (err e, o) = (err e, o)

  unfoldable pub attempt_removal : Observer → Result RemovalError ℕ × Observer
  attempt_removal o = after_offer (take_offer o)

  abbrev pub outcome_of : Result RemovalError ℕ → Removal
  outcome_of (ok count) = removed count
  outcome_of (err e) = refused e

  unfoldable pub report : Result RemovalError ℕ × Observer → Observer
  report (result, o) =
      let row : RemovalResult = record {
        request_id = request_in;
        identity_id = text_at rt.repr "identity_id" payload;
        fingerprint = fingerprint_in;
        observer_id = observer_id;
        outcome = outcome_of result;
      } in
      send (removal_result row) (remember row o)

  -- A request that was answered gets the same answer again.
  unfoldable pub answer_again : RemovalResult → Observer → Observer
  answer_again cached o =
      if cached.fingerprint == fingerprint_in then send (removal_result cached) o else o

  abbrev pub by_cache : Option RemovalResult → Observer → Observer
  by_cache (some cached) o = answer_again cached o
  by_cache none o = report (attempt_removal o)

  unfoldable pub run_identity_removal : Observer → Observer
  run_identity_removal o = if is_valid then by_cache (lookup request_in o.removal_results) o else o
