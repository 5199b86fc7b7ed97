-- ===== src/Windows/State.antt =====
-- The state of `BlePresenceObserver` in bridge/windows/observer.py that its commands and its pairing
-- task share, and the pausing of the scan. Times are whole microseconds since the epoch.
pub mod Sound
use presence_bridge.Prelude.{
  ℕ, Bool, true, false, ◌&&◌, not, List, [], ◌∷◌, Option, none, some, String, Dict, Bytes, ℤ,
  if◌then◌else◌,
}
use presence_bridge.Json.{Payload}
use presence_bridge.Protocol.Link.{PairingLink}
use presence_bridge.Bonds.{BondDevice, BondError, Sighting}

-- What a pairing task is created with.
pub data Job : Type 0 where
  app_job : (link : PairingLink) (public_key : String) (timeout : ℤ) (gatt : Payload) → Job
  manual_job : (session_id : String) (public_key : String) (timeout : ℤ) → Job

-- A pairing task: whether it began, is in the body that reports a cancellation, has the scan paused
-- (`scanner_paused`), was told to stop, and is done.
pub record Run : Type 0 where
  pub job : Job
  pub in_body : Bool
  pub paused : Bool
  pub cancelling : Bool
  pub done : Bool

-- self._bond_repair_offer; its deadline is in whole seconds
pub record BondOffer : Type 0 where
  pub repair_id : String
  pub session_id : String
  pub fingerprint : String
  pub expires_at : ℕ

pub data RemovalError : Type 0 where
  offer_mismatch still_stopping pairing_active scanner_busy : RemovalError
  bonds : BondError → RemovalError

pub data Removal : Type 0 where
  removed : ℕ → Removal
  refused : RemovalError → Removal

pub record RemovalResult : Type 0 where
  pub request_id : String
  pub identity_id : String
  pub fingerprint : String
  pub observer_id : String
  pub outcome : Removal

-- A message that the receiver sends.
pub data Sent : Type 0 where
  status : (session_id state message : String) → Sent
  removal_result : RemovalResult → Sent
  heartbeat : Sent

-- `journal` is the file identity-removals.json; the latest message is the first of `sent`.
pub record Observer : Type 0 where
  pub run : Option Run
  pub action : Option String
  pub session_id : Option String
  pub committed : Bool
  pub attempt_expires_at : Option ℕ
  pub removal_results : Dict RemovalResult
  pub bond_repair_offer : Option BondOffer
  pub pause_requested : Bool
  pub journal : Dict (List BondDevice)
  pub sent : List Sent

-- What a command meets outside: whether a public key loads, whether the scan stops in ten seconds and
-- a cancelled task in ten, and what Windows reports and does for `remove_identity_bonds`.
pub record Host : Type 0 where
  pub now : ℕ
  pub loads_key : String → Bool
  pub scanner_stops : Bool
  pub task_stops : Bool
  pub sightings : ℕ → Sighting
  pub unpairs : List BondDevice → Bool

abbrev pub send : Sent → Observer → Observer
send message o = record o { sent = message ∷ o.sent }

-- `_pause_scanner_for_pairing`, and whether it returns
unfoldable pub pause_scanner : Bool → Observer → Bool × Observer
pause_scanner stops o = (stops, record o { pause_requested = stops })

-- `_resume_scanner_after_pairing`
unfoldable pub resume_scanner : Observer → Observer
resume_scanner o = record o { pause_requested = false }

abbrev pub is_running : Option Run → Bool
is_running none = false
is_running (some r) = not r.done

abbrev pub session_of : Job → String
session_of (app_job link _ _ _) = link.session_id
session_of (manual_job session_id _ _) = session_id

abbrev cancelled_message : Job → String
cancelled_message (app_job _ _ _ _) = "Pairing cancelled"
cancelled_message (manual_job _ _ _) = "Abbinamento annullato"

-- The end of a task: its `finally` block.
unfoldable pub finish_run : Run → Observer → Observer
finish_run r o = record o {
  run = some (record r { paused = false; in_body = false; done = true });
  pause_requested = if r.paused then false else o.pause_requested;
}

-- The end of a task that was cancelled: where it is in its body, it reports it.
unfoldable pub stop_run : Run → Observer → Observer
stop_run r o =
    let o' = finish_run r o in
    if r.in_body
    then send (status (session_of r.job) "cancelled" (cancelled_message r.job)) o'
    else o'

-- `task.cancel()`, and waiting until the task has ended
unfoldable pub cancel_and_wait : Option Run → Observer → Observer
cancel_and_wait none o = o
cancel_and_wait (some r) o = if r.done then o else stop_run r o

-- What a pairing task does to the state that it shares, at its start, when it has captured an
-- identity, when it reads the receipt, on an error (its handlers run outside of the body), and when it
-- ends. `pause_run` and `pause_again` are with whether the scan stops.
pub data RunEvent : Type 0 where
  pause_run : Bool → RunEvent
  capture_run : RunEvent
  pause_again : Bool → RunEvent
  fail_run end_run cancel_run : RunEvent

abbrev pausing : Bool → Run → Observer → Observer
pausing stops r o =
    let (returned, o') = pause_scanner stops o in
    record o' { run = some (record r { in_body = returned; paused = returned }) }

unfoldable pub run_event : RunEvent → Run → Observer → Observer
run_event (pause_run stops) r o = pausing stops r o
run_event capture_run r o = record (resume_scanner o) { run = some (record r { paused = false }) }
run_event (pause_again stops) r o = pausing stops r o
run_event fail_run r o = record o { run = some (record r { in_body = false }) }
run_event end_run r o = finish_run r o
run_event cancel_run r o = stop_run r o

-- An event of the task, as long as there is one that is not done.
unfoldable pub handle_event : RunEvent → Observer → Observer
handle_event e o = elim o.run [ none ↦ o | some r ↦ if r.done then o else run_event e r o ]
