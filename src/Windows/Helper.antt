-- ===== src/Windows/Helper.antt =====
-- The removal of bonds by the helper of the signed-in user: `_run_interactive_identity_removal` of
-- bridge/windows/observer.py. The looks are the result file at each read of the loop before the forty
-- seconds are over; one that is not UTF-8 is left out. What Task Scheduler answers to each of the three commands is a parameter.
pub mod Exact
use presence_bridge.Prelude.{
  ℕ, ◌+◌, ◌=ℕ◌, Bool, true, false, ◌&&◌, not, List, [], ◌∷◌, Option, none, some, String, ◌==◌, map,
  Result, ok, err, if◌then◌else◌,
}
use presence_bridge.Json.{
  Value, null, bool, int, frac, str, arr, obj, Values, nil, cons, Payload, get, is_text, or_else,
  to_text,
}
use presence_bridge.Runtime.{Runtime}
use presence_bridge.Bonds.{BondDevice}
use presence_bridge.Windows.Broker.{File, absent, unreadable, malformed, report}

-- `schtasks.exe` within its five seconds, with its exit code and what it printed, or not.
pub data Answer : Type 0 where
  exited : ℕ → String → Answer
  no_answer : Answer

pub data HelperError : Type 0 where
  task_timeout wait_timeout target_mismatch : HelperError
  unavailable failed : String → HelperError

-- The command file; the schema and the transport are constants.
pub record HelperCommand : Type 0 where
  pub session_id : String
  pub attempt_expires_at : ℕ
  pub targets : List BondDevice

-- The two files that the receiver and the helper share.
pub record Exchange : Type 0 where
  pub command : Option HelperCommand
  pub result : File

unfoldable pub task_command : Bool → Answer → Result HelperError (Unit {0})
task_command required no_answer = err task_timeout
task_command required (exited code detail) =
    if required && not (code =ℕ 0) then err (unavailable detail) else ok tt

-- removed_target_ids == [target.device_id for target in targets]
unfoldable pub are_texts : Values → List String → Bool
are_texts nil [] = true
are_texts nil (t ∷ ts) = false
are_texts (cons v vs) [] = false
are_texts (cons v vs) (t ∷ ts) = let rest = are_texts vs ts in is_text v t && rest

unfoldable pub is_list_of : Value → List String → Bool
is_list_of (arr vs) ts = are_texts vs ts
is_list_of _ ts = false

abbrev pub ids_of : List BondDevice → List String
ids_of targets = map (λ target. target.device_id) targets

module _ (rt : Runtime) (request_id : String) (targets : List BondDevice) where
  -- A report of this request: it ends the wait, or it does not.
  unfoldable pub judge_report : Payload → Option (Result HelperError (Unit {0}))
  judge_report payload =
      if is_text (get "state" payload) "error"
      then some (
          err (
            failed
              (to_text rt.repr (or_else (get "message" payload) (str "Windows removal failed")))))
      else if is_text (get "state" payload) "success"
      then some (
          if is_list_of (get "removed_target_ids" payload) (ids_of targets)
          then ok tt
          else err target_mismatch)
      else none

  unfoldable pub judge_file : File → Option (Result HelperError (Unit {0}))
  judge_file absent = none
  judge_file unreadable = none
  judge_file malformed = none
  judge_file (report payload) =
      if is_text (get "session_id" payload) request_id then judge_report payload else none

  unfoldable pub await_report : List File → Result HelperError (Unit {0})
  await_report [] = err wait_timeout
  await_report (file ∷ looks) =
      let rest = await_report looks in elim (judge_file file) [ some r ↦ r | none ↦ rest ]

  -- The `finally` block: where ending the task raises, both files stay.
  unfoldable pub clean_up :
      Answer → Result HelperError (Unit {0}) → Exchange → Result HelperError (Unit {0}) × Exchange
  clean_up last outcome files = elim (task_command false last) [
    | err e ↦ (err e, files)
    | ok _ ↦ (outcome, record { command = none; result = absent })
  ]

  abbrev pub run_and_wait : Answer → List File → Result HelperError (Unit {0})
  run_and_wait started looks = elim (task_command true started) [
    | err e ↦ err e
    | ok _ ↦ await_report looks
  ]

  -- `written` is what the helper wrote last to the result file.
  unfoldable pub run_interactive_identity_removal :
      ℕ
      → Answer
      → Answer
      → Answer
      → List File
      → File
      → Exchange
      → Result HelperError (Unit {0}) × Exchange
  run_interactive_identity_removal now first started last looks written files =
      elim (task_command false first) [
        | err e ↦ (err e, files)
        | ok _ ↦ clean_up last (run_and_wait started looks) (record {
          command = some (record {
            session_id = request_id;
            attempt_expires_at = now + 40000000;
            targets = targets;
          });
          result = written;
        })
      ]
