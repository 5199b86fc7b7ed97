-- ===== src/Windows/Helper/Exact.antt =====
-- When the helper's removal counts as done, and what is left of the two files.
use presence_bridge.Prelude.{
  ℕ, ◌+◌, Bool, true, false, List, [], ◌∷◌, Option, none, some, String, Result, ok, err,
  if◌then◌else◌, ◌≡◌, ◌⊎◌, inl, inr, refl, arith,
}
use presence_bridge.Json.{Payload, get, is_text}
use presence_bridge.Runtime.{Runtime}
use presence_bridge.Bonds.{BondDevice}
use presence_bridge.Windows.Broker.{File, absent, unreadable, malformed, report}
use presence_bridge.Windows.Helper.{
  Answer, exited, no_answer, HelperError, Exchange, task_command, is_list_of, ids_of, judge_report,
  judge_file, await_report, clean_up, run_and_wait, run_interactive_identity_removal,
}

-- One of the looks is a report of the request that it succeeded with exactly these targets in this
-- order, and no look before it ended the wait.
pub data IsShownBy (rt : Runtime) (request_id : String) (targets : List BondDevice)
    : List File → Type 0 where
  at_look :
      (payload : Payload) (looks : List File)
      → is_text (get "session_id" payload) request_id ≡ true
      → is_text (get "state" payload) "success" ≡ true
      → is_list_of (get "removed_target_ids" payload) (ids_of targets) ≡ true
      → IsShownBy rt request_id targets (report payload ∷ looks)
  later :
      (file : File) (looks : List File)
      → judge_file rt request_id targets file ≡ none
      → IsShownBy rt request_id targets looks
      → IsShownBy rt request_id targets (file ∷ looks)

abbrev pub IsRemoved : Exchange → Type 0
IsRemoved files = (files.command ≡ none) × (files.result ≡ absent)

-- What holds of an outcome, with the files after it.
unfoldable pub IsExact :
    Runtime
    → String
    → List BondDevice
    → (first started last : Answer) → List File
    → Exchange
    → Result HelperError (Unit {0})
    → Exchange
    → Type 0
IsExact rt request_id targets first started last looks files (ok _) files' =
    IsShownBy rt request_id targets looks × (task_command true started ≡ ok tt) × IsRemoved files'
IsExact rt request_id targets first started last looks files (err e) files' =
    ((first ≡ no_answer) × (files' ≡ files)) ⊎ (last ≡ no_answer) ⊎ IsRemoved files'

module _ (rt : Runtime) (request_id : String) (targets : List BondDevice) where
  judge_report-ok :
      (payload : Payload)
      → judge_report rt request_id targets payload ≡ some (ok tt)
      → (is_text (get "state" payload) "success" ≡ true)
        × (is_list_of (get "removed_target_ids" payload) (ids_of targets) ≡ true)
  unfolding judge_report
  judge_report-ok payload h = (ground (arith, h), ground (arith, h))

  judge_file-ok :
      (file : File) (looks : List File)
      → judge_file rt request_id targets file ≡ some (ok tt)
      → IsShownBy rt request_id targets (file ∷ looks)
  unfolding judge_file
  judge_file-ok absent looks h = cc (h)
  judge_file-ok unreadable looks h = cc (h)
  judge_file-ok malformed looks h = cc (h)
  judge_file-ok (report payload) looks h = go (is_text (get "session_id" payload) request_id) refl h
    where
      go :
          (b : Bool)
          → is_text (get "session_id" payload) request_id ≡ b
          → (if b then judge_report rt request_id targets payload else none) ≡ some (ok tt)
          → IsShownBy rt request_id targets (report payload ∷ looks)
      go true e g =
          let (success, exact) = judge_report-ok payload g in at_look payload looks e success exact
      go false e g = cc (g)

  await_report-ok :
      (looks : List File)
      → await_report rt request_id targets looks ≡ ok tt
      → IsShownBy rt request_id targets looks
  unfolding await_report
  await_report-ok [] h = cc (h)
  await_report-ok (file ∷ looks) h =
      go (await_report-ok looks) (judge_file rt request_id targets file) refl h
    where
      go :
          (await_report rt request_id targets looks ≡ ok tt → IsShownBy rt request_id targets looks)
          → (judged : Option (Result HelperError (Unit {0})))
          → judge_file rt request_id targets file ≡ judged
          → (elim judged [ some r ↦ r | none ↦ await_report rt request_id targets looks ]) ≡ ok tt
          → IsShownBy rt request_id targets (file ∷ looks)
      go by_rest none e g = later file looks e (by_rest g)
      go by_rest (some (ok _)) e g = judge_file-ok file looks e
      go by_rest (some (err x)) e g = cc (g)

  run_and_wait-ok :
      (started : Answer) (looks : List File)
      → run_and_wait rt request_id targets started looks ≡ ok tt
      → (task_command true started ≡ ok tt) × IsShownBy rt request_id targets looks
  run_and_wait-ok started looks h = go (task_command true started) refl h
    where
      go :
          (r : Result HelperError (Unit {0}))
          → task_command true started ≡ r
          → (elim r [ err e ↦ err e | ok _ ↦ await_report rt request_id targets looks ]) ≡ ok tt
          → (task_command true started ≡ ok tt) × IsShownBy rt request_id targets looks
      go (ok _) e g = (e, await_report-ok looks g)
      go (err x) e g = cc (g)

  clean_up-IsExact :
      (code : ℕ) (detail : String) (started last : Answer) (looks : List File) (files : Exchange)
      (outcome : Result HelperError (Unit {0})) (left : Exchange)
      → (outcome ≡ ok tt
          → (task_command true started ≡ ok tt) × IsShownBy rt request_id targets looks)
      → IsExact rt request_id targets
          (exited code detail)
          started
          last
          looks
          files
          (clean_up rt request_id targets last outcome left).0
          (clean_up rt request_id targets last outcome left).1
  unfolding clean_up task_command IsExact
  clean_up-IsExact code detail started no_answer looks files outcome left h = inr (inl refl)
  clean_up-IsExact code detail started (exited c d) looks files (ok _) left h =
      let (start, shown) = h refl in (shown, start, (refl, refl))
  clean_up-IsExact code detail started (exited c d) looks files (err e) left h =
      inr (inr (refl, refl))

  -- The removal by the helper returns only if the task was started and the helper reported, before
  -- the wait was over, for this request, that it removed exactly these targets in this order; no report
  -- before that one ended the wait. Both files are removed then, and after a failure too, unless Task
  -- Scheduler did not answer: where it did not at first, they are as before.
  pub run_interactive_identity_removal-IsExact :
      (now : ℕ) (first started last : Answer) (looks : List File) (written : File)
      (files : Exchange)
      → IsExact rt request_id targets first started last looks files
          (run_interactive_identity_removal rt request_id targets now first started last looks
            written files).0
          (run_interactive_identity_removal rt request_id targets now first started last looks
            written files).1
  unfolding run_interactive_identity_removal clean_up task_command IsExact
  run_interactive_identity_removal-IsExact now no_answer started last looks written files =
      inl (refl, refl)
  run_interactive_identity_removal-IsExact now (exited code detail) started last looks written
        files =
      clean_up-IsExact code detail started last looks files
        (run_and_wait rt request_id targets started looks)
        (record {
          command = some (record {
            session_id = request_id;
            attempt_expires_at = now + 40000000;
            targets = targets;
          });
          result = written;
        })
        (run_and_wait-ok started looks)
