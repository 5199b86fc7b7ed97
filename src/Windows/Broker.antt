-- ===== src/Windows/Broker.antt =====
-- Waiting for the pairing helper of the signed-in user: `_run_interactive_app_pairing` of
-- bridge/windows/observer.py. Each look is the result file and the clocks at that time: `mono` is
-- time.monotonic() and `epoch` time.time(), in microseconds. A deadline before the clock's zero is
-- taken as 0, which every look is past too.

pub mod Turns
pub mod Onward
pub mod Ended
use presence_bridge.Prelude.{
  ℕ, zero, suc, ◌+◌, ◌-◌, ◌*◌, ◌/◌, ltb, leb, ◌=ℕ◌, min, max, Bool, true, false, ◌&&◌, ◌||◌, not,
  List, [], ◌∷◌, Option, none, some, String, ◌==◌, ℤ, pos, negsuc, pos_part, leb_ℤ, if◌then◌else◌,
}
use presence_bridge.Json.{
  Value, null, int, str, bool, Payload, get, is_text, is_true, or_else, to_int, to_text, text_at,
}
use presence_bridge.Runtime.{Runtime}
use presence_bridge.Coordinator.Types.{seconds, is_member}
use presence_bridge.Windows.Keys.{normalize_address}
use presence_bridge.Windows.Progress.{Lease, least_lease, lease_after}

-- The result file at a look: not there, not readable as JSON yet, JSON that is no object, or a report.
pub data File : Type 0 where
  absent unreadable malformed : File
  report : Payload → File

pub record Look : Type 0 where
  pub mono : ℕ
  pub epoch : ℕ
  pub file : File

-- How the wait ends: in time or not, or with what the helper reports. `helper_failed` says whether it
-- reports a timeout, and `no_object` is the AttributeError.
pub data Ending : Type 0 where
  timed_out unconfirmed no_object : Ending
  helper_failed : Bool → String → String → Ending
  succeeded : (address name transport : String) (secure : Bool) → Ending

-- The loop's variables; `lease` is self._app_attempt_expires_at, and `reported` the progress that was
-- passed on, the latest first.
pub record Waiting : Type 0 where
  pub deadline : ℕ
  pub attempt : Option ℕ
  pub lease : Option ℕ
  pub last_update : Option (String × String)
  pub reported : List (String × String)

pub data Turn : Type 0 where
  again : Waiting → Turn
  ended : Ending → Turn

handoff_codes : List String
handoff_codes =
    "iphone_advertisement_seen" ∷ "iphone_candidate_unverified" ∷ "receiver_proximity_confirmed"
    ∷ "iphone_session_verified" ∷ "iphone_bond_ready" ∷ "iphone_bond_settling"
    ∷ "iphone_bond_reconnecting" ∷ "iphone_claim_received" ∷ "iphone_claim_accepted"
    ∷ "iphone_ack_deferred" ∷ []

-- A positive number of seconds, or 0.
abbrev positive : Option ℤ → ℕ
positive none = 0
positive (some n) = pos_part n

abbrev pub seconds_at : String → Payload → ℕ
seconds_at key payload = positive (to_int (or_else (get key payload) (int (pos 0))))

-- min(*reported_deadlines), 0 where there are none
abbrev pub least_positive : ℕ → ℕ → ℕ
least_positive a b = if a =ℕ 0 then b else if b =ℕ 0 then a else min a b

-- attempt_deadline after a report, with the least deadline that it has; `now` is in seconds
unfoldable pub attempt_after : ℕ → String → ℕ → Option ℕ → Option ℕ
unfolding handoff_codes
attempt_after now code least attempt =
    let bounded = min least (now + 300) * 1000000 in
    let opened = if is_member code handoff_codes then some ((now + 300) * 1000000) else none in
    if not (least =ℕ 0)
    then some (least_lease attempt bounded)
    else elim attempt [ some a ↦ some a | none ↦ opened ]

abbrev pub is_leased : Option ℕ → Bool
is_leased none = false
is_leased (some a) = not (a =ℕ 0)

-- deadline after a report, with the attempt's
unfoldable pub deadline_after : Bool → ℕ → ℕ → ℕ → ℕ → ℕ
deadline_after leased deadline mono now a =
    let at_attempt = mono + a - now * 1000000 in
    if leased then min deadline at_attempt else at_attempt

-- the deadline, the attempt and the lease, updated
unfoldable pub leased : Look → Option ℕ → Waiting → Waiting
leased look none w = record w { attempt = none }
leased look (some a) w = record w {
  deadline = deadline_after (is_leased w.lease) w.deadline look.mono (seconds look.epoch) a;
  attempt = some a;
  lease = some a;
}

abbrev pub is_same : Option (String × String) → String → String → Bool
is_same none code message = false
is_same (some (c, m)) code message = c == code && m == message

-- The callback: it does nothing for a receipt, and `publish_progress` otherwise. Its effect on the
-- lease is that of the attempt's deadline in whole seconds.
unfoldable pub call_back : Bool → Look → String → String → Waiting → Waiting
call_back true look code message w = w
call_back false look code message w = record w {
  lease = elim w.attempt [
    | none ↦ w.lease
    | some a ↦
        lease_after look.epoch
          (record {
            attempt_expires_at = some (seconds a);
            completion_expires_at = none;
            fields = [];
          })
          w.lease
  ];
  reported = (code, message) ∷ w.reported;
}

-- if time.monotonic() >= deadline: break
abbrev pub unless_late : Look → Waiting → Turn
unless_late look w = if leb w.deadline look.mono then ended timed_out else again w

-- what `receipt` and the session say of a look
module _ (rt : Runtime) (receipt : Bool) (session_id : String) where
  abbrev pub code_of : Payload → String
  code_of payload =
      to_text rt.repr (or_else (get "detail_code" payload) (str "interactive_pairing"))

  abbrev pub message_of : Payload → String
  message_of payload = to_text rt.repr (or_else (get "message" payload) (str (code_of payload)))

  unfoldable pub ending_of_success : Payload → Ending
  ending_of_success payload =
      let secure = is_true (get "secure_exchange_complete" payload) in
      if not receipt && not secure
      then unconfirmed
      else succeeded (text_at rt.repr "address" payload)
          (to_text rt.repr (or_else (get "name" payload) (str "Presence Pair iPhone")))
          (to_text rt.repr (or_else (get "transport" payload) (str "iphone_peripheral"))) secure

  -- Progress is passed on when it is new.
  unfoldable pub pass_on : Look → String → String → Waiting → Waiting
  pass_on look code message w =
      if is_same w.last_update code message
      then w
      else call_back receipt look code message (record w { last_update = some (code, message) })

  unfoldable pub act : Look → Payload → String → Waiting → Turn
  act look payload state w =
      if state == "success"
      then ended (ending_of_success payload)
      else if state == "error"
      then ended (
          helper_failed (is_text (get "failure_state" payload) "timeout") (code_of payload)
            (message_of payload))
      else again
          (if state == "progress" then pass_on look (code_of payload) (message_of payload) w else w)

  -- A report of this session.
  unfoldable pub own_report : Look → Payload → Waiting → Turn
  own_report look payload w =
      let least =
        least_positive (seconds_at "attempt_expires_at" payload)
          (seconds_at "completion_expires_at" payload) in
      let w' =
        leased look (attempt_after (seconds look.epoch) (code_of payload) least w.attempt) w in
      if leb w'.deadline look.mono
      then ended timed_out
      else act look payload (text_at rt.repr "state" payload) w'

  -- One turn of the loop.
  unfoldable pub turn : Look → File → Waiting → Turn
  turn look absent w = unless_late look w
  turn look unreadable w = again w
  turn look malformed w = ended no_object
  turn look (report payload) w =
      if is_text (get "session_id" payload) session_id then own_report look payload w else again w

  -- The loop, for `n` looks from look `k` on.
  unfoldable pub wait_for_helper : ℕ → ℕ → (ℕ → Look) → Waiting → Option Ending
  wait_for_helper zero k looks w = none
  wait_for_helper (suc n) k looks w =
      let next = wait_for_helper n (k + 1) looks in
      elim (turn (looks k) (looks k).file w) [ again w' ↦ next w' | ended e ↦ some e ]

-- The loop's variables at its start; `expires_at` is the link's, and `timeout` in seconds.
unfoldable pub begin_wait : Bool → ℕ → ℕ → ℕ → ℕ → Option ℕ → Waiting
begin_wait receipt mono epoch expires_at timeout lease =
    let by_link =
      min (mono + timeout * 1000000) (mono + max 1 (expires_at - seconds epoch) * 1000000) in
    record {
      deadline =
          if receipt then elim lease [ none ↦ by_link | some a ↦ mono + (a - epoch) ] else by_link;
      attempt = if receipt then lease else none;
      lease = lease;
      last_update = none;
      reported = [];
    }
