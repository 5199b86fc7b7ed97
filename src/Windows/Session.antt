-- ===== src/Windows/Session.antt =====
-- `_run_app_pairing_session` and `_run_pairing_session` of bridge/windows/observer.py: what a pairing
-- task does in order, given what it meets. What the encryption and the phone do are parameters.
pub mod Secure
pub mod Resumed
use presence_bridge.Prelude.{
  ℕ, ltb, Bool, true, false, ◌&&◌, not, List, [], ◌∷◌, ◌++◌, Option, none, some, String, ◌==◌, Dict,
  length, Bytes, Result, ok, err, if◌then◌else◌,
}
use presence_bridge.Json.{Value, str}
use presence_bridge.Windows.Keys.{
  KeyRecord, InvalidIrk, normalize_text, select_new_irk_records, select_irk_record_for_address,
  verified_app_identity_payload,
}

-- What ends a session early: a ReverseGattError, of a timeout or not, a cancellation, any other error.
pub data Fault : Type 0 where
  gatt : (is_timeout : Bool) (code : String) → Fault
  cancelled other : Fault

-- What a session does: it pauses and resumes the scan, makes Windows discoverable or not, posts a
-- status, sends the encrypted identity on the topic of the bridge and on its own, and has the completion (`true`) or failure receipt shown.
pub data Event : Type 0 where
  paused resumed : Event
  discoverable : Bool → Event
  posted : (state code : String) → Event
  bridge_result sent_result : String → Event
  receipt : Bool → Event

pub record Peer : Type 0 where
  pub address : String
  pub secure_exchange_complete : Bool

-- What an app pairing meets: what stops the first pause, what stops the first read of the keys, the
-- keys before, whether the task that repeats the status fails before it is cancelled, the phone, the keys at each
-- read, what ends the reads (the deadline is `other`), the encryption, the commit of Home Assistant,
-- what stops the second pause, the completion receipt, the code of the client's last failure, whether
-- the signed-in helper is used, and whether the attempt's lease is still open when the session fails.
pub record Encounter : Type 0 where
  pub pause_fault : Option Fault
  pub baseline_fault : Option Fault
  pub baseline : List KeyRecord
  pub heartbeat_fails : Bool
  pub peer : Result Fault Peer
  pub reads : List (List KeyRecord)
  pub last : Fault
  pub encrypt : Dict Value → Option String
  pub commit : Result Fault (Unit {0})
  pub second_fault : Option Fault
  pub confirm : Result Fault (Unit {0})
  pub detail_code : String
  pub interactive : Bool
  pub leased : Bool

-- What a part of a session did, how it ended, and whether it has the scan paused and the task that
-- repeats the status (`heartbeat_task`) still to be ended.
pub record Part : Type 0 where
  pub events : List Event
  pub fault : Option Fault
  pub has_paused : Bool
  pub has_heartbeat : Bool

abbrev pub part : List Event → Option Fault → Bool → Part
part events fault has_paused = record {
  events = events;
  fault = fault;
  has_paused = has_paused;
  has_heartbeat = false;
}

-- A fault while the phone is waited for, or its key.
abbrev pub failing : Fault → Part
failing fault = record { events = []; fault = some fault; has_paused = true; has_heartbeat = true }

abbrev pub before : List Event → Part → Part
before events p = record p { events = events ++ p.events }

-- The handlers of `_run_app_pairing_session`.
unfoldable pub handled : Encounter → Option Fault → List Event
handled e none = []
handled e (some (gatt is_timeout code)) =
    posted (if is_timeout then "timeout" else "error") code
    ∷ (if e.interactive && e.leased then receipt false ∷ [] else [])
handled e (some cancelled) = posted "cancelled" "" ∷ []
handled e (some other) =
    posted "error" (if e.detail_code == "" then "pairing_failed" else e.detail_code) ∷ []

-- the `finally` block
abbrev pub released : Bool → List Event
released true = resumed ∷ []
released false = []

-- The heartbeat task is ended first: where it failed, awaiting it raises that failure, in the handler
-- of a ReverseGattError before it has posted anything, and again in the `finally` block, before the scan
-- is resumed.
unfoldable pub stuck : Encounter → Option Fault → List Event
stuck e (some (gatt is_timeout code)) = []
stuck e fault = handled e fault

unfoldable pub conclude : Encounter → Part → List Event
conclude e p =
    if p.has_heartbeat && e.heartbeat_fails
    then p.events ++ stuck e p.fault
    else p.events ++ (handled e p.fault ++ released p.has_paused)

-- The completion receipt, and the second pause before it.
unfoldable pub confirm_receipt : Result Fault (Unit {0}) → Part
confirm_receipt (ok _) = part (paused ∷ receipt true ∷ []) none true
confirm_receipt (err f) = part (paused ∷ []) (some f) true

unfoldable pub pause_again : Encounter → Option Fault → Part
pause_again e none = confirm_receipt e.confirm
pause_again e (some f) = part [] (some f) false

unfoldable pub show_receipt : Encounter → Result Fault (Unit {0}) → Part
show_receipt e (err f) = part [] (some f) false
show_receipt e (ok _) = pause_again e e.second_fault

-- The identity is sent, on both topics, and Home Assistant has to commit it.
unfoldable pub deliver : Encounter → String → Part
deliver e ciphertext =
    if e.heartbeat_fails
    then failing other
    else before
        (posted "identity_captured" "identity_captured"
          ∷ resumed
          ∷ bridge_result ciphertext
          ∷ sent_result ciphertext
          ∷ [])
        (show_receipt e e.commit)

module _ (aes : Bytes → Bytes → Bytes) where
  -- The loop that looks for the key of the phone.
  unfoldable pub capture :
      Fault → List KeyRecord → String → List (List KeyRecord) → Result Fault KeyRecord
  capture last baseline address [] = err last
  capture last baseline address (current ∷ reads) =
      let later = capture last baseline address reads in
      elim (select_irk_record_for_address aes current address) [
        | some row ↦ ok row
        | none ↦
            if ltb 1 (length (select_new_irk_records baseline current)) then err other else later
      ]

  abbrev pub encrypted : Encounter → Result InvalidIrk (Dict Value) → Option String
  encrypted e (ok payload) = e.encrypt payload
  encrypted e (err _) = none

  unfoldable pub deliver_encrypted : Encounter → Option String → Part
  deliver_encrypted e none = failing other
  deliver_encrypted e (some ciphertext) = deliver e ciphertext

  unfoldable pub deliver_captured : Encounter → Result Fault KeyRecord → Part
  deliver_captured e (err f) = failing f
  deliver_captured e (ok row) =
      deliver_encrypted e (encrypted e (verified_app_identity_payload row))

  -- The phone is there: only one that went through the encrypted exchange is taken.
  unfoldable pub exchange : Encounter → Result Fault Peer → Part
  exchange e (err f) = failing f
  exchange e (ok peer) =
      if peer.secure_exchange_complete
      then before (posted "bonding" "iphone_claim_accepted" ∷ [])
          (deliver_captured e (capture e.last e.baseline peer.address e.reads))
      else failing (gatt false "iphone_secure_exchange_missing")

  unfoldable pub run_with_baseline : Encounter → Option Fault → List Event
  run_with_baseline e none =
      posted "waiting_for_app" "waiting_for_iphone_advertisement" ∷ conclude e (exchange e e.peer)
  run_with_baseline e (some f) = conclude e (part [] (some f) true)

  unfoldable pub run_paused : Encounter → Option Fault → List Event
  run_paused e none = paused ∷ run_with_baseline e e.baseline_fault
  run_paused e (some f) = conclude e (part [] (some f) false)

  -- `_run_app_pairing_session`
  unfoldable pub run_app_session : Encounter → List Event
  run_app_session e = run_paused e e.pause_fault

-- What a pairing by hand meets: what stops the pause, the keys before, whether Windows becomes
-- discoverable, the keys at each read, what ends the reads where the deadline does not, the time
-- as a text, and the encryption.
pub record ManualEncounter : Type 0 where
  pub pause_fault : Option Fault
  pub baseline : List KeyRecord
  pub becomes_discoverable : Bool
  pub reads : List (List KeyRecord)
  pub last : Option Fault
  pub captured_at : String
  pub encrypt : Dict Value → Option String

abbrev pub manual_payload : String → KeyRecord → Dict Value
manual_payload captured_at row =
    ("irk", str row.irk)
    ∷ ("matched_address", str (normalize_text row.registry_leaf))
    ∷ ("captured_at", str captured_at)
    ∷ []

abbrev pub manual_sent : Option String → List Event
manual_sent none = posted "error" "" ∷ []
manual_sent (some ciphertext) = sent_result ciphertext ∷ posted "identity_captured" "" ∷ []

-- The status of a pairing by hand that ends without a phone.
unfoldable pub manual_end : Option Fault → List Event
manual_end none = posted "timeout" "" ∷ []
manual_end (some cancelled) = posted "cancelled" "" ∷ []
manual_end (some _) = posted "error" "" ∷ []

-- The loop that looks for the one new key; each read is a turn of it.
unfoldable pub look_for_new :
    (Dict Value → Option String)
    → String
    → Option Fault
    → List KeyRecord
    → List (List KeyRecord)
    → List Event
look_for_new encrypt captured_at last baseline [] = manual_end last
look_for_new encrypt captured_at last baseline (current ∷ reads) =
    let later = look_for_new encrypt captured_at last baseline reads in
    elim (select_new_irk_records baseline current) [
      | [] ↦ later
      | row ∷ [] ↦ manual_sent (encrypt (manual_payload captured_at row))
      | _ ∷ _ ∷ _ ↦ posted "error" "" ∷ []
    ]

unfoldable pub run_discoverable : ManualEncounter → List Event
run_discoverable e =
    if e.becomes_discoverable
    then posted "waiting_for_phone" ""
      ∷ look_for_new e.encrypt e.captured_at e.last e.baseline e.reads
    else posted "error" "" ∷ []

unfoldable pub run_manual_paused : ManualEncounter → Option Fault → List Event
run_manual_paused e none =
    paused ∷ discoverable true ∷ run_discoverable e ++ (discoverable false ∷ resumed ∷ [])
run_manual_paused e (some f) = manual_end (some f) ++ (discoverable false ∷ [])

-- `_run_pairing_session`
unfoldable pub run_manual_session : ManualEncounter → List Event
run_manual_session e = run_manual_paused e e.pause_fault
