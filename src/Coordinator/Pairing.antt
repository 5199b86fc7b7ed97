-- ===== src/Coordinator/Pairing.antt =====
-- Starting and cancelling a pairing: `async_start_pairing`, `_async_start_pairing_locked`,
-- `_select_observer`, `async_cancel_pairing`, and the deadline check of `_async_periodic_refresh`.
pub mod Selected
pub mod Opened
pub mod Expired
use Prim.Native.Nat.{Ordering}
use Prim.Native.String.{compare, ◌++◌ as append}
use presence_bridge.Prelude.{
  ℕ, zero, suc, ◌+◌, ◌-◌, ltb, leb, ◌=ℕ◌, min, max, Bool, true, false, ◌&&◌, ◌||◌, not, List, [],
  ◌∷◌, ◌++◌, Option, none, some, String, ◌==◌, Dict, lookup, insert, filter, find?, map, cut, strip,
  lower, starts_with, any, Result, ok, err, ℤ, pos, negsuc, Bytes, if◌then◌else◌,
}
use presence_bridge.Json.{Value, null, bool, int, str, is_text}
use presence_bridge.Runtime.{Runtime}
use presence_bridge.Protocol.Errors.{ProtocolError}
use presence_bridge.Protocol.Link.{PairingLink}
use presence_bridge.Protocol.Uri.{to_uri}
use presence_bridge.Coordinator.Types.{
  Coordinator, Session, ObserverState, seconds, is_member, min_pairing_timeout, max_pairing_timeout,
}
use presence_bridge.Coordinator.Lease.{pairing_deadline}
use presence_bridge.Coordinator.Public.{set_pairing_state}
use presence_bridge.Coordinator.Action.{
  World, Env, Act, HaError, Command, start_app_pairing, cancel, select_person, no_observer,
  invalid_link, pure, raise, gets, modify, require, publish, ◌>>=◌, ◌>>◌,
}

abbrev has_lease : Option ℕ → Bool
has_lease none = false
has_lease (some d) = ltb 0 d

unfoldable pub is_candidate : ObserverState → Bool
is_candidate o = o.online && is_member "app_pairing" o.capabilities

abbrev pub values {ℓ} : {V : Type ℓ} → Dict V → List V
values [] = []
values ((k, v) ∷ d) = v ∷ values d

abbrev pub before : String → String → Bool
before s t = elim (compare s t) [ Ordering.lt ↦ true | _ ↦ false ]

-- sorted(…, key=…)[0]: the first of the least
unfoldable pub least : (ObserverState → String) → ObserverState → List ObserverState → ObserverState
least key o [] = o
least key o (p ∷ ps) = least key (if before (key p) (key o) then p else o) ps

-- `requested` is `str(observer_id or "").strip().lower()`
unfoldable pub select_observer : Runtime → String → Dict ObserverState → Option ObserverState
select_observer rt requested observers =
    let candidates = filter is_candidate (values observers) in
    if requested == ""
    then elim candidates [ [] ↦ none | o ∷ os ↦ some (least (λ o. rt.casefold o.name) o os) ]
    else find? (λ o. o.observer_id == requested) candidates

-- max(MIN_PAIRING_TIMEOUT, min(MAX_PAIRING_TIMEOUT, int(timeout_seconds)))
unfoldable pub clamp_timeout : ℤ → ℕ
clamp_timeout (pos n) = max min_pairing_timeout (min max_pairing_timeout n)
clamp_timeout (negsuc n) = min_pairing_timeout

-- _FORCED_RENEWAL_COALESCE_SECONDS, in microseconds
abbrev pub forced_renewal_coalesce : ℕ
forced_renewal_coalesce = 30000000

-- The current session serves the new request.
unfoldable pub is_reusable : Env → String → String → Bool → Session → Bool
is_reusable env person_entity_id observer_id force_new current =
    let recent =
      force_new
      && not (current.started_monotonic =ℕ 0)
      && ltb env.monotonic (current.started_monotonic + forced_renewal_coalesce) in
    current.person_entity_id == person_entity_id
    && current.observer_id == observer_id
    && ltb (seconds env.now + 10) (pairing_deadline current)
    && (not force_new || recent)

abbrev reusable : Env → String → String → Bool → Option Session → Bool
reusable env person observer_id force_new none = false
reusable env person observer_id force_new (some s) = is_reusable env person observer_id force_new s

abbrev state_is : String → Dict Value → Bool
state_is s public = elim (lookup "state" public) [ none ↦ false | some v ↦ is_text v s ]

-- the person, if it is one and Home Assistant has a state for it
abbrev existing_person : Env → String → Option String
existing_person env person = if starts_with person "person." then env.person_name person else none

abbrev needs_reset : Dict Bool → String → Bool
needs_reset resets key = elim (lookup key resets) [ none ↦ false | some b ↦ b ]

abbrev app_options : String → Bool → List (String × String)
app_options name reset = ("oname", name) ∷ (if reset then ("reset", "forget_receiver") ∷ [] else [])

abbrev timeout_message : Session → String
timeout_message s =
    if has_lease s.completion_expires_at
    then "Pairing stopped after five minutes without completion"
    else if has_lease s.attempt_expires_at
    then "The iPhone was found, but its QR session was not verified in time"
    else "Pairing code expired before an iPhone started"

-- async_cancel_pairing(publish=True)
unfoldable pub cancel_pairing : Runtime → Env → Act (Unit {0})
cancel_pairing rt env = do
  session ← gets (λ c. c.pairing_session)
  elim session [ none ↦ pure tt | some s ↦ publish env s.observer_id (cancel s.session_id) ]
  modify λ c.
      let c' = record c { pairing_session = none } in
      if state_is "idle" c.pairing_public then c' else record c' {
        pairing_public =
            set_pairing_state (rt.isoformat env.now) "cancelled" "Pairing cancelled" []
              c.pairing_public;
      }

abbrev pub new_session : Env → String → String → String → ℕ → ℕ → Session
new_session env person_entity_id person_name observer_id timeout handle = record {
  handle = handle;
  session_id = env.token;
  observer_id = observer_id;
  person_entity_id = person_entity_id;
  person_name = person_name;
  expires_at = seconds env.now + timeout;
  started_monotonic = env.monotonic;
  link = record {
    session_id = env.token;
    observer_id = observer_id;
    expires_at = pos (seconds env.now + timeout);
    secret = env.secret;
    version = pos 2;
  };
  attempt_expires_at = none;
  completion_expires_at = none;
  result_processing = false;
}

-- `_async_start_pairing_locked` from the new session on; the target is checked and the old session gone.
unfoldable pub open_session : Runtime → Env → String → String → ObserverState → ℕ → Act (Dict Value)
open_session rt env person_entity_id person_name selected timeout = do
  c ← gets (λ c. c)
  let session =
      new_session env person_entity_id person_name selected.observer_id timeout c.next_handle
  modify λ c. record c { pairing_session = some session; next_handle = c.next_handle + 1 }
  let reset =
      needs_reset c.phone_bond_resets (append person_entity_id (append ":" selected.observer_id))
  elim (to_uri rt (pos (seconds env.now)) session.link) [
    | err e ↦ raise (invalid_link e)
    | ok uri ↦ do
      let pairing_uri =
          append uri (append "&" (rt.urlencode (app_options (cut 100 selected.name) reset)))
      modify λ c. record c {
        pairing_public =
            set_pairing_state (rt.isoformat env.now) "preparing"
              "Preparing the receiver to find the iPhone"
              (("person_entity_id", str person_entity_id)
                ∷ ("person_name", str person_name)
                ∷ ("observer_id", str selected.observer_id)
                ∷ ("observer_name", str selected.name)
                ∷ ("expires_at", int (pos session.expires_at))
                ∷ ("effective_expires_at", int (pos session.expires_at))
                ∷ ("handoff_started", bool false)
                ∷ ("invitation_consumed", bool false)
                ∷ ("phone_bond_reset_required", bool reset)
                ∷ ("pairing_uri", str pairing_uri)
                ∷ ("qr_data_uri", str (rt.qr_data_uri pairing_uri))
                ∷ [])
              c.pairing_public;
      }
      publish env selected.observer_id
          (start_app_pairing env.token selected.observer_id session.expires_at timeout env.secret)
      gets (λ c. c.pairing_public)
  ]

-- From a person and a receiver on: the session is reused, or a new one replaces it.
unfoldable pub start_selected :
    Runtime → Env → String → ℕ → Bool → String → ObserverState → Act (Dict Value)
start_selected rt env person timeout force_new person_name selected w =
    if reusable env person selected.observer_id force_new w.coordinator.pairing_session
    then (ok w.coordinator.pairing_public, w)
    else (do
      cancel_pairing rt env
      modify λ c. record c { bond_repair_offer = none }
      open_session rt env person person_name selected timeout)
        w

-- The checks of the target, in the order in which they raise.
unfoldable pub start_checked :
    (String → ObserverState → Act (Dict Value))
    → Option String
    → Option ObserverState
    → Act (Dict Value)
start_checked start none selected w = (err select_person, w)
start_checked start (some person_name) none w = (err no_observer, w)
start_checked start (some person_name) (some selected) w = start person_name selected w

-- `person` and `requested` are stripped; the lock of `async_start_pairing` is held.
unfoldable pub start_pairing : Runtime → Env → String → String → ℤ → Bool → Act (Dict Value)
start_pairing rt env person requested timeout_seconds force_new w =
    start_checked (start_selected rt env person (clamp_timeout timeout_seconds) force_new)
      (existing_person env person) (select_observer rt requested w.coordinator.observers) w

-- A pairing past its deadline is cancelled, and shown as timed out.
unfoldable pub time_out : Runtime → Env → Session → Act (Unit {0})
time_out rt env s = do
  cancel_pairing rt env
  modify λ c. record c {
    pairing_public =
        set_pairing_state (rt.isoformat env.now) "timeout" (timeout_message s) [] c.pairing_public;
  }

unfoldable pub refresh_session : Runtime → Env → Option Session → Act (Unit {0})
refresh_session rt env none w = (ok tt, w)
refresh_session rt env (some s) w =
    if leb (pairing_deadline s) (seconds env.now) then time_out rt env s w else (ok tt, w)

-- What `_async_periodic_refresh` does to a pairing.
unfoldable pub refresh_pairing : Runtime → Env → Act (Unit {0})
refresh_pairing rt env w = refresh_session rt env w.coordinator.pairing_session w
