-- ===== src/Coordinator/Enroll.antt =====
-- Enrolling a phone from a receiver's encrypted result: `_async_process_pairing_result`.
-- What other handlers do at an `await` is a parameter. The name of the exception in the message on an
-- invalid identity is left out.
pub mod Assigned
use Prim.Native.String.{◌++◌ as append}
use presence_bridge.Prelude.{
  ℕ, zero, suc, ◌+◌, ◌*◌, ◌=ℕ◌, leb, Bool, true, false, ◌&&◌, ◌||◌, not, List, [], ◌∷◌, Option,
  none, some, String, ◌==◌, Dict, lookup, insert, erase, cut, codes, matches, is_upper_hex, upper,
  Result, ok, err, Bytes, if◌then◌else◌,
}
use presence_bridge.Json.{
  Value, Payload, str, get, as_payload, text_at, is_text, is_true, is_null, truthy,
}
use presence_bridge.Runtime.{Runtime}
use presence_bridge.Coordinator.Types.{Coordinator, IdentityRow, Session, seconds}
use presence_bridge.Coordinator.Lease.{pairing_deadline}
use presence_bridge.Coordinator.Public.{set_pairing_state}
use presence_bridge.Coordinator.Matching.{Match, Phone, is_irk, matches_for_irk, resolve_identities}
use presence_bridge.Coordinator.Action.{World, Env, Act, HaError, complete, continue, publish, save}
use presence_bridge.Coordinator.Removal.{fingerprint_of, rebuild_identity_states, reset_key}

-- [0-9A-F]{2}(?::[0-9A-F]{2}){5}
unfoldable pub is_mac : Bytes → Bool
is_mac (a ∷ b ∷ []) = is_upper_hex a && is_upper_hex b
is_mac (a ∷ b ∷ c ∷ rest) =
    let more = is_mac rest in is_upper_hex a && is_upper_hex b && c =ℕ 58 && more
is_mac _ = false

unfoldable pub is_address : String → Bool
unfolding is_mac
is_address s = is_mac (codes s) && matches (λ _. true) 17 17 (codes s)

abbrev address_of : Payload → Value → Option (Option String)
address_of result (str s) =
    if is_address s && is_true (get "secure_exchange_complete" result) then some (some s) else none
address_of result v = if is_null v then some none else none

-- The key and the address of a decrypted result, if it is valid.
unfoldable pub claimed : Runtime → Option Payload → Option (String × Option String)
claimed rt none = none
claimed rt (some result) =
    let irk = upper (text_at rt.repr "irk" result) in
    if is_irk irk && truthy (get "claim_verified" result)
    then elim (address_of result (get "identity_address" result)) [
      | none ↦ none
      | some address ↦ some (irk, address)
    ]
    else none

-- `self._pairing_session is session`
unfoldable pub current : ℕ → Coordinator → Option Session
current handle c = elim c.pairing_session [
  | none ↦ none
  | some s ↦ if s.handle =ℕ handle then some s else none
]

-- How the wait for a live advertisement ends.
pub data Outcome : Type 0 where
  replaced missed heard : Outcome

-- time.time() at each look, and what other handlers do in each sleep after it
pub record Waiting : Type 0 where
  pub clock : ℕ → ℕ
  pub sleep : ℕ → Coordinator → Coordinator

abbrev pub is_none : {A : Type 0} → List A → Bool
is_none [] = true
is_none (_ ∷ _) = false

-- The loop over at most `n` more looks; this is look `k`.
unfoldable pub wait_for_phone :
    Runtime → ℕ → Waiting → ℕ → Phone → ℕ → ℕ → Coordinator → Outcome × Coordinator
wait_for_phone rt away_timeout waiting handle phone zero k c = elim (current handle c) [
  | none ↦ (replaced, c)
  | some s ↦ (missed, c)
]
wait_for_phone rt away_timeout waiting handle phone (suc n) k c =
    let later = wait_for_phone rt away_timeout waiting handle phone n (k + 1) (waiting.sleep k c) in
    elim (current handle c) [
      | none ↦ (replaced, c)
      | some s ↦
          if leb (pairing_deadline s * 1000000) (waiting.clock k)
          then (missed, c)
          else if is_none (matches_for_irk rt (waiting.clock k) away_timeout phone c)
          then later
          else (heard, c)
    ]

-- the first association with the key
unfoldable pub owner_of : String → Dict IdentityRow → Option (String × IdentityRow)
owner_of irk [] = none
owner_of irk ((identity_id, row) ∷ rows) =
    let rest = owner_of irk rows in if row.irk == irk then some (identity_id, row) else rest

-- The identifier that the phone is saved under; `none` if it is another person's.
unfoldable pub selected_id :
    Runtime → Session → String → Option (String × IdentityRow) → Option String
selected_id rt s irk (some (identity_id, row)) =
    if row.person_entity_id == s.person_entity_id then some identity_id else none
selected_id rt s irk none = elim (fingerprint_of rt irk) [
  | none ↦ none
  | some fingerprint ↦ some (cut 16 fingerprint)
]

abbrev pub enrolled_row : Runtime → ℕ → Session → String → Option String → IdentityRow
enrolled_row rt now s irk address = record {
  irk = irk;
  person_entity_id = s.person_entity_id;
  label = append "iPhone - " s.person_name;
  created_at = rt.isoformat now;
  paired_by = s.observer_id;
  identity_address = address;
  monitor_pending = none;
  monitor_access = none;
}

abbrev show : Runtime → ℕ → String → String → Dict Value → Coordinator → Coordinator
show rt now state message extra c = record c {
  pairing_public = set_pairing_state (rt.isoformat now) state message extra c.pairing_public;
}

abbrev fail : Runtime → ℕ → String → Coordinator → Coordinator
fail rt now message c = record (show rt now "error" message [] c) { pairing_session = none }

-- The association is written, and the reset that it waited for is done.
unfoldable pub assign :
    Runtime → ℕ → Session → String → Option String → String → Coordinator → Coordinator
assign rt now s irk address identity_id c = record c {
  identities = insert identity_id (enrolled_row rt now s irk address) c.identities;
  phone_bond_resets = erase (reset_key s.person_entity_id s.observer_id) c.phone_bond_resets;
}

-- What other handlers do while the store saves and while the command is published.
pub record Turns : Type 0 where
  pub saving : World → World
  pub publishing : World → World

unfoldable pub after_publish : Runtime → Env → Session → String → World → World
after_publish rt env s identity_id w = elim (current s.handle w.coordinator) [
  | none ↦ w
  | some _ ↦ record w {
    coordinator =
        record (show rt env.now "complete" (append s.person_name "'s iPhone is paired and verified")
          (("identity_id", str identity_id) ∷ []) w.coordinator) { pairing_session = none };
  }
]

unfoldable pub after_save : Runtime → Env → ℕ → Turns → Session → String → Act (Unit {0})
after_save rt env away_timeout turns s identity_id w = elim (current s.handle w.coordinator) [
  | none ↦ (ok tt, w)
  | some _ ↦
      let w' : World = record w {
        coordinator =
            resolve_identities rt env.now away_timeout (rebuild_identity_states w.coordinator);
      } in
      continue (publish env s.observer_id (complete s.session_id) w').0
        (λ _ v. (ok tt, after_publish rt env s identity_id (turns.publishing v)))
        (publish env s.observer_id (complete s.session_id) w').1
]

-- The phone was heard: it is assigned, unless it is another person's.
unfoldable pub enroll :
    Runtime → Env → ℕ → Turns → Session → String → Option String → Option String → Act (Unit {0})
enroll rt env away_timeout turns s irk address none w = (
  ok tt,
  record w {
    coordinator = fail rt env.now "This phone is already linked to another person" w.coordinator;
  },
)
enroll rt env away_timeout turns s irk address (some identity_id) w =
    let w' : World = record w {
      coordinator = assign rt env.now s irk address identity_id w.coordinator;
    } in
    continue (save env w').0
      (λ _ v. after_save rt env away_timeout turns s identity_id (turns.saving v)) (save env w').1

unfoldable pub conclude :
    Runtime → Env → ℕ → Turns → Session → String → Option String → Outcome → Act (Unit {0})
conclude rt env away_timeout turns s irk address replaced w = (ok tt, w)
conclude rt env away_timeout turns s irk address missed w = (
  ok tt,
  record w {
    coordinator =
        fail rt env.now "The bond succeeded, but no matching live phone advertisement was found"
          w.coordinator;
  },
)
conclude rt env away_timeout turns s irk address heard w =
    enroll rt env away_timeout turns s irk address
      (selected_id rt s irk (owner_of irk w.coordinator.identities)) w

unfoldable pub verify_phone :
    Runtime → Env → ℕ → Waiting → Turns → Session → Option (String × Option String) → Act (Unit {0})
verify_phone rt env away_timeout waiting turns s none w = (
  ok tt,
  record w {
    coordinator = fail rt env.now "The bridge returned an invalid identity" w.coordinator;
  },
)
verify_phone rt env away_timeout waiting turns s (some (irk, address)) w =
    let c =
      show rt env.now "verifying" "Verifying the phone's live private address" [] w.coordinator in
    let phone : Phone = record {
      irk = irk;
      identity_address = address;
      paired_by = some s.observer_id;
    } in
    let (outcome, c') = wait_for_phone rt away_timeout waiting s.handle phone 20 0 c in
    conclude rt env away_timeout turns s irk address outcome (record w { coordinator = c' })

-- `decrypt` is base64, RSA-OAEP with the session's key, and JSON; `none` where one of them fails.
unfoldable pub process_result :
    Runtime → Env → ℕ → (Value → Option Payload) → Waiting → Turns → Payload → Act (Unit {0})
process_result rt env away_timeout decrypt waiting turns payload w =
    elim w.coordinator.pairing_session [
      | none ↦ (ok tt, w)
      | some s ↦
          if s.result_processing
            || not (is_text (get "session_id" payload) s.session_id)
            || not (is_text (get "observer_id" payload) s.observer_id)
          then (ok tt, w)
          else verify_phone rt env away_timeout waiting turns s
              (claimed rt (decrypt (get "ciphertext" payload)))
              (record w {
                coordinator = record (w.coordinator) {
                  pairing_session = some (record s { result_processing = true });
                };
              })
    ]
