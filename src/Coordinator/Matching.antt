-- ===== src/Coordinator/Matching.antt =====
-- `_matches_for_irk` and `_resolve_identities`: which receivers hear a phone, and which of them it is
-- shown at. The cipher cache only saves work and is not modelled.
pub mod Strongest
pub mod Selection
use presence_bridge.Prelude.{
  ℕ, ◌+◌, ltb, leb, ◌=ℕ◌, Bool, true, false, ◌&&◌, ◌||◌, not, List, [], ◌∷◌, Option, none, some,
  String, ◌==◌, Dict, lookup, insert, filter, find?, codes, upper, matches, is_upper_hex, is_hex, ℤ,
  pos, ltb_ℤ, leb_ℤ, pos_part, neg_part, if◌then◌else◌,
}
use presence_bridge.Json.{str}
use presence_bridge.Runtime.{Runtime}
use presence_bridge.Coordinator.Types.{
  Coordinator, ObserverState, IdentityState, IdentityRow, Observation, within_seconds,
}
use presence_bridge.Coordinator.Observers.{parse_timestamp}

-- One entry of the result: the receiver, the signal strength, and when it was heard.
pub record Match : Type 0 where
  pub observer : ObserverState
  pub rssi : ℤ
  pub seen : ℕ

-- A heard signal, before the receiver is added.
pub record Signal : Type 0 where
  pub strength : ℤ
  pub heard : ℕ

-- _IRK_RE.fullmatch
unfoldable pub is_irk : String → Bool
unfolding matches
is_irk s = matches is_upper_hex 32 32 (codes s)

-- What is known of the phone: its key, and the address that BlueZ may report for it at one receiver.
pub record Phone : Type 0 where
  pub irk : String
  pub identity_address : Option String
  pub paired_by : Option String

abbrev pub equals : Option String → String → Bool
equals none s = false
equals (some t) s = s == t

abbrev is_given : Option String → Bool
is_given none = false
is_given (some s) = not (s == "")

-- The first association with the key gives the address, where the caller names none.
unfoldable pub phone_of : Dict IdentityRow → Phone → Phone
phone_of [] phone = phone
phone_of ((k, row) ∷ rows) phone =
    let rest = phone_of rows phone in
    if is_given phone.identity_address
    then phone
    else if row.irk == phone.irk
    then record phone { identity_address = row.identity_address; paired_by = some row.paired_by }
    else rest

-- an older signal never holds the strength at its peak
unfoldable pub newer : Signal → Option Signal → Signal
newer s none = s
newer s (some best) =
    if ltb best.heard s.heard
    then s
    else if s.heard =ℕ best.heard
    then record best {
      strength = if ltb_ℤ best.strength s.strength then s.strength else best.strength;
    }
    else best

module _ (rt : Runtime) (now away_timeout : ℕ) where
  -- `none` for an observation that is not counted
  unfoldable pub signal_of : Phone → String → Observation → Option Signal
  signal_of phone observer_id o = elim (parse_timestamp rt (str o.seen_at)) [
    | none ↦ none
    | some seen ↦
        if leb seen now
          && within_seconds now seen away_timeout
          && ((is_given phone.identity_address
                && equals phone.paired_by observer_id
                && equals phone.identity_address o.address)
              || rt.resolve_private_address phone.irk o.address)
        then some (record { strength = o.rssi; heard = seen })
        else none
  ]

  unfoldable pub best_signal : Phone → String → Option Signal → List Observation → Option Signal
  best_signal phone observer_id best [] = best
  best_signal phone observer_id best (o ∷ rest) =
      best_signal phone observer_id
        (elim (signal_of phone observer_id o) [ none ↦ best | some s ↦ some (newer s best) ]) rest

  unfoldable pub match_observer : Phone → ObserverState → Option Match
  match_observer phone observer =
      if observer.online
      then elim (best_signal phone observer.observer_id none observer.observations) [
        | none ↦ none
        | some s ↦ some (record { observer = observer; rssi = s.strength; seen = s.heard })
      ]
      else none

  unfoldable pub match_observers : Phone → Dict ObserverState → List Match
  match_observers phone [] = []
  match_observers phone ((k, observer) ∷ rest) =
      let more = match_observers phone rest in
      elim (match_observer phone observer) [ none ↦ more | some m ↦ m ∷ more ]

  -- A key that is no 32 hexadecimal digits has no cipher, and no match.
  unfoldable pub matches_for_irk : Phone → Coordinator → List Match
  matches_for_irk phone c =
      if matches is_hex 32 32 (codes phone.irk)
      then match_observers (phone_of c.identities phone) c.observers
      else []

-- max(match[2] for match in matches)
unfoldable pub newest : Match → List Match → ℕ
newest m [] = m.seen
newest m (n ∷ rest) = newest (if ltb m.seen n.seen then n else m) rest

-- max(matches, key=lambda match: match[1]): the first of the strongest
unfoldable pub strongest : Match → List Match → Match
strongest m [] = m
strongest m (n ∷ rest) = strongest (if ltb_ℤ m.rssi n.rssi then n else m) rest

-- current[1] + 6 >= rssi
abbrev pub nearly_as_strong : ℤ → ℤ → Bool
nearly_as_strong current rssi =
    leb (pos_part rssi + neg_part current) (pos_part current + 6 + neg_part rssi)

-- The match that the phone is shown at: its receiver so far, unless another is more than 6 dB stronger.
unfoldable pub choose : Option String → Match → List Match → Match
choose shown m rest =
    let best = strongest m rest in
    elim (find? (λ n. equals shown n.observer.observer_id) (m ∷ rest)) [
      | none ↦ best
      | some current ↦ if nearly_as_strong current.rssi best.rssi then current else best
    ]

unfoldable pub show_at : Match → ℕ → IdentityState → IdentityState
show_at m last state = record state {
  is_home = true;
  observer_id = some m.observer.observer_id;
  observer_name = some m.observer.name;
  area_id = m.observer.area_id;
  rssi = some m.rssi;
  signal_seen_at = some m.seen;
  last_seen = some last;
}

-- The matches at most 30 seconds older than the newest.
unfoldable pub recent : ℕ → List Match → List Match
recent last = filter (λ m. within_seconds last m.seen 30)

-- One round of the loop, from the matches of the identity's key.
unfoldable pub resolve_state : List Match → IdentityState → IdentityState
resolve_state [] state = state
resolve_state (m ∷ ms) state =
    let last = newest m ms in
    elim (recent last (m ∷ ms)) [
      | [] ↦ state
      | n ∷ ns ↦ show_at (choose state.observer_id n ns) (newest n ns) state
    ]

module _ (rt : Runtime) (now away_timeout : ℕ) where
  unfoldable pub resolve_identity :
      Coordinator → String → IdentityRow → Dict IdentityState → Dict IdentityState
  resolve_identity c identity_id row states =
      let irk = upper row.irk in
      if is_irk irk
      then elim (lookup identity_id states) [
        | none ↦ states
        | some state ↦
            let phone : Phone = record { irk = irk; identity_address = none; paired_by = none } in
            insert identity_id (resolve_state (matches_for_irk rt now away_timeout phone c) state)
              states
      ]
      else states

  unfoldable pub resolve_rows :
      Coordinator → Dict IdentityRow → Dict IdentityState → Dict IdentityState
  resolve_rows c [] states = states
  resolve_rows c ((identity_id, row) ∷ rows) states =
      resolve_rows c rows (resolve_identity c identity_id row states)

  unfoldable pub resolve_identities : Coordinator → Coordinator
  resolve_identities c = record c {
    identity_states = resolve_rows c c.identities c.identity_states;
  }
