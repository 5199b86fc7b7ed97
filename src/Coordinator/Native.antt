-- ===== src/Coordinator/Native.antt =====
-- Receivers of Home Assistant itself: native_bluetooth.py. Its scanners, and the advertisements that
-- they heard, are parameters.
use Prim.Native.Char.{code}
use Prim.Native.String.{◌++◌ as append}
use presence_bridge.Prelude.{
  ℕ, ◌+◌, ◌-◌, ◌*◌, ◌=ℕ◌, ltb, leb, Bool, true, false, ◌&&◌, not, List, [], ◌∷◌, ◌++◌, Option, none,
  some, String, ◌==◌, Dict, lookup, insert, lower, any, length, ℤ, if◌then◌else◌,
}
use presence_bridge.Json.{Value, str, int, arr, obj, null, nil, cons, field, end}
use presence_bridge.Runtime.{Runtime}
use presence_bridge.Coordinator.Types.{Coordinator, ObserverState, is_member}
use presence_bridge.Coordinator.Observers.{ensure_observer, normalize_observations}

-- A scanner of Home Assistant, with what the device registry has of it.
pub record Scanner : Type 0 where
  pub source : String
  pub scanning : Bool
  -- `device.name_by_user or device.name`, and the name of the scanner; "" where there is none
  pub device_name : String
  pub own_name : String
  pub area_id : Option String

-- One cached advertisement; `time` is its time.monotonic().
pub record Advertisement : Type 0 where
  pub source : String
  pub address : String
  pub rssi : ℤ
  pub time : ℕ

-- source.replace(":", "_")
unfoldable pub underscored : String → String
underscored String.[] = String.[]
underscored (String.◌∷◌ c s) =
    let rest = underscored s in if code c =ℕ 58 then append "_" rest else String.◌∷◌ c rest

abbrev scanner_id : String → String
unfolding underscored
scanner_id source = append "ha_" (underscored (lower source))

abbrev name_of : Scanner → String
name_of s =
    if not (s.device_name == "")
    then s.device_name
    else if not (s.own_name == "")
    then s.own_name
    else append "HA Bluetooth " s.source

abbrev is_set : String → Coordinator → Bool
is_set id c = elim (lookup id c.observer_areas) [ none ↦ false | some _ ↦ true ]

unfoldable pub shown_scanner : ℕ → Scanner → Bool → ObserverState → ObserverState
shown_scanner now s area_is_set observer = record observer {
  name = name_of s;
  area_id = if area_is_set then observer.area_id else s.area_id;
  capabilities = "scanner" ∷ "ha_bluetooth" ∷ [];
  online = s.scanning;
  last_seen = if s.scanning then some now else none;
  observations = [];
}

unfoldable pub add_scanners : Runtime → ℕ → List Scanner → Coordinator → Coordinator
unfolding scanner_id
add_scanners rt now [] c = c
add_scanners rt now (s ∷ rest) c =
    let id = scanner_id s.source in
    let (observer, c') = ensure_observer rt id (field "name" (str s.source) end) c in
    let shown = shown_scanner now s (is_set id c') observer in
    add_scanners rt now rest (record c' { observers = insert id shown c'.observers })

-- A native receiver whose scanner is gone is offline.
unfoldable pub retire : List Scanner → Dict ObserverState → Dict ObserverState
unfolding scanner_id
retire scanners [] = []
retire scanners ((id, observer) ∷ rest) =
    let others = retire scanners rest in
    if is_member "ha_bluetooth" observer.capabilities
      && not (any (λ s. scanner_id s.source == id) scanners)
    then (id, record observer { online = false; last_seen = none; observations = [] }) ∷ others
    else (id, observer) ∷ others

-- not -5 <= age <= away_timeout
abbrev is_fresh : ℕ → ℕ → Advertisement → Bool
is_fresh monotonic away_timeout heard =
    leb heard.time (monotonic + 5000000) && leb monotonic (heard.time + away_timeout * 1000000)

abbrev row_of : Runtime → ℕ → ℕ → Advertisement → Value
row_of rt now monotonic heard = arr (
    cons
      (obj (
        field "address" (str heard.address) (
          field "rssi" (int heard.rssi)
            (field "seen_at" (str (rt.isoformat (now - (monotonic - heard.time)))) end))))
      nil)

unfoldable pub hear :
    Runtime → ℕ → ℕ → ℕ → List Scanner → Advertisement → Dict ObserverState → Dict ObserverState
unfolding scanner_id
hear rt now monotonic away_timeout scanners heard observers =
    let id = scanner_id heard.source in
    elim (lookup id observers) [
      | none ↦ observers
      | some observer ↦
          if any (λ s. s.source == heard.source) scanners
            && observer.online
            && is_fresh monotonic away_timeout heard
            && ltb (length observer.observations) 200
          then insert id
              (record observer {
                observations =
                    observer.observations
                    ++ normalize_observations rt (row_of rt now monotonic heard) null;
              })
              observers
          else observers
    ]

unfoldable pub hear_all :
    Runtime
    → ℕ
    → ℕ
    → ℕ
    → List Scanner
    → List Advertisement
    → Dict ObserverState
    → Dict ObserverState
hear_all rt now monotonic away_timeout scanners [] observers = observers
hear_all rt now monotonic away_timeout scanners (h ∷ rest) observers =
    hear_all rt now monotonic away_timeout scanners rest
      (hear rt now monotonic away_timeout scanners h observers)

-- `refresh_native_observations`, where the Bluetooth integration is loaded
unfoldable pub refresh_native :
    Runtime → ℕ → ℕ → ℕ → List Scanner → List Advertisement → Coordinator → Coordinator
refresh_native rt now monotonic away_timeout scanners heard c =
    let c' = add_scanners rt now scanners c in
    record c' {
      observers =
          hear_all rt now monotonic away_timeout scanners heard (retire scanners c'.observers);
    }
