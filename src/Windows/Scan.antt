-- ===== src/Windows/Scan.antt =====
-- The presence scan of bridge/windows/observer.py: `detection_callback`, `publish_snapshot`,
-- `scan_session_is_stale` and `_scan_loop`. Times are those of time.monotonic(), in microseconds, and
-- a difference of two clocks is written as a comparison of sums. The sorted and bounded lists of
-- services and of manufacturers are given with the advertisement.
pub mod Snapshot
pub mod Shared
use presence_bridge.Prelude.{
  ℕ, zero, suc, ◌+◌, ltb, leb, max, min, Bool, true, false, ◌&&◌, ◌||◌, not, List, [], ◌∷◌, Option,
  none, some, String, ◌==◌, Dict, insert, filter, map, take, cut, strip, ℤ, pos, negsuc, leb_ℤ,
  ltb_ℤ, if◌then◌else◌,
}
use presence_bridge.Json.{
  Value, null, bool, str, int, arr, obj, Values, nil, cons, Payload, end, field,
}
use presence_bridge.Windows.Keys.{normalize_text}
use presence_bridge.Windows.Keys.Registry.{concat}
use presence_bridge.Coordinator.Pairing.{values}

-- What `bleak` reports of an advertisement: the address, the signal where it is a number, the two
-- names, and what is passed on as it is.
pub record Advertisement : Type 0 where
  pub address : String
  pub rssi : Option ℤ
  pub local_name : String
  pub device_name : String
  pub details : Dict Value

pub record Row : Type 0 where
  pub address : String
  pub name : String
  pub rssi : ℤ
  pub details : Dict Value
  pub seen_monotonic : ℕ
  pub seen_at : String

pub record Scan : Type 0 where
  pub observations : Dict Row
  pub last_detection : ℕ

abbrev or_text : String → String → String
or_text a b = if a == "" then b else a

-- -127 <= rssi <= 20
unfoldable pub is_signal : ℤ → Bool
is_signal rssi = leb_ℤ (negsuc 126) rssi && leb_ℤ rssi (pos 20)

-- `detection_callback`; `seen_at` is the time as a text
unfoldable pub detection_callback : ℕ → String → Advertisement → Scan → Scan
detection_callback now seen_at advertisement scan =
    let address = normalize_text advertisement.address in
    if address == "" then scan else elim advertisement.rssi [
      | none ↦ scan
      | some rssi ↦
          if is_signal rssi
          then record {
            observations =
                insert address
                  (record {
                    address = address;
                    name =
                        cut 100
                          (strip (or_text advertisement.local_name advertisement.device_name));
                    rssi = rssi;
                    details = advertisement.details;
                    seen_monotonic = now;
                    seen_at = seen_at;
                  })
                  scan.observations;
            last_detection = now;
          }
          else scan
    ]

-- seen_monotonic >= now - ttl
unfoldable pub is_recent : ℕ → ℕ → Row → Bool
is_recent now ttl row = leb now (row.seen_monotonic + ttl)

unfoldable pub keep_recent : ℕ → ℕ → Dict Row → Dict Row
keep_recent now ttl = filter (λ (_, row). is_recent now ttl row)

-- sorted(rows, key=rssi, reverse=True), which is stable
unfoldable pub place : Row → List Row → List Row
place r [] = r ∷ []
place r (s ∷ rest) =
    let later = place r rest in if ltb_ℤ r.rssi s.rssi then s ∷ later else r ∷ s ∷ rest

unfoldable pub sort : List Row → List Row
sort [] = []
sort (r ∷ rest) = place r (sort rest)

-- name or None
abbrev name_value : String → Value
name_value name = if name == "" then null else str name

fields_of : Dict Value → Payload
fields_of [] = end
fields_of ((k, v) ∷ d) = field k v (fields_of d)

-- A row of the snapshot as it is sent, without `seen_monotonic`.
unfoldable pub row_payload : Row → Payload
unfolding fields_of
row_payload row = field "address" (str row.address) (
    field "name" (name_value row.name)
      (field "rssi" (int row.rssi) (field "seen_at" (str row.seen_at) (fields_of row.details))))

unfoldable pub row_values : List Row → Values
row_values [] = nil
row_values (row ∷ rows) = cons (obj (row_payload row)) (row_values rows)

-- What `publish_snapshot` sends, and the observations that it keeps.
unfoldable pub publish_snapshot : ℕ → ℕ → ℕ → Scan → List Row × Scan
publish_snapshot now ttl max_observations scan =
    let kept = keep_recent now ttl scan.observations in
    (take max_observations (sort (values kept)), record scan { observations = kept })

-- `discovery` is published again after a minute
unfoldable pub refresh_due : ℕ → ℕ → Bool
refresh_due now last = leb (last + 60000000) now

-- the payload of the snapshot
unfoldable pub snapshot_payload : String → String → String → List Row → Payload
snapshot_payload observer_id name captured_at rows = field "schema" (int (pos 1)) (
    field "observer_id" (str observer_id) (
      field "name" (str name) (
        field "captured_at" (str captured_at) (
          field "timestamp" (str captured_at) (
            field "connectable" (bool true) (
              field "anchor_aliases"
                (arr (cons (str (concat "ble_presence_observer_" observer_id)) nil))
                (field "observations" (arr (row_values rows)) end)))))))

-- `scan_session_is_stale`
unfoldable pub scan_session_is_stale : ℕ → ℕ → ℕ → ℕ → Bool
scan_session_is_stale session_started last_detection now timeout =
    leb (max session_started last_detection + timeout) now

-- What a wake-up of `_scan_loop` meets: the time before the sleep and after it, the last detection,
-- and whether the receiver stops or is to pause.
pub record Wake : Type 0 where
  pub before : ℕ
  pub after : ℕ
  pub detected : ℕ
  pub stopping : Bool
  pub pausing : Bool

-- How a session of the scan ends.
pub data SessionEnd : Type 0 where
  refreshed stopped paused stale : SessionEnd

-- `_scan_loop` after its first wait, by the wake-ups; with the times of the snapshots that it published.
unfoldable pub scan_session :
    (started restart_at stale_timeout : ℕ) → List Wake → List ℕ × Option SessionEnd
scan_session started restart_at stale_timeout [] = ([], none)
scan_session started restart_at stale_timeout (w ∷ wakes) =
    let (published, result) = scan_session started restart_at stale_timeout wakes in
    if leb restart_at w.before
    then ([], some refreshed)
    else if w.pausing
    then ([], some paused)
    else if w.stopping
    then ([], some stopped)
    else if scan_session_is_stale started w.detected w.after stale_timeout
    then ([], some stale)
    else (w.after ∷ published, result)

-- `_scan_loop`
unfoldable pub scan_loop :
    (started restart_interval stale_timeout : ℕ) → Wake → List Wake → List ℕ × Option SessionEnd
scan_loop started restart_interval stale_timeout first wakes =
    let (published, result) =
      scan_session started (started + restart_interval) stale_timeout wakes in
    if first.stopping
    then ([], some stopped)
    else if first.pausing
    then ([], some paused)
    else (first.after ∷ published, result)
