-- ===== src/Tests/Hosts.antt =====
-- The theorems on the receiver on Windows.
use presence_bridge.Prelude.{
  ℕ, ◌+◌, ◌*◌, ◌≤◌, ltb, Bool, true, false, List, [], ◌∷◌, Option, none, some, String, ℤ, pos,
  negsuc, Dict, lookup, Result, ok, err, Bytes, codes, filter, ◌≡◌, ◌≢◌, ◌⊎◌, refl, arith,
  if◌then◌else◌, cut,
}
use presence_bridge.Json.{Value, arr, nil, cons, Payload, end, field, str, int, obj, null}
use presence_bridge.Coordinator.Observers.{hex_only, normalize_row}
use presence_bridge.Coordinator.Removal.{from_hex}
use presence_bridge.Bonds.{BondDevice, Sighting}
use presence_bridge.Windows.Keys.{
  KeyRecord, is_direct, normalize_text, select_irk_record_for_address,
}
use presence_bridge.Windows.Keys.Unique.{IsUnique, resolves, select_irk_record_for_address-IsUnique}
use presence_bridge.Windows.Config.{ObserverConfig, Paths, load}
use presence_bridge.Windows.Config.Bounded.{IsBounded, IsUsable, load-IsBounded}
use presence_bridge.Windows.State.{Observer, Host, Sent, removal_result, send}
use presence_bridge.Windows.State.Sound.{IsSound}
use presence_bridge.Windows.Removals.{attempt_removal, run_identity_removal}
use presence_bridge.Windows.Removals.Shown.{IsShown, attempt_removal-IsShown}
use presence_bridge.Windows.Removals.Repeated.{
  run_removals, reported, run_identity_removal-repeated,
}
use presence_bridge.Windows.Commands.{handle_command}
use presence_bridge.Windows.Commands.Reached.{initially, next, by_command, Reachable→IsSound}
use presence_bridge.Windows.Commands.Attempts.{AttemptStep, attempt_of}
use presence_bridge.Windows.Commands.Refined.{told, input_of, handle, handle-refines}
use presence_bridge.Windows.Session.{Encounter, Peer, other, run_app_session}
use presence_bridge.Windows.Session.Secure.{Outputs, IsCaptured, is_output, run_app_session-Outputs}
use presence_bridge.Windows.Session.Resumed.{IsResumed, paused_after, run_app_session-IsResumed}
use presence_bridge.Windows.Broker.{
  File, Look, absent, report, Ending, Waiting, begin_wait, wait_for_helper,
}
use presence_bridge.Windows.Broker.Onward.{not_there}
use presence_bridge.Windows.Broker.Ended.{foreign, wait_for_helper-ends, wait_for_helper-foreign}
use presence_bridge.Windows.Client.{
  Client, bond_reset, repair_verified_bond, remove_peer_bonds, PeerBonds,
  remove_verified_peer_bonds,
}
use presence_bridge.Windows.Client.Repaired.{IsRepaired, repair_verified_bond-IsRepaired}
use presence_bridge.Windows.Helper.{Answer, exited, Exchange, run_interactive_identity_removal}
use presence_bridge.Windows.Helper.Exact.{IsExact, run_interactive_identity_removal-IsExact}
use presence_bridge.Windows.Scan.{Row, row_payload}
use presence_bridge.Windows.Scan.Shared.{normalize_row-row_payload}
use presence_bridge.Tests.Fixtures.{rt, session_token, fingerprint, phone_key, phone_address}

abbrev raw : Payload
raw = field "observer_id" (str "Desk") (
    field "mqtt" (obj (field "host" (str "broker") end))
      (field "max_observations" (int (pos 5000)) end))

abbrev paths : Paths
paths = record { log = "desk.log"; command = "command.json"; result = "result.json" }

abbrev config : ObserverConfig
config = record {
  observer_id = "desk";
  name = "Desk";
  mqtt = record { host = "broker"; port = pos 1883; username = ""; password = "" };
  publish_interval = pos 12000000;
  observation_ttl = pos 55000000;
  retry_interval = pos 10000000;
  scanner_restart_interval = pos 1800000000;
  scanner_stale_timeout = pos 120000000;
  max_observations = pos 200;
  log_path = "desk.log";
  topic_root = "presence_bridge/v1/observers";
  legacy_topic_root = "smart_presence/ble";
  app_pairing_enabled = true;
  interactive_pairing_task = "";
  interactive_pairing_command_path = "command.json";
  interactive_pairing_result_path = "result.json";
}

load-IsBounded_example :
    IsBounded (record config { name = "Desk" }) × IsUsable (record config { name = "Desk" })
unfolding load presence_bridge.Windows.Config.item presence_bridge.Json.as_payload
    presence_bridge.Windows.Config.numbers presence_bridge.Json.to_int
    presence_bridge.Json.get_default presence_bridge.Coordinator.Status.float_of
    presence_bridge.Windows.Config.checked presence_bridge.Protocol.Link.is_observer_id
    presence_bridge.Windows.Config.configured presence_bridge.Prelude.lower
    presence_bridge.Prelude.strip presence_bridge.Json.to_text presence_bridge.Json.or_else
    presence_bridge.Json.get presence_bridge.Windows.Config.topic presence_bridge.Json.text_at
    presence_bridge.Json.is_zero presence_bridge.Json.parse_int presence_bridge.Json.truthy
    presence_bridge.Prelude.matches
load-IsBounded_example = load-IsBounded rt paths raw (record config { name = "Desk" }) refl

abbrev saved : KeyRecord
saved = record {
  registry_path = "Keys";
  registry_leaf = "4a0000000001";
  value_name = "IRK";
  irk = phone_key;
}

abbrev aes : Bytes → Bytes → Bytes
aes key block = block

select_irk_record_for_address-IsUnique_example :
    IsUnique (is_direct (normalize_text phone_address)) (saved ∷ []) saved
    ⊎ IsUnique
        (resolves aes (from_hex (codes (hex_only (normalize_text phone_address)))))
        (saved ∷ [])
        saved
unfolding select_irk_record_for_address normalize_text hex_only presence_bridge.Prelude.upper
    presence_bridge.Coordinator.Observers.colon_pairs presence_bridge.Windows.Keys.last_by_irk
    is_direct presence_bridge.Windows.Keys.is_irk presence_bridge.Prelude.matches
    presence_bridge.Windows.Keys.irk_of presence_bridge.Prelude.insert
select_irk_record_for_address-IsUnique_example =
    select_irk_record_for_address-IsUnique aes (saved ∷ []) phone_address saved refl

abbrev idle_observer : Observer
idle_observer = record {
  run = none;
  action = none;
  session_id = none;
  committed = false;
  attempt_expires_at = none;
  removal_results = [];
  bond_repair_offer = none;
  pause_requested = false;
  journal = [];
  sent = [];
}

abbrev bond : BondDevice
bond = record { device_id = "id"; address = "4A0000000001"; container_id = ""; transport = "ble" }

-- the bond and the key at first, and nothing after
abbrev sightings : ℕ → Sighting
sightings k =
    if ltb k 1
    then record {
      bonded = bond ∷ [];
      saved = record { irk = phone_key; registry_leaf = "4a0000000001" } ∷ [];
    }
    else record { bonded = []; saved = [] }

-- 1000 seconds after the epoch
abbrev host : Host
host = record {
  now = 1000000000;
  loads_key = λ _. true;
  scanner_stops = true;
  task_stops = true;
  sightings = sightings;
  unpairs = λ _. true;
}

abbrev removal : Payload
removal = field "action" (str "forget_identity") (
    field "request_id" (str session_token) (
      field "fingerprint" (str fingerprint) (
        field "identity_id" (str "0123456789abcdef")
          (field "observer_id" (str "desk") (field "expires_at" (int (pos 1075)) end)))))

abbrev by_hand : Payload
by_hand =
    field "action" (str "start")
      (field "session_id" (str session_token) (field "public_key" (str "AQID") end))

attempt_removal-IsShown_example :
    IsShown rt host "desk" removal idle_observer
      (attempt_removal rt host "desk" removal idle_observer).1
      1
unfolding attempt_removal presence_bridge.Windows.Removals.take_offer presence_bridge.Json.is_text
    presence_bridge.Json.get presence_bridge.Windows.Removals.pause_and_remove
    presence_bridge.Windows.State.pause_scanner presence_bridge.Windows.Removals.remove_paused
    presence_bridge.Bonds.remove_identity_bonds presence_bridge.Prelude.matches
    presence_bridge.Json.text_at presence_bridge.Bonds.identity_records
    presence_bridge.Coordinator.Removal.fingerprint_of presence_bridge.Bonds.targets_of
    presence_bridge.Bonds.by_id lookup presence_bridge.Bonds.select_bond_devices
    presence_bridge.Bonds.is_direct presence_bridge.Bonds.compact_address
    presence_bridge.Bonds.confirm presence_bridge.Bonds.is_gone presence_bridge.Bonds.settle
    from_hex presence_bridge.Json.or_else presence_bridge.Json.to_text presence_bridge.Json.truthy
    presence_bridge.Prelude.erase presence_bridge.Prelude.insert presence_bridge.Prelude.eqb
    presence_bridge.Prelude.upper presence_bridge.Windows.State.resume_scanner
attempt_removal-IsShown_example =
    attempt_removal-IsShown rt host "desk" removal idle_observer 1 refl

-- the removal, with another identifier
abbrev other_removal : Payload
other_removal = field "request_id" (str "qrstuvwxyzabcdef") removal

run_identity_removal-repeated_example :
    run_identity_removal rt host "desk" removal (
      run_removals rt "desk"
        (record { host = host; payload = other_removal } ∷ [])
        (run_identity_removal rt host "desk" removal idle_observer))
    ≡ send
        (removal_result (
          reported rt "desk" removal host (attempt_removal rt host "desk" removal idle_observer).0))
        (run_removals rt "desk"
          (record { host = host; payload = other_removal } ∷ [])
          (run_identity_removal rt host "desk" removal idle_observer))
unfolding presence_bridge.Windows.Removals.is_valid presence_bridge.Coordinator.Status.to_float
    presence_bridge.Json.truthy presence_bridge.Json.get
    presence_bridge.Coordinator.Status.is_pairing_session_id presence_bridge.Json.text_at
    presence_bridge.Coordinator.Status.is_fingerprint cut presence_bridge.Json.is_text lookup
run_identity_removal-repeated_example =
    run_identity_removal-repeated rt "desk" removal host host
      (record { host = host; payload = other_removal } ∷ []) idle_observer refl refl refl
      (omega arith)

Reachable→IsSound_example :
    IsSound
      (handle_command rt host config removal (handle_command rt host config by_hand idle_observer))
Reachable→IsSound_example =
    Reachable→IsSound rt config
      (handle_command rt host config removal (handle_command rt host config by_hand idle_observer))
      (next (handle_command rt host config by_hand idle_observer) _
        (next idle_observer _
          (initially idle_observer (record { no_run = refl; no_results = refl; not_paused = refl }))
          (by_command host by_hand idle_observer))
        (by_command host removal (handle_command rt host config by_hand idle_observer)))

handle-refines_example :
    AttemptStep
      (input_of rt config (told host by_hand))
      (attempt_of idle_observer)
      (attempt_of (handle rt config (told host by_hand) idle_observer))
handle-refines_example = handle-refines rt config (told host by_hand) idle_observer

abbrev encounter : Encounter
encounter = record {
  pause_fault = none;
  baseline_fault = none;
  baseline = [];
  heartbeat_fails = false;
  peer = ok (record { address = phone_address; secure_exchange_complete = true });
  reads = [] ∷ (saved ∷ []) ∷ [];
  last = other;
  encrypt = λ _. some "AQID";
  commit = ok tt;
  second_fault = none;
  confirm = ok tt;
  detail_code = "";
  interactive = true;
  leased = true;
}

run_app_session-Outputs_example :
    Outputs encounter
      (λ c. (peer : Peer) × IsCaptured aes encounter peer c)
      (filter is_output (run_app_session aes encounter))
run_app_session-Outputs_example = run_app_session-Outputs aes encounter

run_app_session-IsResumed_example :
    IsResumed encounter (paused_after false (run_app_session aes encounter))
run_app_session-IsResumed_example = run_app_session-IsResumed aes encounter

-- the phone is not found, and the heartbeat task failed
abbrev stuck_encounter : Encounter
stuck_encounter = record encounter { heartbeat_fails = true; peer = err other }

stuck_encounter-stays : paused_after false (run_app_session aes stuck_encounter) ≡ some true
unfolding run_app_session presence_bridge.Windows.Session.run_paused
    presence_bridge.Windows.Session.run_with_baseline presence_bridge.Windows.Session.exchange
    presence_bridge.Windows.Session.conclude presence_bridge.Windows.Session.stuck
    presence_bridge.Windows.Session.handled paused_after
stuck_encounter-stays = refl

-- a look each 0.35 seconds that finds no file
abbrev quiet : ℕ → Look
quiet k = record { mono = k * 350000; epoch = 1000000000 + k * 350000; file = absent }

abbrev waiting : Waiting
waiting = begin_wait false 0 1000000000 1300 300 none

wait_for_helper-ends_example :
    (r : Ending) × (wait_for_helper rt false session_token (858 + 860) 0 quiet waiting ≡ some r)
unfolding begin_wait
wait_for_helper-ends_example =
    wait_for_helper-ends rt false session_token quiet waiting 858 (λ _. not_there)
      (λ i. omega arith) refl (omega arith)

-- each look finds what another session left
abbrev stale_look : ℕ → Look
stale_look k = record {
  mono = k * 350000;
  epoch = 1000000000 + k * 350000;
  file = report (field "session_id" (str "qrstuvwxyzabcdef") end);
}

wait_for_helper-foreign_example :
    wait_for_helper rt false session_token 2000 0 stale_look waiting ≡ none
unfolding presence_bridge.Json.is_text presence_bridge.Json.get
wait_for_helper-foreign_example =
    wait_for_helper-foreign rt false session_token stale_look 2000 0 waiting
      (λ _. foreign (field "session_id" (str "qrstuvwxyzabcdef") end) refl)

abbrev row : Row
row = record {
  address = phone_address;
  name = "iPhone";
  rssi = negsuc 59;
  details = [];
  seen_monotonic = 500000000;
  seen_at = "t0";
}

normalize_row-row_payload_example :
    normalize_row rt null (obj (row_payload row))
    ≡ some (record {
      address = phone_address;
      rssi = negsuc 59;
      name = cut 100 "iPhone";
      seen_at = cut 40 "t0";
    })
unfolding normalize_text hex_only presence_bridge.Prelude.upper
    presence_bridge.Coordinator.Observers.colon_pairs
normalize_row-row_payload_example =
    normalize_row-row_payload rt null row "4a:00:00:00:00:01" refl (λ e. cc (e)) (λ e. cc (e))

abbrev client : Client
client = record {
  service_uuids = "6e400001" ∷ [];
  session_service_uuid = some "6e400001";
  matched_service_uuid = some "6e400001";
  matched_address = phone_address;
  matched_rssi = some (negsuc 59);
  handoff_deadline = some 600000000;
  handoff_expires_at = some 1300;
  completion_deadline = none;
  completion_expires_at = none;
  secure_bond_confirmed = true;
  ack_auth_failures = [];
  authenticated_ack_addresses = [];
  fresh_discovery_addresses = [];
  initial_discovery_failures = [];
  qr_verified_addresses = "4a:00:00:00:00:01" ∷ [];
  reused_bond_addresses = [];
  bond_repair_used = false;
}

abbrev headset : BondDevice
headset = record {
  device_id = "id2";
  address = "5B0000000002";
  container_id = "";
  transport = "ble";
}

abbrev peer_bonds : PeerBonds
peer_bonds = record {
  on_windows = true;
  has_client = true;
  native_address = some 81363860455425;
  addresses = "4A0000000001" ∷ [];
  inventory = bond ∷ headset ∷ [];
  remaining = headset ∷ [];
  unpaired = true;
  client_unpairs = true;
  candidate_unpairs = true;
}

repair_verified_bond-IsRepaired_example :
    IsRepaired peer_bonds "4a:00:00:00:00:01" 60000000 client
      (repair_verified_bond "4a:00:00:00:00:01" 60000000
        (remove_verified_peer_bonds peer_bonds)
        client).1
unfolding repair_verified_bond presence_bridge.Coordinator.Types.is_member
    presence_bridge.Windows.Client.after_removal remove_peer_bonds
    presence_bridge.Windows.Client.remove_verified_peer_bonds
    presence_bridge.Windows.Client.is_listed presence_bridge.Bonds.select_bond_devices
    presence_bridge.Bonds.is_direct presence_bridge.Bonds.compact_address
    presence_bridge.Prelude.matches presence_bridge.Prelude.upper presence_bridge.Prelude.eqb
repair_verified_bond-IsRepaired_example =
    repair_verified_bond-IsRepaired peer_bonds "4a:00:00:00:00:01" 60000000 client refl

-- a look before the report of the helper, and that report
abbrev removal_looks : List File
removal_looks =
    absent
    ∷ report (
        field "session_id" (str session_token) (
          field "state" (str "success")
            (field "removed_target_ids" (arr (cons (str "id") nil)) end)))
    ∷ []

run_interactive_identity_removal-IsExact_example :
    IsExact rt session_token
      (bond ∷ [])
      (exited 1 "")
      (exited 0 "")
      (exited 0 "")
      removal_looks
      (record { command = none; result = absent })
      (run_interactive_identity_removal rt session_token
        (bond ∷ [])
        1000000000
        (exited 1 "")
        (exited 0 "")
        (exited 0 "")
        removal_looks
        absent
        (record { command = none; result = absent })).0
      (run_interactive_identity_removal rt session_token
        (bond ∷ [])
        1000000000
        (exited 1 "")
        (exited 0 "")
        (exited 0 "")
        removal_looks
        absent
        (record { command = none; result = absent })).1
run_interactive_identity_removal-IsExact_example =
    run_interactive_identity_removal-IsExact rt session_token (bond ∷ []) 1000000000 (exited 1 "")
      (exited 0 "") (exited 0 "") removal_looks absent (record { command = none; result = absent })

run_interactive_identity_removal-done :
    (run_interactive_identity_removal rt session_token
      (bond ∷ [])
      1000000000
      (exited 1 "")
      (exited 0 "")
      (exited 0 "")
      removal_looks
      absent
      (record { command = none; result = absent })).0
    ≡ ok tt
unfolding run_interactive_identity_removal presence_bridge.Windows.Helper.task_command
    presence_bridge.Windows.Helper.clean_up presence_bridge.Windows.Helper.await_report
    presence_bridge.Windows.Helper.judge_file presence_bridge.Windows.Helper.judge_report
    presence_bridge.Windows.Helper.is_list_of presence_bridge.Windows.Helper.are_texts
    presence_bridge.Json.is_text presence_bridge.Json.get
run_interactive_identity_removal-done = refl
