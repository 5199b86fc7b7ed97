-- ===== src/Windows/Config.antt =====
-- `ObserverConfig.load` of bridge/windows/observer.py. Numbers with a fraction are in millionths.
pub mod Bounded
use Prim.Native.Char.{code}
use presence_bridge.Prelude.{
  ℕ, ◌=ℕ◌, Bool, true, false, ◌&&◌, ◌||◌, not, Option, none, some, String, ◌==◌, strip, lower, ℤ,
  pos, leb_ℤ, Result, ok, err, ◌>>=◌, ◌>>◌, guard, if◌then◌else◌,
}
use presence_bridge.Json.{
  Value, end, field, str, bool, int, frac, Payload, get, get_default, as_payload, truthy, to_int,
  or_else, to_text, text_at,
}
use presence_bridge.Runtime.{Runtime}
use presence_bridge.Protocol.Link.{is_observer_id}
use presence_bridge.Coordinator.Status.{float_of}

pub record MqttConfig : Type 0 where
  pub host : String
  pub port : ℤ
  pub username : String
  pub password : String

pub record ObserverConfig : Type 0 where
  pub observer_id : String
  pub name : String
  pub mqtt : MqttConfig
  pub publish_interval : ℤ
  pub observation_ttl : ℤ
  pub retry_interval : ℤ
  pub scanner_restart_interval : ℤ
  pub scanner_stale_timeout : ℤ
  pub max_observations : ℤ
  pub log_path : String
  pub topic_root : String
  pub legacy_topic_root : String
  pub app_pairing_enabled : Bool
  pub interactive_pairing_task : String
  pub interactive_pairing_command_path : String
  pub interactive_pairing_result_path : String

-- KeyError, the TypeErrors and ValueErrors of the conversions, and the three of the checks
pub data ConfigError : Type 0 where
  missing_key wrong_type not_a_number : ConfigError
  invalid_observer_id name_or_host_missing topic_root_missing : ConfigError

-- What `pathlib` gives for the paths that the file leaves out.
pub record Paths : Type 0 where
  pub log : String
  pub command : String
  pub result : String

-- payload[key]
unfoldable pub item : String → Payload → Result ConfigError Value
item k end = err missing_key
item k (field j v p) = let rest = item k p in if j == k then ok v else rest

abbrev lstrip_slash : String → String
lstrip_slash String.[] = String.[]
lstrip_slash (String.◌∷◌ c s) =
    let rest = lstrip_slash s in if code c =ℕ b'/' then rest else String.◌∷◌ c s

abbrev rstrip_slash : String → String
rstrip_slash String.[] = String.[]
rstrip_slash (String.◌∷◌ c s) =
    let rest = rstrip_slash s in
    if rest == "" && code c =ℕ b'/' then String.[] else String.◌∷◌ c rest

-- text.strip().strip("/")
unfoldable pub topic : String → String
topic text = rstrip_slash (lstrip_slash (strip text))

abbrev pub max_ℤ : ℤ → ℤ → ℤ
max_ℤ a b = if leb_ℤ a b then b else a

abbrev pub min_ℤ : ℤ → ℤ → ℤ
min_ℤ a b = if leb_ℤ a b then a else b

-- The numbers of the file, as they stand there.
pub record Numbers : Type 0 where
  pub port_number : ℤ
  pub publish : ℤ
  pub ttl : ℤ
  pub retry : ℤ
  pub restart : ℤ
  pub stale : ℤ
  pub observations : ℤ

module _ (rt : Runtime) where
  abbrev number : Option ℤ → Result ConfigError ℤ
  number none = err not_a_number
  number (some n) = ok n

  abbrev float_at : String → ℤ → Payload → Result ConfigError ℤ
  float_at key default raw = number (float_of rt (get_default key (frac default) raw))

  abbrev int_at : String → ℕ → Payload → Result ConfigError ℤ
  int_at key default raw = number (to_int (get_default key (int (pos default)) raw))

  unfoldable pub numbers : Payload → Payload → Result ConfigError Numbers
  numbers raw mqtt_raw = do
    port ← int_at "port" 1883 mqtt_raw
    publish ← float_at "publish_interval" (pos 12000000) raw
    ttl ← float_at "observation_ttl" (pos 55000000) raw
    retry ← float_at "retry_interval" (pos 10000000) raw
    restart ← float_at "scanner_restart_interval" (pos 1800000000) raw
    stale ← float_at "scanner_stale_timeout" (pos 120000000) raw
    observations ← int_at "max_observations" 100 raw
    ok (record {
      port_number = port;
      publish = publish;
      ttl = ttl;
      retry = retry;
      restart = restart;
      stale = stale;
      observations = observations;
    })

  abbrev pub mapping : Option Payload → Result ConfigError Payload
  mapping none = err wrong_type
  mapping (some p) = ok p

  -- str(raw.get(key) or default)
  abbrev text_or : String → String → Payload → String
  text_or key default raw = to_text rt.repr (or_else (get key raw) (str default))

  -- the configuration before its checks
  unfoldable pub configured : Paths → Payload → Payload → Value → Value → Numbers → ObserverConfig
  configured paths raw mqtt_raw observer_id host n = record {
    observer_id = lower (strip (to_text rt.repr observer_id));
    name = strip (to_text rt.repr (or_else (get "name" raw) observer_id));
    mqtt = record {
      host = strip (to_text rt.repr host);
      port = n.port_number;
      username = text_at rt.repr "username" mqtt_raw;
      password = text_at rt.repr "password" mqtt_raw;
    };
    publish_interval = max_ℤ (pos 5000000) n.publish;
    observation_ttl = max_ℤ (pos 20000000) n.ttl;
    retry_interval = max_ℤ (pos 3000000) n.retry;
    scanner_restart_interval = max_ℤ (pos 300000000) n.restart;
    scanner_stale_timeout = max_ℤ (pos 60000000) n.stale;
    max_observations = min_ℤ (pos 200) (max_ℤ (pos 10) n.observations);
    log_path = text_or "log_path" paths.log raw;
    topic_root = topic (text_or "topic_root" "presence_bridge/v1/observers" raw);
    legacy_topic_root = topic (text_or "legacy_topic_root" "smart_presence/ble" raw);
    app_pairing_enabled = truthy (get_default "app_pairing_enabled" (bool true) raw);
    interactive_pairing_task = strip (text_at rt.repr "interactive_pairing_task" raw);
    interactive_pairing_command_path = text_or "interactive_pairing_command_path" paths.command raw;
    interactive_pairing_result_path = text_or "interactive_pairing_result_path" paths.result raw;
  }

  unfoldable pub checked : ObserverConfig → Result ConfigError ObserverConfig
  checked config = do
    guard (is_observer_id config.observer_id) invalid_observer_id
    guard (not (config.name == "" || config.mqtt.host == "")) name_or_host_missing
    guard (not (config.topic_root == "")) topic_root_missing
    ok config

  -- `ObserverConfig.load`, of the object that the file holds
  unfoldable pub load : Paths → Payload → Result ConfigError ObserverConfig
  load paths raw = do
    mqtt_value ← item "mqtt" raw
    observer_id ← item "observer_id" raw
    mqtt_raw ← mapping (as_payload mqtt_value)
    host ← item "host" mqtt_raw
    n ← numbers raw mqtt_raw
    checked (configured paths raw mqtt_raw observer_id host n)
