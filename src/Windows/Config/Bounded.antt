-- ===== src/Windows/Config/Bounded.antt =====
-- What holds of every configuration that loads.
use presence_bridge.Prelude.{true, eq_iff, ℤ, pos, ◌≤ℤ◌, ok, >>=-eq-ok, ◌≡◌, ◌≢◌, arith, subst}
use presence_bridge.Json.{Payload, Value, as_payload}
use presence_bridge.Runtime.{Runtime}
use presence_bridge.Protocol.Link.{is_observer_id}
use presence_bridge.Windows.Config.{
  ObserverConfig, Paths, Numbers, configured, checked, load, item, numbers, max_ℤ, min_ℤ, mapping,
}

pub record IsBounded (c : ObserverConfig) : Type 0 where
  pub publish_interval : pos 5000000 ≤ℤ c.publish_interval
  pub observation_ttl : pos 20000000 ≤ℤ c.observation_ttl
  pub retry_interval : pos 3000000 ≤ℤ c.retry_interval
  pub scanner_restart_interval : pos 300000000 ≤ℤ c.scanner_restart_interval
  pub scanner_stale_timeout : pos 60000000 ≤ℤ c.scanner_stale_timeout
  pub min_observations : pos 10 ≤ℤ c.max_observations
  pub max_observations : c.max_observations ≤ℤ pos 200

pub record IsUsable (c : ObserverConfig) : Type 0 where
  pub observer_id : is_observer_id c.observer_id ≡ true
  pub name : c.name ≢ ""
  pub host : c.mqtt.host ≢ ""
  pub topic_root : c.topic_root ≢ ""

max_ℤ-le : (a b : ℤ) → a ≤ℤ max_ℤ a b
max_ℤ-le a b = ground arith

clamp-le :
    (n : ℤ)
    → (pos 10 ≤ℤ min_ℤ (pos 200) (max_ℤ (pos 10) n))
      × (min_ℤ (pos 200) (max_ℤ (pos 10) n) ≤ℤ pos 200)
clamp-le n = (ground arith, ground arith)

configured-IsBounded :
    (rt : Runtime) (paths : Paths) (raw mqtt_raw : Payload) (observer_id host : Value) (n : Numbers)
    → IsBounded (configured rt paths raw mqtt_raw observer_id host n)
unfolding configured
configured-IsBounded rt paths raw mqtt_raw observer_id host n = record {
  publish_interval = max_ℤ-le (pos 5000000) n.publish;
  observation_ttl = max_ℤ-le (pos 20000000) n.ttl;
  retry_interval = max_ℤ-le (pos 3000000) n.retry;
  scanner_restart_interval = max_ℤ-le (pos 300000000) n.restart;
  scanner_stale_timeout = max_ℤ-le (pos 60000000) n.stale;
  min_observations = (clamp-le n.observations).0;
  max_observations = (clamp-le n.observations).1;
}

checked-IsUsable :
    (rt : Runtime) (c c' : ObserverConfig) → checked rt c ≡ ok c' → (c ≡ c') × IsUsable c
unfolding checked
checked-IsUsable rt c c' h = (
  ground (arith, h),
  record {
    observer_id = ground (arith, h);
    name = λ e. ground (arith, h, e, eq_iff c.name "");
    host = λ e. ground (arith, h, e, eq_iff c.mqtt.host "");
    topic_root = λ e. ground (arith, h, e, eq_iff c.topic_root "");
  },
)

-- A configuration that loads has a valid receiver identifier, a name, a host and a topic, and all its
-- intervals and its number of observations are within their bounds, whatever the file says.
pub load-IsBounded :
    (rt : Runtime) (paths : Paths) (raw : Payload) (c : ObserverConfig)
    → load rt paths raw ≡ ok c
    → IsBounded c × IsUsable c
unfolding load
load-IsBounded rt paths raw c h0 =
    let (mqtt_value, e1, h1) = >>=-eq-ok (item "mqtt" raw) _ h0 in
    let (observer_id, e2, h2) = >>=-eq-ok (item "observer_id" raw) _ h1 in
    let (mqtt_raw, e3, h3) = >>=-eq-ok (mapping rt (as_payload mqtt_value)) _ h2 in
    let (host, e4, h4) = >>=-eq-ok (item "host" mqtt_raw) _ h3 in
    let (n, e5, h5) = >>=-eq-ok (numbers rt raw mqtt_raw) _ h4 in
    let (same, usable) =
      checked-IsUsable rt (configured rt paths raw mqtt_raw observer_id host n) c h5 in
    (
      subst IsBounded same (configured-IsBounded rt paths raw mqtt_raw observer_id host n),
      subst IsUsable same usable,
    )
