-- ===== src/Coordinator/Topic.antt =====
-- Messages as the handlers take them: `_observer_id_from_topic`, and a payload decoded by
-- `_decode_payload` (`null` where it is no JSON).
use presence_bridge.Prelude.{◌&&◌, List, ◌∷◌, String, ◌==◌, split, if◌then◌else◌, ◌≡◌, refl}
use presence_bridge.Json.{Value}

pub record Message : Type 0 where
  pub topic : String
  pub payload : Value

observer_of_parts : List String → String
observer_of_parts (a ∷ b ∷ c ∷ d ∷ e ∷ rest) =
    if a == "presence_bridge" && b == "v1" && c == "observers" then d else ""
observer_of_parts parts = ""

unfoldable pub observer_id_from_topic : String → String
unfolding split observer_of_parts
observer_id_from_topic topic = observer_of_parts (split b'/' topic)

observer_id_from_topic_runs :
    observer_id_from_topic "presence_bridge/v1/observers/desk/pairing/status" ≡ "desk"
unfolding observer_id_from_topic
observer_id_from_topic_runs = refl
