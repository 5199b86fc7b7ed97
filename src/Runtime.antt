-- ===== src/Runtime.antt =====
-- What the code takes from Python, Home Assistant and its libraries: parameters of the model.
use presence_bridge.Prelude.{ℕ, Bool, Bytes, List, Option, String, ℤ}
use presence_bridge.Json.{Value}

pub record Runtime : Type 0 where
  -- `str` of a number, list or dict
  pub repr : Value → String
  -- `float` of a text, in millionths
  pub parse_float : String → Option ℤ
  -- `dt_util.parse_datetime`, in microseconds, and `isoformat`
  pub parse_datetime : String → Option ℕ
  pub isoformat : ℕ → String
  -- `hashlib.sha256(…).hexdigest()` and `hmac` over it
  pub sha256_hex : Bytes → String
  pub hmac : Bytes → Bytes → Bytes
  -- `resolve_private_address(get_cipher_for_irk(irk), address)`
  pub resolve_private_address : String → String → Bool
  -- `str.casefold`
  pub casefold : String → String
  -- `urllib.parse.urlencode` of pairs, `bytes.decode("ascii")`, and the QR image of `segno`
  pub urlencode : List (String × String) → String
  pub ascii : Bytes → String
  pub qr_data_uri : String → String
