-- ===== src/Protocol/Uri.antt =====
-- `PairingLink.to_uri`; `urlencode` is a parameter.
use Prim.Native.String.{◌++◌}
use presence_bridge.Prelude.{[], ◌∷◌, none, true, String, ℤ, decimal_ℤ, Result, ok, ◌>>◌}
use presence_bridge.Runtime.{Runtime}
use presence_bridge.Protocol.Errors.{ProtocolError}
use presence_bridge.Protocol.Base64.{b64url_encode}
use presence_bridge.Protocol.Link.{PairingLink, validate}

unfoldable pub to_uri : Runtime → ℤ → PairingLink → Result ProtocolError String
to_uri rt clock link = do
  validate clock link none true
  ok (
      "presencepair://pair?"
      ++ rt.urlencode (
          ("v", decimal_ℤ link.version)
          ∷ ("sid", link.session_id)
          ∷ ("oid", link.observer_id)
          ∷ ("exp", decimal_ℤ link.expires_at)
          ∷ ("secret", rt.ascii (b64url_encode link.secret))
          ∷ []))
