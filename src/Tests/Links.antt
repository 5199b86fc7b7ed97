-- ===== src/Tests/Links.antt =====
-- The protocol's theorems at a concrete link.
use presence_bridge.Prelude.{
  ℕ, zero, suc, Bool, true, false, List, [], ◌∷◌, Option, none, some, Bytes, ℤ, pos, negsuc, Result,
  ok, err, All, ◌≡◌, ◌↔◌, refl, arith,
}
use presence_bridge.Protocol.Base64.{IsByte, b64url_encode, b64url_decode, decode-encode}
use presence_bridge.Protocol.Link.{
  IsWellFormed, InWindow, validate, validate_iff, is_session_id, is_observer_id,
}
use presence_bridge.Protocol.Messages.{claim, message-separated}
use presence_bridge.Protocol.Messages.Injective.{Binds, message-injective}
use presence_bridge.Protocol.Proofs.{verify_claim, verify_claim_iff}
use presence_bridge.Protocol.Parsing.{
  Url, is_invitation, read_link, from_uri, from_uri-IsWellFormed,
}
use presence_bridge.Tests.Fixtures.{rt, link, secret_bytes}

decode-encode_example : b64url_decode (b64url_encode (7 ∷ 255 ∷ [])) ≡ ok (7 ∷ 255 ∷ [])
decode-encode_example = decode-encode 7 (255 ∷ []) (omega arith, (omega arith, tt))

link-IsWellFormed : IsWellFormed link
unfolding is_session_id is_observer_id
link-IsWellFormed = record {
  has_version = refl;
  has_session_id = refl;
  has_observer_id = refl;
  has_secret = refl;
}

validate_iff_example :
    ((validate (pos 1000) link none false ≡ ok tt)
      ↔ (IsWellFormed link × InWindow (pos 1000) (pos 1300)))
    × ((validate (pos 1000) link none true ≡ ok tt) ↔ IsWellFormed link)
validate_iff_example = validate_iff (pos 1000) link none

message-separated_example : claim ≡ claim
message-separated_example = message-separated claim claim link link refl

message-injective_example : Binds claim link link
message-injective_example =
    message-injective claim link link link-IsWellFormed link-IsWellFormed refl

verify_claim_iff_example :
    ((verify_claim rt.hmac (pos 1000) link (b64url_encode secret_bytes) none false ≡ ok true) ↔ (
      IsWellFormed link
      × InWindow (pos 1000) (pos 1300)
      × (b64url_encode secret_bytes ≡ b64url_encode secret_bytes)))
    × ((verify_claim rt.hmac (pos 1000) link (b64url_encode secret_bytes) none true ≡ ok true)
        ↔ (IsWellFormed link × (b64url_encode secret_bytes ≡ b64url_encode secret_bytes)))
verify_claim_iff_example =
    verify_claim_iff rt.hmac (pos 1000) link (b64url_encode secret_bytes) none

abbrev url : Url
url = record {
  scheme = "presencepair";
  netloc = "pair";
  fields =
      ("v", "2" ∷ [])
      ∷ ("sid", "abcdefghijklmnop" ∷ [])
      ∷ ("oid", "desk" ∷ [])
      ∷ ("exp", "1300" ∷ [])
      ∷ ("secret", "AQIDBAUGBwgJCgsMDQ4PEBESExQVFhcYGRobHB0eH_8" ∷ [])
      ∷ [];
}

from_uri-IsWellFormed_example :
    (is_invitation url ≡ true)
    × (read_link url.fields ≡ ok link)
    × IsWellFormed link
    × InWindow (pos 1000) (pos 1300)
unfolding from_uri is_invitation presence_bridge.Prelude.lower
    presence_bridge.Protocol.Parsing.invalid_as_field read_link presence_bridge.Protocol.Parsing.one
    presence_bridge.Prelude.lookup presence_bridge.Json.parse_int b64url_decode validate
    is_session_id is_observer_id presence_bridge.Protocol.Base64.sextet
from_uri-IsWellFormed_example = from_uri-IsWellFormed (pos 1000) url none link refl
