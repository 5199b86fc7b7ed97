-- ===== src/Protocol/Parsing.antt =====
-- `PairingLink.from_uri`, and the session descriptor; `urlparse` and `parse_qs` are parameters.
use presence_bridge.Prelude.{
  Bool, true, false, ◌&&◌, List, [], ◌∷◌, Option, none, some, String, ◌==◌, codes, lower, Dict,
  lookup, ℤ, Result, ok, err, ◌>>=◌, ◌>>◌, >>=-eq-ok, guard, ◌≡◌, refl, subst,
}
use presence_bridge.Json.{Value, parse_int, int, str}
use presence_bridge.Protocol.Errors.{
  ProtocolError, not_an_invitation, missing_or_repeated, invalid_field,
}
use presence_bridge.Protocol.Base64.{b64url_decode}
use presence_bridge.Protocol.Link.{
  PairingLink, IsWellFormed, InWindow, current, validate, validate_iff,
}

-- `urlparse` of the text, with `parse_qs` of its query
pub record Url : Type 0 where
  pub scheme : String
  pub netloc : String
  pub fields : Dict (List String)

-- one(name)
unfoldable pub one : Dict (List String) → String → Result ProtocolError String
one fields name = elim (lookup name fields) [ some (v ∷ []) ↦ ok v | _ ↦ err missing_or_repeated ]

abbrev integer : String → Result ProtocolError ℤ
integer s = elim (parse_int s) [ none ↦ err invalid_field | some n ↦ ok n ]

unfoldable pub read_link : Dict (List String) → Result ProtocolError PairingLink
read_link fields = do
  v ← one fields "v"
  version ← integer v
  session_id ← one fields "sid"
  observer_id ← one fields "oid"
  exp ← one fields "exp"
  expires_at ← integer exp
  text ← one fields "secret"
  secret ← b64url_decode (codes text)
  ok (record {
    session_id = session_id;
    observer_id = observer_id;
    expires_at = expires_at;
    secret = secret;
    version = version;
  })

-- Every ProtocolError is a ValueError, so what `one` and `b64url_decode` raise is replaced too.
unfoldable pub invalid_as_field :
    Result ProtocolError PairingLink → Result ProtocolError PairingLink
invalid_as_field (ok link) = ok link
invalid_as_field (err e) = err invalid_field

unfoldable pub is_invitation : Url → Bool
is_invitation url = lower url.scheme == "presencepair" && lower url.netloc == "pair"

-- `from_uri`, where the query is one that `parse_qs` reads
unfoldable pub from_uri : ℤ → Url → Option ℤ → Bool → Result ProtocolError PairingLink
from_uri clock url now allow_expired = do
  guard (is_invitation url) not_an_invitation
  link ← invalid_as_field (read_link url.fields)
  validate clock link now allow_expired
  ok link

-- public_session_payload
unfoldable pub public_session_payload : PairingLink → Dict Value
public_session_payload link =
    ("v", int link.version)
    ∷ ("sid", str link.session_id)
    ∷ ("oid", str link.observer_id)
    ∷ ("exp", int link.expires_at)
    ∷ []

-- A link that is parsed without the expiry exemption comes from an invitation, is well formed, and
-- expires after the reference time and at most ten minutes later.
pub from_uri-IsWellFormed :
    (clock : ℤ) (url : Url) (now : Option ℤ) (link : PairingLink)
    → from_uri clock url now false ≡ ok link
    → (is_invitation url ≡ true)
      × (read_link url.fields ≡ ok link)
      × IsWellFormed link
      × InWindow (current clock now) link.expires_at
unfolding from_uri invalid_as_field
from_uri-IsWellFormed clock url now link h =
    let (_, invited, h1) = >>=-eq-ok (guard (is_invitation url) not_an_invitation) _ h in
    let (l, read, h2) = >>=-eq-ok (invalid_as_field (read_link url.fields)) _ h1 in
    let (u, valid, h3) = >>=-eq-ok (validate clock l now false) _ h2 in
    let same : l ≡ link = cc (h3) in
    let (formed, near) = ((validate_iff clock l now).0).0 valid in
    (
      guarded (is_invitation url) invited,
      subst (λ k. read_link url.fields ≡ ok k) same (kept (read_link url.fields) l read),
      subst IsWellFormed same formed,
      subst (λ k. InWindow (current clock now) k.expires_at) same near,
    )
  where
    guarded : (b : Bool) {u : Unit {0}} → guard b not_an_invitation ≡ ok u → b ≡ true
    guarded true e = refl
    guarded false e = cc (e)

    kept :
        (r : Result ProtocolError PairingLink) (l : PairingLink)
        → invalid_as_field r ≡ ok l
        → r ≡ ok l
    kept (ok k) l e = e
    kept (err x) l e = cc (e)
