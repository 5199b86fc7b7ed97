-- ===== src/Protocol/Base64.antt =====
-- `b64url_encode` and `b64url_decode` of protocol.py, on bytes and code points.
use presence_bridge.Prelude.{
  ℕ, ◌+◌, ◌-◌, ◌*◌, ◌/◌, ◌%◌, ◌<◌, ltb, ◌=ℕ◌, true, [], ◌∷◌, Option, none, some, Result, ok, err,
  Bytes, all, is_token, is_upper, is_lower, is_digit, if◌then◌else◌, ◌≡◌, ◌≢◌, refl, arith, All,
}
use presence_bridge.Protocol.Errors.{ProtocolError, invalid_base64}

-- the alphabet of `base64.urlsafe_b64encode`
unfoldable pub symbol : ℕ → ℕ
symbol n =
    if ltb n 26
    then 65 + n
    else if ltb n 52
    then 71 + n
    else if ltb n 62
    then n - 4
    else if n =ℕ 62
    then b'-'
    else b'_'

-- the inverse, on the alphabet
unfoldable pub sextet : ℕ → ℕ
sextet c =
    if is_upper c
    then c - 65
    else if is_lower c
    then c - 71
    else if is_digit c
    then c + 4
    else if c =ℕ b'-'
    then 62
    else 63

-- `urlsafe_b64encode` with the padding stripped
unfoldable pub b64url_encode : Bytes → Bytes
b64url_encode [] = []
b64url_encode (a ∷ []) = symbol (a / 4) ∷ symbol (a % 4 * 16) ∷ []
b64url_encode (a ∷ b ∷ []) =
    symbol (a / 4) ∷ symbol (a % 4 * 16 + b / 16) ∷ symbol (b % 16 * 4) ∷ []
b64url_encode (a ∷ b ∷ c ∷ rest) =
    symbol (a / 4)
    ∷ symbol (a % 4 * 16 + b / 16)
    ∷ symbol (b % 16 * 4 + c / 64)
    ∷ symbol (c % 64)
    ∷ b64url_encode rest

-- One character alone in the last group is `binascii.Error`; spare low bits are dropped.
decode_groups : Bytes → Option Bytes
decode_groups [] = some []
decode_groups (p ∷ []) = none
decode_groups (p ∷ q ∷ []) = some ((sextet p * 4 + sextet q / 16) ∷ [])
decode_groups (p ∷ q ∷ r ∷ []) =
    some ((sextet p * 4 + sextet q / 16) ∷ (sextet q % 16 * 16 + sextet r / 4) ∷ [])
decode_groups (p ∷ q ∷ r ∷ s ∷ rest) = elim (decode_groups rest) [
  | none ↦ none
  | some bytes ↦ some (
      (sextet p * 4 + sextet q / 16)
      ∷ (sextet q % 16 * 16 + sextet r / 4)
      ∷ (sextet r % 4 * 64 + sextet s)
      ∷ bytes)
]

unfoldable pub b64url_decode : Bytes → Result ProtocolError Bytes
unfolding decode_groups
b64url_decode [] = err invalid_base64
b64url_decode (c ∷ s) =
    if all is_token (c ∷ s)
    then elim (decode_groups (c ∷ s)) [ none ↦ err invalid_base64 | some bytes ↦ ok bytes ]
    else err invalid_base64

sextet-symbol : (n : ℕ) → n < 64 → sextet (symbol n) ≡ n
unfolding sextet symbol
sextet-symbol n h = ground arith

symbol-is_token : (n : ℕ) → is_token (symbol n) ≡ true
unfolding symbol
symbol-is_token n = ground arith

abbrev pub IsByte : ℕ → Type 0
IsByte b = b < 256

encode-is_token : (bs : Bytes) → all is_token (b64url_encode bs) ≡ true
unfolding b64url_encode
encode-is_token [] = refl
encode-is_token (a ∷ []) = simp symbol-is_token
encode-is_token (a ∷ b ∷ []) = simp symbol-is_token
encode-is_token (a ∷ b ∷ c ∷ rest) = simp (symbol-is_token, encode-is_token rest)

decode_groups-encode : (bs : Bytes) → All IsByte bs → decode_groups (b64url_encode bs) ≡ some bs
unfolding b64url_encode decode_groups
decode_groups-encode [] h = refl
decode_groups-encode (a ∷ []) (ha, _) =
    rw (sextet-symbol (a / 4) (omega arith), sextet-symbol (a % 4 * 16) (omega arith))
      (ground arith)
decode_groups-encode (a ∷ b ∷ []) (ha, (hb, _)) =
    rw
      (
        sextet-symbol (a / 4) (omega arith),
        sextet-symbol (a % 4 * 16 + b / 16) (omega arith),
        sextet-symbol (b % 16 * 4) (omega arith),
      )
      (ground arith)
decode_groups-encode (a ∷ b ∷ c ∷ rest) (ha, (hb, (hc, hs))) =
    rw
      (
        decode_groups-encode rest hs,
        sextet-symbol (a / 4) (omega arith),
        sextet-symbol (a % 4 * 16 + b / 16) (omega arith),
        sextet-symbol (b % 16 * 4 + c / 64) (omega arith),
        sextet-symbol (c % 64) (omega arith),
      )
      (ground arith)

encode-ne-nil : (b : ℕ) (bs : Bytes) → (c : ℕ) × (s : Bytes) × (b64url_encode (b ∷ bs) ≡ c ∷ s)
unfolding b64url_encode
encode-ne-nil a [] = (_, _, refl)
encode-ne-nil a (b ∷ []) = (_, _, refl)
encode-ne-nil a (b ∷ c ∷ rest) = (_, _, refl)

decode_of_groups :
    (s : Bytes) {bytes : Bytes}
    → s ≢ []
    → all is_token s ≡ true
    → decode_groups s ≡ some bytes
    → b64url_decode s ≡ ok bytes
unfolding b64url_decode
decode_of_groups [] h t e = absurd (h refl)
decode_of_groups (c ∷ s) h t e = rw (t, e) refl

-- Decoding what was encoded gives the bytes back, for every non-empty sequence of bytes.
pub decode-encode :
    (b : ℕ) (bs : Bytes)
    → All IsByte (b ∷ bs)
    → b64url_decode (b64url_encode (b ∷ bs)) ≡ ok (b ∷ bs)
decode-encode b bs h =
    decode_of_groups _ (let (c, s, e) = encode-ne-nil b bs in λ n. cc (e, n))
      (encode-is_token (b ∷ bs)) (decode_groups-encode (b ∷ bs) h)
