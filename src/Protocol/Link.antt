-- ===== src/Protocol/Link.antt =====
-- `PairingLink` of protocol.py and its validation. Times are whole seconds.
use presence_bridge.Prelude.{
  ℕ, ◌+◌, ◌-◌, ◌≤◌, ◌<◌, leb, ◌=ℕ◌, Bool, true, false, ◌||◌, Option, none, some, Result, ok, ◌>>◌,
  guard, raise_if, Bytes, codes, matches, is_token, is_lower, is_digit, length, ℤ, pos, negsuc,
  eqb_ℤ, leb_ℤ, ltb_ℤ, pos_part, neg_part, String, if◌then◌else◌, ◌≡◌, ◌↔◌, refl, arith, sym, ◌∙◌,
  Lacks, Lacks-all,
}
use presence_bridge.Protocol.Errors.{
  ProtocolError, unsupported_version, invalid_session_id, invalid_observer_id, bad_secret_length,
  expired, expiry_too_far,
}

abbrev pub protocol_version : ℕ
protocol_version = 2

abbrev pub max_invitation_lifetime : ℕ
max_invitation_lifetime = 600

pub record PairingLink : Type 0 where
  pub session_id : String
  pub observer_id : String
  pub expires_at : ℤ
  pub secret : Bytes
  pub version : ℤ

is_observer_char : ℕ → Bool
is_observer_char c = is_lower c || is_digit c || c =ℕ b'_'

-- SESSION_ID_RE.fullmatch
unfoldable pub is_session_id : String → Bool
unfolding matches
is_session_id s = matches is_token 16 96 (codes s)

-- OBSERVER_ID_RE.fullmatch
unfoldable pub is_observer_id : String → Bool
unfolding matches is_observer_char
is_observer_id s = matches is_observer_char 3 64 (codes s)

plus : ℤ → ℕ → ℤ
plus (pos n) k = pos (n + k)
plus (negsuc n) k = if leb (n + 1) k then pos (k - (n + 1)) else negsuc (n - k)

-- `now`, or `int(time.time())` where the caller gives none
abbrev pub current : ℤ → Option ℤ → ℤ
current clock none = clock
current clock (some now) = now

-- the expiry window
check_window : ℤ → ℤ → Result ProtocolError (Unit {0})
unfolding plus
check_window now expires_at = do
  raise_if (leb_ℤ expires_at now) expired
  raise_if (ltb_ℤ (plus now max_invitation_lifetime) expires_at) expiry_too_far

-- PairingLink.validate
unfoldable pub validate : ℤ → PairingLink → Option ℤ → Bool → Result ProtocolError (Unit {0})
unfolding check_window
validate clock link now allow_expired = do
  guard (eqb_ℤ link.version (pos protocol_version)) unsupported_version
  guard (is_session_id link.session_id) invalid_session_id
  guard (is_observer_id link.observer_id) invalid_observer_id
  guard (length link.secret =ℕ 32) bad_secret_length
  if allow_expired then ok tt else check_window (current clock now) link.expires_at

-- What every accepted link has.
pub record IsWellFormed (link : PairingLink) : Type 0 where
  pub has_version : link.version ≡ pos protocol_version
  pub has_session_id : is_session_id link.session_id ≡ true
  pub has_observer_id : is_observer_id link.observer_id ≡ true
  pub has_secret : length link.secret ≡ 32

-- The link expires after `now` and at most ten minutes later.
pub record InWindow (now expires_at : ℤ) : Type 0 where
  pub not_expired : pos_part now + neg_part expires_at < pos_part expires_at + neg_part now
  pub near :
      pos_part expires_at + neg_part now
      ≤ pos_part now + neg_part expires_at + max_invitation_lifetime

eqb_ℤ→eq : (a b : ℤ) → eqb_ℤ a b ≡ true → a ≡ b
eqb_ℤ→eq a b h = ground arith

validate→IsWellFormed :
    (clock : ℤ) (link : PairingLink) (now : Option ℤ) (allow : Bool)
    → validate clock link now allow ≡ ok tt
    → IsWellFormed link
unfolding validate
validate→IsWellFormed clock link now allow h = ground arith

check_window_iff :
    (now expires_at : ℤ) → (check_window now expires_at ≡ ok tt) ↔ InWindow now expires_at
unfolding check_window
check_window_iff now e = (λ h. ground arith, λ h. ground arith)

IsWellFormed→validate :
    (clock : ℤ) (link : PairingLink) (now : Option ℤ) (allow : Bool)
    → IsWellFormed link
    → validate clock link now allow
      ≡ (if allow then ok tt else check_window (current clock now) link.expires_at)
unfolding validate
IsWellFormed→validate clock link now allow w = ground arith

pub session_id-Lacks : (s : String) → is_session_id s ≡ true → Lacks 10 (codes s)
unfolding is_session_id
session_id-Lacks s h = Lacks-all is_token 10 (codes s) refl (ground arith)

pub observer_id-Lacks : (s : String) → is_observer_id s ≡ true → Lacks 10 (codes s)
unfolding is_observer_id
observer_id-Lacks s h = Lacks-all is_observer_char 10 (codes s) refl (ground arith)

-- Validation without the expiry exemption accepts exactly the well-formed links whose expiry lies
-- after the reference time and at most ten minutes later; with it, exactly the well-formed ones.
pub validate_iff :
    (clock : ℤ) (link : PairingLink) (now : Option ℤ)
    → ((validate clock link now false ≡ ok tt)
        ↔ (IsWellFormed link × InWindow (current clock now) link.expires_at))
      × ((validate clock link now true ≡ ok tt) ↔ IsWellFormed link)
validate_iff clock link now = (
  (
    (λ h.
        let w = validate→IsWellFormed clock link now false h in
        (w, (check_window_iff _ _).0 (sym (IsWellFormed→validate clock link now false w) ∙ h))),
    (λ (w, t). IsWellFormed→validate clock link now false w ∙ (check_window_iff _ _).1 t),
  ),
  (validate→IsWellFormed clock link now true, IsWellFormed→validate clock link now true),
)
