-- ===== src/Protocol/Proofs.antt =====
-- The keyed digests of protocol.py: service UUIDs, the app's claim and the receiver's acceptance.
-- `hmac` is `hmac.new(secret, message, hashlib.sha256).digest()`.
use Prim.Native.Nat.{bit_and, bit_or}
use presence_bridge.Prelude.{
  ℕ, zero, suc, ◌+◌, ◌/◌, ◌%◌, ◌<◌, ltb, ◌=ℕ◌, Bool, true, false, ◌&&◌, [], ◌∷◌, ◌++◌, Option, none,
  some, Result, ok, ◌>>=◌, >>=-eq-ok, ◌>>◌, Bytes, take, length, All, ℤ, get_elem?, =ℕ_iff, ◌≤◌,
  eqb, eqb_refl, eqb→eq, if◌then◌else◌, ◌≡◌, ◌↔◌, refl, arith, subst,
}
use presence_bridge.Protocol.Errors.{ProtocolError}
use presence_bridge.Protocol.Base64.{b64url_encode, IsByte}
use presence_bridge.Protocol.Link.{
  PairingLink, IsWellFormed, InWindow, current, validate, validate_iff,
}
use presence_bridge.Protocol.Messages.{
  claim_message, pairing_message, preflight_message, completion_message, failure_message,
  acceptance_message,
}

pub hex_digit : ℕ → ℕ
hex_digit d = if ltb d 10 then 48 + d else 87 + d

hex : Bytes → Bytes
unfolding hex_digit
hex [] = []
hex (b ∷ bs) = hex_digit (b / 16) ∷ hex_digit (b % 16) ∷ hex bs

-- raw[6] = (raw[6] & 0x0F) | 0x50; raw[8] = (raw[8] & 0x3F) | 0x80
stamp : Bytes → Bytes
stamp (a ∷ b ∷ c ∷ d ∷ e ∷ f ∷ g ∷ h ∷ i ∷ rest) =
    a ∷ b ∷ c ∷ d ∷ e ∷ f ∷ bit_or (bit_and g 0x0F) 0x50 ∷ h ∷ bit_or (bit_and i 0x3F) 0x80 ∷ rest
stamp short = short

-- str(uuid.UUID(bytes=raw))
uuid_text : Bytes → Bytes
unfolding hex
uuid_text (a ∷ b ∷ c ∷ d ∷ e ∷ f ∷ g ∷ h ∷ i ∷ j ∷ rest) =
    hex (a ∷ b ∷ c ∷ d ∷ [])
    ++ (b'-' ∷ hex (e ∷ f ∷ [])
        ++ (b'-' ∷ hex (g ∷ h ∷ []) ++ (b'-' ∷ hex (i ∷ j ∷ []) ++ (b'-' ∷ hex rest))))
uuid_text short = hex short

module _ (hmac : Bytes → Bytes → Bytes) (clock : ℤ) where
  unfoldable pub service_uuid : PairingLink → Bytes → Result ProtocolError Bytes
  unfolding stamp uuid_text
  service_uuid link text = do
    validate clock link none true
    ok (uuid_text (stamp (take 16 (hmac link.secret text))))

  unfoldable pub pairing_service_uuid : PairingLink → Result ProtocolError Bytes
  unfolding service_uuid
  pairing_service_uuid link = service_uuid link (pairing_message link)

  unfoldable pub preflight_service_uuid : PairingLink → Result ProtocolError Bytes
  unfolding service_uuid
  preflight_service_uuid link = service_uuid link (preflight_message link)

  unfoldable pub completion_service_uuid : PairingLink → Result ProtocolError Bytes
  unfolding service_uuid
  completion_service_uuid link = service_uuid link (completion_message link)

  unfoldable pub failure_service_uuid : PairingLink → Result ProtocolError Bytes
  unfolding service_uuid
  failure_service_uuid link = service_uuid link (failure_message link)

  unfoldable pub claim_proof : PairingLink → Result ProtocolError Bytes
  claim_proof link = do
    validate clock link none true
    ok (
        b64url_encode
          (hmac link.secret (claim_message link.session_id link.observer_id link.expires_at)))

  -- `supplied` is `str(supplied_proof or "")`
  unfoldable pub verify_claim : PairingLink → Bytes → Option ℤ → Bool → Result ProtocolError Bool
  unfolding claim_proof
  verify_claim link supplied now allow_expired = do
    validate clock link now allow_expired
    proof ← claim_proof link
    ok (eqb proof supplied)

  unfoldable pub acceptance_proof : PairingLink → Result ProtocolError Bytes
  acceptance_proof link = do
    validate clock link none true
    ok (b64url_encode (hmac link.secret (acceptance_message link)))

  -- The supplied proof is the encoded digest of the link's own claim message.
  abbrev pub IsProof : PairingLink → Bytes → Type 0
  IsProof link supplied =
      b64url_encode
        (hmac link.secret (claim_message link.session_id link.observer_id link.expires_at))
      ≡ supplied

  -- A claim verifies exactly if the link is well formed, the supplied proof is the encoded digest of
  -- the link's own claim message, and, unless the call exempts it from expiring, the link is in its
  -- window.
  pub verify_claim_iff :
      (link : PairingLink) (supplied : Bytes) (now : Option ℤ)
      → ((verify_claim link supplied now false ≡ ok true) ↔ (
          IsWellFormed link × InWindow (current clock now) link.expires_at × IsProof link supplied))
        × ((verify_claim link supplied now true ≡ ok true)
            ↔ (IsWellFormed link × IsProof link supplied))
  unfolding verify_claim
  verify_claim_iff link supplied now =
      let enc =
        b64url_encode
          (hmac link.secret (claim_message link.session_id link.observer_id link.expires_at)) in
      (
        (
          λ h.
              let (u, v, _) = >>=-eq-ok (validate clock link now false) _ h in
              let (w, t) = (validate_iff clock link now).0.0 v in
              let e = (validate_iff clock link none).1.1 w in
              (w, t, ground (arith, v, e, eqb→eq enc supplied)),
          λ (w, t, p).
              let v = (validate_iff clock link now).0.1 (w, t) in
              let e = (validate_iff clock link none).1.1 w in ground (arith, v, e, p, eqb_refl enc),
        ),
        (
          λ h.
              let (u, v, _) = >>=-eq-ok (validate clock link now true) _ h in
              let w = (validate_iff clock link now).1.0 v in
              let e = (validate_iff clock link none).1.1 w in
              (w, ground (arith, v, e, eqb→eq enc supplied)),
          λ (w, p).
              let v = (validate_iff clock link now).1.1 w in
              let e = (validate_iff clock link none).1.1 w in ground (arith, v, e, p, eqb_refl enc),
        ),
      )

-- What is relied on of HMAC-SHA256: it returns 32 bytes.
pub record IsDigest (hmac : Bytes → Bytes → Bytes) : Type 0 where
  pub has_length : (key text : Bytes) → length (hmac key text) ≡ 32
  pub has_bytes : (key text : Bytes) → All IsByte (hmac key text)

-- every value of a byte, by evaluation
every_below : (ℕ → Bool) → ℕ → Bool
every_below p zero = true
every_below p (suc m) = every_below p m && p m

every_below-at : (p : ℕ → Bool) (m i : ℕ) → i < m → every_below p m ≡ true → p i ≡ true
unfolding every_below
every_below-at p zero i below all = absurd (omega arith)
every_below-at p (suc m) i below all = ground (arith, below, all, every_below-at p m i)

version_table : every_below (λ x. bit_or (bit_and x 0x0F) 0x50 / 16 =ℕ 5) 256 ≡ true
unfolding every_below
version_table = refl

variant_table : every_below (λ x. bit_or (bit_and x 0x3F) 0x80 / 64 =ℕ 2) 256 ≡ true
unfolding every_below
variant_table = refl

-- A text with the shape of a version-5 UUID of the RFC variant.
pub record IsVersion5 (u : Bytes) : Type 0 where
  pub version : get_elem? u 14 ≡ some b'5'
  pub variant : ℕ
  pub variant_high : 8 ≤ variant
  pub variant_low : variant < 12
  pub variant_shown : get_elem? u 19 ≡ some (hex_digit variant)

stamped :
    (bs : Bytes) → length bs ≡ 32 → All IsByte bs → IsVersion5 (uuid_text (stamp (take 16 bs)))
unfolding stamp uuid_text
stamped (a ∷ b ∷ c ∷ d ∷ e ∷ f ∷ g ∷ h ∷ i ∷ j ∷ k ∷ l ∷ rest) n
      (_, (_, (_, (_, (_, (_, (hg, (_, (hi, _))))))))) =
    let v = (=ℕ_iff _ 5).0 (every_below-at _ 256 g hg version_table) in
    let w = (=ℕ_iff _ 2).0 (every_below-at _ 256 i hi variant_table) in
    record {
      version = ground (arith, v);
      variant = bit_or (bit_and i 0x3F) 0x80 / 16;
      variant_high = omega (arith, w);
      variant_low = omega (arith, w);
      variant_shown = refl;
    }
stamped _ l h = absurd (omega arith)

-- Every service UUID that is derived has the version and variant digits of a version-5 UUID, for an
-- HMAC that returns 32 bytes.
pub service_uuid-IsVersion5 :
    (hmac : Bytes → Bytes → Bytes) (clock : ℤ) (link : PairingLink) (text : Bytes)
    → IsDigest hmac
    → {u : Bytes} → service_uuid hmac clock link text ≡ ok u
    → IsVersion5 u
unfolding service_uuid
service_uuid-IsVersion5 hmac clock link text d {u} h =
    let (_, _, e) = >>=-eq-ok (validate clock link none true) _ h in
    let p : uuid_text (stamp (take 16 (hmac link.secret text))) ≡ u = cc (e) in
    subst IsVersion5 p (stamped _ (d.has_length link.secret text) (d.has_bytes link.secret text))
