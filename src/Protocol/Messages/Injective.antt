-- ===== src/Protocol/Messages/Injective.antt =====
-- An authenticated message determines the session that it is about.
use Prim.Native.String.{◌++◌}
use mathlib.Core.List
use mathlib.Core.List.{append-nil}
use presence_bridge.Prelude.{
  ℕ, suc, [], ◌∷◌, Bytes, codes, codes-append, ℤ, pos, negsuc, decimal, decimal_ℤ,
  decimal-injective, digits-decimal, String, ◌≡◌, ◌≢◌, refl, arith, ap, sym, ◌∙◌, ◌⊎◌, inl, inr,
  all, is_digit, Lacks, Lacks-all, append-sep-injective, codes-injective,
}
use presence_bridge.Protocol.Link.{PairingLink, IsWellFormed, observer_id-Lacks, session_id-Lacks}
use presence_bridge.Protocol.Messages.{
  session_line, full_lines, message, Purpose, claim, pairing, preflight, completion, failure,
  acceptance,
}

not_digit_sign : (m n : ℕ) → codes (decimal m) ≢ codes ("-" ++ decimal n)
not_digit_sign m n e = cc (digits-decimal m, ap (all is_digit) (e ∙ codes-append "-" (decimal n)))

decimal_ℤ-injective : (a b : ℤ) → codes (decimal_ℤ a) ≡ codes (decimal_ℤ b) → a ≡ b
unfolding decimal_ℤ
decimal_ℤ-injective (pos m) (pos n) e = cc (decimal-injective m n e)
decimal_ℤ-injective (pos m) (negsuc n) e = absurd (not_digit_sign m (suc n) e)
decimal_ℤ-injective (negsuc m) (pos n) e = absurd (not_digit_sign n (suc m) (sym e))
decimal_ℤ-injective (negsuc m) (negsuc n) e = cc (
    decimal-injective (suc m) (suc n)
      (cc (codes-append "-" (decimal (suc m)), codes-append "-" (decimal (suc n)), e)))

decimal_ℤ-Lacks : (a : ℤ) → Lacks 10 (codes (decimal_ℤ a))
unfolding decimal_ℤ
decimal_ℤ-Lacks (pos n) = Lacks-all is_digit 10 _ refl (digits-decimal n)
decimal_ℤ-Lacks (negsuc n) =
    rw (codes-append) ((λ e. omega arith), Lacks-all is_digit 10 _ refl (digits-decimal (suc n)))

append_cancel : (s t u : Bytes) → List.◌++◌ s t ≡ List.◌++◌ s u → t ≡ u
append_cancel [] t u e = e
append_cancel (c ∷ s) t u e = append_cancel s t u (cc)

-- the tails that the messages have: nothing, or a line of its own
abbrev IsTail : String → Type 0
IsTail tail = (codes tail ≡ []) ⊎ ((t : Bytes) × (codes tail ≡ 10 ∷ t))

drop_tail :
    (a b : ℤ) (tail : String)
    → IsTail tail
    → List.◌++◌ (codes (decimal_ℤ a)) (codes tail) ≡ List.◌++◌ (codes (decimal_ℤ b)) (codes tail)
    → a ≡ b
drop_tail a b tail (inl e) h =
    decimal_ℤ-injective a b
      (cc (append-nil (codes (decimal_ℤ a)), append-nil (codes (decimal_ℤ b)), e, h))
drop_tail a b tail (inr (t, e)) h =
    decimal_ℤ-injective a b
      (append-sep-injective 10 _ _ t t (decimal_ℤ-Lacks a) (decimal_ℤ-Lacks b) (rw e at h)).0

full_lines-codes :
    (head s o : String) (e : ℤ) (tail : String)
    → full_lines head s o e tail
      ≡ List.◌++◌ (codes head) (
          10
          ∷ List.◌++◌
              (codes s)
              (10 ∷ List.◌++◌ (codes o) (10 ∷ List.◌++◌ (codes (decimal_ℤ e)) (codes tail))))
unfolding full_lines
full_lines-codes head s o e tail = simp codes-append

session_line-codes :
    (head : String) (l : PairingLink)
    → session_line head l ≡ List.◌++◌ (codes head) (10 ∷ codes l.session_id)
unfolding session_line
session_line-codes head l = simp codes-append

-- Two full messages with one head and one tail name the same session, receiver and expiry.
abbrev pub SameFields : PairingLink → PairingLink → Type 0
SameFields l m =
    (l.session_id ≡ m.session_id) × (l.observer_id ≡ m.observer_id) × (l.expires_at ≡ m.expires_at)

module _ (l m : PairingLink) (wl : IsWellFormed l) (wm : IsWellFormed m) where
  full_lines-injective :
      (head tail : String)
      → IsTail tail
      → full_lines head l.session_id l.observer_id l.expires_at tail
        ≡ full_lines head m.session_id m.observer_id m.expires_at tail
      → SameFields l m
  full_lines-injective head tail t e =
      let lines =
        append_cancel (codes head) _ _
          (sym (full_lines-codes head _ _ _ tail) ∙ e ∙ full_lines-codes head _ _ _ tail) in
      let (s, rest) =
        append-sep-injective 10 (codes l.session_id) (codes m.session_id) _ _
          (session_id-Lacks _ wl.has_session_id) (session_id-Lacks _ wm.has_session_id)
          (cc (lines)) in
      let (o, last) =
        append-sep-injective 10 (codes l.observer_id) (codes m.observer_id) _ _
          (observer_id-Lacks _ wl.has_observer_id) (observer_id-Lacks _ wm.has_observer_id) rest in
      (codes-injective _ _ s, codes-injective _ _ o, drop_tail _ _ tail t last)

  session_line-injective :
      (head : String) → session_line head l ≡ session_line head m → l.session_id ≡ m.session_id
  session_line-injective head e = codes-injective _ _ (
      cc (
        append_cancel (codes head) (10 ∷ codes l.session_id) (10 ∷ codes m.session_id)
          (sym (session_line-codes head l) ∙ e ∙ session_line-codes head m)))

-- What a message of each purpose binds: the beacons the session, the proofs the receiver and expiry too.
abbrev pub Binds : Purpose → PairingLink → PairingLink → Type 0
Binds pairing l m = l.session_id ≡ m.session_id
Binds preflight l m = l.session_id ≡ m.session_id
Binds _ l m = SameFields l m

-- For well-formed links a message binds its fields: two links with the same message for one purpose
-- have the same session, and except for the two beacons the same receiver and expiry.
pub message-injective :
    (p : Purpose) (l m : PairingLink)
    → IsWellFormed l
    → IsWellFormed m
    → message p l ≡ message p m
    → Binds p l m
unfolding message
message-injective claim l m wl wm e =
    full_lines-injective l m wl wm "presence-bridge:v2" "" (inl refl) e
message-injective pairing l m wl wm e =
    let v : m.version ≡ l.version = wm.has_version ∙ sym wl.has_version in
    session_line-injective l m wl wm ("presence-bridge-gatt:v" ++ decimal_ℤ l.version) (rw v at e)
message-injective preflight l m wl wm e =
    let v : m.version ≡ l.version = wm.has_version ∙ sym wl.has_version in
    session_line-injective l m wl wm ("presence-bridge-preflight:v" ++ decimal_ℤ l.version)
      (rw v at e)
message-injective completion l m wl wm e =
    let v : m.version ≡ l.version = wm.has_version ∙ sym wl.has_version in
    full_lines-injective l m wl wm ("presence-bridge-complete:v" ++ decimal_ℤ l.version) ""
      (inl refl) (rw v at e)
message-injective failure l m wl wm e =
    let v : m.version ≡ l.version = wm.has_version ∙ sym wl.has_version in
    full_lines-injective l m wl wm ("presence-bridge-failed:v" ++ decimal_ℤ l.version) "" (inl refl)
      (rw v at e)
message-injective acceptance l m wl wm e =
    full_lines-injective l m wl wm "presence-bridge-result:v2" "\naccepted"
      (inr (codes "accepted", refl)) e
