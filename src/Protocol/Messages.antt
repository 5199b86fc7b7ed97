-- ===== src/Protocol/Messages.antt =====
-- The byte strings of protocol.py that are authenticated. `link.validate` comes first in every caller,
-- so the texts are ASCII and `encode("ascii")` gives their code points.
pub mod Injective
use Prim.Native.String.{◌++◌}
use mathlib.Core.List
use presence_bridge.Prelude.{
  ℕ, zero, suc, ◌+◌, Bool, true, false, List, [], ◌∷◌, Bytes, codes, codes-append, ℤ, pos, negsuc,
  decimal, decimal_ℤ, decimal-injective, digits-decimal, String, ◌==◌, if◌then◌else◌, ◌=ℕ◌, ◌≡◌,
  ◌≢◌, refl, arith, ap, sym, ◌∙◌, all, is_token, is_digit, Lacks, Lacks-all, append-sep-injective,
  codes-injective, matches, and-left, and-right, leb, length,
}
use presence_bridge.Protocol.Link.{PairingLink, IsWellFormed, is_session_id, is_observer_id}

-- `f"{head}\n{session_id}"`
session_line : String → PairingLink → Bytes
session_line head link = codes (head ++ ("\n" ++ link.session_id))

-- `f"{head}\n{session_id}\n{observer_id}\n{expires_at}{tail}"`
full_lines : String → String → String → ℤ → String → Bytes
full_lines head session_id observer_id expires_at tail = codes (
    head
    ++ ("\n"
        ++ (session_id ++ ("\n" ++ (observer_id ++ ("\n" ++ (decimal_ℤ expires_at ++ tail)))))))

-- `link.version` is 2 after validation.
unfoldable pub claim_message : String → String → ℤ → Bytes
unfolding full_lines
claim_message session_id observer_id expires_at =
    full_lines "presence-bridge:v2" session_id observer_id expires_at ""

unfoldable pub pairing_message : PairingLink → Bytes
unfolding session_line
pairing_message link = session_line ("presence-bridge-gatt:v" ++ decimal_ℤ link.version) link

unfoldable pub preflight_message : PairingLink → Bytes
unfolding session_line
preflight_message link = session_line ("presence-bridge-preflight:v" ++ decimal_ℤ link.version) link

unfoldable pub completion_message : PairingLink → Bytes
unfolding full_lines
completion_message link =
    full_lines ("presence-bridge-complete:v" ++ decimal_ℤ link.version) link.session_id
      link.observer_id link.expires_at ""

unfoldable pub failure_message : PairingLink → Bytes
unfolding full_lines
failure_message link =
    full_lines ("presence-bridge-failed:v" ++ decimal_ℤ link.version) link.session_id
      link.observer_id link.expires_at ""

unfoldable pub acceptance_message : PairingLink → Bytes
unfolding full_lines
acceptance_message link =
    full_lines "presence-bridge-result:v2" link.session_id link.observer_id link.expires_at
      "\naccepted"

-- What the receivers and the app authenticate, by purpose.
pub data Purpose : Type 0 where
  claim pairing preflight completion failure acceptance : Purpose

unfoldable pub message : Purpose → PairingLink → Bytes
unfolding claim_message pairing_message preflight_message completion_message failure_message
    acceptance_message
message claim link = claim_message link.session_id link.observer_id link.expires_at
message pairing link = pairing_message link
message preflight link = preflight_message link
message completion link = completion_message link
message failure link = failure_message link
message acceptance link = acceptance_message link

-- the purpose that a message's head names, read up to the colon
head_of : Bytes → Bytes
head_of [] = []
head_of (c ∷ s) = let rest = head_of s in if c =ℕ b':' then [] else c ∷ rest

purpose_head : Purpose → Bytes
purpose_head claim = codes "presence-bridge"
purpose_head pairing = codes "presence-bridge-gatt"
purpose_head preflight = codes "presence-bridge-preflight"
purpose_head completion = codes "presence-bridge-complete"
purpose_head failure = codes "presence-bridge-failed"
purpose_head acceptance = codes "presence-bridge-result"

head_of-message : (p : Purpose) (link : PairingLink) → head_of (message p link) ≡ purpose_head p
unfolding message head_of purpose_head
head_of-message claim link = simp codes-append
head_of-message pairing link = simp codes-append
head_of-message preflight link = simp codes-append
head_of-message completion link = simp codes-append
head_of-message failure link = simp codes-append
head_of-message acceptance link = simp codes-append

purpose_head-injective : (p q : Purpose) → purpose_head p ≡ purpose_head q → p ≡ q
unfolding purpose_head
purpose_head-injective p q e = ground arith

-- Messages for two purposes differ, whatever the links.
pub message-separated : (p q : Purpose) (l m : PairingLink) → message p l ≡ message q m → p ≡ q
message-separated p q l m e =
    purpose_head-injective p q (sym (head_of-message p l) ∙ ap head_of e ∙ head_of-message q m)
