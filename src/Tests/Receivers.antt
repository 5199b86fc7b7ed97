-- ===== src/Tests/Receivers.antt =====
-- The theorems on the Linux receiver's commands and pairing.
use presence_bridge.Prelude.{
  ℕ, Bool, true, false, List, [], ◌∷◌, none, some, String, ℤ, pos, Result, ok, err, inl, inr, ◌≡◌,
  refl,
}
use presence_bridge.Json.{Value, Payload, end, field, str, int}
use presence_bridge.Receiver.Keys.{BondFile, parsed}
use presence_bridge.Receiver.Commands.{Engine, loaded, command}
use presence_bridge.Receiver.Commands.Once.{
  IsOnce, initially, next, by_command, by_pairing, Reachable→IsOnce,
}
use presence_bridge.Receiver.Commands.{identity_sent, handle_pairing}
use presence_bridge.Receiver.Pairing.{Meeting, run_pair}
use presence_bridge.Receiver.Pairing.Proved.{IsProved, run_pair-IsProved}
use presence_bridge.Tests.Fixtures.{rt, link, session_token, phone_key, phone_address}

abbrev start : Payload
start = field "action" (str "start_app_pairing") (
    field "session_id" (str session_token) (
      field "observer_id" (str "desk") (
        field "expires_at" (int (pos 1300))
          (field "app_secret" (str "AQIDBAUGBwgJCgsMDQ4PEBESExQVFhcYGRobHB0eH_8") end))))

abbrev idle_engine : Engine
idle_engine = record {
  session = none;
  running = false;
  completed = false;
  result_sent = false;
  peers = [];
  deadline = 0;
  retired = [];
}

abbrev or_idle : {E : Type 0} → Result E Engine → Engine
or_idle (ok e) = e
or_idle (err _) = idle_engine

abbrev opened : Engine
opened = or_idle (command rt (pos 1000) 0 "desk" (λ _. loaded true) start idle_engine)

Reachable→IsOnce_example : IsOnce (handle_pairing identity_sent opened)
unfolding command presence_bridge.Json.is_text presence_bridge.Json.get
    presence_bridge.Receiver.Commands.link_of presence_bridge.Json.to_int
    presence_bridge.Json.get_default presence_bridge.Protocol.Base64.b64url_decode
    presence_bridge.Json.to_text presence_bridge.Protocol.Link.validate
    presence_bridge.Protocol.Link.is_session_id presence_bridge.Protocol.Link.is_observer_id
    presence_bridge.Receiver.Commands.start presence_bridge.Coordinator.Types.is_member
    presence_bridge.Receiver.Commands.start_idle
Reachable→IsOnce_example = Reachable→IsOnce rt "desk" (handle_pairing identity_sent opened) (
    next opened (handle_pairing identity_sent opened)
      (next idle_engine opened (initially idle_engine (refl, refl, refl))
        (by_command (pos 1000) 0 (λ _. loaded true) start idle_engine opened refl))
      (by_pairing identity_sent opened))

abbrev session_payload : Payload
session_payload = field "v" (int (pos 2)) (
    field "sid" (str session_token) (
      field "oid" (str "desk") (
        field "exp" (int (pos 1300))
          (field "proof" (str "AQIDBAUGBwgJCgsMDQ4PEBESExQVFhcYGRobHB0eH_8") end))))

abbrev meeting : Meeting
meeting = record {
  clock = pos 1000;
  found = ok tt;
  session = ok session_payload;
  claim = ok session_payload;
  paired = ok tt;
  peer_address = phone_address;
  files = (λ _. parsed phone_key phone_key (pos 1) (pos 16)) ∷ [];
  written = ok tt;
  saved = ok tt;
  encrypt = λ _. some "AQID";
  committed = ok tt;
}

run_pair-IsProved_example : IsProved rt link meeting "AQID"
unfolding run_pair presence_bridge.Receiver.Pairing.with_session
    presence_bridge.Receiver.Pairing.is_for presence_bridge.Receiver.Pairing.is_number
    presence_bridge.Receiver.Pairing.with_claim presence_bridge.Receiver.Pairing.accept
    presence_bridge.Receiver.Pairing.send_identity presence_bridge.Receiver.Pairing.wait_for_bond
    presence_bridge.Receiver.Pairing.with_bond presence_bridge.Json.get presence_bridge.Json.is_text
    presence_bridge.Json.to_text presence_bridge.Json.or_else presence_bridge.Json.truthy
    presence_bridge.Protocol.Proofs.verify_claim presence_bridge.Protocol.Proofs.acceptance_proof
    presence_bridge.Protocol.Proofs.claim_proof presence_bridge.Protocol.Link.validate
    presence_bridge.Protocol.Link.is_session_id presence_bridge.Protocol.Link.is_observer_id
    presence_bridge.Prelude.eqb presence_bridge.Prelude.upper presence_bridge.Prelude.matches
    presence_bridge.Protocol.Base64.b64url_encode presence_bridge.Protocol.Base64.symbol
    presence_bridge.Protocol.Messages.claim_message
    presence_bridge.Coordinator.Removal.fingerprint_of presence_bridge.Coordinator.Removal.from_hex
    presence_bridge.Receiver.Keys.address presence_bridge.Receiver.Keys.big_endian
    presence_bridge.Receiver.Keys.fingerprint presence_bridge.Receiver.Keys.read
    presence_bridge.Receiver.Keys.read_file presence_bridge.Windows.Keys.Registry.hex_upper
run_pair-IsProved_example =
    run_pair-IsProved rt link meeting "AQID" (inr (inr (inr (inr (inr (inr (inr (inl refl))))))))
