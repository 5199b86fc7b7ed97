-- ===== src/Coordinator/Removal/Answers.antt =====
-- When a request for a removal succeeds, a receiver's answer to it has arrived.
use presence_bridge.Prelude.{
  Bool, true, false, List, [], ◌∷◌, Option, none, some, String, ◌==◌, eq_iff, Dict, lookup, insert,
  erase, lookup-insert, lookup-erase, cut, Result, ok, Any, if◌then◌else◌, ◌≡◌, ◌⊎◌, inl, inr, refl,
  arith, sym, ap, ◌∙◌, Option-cases, Bool-cases,
}
use presence_bridge.Json.{Payload, get, as_payload, text_at, is_true}
use presence_bridge.Runtime.{Runtime}
use presence_bridge.Coordinator.Types.{RemovalRequest}
use presence_bridge.Coordinator.Topic.{Message}
use presence_bridge.Coordinator.Action.{
  World, Env, Act, HaError, Command, publish, publish-ok, >>=-ok, ◌>>=◌,
}
use presence_bridge.Coordinator.Removal.{
  answers, set_reply, reply_to, removal_result_message, receive, reply_of, judge, await_reply,
  request_bond_removal, with_requests,
}

module _ (rt : Runtime) (token : String) where
  -- The message answers the request with this token, and carries this payload.
  pub record IsAnswer (q : RemovalRequest) (p : Payload) (m : Message) : Type 0 where
    pub carries : as_payload m.payload ≡ some p
    pub names_request : text_at rt.repr "request_id" p ≡ token
    pub fits : answers q m p ≡ true

  IsAnswer-set_reply :
      (q : RemovalRequest) (p p' : Payload) (ms : List Message)
      → Any (IsAnswer (set_reply p' q) p) ms
      → Any (IsAnswer q p) ms
  unfolding answers set_reply
  IsAnswer-set_reply q p p' [] h = h
  IsAnswer-set_reply q p p' (m ∷ ms) (inl a) =
      inl (record { carries = a.carries; names_request = a.names_request; fits = a.fits })
  IsAnswer-set_reply q p p' (m ∷ ms) (inr h) = inr (IsAnswer-set_reply q p p' ms h)

  IsStep : RemovalRequest → Message → Option RemovalRequest → Type 0
  IsStep q m after =
      (after ≡ some q) ⊎ (p : Payload) × IsAnswer q p m × (after ≡ some (set_reply p q))

  -- The other requests are left alone; this one is answered only by its own answer.
  reply_to-IsStep :
      (m : Message) (p : Payload) (requests : Dict RemovalRequest) (q : RemovalRequest)
      → as_payload m.payload ≡ some p
      → lookup token requests ≡ some q
      → IsStep q m (
          lookup token (
            reply_to m p
              (text_at rt.repr "request_id" p)
              (lookup (text_at rt.repr "request_id" p) requests)
              requests))
  unfolding IsStep reply_to
  reply_to-IsStep m p requests q e h = at (lookup (text_at rt.repr "request_id" p) requests) refl
    where
      id : String
      id = text_at rt.repr "request_id" p

      chosen :
          (b : Bool) (r : RemovalRequest)
          → answers r m p ≡ b
          → lookup id requests ≡ some r
          → IsStep q m (lookup token (if b then insert id (set_reply p r) requests else requests))
      chosen false r t f = inl h
      chosen true r t f = elim (Bool-cases (id == token)) [
        | inl same ↦
            let n : id ≡ token = (eq_iff id token).0 same in
            let rq : r ≡ q = cc (n, f, h) in
            inr (
              p,
              record { carries = e; names_request = n; fits = rw (sym rq) t },
              rw (lookup-insert id token (set_reply p r) requests, same, rq) refl,
            )
        | inr other ↦ inl (rw (lookup-insert id token (set_reply p r) requests, other) h)
      ]

      at :
          (o : Option RemovalRequest)
          → lookup id requests ≡ o
          → IsStep q m (lookup token (reply_to m p id o requests))
      at none f = inl h
      at (some r) f = chosen (answers r m p) r refl f

  removal_result_message-IsStep :
      (m : Message) (requests : Dict RemovalRequest) (q : RemovalRequest)
      → lookup token requests ≡ some q
      → IsStep q m (lookup token (removal_result_message rt m requests))
  unfolding IsStep removal_result_message
  removal_result_message-IsStep m requests q h = elim (Option-cases (as_payload m.payload)) [
    | inl e ↦ inl (rw (e, removal_result_message) h)
    | inr (p, e) ↦ rw (e, removal_result_message) (reply_to-IsStep m p requests q e h)
  ]

  receive-reply :
      (ms : List Message) (requests : Dict RemovalRequest) (q : RemovalRequest) (p : Payload)
      → lookup token requests ≡ some q
      → reply_of (lookup token (receive rt ms requests)) ≡ some p
      → (q.reply ≡ some p) ⊎ Any (IsAnswer q p) ms
  unfolding receive IsStep set_reply
  receive-reply [] requests q p h g = inl (sym (ap reply_of h) ∙ g)
  receive-reply (m ∷ ms) requests q p h g = elim (removal_result_message-IsStep m requests q h) [
    | inl same ↦ after (receive-reply ms (removal_result_message rt m requests) q p same g)
    | inr (p', a, set) ↦
        first p' a
          (receive-reply ms (removal_result_message rt m requests) (set_reply p' q) p set g)
  ]
    where
      after :
          ((q.reply ≡ some p) ⊎ Any (IsAnswer q p) ms)
          → (q.reply ≡ some p) ⊎ Any (IsAnswer q p) (m ∷ ms)
      after (inl e) = inl e
      after (inr e) = inr (inr e)

      kept :
          (p' : Payload) (o : Option Payload)
          → IsAnswer q p' m
          → (elim o [ none ↦ some p' | some r ↦ some r ]) ≡ some p
          → (o ≡ some p) ⊎ Any (IsAnswer q p) (m ∷ ms)
      kept p' none a e = let same : p' ≡ p = cc (e) in inr (inl (rw (sym same) a))
      kept p' (some r) a e = inl e

      first :
          (p' : Payload)
          → IsAnswer q p' m
          → (((set_reply p' q).reply ≡ some p) ⊎ Any (IsAnswer (set_reply p' q) p) ms)
          → (q.reply ≡ some p) ⊎ Any (IsAnswer q p) (m ∷ ms)
      first p' a (inl e) = kept p' q.reply a e
      first p' a (inr e) = inr (inr (IsAnswer-set_reply q p p' ms e))

-- Among the results that came there is one for this request, sent by the receiver that was asked and
-- naming the phone, and it says that the removal succeeded.
pub record IsConfirmed (rt : Runtime) (token observer_id fingerprint : String)
    (received : List Message) : Type 0 where
  pub reply : Payload
  pub arrived :
      Any
        (IsAnswer rt token
          (record {
            observer_id = observer_id;
            identity_id = cut 16 fingerprint;
            fingerprint = fingerprint;
            reply = none;
          })
          reply)
        received
  pub succeeded : is_true (get "success" reply) ≡ true

judge-ok :
    (o : Option Payload)
    → judge o ≡ ok tt
    → (p : Payload) × (o ≡ some p) × (is_true (get "success" p) ≡ true)
unfolding judge
judge-ok none h = cc (h)
judge-ok (some p) h = (p, refl, ground (arith, h))

unfoldable pub request_for : String → String → RemovalRequest
request_for observer_id fingerprint = record {
  observer_id = observer_id;
  identity_id = cut 16 fingerprint;
  fingerprint = fingerprint;
  reply = none;
}

await_reply-IsConfirmed :
    (rt : Runtime) (token observer_id fingerprint : String) (received : List Message) (w w' : World)
    → lookup token w.coordinator.removal_requests ≡ some (request_for observer_id fingerprint)
    → await_reply rt token received w ≡ (ok tt, w')
    → IsConfirmed rt token observer_id fingerprint received
unfolding await_reply request_for
await_reply-IsConfirmed rt token observer_id fingerprint received w w' e h =
    let (p, f, t) = judge-ok _ (ap (λ r. r.0) h) in
    record {
      reply = p;
      arrived = elim (receive-reply rt token received w.coordinator.removal_requests _ p e f) [
        | inl n ↦ cc (n)
        | inr a ↦ a
      ];
      succeeded = t;
    }

pub lookup-inserted :
    {V : Type 0} (k : String) (v : V) (d : Dict V) → lookup k (insert k v d) ≡ some v
lookup-inserted k v d = ground (arith, lookup-insert k k v d, eq_iff k k)

pub lookup-erased : {V : Type 0} (k : String) (d : Dict V) → lookup k (erase k d) ≡ none
lookup-erased k d = ground (arith, lookup-erase k k d, eq_iff k k)

pub request_bond_removal-IsConfirmed :
    (rt : Runtime) (env : Env) (received : List Message) (observer_id fingerprint : String)
    (command : Command) (w w' : World)
    → request_bond_removal rt env received observer_id fingerprint command w ≡ (ok tt, w')
    → IsConfirmed rt env.token observer_id fingerprint received
unfolding request_bond_removal request_for
request_bond_removal-IsConfirmed rt env received observer_id fingerprint command w w' h =
    let w1 : World = with_requests (insert env.token (request_for observer_id fingerprint)) w in
    let wait : Unit {0} → Act (Unit {0}) = λ _. await_reply rt env.token received in
    let m : Result HaError (Unit {0}) × World = (publish env observer_id command >>= wait) w1 in
    let e : m ≡ (ok tt, m.1) = ap (λ r. (r.0, m.1)) h in
    let (u, v, sent, waited) = >>=-ok (publish env observer_id command) wait w1 e in
    let out = publish-ok env observer_id command w1 v u sent in
    await_reply-IsConfirmed rt env.token observer_id fingerprint received v m.1
      (ap (λ x. lookup env.token x.coordinator.removal_requests) out
        ∙ lookup-inserted env.token (request_for observer_id fingerprint)
            w.coordinator.removal_requests)
      waited
