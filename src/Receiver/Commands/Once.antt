-- ===== src/Receiver/Commands/Once.antt =====
-- A session is paired once: what holds of the Linux receiver after any commands and pairing events.
use presence_bridge.Prelude.{
  ℕ, ◌≤◌, ltb, Bool, true, false, ◌&&◌, ◌||◌, not, List, [], Option, none, some, String, ◌==◌,
  length, ℤ, Result, ok, err, ◌>>=◌, >>=-eq-ok, if◌then◌else◌, ◌≡◌, refl, arith, subst,
}
use presence_bridge.Json.{Value, Payload, get, is_text}
use presence_bridge.Runtime.{Runtime}
use presence_bridge.Coordinator.Types.{is_member}
use presence_bridge.Protocol.Link.{PairingLink}
use presence_bridge.Receiver.Commands.{
  CommandError, Loaded, not_loaded, loaded, Engine, PairingEvent, phone_found, bond_saved,
  identity_sent, pairing_ended, retire, end_pairing, handle_pairing, pairing_step, retired_with,
  same_link, is_session, link_of, open_session, start_idle, start, complete, command,
  already_pairing,
}

pub record IsOnce (e : Engine) : Type 0 where
  pub few_retired : length e.retired ≤ 256
  pub completed_after : e.completed ≡ true → e.result_sent ≡ true
  pub fresh :
      e.running ≡ true
      → (link : PairingLink) × (e.session ≡ some link)
        × (is_member link.session_id e.retired ≡ false)

pub data EngineStep (rt : Runtime) (observer_id : String) : Engine → Engine → Type 0 where
  by_command :
      (clock : ℤ) (mono : ℕ) (load_key : Value → Loaded) (payload : Payload) (e e' : Engine)
      → command rt clock mono observer_id load_key payload e ≡ ok e'
      → EngineStep rt observer_id e e'
  by_pairing :
      (event : PairingEvent) (e : Engine) → EngineStep rt observer_id e (handle_pairing event e)

pub data Reachable (rt : Runtime) (observer_id : String) : Engine → Type 0 where
  -- a receiver that has just started, with the peers that it loaded
  initially :
      (e : Engine)
      → (e.retired ≡ []) × (e.completed ≡ false) × (e.running ≡ false)
      → Reachable rt observer_id e
  next :
      (e e' : Engine)
      → Reachable rt observer_id e
      → EngineStep rt observer_id e e'
      → Reachable rt observer_id e'

length-retire : (s : String) (retired : List String) → length (retire s retired) ≤ 256
unfolding retire
length-retire s retired = ground arith

end_pairing-IsOnce : (e : Engine) → IsOnce e → IsOnce (end_pairing e)
unfolding end_pairing
end_pairing-IsOnce e h = at e.running
  where
    few : (m : Option PairingLink) → length (retired_with m e.retired) ≤ 256
    few none = h.few_retired
    few (some s) = length-retire s.session_id e.retired

    at :
        (b : Bool)
        → IsOnce (
            if b
            then record e { running = false; retired = retired_with e.session e.retired }
            else e)
    at true = record {
      few_retired = few e.session;
      completed_after = h.completed_after;
      fresh = λ r. cc (r);
    }
    at false = h

handle_pairing-IsOnce :
    (event : PairingEvent) (e : Engine) → IsOnce e → IsOnce (handle_pairing event e)
unfolding handle_pairing
handle_pairing-IsOnce event e h = at e.running (stepped event)
  where
    stepped : (event' : PairingEvent) → IsOnce (pairing_step event' e)
    stepped (phone_found mono) = record {
      few_retired = h.few_retired;
      completed_after = h.completed_after;
      fresh = h.fresh;
    }
    stepped (bond_saved f p) = record {
      few_retired = h.few_retired;
      completed_after = h.completed_after;
      fresh = h.fresh;
    }
    stepped identity_sent = record {
      few_retired = h.few_retired;
      completed_after = λ _. refl;
      fresh = h.fresh;
    }
    stepped pairing_ended = end_pairing-IsOnce e h

    at : (b : Bool) → IsOnce (pairing_step event e) → IsOnce (if b then pairing_step event e else e)
    at true k = k
    at false k = h

module _ (rt : Runtime) (observer_id : String) where
  open_session-IsOnce :
      (link : PairingLink) (e : Engine)
      → is_member link.session_id e.retired ≡ false
      → IsOnce e
      → IsOnce (open_session rt link e)
  unfolding open_session
  open_session-IsOnce link e f h = record {
    few_retired = h.few_retired;
    completed_after = λ c. cc (c);
    fresh = λ _. (link, refl, f);
  }

  start_idle-IsOnce :
      (key : Loaded) (link : PairingLink) (e e' : Engine)
      → is_member link.session_id e.retired ≡ false
      → IsOnce e
      → start_idle rt key link e ≡ ok e'
      → IsOnce e'
  unfolding start_idle
  start_idle-IsOnce not_loaded link e e' f h g = cc (g)
  start_idle-IsOnce (loaded false) link e e' f h g = cc (g)
  start_idle-IsOnce (loaded true) link e e' f h g =
      let same : open_session rt link e ≡ e' = cc (g) in
      subst IsOnce same (open_session-IsOnce link e f h)

  start-IsOnce :
      (key : Loaded) (link : PairingLink) (e e' : Engine)
      → IsOnce e
      → start rt observer_id key link e ≡ ok e'
      → IsOnce e'
  unfolding start
  start-IsOnce key link e e' h g =
      go (not (link.observer_id == observer_id)) (is_member link.session_id e.retired) e.running
        (same_link e.session link) refl g
    where
      go :
          (a b c d : Bool)
          → is_member link.session_id e.retired ≡ b
          → ◌≡◌ {A = Result CommandError Engine}
              (if a || b
                then ok e
                else if c
                then (if d then ok e else err already_pairing)
                else start_idle rt key link e)
              (ok e')
          → IsOnce e'
      go true b c d q k = subst IsOnce (cc (k)) h
      go false true c d q k = subst IsOnce (cc (k)) h
      go false false true true q k = subst IsOnce (cc (k)) h
      go false false true false q k = cc (k)
      go false false false d q k = start_idle-IsOnce key link e e' q h k

  complete-IsOnce : (mono : ℕ) (e : Engine) → IsOnce e → IsOnce (complete rt mono e)
  unfolding complete
  complete-IsOnce mono e h = at e.result_sent (ltb mono e.deadline) refl
    where
      at :
          (b c : Bool)
          → e.result_sent ≡ b
          → IsOnce (if b && c then record e { completed = true } else e)
      at true true q = record {
        few_retired = h.few_retired;
        completed_after = λ _. q;
        fresh = h.fresh;
      }
      at true false q = h
      at false c q = h

  command-IsOnce :
      (clock : ℤ) (mono : ℕ) (load_key : Value → Loaded) (payload : Payload) (e e' : Engine)
      → IsOnce e
      → command rt clock mono observer_id load_key payload e ≡ ok e'
      → IsOnce e'
  unfolding command
  command-IsOnce clock mono load_key payload e e' h g =
      go (is_text (get "action" payload) "start_app_pairing")
        (is_text (get "action" payload) "cancel" && is_session e.session (get "session_id" payload))
        (is_text (get "action" payload) "complete"
          && is_session e.session (get "session_id" payload))
        g
    where
      key : Loaded
      key = load_key (get "public_key" payload)

      go :
          (a b c : Bool)
          → ◌≡◌ {A = Result CommandError Engine}
              (if a
                then link_of rt clock payload >>= (λ link. start rt observer_id key link e)
                else if b
                then ok (end_pairing e)
                else if c
                then ok (complete rt mono e)
                else ok e)
              (ok e')
          → IsOnce e'
      go true b c k =
          let (link, _, q) =
            >>=-eq-ok (link_of rt clock payload) (λ l. start rt observer_id key l e) k in
          start-IsOnce key link e e' h q
      go false true c k =
          let same : end_pairing e ≡ e' = cc (k) in subst IsOnce same (end_pairing-IsOnce e h)
      go false false true k =
          let same : complete rt mono e ≡ e' = cc (k) in
          subst IsOnce same (complete-IsOnce mono e h)
      go false false false k = let same : e ≡ e' = cc (k) in subst IsOnce same h

  -- After any sequence of commands and of events of the pairing task, a session that is being paired
  -- is none of those that were used up, so that no session is paired twice while it is remembered;
  -- Home Assistant's commit counts only after the identity was sent; and at most 256 sessions are
  -- remembered.
  pub Reachable→IsOnce : (e : Engine) → Reachable rt observer_id e → IsOnce e
  Reachable→IsOnce e (initially _ (r, c, b)) = record {
    few_retired = ground (arith, r);
    completed_after = λ k. cc (k, c);
    fresh = λ k. cc (k, b);
  }
  Reachable→IsOnce e (next e₀ _ r (by_command clock mono load_key payload _ _ q)) =
      command-IsOnce clock mono load_key payload e₀ e (Reachable→IsOnce e₀ r) q
  Reachable→IsOnce e (next e₀ _ r (by_pairing event _)) =
      handle_pairing-IsOnce event e₀ (Reachable→IsOnce e₀ r)
