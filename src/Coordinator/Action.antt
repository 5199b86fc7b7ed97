-- ===== src/Coordinator/Action.antt =====
-- Handlers that write state, publish commands and may raise. What was written before a raise stays
-- written, so the world comes back beside the error too.
use presence_bridge.Prelude.{
  ℕ, Bool, true, false, List, [], ◌∷◌, ◌++◌, Option, String, Result, ok, err, Bytes, if◌then◌else◌,
  ◌≡◌, refl, arith,
}
use presence_bridge.Json.{Value}
use presence_bridge.Coordinator.Types.{Coordinator}
use presence_bridge.Protocol.Errors.{ProtocolError}

-- The `HomeAssistantError`s of the coordinator, by their messages, and the other exceptions.
pub data HaError : Type 0 where
  select_person no_observer delivery_failed save_failed : HaError
  unknown_identity pairing_active receiver_offline update_receiver identity_mismatch : HaError
  removal_unconfirmed invalid_hex : HaError
  removal_failed : Value → HaError
  repair_expired repair_offline assignment_changed : HaError
  unknown_observer unknown_area : HaError
  invalid_link : ProtocolError → HaError

-- The JSON commands that `_async_publish` sends, less their constants and the public key. `expires_at`
-- is in seconds at a start, and in microseconds at a removal.
pub data Command : Type 0 where
  start_app_pairing :
      (session_id observer_id : String) (expires_at timeout : ℕ) (secret : Bytes) → Command
  cancel : String → Command
  complete : String → Command
  forget_identity : (request_id identity_id fingerprint : String) (expires_at : ℕ) → Command
  repair_pairing :
      (request_id identity_id fingerprint : String) (expires_at : ℕ) (repair_id session_id : String)
      → Command

pub record World : Type 0 where
  pub coordinator : Coordinator
  -- what was delivered, in order, with the receiver that it was for
  pub outbox : List (String × Command)

-- What surrounds one call of a handler.
pub record Env : Type 0 where
  -- time.time() and time.monotonic(), in microseconds
  pub now : ℕ
  pub monotonic : ℕ
  -- `hass.states.get(entity_id).name`
  pub person_name : String → Option String
  -- whether `_async_publish` returns, or raises
  pub delivers : String → Command → Bool
  -- whether `store.async_save` returns, or raises
  pub saves : Coordinator → Bool
  -- the rooms of Home Assistant
  pub has_area : String → Bool
  -- secrets.token_urlsafe(24), secrets.token_bytes(32)
  pub token : String
  pub secret : Bytes

abbrev pub Act {ℓ} : Type ℓ → Type ℓ
Act A = World → Result HaError A × World

module _ {ℓ} {A : Type ℓ} where
  abbrev pub pure : A → Act A
  pure a w = (ok a, w)

  abbrev pub raise : HaError → Act A
  raise e w = (err e, w)

  abbrev pub gets : (Coordinator → A) → Act A
  gets f w = (ok (f w.coordinator), w)

module _ {ℓ κ} {A : Type ℓ} {B : Type κ} where
  abbrev pub continue :
      Result HaError A → (A → World → Result HaError B × World) → World → Result HaError B × World
  continue (ok a) f w = f a w
  continue (err e) f w = (err e, w)

  infixl 5 ◌>>=◌
  abbrev pub ◌>>=◌ :
      (World → Result HaError A × World)
      → (A → World → Result HaError B × World)
      → World
      → Result HaError B × World
  ◌>>=◌ m f w = let (r, w') = m w in continue r f w'

infixl 5 ◌>>◌
abbrev pub ◌>>◌ {ℓ} : {B : Type ℓ} → Act (Unit {0}) → Act B → Act B
m >> n = m >>= λ _. n

abbrev pub modify : (Coordinator → Coordinator) → Act (Unit {0})
modify f w = (ok tt, record w { coordinator = f w.coordinator })

-- `if not test: raise error`
abbrev pub require : Bool → HaError → Act (Unit {0})
require true e w = (ok tt, w)
require false e w = (err e, w)

-- _async_publish
unfoldable pub publish : Env → String → Command → Act (Unit {0})
publish env observer_id command w =
    if env.delivers observer_id command
    then (ok tt, record w { outbox = w.outbox ++ (observer_id, command) ∷ [] })
    else (err delivery_failed, w)

-- self.store.async_save(self.memory)
unfoldable pub save : Env → Act (Unit {0})
save env w = if env.saves w.coordinator then (ok tt, w) else (err save_failed, w)

-- Inversion of an action that returned: its first part returned, and the rest went on from there.
pub >>=-ok :
    {A B : Type 0} (m : Act A) (f : A → Act B) (w : World) {b : B} {w' : World}
    → (m >>= f) w ≡ (ok b, w')
    → (a : A) × (v : World) × (m w ≡ (ok a, v)) × (f a v ≡ (ok b, w'))
>>=-ok {A} {B} m f w {b} {w'} h = go (m w) refl h
  where
    go :
        (p : Result HaError A × World)
        → m w ≡ p
        → (let (r, v) = p in continue r f v) ≡ (ok b, w')
        → (a : A) × (v : World) × (m w ≡ (ok a, v)) × (f a v ≡ (ok b, w'))
    go (ok a, v) e g = (a, v, e, g)
    go (err x, v) e g = cc (g)

pub publish-ok :
    (env : Env) (o : String) (command : Command) (w w' : World) (u : Unit {0})
    → publish env o command w ≡ (ok u, w')
    → w' ≡ record w { outbox = w.outbox ++ (o, command) ∷ [] }
unfolding publish
publish-ok env o command w w' u h = ground arith
