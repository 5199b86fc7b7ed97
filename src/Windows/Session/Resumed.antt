-- ===== src/Windows/Session/Resumed.antt =====
-- Each session pauses the scan and resumes it in turn, and ends with the scan resumed.
use presence_bridge.Prelude.{
  Bool, true, false, ◌&&◌, List, [], ◌∷◌, ◌++◌, Option, none, some, String, Dict, Bytes, Result, ok,
  err, if◌then◌else◌, ◌≡◌, ◌⊎◌, inl, inr, refl, ap, ◌∙◌,
}
use presence_bridge.Json.{Value}
use presence_bridge.Windows.Keys.{KeyRecord, select_new_irk_records, verified_app_identity_payload}
use presence_bridge.Windows.Session.{
  Fault, gatt, cancelled, other, Event, paused, resumed, discoverable, posted, bridge_result,
  sent_result, receipt, Peer, Encounter, Part, part, before, handled, released, conclude, stuck,
  failing, run_with_baseline, show_receipt, deliver, capture, encrypted, deliver_encrypted,
  deliver_captured, exchange, run_app_session, ManualEncounter, manual_sent, manual_payload,
  manual_end, run_discoverable, run_manual_paused, run_paused, pause_again, confirm_receipt,
  look_for_new, run_manual_session,
}

-- Whether the scan is paused after the events; `none` where it is paused twice, or resumed while it
-- runs.
unfoldable pub paused_after : Bool → List Event → Option Bool
paused_after b [] = some b
paused_after b (paused ∷ es) = let later = paused_after true es in if b then none else later
paused_after b (resumed ∷ es) = let later = paused_after false es in if b then later else none
paused_after b (_ ∷ es) = paused_after b es

abbrev after : Option Bool → List Event → Option Bool
after none es = none
after (some b) es = paused_after b es

paused_after-append :
    (b : Bool) (es fs : List Event) → paused_after b (es ++ fs) ≡ after (paused_after b es) fs
unfolding paused_after
paused_after-append b [] fs = refl
paused_after-append true (paused ∷ es) fs = refl
paused_after-append false (paused ∷ es) fs = paused_after-append true es fs
paused_after-append true (resumed ∷ es) fs = paused_after-append false es fs
paused_after-append false (resumed ∷ es) fs = refl
paused_after-append b (discoverable _ ∷ es) fs = paused_after-append b es fs
paused_after-append b (posted _ _ ∷ es) fs = paused_after-append b es fs
paused_after-append b (bridge_result _ ∷ es) fs = paused_after-append b es fs
paused_after-append b (sent_result _ ∷ es) fs = paused_after-append b es fs
paused_after-append b (receipt _ ∷ es) fs = paused_after-append b es fs

-- A part of a session that keeps account of the scan, which is paused before it.
abbrev IsKept : Part → Type 0
IsKept p = paused_after true p.events ≡ some p.has_paused

handled-quiet :
    (b : Bool) (e : Encounter) (f : Option Fault) → paused_after b (handled e f) ≡ some b
unfolding paused_after handled
handled-quiet b e none = refl
handled-quiet b e (some (gatt t code)) = at (e.interactive && e.leased)
  where
    at : (c : Bool) → paused_after b (if c then receipt false ∷ [] else []) ≡ some b
    at true = refl
    at false = refl
handled-quiet b e (some cancelled) = refl
handled-quiet b e (some other) = refl

stuck-quiet : (b : Bool) (e : Encounter) (f : Option Fault) → paused_after b (stuck e f) ≡ some b
unfolding paused_after stuck
stuck-quiet b e none = handled-quiet b e none
stuck-quiet b e (some (gatt t code)) = refl
stuck-quiet b e (some cancelled) = handled-quiet b e (some cancelled)
stuck-quiet b e (some other) = handled-quiet b e (some other)

-- The scan runs after the events, or is still paused because the heartbeat task failed.
unfoldable pub IsResumed : Encounter → Option Bool → Type 0
IsResumed e m = (m ≡ some false) ⊎ ((m ≡ some true) × (e.heartbeat_fails ≡ true))

-- A session that ends has the scan resumed, unless the heartbeat task failed.
conclude-IsResumed :
    (b : Bool) (e : Encounter) (p : Part)
    → paused_after b p.events ≡ some p.has_paused
    → IsResumed e (paused_after b (conclude e p))
unfolding conclude paused_after IsResumed
conclude-IsResumed b e p h = split p.has_heartbeat e.heartbeat_fails refl
  where
    at : (c : Bool) → paused_after c (released c) ≡ some false
    at true = refl
    at false = refl

    resumes : paused_after b (p.events ++ (handled e p.fault ++ released p.has_paused)) ≡ some false
    resumes =
        paused_after-append b p.events (handled e p.fault ++ released p.has_paused)
        ∙ ap (λ m. after m (handled e p.fault ++ released p.has_paused)) h
        ∙ paused_after-append p.has_paused (handled e p.fault) (released p.has_paused)
        ∙ ap (λ m. after m (released p.has_paused)) (handled-quiet p.has_paused e p.fault)
        ∙ at p.has_paused

    stays : paused_after b (p.events ++ stuck e p.fault) ≡ some p.has_paused
    stays =
        paused_after-append b p.events (stuck e p.fault)
        ∙ ap (λ m. after m (stuck e p.fault)) h
        ∙ stuck-quiet p.has_paused e p.fault

    left :
        (c : Bool) (m : Option Bool)
        → e.heartbeat_fails ≡ true
        → m ≡ some c
        → (m ≡ some false) ⊎ ((m ≡ some true) × (e.heartbeat_fails ≡ true))
    left true m f g = inr (g, f)
    left false m f g = inl g

    split :
        (x y : Bool)
        → e.heartbeat_fails ≡ y
        → IsResumed e (
            paused_after b (
              if x && y
              then p.events ++ stuck e p.fault
              else p.events ++ (handled e p.fault ++ released p.has_paused)))
    split true true f = left p.has_paused _ f stays
    split true false f = inl resumes
    split false y f = inl resumes

show_receipt-IsKept :
    (e : Encounter) (m : Result Fault (Unit {0}))
    → paused_after false (show_receipt e m).events ≡ some (show_receipt e m).has_paused
unfolding show_receipt pause_again confirm_receipt paused_after
show_receipt-IsKept e (err f) = refl
show_receipt-IsKept e (ok _) = go e.second_fault e.confirm
  where
    confirmed :
        (c : Result Fault (Unit {0}))
        → paused_after false (confirm_receipt c).events ≡ some (confirm_receipt c).has_paused
    confirmed (ok _) = refl
    confirmed (err f) = refl

    go :
        (b : Option Fault) (c : Result Fault (Unit {0}))
        → paused_after false (pause_again e b).events ≡ some (pause_again e b).has_paused
    go none c = confirmed e.confirm
    go (some f) c = refl

module _ (aes : Bytes → Bytes → Bytes) where
  deliver_encrypted-IsKept :
      (e : Encounter) (m : Option String) → IsKept (deliver_encrypted aes e m)
  unfolding deliver_encrypted deliver paused_after
  deliver_encrypted-IsKept e none = refl
  deliver_encrypted-IsKept e (some c) = at e.heartbeat_fails
    where
      sent : Part
      sent =
          before
            (posted "identity_captured" "identity_captured"
              ∷ resumed
              ∷ bridge_result c
              ∷ sent_result c
              ∷ [])
            (show_receipt e e.commit)

      at : (b : Bool) → IsKept (if b then failing other else sent)
      at true = refl
      at false = show_receipt-IsKept e e.commit

  deliver_captured-IsKept :
      (e : Encounter) (m : Result Fault KeyRecord) → IsKept (deliver_captured aes e m)
  unfolding deliver_captured paused_after
  deliver_captured-IsKept e (err f) = refl
  deliver_captured-IsKept e (ok row) =
      deliver_encrypted-IsKept e (encrypted aes e (verified_app_identity_payload row))

  exchange-IsKept : (e : Encounter) (m : Result Fault Peer) → IsKept (exchange aes e m)
  unfolding exchange paused_after
  exchange-IsKept e (err f) = refl
  exchange-IsKept e (ok peer) = at peer.secure_exchange_complete
    where
      taken : Part
      taken =
          before (posted "bonding" "iphone_claim_accepted" ∷ [])
            (deliver_captured aes e (capture aes e.last e.baseline peer.address e.reads))

      at :
          (b : Bool)
          → IsKept (if b then taken else failing (gatt false "iphone_secure_exchange_missing"))
      at true = deliver_captured-IsKept e (capture aes e.last e.baseline peer.address e.reads)
      at false = refl

  -- However an app pairing goes, it pauses and resumes the scan in turn, and the scan runs when it has
  -- ended, unless the task that repeats the status failed: only then can the scan be left paused.
  pub run_app_session-IsResumed :
      (e : Encounter) → IsResumed e (paused_after false (run_app_session aes e))
  unfolding run_app_session run_paused run_with_baseline paused_after
  run_app_session-IsResumed e = at e.pause_fault
    where
      begun : (m : Option Fault) → IsResumed e (paused_after true (run_with_baseline aes e m))
      begun none = conclude-IsResumed true e (exchange aes e e.peer) (exchange-IsKept e e.peer)
      begun (some f) = conclude-IsResumed true e (part [] (some f) true) refl

      at : (m : Option Fault) → IsResumed e (paused_after false (run_paused aes e m))
      at none = begun e.baseline_fault
      at (some f) = conclude-IsResumed false e (part [] (some f) false) refl

-- A pairing by hand posts, and hides the receiver, without touching the scan.
quiet-append :
    (b : Bool) (es : List Event)
    → paused_after b es ≡ some b
    → paused_after b (es ++ (discoverable false ∷ resumed ∷ [])) ≡ paused_after b (resumed ∷ [])
unfolding paused_after
quiet-append b es h =
    paused_after-append b es (discoverable false ∷ resumed ∷ [])
    ∙ ap (λ m. after m (discoverable false ∷ resumed ∷ [])) h

manual_end-quiet : (b : Bool) (f : Option Fault) → paused_after b (manual_end f) ≡ some b
unfolding paused_after manual_end
manual_end-quiet b none = refl
manual_end-quiet b (some cancelled) = refl
manual_end-quiet b (some other) = refl
manual_end-quiet b (some (gatt t code)) = refl

look_for_new-quiet :
    (encrypt : Dict Value → Option String) (captured_at : String) (last : Option Fault)
    (baseline : List KeyRecord) (reads : List (List KeyRecord))
    → paused_after true (look_for_new encrypt captured_at last baseline reads) ≡ some true
unfolding paused_after look_for_new
look_for_new-quiet encrypt captured_at last baseline [] = manual_end-quiet true last
look_for_new-quiet encrypt captured_at last baseline (current ∷ reads) =
    go (select_new_irk_records baseline current)
      (look_for_new-quiet encrypt captured_at last baseline reads)
  where
    sent : (m : Option String) → paused_after true (manual_sent m) ≡ some true
    sent none = refl
    sent (some c) = refl

    go :
        (m : List KeyRecord)
        → paused_after true (look_for_new encrypt captured_at last baseline reads) ≡ some true
        → paused_after true (elim m [
          | [] ↦ look_for_new encrypt captured_at last baseline reads
          | row ∷ [] ↦ manual_sent (encrypt (manual_payload captured_at row))
          | _ ∷ _ ∷ _ ↦ posted "error" "" ∷ []
        ])
          ≡ some true
    go [] h = h
    go (row ∷ []) h = sent (encrypt (manual_payload captured_at row))
    go (_ ∷ _ ∷ _) h = refl

run_discoverable-quiet : (e : ManualEncounter) → paused_after true (run_discoverable e) ≡ some true
unfolding paused_after run_discoverable
run_discoverable-quiet e = at e.becomes_discoverable
  where
    at :
        (b : Bool)
        → paused_after true (
            if b
            then posted "waiting_for_phone" ""
              ∷ look_for_new e.encrypt e.captured_at e.last e.baseline e.reads
            else posted "error" "" ∷ [])
          ≡ some true
    at true = look_for_new-quiet e.encrypt e.captured_at e.last e.baseline e.reads
    at false = refl

-- A pairing by hand, too, leaves the scan running, however it ends.
pub run_manual_session-resumed :
    (e : ManualEncounter) → paused_after false (run_manual_session e) ≡ some false
unfolding run_manual_session run_manual_paused paused_after
run_manual_session-resumed e = at e.pause_fault
  where
    at : (m : Option Fault) → paused_after false (run_manual_paused e m) ≡ some false
    at none = quiet-append true (run_discoverable e) (run_discoverable-quiet e)
    at (some f) =
        paused_after-append false (manual_end (some f)) (discoverable false ∷ [])
        ∙ ap (λ m. after m (discoverable false ∷ [])) (manual_end-quiet false (some f))
