-- ===== src/Coordinator/Enroll/Assigned.antt =====
-- A phone is enrolled only after it was heard, and never taken from another person.
use presence_bridge.Prelude.{
  ℕ, zero, suc, ◌+◌, ◌*◌, ◌≤◌, ◌<◌, leb, Bool, true, false, Option, none, some, String, ◌==◌,
  eq_iff, lookup, lookup-insert, if◌then◌else◌, ◌≡◌, ◌≢◌, inl, inr, refl, arith, sym, ap,
  Bool-cases,
}
use presence_bridge.Runtime.{Runtime}
use presence_bridge.Coordinator.Types.{Coordinator, IdentityRow, Session}
use presence_bridge.Coordinator.Lease.{pairing_deadline}
use presence_bridge.Coordinator.Matching.{Phone, matches_for_irk}
use presence_bridge.Coordinator.Removal.Answers.{lookup-inserted}
use presence_bridge.Coordinator.Enroll.{
  Outcome, Waiting, replaced, missed, heard, is_none, current, wait_for_phone, owner_of,
  selected_id, assign, enrolled_row,
}

-- The wait ended at look `j`: the session was current, its time not up, and the phone was heard.
pub record IsHeard (rt : Runtime) (away_timeout : ℕ) (waiting : Waiting) (handle : ℕ)
    (phone : Phone) (n k : ℕ) (c : Coordinator) : Type 0 where
  pub look : ℕ
  pub first : k ≤ look
  pub last : look < k + n
  pub session : Session
  pub is_current : current handle c ≡ some session
  pub in_time : waiting.clock look < pairing_deadline session * 1000000
  pub match_found : is_none (matches_for_irk rt (waiting.clock look) away_timeout phone c) ≡ false

-- If the wait ends with the phone heard, then at one of its looks, the last, the session was the
-- current one, its deadline was not reached, and a receiver had a recent advertisement of the phone.
pub wait_for_phone-IsHeard :
    (rt : Runtime) (away_timeout : ℕ) (waiting : Waiting) (handle : ℕ) (phone : Phone) (n k : ℕ)
    (c c' : Coordinator)
    → wait_for_phone rt away_timeout waiting handle phone n k c ≡ (heard, c')
    → IsHeard rt away_timeout waiting handle phone n k c'
unfolding wait_for_phone
wait_for_phone-IsHeard rt away_timeout waiting handle phone zero k c c' h = go (current handle c) h
  where
    go :
        (m : Option Session)
        → ◌≡◌ {A = Outcome × Coordinator}
            (elim m [ none ↦ (replaced, c) | some s ↦ (missed, c) ])
            (heard, c')
        → IsHeard rt away_timeout waiting handle phone zero k c'
    go none e = cc (e)
    go (some s) e = cc (e)
wait_for_phone-IsHeard rt away_timeout waiting handle phone (suc n) k c c' h =
    go (current handle c) refl
      (wait_for_phone-IsHeard rt away_timeout waiting handle phone n (k + 1) (waiting.sleep k c) c')
      h
  where
    later : Outcome × Coordinator
    later = wait_for_phone rt away_timeout waiting handle phone n (k + 1) (waiting.sleep k c)

    widen :
        IsHeard rt away_timeout waiting handle phone n (k + 1) c'
        → IsHeard rt away_timeout waiting handle phone (suc n) k c'
    widen i = record {
      look = i.look;
      first = (let f = i.first in omega (arith, f));
      last = (let l = i.last in omega (arith, l));
      session = i.session;
      is_current = i.is_current;
      in_time = i.in_time;
      match_found = i.match_found;
    }

    now :
        (s : Session)
        → current handle c ≡ some s
        → leb (pairing_deadline s * 1000000) (waiting.clock k) ≡ false
        → is_none (matches_for_irk rt (waiting.clock k) away_timeout phone c) ≡ false
        → c ≡ c'
        → IsHeard rt away_timeout waiting handle phone (suc n) k c'
    now s e t m same = record {
      look = k;
      first = omega arith;
      last = omega arith;
      session = s;
      is_current = rw (sym same) e;
      in_time = ground (arith, t);
      match_found = rw (sym same) m;
    }

    looked :
        (a b : Bool) (s : Session)
        → current handle c ≡ some s
        → leb (pairing_deadline s * 1000000) (waiting.clock k) ≡ a
        → is_none (matches_for_irk rt (waiting.clock k) away_timeout phone c) ≡ b
        → (later ≡ (heard, c') → IsHeard rt away_timeout waiting handle phone n (k + 1) c')
        → ◌≡◌ {A = Outcome × Coordinator}
            (if a then (missed, c) else if b then later else (heard, c))
            (heard, c')
        → IsHeard rt away_timeout waiting handle phone (suc n) k c'
    looked true b s e t m f g = cc (g)
    looked false true s e t m f g = widen (f g)
    looked false false s e t m f g = now s e t m (ap (λ p. p.1) g)

    go :
        (m : Option Session)
        → current handle c ≡ m
        → (later ≡ (heard, c') → IsHeard rt away_timeout waiting handle phone n (k + 1) c')
        → ◌≡◌ {A = Outcome × Coordinator}
            (elim m [
              | none ↦ (replaced, c)
              | some s ↦
                  if leb (pairing_deadline s * 1000000) (waiting.clock k)
                  then (missed, c)
                  else if is_none (matches_for_irk rt (waiting.clock k) away_timeout phone c)
                  then later
                  else (heard, c)
            ])
            (heard, c')
        → IsHeard rt away_timeout waiting handle phone (suc n) k c'
    go none e f g = cc (g)
    go (some s) e f g = looked _ _ s e refl refl f g

-- The phone belongs to the session's person from now on, and did not belong to another.
pub record IsAssigned (s : Session) (irk id : String) (c c' : Coordinator) : Type 0 where
  pub row : IdentityRow
  pub saved : lookup id c'.identities ≡ some row
  pub has_key : row.irk ≡ irk
  pub has_person : row.person_entity_id ≡ s.person_entity_id
  pub has_receiver : row.paired_by ≡ s.observer_id
  pub others : (j : String) → j ≢ id → lookup j c'.identities ≡ lookup j c.identities
  pub not_taken :
      (j : String) (old : IdentityRow)
      → owner_of irk c.identities ≡ some (j, old)
      → (j ≡ id) × (old.person_entity_id ≡ s.person_entity_id)

selected_id-owner :
    (rt : Runtime) (s : Session) (irk id : String) (m : Option (String × IdentityRow)) (j : String)
    (old : IdentityRow)
    → selected_id rt s irk m ≡ some id
    → m ≡ some (j, old)
    → (j ≡ id) × (old.person_entity_id ≡ s.person_entity_id)
unfolding selected_id
selected_id-owner rt s irk id none j old h e = cc (e)
selected_id-owner rt s irk id (some (i, row)) j old h e =
    let at_id : i ≡ j = cc (e) in
    let at_row : row ≡ old = cc (e) in
    (
      ground (arith, h, at_id),
      ground (
        arith,
        h,
        eq_iff row.person_entity_id s.person_entity_id,
        ap (λ r. r.person_entity_id) at_row,
      ),
    )

-- Where `selected_id` gives an identifier, the association that is written under it gives the phone to
-- the session's person, at the session's receiver, and leaves every other association alone. If the
-- phone's key was saved before, the first association with it has this identifier, and its person was
-- the same.
pub assign-IsAssigned :
    (rt : Runtime) (now : ℕ) (s : Session) (irk id : String) (address : Option String)
    (c : Coordinator)
    → selected_id rt s irk (owner_of irk c.identities) ≡ some id
    → IsAssigned s irk id c (assign rt now s irk address id c)
unfolding assign
assign-IsAssigned rt now s irk id address c h = record {
  row = enrolled_row rt now s irk address;
  saved = lookup-inserted id (enrolled_row rt now s irk address) c.identities;
  has_key = refl;
  has_person = refl;
  has_receiver = refl;
  others = λ j n. elim (Bool-cases (id == j)) [
    | inl e ↦ absurd (n (sym ((eq_iff id j).0 e)))
    | inr e ↦ rw (lookup-insert id j (enrolled_row rt now s irk address) c.identities, e) refl
  ];
  not_taken = λ j old e. selected_id-owner rt s irk id (owner_of irk c.identities) j old h e;
}
