-- ===== src/PersonLink/Cases.antt =====
-- When a phone counts as linked to its person.
use presence_bridge.Prelude.{
  Bool, true, false, not, List, [], ◌∷◌, Option, none, some, String, ◌==◌, eq_iff, any, All, Any,
  if◌then◌else◌, ◌≡◌, inl, inr, refl, arith, Bool-cases,
}
use presence_bridge.Coordinator.Types.{is_member}
use presence_bridge.PersonLink.{
  Person, person_not_ready, linked, find_person, owners, owned_by_other, tracker_status,
  person_link_status,
}

-- Nobody else has the tracker.
abbrev pub Alone : String → String → List Person → Type 0
Alone id tracker people =
    All (λ p. is_member tracker p.device_trackers ≡ true → p.entity_id ≡ id) people

-- This person has it.
abbrev pub Owns : String → String → List Person → Type 0
Owns id tracker people =
    Any (λ p. (is_member tracker p.device_trackers ≡ true) × (p.entity_id ≡ id)) people

owners-Alone :
    (id tracker : String) (people : List Person)
    → owned_by_other id (owners tracker people) ≡ false
    → Alone id tracker people
unfolding owners owned_by_other
owners-Alone id tracker [] h = tt
owners-Alone id tracker (p ∷ ps) h =
    split (is_member tracker p.device_trackers) refl (owners-Alone id tracker ps) h
  where
    split :
        (b : Bool)
        → is_member tracker p.device_trackers ≡ b
        → (any (λ o. not (o == id)) (owners tracker ps) ≡ false → Alone id tracker ps)
        → any
            (λ o. not (o == id))
            (if b then p.entity_id ∷ owners tracker ps else owners tracker ps)
          ≡ false
        → (is_member tracker p.device_trackers ≡ true → p.entity_id ≡ id) × Alone id tracker ps
    split true e f g = (λ _. ground (arith, g, eq_iff p.entity_id id), f (ground (arith, g)))
    split false e f g = (λ t. cc (t, e), f g)

owners-Owns :
    (id tracker : String) (people : List Person)
    → is_member id (owners tracker people) ≡ true
    → Owns id tracker people
unfolding owners is_member
owners-Owns id tracker [] h = cc (h)
owners-Owns id tracker (p ∷ ps) h =
    split (is_member tracker p.device_trackers) refl (owners-Owns id tracker ps) h
  where
    split :
        (b : Bool)
        → is_member tracker p.device_trackers ≡ b
        → (is_member id (owners tracker ps) ≡ true → Owns id tracker ps)
        → is_member id (if b then p.entity_id ∷ owners tracker ps else owners tracker ps) ≡ true
        → Owns id tracker (p ∷ ps)
    split true e f g = elim (Bool-cases (id == p.entity_id)) [
      | inl same ↦ inl (e, ground (arith, same, eq_iff id p.entity_id))
      | inr other ↦ inr (f (ground (arith, g, other)))
    ]
    split false e f g = inr (f g)

tracker_status-linked :
    (editable : Bool) (id : String) (ids : List String)
    → tracker_status editable id ids ≡ linked
    → (is_member id ids ≡ true) × (owned_by_other id ids ≡ false)
unfolding tracker_status
tracker_status-linked editable id ids h = ground arith

-- The status is `linked` only if this person has the phone's tracker and no other person has it.
pub person_link_status-linked :
    (people : List Person) (id : String) (tracker : String)
    → person_link_status people id (some tracker) ≡ linked
    → Owns id tracker people × Alone id tracker people
unfolding person_link_status
person_link_status-linked people id tracker h = go (find_person id people) h
  where
    go :
        (m : Option Person)
        → (elim m [
          | none ↦ person_not_ready
          | some p ↦ tracker_status p.editable id (owners tracker people)
        ])
          ≡ linked
        → Owns id tracker people × Alone id tracker people
    go none e = cc (e)
    go (some p) e =
        let (mine, alone) = tracker_status-linked p.editable id (owners tracker people) e in
        (owners-Owns id tracker people mine, owners-Alone id tracker people alone)
