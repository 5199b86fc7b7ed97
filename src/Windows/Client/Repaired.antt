-- ===== src/Windows/Client/Repaired.antt =====
-- A repair of a bond is for a phone that showed the invitation, happens once, and takes only its bonds.
use presence_bridge.Prelude.{
  ℕ, ◌&&◌, leb, Bool, true, false, ◌||◌, not, List, [], ◌∷◌, any, all, filter, All, String, Result,
  ok, err, if◌then◌else◌, ◌≡◌, ◌⊎◌, inl, inr, Option, none, some, refl, arith,
}
use presence_bridge.Coordinator.Types.{is_member}
use presence_bridge.Bonds.{BondDevice, is_empty}
use presence_bridge.Windows.Client.{
  Client, RepairEnd, RemovalFault, unavailable, timed_out, bond_reset, no_saved_bond, not_unpaired,
  not_verified, PeerBonds, is_known, is_listed, same_device, has_id, peer_targets, only_gone,
  remove_peer_bonds, remove_verified_peer_bonds, after_removal, repair_verified_bond,
}

-- Of what Windows listed before, the targets are all gone, one by one, and all the rest is still there.
pub record IsOnlyGone (targets inventory remaining : List BondDevice) : Type 0 where
  pub some_target : is_empty targets ≡ false
  pub targets_gone : All (λ d. has_id remaining d ≡ false) targets
  pub others_stay :
      All
        (λ d. has_id remaining d ≡ true)
        (filter (λ d. not (any (same_device d) targets)) inventory)

-- The system is not Windows, or the address of the connection is not known.
abbrev pub IsElsewhere : PeerBonds → Type 0
IsElsewhere b = (b.on_windows ≡ false) ⊎ ((b.has_client ≡ true) × (b.native_address ≡ none))

-- What a removal has shown: that only the phone's bonds are gone, or elsewhere, that the phone was
-- unpaired.
abbrev pub IsShownBy : PeerBonds → Type 0
IsShownBy b =
    IsOnlyGone (peer_targets b.addresses b.inventory) b.inventory b.remaining
    ⊎ IsElsewhere b × ((if b.has_client then b.client_unpairs else b.candidate_unpairs) ≡ true)

pub record IsRepaired (b : PeerBonds) (address : String) (time : ℕ) (c c' : Client) : Type 0 where
  pub verified : is_member address c.qr_verified_addresses ≡ true
  pub first_time : c.bond_repair_used ≡ false
  pub in_time : leb time 5000000 ≡ false
  pub used_up : c'.bond_repair_used ≡ true
  pub not_confirmed : c'.secure_bond_confirmed ≡ false
  pub shown : IsShownBy b

any-false :
    (p : BondDevice → Bool) (ds : List BondDevice) → any p ds ≡ false → All (λ d. p d ≡ false) ds
any-false p [] h = tt
any-false p (d ∷ ds) h = (ground (arith, h), any-false p ds (ground (arith, h)))

all-true :
    (p : BondDevice → Bool) (ds : List BondDevice) → all p ds ≡ true → All (λ d. p d ≡ true) ds
all-true p [] h = tt
all-true p (d ∷ ds) h = (ground (arith, h), all-true p ds (ground (arith, h)))

only_gone-IsOnlyGone :
    (targets inventory remaining : List BondDevice)
    → is_empty targets ≡ false
    → only_gone targets inventory remaining ≡ true
    → IsOnlyGone targets inventory remaining
only_gone-IsOnlyGone targets inventory remaining s h = record {
  some_target = s;
  targets_gone = any-false (has_id remaining) targets (ground (arith, h));
  others_stay =
      all-true (has_id remaining) (filter (λ d. not (any (same_device d) targets)) inventory)
        (ground (arith, h));
}

remove_peer_bonds-IsOnlyGone :
    (addresses : List String) (inventory remaining : List BondDevice) (unpaired : Bool)
    → remove_peer_bonds addresses inventory remaining unpaired ≡ ok tt
    → IsOnlyGone (peer_targets addresses inventory) inventory remaining
unfolding remove_peer_bonds
remove_peer_bonds-IsOnlyGone addresses inventory remaining unpaired h =
    go (is_empty targets) unpaired (only_gone targets inventory remaining) refl refl h
  where
    targets : List BondDevice
    targets = peer_targets addresses inventory

    go :
        (a b c : Bool)
        → is_empty targets ≡ a
        → only_gone targets inventory remaining ≡ c
        → ◌≡◌ {A = Result RemovalFault (Unit {0})}
            (if a
              then err no_saved_bond
              else if not b
              then err not_unpaired
              else if c
              then ok tt
              else err not_verified)
            (ok tt)
        → IsOnlyGone targets inventory remaining
    go true b c e f g = cc (g)
    go false false c e f g = cc (g)
    go false true true e f g = only_gone-IsOnlyGone targets inventory remaining e f
    go false true false e f g = cc (g)

is_listed-IsElsewhere : (b : PeerBonds) → is_listed b ≡ false → IsElsewhere b
unfolding is_listed
is_listed-IsElsewhere b h = go b.on_windows b.has_client b.native_address refl refl refl h
  where
    go :
        (w c : Bool) (m : Option ℕ)
        → b.on_windows ≡ w
        → b.has_client ≡ c
        → b.native_address ≡ m
        → (w && (not c || is_known m)) ≡ false
        → IsElsewhere b
    go false c m e f g k = inl e
    go true false m e f g k = cc (k)
    go true true none e f g k = inr (f, g)
    go true true (some n) e f g k = cc (k)

remove_verified_peer_bonds-IsShownBy :
    (b : PeerBonds) → remove_verified_peer_bonds b ≡ ok tt → IsShownBy b
unfolding remove_verified_peer_bonds
remove_verified_peer_bonds-IsShownBy b h = go (is_listed b) refl h
  where
    returned :
        (x : Bool)
        → ◌≡◌ {A = Result RemovalFault (Unit {0})} (if x then ok tt else err not_unpaired) (ok tt)
        → x ≡ true
    returned true g = refl
    returned false g = cc (g)

    go :
        (listed : Bool)
        → is_listed b ≡ listed
        → (if listed
            then remove_peer_bonds b.addresses b.inventory b.remaining b.unpaired
            else if (if b.has_client then b.client_unpairs else b.candidate_unpairs)
            then ok tt
            else err not_unpaired)
          ≡ ok tt
        → IsShownBy b
    go true e g =
        inl (remove_peer_bonds-IsOnlyGone b.addresses b.inventory b.remaining b.unpaired g)
    go false e g = inr (
      is_listed-IsElsewhere b e,
      returned (if b.has_client then b.client_unpairs else b.candidate_unpairs) g,
    )

-- A repair that resets a bond is for a phone that showed this invitation's claim, is the first of the
-- attempt, while more than five seconds are left, and uses up the one that there is. On Windows, where
-- the address of the connection is known or there is no connection, Windows then listed none of the
-- phone's bonds any more, and each of the other bonds still; elsewhere the phone was unpaired, which is
-- all that is known.
pub repair_verified_bond-IsRepaired :
    (b : PeerBonds) (address : String) (time : ℕ) (c : Client)
    → (repair_verified_bond address time (remove_verified_peer_bonds b) c).0 ≡ bond_reset
    → IsRepaired b address time c
        (repair_verified_bond address time (remove_verified_peer_bonds b) c).1
unfolding repair_verified_bond after_removal
repair_verified_bond-IsRepaired b address time c h =
    go (is_member address c.qr_verified_addresses) c.bond_repair_used (leb time 5000000)
      (remove_verified_peer_bonds b) refl refl refl refl h
  where
    used : Client
    used = record c { bond_repair_used = true }

    choice : Bool → Bool → Bool → Result RemovalFault (Unit {0}) → RepairEnd × Client
    choice v u late r =
        if not v || u
        then (unavailable, c)
        else if late
        then (timed_out, c)
        else after_removal address r used

    go :
        (v u late : Bool) (r : Result RemovalFault (Unit {0}))
        → is_member address c.qr_verified_addresses ≡ v
        → c.bond_repair_used ≡ u
        → leb time 5000000 ≡ late
        → remove_verified_peer_bonds b ≡ r
        → (choice v u late r).0 ≡ bond_reset
        → IsRepaired b address time c (choice v u late r).1
    go false u late r e f l q g = cc (g)
    go true true late r e f l q g = cc (g)
    go true false true r e f l q g = cc (g)
    go true false false (err _) e f l q g = cc (g)
    go true false false (ok _) e f l q g = record {
      verified = e;
      first_time = f;
      in_time = l;
      used_up = refl;
      not_confirmed = refl;
      shown = remove_verified_peer_bonds-IsShownBy b q;
    }
