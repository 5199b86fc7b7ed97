-- ===== src/Coordinator/Observers/Normalized.antt =====
-- What `_normalize_observations` lets through.
use Prim.Native.Char.{code}
use presence_bridge.Prelude.{
  ℕ, zero, suc, ◌+◌, ◌≤◌, Bool, true, false, ◌&&◌, List, [], ◌∷◌, Option, none, some, String, All,
  take, codes, upper, is_upper_hex, length, length-take-le, all, ℤ, ◌≤ℤ◌, leb_ℤ, ◌≡◌, refl, arith,
  ◌=ℕ◌, Option-cases, inl, inr, Bool-cases,
}
use presence_bridge.Json.{Value, as_list, as_payload, get, to_int, text_at}
use presence_bridge.Runtime.{Runtime}
use presence_bridge.Coordinator.Types.{Observation}
use presence_bridge.Coordinator.Observers.{
  hex_only, colon_pairs, normalize_row, normalize_rows, normalize_observations, min_rssi, max_rssi,
}

-- `AA:BB:CC:DD:EE:FF`, in code points: two upper-case hexadecimal digits, six times
unfoldable pub is_pairs : ℕ → List ℕ → Bool
is_pairs zero s = false
is_pairs (suc zero) (a ∷ b ∷ []) = is_upper_hex a && is_upper_hex b
is_pairs (suc (suc n)) (a ∷ b ∷ c ∷ s) =
    is_upper_hex a && is_upper_hex b && c =ℕ b':' && is_pairs (suc n) s
is_pairs n s = false

-- what is relied on of a row that is kept
pub record IsNormal (o : Observation) : Type 0 where
  pub is_address : is_pairs 6 (codes o.address) ≡ true
  pub above : min_rssi ≤ℤ o.rssi
  pub below : o.rssi ≤ℤ max_rssi

hex_only-is_upper_hex : (s : String) → all is_upper_hex (codes (hex_only s)) ≡ true
unfolding hex_only
hex_only-is_upper_hex String.[] = refl
hex_only-is_upper_hex (String.◌∷◌ c s) = ground (arith, hex_only-is_upper_hex s)

colon_pairs-is_pairs :
    (n : ℕ) (s : String)
    → length (codes s) ≡ suc n + suc n
    → all is_upper_hex (codes s) ≡ true
    → is_pairs (suc n) (codes (colon_pairs s)) ≡ true
unfolding colon_pairs is_pairs
colon_pairs-is_pairs n String.[] l h = absurd (omega arith)
colon_pairs-is_pairs n (String.◌∷◌ a String.[]) l h = absurd (omega arith)
colon_pairs-is_pairs zero (String.◌∷◌ a (String.◌∷◌ b String.[])) l h = h2
  where
    h2 : is_upper_hex (code a) && is_upper_hex (code b) ≡ true
    h2 = ground arith
colon_pairs-is_pairs (suc n) (String.◌∷◌ a (String.◌∷◌ b String.[])) l h = absurd (omega arith)
colon_pairs-is_pairs zero (String.◌∷◌ a (String.◌∷◌ b (String.◌∷◌ c s))) l h = absurd (omega arith)
colon_pairs-is_pairs (suc n) (String.◌∷◌ a (String.◌∷◌ b (String.◌∷◌ c s))) l h =
    ground (arith, colon_pairs-is_pairs n (String.◌∷◌ c s))

abbrev IsNormalAny : Option Observation → Type 0
IsNormalAny none = Unit
IsNormalAny (some o) = IsNormal o

abbrev in_range : String → ℤ → Bool
in_range address rssi = length (codes address) =ℕ 12 && leb_ℤ min_rssi rssi && leb_ℤ rssi max_rssi

kept-IsNormal :
    (a name seen : String) (rssi : ℤ)
    → in_range (hex_only a) rssi ≡ true
    → IsNormal
        (record { address = colon_pairs (hex_only a); rssi = rssi; name = name; seen_at = seen })
kept-IsNormal a name seen rssi t = record {
  is_address = colon_pairs-is_pairs 5 (hex_only a) (ground arith) (hex_only-is_upper_hex a);
  above = ground arith;
  below = ground arith;
}

module _ (rt : Runtime) (captured_at : Value) where
  normalize_row-IsNormal : (v : Value) → IsNormalAny (normalize_row rt captured_at v)
  unfolding normalize_row
  normalize_row-IsNormal v = elim (Option-cases (as_payload v)) [
    | inl e ↦ rw (e, normalize_row) tt
    | inr (row, e) ↦ elim (Option-cases (to_int (get "rssi" row))) [
      | inl f ↦ rw (e, f, normalize_row) tt
      | inr (rssi, f) ↦
          let a = upper (text_at rt.repr "address" row) in
          rw (e, f, normalize_row)
            (elim (Bool-cases (in_range (hex_only a) rssi)) [
              | inl t ↦ rw t (kept-IsNormal a _ _ rssi t)
              | inr t ↦ rw t tt
            ])
    ]
  ]

  normalize_rows-IsNormal : (rows : List Value) → All IsNormal (normalize_rows rt captured_at rows)
  unfolding normalize_rows
  normalize_rows-IsNormal [] = tt
  normalize_rows-IsNormal (v ∷ rows) =
      kept (normalize_row rt captured_at v) (normalize_row-IsNormal v)
        (normalize_rows-IsNormal rows)
    where
      kept :
          (o : Option Observation)
          → IsNormalAny o
          → All IsNormal (normalize_rows rt captured_at rows)
          → All IsNormal (elim o [
            | none ↦ normalize_rows rt captured_at rows
            | some o' ↦ o' ∷ normalize_rows rt captured_at rows
          ])
      kept none h hs = hs
      kept (some o) h hs = (h, hs)

  length-normalize_rows :
      (rows : List Value) → length (normalize_rows rt captured_at rows) ≤ length rows
  unfolding normalize_rows
  length-normalize_rows [] = omega arith
  length-normalize_rows (v ∷ rows) = ground (arith, length-normalize_rows rows)

  -- Whatever a receiver reports, at most 200 observations are kept, each with a well-formed
  -- upper-case address and a signal strength from -105 to 20.
  pub normalize_observations-IsNormal :
      (value : Value)
      → All IsNormal (normalize_observations rt value captured_at)
        × (length (normalize_observations rt value captured_at) ≤ 200)
  unfolding normalize_observations
  normalize_observations-IsNormal value = elim (Option-cases (as_list value)) [
    | inl e ↦ rw (e, normalize_observations) (tt, omega arith)
    | inr (rows, e) ↦
        rw (e, normalize_observations)
          (
            normalize_rows-IsNormal (take 200 rows),
            omega (arith, length-normalize_rows (take 200 rows), length-take-le 200 rows),
          )
  ]
