-- ===== src/Windows/Scan/Shared.antt =====
-- What the receiver publishes of an advertisement is what the coordinator reads.
use Prim.Native.Char.{code}
use presence_bridge.Prelude.{
  ◌&&◌, none, ℕ, Bool, true, false, not, some, String, ◌==◌, eq_iff, codes, length, cut, upper,
  is_upper_hex, is_lower, ◌=ℕ◌, leb_ℤ, if◌then◌else◌, ◌≡◌, ◌≢◌, refl, arith, ap, ◌∙◌,
}
use presence_bridge.Json.{
  Value, str, int, obj, get, as_payload, text_at, to_text, or_else, truthy, to_int,
}
use presence_bridge.Runtime.{Runtime}
use presence_bridge.Coordinator.Observers.{hex_only, colon_pairs, normalize_row, min_rssi, max_rssi}
use presence_bridge.Windows.Keys.{normalize_text}
use presence_bridge.Windows.Scan.{Row, row_payload, name_value}

-- All characters are upper-case hexadecimal digits.
IsHex : String → Type 0
IsHex String.[] = Unit {0}
IsHex (String.◌∷◌ c s) = (is_upper_hex (code c) ≡ true) × IsHex s

hex_only-IsHex : (s : String) → IsHex (hex_only s)
unfolding hex_only IsHex
hex_only-IsHex String.[] = tt
hex_only-IsHex (String.◌∷◌ c s) = at (is_upper_hex (code c)) refl (hex_only-IsHex s)
  where
    at :
        (b : Bool)
        → is_upper_hex (code c) ≡ b
        → IsHex (hex_only s)
        → IsHex (if b then String.◌∷◌ c (hex_only s) else hex_only s)
    at true e h = (e, h)
    at false e h = h

not-lower : (c : ℕ) → is_upper_hex c ≡ true → is_lower c ≡ false
not-lower c h = ground arith

-- Reading an address again gives its digits.
hex_only-colon_pairs : (s : String) → IsHex s → hex_only (upper (colon_pairs s)) ≡ s
unfolding hex_only colon_pairs upper IsHex
hex_only-colon_pairs String.[] h = refl
hex_only-colon_pairs (String.◌∷◌ a String.[]) (p, h) = rw (not-lower (code a) p, p) refl
hex_only-colon_pairs (String.◌∷◌ a (String.◌∷◌ b String.[])) (p, (q, h)) =
    rw (not-lower (code a) p, not-lower (code b) q, p, q) refl
hex_only-colon_pairs (String.◌∷◌ a (String.◌∷◌ b (String.◌∷◌ c s))) (p, (q, h)) =
    rw (not-lower (code a) p, not-lower (code b) q, p, q)
      (ap (λ t. String.◌∷◌ a (String.◌∷◌ b t)) (hex_only-colon_pairs (String.◌∷◌ c s) h))

-- The text of a field that is not empty.
text_or_else : (rt : Runtime) (s : String) → s ≢ "" → to_text rt.repr (or_else (str s) (str "")) ≡ s
unfolding or_else truthy to_text
text_or_else rt s n = at (s == "") refl
  where
    at : (b : Bool) → (s == "") ≡ b → to_text rt.repr (if not b then str s else str "") ≡ s
    at true e = absurd (n (ground (arith, e, eq_iff s "")))
    at false e = refl

name_text : (rt : Runtime) (s : String) → to_text rt.repr (or_else (name_value s) (str "")) ≡ s
unfolding or_else truthy to_text
name_text rt s = at (s == "") refl
  where
    at :
        (b : Bool)
        → (s == "") ≡ b
        → to_text rt.repr (or_else (if b then presence_bridge.Json.null else str s) (str "")) ≡ s
    at true e = ground (arith, e, eq_iff s "")
    at false e = rw (e) refl

seen_text :
    (rt : Runtime) (s : String) (captured : Value)
    → s ≢ ""
    → to_text rt.repr (or_else (or_else (str s) captured) (str "")) ≡ s
unfolding or_else truthy to_text
seen_text rt s captured n = at (s == "") refl
  where
    at :
        (b : Bool)
        → (s == "") ≡ b
        → to_text rt.repr (or_else (if not b then str s else captured) (str "")) ≡ s
    at true e = absurd (n (ground (arith, e, eq_iff s "")))
    at false e = text_or_else rt s n

row_accepted :
    (rt : Runtime) (captured : Value) (row : Row) (digits : String)
    → IsHex digits
    → (length (codes digits) =ℕ 12) ≡ true
    → row.address ≡ colon_pairs digits
    → row.address ≢ ""
    → row.seen_at ≢ ""
    → normalize_row rt captured (obj (row_payload row)) ≡ (
        if leb_ℤ min_rssi row.rssi && leb_ℤ row.rssi max_rssi
        then some (record {
          address = row.address;
          rssi = row.rssi;
          name = cut 100 row.name;
          seen_at = cut 40 row.seen_at;
        })
        else none)
unfolding normalize_row text_at get to_int as_payload row_payload
row_accepted rt captured row digits h len e n s =
    rw
      (
        text_or_else rt row.address n,
        name_text rt row.name,
        seen_text rt row.seen_at captured s,
        same,
        len,
        ← e,
      )
      refl
  where
    same : hex_only (upper row.address) ≡ digits
    same = ap (λ t. hex_only (upper t)) e ∙ hex_only-colon_pairs digits h

-- A row whose address the receiver normalized, with a time, is read by the coordinator as the same
-- address, signal, name and time, the texts cut to their limits, where its signal is within the
-- coordinator's limits, and is dropped otherwise.
pub normalize_row-row_payload :
    (rt : Runtime) (captured : Value) (row : Row) (address : String)
    → row.address ≡ normalize_text address
    → row.address ≢ ""
    → row.seen_at ≢ ""
    → normalize_row rt captured (obj (row_payload row)) ≡ (
        if leb_ℤ min_rssi row.rssi && leb_ℤ row.rssi max_rssi
        then some (record {
          address = row.address;
          rssi = row.rssi;
          name = cut 100 row.name;
          seen_at = cut 40 row.seen_at;
        })
        else none)
unfolding normalize_text
normalize_row-row_payload rt captured row address e n s = go (length (codes digits) =ℕ 12) refl e
  where
    digits : String
    digits = hex_only (upper address)

    go :
        (b : Bool)
        → (length (codes digits) =ℕ 12) ≡ b
        → row.address ≡ (if b then colon_pairs digits else "")
        → normalize_row rt captured (obj (row_payload row)) ≡ (
            if leb_ℤ min_rssi row.rssi && leb_ℤ row.rssi max_rssi
            then some (record {
              address = row.address;
              rssi = row.rssi;
              name = cut 100 row.name;
              seen_at = cut 40 row.seen_at;
            })
            else none)
    go true l f = row_accepted rt captured row digits (hex_only-IsHex (upper address)) l f n s
    go false l f = absurd (n f)
