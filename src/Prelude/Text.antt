-- ===== src/Prelude/Text.antt =====
-- Python's `str`: the native `String` where texts are compared whole, and the list of code points
-- (`codes`) where the code looks at characters. Case mapping is that of ASCII.
use Prim.Native.Nat.{ℕ, zero, suc, ◌-◌}
use Prim.Native.Char.{Char, code}
use Prim.Native.String.{String, char_at}
use mathlib.Core.Path.{◌≡◌, refl}
use mathlib.Core.Bool.{true, false, Bool, ◌&&◌, ◌||◌}
use mathlib.Core.List.{List, [], ◌∷◌}
use native.Mathlib.Omega.{arith}
use text.Mathlib.TextEquality.{Char-path}
use presence_bridge.Prelude.Tests.{leb, ◌=ℕ◌, if◌then◌else◌}
use presence_bridge.Prelude.Lists.{length, all}
pub use text.Mathlib.Text.{◌==◌}

abbrev pub Bytes : Type 0
Bytes = List ℕ

-- The code points of a text: its bytes, if it is ASCII.
abbrev pub codes : String → Bytes
codes String.[] = []
codes (String.◌∷◌ c s) = code c ∷ codes s

-- s[:n]
unfoldable pub cut : ℕ → String → String
cut zero s = String.[]
cut (suc n) String.[] = String.[]
cut (suc n) (String.◌∷◌ c s) = String.◌∷◌ c (cut n s)

abbrev pub between : ℕ → ℕ → ℕ → Bool
between lo hi c = leb lo c && leb c hi

abbrev pub is_digit : ℕ → Bool
is_digit = between b'0' b'9'

-- [a-z], [A-Z], [A-Za-z0-9_-]
abbrev pub is_lower : ℕ → Bool
is_lower = between b'a' b'z'

abbrev pub is_upper : ℕ → Bool
is_upper = between b'A' b'Z'

abbrev pub is_token : ℕ → Bool
is_token c = is_upper c || is_lower c || is_digit c || c =ℕ b'_' || c =ℕ b'-'

abbrev pub is_upper_hex : ℕ → Bool
is_upper_hex c = is_digit c || between b'A' b'F' c

abbrev pub is_lower_hex : ℕ → Bool
is_lower_hex c = is_digit c || between b'a' b'f' c

abbrev pub is_hex : ℕ → Bool
is_hex c = is_upper_hex c || between b'a' b'f' c

-- re.fullmatch(r"[class]{lo,hi}", s)
unfoldable pub matches : (ℕ → Bool) → ℕ → ℕ → Bytes → Bool
matches p lo hi s = leb lo (length s) && leb (length s) hi && all p s

-- equality of two byte strings
unfoldable pub eqb : Bytes → Bytes → Bool
eqb [] [] = true
eqb (a ∷ s) (b ∷ t) = a =ℕ b && eqb s t
eqb _ _ = false

pub eqb→eq : (s t : Bytes) → eqb s t ≡ true → s ≡ t
unfolding eqb
eqb→eq [] [] h = refl
eqb→eq [] (b ∷ t) h = cc
eqb→eq (a ∷ s) [] h = cc
eqb→eq (a ∷ s) (b ∷ t) h = ground (arith, eqb→eq s t)

pub eqb_refl : (s : Bytes) → eqb s s ≡ true
unfolding eqb
eqb_refl [] = refl
eqb_refl (a ∷ s) = ground (arith, eqb_refl s)

-- Equality of texts is equality of their code points.
pub codes-injective : (s t : String) → codes s ≡ codes t → s ≡ t
codes-injective String.[] String.[] h = refl
codes-injective String.[] (String.◌∷◌ d t) h = cc
codes-injective (String.◌∷◌ c s) String.[] h = cc
codes-injective (String.◌∷◌ c s) (String.◌∷◌ d t) h =
    let e : c ≡ d = Char-path c d (cc h) in let r : s ≡ t = codes-injective s t (cc h) in cc (e, r)

is_space : ℕ → Bool
is_space c = c =ℕ 32 || between 9 13 c

lstrip : String → String
lstrip String.[] = String.[]
lstrip (String.◌∷◌ c s) = let rest = lstrip s in if is_space (code c) then rest else String.◌∷◌ c s

rstrip : String → String
rstrip String.[] = String.[]
rstrip (String.◌∷◌ c s) =
    let rest = rstrip s in if rest == "" && is_space (code c) then String.[] else String.◌∷◌ c rest

-- s.strip()
unfoldable pub strip : String → String
unfolding lstrip rstrip is_space
strip s = rstrip (lstrip s)

-- s.lower(), on ASCII letters
unfoldable pub lower : String → String
lower String.[] = String.[]
lower (String.◌∷◌ c s) =
    let d = code c - b'A' in
    String.◌∷◌ (if is_upper (code c) then char_at "abcdefghijklmnopqrstuvwxyz" d else c) (lower s)

-- s.upper(), on ASCII letters
unfoldable pub upper : String → String
upper String.[] = String.[]
upper (String.◌∷◌ c s) =
    let d = code c - b'a' in
    String.◌∷◌ (if is_lower (code c) then char_at "ABCDEFGHIJKLMNOPQRSTUVWXYZ" d else c) (upper s)

extend : Char → List String → List String
extend c [] = []
extend c (s ∷ parts) = String.◌∷◌ c s ∷ parts

-- s.split(separator) at one character
unfoldable pub split : ℕ → String → List String
unfolding extend
split sep String.[] = "" ∷ []
split sep (String.◌∷◌ c s) =
    let parts = split sep s in if code c =ℕ sep then "" ∷ parts else extend c parts

-- s.startswith(prefix)
unfoldable pub has_prefix : Bytes → Bytes → Bool
has_prefix [] s = true
has_prefix (p ∷ ps) [] = false
has_prefix (p ∷ ps) (c ∷ s) = p =ℕ c && has_prefix ps s

unfoldable pub starts_with : String → String → Bool
unfolding has_prefix
starts_with s prefix = has_prefix (codes prefix) (codes s)
