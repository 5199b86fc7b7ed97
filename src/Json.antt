-- ===== src/Json.antt =====
-- JSON values as `json.loads` gives them, and the conversions of them that the code makes.
-- `frac n` is a float of n millionths; infinities and NaN are not modelled.
use presence_bridge.Prelude.{
  ℕ, zero, suc, ◌+◌, ◌-◌, ◌*◌, ◌/◌, ◌=ℕ◌, leb, String, ◌==◌, Bool, true, false, ◌&&◌, ◌||◌, not,
  Option, none, some, List, [], ◌∷◌, ℤ, pos, negsuc, eqb_ℤ, Bytes, codes, is_digit, if◌then◌else◌,
  ◌≡◌, refl,
}

mutual
  pub data Value : Type 0 where
    null : Value
    bool : Bool → Value
    int : ℤ → Value
    frac : ℤ → Value
    str : String → Value
    arr : Values → Value
    obj : Payload → Value

  pub data Values : Type 0 where
    nil : Values
    cons : Value → Values → Values

  -- A decoded `dict`: its keys are distinct.
  pub data Payload : Type 0 where
    end : Payload
    field : String → Value → Payload → Payload

-- payload.get(key); `None` and a missing key read alike
unfoldable pub get : String → Payload → Value
get k end = null
get k (field j v p) = if j == k then v else get k p

-- payload.get(key, default)
unfoldable pub get_default : String → Value → Payload → Value
get_default k d end = d
get_default k d (field j v p) = if j == k then v else get_default k d p

-- isinstance(value, dict)
unfoldable pub as_payload : Value → Option Payload
as_payload (obj p) = some p
as_payload _ = none

unfoldable pub items : Values → List Value
items nil = []
items (cons v vs) = v ∷ items vs

-- isinstance(value, list)
unfoldable pub as_list : Value → Option (List Value)
unfolding items
as_list (arr vs) = some (items vs)
as_list _ = none

unfoldable pub is_zero : ℤ → Bool
is_zero n = eqb_ℤ n (pos 0)

-- bool(value)
unfoldable pub truthy : Value → Bool
unfolding is_zero
truthy null = false
truthy (bool b) = b
truthy (int n) = not (is_zero n)
truthy (frac n) = not (is_zero n)
truthy (str s) = not (s == "")
truthy (arr nil) = false
truthy (arr (cons _ _)) = true
truthy (obj end) = false
truthy (obj (field _ _ _)) = true

-- value == text
unfoldable pub is_text : Value → String → Bool
is_text (str s) t = s == t
is_text _ t = false

-- value == number; `True == 1` and `2.0 == 2` in Python
unfoldable pub is_int : Value → ℕ → Bool
is_int (bool b) n = n =ℕ (if b then 1 else 0)
is_int (int m) n = eqb_ℤ m (pos n)
is_int (frac m) n = eqb_ℤ m (pos (n * 1000000))
is_int _ n = false

-- value is True
unfoldable pub is_true : Value → Bool
is_true (bool b) = b
is_true _ = false

unfoldable pub is_null : Value → Bool
is_null null = true
is_null _ = false

is_space : ℕ → Bool
is_space c = c =ℕ 32 || (leb 9 c && leb c 13)

strip : Bytes → Bytes
unfolding is_space
strip [] = []
strip (c ∷ s) = let rest = strip s in if is_space c then rest else c ∷ s

-- The digits of an `int` literal, with single underscores between them; trailing spaces are allowed.
scan_digits : ℕ → Bool → Bytes → Option ℕ
unfolding is_space
scan_digits acc after_digit [] = if after_digit then some acc else none
scan_digits acc after_digit (c ∷ s) =
    let next = scan_digits (acc * 10 + (c - b'0')) true s in
    let skip = scan_digits acc false s in
    let blank : Option ℕ = elim (strip (c ∷ s)) [ [] ↦ some acc | _ ∷ _ ↦ none ] in
    if is_digit c
    then next
    else if c =ℕ b'_' && after_digit
    then skip
    else if after_digit
    then blank
    else none

negate : ℕ → ℤ
negate zero = pos 0
negate (suc n) = negsuc n

scan_sign : Bytes → Option ℤ
unfolding scan_digits negate
scan_sign [] = none
scan_sign (c ∷ s) =
    if c =ℕ b'-'
    then elim (scan_digits 0 false s) [ none ↦ none | some n ↦ some (negate n) ]
    else if c =ℕ b'+'
    then elim (scan_digits 0 false s) [ none ↦ none | some n ↦ some (pos n) ]
    else elim (scan_digits 0 false (c ∷ s)) [ none ↦ none | some n ↦ some (pos n) ]

-- int(text)
unfoldable pub parse_int : String → Option ℤ
unfolding strip scan_sign
parse_int s = scan_sign (strip (codes s))

-- a float without its fraction
truncate : ℤ → ℤ
unfolding negate
truncate (pos n) = pos (n / 1000000)
truncate (negsuc n) = negate (suc n / 1000000)

-- int(value); `none` is the TypeError or ValueError
unfoldable pub to_int : Value → Option ℤ
unfolding truncate parse_int
to_int null = none
to_int (bool b) = some (pos (if b then 1 else 0))
to_int (int n) = some n
to_int (frac n) = some (truncate n)
to_int (str s) = parse_int s
to_int _ = none

-- value or 0, value or ""
unfoldable pub or_else : Value → Value → Value
unfolding truthy
or_else v d = if truthy v then v else d

-- `str` of a value; `repr` is Python's rendering of numbers, lists and dicts
module _ (repr : Value → String) where
  unfoldable pub to_text : Value → String
  to_text null = "None"
  to_text (bool b) = if b then "True" else "False"
  to_text (str s) = s
  to_text v = repr v

  -- str(payload.get(key) or "")
  unfoldable pub text_at : String → Payload → String
  unfolding get or_else to_text
  text_at k p = to_text (or_else (get k p) (str ""))

parse_int_runs :
    (parse_int " 1_700 " ≡ some (pos 1700))
    × (parse_int "-12" ≡ some (negsuc 11))
    × (parse_int "1__0" ≡ none)
    × (parse_int "" ≡ none)
    × (parse_int "12a" ≡ none)
    × (parse_int "+7" ≡ some (pos 7))
unfolding parse_int
parse_int_runs = (refl, refl, refl, refl, refl, refl)
