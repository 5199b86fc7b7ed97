-- ===== src/Prelude/Decimal.antt =====
-- `str` of an integer.
use Prim.Native.Nat.{ℕ, zero, suc, ◌+◌, ◌-◌, ◌*◌, ◌/◌, ◌%◌, ◌<◌}
use Prim.Native.Char.{code}
use Prim.Native.String.{String, ◌++◌}
use text.Mathlib.TextLemmas.{nil-append, cons-append}
use mathlib.Core.Path.{◌≡◌, refl, ap, sym, ◌∙◌}
use mathlib.Core.Bool.{true}
use mathlib.Core.List
use mathlib.Core.List.{List, [], ◌∷◌}
use mathlib.Core.Logic.{inl, inr}
use native.Mathlib.Omega.{arith}
use presence_bridge.Prelude.Tests.{ltb, ltb→lt, Bool-cases, if◌then◌else◌}
use presence_bridge.Prelude.Lists.{all, all-append}
use presence_bridge.Prelude.Text.{codes, is_digit}
use presence_bridge.Prelude.Int.{ℤ, pos, negsuc}

-- the digit of a number below ten
digit : ℕ → String
digit zero = "0"
digit (suc zero) = "1"
digit (suc (suc zero)) = "2"
digit (suc (suc (suc zero))) = "3"
digit (suc (suc (suc (suc zero)))) = "4"
digit (suc (suc (suc (suc (suc zero))))) = "5"
digit (suc (suc (suc (suc (suc (suc zero)))))) = "6"
digit (suc (suc (suc (suc (suc (suc (suc zero))))))) = "7"
digit (suc (suc (suc (suc (suc (suc (suc (suc zero)))))))) = "8"
digit _ = "9"

decimal_fuel : ℕ → ℕ → String
decimal_fuel zero n = ""
decimal_fuel (suc f) n =
    let more = decimal_fuel f (n / 10) ++ digit (n % 10) in if ltb n 10 then digit n else more

unfoldable pub decimal : ℕ → String
unfolding decimal_fuel digit
decimal n = decimal_fuel (suc n) n

unfoldable pub decimal_ℤ : ℤ → String
unfolding decimal
decimal_ℤ (pos n) = decimal n
decimal_ℤ (negsuc n) = "-" ++ decimal (suc n)

pub codes-append : (s t : String) → codes (s ++ t) ≡ List.◌++◌ (codes s) (codes t)
codes-append String.[] t = ap codes (nil-append t)
codes-append (String.◌∷◌ c s) t =
    ap codes (cons-append c s t) ∙ ap (λ (l : List ℕ). code c ∷ l) (codes-append s t)

-- The number that a run of digits spells, read from the left.
pub spelled : ℕ → List ℕ → ℕ
spelled acc [] = acc
spelled acc (c ∷ s) = spelled (acc * 10 + (c - 48)) s

spelled-append : (acc : ℕ) (s t : List ℕ) → spelled acc (List.◌++◌ s t) ≡ spelled (spelled acc s) t
unfolding spelled
spelled-append acc [] t = refl
spelled-append acc (c ∷ s) t = spelled-append (acc * 10 + (c - 48)) s t

digit_code : (n : ℕ) → n < 10 → codes (digit n) ≡ (48 + n) ∷ []
unfolding digit
digit_code zero h = refl
digit_code (suc zero) h = refl
digit_code (suc (suc zero)) h = refl
digit_code (suc (suc (suc zero))) h = refl
digit_code (suc (suc (suc (suc zero)))) h = refl
digit_code (suc (suc (suc (suc (suc zero))))) h = refl
digit_code (suc (suc (suc (suc (suc (suc zero)))))) h = refl
digit_code (suc (suc (suc (suc (suc (suc (suc zero))))))) h = refl
digit_code (suc (suc (suc (suc (suc (suc (suc (suc zero)))))))) h = refl
digit_code (suc (suc (suc (suc (suc (suc (suc (suc (suc zero))))))))) h = refl
digit_code (suc (suc (suc (suc (suc (suc (suc (suc (suc (suc n)))))))))) h = absurd (omega arith)

spelled-decimal_fuel : (f n : ℕ) → n < f → spelled 0 (codes (decimal_fuel f n)) ≡ n
unfolding decimal_fuel spelled
spelled-decimal_fuel zero n h = absurd (omega arith)
spelled-decimal_fuel (suc f) n h = elim (Bool-cases (ltb n 10)) [
  | inl small ↦ rw (small, digit_code n (ltb→lt n 10 small)) (omega arith)
  | inr large ↦
      rw (large, codes-append, spelled-append, digit_code (n % 10) (omega arith))
        (ground (arith, spelled-decimal_fuel f (n / 10)))
]

-- A decimal spells its number, so two numbers with one decimal are one number.
pub spelled-decimal : (n : ℕ) → spelled 0 (codes (decimal n)) ≡ n
unfolding decimal
spelled-decimal n = spelled-decimal_fuel (suc n) n (omega arith)

pub decimal-injective : (m n : ℕ) → codes (decimal m) ≡ codes (decimal n) → m ≡ n
decimal-injective m n h = sym (spelled-decimal m) ∙ ap (spelled 0) h ∙ spelled-decimal n

digits-decimal_fuel : (f n : ℕ) → all is_digit (codes (decimal_fuel f n)) ≡ true
unfolding decimal_fuel
digits-decimal_fuel zero n = refl
digits-decimal_fuel (suc f) n = elim (Bool-cases (ltb n 10)) [
  | inl small ↦ rw (small, digit_code n (ltb→lt n 10 small)) (ground arith)
  | inr large ↦
      rw
        (
          large,
          codes-append,
          all-append,
          digit_code (n % 10) (omega arith),
          digits-decimal_fuel f (n / 10),
        )
        (ground arith)
]

pub digits-decimal : (n : ℕ) → all is_digit (codes (decimal n)) ≡ true
unfolding decimal
digits-decimal n = digits-decimal_fuel (suc n) n

decimal_runs : decimal 1700000123 ≡ "1700000123"
unfolding decimal
decimal_runs = refl
