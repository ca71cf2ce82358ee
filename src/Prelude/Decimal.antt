-- ===== src/Prelude/Decimal.antt =====
-- Printing a number in decimal, as `%d` does, and that different numbers print differently.
use Prim.Native.Nat.{ℕ, zero, suc, ◌+◌, ◌-◌, ◌*◌, ◌/◌, ◌%◌, ◌<◌}
use Prim.Native.Char.{code}
use Prim.Native.String.{String, ◌++◌}
use mathlib.Core.Path.{◌≡◌, refl, sym, ap, ◌∙◌}
use mathlib.Core.Logic.{inl, inr}
use native.Mathlib.Omega.{arith}
use text.Mathlib.TextLemmas.{nil-append, cons-append}
use mathlib.Core.Option.{Option, none, some}
use pandion.Prelude.Tests.{ltb, if◌then◌else◌, Bool-cases}
use pandion.Prelude.Text.{is_digit}

digit : ℕ → String
digit zero = "0"
digit (suc zero) = "1"
digit (suc (suc zero)) = "2"
digit (suc (suc (suc zero))) = "3"
digit (suc (suc (suc (suc zero)))) = "4"
digit (suc (suc (suc (suc (suc zero))))) = "5"
digit (suc (suc (suc (suc (suc (suc zero)))))) = "6"
digit (suc (suc (suc (suc (suc (suc (suc zero))))))) = "7"
digit (suc (suc (suc (suc (suc (suc (suc (suc zero)))))))) = "8"
digit _ = "9"

digits : ℕ → ℕ → String
unfolding digit
digits zero n = ""
digits (suc f) n =
    let front = digits f (n / 10) in if ltb n 10 then digit n else front ++ digit (n % 10)

unfoldable pub decimal : ℕ → String
unfolding digits
decimal n = digits (suc n) n

-- The number that a decimal text stands for, read on from `acc`.
value : ℕ → String → ℕ
value acc String.[] = acc
value acc (String.◌∷◌ c s) = value (acc * 10 + code c - 48) s

value-append : (acc : ℕ) (s t : String) → value acc (s ++ t) ≡ value (value acc s) t
unfolding value
value-append acc String.[] t = ap (value acc) (nil-append t)
value-append acc (String.◌∷◌ c s) t = rw cons-append (value-append (acc * 10 + code c - 48) s t)

value-digit : (acc d : ℕ) → d < 10 → value acc (digit d) ≡ acc * 10 + d
unfolding value digit
value-digit acc zero h = omega arith
value-digit acc (suc zero) h = omega arith
value-digit acc (suc (suc zero)) h = omega arith
value-digit acc (suc (suc (suc zero))) h = omega arith
value-digit acc (suc (suc (suc (suc zero)))) h = omega arith
value-digit acc (suc (suc (suc (suc (suc zero))))) h = omega arith
value-digit acc (suc (suc (suc (suc (suc (suc zero)))))) h = omega arith
value-digit acc (suc (suc (suc (suc (suc (suc (suc zero))))))) h = omega arith
value-digit acc (suc (suc (suc (suc (suc (suc (suc (suc zero)))))))) h = omega arith
value-digit acc (suc (suc (suc (suc (suc (suc (suc (suc (suc zero))))))))) h = omega arith
value-digit acc (suc (suc (suc (suc (suc (suc (suc (suc (suc (suc d)))))))))) h =
    absurd (omega arith)

value-digits : (f n : ℕ) → n < f → value 0 (digits f n) ≡ n
unfolding digits
value-digits zero n h = elim h [ ]
value-digits (suc f) n h = elim (Bool-cases (ltb n 10)) [
  | inl small ↦ rw small (omega (arith, value-digit 0 n (ground arith)))
  | inr large ↦
      rw
        (
          large,
          value-append 0 (digits f (n / 10)) (digit (n % 10)),
          value-digits f (n / 10) (ground arith),
        )
        (omega (arith, value-digit (n / 10) (n % 10) (omega arith)))
]

pub decimal-injective : (m n : ℕ) → decimal m ≡ decimal n → m ≡ n
unfolding decimal
decimal-injective m n e =
    sym (value-digits (suc m) m (omega arith))
    ∙ ap (value 0) e
    ∙ value-digits (suc n) n (omega arith)

-- The number of a text of digits, read on from `acc`.
unfoldable pub read_digits : ℕ → String → Option ℕ
unfolding is_digit
read_digits acc String.[] = some acc
read_digits acc (String.◌∷◌ c s) =
    let rest = read_digits (acc * 10 + (code c - 48)) s in if is_digit (code c) then rest else none

read_digits-append :
    (acc m : ℕ) (s t : String)
    → read_digits acc s ≡ some m
    → read_digits acc (s ++ t) ≡ read_digits m t
unfolding read_digits is_digit
read_digits-append acc m String.[] t h =
    rw nil-append (ap (λ k. read_digits k t) (ground (arith, h)))
read_digits-append acc m (String.◌∷◌ c s) t h =
    rw cons-append (ground (arith, h, read_digits-append (acc * 10 + (code c - 48)) m s t))

read_digits-digit : (acc d : ℕ) → d < 10 → read_digits acc (digit d) ≡ some (acc * 10 + d)
unfolding read_digits digit is_digit
read_digits-digit acc zero h = ground arith
read_digits-digit acc (suc zero) h = refl
read_digits-digit acc (suc (suc zero)) h = refl
read_digits-digit acc (suc (suc (suc zero))) h = refl
read_digits-digit acc (suc (suc (suc (suc zero)))) h = refl
read_digits-digit acc (suc (suc (suc (suc (suc zero))))) h = refl
read_digits-digit acc (suc (suc (suc (suc (suc (suc zero)))))) h = refl
read_digits-digit acc (suc (suc (suc (suc (suc (suc (suc zero))))))) h = refl
read_digits-digit acc (suc (suc (suc (suc (suc (suc (suc (suc zero)))))))) h = refl
read_digits-digit acc (suc (suc (suc (suc (suc (suc (suc (suc (suc zero))))))))) h = refl
read_digits-digit acc (suc (suc (suc (suc (suc (suc (suc (suc (suc (suc d)))))))))) h =
    absurd (omega arith)

read_digits-digits : (f n : ℕ) → n < f → read_digits 0 (digits f n) ≡ some n
unfolding digits
read_digits-digits zero n h = elim h [ ]
read_digits-digits (suc f) n h = elim (Bool-cases (ltb n 10)) [
  | inl small ↦ rw small (read_digits-digit 0 n (ground arith) ∙ ap some (omega arith))
  | inr large ↦ rw large (
      read_digits-append 0 (n / 10) (digits f (n / 10)) (digit (n % 10))
        (read_digits-digits f (n / 10) (ground arith))
      ∙ read_digits-digit (n / 10) (n % 10) (omega arith)
      ∙ ap some (omega arith))
]

pub read_digits-decimal : (n : ℕ) → read_digits 0 (decimal n) ≡ some n
unfolding decimal
read_digits-decimal n = read_digits-digits (suc n) n (omega arith)
