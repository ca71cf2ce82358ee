-- ===== src/Prelude/Integer.antt =====
-- Go's int64 and strconv: printing and reading whole numbers. int has 64 bits.
use Prim.Native.Nat.{ℕ, zero, suc, ◌^◌, ◌<◌}
use Prim.Native.Char.{code}
use Prim.Native.String.{String, ◌++◌}
use mathlib.Core.Path.{◌≡◌, refl, sym, ap, ◌∙◌}
use mathlib.Core.Logic.{◌≢◌}
use mathlib.Core.Bool.{Bool, false}
use mathlib.Core.Option.{Option, none, some}
use native.Mathlib.Omega.{arith}
use text.Mathlib.TextEquality.{eq_iff}
use pandion.Prelude.Tests.{str_eq, ltb, ◌==◌, if◌then◌else◌}
use pandion.Prelude.Text.{is_digit}
use pandion.Prelude.Decimal.{decimal, decimal-injective, read_digits, read_digits-decimal}

-- pos n is n, and negsuc n is -(n + 1).
pub data ℤ : Type 0 where
  pos negsuc : ℕ → ℤ

abbrev pub int_eq : ℤ → ℤ → Bool
int_eq (pos a) (pos b) = a == b
int_eq (negsuc a) (negsuc b) = a == b
int_eq (pos a) (negsuc b) = false
int_eq (negsuc a) (pos b) = false

-- strconv.Itoa, strconv.FormatInt
unfoldable pub format_int : ℤ → String
format_int (pos n) = decimal n
format_int (negsuc n) = "-" ++ decimal (suc n)

in_range : Option ℕ → Option ℤ
in_range none = none
in_range (some n) = if ltb n (2 ^ 63) then some (pos n) else none

negated : Option ℕ → Option ℤ
negated none = none
negated (some zero) = some (pos 0)
negated (some (suc n)) = if ltb n (2 ^ 63) then some (negsuc n) else none

-- The digits after the sign: one at least.
digits_of : String → Option ℕ
digits_of String.[] = none
digits_of (String.◌∷◌ c s) = read_digits 0 (String.◌∷◌ c s)

-- strconv.Atoi, strconv.ParseInt(s, 10, 64), with none for an error
unfoldable pub parse_int : String → Option ℤ
unfolding in_range negated digits_of
parse_int String.[] = none
parse_int (String.◌∷◌ c s) =
    if code c == b'-'
    then negated (digits_of s)
    else if code c == b'+'
    then in_range (digits_of s)
    else in_range (read_digits 0 (String.◌∷◌ c s))

parse_digits :
    (s : String) (n : ℕ)
    → read_digits 0 s ≡ some n
    → s ≢ ""
    → n < 2 ^ 63
    → parse_int s ≡ some (pos n)
unfolding parse_int in_range read_digits is_digit
parse_digits String.[] n h ne b = absurd (ne refl)
parse_digits (String.◌∷◌ c s) n h ne b = ground (arith, h, b)

decimal-ne_nil : (n : ℕ) → decimal n ≢ ""
unfolding decimal read_digits
decimal-ne_nil zero e = cc e
decimal-ne_nil (suc n) e =
    let zeroed : some 0 ≡ some (suc n) = ap (read_digits 0) (sym e) ∙ read_digits-decimal (suc n) in
    ground (arith, zeroed)

-- A number in range is read back as it was printed.
pub parse_int-format_int : (n : ℕ) → n < 2 ^ 63 → parse_int (format_int (pos n)) ≡ some (pos n)
unfolding format_int
parse_int-format_int n b = parse_digits (decimal n) n (read_digits-decimal n) (decimal-ne_nil n) b

-- Two numbers that are not negative print the same only if they are the same.
pub format_int-same : (m n : ℕ) → str_eq (format_int (pos m)) (format_int (pos n)) ≡ (m == n)
unfolding format_int
format_int-same m n =
    ground
      (arith, eq_iff (decimal m) (decimal n), decimal-injective m n, ap decimal {x = m} {y = n})
