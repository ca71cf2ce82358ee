-- ===== src/Prelude/Text.antt =====
-- Texts walked as the numbers of their characters, and their letters' case. Case is that of ASCII.
use Prim.Native.Nat.{ℕ, ◌+◌, ◌-◌}
use Prim.Native.Char.{code}
use Prim.Native.String.{String}
use mathlib.Core.Bool.{Bool, true, false, ◌&&◌}
use mathlib.Core.List.{List, [], ◌∷◌, map}
use mathlib.Core.Path.{◌≡◌, refl}
use native.Mathlib.Omega.{arith}
use text.Mathlib.TextEquality.{Char-path}
use pandion.Prelude.Tests.{leb, ◌==◌, if◌then◌else◌}

abbrev pub codes : String → List ℕ
codes String.[] = []
codes (String.◌∷◌ c s) = code c ∷ codes s

unfoldable pub is_lower : ℕ → Bool
is_lower c = leb b'a' c && leb c b'z'

unfoldable pub is_upper : ℕ → Bool
is_upper c = leb b'A' c && leb c b'Z'

unfoldable pub is_digit : ℕ → Bool
is_digit c = leb b'0' c && leb c b'9'

unfoldable pub to_upper : ℕ → ℕ
unfolding is_lower
to_upper c = if is_lower c then c - 32 else c

unfoldable pub to_lower : ℕ → ℕ
unfolding is_upper
to_lower c = if is_upper c then c + 32 else c

unfoldable pub same_codes : List ℕ → List ℕ → Bool
same_codes [] [] = true
same_codes (a ∷ as') (b ∷ bs) = a == b && same_codes as' bs
same_codes _ _ = false

-- strings.EqualFold
unfoldable pub equal_fold : String → String → Bool
unfolding to_lower same_codes
equal_fold s t = same_codes (map to_lower (codes s)) (map to_lower (codes t))

pub codes-injective : (s t : String) → codes s ≡ codes t → s ≡ t
codes-injective String.[] String.[] e = refl
codes-injective String.[] (String.◌∷◌ d t) e = absurd (ground (arith, e))
codes-injective (String.◌∷◌ c s) String.[] e = absurd (ground (arith, e))
codes-injective (String.◌∷◌ c s) (String.◌∷◌ d t) e =
    let first : c ≡ d = Char-path c d (ground (arith, e)) in
    let rest : s ≡ t = codes-injective s t (ground (arith, e)) in λ i. String.◌∷◌ (first i) (rest i)
