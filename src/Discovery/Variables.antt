-- ===== src/Discovery/Variables.antt =====
-- The names of the variables.
use pandion.Prelude.{
  ℕ, String, Bool, true, ◌||◌, List, [], ◌∷◌, ◌++◌, ◌≡◌, refl, ap, arith, map, length,
  length-append, ◌==◌, All,
}
use pandion.Prelude.Text.{codes, codes-injective, to_upper, is_upper, is_lower, is_digit}
use pandion.Discovery.{var_code, env_var_name}

-- A character that the schema allows in a node's name: a small letter, a digit or a dash.
abbrev pub is_name_code : ℕ → Bool
is_name_code c = is_lower c || is_digit c || c == b'-'

var_code-injective :
    (a b : ℕ)
    → is_name_code a ≡ true
    → is_name_code b ≡ true
    → var_code (to_upper a) ≡ var_code (to_upper b)
    → a ≡ b
unfolding var_code to_upper is_upper is_lower is_digit
var_code-injective a b ha hb e = ground (arith, ha, hb, e)

cons_same : {x y : ℕ} {xs ys : List ℕ} → x ≡ y → xs ≡ ys → x ∷ xs ≡ y ∷ ys
cons_same p q = cc

-- Equal ends leave equal fronts.
mapped-injective :
    (xs ys t : List ℕ)
    → All (λ c. is_name_code c ≡ true) xs
    → All (λ c. is_name_code c ≡ true) ys
    → map (λ r. var_code (to_upper r)) xs ++ t ≡ map (λ r. var_code (to_upper r)) ys ++ t
    → xs ≡ ys
mapped-injective [] [] t hx hy e = refl
mapped-injective [] (y ∷ ys) t hx hy e =
    absurd (omega (arith, ap length e, length-append (map (λ r. var_code (to_upper r)) ys) t))
mapped-injective (x ∷ xs) [] t hx hy e =
    absurd (omega (arith, ap length e, length-append (map (λ r. var_code (to_upper r)) xs) t))
mapped-injective (x ∷ xs) (y ∷ ys) t hx hy e =
    let first : var_code (to_upper x) ≡ var_code (to_upper y) = ground (arith, e) in
    let rest : map (λ r. var_code (to_upper r)) xs ++ t ≡ map (λ r. var_code (to_upper r)) ys ++ t =
      ground (arith, e) in
    cons_same (var_code-injective x y hx.0 hy.0 first) (mapped-injective xs ys t hx.1 hy.1 rest)

-- Two names that the schema allows have the same variable only if they are the same: no node's
-- address stands in the variable of another.
pub env_var_name-injective :
    (a b : String)
    → All (λ c. is_name_code c ≡ true) (codes a)
    → All (λ c. is_name_code c ≡ true) (codes b)
    → env_var_name a ≡ env_var_name b
    → a ≡ b
unfolding env_var_name
env_var_name-injective a b ha hb e =
    codes-injective a b
      (mapped-injective (codes a) (codes b) (codes "_IP") ha hb (ground (arith, e)))
