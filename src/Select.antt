-- ===== src/Select.antt =====
-- internal/provider/<cloud>/select*.go: which server type to order, and where. Prices and amounts
-- of memory are numbers of a type `F`, given with its comparisons.
pub mod Locations
pub mod Prices
pub mod Clouds
use pandion.Prelude.{ℕ, Bool, true, false, ◌≡◌}

-- Floating-point numbers as a comparison sees them. The last law is for numbers proper, and every
-- price and size decoded from an answer of a cloud is one: JSON has no NaN.
pub record Ordered (F : Type 0) : Type 0 where
  pub less : F → F → Bool
  pub differs : F → F → Bool
  -- float64(n)
  pub of_ℕ : ℕ → F
  pub less_differs : (a b : F) → less a b ≡ true → differs a b ≡ true
  pub differs_sym : (a b : F) → differs a b ≡ differs b a
  pub less_asym : (a b : F) → less a b ≡ true → less b a ≡ false
  pub not_less_trans : (a b c : F) → less b a ≡ false → less c b ≡ false → less c a ≡ false
