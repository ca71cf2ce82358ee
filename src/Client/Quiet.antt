-- ===== src/Client/Quiet.antt =====
-- Calls that leave a part of the cloud's state as it is, and the chains and loops of such calls.
use pandion.Prelude.{ℕ, ◌≡◌, refl, ◌∙◌, List, [], ◌∷◌, inl, inr, ap}
use pandion.Errors.{Result}
use pandion.Provider.{Context, Net}
use pandion.Client.{Call, rest_for, delete_each, first_err, ◌>>=◌, >>=-cases}

module _ {C V : Type 0} (view : C → V) where
  abbrev pub IsQuiet : {A : Type 0} → Call C A → Type 0
  IsQuiet m = (n : Net C) → view (m n).1.cloud ≡ view n.cloud

  pub >>=-IsQuiet :
      {A B : Type 0} (m : Call C A) (f : A → Call C B)
      → IsQuiet m
      → ((a : A) → IsQuiet (f a))
      → IsQuiet (m >>= f)
  >>=-IsQuiet m f q h n = elim (>>=-cases f m n) [
    | inl (a, e, same) ↦ ap (λ r. view r.1.cloud) same ∙ h a (m n).1 ∙ q n
    | inr (e, x, same) ↦ ap (λ r. view r.1.cloud) same ∙ q n
  ]

  pub rest_for-IsQuiet : (ctx : Context) (delay : ℕ) → IsQuiet (rest_for ctx delay)
  unfolding rest_for
  rest_for-IsQuiet ctx delay n = refl

  pub delete_each-IsQuiet :
      {A : Type 0} (delete : A → Call C (Unit {0}))
      → ((a : A) → IsQuiet (delete a))
      → (first : Result (Unit {0})) (l : List A) → IsQuiet (delete_each delete first l)
  unfolding delete_each
  delete_each-IsQuiet delete q first [] n = refl
  delete_each-IsQuiet delete q first (a ∷ l) n =
      delete_each-IsQuiet delete q (first_err first (delete a n).0) l (delete a n).1 ∙ q a n
