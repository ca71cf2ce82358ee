-- ===== src/Client.antt =====
-- internal/provider/<cloud>/<cloud>.go: what the clients of the clouds share. A call changes the
-- cloud and the clock and ends with a value or an error; a method is a do block of calls.
pub mod Loops
pub mod Names
pub mod Request
pub mod Quiet
pub mod Waits
pub mod Plans
pub mod Unreached
pub mod Priced
pub mod Hetzner
pub mod Digitalocean
pub mod Linode
pub mod Vultr
pub mod Scaleway
pub mod Lambda
use pandion.Prelude.{
  sym, ap, ◌∙◌, arith, ℕ, String, ◌≡◌, refl, ◌⊎◌, inl, inr, Option, none, some, List, [], ◌∷◌,
}
use pandion.Errors.{Result, ok, err, Error, Stage, reported, wrapped}
use pandion.Provider.{Context, Net}
use pandion.Orchestrator.{pause}

abbrev pub Call : Type 0 → Type 0 → Type 0
Call C A = Net C → Result A × Net C

module _ {C : Type 0} where
  abbrev pub pure : {A : Type 0} → A → Call C A
  pure a n = (ok a, n)

  abbrev pub raise : {A : Type 0} → Error → Call C A
  raise e n = (err e, n)

  -- fmt.Errorf and errors.New
  abbrev pub fail : {A : Type 0} → String → Call C A
  fail s = raise (reported s)

  abbrev pub continue : {A B : Type 0} → (A → Call C B) → Result A × Net C → Result B × Net C
  continue f (ok a, n) = f a n
  continue f (err e, n) = (err e, n)

infixl 5 ◌>>=◌ ◌>>◌
abbrev pub ◌>>=◌ : {C A B : Type 0} → Call C A → (A → Call C B) → Call C B
◌>>=◌ m f n = continue f (m n)

abbrev pub ◌>>◌ : {C A B : Type 0} → Call C A → Call C B → Call C B
m >> k = m >>= λ _. k

module _ {C : Type 0} where
  -- The result of a call whose error the code reads itself.
  abbrev pub try : {A : Type 0} → Call C A → Call C (Result A)
  try m n = let (r, n') = m n in (ok r, n')

  abbrev wrap : {A : Type 0} → Stage → Result A × Net C → Result A × Net C
  wrap s (ok a, n) = (ok a, n)
  wrap s (err e, n) = (err (wrapped s e), n)

  -- fmt.Errorf("...: %w", err) around the error of a call
  abbrev pub wrapping : {A : Type 0} → Stage → Call C A → Call C A
  wrapping s m n = wrap s (m n)

  -- time.Now
  abbrev pub time_now : Call C ℕ
  time_now n = (ok n.now, n)

  -- The `select` on the context and time.After.
  unfoldable pub rest_for : Context → ℕ → Call C (Unit {0})
  rest_for ctx delay n = let (r, t) = pause ctx delay n.now in (r, record n { now = t })

module _ {C A B : Type 0} (f : A → Call C B) where
  continue-cases :
      (r : Result A × Net C)
      → ((a : A) × (r.0 ≡ ok a) × (continue f r ≡ f a r.1))
        ⊎ ((e : Error) × (r.0 ≡ err e) × (continue f r ≡ (err e, r.1)))
  continue-cases (ok a, n) = inl (a, refl, refl)
  continue-cases (err e, n) = inr (e, refl, refl)

  -- How a chain of calls goes on after its first call.
  pub >>=-cases :
      (m : Call C A) (n : Net C)
      → ((a : A) × ((m n).0 ≡ ok a) × ((m >>= f) n ≡ f a (m n).1))
        ⊎ ((e : Error) × ((m n).0 ≡ err e) × ((m >>= f) n ≡ (err e, (m n).1)))
  >>=-cases m n = continue-cases (m n)

module _ {C A B : Type 0} (f : A → Call C B) where
  -- A chain that ends well went through its first call.
  pub >>=-ok :
      (m : Call C A) (n : Net C) (b : B)
      → ((m >>= f) n).0 ≡ ok b
      → (a : A) × ((m n).0 ≡ ok a) × ((f a (m n).1).0 ≡ ok b)
  >>=-ok m n b h = elim (>>=-cases f m n) [
    | inl (a, e, same) ↦ (a, e, sym (ap (λ r. r.0) same) ∙ h)
    | inr (e, x, same) ↦ absurd (ground (arith, ap (λ r. r.0) same, h))
  ]

module _ {C A : Type 0} where
  wrap-ok : (s : Stage) (r : Result A × Net C) (a : A) → (wrap s r).0 ≡ ok a → wrap s r ≡ r
  wrap-ok s (ok x, n) a h = refl
  wrap-ok s (err e, n) a h = cc

  pub wrapping-ok :
      (s : Stage) (m : Call C A) (n : Net C) (a : A)
      → (wrapping s m n).0 ≡ ok a
      → wrapping s m n ≡ m n
  wrapping-ok s m n a h = wrap-ok s (m n) a h

-- A client over a cloud: what it keeps in memory between calls. A mutex that guards it makes its
-- readers take turns, as the calls of the model do.
pub record Cached (K C : Type 0) : Type 0 where
  pub kept : K
  pub remote : C

module _ {K C A : Type 0} where
  -- A call of the cloud's interface.
  unfoldable pub ask : Call C A → Call (Cached K C) A
  ask m n =
      let (r, n') = m (record { cloud = n.cloud.remote; now = n.now }) in
      (r, record { cloud = record n.cloud { remote = n'.cloud }; now = n'.now })

  abbrev keep : (A → K → K) → Result A × Net (Cached K C) → Result A × Net (Cached K C)
  keep put (err e, n) = (err e, n)
  keep put (ok a, n) = (ok a, record n { cloud = record n.cloud { kept = put a n.cloud.kept } })

  -- What is kept, or else fetched and then kept; a failed fetch is not.
  unfoldable pub cached : (K → Option A) → (A → K → K) → Call (Cached K C) A → Call (Cached K C) A
  cached get put fetch n = elim (get n.cloud.kept) [
    | some a ↦ (ok a, n)
    | none ↦ keep put (fetch n)
  ]

-- A result as a call that changes nothing.
abbrev pub settle : {A C : Type 0} → Result A → Call C A
settle r n = (r, n)

-- firstErr after one more result.
unfoldable pub first_err : Result (Unit {0}) → Result (Unit {0}) → Result (Unit {0})
first_err (ok u) r = r
first_err (err e) r = err e

module _ {C A : Type 0} (delete : A → Call C (Unit {0})) where
  -- A loop that deletes what it can, and remembers the first error.
  unfoldable pub delete_each : Result (Unit {0}) → List A → Call C (Result (Unit {0}))
  unfolding first_err
  delete_each first [] = pure first
  delete_each first (a ∷ as') = do r ← try (delete a); delete_each (first_err first r) as'
