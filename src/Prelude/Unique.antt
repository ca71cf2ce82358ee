-- ===== src/Prelude/Unique.antt =====
-- Strings gathered without repetition: the loop over a map `seen` that the packages share.
use Prim.Native.String.{String}
use mathlib.Core.Path.{◌≡◌, refl}
use mathlib.Core.Bool.{Bool, true, false, ◌&&◌, ◌||◌, not}
use mathlib.Core.List.{List, [], ◌∷◌, ◌++◌}
use native.Mathlib.Omega.{arith}
use text.Mathlib.TextEquality.{eq_iff}
use text.Mathlib.TextPositions.{eq_refl}
use pandion.Prelude.Tests.{str_eq, if◌then◌else◌}

abbrev pub contains : List String → String → Bool
contains [] v = false
contains (x ∷ xs) v = if str_eq x v then true else contains xs v

-- The map `seen` and the list `out`.
pub record Gathered : Type 0 where
  pub seen : List String
  pub out : List String

abbrev pub nothing_gathered : Gathered
nothing_gathered = record { seen = []; out = [] }

-- The round of one entry: appended if it passes the test and is new.
unfoldable pub gather : (String → Bool) → String → Gathered → Gathered
gather ok x g =
    if ok x && not (contains g.seen x)
    then record { seen = x ∷ g.seen; out = g.out ++ x ∷ [] }
    else g

unfoldable pub gather_all : (String → Bool) → List String → Gathered → Gathered
unfolding gather
gather_all ok [] g = g
gather_all ok (x ∷ xs) g = gather_all ok xs (gather ok x g)

-- No entry occurs twice.
abbrev pub unique : List String → Bool
unique [] = true
unique (x ∷ xs) = not (contains xs x) && unique xs

contains-append :
    (xs ys : List String) (v : String) → contains (xs ++ ys) v ≡ (contains xs v || contains ys v)
contains-append [] ys v = refl
contains-append (x ∷ xs) ys v = ground (arith, contains-append xs ys v)

unique-append_one :
    (xs : List String) (v : String)
    → unique xs ≡ true
    → contains xs v ≡ false
    → unique (xs ++ v ∷ []) ≡ true
unique-append_one [] v u c = refl
unique-append_one (x ∷ xs) v u c =
    ground (arith, unique-append_one xs v, contains-append xs (v ∷ []) x, eq_iff v x, eq_refl x)

-- What has been seen is what is out, once each.
abbrev pub IsGathered : Gathered → Type 0
IsGathered g = ((v : String) → contains g.seen v ≡ contains g.out v) × (unique g.out ≡ true)

pub nothing_gathered-IsGathered : IsGathered nothing_gathered
nothing_gathered-IsGathered = (λ v. refl, refl)

gather-IsGathered :
    (ok : String → Bool) (x : String) (g : Gathered) → IsGathered g → IsGathered (gather ok x g)
unfolding gather
gather-IsGathered ok x g (same, u) = (
  λ v. ground (arith, same v, contains-append g.out (x ∷ []) v),
  ground (arith, same x, unique-append_one g.out x u),
)

pub gather_all-IsGathered :
    (ok : String → Bool) (xs : List String) (g : Gathered)
    → IsGathered g
    → IsGathered (gather_all ok xs g)
unfolding gather_all
gather_all-IsGathered ok [] g h = h
gather_all-IsGathered ok (x ∷ xs) g h =
    gather_all-IsGathered ok xs (gather ok x g) (gather-IsGathered ok x g h)

contains-gather :
    (ok : String → Bool) (x : String) (g : Gathered) (v : String)
    → IsGathered g
    → contains (gather ok x g).out v ≡ (contains g.out v || (ok v && str_eq x v))
unfolding gather
contains-gather ok x g v (same, u) =
    ground (arith, same x, contains-append g.out (x ∷ []) v, eq_iff x v)

-- The gathered entries are those there were and those that pass the test.
pub contains-gather_all :
    (ok : String → Bool) (xs : List String) (g : Gathered) (v : String)
    → IsGathered g
    → contains (gather_all ok xs g).out v ≡ (contains g.out v || (ok v && contains xs v))
unfolding gather_all
contains-gather_all ok [] g v h = ground arith
contains-gather_all ok (x ∷ xs) g v h = ground (
  arith,
  contains-gather_all ok xs (gather ok x g) v (gather-IsGathered ok x g h),
  contains-gather ok x g v h,
)
