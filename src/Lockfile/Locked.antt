-- ===== src/Lockfile/Locked.antt =====
-- lockfile.go, PinnedPackages: the versions that a request is pinned to.
use Prim.Native.Char.{code}
use Prim.Native.String.{◌++◌ as append}
use text.Mathlib.TextLemmas.{nil-append, cons-append}
use text.Mathlib.TextEquality.{Char-path}
use pandion.Prelude.{
  ◌≡◌, refl, sym, ap, ◌∙◌, ◌⊎◌, inl, inr, String, true, false, List, [], ◌∷◌, some, ◌==◌, ==_iff,
  arith, str_eq, eq_iff, map, Bool-cases, Option-cases,
}
use pandion.Prelude.Dict.{lookup}
use pandion.Client.Names.{trim_space}
use pandion.Lockfile.{
  Lock, NodeLock, has_equals, before_equals, pkg_name, pin, pinned_packages, node_lock,
}
use pandion.Lockfile.Pinned.{has_equals-pkg_name, pkg_name-pin, pin-pin, map-same}

-- The name in a request for a package: what stands before its first equals sign, or all of it
-- without its margins.
abbrev pub IsName : String → String → Type 0
IsName p n =
    (has_equals n ≡ false)
    × (((rest : String) × (p ≡ append n (append "=" rest)))
        ⊎ ((has_equals p ≡ false) × (n ≡ trim_space p)))

-- The first entry of a node.
abbrev pub IsFirst : String → List NodeLock → NodeLock → Type 0
IsFirst node [] nl = ⊥
IsFirst node (x ∷ xs) nl =
    ((x.name ≡ node) × (x ≡ nl)) ⊎ ((str_eq x.name node ≡ false) × IsFirst node xs nl)

-- The version, other than "", that the lock has of a package for a node.
abbrev pub IsVersion : Lock → String → String → String → Type 0
IsVersion l node name v =
    (nl : NodeLock) × IsFirst node l.nodes nl
    × (lookup nl.packages name ≡ some v)
    × (str_eq v "" ≡ false)

-- A request with the version of the lock, or as it was where the lock has none.
abbrev pub IsPinned : Lock → String → String → String → Type 0
IsPinned l node p q =
    (n : String) × IsName p n
    × (((v : String) × IsVersion l node n v × (q ≡ append n (append "=" v)))
        ⊎ (((v : String) → ¬ IsVersion l node n v) × (q ≡ p)))

abbrev pub AllPairs : (String → String → Type 0) → List String → List String → Type 0
AllPairs P [] [] = Unit
AllPairs P [] (q ∷ qs) = ⊥
AllPairs P (p ∷ ps) [] = ⊥
AllPairs P (p ∷ ps) (q ∷ qs) = P p q × AllPairs P ps qs

before_equals-split :
    (s : String)
    → has_equals s ≡ true
    → (rest : String) × (s ≡ append (before_equals s) (append "=" rest))
unfolding has_equals before_equals
before_equals-split String.[] h = absurd (ground (arith, h))
before_equals-split (String.◌∷◌ c s) h = elim (Bool-cases (code c == b'=')) [
  | inl e ↦
      let sign : c ≡ "=" = Char-path c "=" ((==_iff (code c) b'=').0 e) in
      (
        s,
        rw (e, nil-append (append "=" s), cons-append "=" "" s, nil-append s)
            (ap (λ d. String.◌∷◌ d s) sign),
      )
  | inr e ↦
      let (rest, split) = before_equals-split s (ground (arith, h, e)) in
      (rest, rw (e, cons-append c (before_equals s) (append "=" rest)) (ap (String.◌∷◌ c) split))
]

pkg_name-IsName : (p : String) → IsName p (pkg_name p)
unfolding pkg_name
pkg_name-IsName p = (
  has_equals-pkg_name p,
  elim (Bool-cases (has_equals p)) [
    | inl e ↦ inl (rw e (before_equals-split p e))
    | inr e ↦ inr (e, rw e refl)
  ],
)

node_lock-IsFirst :
    (node : String) (nls : List NodeLock) (nl : NodeLock)
    → node_lock node nls ≡ some nl
    → IsFirst node nls nl
unfolding node_lock
node_lock-IsFirst node [] nl h = absurd (ground (arith, h))
node_lock-IsFirst node (x ∷ xs) nl h = elim (Bool-cases (str_eq x.name node)) [
  | inl e ↦ inl ((eq_iff x.name node).0 e, ground (arith, h, e))
  | inr e ↦ inr (e, node_lock-IsFirst node xs nl (ground (arith, h, e)))
]

node_lock-first :
    (node : String) (nls : List NodeLock) (nl : NodeLock)
    → IsFirst node nls nl
    → node_lock node nls ≡ some nl
unfolding node_lock
node_lock-first node [] nl h = absurd h
node_lock-first node (x ∷ xs) nl (inl (named, same)) =
    let e : str_eq x.name node ≡ true = (eq_iff x.name node).1 named in rw e (ap some same)
node_lock-first node (x ∷ xs) nl (inr (other, h)) = rw other (node_lock-first node xs nl h)

IsVersion-lookup :
    (l : Lock) (node n v : String) (nl : NodeLock)
    → node_lock node l.nodes ≡ some nl
    → IsVersion l node n v
    → (lookup nl.packages n ≡ some v) × (str_eq v "" ≡ false)
IsVersion-lookup l node n v nl there (x, first, locked, version) =
    let same : some x ≡ some nl = sym (node_lock-first node l.nodes x first) ∙ there in
    let equal : x ≡ nl = ground (arith, same) in
    (ap (λ y. lookup y.packages n) (sym equal) ∙ locked, version)

pin-IsPinned : (l : Lock) (node p : String) → IsPinned l node p (pin (node_lock node l.nodes) p)
unfolding pin
pin-IsPinned l node p = (
  pkg_name p,
  pkg_name-IsName p,
  elim (Option-cases (node_lock node l.nodes)) [
    | inl absent ↦
        inr (λ v h. ground (arith, absent, node_lock-first node l.nodes h.0 h.1), rw absent refl)
    | inr (nl, there) ↦ elim (Option-cases (lookup nl.packages (pkg_name p))) [
      | inl unlocked ↦ inr (
        λ v h. ground (arith, unlocked, IsVersion-lookup l node (pkg_name p) v nl there h),
        rw (there, unlocked) refl,
      )
      | inr (v, locked) ↦ elim (Bool-cases (str_eq v "")) [
        | inl blank ↦ inr (
          λ u h. ground (arith, locked, blank, IsVersion-lookup l node (pkg_name p) u nl there h),
          rw (there, locked, blank) refl,
        )
        | inr version ↦ inl (
          v,
          (nl, node_lock-IsFirst node l.nodes nl there, locked, version),
          rw (there, locked, version) refl,
        )
      ]
    ]
  ],
)

map-AllPairs :
    (P : String → String → Type 0) (f : String → String) (ps : List String)
    → ((p : String) → P p (f p))
    → AllPairs P ps (map f ps)
map-AllPairs P f [] h = tt
map-AllPairs P f (p ∷ ps) h = (h p, map-AllPairs P f ps h)

-- Each request is pinned to the version that the lock has of its package for the node, where it has
-- one that is not empty, and stays as it is where it has none. So the packages stay, name by name and
-- in their order, and a request that is pinned already, by the same lock, stays as it is.
pub pinned_packages-IsPinned :
    (l : Lock) (node : String) (pkgs : List String)
    → AllPairs (IsPinned l node) pkgs (pinned_packages l node pkgs)
      × (map pkg_name (pinned_packages l node pkgs) ≡ map pkg_name pkgs)
      × (pinned_packages l node (pinned_packages l node pkgs) ≡ pinned_packages l node pkgs)
unfolding pinned_packages
pinned_packages-IsPinned l node pkgs =
    let nl = node_lock node l.nodes in
    (
      map-AllPairs (IsPinned l node) (pin nl) pkgs (pin-IsPinned l node),
      map-same (pin nl) pkg_name pkgs (pkg_name-pin nl),
      map-same (pin nl) (pin nl) pkgs (pin-pin nl),
    )
