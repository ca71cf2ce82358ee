-- ===== src/Lockfile/Pinned.antt =====
-- lockfile.go, PinnedPackages: what it keeps of a request.
use Prim.Native.Char.{Char, code}
use Prim.Native.String.{◌++◌ as append}
use text.Mathlib.TextLemmas.{nil-append, cons-append}
use pandion.Prelude.{
  ◌≡◌, refl, ap, inl, inr, String, true, false, List, [], ◌∷◌, Option, none, some, ◌==◌, arith,
  str_eq, map, Bool-cases, Option-cases,
}
use pandion.Prelude.Dict.{lookup}
use pandion.Client.Names.{trim_space, is_space, skip_space, keep_front, trim_space_back}
use pandion.Lockfile.{NodeLock, has_equals, before_equals, pkg_name, pin, at_version}

has_equals-before_equals : (s : String) → has_equals (before_equals s) ≡ false
unfolding has_equals before_equals
has_equals-before_equals String.[] = refl
has_equals-before_equals (String.◌∷◌ c s) = elim (Bool-cases (code c == b'=')) [
  | inl e ↦ rw e refl
  | inr e ↦ rw (e, e) (has_equals-before_equals s)
]

has_equals-skip_space : (s : String) → has_equals s ≡ false → has_equals (skip_space s) ≡ false
unfolding has_equals skip_space
has_equals-skip_space String.[] h = refl
has_equals-skip_space (String.◌∷◌ c s) h = elim (Bool-cases (is_space (code c))) [
  | inl e ↦ rw e (has_equals-skip_space s (ground (arith, h)))
  | inr e ↦ rw e h
]

has_equals-keep_front :
    (c : Char) (s : String)
    → (code c == b'=') ≡ false
    → has_equals s ≡ false
    → has_equals (keep_front c s) ≡ false
unfolding has_equals keep_front
has_equals-keep_front c String.[] e h = elim (Bool-cases (is_space (code c))) [
  | inl space ↦ rw space refl
  | inr other ↦ rw other (ground (arith, e))
]
has_equals-keep_front c (String.◌∷◌ d s) e h = ground (arith, e, h)

has_equals-trim_space_back :
    (s : String) → has_equals s ≡ false → has_equals (trim_space_back s) ≡ false
unfolding has_equals trim_space_back
has_equals-trim_space_back String.[] h = refl
has_equals-trim_space_back (String.◌∷◌ c s) h =
    has_equals-keep_front c (trim_space_back s) (ground (arith, h))
      (has_equals-trim_space_back s (ground (arith, h)))

pub has_equals-pkg_name : (s : String) → has_equals (pkg_name s) ≡ false
unfolding pkg_name trim_space
has_equals-pkg_name s = elim (Bool-cases (has_equals s)) [
  | inl e ↦ rw e (has_equals-before_equals s)
  | inr e ↦ rw e (has_equals-skip_space (trim_space_back s) (has_equals-trim_space_back s e))
]

has_equals-append : (n v : String) → has_equals (append n (append "=" v)) ≡ true
unfolding has_equals
has_equals-append String.[] v = rw (nil-append (append "=" v), cons-append "=" "" v) refl
has_equals-append (String.◌∷◌ c n) v =
    rw (cons-append c n (append "=" v)) (ground (arith, has_equals-append n v))

before_equals-append :
    (n v : String) → has_equals n ≡ false → before_equals (append n (append "=" v)) ≡ n
unfolding has_equals before_equals
before_equals-append String.[] v h = rw (nil-append (append "=" v), cons-append "=" "" v) refl
before_equals-append (String.◌∷◌ c n) v h =
    let other : (code c == b'=') ≡ false = ground (arith, h) in
    rw (cons-append c n (append "=" v), other)
      (ap (String.◌∷◌ c) (before_equals-append n v (ground (arith, h))))

pkg_name-pinned : (n v : String) → has_equals n ≡ false → pkg_name (append n (append "=" v)) ≡ n
unfolding pkg_name
pkg_name-pinned n v h = rw (has_equals-append n v) (before_equals-append n v h)

pub pkg_name-pin : (nl : Option NodeLock) (p : String) → pkg_name (pin nl p) ≡ pkg_name p
unfolding pin
pkg_name-pin none p = refl
pkg_name-pin (some nl) p = elim (Option-cases (lookup nl.packages (pkg_name p))) [
  | inl none_there ↦ rw none_there refl
  | inr (v, there) ↦ elim (Bool-cases (str_eq v "")) [
    | inl blank ↦ rw (there, blank) refl
    | inr version ↦ rw (there, version) (pkg_name-pinned (pkg_name p) v (has_equals-pkg_name p))
  ]
]

at_version-at_version :
    (p name : String) (o : Option String)
    → at_version (at_version p name o) name o ≡ at_version p name o
at_version-at_version p name none = refl
at_version-at_version p name (some v) = ground arith

pub pin-pin : (nl : Option NodeLock) (p : String) → pin nl (pin nl p) ≡ pin nl p
unfolding pin
pin-pin none p = refl
pin-pin (some nl) p =
    rw (pkg_name-pin (some nl) p)
      (at_version-at_version p (pkg_name p) (lookup nl.packages (pkg_name p)))

pub map-same :
    {A B : Type 0} (f : A → A) (g : A → B) (as' : List A)
    → ((a : A) → g (f a) ≡ g a)
    → map g (map f as') ≡ map g as'
map-same f g [] h = refl
map-same f g (a ∷ as') h = ground (arith, h a, map-same f g as' h)
