-- ===== src/Config/Nearest/Chosen.antt =====
-- validate_locate.go, nearestKey: what it suggests for an unknown key.
use pandion.Prelude.{
  ℕ, ◌≤◌, ◌≡◌, ◌^◌, refl, sym, ap, ◌∙◌, ◌⊎◌, inl, inr, String, true, false, List, [], ◌∷◌, ltb, leb,
  arith, str_eq, eq_refl, All, Bool-cases, subst, if◌then◌else◌, All-imp,
}
use pandion.Prelude.Text.{codes}
use pandion.Prelude.Unique.{contains}
use pandion.Config.Nearest.{Best, nearest, nearest_key, levenshtein, limit}

-- The distance of a key.
abbrev pub far : String → String → ℕ
far bad k = levenshtein (codes bad) (codes k)

-- What a search makes of a best key: one that is no farther than it and the others, and is it or one
-- of them.
abbrev Chosen : String → Best → List String → Best → Type 0
Chosen bad best legal r =
    (r.distance ≤ best.distance)
    × All (λ k. r.distance ≤ far bad k) legal
    × ((r ≡ best) ⊎ ((contains legal r.key ≡ true) × (r.distance ≡ far bad r.key)))

module _ (bad k : String) (best r : Best) (ks : List String) where
  closer-Chosen :
      ltb (far bad k) best.distance ≡ true
      → Chosen bad (record { key = k; distance = far bad k }) ks r
      → Chosen bad best (k ∷ ks) r
  closer-Chosen closer (le, all, inl same) = (
    ground (arith, closer, le),
    (le, all),
    inr (
        subst (λ x. (contains (k ∷ ks) x.key ≡ true) × (x.distance ≡ far bad x.key)) (sym same)
          (ground (arith, eq_refl k), refl)),
  )
  closer-Chosen closer (le, all, inr (there, d)) =
      (ground (arith, closer, le), (le, all), inr (ground (arith, there), d))

  farther-Chosen :
      ltb (far bad k) best.distance ≡ false → Chosen bad best ks r → Chosen bad best (k ∷ ks) r
  farther-Chosen farther (le, all, inl same) = (le, (ground (arith, farther, le), all), inl same)
  farther-Chosen farther (le, all, inr (there, d)) =
      (le, (ground (arith, farther, le), all), inr (ground (arith, there), d))

nearest-Chosen :
    (bad : String) (best : Best) (legal : List String)
    → Chosen bad best legal (nearest bad best legal)
unfolding nearest
nearest-Chosen bad best [] = (omega arith, tt, inl refl)
nearest-Chosen bad best (k ∷ ks) =
    let next : Best = record { key = k; distance = far bad k } in
    elim (Bool-cases (ltb (far bad k) best.distance)) [
      | inl closer ↦
          let same : nearest bad next ks ≡ nearest bad best (k ∷ ks) = rw closer refl in
          subst (Chosen bad best (k ∷ ks)) same
            (closer-Chosen bad k best (nearest bad next ks) ks closer (nearest-Chosen bad next ks))
      | inr farther ↦
          let same : nearest bad best ks ≡ nearest bad best (k ∷ ks) = rw farther refl in
          subst (Chosen bad best (k ∷ ks)) same (
            farther-Chosen bad k best (nearest bad best ks) ks farther (nearest-Chosen bad best ks))
    ]

suggested :
    (bad s : String) (legal : List String) (r : Best)
    → Chosen bad (record { key = ""; distance = 2 ^ 30 }) legal r
    → (if leb r.distance (limit bad) then r.key else "") ≡ s
    → str_eq s "" ≡ false
    → (contains legal s ≡ true) × (far bad s ≤ limit bad) × All (λ k. far bad s ≤ far bad k) legal
suggested bad s legal r (le, all, inl same) h e =
    let blank : s ≡ "" = elim (Bool-cases (leb r.distance (limit bad))) [
      | inl near ↦ sym h ∙ rw near (ap (λ x. x.key) same)
      | inr beyond ↦ sym h ∙ rw beyond refl
    ] in
    absurd (ground (arith, e, ap (λ x. str_eq x "") blank))
suggested bad s legal r (le, all, inr (there, d)) h e =
    elim (Bool-cases (leb r.distance (limit bad))) [
      | inr beyond ↦
          let blank : s ≡ "" = sym h ∙ rw beyond refl in
          absurd (ground (arith, e, ap (λ x. str_eq x "") blank))
      | inl near ↦
          let same : r.key ≡ s = sym (rw near refl) ∙ h in
          subst
            (λ x.
              (contains legal x ≡ true)
              × (far bad x ≤ limit bad)
              × All (λ k. far bad x ≤ far bad k) legal)
            same
            (
              there,
              ground (arith, near, d),
              All-imp (λ k. r.distance ≤ far bad k) (λ k. far bad r.key ≤ far bad k) legal
                  (λ k j. omega (arith, d, j)) all,
            )
    ]

-- What nearestKey suggests, where it suggests a key, is one of the legal keys, within the limit for
-- the unknown one, and no legal key takes fewer edits.
pub nearest_key-IsNearest :
    (bad s : String) (legal : List String)
    → nearest_key bad legal ≡ s
    → str_eq s "" ≡ false
    → (contains legal s ≡ true) × (far bad s ≤ limit bad) × All (λ k. far bad s ≤ far bad k) legal
unfolding nearest_key
nearest_key-IsNearest bad s legal h e =
    let start : Best = record { key = ""; distance = 2 ^ 30 } in
    suggested bad s legal (nearest bad start legal) (nearest-Chosen bad start legal) h e
