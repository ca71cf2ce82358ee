-- ===== src/Select/Clouds/Hetzner.antt =====
-- internal/provider/hetzner/selecttype.go: types by cores, then memory, then name.
use pandion.Prelude.{
  ℕ, String, Bool, true, false, not, ◌&&◌, ◌||◌, List, [], ◌∷◌, ◌<◌, Bool-cases, inl, inr, sym,
  ==_iff, ◌≡◌, ◌⊎◌, arith, ltb, leb, ◌==◌, if◌then◌else◌, str_eq, map, select, select-same, subst,
}
use mathlib.Core.List.{Perm}
use pandion.Prelude.Order.{
  str_ltb, str_leb, str_leb_of_not_ltb, str_ltb_asym, sort, sort-perm, sort-IsSorted, IsSorted,
}
use pandion.Select.{Ordered}

pub record TypeInfo (F : Type 0) : Type 0 where
  pub name : String
  pub cores : ℕ
  pub mem_gb : F
  pub arch : String
  pub deprecated : Bool

module _ {F : Type 0} (o : Ordered F) where
  -- The body of the loop over the types.
  unfoldable pub is_candidate : ℕ → ℕ → String → TypeInfo F → Bool
  is_candidate min_cores min_ram_gb arch t =
      if not (str_eq t.arch arch) || t.deprecated
      then false
      else if ltb t.cores min_cores || o.less t.mem_gb (o.of_ℕ min_ram_gb)
      then false
      else true

  unfoldable pub smaller : TypeInfo F → TypeInfo F → Bool
  smaller a b =
      if not (a.cores == b.cores)
      then ltb a.cores b.cores
      else if o.differs a.mem_gb b.mem_gb
      then o.less a.mem_gb b.mem_gb
      else str_ltb a.name b.name

  abbrev pub not_larger : TypeInfo F → TypeInfo F → Bool
  not_larger a b = not (smaller b a)

  unfoldable pub candidates : ℕ → ℕ → String → List (TypeInfo F) → List (TypeInfo F)
  unfolding is_candidate smaller
  candidates min_cores min_ram_gb arch types =
      sort not_larger (select (is_candidate min_cores min_ram_gb arch) types)

  unfoldable pub select_candidates : List (TypeInfo F) → ℕ → ℕ → String → List String
  unfolding candidates
  select_candidates types min_cores min_ram_gb arch =
      map (λ t. t.name) (candidates min_cores min_ram_gb arch types)

module _ {F : Type 0} (o : Ordered F) where
  -- What the request asks of a type.
  abbrev pub meets : ℕ → ℕ → String → TypeInfo F → Bool
  meets min_cores min_ram_gb arch t =
      str_eq t.arch arch
      && not t.deprecated
      && leb min_cores t.cores
      && not (o.less t.mem_gb (o.of_ℕ min_ram_gb))

  not_larger_total : (a b : TypeInfo F) → (not_larger o a b ≡ true) ⊎ (not_larger o b a ≡ true)
  unfolding smaller
  not_larger_total a b = ground (
    arith,
    o.differs_sym a.mem_gb b.mem_gb,
    o.less_asym a.mem_gb b.mem_gb,
    str_ltb_asym a.name b.name,
  )

  -- A type may stand before another: it has fewer cores, or as many cores and no more memory, or as
  -- much of both and a name that is not after the other's.
  abbrev pub MayPrecede : TypeInfo F → TypeInfo F → Type 0
  MayPrecede a b =
      (a.cores < b.cores)
      ⊎ ((a.cores ≡ b.cores)
          × (((o.differs a.mem_gb b.mem_gb ≡ true) × (o.less b.mem_gb a.mem_gb ≡ false))
              ⊎ ((o.differs a.mem_gb b.mem_gb ≡ false) × (str_leb a.name b.name ≡ true))))

  abbrev pub IsAscending : List (TypeInfo F) → Type 0
  IsAscending [] = Unit
  IsAscending (a ∷ []) = Unit
  IsAscending (a ∷ b ∷ ts) = MayPrecede a b × IsAscending (b ∷ ts)

  not_larger-MayPrecede : (a b : TypeInfo F) → not_larger o a b ≡ true → MayPrecede a b
  unfolding smaller
  not_larger-MayPrecede a b h = elim (Bool-cases (b.cores == a.cores)) [
    | inr apart ↦ inl (ground (arith, h, apart))
    | inl same ↦
        let cores : a.cores ≡ b.cores = sym ((==_iff b.cores a.cores).0 same) in
        inr (
          cores,
          elim (Bool-cases (o.differs a.mem_gb b.mem_gb)) [
            | inl apart ↦
                inl (apart, ground (arith, h, same, apart, o.differs_sym a.mem_gb b.mem_gb))
            | inr equal ↦
                let later : str_ltb b.name a.name ≡ false =
                  ground (arith, h, same, equal, o.differs_sym a.mem_gb b.mem_gb) in
                inr (equal, str_leb_of_not_ltb a.name b.name later)
          ],
        )
  ]

  sorted-IsAscending : (ts : List (TypeInfo F)) → IsSorted (not_larger o) ts → IsAscending ts
  sorted-IsAscending [] h = tt
  sorted-IsAscending (a ∷ []) h = tt
  sorted-IsAscending (a ∷ b ∷ ts) h =
      (not_larger-MayPrecede a b h.0, sorted-IsAscending (b ∷ ts) h.1)

  -- The candidates are the types of the architecture that are not deprecated and have the cores and
  -- the memory, each as often as it is listed. The smallest come first: each has fewer cores than the
  -- next one, or as many and no more memory, or as much of both and a name that is not after its.
  pub candidates-IsAscending :
      (types : List (TypeInfo F)) (min_cores min_ram_gb : ℕ) (arch : String)
      → Perm
          (candidates o min_cores min_ram_gb arch types)
          (select (meets min_cores min_ram_gb arch) types)
        × IsAscending (candidates o min_cores min_ram_gb arch types)
  unfolding candidates is_candidate
  candidates-IsAscending types min_cores min_ram_gb arch =
      let same =
        select-same (is_candidate o min_cores min_ram_gb arch) (meets min_cores min_ram_gb arch)
          types (λ t. ground arith) in
      (
        subst (Perm (candidates o min_cores min_ram_gb arch types)) same
            (sort-perm (not_larger o) _),
        sorted-IsAscending _ (sort-IsSorted (not_larger o) not_larger_total _),
      )
