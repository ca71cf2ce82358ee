-- ===== src/Client/Plans.antt =====
-- The pairs of a region and a size that the clients' searches go through.
use pandion.Prelude.{
  ◌≡◌, String, Bool, true, not, ◌||◌, List, [], ◌∷◌, arith, eq_refl, All, All-append, All-imp,
  Bool-cases, inl, inr, if◌then◌else◌,
}
use pandion.Prelude.Unique.{contains}
use pandion.Provider.{ServerSpec}
use pandion.Select.Clouds.Digitalocean.{SizeInfo, order_regions, regions_of}
use pandion.Select.Locations.Ordering.{order_locations-contains}
use pandion.Client.Loops.{offered_at, region_plan}
use pandion.Client.Request.{is_strict}
use pandion.Client.Digitalocean.Create.{plan_for}

module _ {A : Type 0} (fits : String → A → Bool) where
  -- A pair with a region of the list, in which the size is offered.
  abbrev pub IsOffered : List String → String × A → Type 0
  IsOffered rs p = (contains rs p.0 ≡ true) × (fits p.0 p.1 ≡ true)

  offered_at-IsOffered :
      (r : String) (rs : List String) (as' : List A)
      → contains rs r ≡ true
      → All (IsOffered rs) (offered_at (fits r) r as')
  unfolding offered_at
  offered_at-IsOffered r rs [] h = tt
  offered_at-IsOffered r rs (a ∷ as') h = elim (Bool-cases (fits r a)) [
    | inl e ↦ rw e ((h, e), offered_at-IsOffered r rs as' h)
    | inr e ↦ rw e (offered_at-IsOffered r rs as' h)
  ]

  pub region_plan-IsOffered :
      (rs : List String) (as' : List A) → All (IsOffered rs) (region_plan fits rs as')
  unfolding region_plan
  region_plan-IsOffered [] as' = tt
  region_plan-IsOffered (r ∷ rs) as' =
      All-append (IsOffered (r ∷ rs)) (offered_at (fits r) r as') (region_plan fits rs as')
        (offered_at-IsOffered r (r ∷ rs) as' (ground (arith, eq_refl r)))
        (All-imp (IsOffered rs) (IsOffered (r ∷ rs)) (region_plan fits rs as')
          (λ p k. (ground (arith, k.0), k.1)) (region_plan-IsOffered rs as'))

-- DigitalOcean's search asks for a size only in a region that offers it and, where the request
-- names regions, only in one of those: a request is never satisfied elsewhere.
pub plan_for-Within :
    {F : Type 0} (region_pref : List String) (spec : ServerSpec) (cands : List (SizeInfo F))
    → All
        (λ p.
          (contains p.1.regions p.0 ≡ true)
          × ((not (is_strict spec) || contains spec.region_pref p.0) ≡ true))
        (plan_for region_pref spec cands)
unfolding plan_for order_regions
plan_for-Within region_pref spec cands =
    let pref = if is_strict spec then spec.region_pref else region_pref in
    let ordered = order_regions (regions_of cands) pref (is_strict spec) in
    let (_, within, _) = order_locations-contains (regions_of cands) pref (is_strict spec) in
    All-imp (IsOffered (λ r s. contains s.regions r) ordered) _
      (region_plan (λ r s. contains s.regions r) ordered cands)
      (λ p k. (k.1, ground (arith, k.0, within p.0)))
      (region_plan-IsOffered (λ r s. contains s.regions r) ordered cands)
