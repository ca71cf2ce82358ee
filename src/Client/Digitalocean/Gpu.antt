-- ===== src/Client/Digitalocean/Gpu.antt =====
-- gpu.go: the sizes with a GPU that meet a request, and the offerings of them.
use pandion.Prelude.{
  ℕ, String, Bool, true, false, not, ◌&&◌, ◌||◌, List, [], ◌∷◌, Option, none, some, str_eq, ltb,
  ◌==◌, if◌then◌else◌, select, map,
}
use pandion.Prelude.Unique.{contains}
use pandion.Provider.{Context, GpuReq, GpuInfo, GpuOffering}
use pandion.Select.{Ordered}
use pandion.Select.Prices.{cheapest_first}
use pandion.Select.Clouds.Digitalocean.{SizeInfo}
use pandion.Client.{Call, pure, fail, ◌>>=◌}
use pandion.Client.Digitalocean.{Api, Client}
use pandion.Client.Digitalocean.Catalog.{sizes, normalize_gpu_model, model_matches, gpu_image_for}

unfoldable pub pick_region : List String → List String → String
pick_region avail [] = elim avail [ [] ↦ "" | a ∷ as' ↦ a ]
pick_region avail (p ∷ ps) = let rest = pick_region avail ps in if contains avail p then p else rest

module _ {F : Type 0} where
  -- The body of the loop of selectGPUSizes.
  unfoldable pub is_requested : GpuReq → String → SizeInfo F → Bool
  unfolding model_matches normalize_gpu_model
  is_requested req region s =
      if not s.gpu || not s.available
      then false
      else if not (str_eq req.model "")
          && not (model_matches req.model (normalize_gpu_model s.gpu_model))
      then false
      else if ltb 0 req.count && not (s.gpu_count == req.count)
      then false
      else if ltb 0 req.min_vram && ltb s.gpu_vram req.min_vram
      then false
      else if not (str_eq region "") && not (contains s.regions region)
      then false
      else true

  unfoldable pub select_gpu_sizes :
      Ordered F → List (SizeInfo F) → GpuReq → String → List (SizeInfo F)
  unfolding is_requested
  select_gpu_sizes o sizes req region =
      cheapest_first o (λ s. s.price_hourly) (λ s. s.slug) (select (is_requested req region) sizes)

  abbrev gpu_of : SizeInfo F → GpuInfo
  gpu_of s = record {
    model = normalize_gpu_model s.gpu_model;
    count = s.gpu_count;
    vram = s.gpu_vram;
  }

  unfoldable pub to_offering : SizeInfo F → GpuOffering F
  unfolding normalize_gpu_model gpu_image_for
  to_offering s = record {
    server_type = s.slug;
    gpu = gpu_of s;
    regions = s.regions;
    hourly = record { amount = s.price_hourly; currency = "USD" };
    image = gpu_image_for s;
  }

  unfoldable pub offerings : Ordered F → List (SizeInfo F) → List (GpuOffering F)
  unfolding to_offering
  offerings o sizes =
      cheapest_first o (λ g. g.hourly.amount) (λ g. g.server_type)
        (map to_offering (select (λ s. s.gpu && s.available) sizes))

  unfoldable pub gpu_offering_satisfies : GpuOffering F → GpuReq → Bool
  unfolding model_matches
  gpu_offering_satisfies g req =
      if not (str_eq req.model "") && not (model_matches req.model g.gpu.model)
      then false
      else if ltb 0 req.min_vram && ltb g.gpu.vram req.min_vram
      then false
      else if ltb 0 req.count && not (g.gpu.count == req.count)
      then false
      else true

  -- The loop of ResolveGPUType: a type and a region.
  unfoldable pub first_offering :
      GpuReq → List String → List (GpuOffering F) → Option (String × String)
  unfolding gpu_offering_satisfies pick_region
  first_offering req pref [] = none
  first_offering req pref (g ∷ gs) =
      let rest = first_offering req pref gs in
      if gpu_offering_satisfies g req && not (str_eq (pick_region g.regions pref) "")
      then some (g.server_type, pick_region g.regions pref)
      else rest

module _ {F C : Type 0} (o : Ordered F) (api : Api F C) (limit : ℕ) (ctx : Context) where
  unfoldable pub gpu_offerings : Call (Client F C) (List (GpuOffering F))
  unfolding sizes offerings
  gpu_offerings = do all ← sizes api limit ctx; pure (offerings o all)

  unfoldable pub resolve_gpu_type :
      List String → GpuReq → List String → Call (Client F C) (String × String)
  unfolding gpu_offerings first_offering
  resolve_gpu_type region_pref req pref = do
    offs ← gpu_offerings
    elim (first_offering req (elim pref [ [] ↦ region_pref | r ∷ rs ↦ r ∷ rs ]) offs) [
      | none ↦ fail "no GPU size with capacity matches"
      | some found ↦ pure found
    ]
