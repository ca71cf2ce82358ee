-- ===== src/Client/Digitalocean/Catalog.antt =====
-- digitalocean.go and gpu.go: the catalog of sizes, fetched once, and the names of GPU models.
use text.Mathlib.Text.{starts_with}
use Prim.Native.String.{◌++◌ as append}
use pandion.Prelude.{
  ℕ, ◌/◌, String, Bool, true, false, ◌||◌, List, [], ◌∷◌, none, some, str_eq, ltb, leb,
  if◌then◌else◌, map,
}
use pandion.Provider.{Context, Float, Money}
use pandion.Select.Clouds.Digitalocean.{SizeInfo}
use pandion.Client.{Call, pure, ask, cached, ◌>>=◌}
use pandion.Client.Loops.{pages, waited}
use pandion.Client.Names.{lower_text, trim_space, drop}
use pandion.Client.Digitalocean.{Api, Size, GpuDetail, Client, next_page}

unfoldable pub normalize_gpu_model : String → String
normalize_gpu_model m =
    let s = lower_text (trim_space m) in
    if starts_with s "nvidia_" then drop 7 s else if starts_with s "amd_" then drop 4 s else s

unfoldable pub model_matches : String → String → Bool
unfolding normalize_gpu_model
model_matches want have =
    let w = normalize_gpu_model want in
    let h = normalize_gpu_model have in
    str_eq w h || starts_with h (append w "_") || starts_with w (append h "_")

unfoldable pub vram_gb : ℕ → String → ℕ
vram_gb amount unit =
    let u = lower_text (trim_space unit) in
    if str_eq u "mib" || str_eq u "mb" then amount / 1024 else amount

-- The VRAM of one GPU: the cloud reports that of all.
unfoldable pub vram_each : GpuDetail → ℕ
unfolding vram_gb
vram_each g = elim g.vram [
  | none ↦ 0
  | some (amount, unit) ↦
      if ltb 1 g.count then vram_gb amount unit / g.count else vram_gb amount unit
]

unfoldable pub to_size_info : {F : Type 0} → Size F → SizeInfo F
unfolding vram_each
to_size_info {F} s =
    let plain : SizeInfo F = record {
      slug = s.slug;
      vcpus = s.vcpus;
      mem_mb = s.memory;
      price_hourly = s.price_hourly;
      regions = s.regions;
      available = s.available;
      gpu = false;
      gpu_model = "";
      gpu_count = 0;
      gpu_vram = 0;
    } in
    elim s.gpu_info [
      | none ↦ plain
      | some g ↦ record plain {
        gpu = true;
        gpu_model = g.model;
        gpu_count = g.count;
        gpu_vram = vram_each g;
      }
    ]

unfoldable pub gpu_image_for : {F : Type 0} → SizeInfo F → String
gpu_image_for s =
    if starts_with (lower_text s.gpu_model) "amd"
    then "gpu-amd-base"
    else if leb 8 s.gpu_count
    then "gpu-h100x8-base"
    else "gpu-h100x1-base"

module _ {F C : Type 0} (api : Api F C) (limit : ℕ) (ctx : Context) where
  unfoldable pub fetch_sizes : Call C (List (SizeInfo F))
  unfolding to_size_info
  fetch_sizes = do
    all ← waited (pages (λ t. next_page (api.sizes ctx t)) limit 0 [])
    pure (map to_size_info all)

  unfoldable pub sizes : Call (Client F C) (List (SizeInfo F))
  unfolding fetch_sizes
  sizes = cached (λ k. k) (λ s k. some s) (ask fetch_sizes)

module _ {F : Type 0} (fl : Float F) where
  abbrev pub no_money : Money F
  no_money = record { amount = fl.zero_float; currency = "" }

  -- The loop over the sizes.
  unfoldable pub price_of : String → List (SizeInfo F) → Money F
  price_of slug [] = no_money
  price_of slug (s ∷ ss) =
      let rest = price_of slug ss in
      if str_eq s.slug slug
      then (if fl.at_most s.price_hourly fl.zero_float
          then no_money
          else record { amount = s.price_hourly; currency = "USD" })
      else rest
