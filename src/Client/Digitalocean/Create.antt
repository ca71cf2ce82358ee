-- ===== src/Client/Digitalocean/Create.antt =====
-- digitalocean.go, CreateServer: the sizes asked for, the search over regions and sizes, and the
-- wait until the droplet is active.
use pandion.Prelude.{
  ℕ, ◌*◌, String, not, ◌&&◌, List, [], ◌∷◌, Option, none, some, str_eq, if◌then◌else◌,
}
use pandion.Prelude.Integer.{ℤ}
use pandion.Prelude.Unique.{contains}
use pandion.Errors.{Error, wrapped, calling, creating}
use pandion.Provider.{Context, Server, ServerSpec, wanted}
use pandion.Select.{Ordered}
use pandion.Select.Clouds.Digitalocean.{SizeInfo, select_sizes, regions_of, order_regions}
use pandion.Client.{Call, pure, fail, wrapping, ask, ◌>>=◌}
use pandion.Client.Loops.{search, wait_until, waited, region_plan}
use pandion.Client.Names.{server_name, cluster_tag, tag_all}
use pandion.Client.Request.{at_least, image_or, is_strict, second}
use pandion.Client.Digitalocean.{
  Api, Client, CreateRequest, Droplet, is_availability_err, is_gpu_quota_err, to_server,
}
use pandion.Client.Digitalocean.Catalog.{sizes, gpu_image_for, normalize_gpu_model}
use pandion.Client.Digitalocean.Gpu.{select_gpu_sizes}
use pandion.Client.Digitalocean.Keys.{ensure_login_key}

module _ {F : Type 0} where
  -- The loop for an exact size.
  unfoldable pub named : String → List (SizeInfo F) → List (SizeInfo F)
  named slug [] = []
  named slug (s ∷ ss) = let rest = named slug ss in if str_eq s.slug slug then s ∷ [] else rest

  abbrev pub found_or : {C : Type 0} → String → List (SizeInfo F) → Call C (List (SizeInfo F))
  found_or text [] = fail text
  found_or text (s ∷ ss) = pure (s ∷ ss)

  unfoldable pub candidates_for :
      {C : Type 0} → Ordered F → ServerSpec → List (SizeInfo F) → Call C (List (SizeInfo F))
  unfolding named at_least wanted
  candidates_for o spec all =
      if not (str_eq spec.type "")
      then found_or "size not found" (named spec.type all)
      else if wanted spec.gpu
      then found_or "no GPU size matches" (select_gpu_sizes o all spec.gpu "")
      else found_or "no size matches spec"
          (select_sizes o all (at_least spec.min_cores) (at_least spec.min_ram_gb * 1024) "")

  -- GPU droplets have base images of their own, unless the request names one.
  unfoldable pub image_for : ServerSpec → SizeInfo F → String
  unfolding image_or
  image_for spec s =
      if s.gpu && str_eq spec.image ""
      then gpu_image_for s
      else image_or "ubuntu-24-04-x64" spec.image

  unfoldable pub create_request : ServerSpec → List ℤ → String × SizeInfo F → CreateRequest
  unfolding image_for
  create_request spec keys pair = record {
    name = server_name 63 spec.cluster_id spec.name;
    region = pair.0;
    size = pair.1.slug;
    image = image_for spec pair.1;
    ssh_keys = keys;
    tags = tag_all ∷ cluster_tag spec.cluster_id ∷ [];
    user_data = spec.user_data;
  }

  unfoldable pub plan_for :
      List String → ServerSpec → List (SizeInfo F) → List (String × SizeInfo F)
  plan_for region_pref spec cands =
      let strict = is_strict spec in
      region_plan (λ r s. contains s.regions r)
        (order_regions (regions_of cands) (if strict then spec.region_pref else region_pref) strict)
        cands

  unfoldable pub with_gpu : SizeInfo F → Server → Server
  with_gpu s srv =
      if s.gpu
      then record srv {
        gpu = record {
          model = normalize_gpu_model s.gpu_model;
          count = s.gpu_count;
          vram = s.gpu_vram;
        };
      }
      else srv

module _ {F C : Type 0} (o : Ordered F) (api : Api F C) (limit : ℕ) (ctx : Context) where
  unfoldable pub check_active : ℤ → Call C (Option Droplet)
  check_active id = do
    d ← api.get ctx id
    pure (elim d.public_ip [
      | none ↦ none
      | some ip ↦ if str_eq d.status "active" && not (str_eq ip "") then some d else none
    ])

  unfoldable pub wait_active : ℤ → Call C (Option Droplet)
  unfolding check_active
  wait_active id =
      wait_until ctx (180 * second) (3 * second) "droplet not active within timeout"
        (check_active id)

  unfoldable pub login_keys : ServerSpec → Call C (List ℤ)
  login_keys spec = if str_eq spec.login_pub_key "" then pure [] else (do
    k ←
        wrapping (calling "register login ssh key")
          (ensure_login_key api limit ctx spec.cluster_id spec.login_pub_key)
    pure (k.id ∷ []))

  -- After a creation that the cloud accepted.
  abbrev pub started : ServerSpec → String × SizeInfo F → ℤ → Call C Server
  started spec pair id = do
    d ← waited (wait_active id)
    pure (with_gpu pair.1 (to_server d spec.cluster_id))

  -- The error of a creation that ends the search.
  unfoldable pub explain : String × SizeInfo F → Error → Error
  explain pair e =
      let at_pair = wrapped (creating pair.1.slug pair.0) e in
      if pair.1.gpu && is_gpu_quota_err (api.message e)
      then wrapped (calling "GPU Droplets need account approval") at_pair
      else at_pair

  unfoldable pub search_server : ServerSpec → List ℤ → List (String × SizeInfo F) → Call C Server
  unfolding create_request explain
  search_server spec keys plan =
      search (λ pair. api.create ctx (create_request spec keys pair))
        (λ e. is_availability_err (api.message e)) explain (started spec)
        "no available size/region for spec" plan

  unfoldable pub create_server : List String → ServerSpec → Call (Client F C) Server
  unfolding candidates_for plan_for login_keys search_server
  create_server region_pref spec = do
    all ← sizes api limit ctx
    cands ← candidates_for o spec all
    keys ← ask (login_keys spec)
    ask (search_server spec keys (plan_for region_pref spec cands))
