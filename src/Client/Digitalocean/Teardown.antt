-- ===== src/Client/Digitalocean/Teardown.antt =====
-- digitalocean.go: destroying and listing droplets, the key that is left, and prices.
use pandion.Prelude.{
  ℕ, ◌*◌, String, Bool, false, not, List, [], ◌∷◌, Option, none, some, str_eq, ◌==◌, if◌then◌else◌,
  map, select,
}
use pandion.Prelude.Integer.{ℤ, parse_int}
use pandion.Errors.{Result, ok, err, Error}
use pandion.Provider.{Context, Server, ServerSpec, Provider, Pricer, Float, Money, wanted}
use pandion.Select.{Ordered}
use pandion.Select.Clouds.Digitalocean.{SizeInfo, select_sizes}
use pandion.Client.{Call, pure, raise, fail, try, settle, delete_each, ask, ◌>>=◌}
use pandion.Client.Loops.{pages, waited}
use pandion.Client.Names.{cluster_tag, tag_all, recover_cluster_id, login_key_name}
use pandion.Client.Request.{at_least, first_region}
use pandion.Client.Digitalocean.{Api, Client, Droplet, next_page, to_server}
use pandion.Client.Digitalocean.Catalog.{sizes, price_of, no_money}
use pandion.Client.Digitalocean.Gpu.{select_gpu_sizes}
use pandion.Client.Digitalocean.Keys.{all_keys}
use pandion.Client.Digitalocean.Create.{create_server}

abbrev is_status : ℕ → Option ℕ → Bool
is_status code none = false
is_status code (some s) = s == code

module _ {F C : Type 0} (api : Api F C) (limit : ℕ) (ctx : Context) where
  -- A deletion of a droplet that is not there succeeds.
  unfoldable pub delete_droplet : ℤ → Call C (Unit {0})
  delete_droplet id = do
    r ← try (api.delete ctx id)
    elim r [ ok u ↦ pure tt | err e ↦ if is_status 404 (api.status e) then pure tt else raise e ]

  unfoldable pub destroy_server : String → Call C (Unit {0})
  unfolding delete_droplet
  destroy_server id = elim (parse_int id) [
    | none ↦ fail "invalid droplet id"
    | some did ↦ delete_droplet did
  ]

  unfoldable pub droplets_by_tag : String → Call C (List Droplet)
  droplets_by_tag tag = waited (pages (λ t. next_page (api.droplets_by_tag ctx tag t)) limit 0 [])

  unfoldable pub list_by_tag : String → Call C (List Server)
  unfolding droplets_by_tag
  list_by_tag cluster_id = do
    found ← droplets_by_tag (cluster_tag cluster_id)
    pure (map (λ d. to_server d cluster_id) found)

  unfoldable pub list_all_tagged : Call C (List Server)
  unfolding droplets_by_tag
  list_all_tagged = do
    found ← droplets_by_tag tag_all
    pure (map (λ d. to_server d (recover_cluster_id d.tags)) found)

  unfoldable pub reap_aux : String → Call C (Unit {0})
  reap_aux cluster_id = do
    keys ← all_keys api limit ctx
    first ←
        delete_each (λ k. api.delete_key ctx k.id) (ok tt)
          (select (λ k. str_eq k.name (login_key_name cluster_id)) keys)
    settle first

abbrev pub digitalocean :
    {F C : Type 0} → Ordered F → Api F C → ℕ → List String → Provider (Client F C)
digitalocean o api limit region_pref = record {
  name = "digitalocean";
  create_server = λ ctx spec. create_server o api limit ctx region_pref spec;
  destroy_server = λ ctx id. ask (destroy_server api limit ctx id);
  list_by_tag = λ ctx id. ask (list_by_tag api limit ctx id);
  list_all_tagged = λ ctx. ask (list_all_tagged api limit ctx);
  reap_aux = some (λ ctx id. ask (reap_aux api limit ctx id));
}

module _ {F C : Type 0} (fl : Float F) (o : Ordered F) (api : Api F C) (limit : ℕ)
    (ctx : Context) where
  unfoldable pub hourly_price : String → Call (Client F C) (Money F)
  unfolding sizes price_of
  hourly_price slug = do all ← sizes api limit ctx; pure (price_of fl slug all)

  -- The size to price, where one fits.
  unfoldable pub plain_slug : ServerSpec → List (SizeInfo F) → Option String
  unfolding at_least
  plain_slug spec all =
      elim (select_sizes o all (at_least spec.min_cores) (at_least spec.min_ram_gb * 1024)
        (first_region spec)) [ [] ↦ none | s ∷ ss ↦ some s.slug ]

  unfoldable pub slug_for : ServerSpec → List (SizeInfo F) → Result (Option String)
  unfolding plain_slug wanted
  slug_for spec all =
      if not (str_eq spec.type "")
      then ok (some spec.type)
      else if wanted spec.gpu
      then (elim (select_gpu_sizes o all spec.gpu "") [
        | [] ↦ err (Error.reported "no GPU size matches the request")
        | s ∷ ss ↦ ok (some s.slug)
      ])
      else ok (plain_slug spec all)

  unfoldable pub estimate_hourly : ServerSpec → Call (Client F C) (Money F)
  unfolding slug_for hourly_price
  estimate_hourly spec = do
    all ← sizes api limit ctx
    slug ← settle (slug_for spec all)
    elim slug [ none ↦ pure (no_money fl) | some s ↦ hourly_price s ]

abbrev pub pricer : {F C : Type 0} → Float F → Ordered F → Api F C → ℕ → Pricer F (Client F C)
pricer fl o api limit = record {
  hourly_price = λ ctx slug region. hourly_price fl o api limit ctx slug;
  estimate_hourly = λ ctx spec. estimate_hourly fl o api limit ctx spec;
}
