-- ===== src/Client/Linode/Create.antt =====
-- linode.go, CreateServer: the search over regions and types, and the wait until the instance runs.
use Prim.Native.String.{slice, ◌++◌ as append}
use pandion.Prelude.{
  ℕ, zero, suc, ◌+◌, ◌*◌, String, Bool, true, not, ◌&&◌, List, [], ◌∷◌, Option, none, some, str_eq,
  if◌then◌else◌,
}
use pandion.Prelude.Integer.{ℤ}
use pandion.Errors.{wrapped, creating}
use pandion.Provider.{Context, Server, ServerSpec, Float}
use pandion.Select.{Ordered}
use pandion.Select.Clouds.Linode.{TypeInfo, select_types, order_regions}
use pandion.Client.{Call, pure, fail, ask, ◌>>=◌}
use pandion.Client.Loops.{search, wait_until, waited, region_plan}
use pandion.Client.Names.{server_name, cluster_tag, tag_all, trim_space}
use pandion.Client.Request.{at_least, image_or, is_strict, second}
use pandion.Client.Linode.{
  Api, Client, CreateOptions, Instance, is_availability_err, public_ip, to_server,
}
use pandion.Client.Linode.Catalog.{types, candidate_regions}

abbrev alphabet : String
alphabet = "abcdefghijklmnopqrstuvwxyzABCDEFGHIJKLMNOPQRSTUVWXYZ0123456789!@#$%^&*-_"

module _ {F : Type 0} where
  unfoldable pub named : String → List (TypeInfo F) → List (TypeInfo F)
  named id [] = []
  named id (t ∷ ts) = let rest = named id ts in if str_eq t.id id then t ∷ [] else rest

  abbrev pub found_or : {C : Type 0} → String → List (TypeInfo F) → Call C (List (TypeInfo F))
  found_or text [] = fail text
  found_or text (t ∷ ts) = pure (t ∷ ts)

  unfoldable pub candidates_for :
      {C : Type 0} → Ordered F → ServerSpec → List (TypeInfo F) → Call C (List (TypeInfo F))
  unfolding named at_least
  candidates_for o spec all =
      if not (str_eq spec.type "")
      then found_or "type not found" (named spec.type all)
      else found_or "no type matches spec"
          (select_types o all (at_least spec.min_cores) (at_least spec.min_ram_gb * 1024))

abbrev pub need_metadata : ServerSpec → Bool
need_metadata spec = not (str_eq spec.user_data "")

module _ {F C : Type 0} (fl : Float F) (o : Ordered F) (api : Api F C) (ctx : Context) where
  -- randomRootPass: the bytes that are left.
  unfoldable pub random_text : ℕ → Call C String
  random_text zero = pure ""
  random_text (suc left) = do
    i ← api.random 72
    rest ← random_text left
    pure (append (slice alphabet i (i + 1)) rest)

  unfoldable pub check_running : ℤ → Call C (Option Instance)
  unfolding public_ip
  check_running id = do
    i ← api.get_instance ctx id
    pure (if str_eq i.status "running" && not (str_eq (public_ip i.ipv4) "") then some i else none)

  unfoldable pub wait_running : ℤ → Call C (Option Instance)
  unfolding check_running
  wait_running id =
      wait_until ctx (240 * second) (4 * second) "instance not running within timeout"
        (check_running id)

  unfoldable pub create_options : ServerSpec → String → String × TypeInfo F → CreateOptions
  unfolding image_or
  create_options spec root_pass pair = record {
    region = pair.0;
    type = pair.1.id;
    label = server_name 64 spec.cluster_id spec.name;
    image = image_or "linode/ubuntu24.04" spec.image;
    root_pass = root_pass;
    authorized_keys =
        (if str_eq spec.login_pub_key "" then [] else trim_space spec.login_pub_key ∷ []);
    tags = tag_all ∷ cluster_tag spec.cluster_id ∷ [];
    metadata = (if need_metadata spec then some (api.base64 spec.user_data) else none);
    booted = true;
  }

  unfoldable pub plan_for :
      List String → ServerSpec → List String → List (TypeInfo F) → List (String × TypeInfo F)
  plan_for region_pref spec regions cands =
      let strict = is_strict spec in
      region_plan (λ r t. true)
        (order_regions regions (if strict then spec.region_pref else region_pref) strict) cands

  -- After a creation that the cloud accepted.
  abbrev pub started : ServerSpec → String × TypeInfo F → ℤ → Call C Server
  started spec pair id = do i ← waited (wait_running id); pure (to_server i spec.cluster_id)

  unfoldable pub search_server : ServerSpec → String → List (String × TypeInfo F) → Call C Server
  unfolding create_options
  search_server spec root_pass plan =
      search (λ pair. api.create_instance ctx (create_options spec root_pass pair))
        (λ e. is_availability_err (api.message e)) (λ pair e. wrapped (creating pair.1.id pair.0) e)
        (started spec) "no available type/region for spec" plan

  unfoldable pub create_server : List String → ServerSpec → Call (Client F C) Server
  unfolding candidates_for plan_for random_text search_server
  create_server region_pref spec = do
    all ← types fl api ctx
    cands ← candidates_for o spec all
    regions ← candidate_regions fl api ctx (need_metadata spec)
    root_pass ← ask (random_text 32)
    ask (search_server spec root_pass (plan_for region_pref spec regions cands))
