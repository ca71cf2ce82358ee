-- ===== src/Client/Hetzner/Create.antt =====
-- hetzner.go, CreateServer: what is asked for, the search over types and locations, and the wait
-- until the server runs. Times are in nanoseconds.
use pandion.Prelude.{
  ◌*◌, String, true, not, List, [], ◌∷◌, Option, none, some, str_eq, if◌then◌else◌, any,
}
use pandion.Errors.{wrapped, calling, creating}
use pandion.Provider.{Context, Server, ServerSpec}
use pandion.Select.{Ordered}
use pandion.Select.Locations.{SearchMode, order_locations, search_plan}
use pandion.Select.Clouds.Hetzner.{TypeInfo, select_candidates}
use pandion.Client.{Call, pure, fail, wrapping, ◌>>=◌}
use pandion.Client.Loops.{search, wait_until, waited}
use pandion.Client.Names.{server_name}
use pandion.Client.Request.{at_least, image_or, second, is_strict}
use pandion.Prelude.Integer.{ℤ}
use pandion.Client.Hetzner.{
  Api, CreateOpts, Machine, SshKey, arch, is_availability_err, label_cluster_id, to_server,
}
use pandion.Client.Hetzner.Keys.{ensure_login_key}

module _ {F C : Type 0} (o : Ordered F) (api : Api F C) (ctx : Context) where
  unfoldable pub candidates_for : ServerSpec → List (TypeInfo F) → Call C (List String)
  unfolding at_least
  candidates_for spec types =
      if not (str_eq spec.type "")
      then (if any (λ t. str_eq t.name spec.type) types
          then pure (spec.type ∷ [])
          else fail "server type not found")
      else (elim (select_candidates o types (at_least spec.min_cores) (at_least spec.min_ram_gb)
          arch) [ [] ↦ fail "no server type matches spec" | t ∷ ts ↦ pure (t ∷ ts) ])

  unfoldable pub check_running : ℤ → Call C (Option Machine)
  check_running id = do
    found ← api.get_by_id ctx id
    elim found [
      | none ↦ fail "server vanished during boot"
      | some s ↦ elim s.ip [
        | none ↦ pure none
        | some ip ↦ pure (if str_eq s.status "running" then some s else none)
      ]
    ]

  unfoldable pub wait_running : ℤ → Call C (Option Machine)
  unfolding check_running
  wait_running id =
      wait_until ctx (120 * second) (3 * second) "server not running within timeout"
        (check_running id)

  -- One creation of the search.
  abbrev pub create_opts : ServerSpec → ℤ → List SshKey → String × String → CreateOpts
  create_opts spec image keys pair = record {
    name = server_name 63 spec.cluster_id spec.name;
    server_type = pair.0;
    image = image;
    location = pair.1;
    user_data = spec.user_data;
    ssh_keys = keys;
    labels = (label_cluster_id, spec.cluster_id) ∷ [];
    start_after_create = true;
  }

  -- The locations to try, from those that there are.
  unfoldable pub ordered_for : List String → ServerSpec → List String → List String
  ordered_for pref spec locs =
      order_locations locs (if is_strict spec then spec.region_pref else pref) (is_strict spec)

  unfoldable pub login_keys : ServerSpec → Call C (List SshKey)
  login_keys spec = if str_eq spec.login_pub_key "" then pure [] else (do
    k ← wrapping (calling "register login ssh key") (
        ensure_login_key api ctx spec.cluster_id spec.login_pub_key
          ((label_cluster_id, spec.cluster_id) ∷ []))
    pure (k ∷ []))

  unfoldable pub find_image : ServerSpec → Call C ℤ
  unfolding image_or
  find_image spec = do
    found ←
        wrapping (calling "lookup image") (api.image ctx (image_or "ubuntu-24.04" spec.image) arch)
    elim found [ none ↦ fail "image not found for arch" | some i ↦ pure i ]

  -- After a creation that the cloud accepted.
  abbrev pub started : ServerSpec → String × String → ℤ → Call C Server
  started spec pair id = do s ← waited (wait_running id); pure (to_server s spec.cluster_id)

  unfoldable pub search_server :
      ServerSpec → ℤ → List SshKey → List (String × String) → Call C Server
  search_server spec image keys plan =
      search (λ pair. api.create ctx (create_opts spec image keys pair))
        (λ e. is_availability_err (api.message e)) (λ pair e. wrapped (creating pair.0 pair.1) e)
        (started spec) "no available type/location for spec" plan

  unfoldable pub create_server : List String → SearchMode → ServerSpec → Call C Server
  unfolding candidates_for ordered_for find_image login_keys search_server
  create_server pref mode spec = do
    types ← wrapping (calling "list server types") (api.server_types ctx)
    candidates ← candidates_for spec types
    locs ← wrapping (calling "list locations") (api.locations ctx)
    image ← find_image spec
    keys ← login_keys spec
    search_server spec image keys (search_plan candidates (ordered_for pref spec locs) mode)
