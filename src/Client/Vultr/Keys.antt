-- ===== src/Client/Vultr/Keys.antt =====
-- vultr.go: the cluster's login key, found by its name or its material, or created.
use pandion.Prelude.{ℕ, String, ◌||◌, List, [], ◌∷◌, str_eq, if◌then◌else◌}
use pandion.Errors.{ok, err, Error}
use pandion.Provider.{Context}
use pandion.Client.{Call, pure, raise, try, ◌>>=◌}
use pandion.Client.Loops.{pages, waited}
use pandion.Client.Names.{key_material, login_key_name}
use pandion.Client.Vultr.{Api, SshKey, next_cursor}

-- The loop of findKey; "" for no key.
unfoldable pub matching_key : String → String → List SshKey → String
matching_key name want [] = ""
matching_key name want (k ∷ ks) =
    let rest = matching_key name want ks in
    if str_eq k.name name || str_eq (key_material k.ssh_key) want then k.id else rest

module _ {F C : Type 0} (api : Api F C) (limit : ℕ) (ctx : Context) where
  unfoldable pub all_keys : Call C (List SshKey)
  all_keys = waited (pages (λ t. next_cursor (api.keys ctx t)) limit "" [])

  unfoldable pub find_key : String → String → Call C String
  unfolding all_keys matching_key
  find_key name pub_key = do
    r ← try all_keys
    elim r [ err e ↦ pure "" | ok keys ↦ pure (matching_key name (key_material pub_key) keys) ]

  -- After a creation that failed with `e`.
  unfoldable pub refetch_key : String → String → Error → Call C String
  unfolding find_key
  refetch_key name pub_key e = do
    id ← find_key name pub_key
    if str_eq id "" then raise e else pure id

  unfoldable pub create_key : String → String → Call C String
  unfolding refetch_key
  create_key name pub_key = do
    made ← try (api.create_key ctx name pub_key)
    elim made [ ok id ↦ pure id | err e ↦ refetch_key name pub_key e ]

  unfoldable pub ensure_login_key : String → String → Call C String
  unfolding find_key create_key
  ensure_login_key cluster_id pub_key = do
    id ← find_key (login_key_name cluster_id) pub_key
    if str_eq id "" then create_key (login_key_name cluster_id) pub_key else pure id
