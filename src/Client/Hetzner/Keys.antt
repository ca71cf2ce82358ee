-- ===== src/Client/Hetzner/Keys.antt =====
-- hetzner.go, ensureLoginKey: the cluster's login key, found by its name or created, and found by
-- its material where the cloud already has it under another name.
use Prim.Native.String.{◌++◌ as append}
use pandion.Prelude.{String, List, [], ◌∷◌, Option, none, some, str_eq, if◌then◌else◌}
use pandion.Prelude.Dict.{Dict}
use pandion.Errors.{ok, err, Error}
use pandion.Provider.{Context}
use pandion.Client.{Call, pure, raise, try, ◌>>=◌}
use pandion.Client.Names.{key_material}
use pandion.Client.Hetzner.{Api, SshKey}

-- The loop over all keys.
unfoldable pub same_material : String → List SshKey → Option SshKey
same_material want [] = none
same_material want (k ∷ ks) =
    let rest = same_material want ks in
    if str_eq (key_material k.public_key) want then some k else rest

abbrev pub login_key : String → String
login_key cluster_id = append "pandion-login-" cluster_id

module _ {F C : Type 0} (api : Api F C) (ctx : Context) where
  -- After a creation that failed with `e`, and no key of the name.
  unfoldable pub reuse_key : String → Error → Call C SshKey
  unfolding same_material
  reuse_key pub_key e = do
    all ← try (api.all_keys ctx)
    elim all [
      | err x ↦ raise e
      | ok keys ↦ elim (same_material (key_material pub_key) keys) [
        | none ↦ raise e
        | some k ↦ pure k
      ]
    ]

  unfoldable pub lost_race : String → String → Error → Call C SshKey
  unfolding reuse_key
  lost_race name pub_key e = do
    found ← try (api.key_by_name ctx name)
    elim found [
      | err x ↦ reuse_key pub_key e
      | ok none ↦ reuse_key pub_key e
      | ok (some k) ↦ pure k
    ]

  unfoldable pub ensure_login_key : String → String → Dict String → Call C SshKey
  unfolding lost_race
  ensure_login_key cluster_id pub_key labels = do
    found ← api.key_by_name ctx (login_key cluster_id)
    elim found [
      | some k ↦ pure k
      | none ↦ do
        made ← try (api.create_key ctx (login_key cluster_id) pub_key labels)
        elim made [ ok k ↦ pure k | err e ↦ lost_race (login_key cluster_id) pub_key e ]
    ]
