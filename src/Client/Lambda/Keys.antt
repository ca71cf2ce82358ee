-- ===== src/Client/Lambda/Keys.antt =====
-- gpu.go: the login key, found by its material or registered under its fingerprint.
use Prim.Native.String.{◌++◌ as append}
use pandion.Prelude.{
  String, Bool, not, ◌&&◌, List, [], ◌∷◌, Option, none, some, str_eq, if◌then◌else◌,
}
use pandion.Errors.{calling}
use pandion.Provider.{Context}
use pandion.Client.{Call, pure, fail, wrapping, ◌>>=◌}
use pandion.Client.Names.{field, skip_space, after_field, trim_space, sanitize_words}
use pandion.Client.Lambda.{Api, Config, Client, SshKey, get_keys, post_key}
use pandion.Client.Lambda.Http.{request}

-- The type and the body of a public key, or "".
unfoldable pub key_material : String → String
key_material pub_key =
    let s = trim_space pub_key in
    let body = field (skip_space (after_field s)) in
    if str_eq body "" then "" else append (field s) (append " " body)

unfoldable pub same_key : String → String → Bool
unfolding key_material
same_key a b = str_eq (key_material a) (key_material b) && not (str_eq (key_material a) "")

-- The loop over the registered keys.
unfoldable pub registered : String → List SshKey → Option SshKey
unfolding same_key
registered pub_key [] = none
registered pub_key (k ∷ ks) =
    let rest = registered pub_key ks in if same_key k.public_key pub_key then some k else rest

module _ {C : Type 0} (api : Api C) (cfg : Config) (ctx : Context) where
  abbrev key_name : String → String → String
  key_name cluster_id pub_key =
      append "pandion-"
        (append (sanitize_words cluster_id) (append "-" (api.digest (key_material pub_key))))

  unfoldable pub register : String → String → Call (Client C) (List String)
  register name pub_key = do
    made ←
        wrapping (calling "register ssh key")
          (request api cfg ctx (post_key (record { name = name; public_key = pub_key })))
    pure (name ∷ [])

  unfoldable pub ensure_trimmed : String → String → Call (Client C) (List String)
  unfolding registered register
  ensure_trimmed cluster_id pub_key =
      if str_eq pub_key "" then fail "no login public key to register" else (do
        a ← wrapping (calling "list ssh keys") (request api cfg ctx get_keys)
        elim (registered pub_key a.keys) [
          | some k ↦ pure (k.name ∷ [])
          | none ↦ register (key_name cluster_id pub_key) pub_key
        ])

  unfoldable pub ensure_login_key : String → String → Call (Client C) (List String)
  unfolding ensure_trimmed
  ensure_login_key cluster_id pub_key = ensure_trimmed cluster_id (trim_space pub_key)
