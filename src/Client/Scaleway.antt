-- ===== src/Client/Scaleway.antt =====
-- internal/provider/scaleway/scaleway.go: the client of Scaleway. Its library (scaleway-sdk-go) is
-- the parameter `Api`. Listings are by pages of a hundred, and end with a page that is not full.
pub mod Catalog
pub mod Keys
pub mod Create
pub mod Teardown
use pandion.Prelude.{
  ℕ, ◌+◌, String, Bool, true, false, ◌&&◌, ◌||◌, List, [], ◌∷◌, Option, none, some, str_eq, ltb,
  ◌==◌, length, if◌then◌else◌,
}
use pandion.Prelude.Dict.{Dict}
use pandion.Errors.{Result, Error}
use pandion.Provider.{Context, Server, no_gpu_info}
use pandion.Select.Clouds.Scaleway.{TypeInfo}
use pandion.Client.{Call, Cached, pure, ◌>>=◌}
use pandion.Client.Names.{contains_any, contains_text, lower_text, recover_cluster_id}

-- An address of a server: its text, "" where it is empty, and whether its family is inet.
pub record Ip : Type 0 where
  pub address : String
  pub is_inet : Bool

pub record Volume : Type 0 where
  pub id : String
  pub volume_type : String

pub record Instance : Type 0 where
  pub id : String
  pub name : String
  pub tags : List String
  pub commercial_type : String
  pub zone : String
  pub created : Option ℕ
  pub public_ip : Option Ip
  pub public_ips : List (Option Ip)
  pub volumes : List (Option Volume)

pub record ServerType (F : Type 0) : Type 0 where
  pub ncpus : ℕ
  -- in bytes
  pub ram : ℕ
  pub hourly_price : F
  pub end_of_service : Bool
  pub gpu : Option ℕ

pub record Key : Type 0 where
  pub id : String
  pub name : String
  pub public_key : String

pub record CreateRequest : Type 0 where
  pub zone : String
  pub name : String
  pub commercial_type : String
  pub image : String
  pub tags : List String

pub data Action : Type 0 where
  poweron terminate : Action

-- The calls of scaleway-sdk-go, and what errors.As finds in an error: whether there is a
-- ResourceNotFoundError, and the status of a ResponseError.
pub record Api (F C : Type 0) : Type 0 where
  pub message : Error → String
  pub is_resource_not_found : Error → Bool
  pub status : Error → Option ℕ
  pub create : CreateRequest → Call C String
  pub set_user_data : String → String → String → String → Call C (Unit {0})
  pub action_and_wait : String → String → Action → ℕ → Call C (Unit {0})
  pub get : String → String → Call C (Option Instance)
  pub delete_volume : String → String → Call C (Unit {0})
  pub list_servers : String → String → ℕ → Call C (List Instance)
  pub list_types : String → ℕ → Call C (Dict (ServerType F))
  pub list_keys : Context → String → ℕ → Call C (List (Option Key))
  pub create_key : Context → String → String → String → Call C (Unit {0})
  pub delete_key : Context → String → Call C (Unit {0})

-- What the client keeps: the types by zone.
abbrev pub Client : Type 0 → Type 0 → Type 0
Client F C = Cached (Dict (List (TypeInfo F))) C

-- New, without options
abbrev pub zones : List String
zones = "fr-par-1" ∷ "nl-ams-1" ∷ "pl-waw-1" ∷ []

abbrev pub per_page : ℕ
per_page = 100

-- The page to ask for next.
abbrev pub next_page : {A C : Type 0} → (ℕ → Call C (List A)) → ℕ → Call C (List A × Option ℕ)
next_page list page = do
  l ← list page
  pure (l, (if ltb (length l) per_page then none else some (page + 1)))

abbrev own_ip : Option Ip → String
own_ip none = ""
own_ip (some ip) = ip.address

unfoldable pub first_inet : List (Option Ip) → String
first_inet [] = ""
first_inet (none ∷ ips) = first_inet ips
first_inet (some ip ∷ ips) =
    let rest = first_inet ips in
    if str_eq ip.address "" then rest else if ip.is_inet then ip.address else rest

unfoldable pub public_ip : Instance → String
unfolding first_inet
public_ip s = if str_eq (own_ip s.public_ip) "" then first_inet s.public_ips else own_ip s.public_ip

unfoldable pub to_server : Instance → Server
unfolding public_ip
to_server s = record {
  id = s.id;
  name = s.name;
  cluster_id = recover_cluster_id s.tags;
  type = s.commercial_type;
  region = s.zone;
  ip = public_ip s;
  created = s.created;
  gpu = no_gpu_info;
}

unfoldable pub block_volume_ids : List (Option Volume) → List String
block_volume_ids [] = []
block_volume_ids (none ∷ vs) = block_volume_ids vs
block_volume_ids (some v ∷ vs) =
    let rest = block_volume_ids vs in
    if str_eq v.volume_type "sbs_volume" || str_eq v.volume_type "b_ssd" then v.id ∷ rest else rest

unfoldable pub is_availability_err : String → Bool
is_availability_err message =
    contains_any
      ("out of stock" ∷ "no capacity" ∷ "not available" ∷ "unavailable" ∷ "insufficient"
        ∷ "shortage" ∷ [])
      (lower_text message)

abbrev is_status : ℕ → Option ℕ → Bool
is_status code none = false
is_status code (some s) = s == code

unfoldable pub is_not_found_err : {F C : Type 0} → Api F C → Error → Bool
is_not_found_err api e =
    api.is_resource_not_found e
    || is_status 404 (api.status e)
    || contains_text (lower_text (api.message e)) "not found"
