-- ===== src/Client/Hetzner.antt =====
-- internal/provider/hetzner/hetzner.go: the client of Hetzner's cloud. Its library (hcloud-go) is
-- the parameter `Api`, a record of the calls that the code makes; nil is `none`.
pub mod Keys
pub mod Create
pub mod Teardown
pub mod Walls
pub mod Prices
pub mod Placed
pub mod Refined
pub mod Reaped
pub mod Destroyed
pub mod Contracted
use pandion.Prelude.{
  ℕ, ◌*◌, String, Bool, true, not, ◌&&◌, List, [], ◌∷◌, Option, none, some, str_eq, map,
  if◌then◌else◌,
}
use pandion.Prelude.Dict.{Dict, lookup}
use pandion.Prelude.Integer.{ℤ, format_int}
use pandion.Errors.{Result, Error}
use pandion.Provider.{Context, Server, no_gpu_info}
use pandion.Select.Clouds.Hetzner.{TypeInfo}
use pandion.Client.{Call}
use pandion.Client.Names.{contains_any, lower_text}

pub record Datacenter : Type 0 where
  pub name : String
  pub location : Option String

-- hcloud.Server; locations and types by name
pub record Machine : Type 0 where
  pub id : ℤ
  pub name : String
  pub status : String
  pub created : Option ℕ
  pub server_type : Option String
  pub location : Option String
  pub datacenter : Option Datacenter
  pub ip : Option String
  pub labels : Dict String

pub record SshKey : Type 0 where
  pub id : ℤ
  pub name : String
  pub public_key : String

-- hcloud.FirewallResource, by its type
pub data Resource : Type 0 where
  label_selector : Option String → Resource
  server : Option ℤ → Resource
  other : String → Resource

pub record Rule : Type 0 where
  pub direction : String
  pub protocol : String
  pub port : Option String
  pub source_ips : List String
  pub description : String

pub record Wall : Type 0 where
  pub id : ℤ
  pub name : String
  pub labels : Dict String
  pub rules : List Rule
  pub applied_to : List Resource

pub record CreateOpts : Type 0 where
  pub name : String
  pub server_type : String
  pub image : ℤ
  pub location : String
  pub user_data : String
  pub ssh_keys : List SshKey
  pub labels : Dict String
  pub start_after_create : Bool

pub record LocationPrice : Type 0 where
  pub location : Option String
  pub gross : String

pub record TypePricing : Type 0 where
  pub server_type : Option String
  pub pricings : List LocationPrice

pub record Pricing : Type 0 where
  pub currency : String
  pub server_types : List TypePricing

-- The calls of hcloud-go, and the text of an error.
pub record Api (F C : Type 0) : Type 0 where
  pub message : Error → String
  pub server_types : Context → Call C (List (TypeInfo F))
  pub locations : Context → Call C (List String)
  pub image : Context → String → String → Call C (Option ℤ)
  pub create : Context → CreateOpts → Call C ℤ
  pub get_by_id : Context → ℤ → Call C (Option Machine)
  pub delete : Context → ℤ → Call C (Unit {0})
  pub servers : Context → String → Call C (List Machine)
  pub key_by_name : Context → String → Call C (Option SshKey)
  pub create_key : Context → String → String → Dict String → Call C SshKey
  pub all_keys : Context → Call C (List SshKey)
  pub keys : Context → String → Call C (List SshKey)
  pub delete_key : Context → ℤ → Call C (Unit {0})
  pub walls : Context → String → Call C (List Wall)
  pub create_wall : Context → String → Dict String → List Rule → List Resource → Call C (Unit {0})
  pub remove_resources : Context → ℤ → List Resource → Call C (Unit {0})
  pub delete_wall : Context → ℤ → Call C (Unit {0})
  pub pricing : Context → Call C Pricing

abbrev pub label_cluster_id : String
label_cluster_id = "pandion-cluster-id"

abbrev pub arch : String
arch = "x86"

-- New, without options
abbrev pub region_pref : List String
region_pref = "fsn1" ∷ "nbg1" ∷ "hel1" ∷ []

abbrev text_or : Option String → String
text_or none = ""
text_or (some s) = s

-- The switch of toServer over the location and the datacenter.
unfoldable pub datacenter_region : Option Datacenter → String
datacenter_region none = ""
datacenter_region (some d) = elim d.location [ none ↦ d.name | some l ↦ l ]

unfoldable pub region_of : Machine → String
unfolding datacenter_region
region_of s =
    if not (str_eq (text_or s.location) "")
    then text_or s.location
    else datacenter_region s.datacenter

unfoldable pub to_server : Machine → String → Server
unfolding region_of
to_server s cluster_id = record {
  id = format_int s.id;
  name = s.name;
  cluster_id = cluster_id;
  type = text_or s.server_type;
  region = region_of s;
  ip = text_or s.ip;
  created = s.created;
  gpu = no_gpu_info;
}

unfoldable pub is_availability_err : String → Bool
is_availability_err message =
    contains_any ("unsupported location" ∷ "unavailable" ∷ "resource_unavailable" ∷ [])
      (lower_text message)
