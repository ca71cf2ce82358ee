-- ===== src/Client/Vultr.antt =====
-- internal/provider/vultr/vultr.go: the client of Vultr. Its library (govultr) is the parameter
-- `Api`, with base64.StdEncoding; what time.Parse makes of a date is the field `created`.
pub mod Catalog
pub mod Keys
pub mod Create
pub mod Teardown
use pandion.Prelude.{
  ℕ, String, Bool, true, false, ◌||◌, List, [], ◌∷◌, Option, none, some, str_eq, if◌then◌else◌,
}
use pandion.Prelude.Integer.{ℤ, pos}
use pandion.Errors.{Result, Error, wrapped, calling}
use pandion.Provider.{Context, Server, no_gpu_info}
use pandion.Select.Clouds.Vultr.{PlanInfo}
use pandion.Client.{Call, Cached, raise, pure, try, ◌>>=◌}
use pandion.Client.Names.{contains_any, contains_text, lower_text}

pub record Instance : Type 0 where
  pub id : String
  pub label : String
  pub status : String
  pub plan : String
  pub region : String
  pub main_ip : String
  pub created : Option ℕ
  pub tags : List String

pub record SshKey : Type 0 where
  pub id : String
  pub name : String
  pub ssh_key : String

pub record Plan (F : Type 0) : Type 0 where
  pub id : String
  pub vcpu_count : ℕ
  pub ram : ℕ
  pub monthly_cost : F
  pub locations : List String
  pub gpu_type : String
  pub gpu_vram : ℕ

pub record Os : Type 0 where
  pub id : ℤ
  pub name : String
  pub family : String
  pub arch : String

pub record CreateReq : Type 0 where
  pub region : String
  pub plan : String
  pub label : String
  pub hostname : String
  pub os_id : ℤ
  pub ssh_keys : List String
  pub tags : List String
  pub user_data : String

-- A page of a listing, and the cursor of the next one: meta.Links.Next, "" where there is none.
abbrev pub Page : Type 0 → Type 0
Page A = List A × String

-- The calls of govultr, and the text of an error.
pub record Api (F C : Type 0) : Type 0 where
  pub message : Error → String
  pub base64 : String → String
  pub plans : Context → String → Call C (Page (Plan F))
  pub oses : Context → String → Call C (Page Os)
  pub create : Context → CreateReq → Call C String
  pub get : Context → String → Call C Instance
  pub delete : Context → String → Call C (Unit {0})
  pub instances : Context → String → Call C (Page Instance)
  pub keys : Context → String → Call C (Page SshKey)
  pub create_key : Context → String → String → Call C String
  pub delete_key : Context → String → Call C (Unit {0})

-- What the client keeps: the catalog of plans, and the id of the system to install, 0 for none.
pub record Kept (F : Type 0) : Type 0 where
  pub plans : Option (List (PlanInfo F))
  pub os_id : ℤ

abbrev pub Client : Type 0 → Type 0 → Type 0
Client F C = Cached (Kept F) C

-- New, without options
abbrev pub region_pref : List String
region_pref = "ewr" ∷ "fra" ∷ "ams" ∷ "sea" ∷ []

abbrev pub default_os_id : ℤ
default_os_id = pos 2284

-- The cursor to go on with.
abbrev pub next_cursor : {A C : Type 0} → Call C (Page A) → Call C (List A × Option String)
next_cursor list = do p ← list; pure (p.0, (if str_eq p.1 "" then none else some p.1))

unfoldable pub to_server : Instance → String → Server
to_server i cluster_id = record {
  id = i.id;
  name = i.label;
  cluster_id = cluster_id;
  type = i.plan;
  region = i.region;
  ip = i.main_ip;
  created = i.created;
  gpu = no_gpu_info;
}

unfoldable pub is_availability_err : String → Bool
is_availability_err message =
    contains_any
      ("not available" ∷ "unavailable" ∷ "sold out" ∷ "no capacity" ∷ "out of stock" ∷ [])
      (lower_text message)

unfoldable pub is_not_found_err : String → Bool
is_not_found_err message =
    contains_any ("not found" ∷ "does not exist" ∷ "invalid instance" ∷ "unable to find" ∷ [])
      (lower_text message)

-- A hint around the error of an address that Vultr does not let in.
unfoldable pub friendly_err : String → Error → Error
friendly_err message e =
    if contains_text message "Unauthorized IP address"
    then wrapped (calling "not allowed by Vultr's API Access Control") e
    else e
