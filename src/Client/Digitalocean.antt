-- ===== src/Client/Digitalocean.antt =====
-- internal/provider/digitalocean/digitalocean.go: the client of DigitalOcean. Its library (godo)
-- is the parameter `Api`. What Droplet.PublicIPv4 and time.Parse make of a droplet are its fields
-- `public_ip` and `created`.
pub mod Catalog
pub mod Gpu
pub mod Keys
pub mod Create
pub mod Teardown
use pandion.Prelude.{
  ℕ, ◌+◌, ◌/◌, String, Bool, List, [], ◌∷◌, Option, none, some, str_eq, ltb, if◌then◌else◌, ◌||◌,
}
use pandion.Prelude.Integer.{ℤ, format_int}
use pandion.Errors.{Result, ok, err, Error}
use pandion.Provider.{Context, Server, no_gpu_info}
use pandion.Select.Clouds.Digitalocean.{SizeInfo}
use pandion.Client.{Call, Cached, pure, raise, ◌>>=◌}
use pandion.Client.Names.{contains_any, lower_text}

pub record Droplet : Type 0 where
  pub id : ℤ
  pub name : String
  pub status : String
  pub size_slug : String
  pub region : Option String
  pub public_ip : Option String
  pub created : Option ℕ
  pub tags : List String

pub record Key : Type 0 where
  pub id : ℤ
  pub name : String
  pub public_key : String

pub record GpuDetail : Type 0 where
  pub model : String
  pub count : ℕ
  -- the amount and the unit
  pub vram : Option (ℕ × String)

pub record Size (F : Type 0) : Type 0 where
  pub slug : String
  pub vcpus : ℕ
  pub memory : ℕ
  pub price_hourly : F
  pub regions : List String
  pub available : Bool
  pub gpu_info : Option GpuDetail

pub record CreateRequest : Type 0 where
  pub name : String
  pub region : String
  pub size : String
  pub image : String
  pub ssh_keys : List ℤ
  pub tags : List String
  pub user_data : String

-- A page of a listing, and its number as CurrentPage reads it, unless it is the last one.
abbrev pub Page : Type 0 → Type 0
Page A = List A × Option (Result ℕ)

-- The calls of godo, the text of an error, and the status of an ErrorResponse within it.
pub record Api (F C : Type 0) : Type 0 where
  pub message : Error → String
  pub status : Error → Option ℕ
  pub sizes : Context → ℕ → Call C (Page (Size F))
  pub create : Context → CreateRequest → Call C ℤ
  pub get : Context → ℤ → Call C Droplet
  pub delete : Context → ℤ → Call C (Unit {0})
  pub droplets_by_tag : Context → String → ℕ → Call C (Page Droplet)
  pub keys : Context → ℕ → Call C (Page Key)
  pub create_key : Context → String → String → Call C Key
  pub delete_key : Context → ℤ → Call C (Unit {0})

-- What the client keeps: the catalog of sizes.
abbrev pub Client : Type 0 → Type 0 → Type 0
Client F C = Cached (Option (List (SizeInfo F))) C

-- New, without options
abbrev pub region_pref : List String
region_pref = "nyc3" ∷ "fra1" ∷ "ams3" ∷ "sfo3" ∷ []

-- The page to ask for next.
unfoldable pub next_page : {A C : Type 0} → Call C (Page A) → Call C (List A × Option ℕ)
next_page list = do
  p ← list
  elim p.1 [
    | none ↦ pure (p.0, none)
    | some (err e) ↦ raise e
    | some (ok current) ↦ pure (p.0, some (current + 1))
  ]

abbrev text_or : Option String → String
text_or none = ""
text_or (some s) = s

unfoldable pub to_server : Droplet → String → Server
to_server d cluster_id = record {
  id = format_int d.id;
  name = d.name;
  cluster_id = cluster_id;
  type = d.size_slug;
  region = text_or d.region;
  ip = text_or d.public_ip;
  created = d.created;
  gpu = no_gpu_info;
}

unfoldable pub is_availability_err : String → Bool
is_availability_err message =
    contains_any ("not available" ∷ "unavailable" ∷ "sold out" ∷ "no capacity" ∷ [])
      (lower_text message)

unfoldable pub is_gpu_quota_err : String → Bool
is_gpu_quota_err message = contains_any ("gpu limit" ∷ "gpu quota" ∷ []) (lower_text message)
