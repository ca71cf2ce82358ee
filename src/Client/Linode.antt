-- ===== src/Client/Linode.antt =====
-- internal/provider/linode/linode.go: the client of Linode. Its library (linodego) is the parameter
-- `Api`, with the reader of crypto/rand and base64.StdEncoding. An address is what the methods of
-- net.IP say of it.
pub mod Catalog
pub mod Create
pub mod Teardown
use Prim.Native.String.{slice}
use pandion.Prelude.{
  ℕ, zero, suc, ◌+◌, String, Bool, true, false, ◌||◌, List, [], ◌∷◌, Option, none, some, ◌==◌,
  if◌then◌else◌,
}
use pandion.Prelude.Integer.{ℤ, format_int}
use pandion.Errors.{Result, Error}
use pandion.Provider.{Context, Server, no_gpu_info}
use pandion.Select.Clouds.Linode.{TypeInfo}
use pandion.Client.{Call, Cached}
use pandion.Client.Names.{contains_any, contains_text, lower_text}

pub record Ip : Type 0 where
  pub text : String
  pub is_private : Bool
  pub is_loopback : Bool
  pub is_link_local_unicast : Bool

pub record Instance : Type 0 where
  pub id : ℤ
  pub label : String
  pub status : String
  pub type : String
  pub region : String
  pub ipv4 : List (Option Ip)
  pub created : Option ℕ
  pub tags : List String

pub record LinodeType (F : Type 0) : Type 0 where
  pub id : String
  pub vcpus : ℕ
  pub memory : ℕ
  pub gpus : ℕ
  pub class : String
  pub accelerated_devices : ℕ
  pub price : Option F
  pub region_prices : List (String × F)

pub record Region : Type 0 where
  pub id : String
  pub status : String
  pub capabilities : List String

pub record CreateOptions : Type 0 where
  pub region : String
  pub type : String
  pub label : String
  pub image : String
  pub root_pass : String
  pub authorized_keys : List String
  pub tags : List String
  pub metadata : Option String
  pub booted : Bool

-- The calls of linodego, the text of an error, and the code of a linodego.Error within it.
pub record Api (F C : Type 0) : Type 0 where
  pub message : Error → String
  pub code : Error → Option ℕ
  pub list_types : Context → Call C (List (LinodeType F))
  pub list_regions : Context → Call C (List Region)
  pub create_instance : Context → CreateOptions → Call C ℤ
  pub get_instance : Context → ℤ → Call C Instance
  pub delete_instance : Context → ℤ → Call C (Unit {0})
  pub list_instances : Context → Call C (List Instance)
  -- rand.Int, below a bound
  pub random : ℕ → Call C ℕ
  pub base64 : String → String

-- What the client keeps: the catalogs of types and regions.
pub record Kept (F : Type 0) : Type 0 where
  pub types : Option (List (TypeInfo F))
  pub regions : Option (List Region)

abbrev pub Client : Type 0 → Type 0 → Type 0
Client F C = Cached (Kept F) C

-- New, without options
abbrev pub region_pref : List String
region_pref = "us-east" ∷ "eu-central" ∷ "nl-ams" ∷ "us-west" ∷ []

unfoldable pub public_ip : List (Option Ip) → String
public_ip [] = ""
public_ip (none ∷ ips) = public_ip ips
public_ip (some ip ∷ ips) =
    let rest = public_ip ips in
    if ip.is_private || ip.is_loopback || ip.is_link_local_unicast then rest else ip.text

unfoldable pub to_server : Instance → String → Server
unfolding public_ip
to_server i cluster_id = record {
  id = format_int i.id;
  name = i.label;
  cluster_id = cluster_id;
  type = i.type;
  region = i.region;
  ip = public_ip i.ipv4;
  created = i.created;
  gpu = no_gpu_info;
}

unfoldable pub is_availability_err : String → Bool
is_availability_err message =
    contains_any
      ("not available" ∷ "unavailable" ∷ "sold out" ∷ "no capacity" ∷ "out of capacity"
        ∷ "not currently accepting" ∷ [])
      (lower_text message)

abbrev pub is_code : ℕ → Option ℕ → Bool
is_code code none = false
is_code code (some c) = c == code

unfoldable pub is_not_found_err : Option ℕ → String → Bool
is_not_found_err code message =
    if is_code 404 code then true else contains_text (lower_text message) "not found"
