-- ===== src/Client/Lambda.antt =====
-- internal/provider/lambda: the client of Lambda, which speaks HTTP itself. The transport is the
-- parameter `Api`: an answer is its status, its Retry-After header and what encoding/json makes of
-- its body, with a field of `Answer` for each `data` that is decoded.
pub mod Http
pub mod Bounded
pub mod Waits
pub mod Gpu
pub mod Catalog
pub mod Keys
pub mod Firewall
pub mod Create
pub mod Teardown
use Prim.Native.String.{◌++◌ as append}
use text.Mathlib.Text.{starts_with, find?}
use Prim.Native.String.{slice}
use pandion.Prelude.{
  ℕ, String, Bool, true, false, ◌||◌, List, [], Option, none, some, str_eq, if◌then◌else◌,
}
use pandion.Errors.{Result, Error}
use pandion.Provider.{Context}
use pandion.Client.{Call, Cached}
use pandion.Client.Names.{sanitize_words, drop, lower_text, trim_space}

pub record InstanceType : Type 0 where
  pub name : String
  pub description : String
  pub price_cents_per_hr : ℕ
  pub gpus : ℕ

pub record Instance : Type 0 where
  pub id : String
  pub name : String
  pub ip : String
  pub status : String
  pub region : String
  pub instance_type : InstanceType

-- A type, and the regions with capacity for it.
pub record Offering : Type 0 where
  pub itype : InstanceType
  pub regions : List String

pub record SshKey : Type 0 where
  pub name : String
  pub public_key : String

pub record FwRule : Type 0 where
  pub protocol : String
  pub port_range : List ℕ
  pub source_network : String
  pub description : String

pub record LaunchReq : Type 0 where
  pub region_name : String
  pub instance_type_name : String
  pub ssh_key_names : List String
  pub name : String
  pub quantity : ℕ
  pub user_data : String

-- The requests that the client makes: method, path and body.
pub data Request : Type 0 where
  get_types get_keys get_instances get_rules : Request
  get_instance : String → Request
  post_key : SshKey → Request
  launch : LaunchReq → Request
  terminate : List String → Request
  put_rules : List FwRule → Request

pub record Answer : Type 0 where
  pub types : List Offering
  pub keys : List SshKey
  pub instances : List Instance
  pub instance : Instance
  pub instance_ids : List String
  pub rules : List FwRule

pub record Response : Type 0 where
  pub status : ℕ
  pub retry_after : String
  pub text : String
  -- the code and the message of an error's body, where it decodes
  pub error : Option (String × String)
  pub answer : Result Answer

pub record Api (C : Type 0) : Type 0 where
  -- http.Client.Do, with the reading of the body
  pub send : Context → Request → Call C Response
  -- rand.Int63n
  pub random : ℕ → Call C ℕ
  -- the first twelve hexadecimal digits of crypto/sha256
  pub digest : String → String

-- The configuration: New, without options, is `standard`.
pub record Config : Type 0 where
  pub region_pref : List String
  pub min_gap : ℕ
  pub max_retry : ℕ
  pub backoff_base : ℕ
  pub backoff_max : ℕ

abbrev pub standard : Config
standard = record {
  region_pref = [];
  min_gap = 300000000;
  max_retry = 5;
  backoff_base = 1000000000;
  backoff_max = 8000000000;
}

-- What the client keeps: the time of the last request, none before the first.
abbrev pub Client : Type 0 → Type 0
Client C = Cached (Option ℕ) C

abbrev pub name_sep : String
name_sep = "--"

unfoldable pub server_name : String → String → String
server_name cluster_id node =
    append "pandion-" (append (sanitize_words cluster_id) (append name_sep (sanitize_words node)))

-- strings.Cut at the separator: what stands before it.
unfoldable pub before_sep : String → Option String
before_sep s = elim (find? s name_sep) [ none ↦ none | some i ↦ some (slice s 0 i) ]

unfoldable pub cluster_of : String → String
unfolding before_sep
cluster_of name =
    if starts_with name "pandion-"
    then (elim (before_sep (drop 8 name)) [ none ↦ "" | some id ↦ id ])
    else ""

unfoldable pub is_terminating : String → Bool
is_terminating status =
    let s = lower_text (trim_space status) in str_eq s "terminating" || str_eq s "terminated"
