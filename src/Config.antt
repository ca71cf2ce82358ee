-- ===== src/Config.antt =====
-- internal/config/config.go: the settings of a node, merged from the defaults of its cluster and
-- its own. An absent section is none; a YAML value is a tree whose integers are nonnegative, and
-- whose other numbers are kept by their integer part. Reading and validating YAML is not modelled.
pub mod Nearest
pub mod Overlay
pub mod Effective
pub mod Merged
use pandion.Prelude.{ℕ, String, Bool, List, Option}

mutual
  pub data Value : Type 0 where
    null : Value
    text : String → Value
    flag : Bool → Value
    integer : ℕ → Value
    real : ℕ → Value
    object : Fields → Value

  pub data Fields : Type 0 where
    no_fields : Fields
    field : String → Value → Fields → Fields

pub record Toolchain : Type 0 where
  pub packages : List String
  pub no_default : Bool

pub record Security : Type 0 where
  pub overlay : Option Value
  pub egress_allow : List String
  pub open_egress_during_build : Option Bool
  pub run_as : String
  pub encrypt_volumes : Option Bool
  pub block_metadata_service : Option Bool
  pub audit_log : Option Bool
  pub capabilities : List String

pub record Sync : Type 0 where
  pub mode : String
  pub path : String
  pub remote_path : String
  pub build : String

pub record NodeCommon : Type 0 where
  pub target : String
  pub engine : String
  pub size : String
  pub gpu : String
  pub image : String
  pub container_image : String
  pub ttl : String
  pub toolchain : Option Toolchain
  pub sync : Option Sync
  pub sec : Option Security
  pub setup : List String

pub record Node : Type 0 where
  pub common : NodeCommon
  pub name : String
  pub role : String
  pub run : String
  pub ipc_ports : List String
  pub privileged_ports : List String
  pub needs_caps : List String
  pub egress_allow : List String

pub record Provider : Type 0 where
  pub name : String
  pub credential : String
  pub region : String

pub record Lifecycle : Type 0 where
  pub destroy_on_exit : Option Bool
  pub confirm_teardown : Option Bool
  pub keep_on_failure : Option Bool

pub record Cluster : Type 0 where
  pub api_version : String
  pub name : String
  pub provider : Provider
  pub defaults : NodeCommon
  pub nodes : List Node
  pub lifecycle : Lifecycle
