-- ===== src/Config/Effective.antt =====
-- Cluster.Effective and what it calls, and Cluster.NodeCaps.
use pandion.Prelude.{
  String, Bool, true, false, ◌&&◌, not, List, [], ◌++◌, Option, none, some, str_eq, if◌then◌else◌,
}
use pandion.Prelude.Unique.{Gathered, nothing_gathered, gather_all}
use pandion.Config.{Toolchain, Security, Node, Cluster}
use pandion.Config.Overlay.{L2Overlay, resolve_l2}

-- `x != ""`
abbrev pub nonempty : String → Bool
nonempty x = not (str_eq x "")

-- The closure `add` of a security section's list.
abbrev pub add_from : (Security → List String) → Option Security → Gathered → Gathered
add_from items none g = g
add_from items (some sec) g = gather_all nonempty (items sec) g

unfoldable pub node_caps : Cluster → Node → List String
node_caps c n =
    (add_from (λ s. s.capabilities) c.defaults.sec
      (add_from (λ s. s.capabilities) n.common.sec
        (gather_all nonempty n.needs_caps nothing_gathered))).out

unfoldable pub egress_allow : Cluster → Node → List String
egress_allow c n =
    (add_from (λ s. s.egress_allow) c.defaults.sec
      (add_from (λ s. s.egress_allow) n.common.sec
        (gather_all nonempty n.egress_allow nothing_gathered))).out

abbrev pub flag_in : (Security → Option Bool) → Option Security → Option Bool
flag_in get none = none
flag_in get (some sec) = get sec

unfoldable pub sec_bool : Cluster → Node → (Security → Option Bool) → Bool → Bool
sec_bool c n get fallback = elim (flag_in get n.common.sec) [
  | some v ↦ v
  | none ↦ elim (flag_in get c.defaults.sec) [ some v ↦ v | none ↦ fallback ]
]

unfoldable pub pick : String → String → String
pick node def = if nonempty node then node else def

pub record Effective : Type 0 where
  pub size : String
  pub gpu : String
  pub image : String
  pub packages : List String
  pub no_default_toolchain : Bool
  pub setup : List String
  pub region : String
  pub run_user : String
  pub ttl_raw : String
  pub egress_allow : List String
  pub block_metadata : Bool
  pub audit_log : Bool
  pub encrypt_volumes : Bool
  pub engine : String
  pub container_image : String
  pub l2 : Option L2Overlay

abbrev no_toolchain : Toolchain
no_toolchain = record { packages = []; no_default = false }

-- The node's toolchain, else that of the defaults.
abbrev toolchain_of : Option Toolchain → Option Toolchain → Toolchain
toolchain_of (some t) d = t
toolchain_of none (some t) = t
toolchain_of none none = no_toolchain

abbrev run_as_default : Option Security → String
run_as_default none = ""
run_as_default (some sec) = sec.run_as

abbrev run_user_of : Option Security → Option Security → String
run_user_of none d = run_as_default d
run_user_of (some sec) d = if nonempty sec.run_as then sec.run_as else run_as_default d

-- An engine that is not set is native.
abbrev engine_or_native : String → String
engine_or_native e = if str_eq e "" then "native" else e

abbrev container_image_of : String → String → String
container_image_of engine image =
    if str_eq engine "docker" && str_eq image "" then "ubuntu:24.04" else image

unfoldable pub effective : Cluster → Node → Effective
unfolding node_caps egress_allow sec_bool pick
effective c n =
    let engine = engine_or_native (pick n.common.engine c.defaults.engine) in
    let toolchain = toolchain_of n.common.toolchain c.defaults.toolchain in
    record {
      size = pick n.common.size c.defaults.size;
      gpu = pick n.common.gpu c.defaults.gpu;
      image = pick n.common.image c.defaults.image;
      packages = toolchain.packages;
      no_default_toolchain = toolchain.no_default;
      setup = c.defaults.setup ++ n.common.setup;
      region = c.provider.region;
      run_user = run_user_of n.common.sec c.defaults.sec;
      ttl_raw = pick n.common.ttl c.defaults.ttl;
      egress_allow = egress_allow c n;
      block_metadata = sec_bool c n (λ s. s.block_metadata_service) true;
      audit_log = sec_bool c n (λ s. s.audit_log) true;
      encrypt_volumes = sec_bool c n (λ s. s.encrypt_volumes) false;
      engine = engine;
      container_image =
          container_image_of engine (pick n.common.container_image c.defaults.container_image);
      l2 = resolve_l2 c n;
    }
