-- ===== src/Provider.antt =====
-- internal/provider/provider.go: the seam between the orchestration and a cloud. A backend is a
-- record of its methods over a state of its own; the optional capabilities are `Option` fields or
-- arguments. Prices are of a type `F` of floating-point numbers, given with its operations.
use pandion.Prelude.{ℕ, String, Bool, ltb, str_eq, not, ◌&&◌, List, Option}
use pandion.Errors.{Result}

pub record GpuReq : Type 0 where
  pub model : String
  pub count : ℕ
  pub min_vram : ℕ

-- Reports whether a GPU was requested.
unfoldable pub wanted : GpuReq → Bool
wanted g = ltb 0 g.count

abbrev pub no_gpu : GpuReq
no_gpu = record { model = ""; count = 0; min_vram = 0 }

pub record GpuInfo : Type 0 where
  pub model : String
  pub count : ℕ
  pub vram : ℕ

unfoldable pub present : GpuInfo → Bool
present g = ltb 0 g.count

abbrev pub no_gpu_info : GpuInfo
no_gpu_info = record { model = ""; count = 0; vram = 0 }

pub record ServerSpec : Type 0 where
  pub name : String
  pub cluster_id : String
  pub type : String
  pub min_cores : ℕ
  pub min_ram_gb : ℕ
  pub region_pref : List String
  pub image : String
  pub user_data : String
  pub login_pub_key : String
  pub gpu : GpuReq

pub record Server : Type 0 where
  pub id : String
  pub name : String
  pub cluster_id : String
  pub type : String
  pub region : String
  pub ip : String
  -- none is Go's zero time
  pub created : Option ℕ
  pub gpu : GpuInfo

-- A context, by the time at which it is cancelled; none never is.
abbrev pub Context : Type 0
Context = Option ℕ

-- The cloud's state and the clock.
pub record Net (C : Type 0) : Type 0 where
  pub cloud : C
  pub now : ℕ

-- The method set of provider.Provider, with the optional AuxReaper.
pub record Provider (C : Type 0) : Type 0 where
  pub name : String
  pub create_server : Context → ServerSpec → Net C → Result Server × Net C
  pub destroy_server : Context → String → Net C → Result (Unit {0}) × Net C
  pub list_by_tag : Context → String → Net C → Result (List Server) × Net C
  pub list_all_tagged : Context → Net C → Result (List Server) × Net C
  pub reap_aux : Option (Context → String → Net C → Result (Unit {0}) × Net C)

-- Floating-point numbers: the operations that prices use.
pub record Float (F : Type 0) : Type 0 where
  pub zero_float : F
  pub add : F → F → F
  pub mul : F → F → F
  pub less : F → F → Bool
  pub at_most : F → F → Bool
  -- float64(n), and the literal of n hundredths
  pub of_ℕ : ℕ → F
  pub hundredths : ℕ → F
  -- a duration in hours
  pub hours : ℕ → F

pub record Money (F : Type 0) : Type 0 where
  pub amount : F
  pub currency : String

module _ {F : Type 0} (fl : Float F) where
  -- Reports whether the price is populated.
  unfoldable pub known : Money F → Bool
  known m = not (str_eq m.currency "") && fl.less fl.zero_float m.amount

pub record Pricer (F C : Type 0) : Type 0 where
  pub hourly_price : Context → String → String → Net C → Result (Money F) × Net C
  pub estimate_hourly : Context → ServerSpec → Net C → Result (Money F) × Net C

pub record GpuOffering (F : Type 0) : Type 0 where
  pub server_type : String
  pub gpu : GpuInfo
  pub regions : List String
  pub hourly : Money F
  pub image : String
