-- ===== src/Mock.antt =====
-- internal/provider/mock/mock.go: the in-memory backend, with its failure injection. The file of a
-- persistent mock is the field `saved`; a write fails where `unwritable` is set, and JSON is read
-- back as the value written.
pub mod Valid
pub mod Converges
use Prim.Native.String.{◌++◌ as append}
use pandion.Prelude.{
  ℕ, suc, ◌+◌, ◌-◌, ◌*◌, String, Bool, true, false, not, ◌&&◌, List, [], ◌∷◌, Option, none, some,
  ltb, str_eq, if◌then◌else◌, select, length,
}
use pandion.Prelude.Dict.{Dict, lookup, insert, remove, values}
use pandion.Prelude.Decimal.{decimal}
use pandion.Prelude.Text.{equal_fold}
use pandion.Errors.{Result, ok, err, Error, reported, transient}
use pandion.Provider.{
  Context, Net, Provider, Server, ServerSpec, GpuReq, GpuInfo, GpuOffering, Float, Money, Pricer,
  wanted, no_gpu_info,
}

pub record Mock : Type 0 where
  pub seq : ℕ
  pub servers : Dict Server
  pub persistent : Bool
  pub unwritable : Bool
  pub saved : Option (ℕ × Dict Server)
  pub fail_destroy_once : Bool
  pub fail_destroy_n : ℕ
  pub reap_aux_calls : ℕ
  pub fail_reap_aux : Bool
  pub fail_create_for : Dict Bool
  pub transient_boot_for : Dict ℕ
  pub max_concurrent : ℕ
  pub cur_concurrent : ℕ

-- New
abbrev pub new : Mock
new = record {
  seq = 0;
  servers = [];
  persistent = false;
  unwritable = false;
  saved = none;
  fail_destroy_once = false;
  fail_destroy_n = 0;
  reap_aux_calls = 0;
  fail_reap_aux = false;
  fail_create_for = [];
  transient_boot_for = [];
  max_concurrent = 0;
  cur_concurrent = 0;
}

-- load, from what the file holds
unfoldable pub load : Mock → Mock
load m =
    if m.persistent
    then (elim m.saved [
      | none ↦ m
      | some (seq, servers) ↦ record m { seq = seq; servers = servers }
    ])
    else m

-- NewPersistent, over the file's contents
unfoldable pub new_persistent : Option (ℕ × Dict Server) → Mock
unfolding load
new_persistent file = load (record new { persistent = true; saved = file })

unfoldable pub save_locked : Mock → Mock
save_locked m =
    if m.persistent && not m.unwritable then record m { saved = some (m.seq, m.servers) } else m

-- A read of a Go map: the zero value for a missing key.
abbrev pub flag : Option Bool → Bool
flag none = false
flag (some b) = b

abbrev pub number : Option ℕ → ℕ
number none = 0
number (some k) = k

module _ {F : Type 0} (fl : Float F) where
  offering : String → String → ℕ → ℕ → GpuOffering F
  offering type model vram price = record {
    server_type = type;
    gpu = record { model = model; count = 1; vram = vram };
    regions = "mock-dc" ∷ [];
    hourly = record { amount = fl.hundredths price; currency = "EUR" };
    image = "mock-cuda";
  }

  -- mockGPUOfferings, cheapest first
  unfoldable pub gpu_offerings : List (GpuOffering F)
  unfolding offering
  gpu_offerings =
      offering "mock-gpu-a100" "a100" 40 110 ∷ offering "mock-gpu-h100" "h100" 80 250 ∷ []

  -- The tests by which the loop of matchGPUOffering passes an offering over.
  unfoldable pub fits : GpuReq → GpuOffering F → Bool
  fits req o =
      not (not (str_eq req.model "") && not (equal_fold req.model o.gpu.model))
      && not (ltb 0 req.min_vram && ltb o.gpu.vram req.min_vram)

  unfoldable pub first_fit : GpuReq → List (GpuOffering F) → Result (GpuOffering F)
  unfolding fits
  first_fit req [] = err (reported "mock: no GPU offering matches")
  first_fit req (o ∷ os) = if fits req o then ok o else first_fit req os

  unfoldable pub match_gpu_offering : GpuReq → Result (GpuOffering F)
  unfolding first_fit gpu_offerings
  match_gpu_offering req = first_fit req gpu_offerings

  -- The type and the GPU of the server to create.
  unfoldable pub realize : GpuReq → Result (String × GpuInfo)
  unfolding match_gpu_offering
  realize req =
      if wanted req
      then (elim (match_gpu_offering req) [
        | err e ↦ err e
        | ok o ↦
            ok (
              o.server_type,
              (if ltb 1 req.count then record o.gpu { count = req.count } else o.gpu),
            )
      ])
      else ok ("mock-small", no_gpu_info)

-- Under the lock, before the pause: what CreateServer has found out.
unfoldable pub enter_create : ServerSpec → Mock → (Bool × Bool) × Mock
enter_create spec m =
    let cur = m.cur_concurrent + 1 in
    let boots = number (lookup m.transient_boot_for spec.name) in
    (
      (flag (lookup m.fail_create_for spec.name), ltb 0 boots),
      record m {
        cur_concurrent = cur;
        max_concurrent = (if ltb m.max_concurrent cur then cur else m.max_concurrent);
        transient_boot_for =
            (if ltb 0 boots
              then insert m.transient_boot_for spec.name (boots - 1)
              else m.transient_boot_for);
      },
    )

abbrev pub server_id : ℕ → String
server_id seq = append "mock-" (decimal seq)

-- The server that is recorded once its type is known, under the sequence number just taken.
unfoldable pub record_server :
    ServerSpec → ℕ → Result (String × GpuInfo) → Mock → Result Server × Mock
record_server spec now (err e) m = (err e, m)
record_server spec now (ok (type, gpu)) m =
    let s : Server = record {
      id = server_id m.seq;
      name = spec.name;
      cluster_id = spec.cluster_id;
      type = type;
      region = "mock-dc";
      ip = append "10.0.0." (decimal m.seq);
      created = some now;
      gpu = gpu;
    } in
    (ok s, save_locked (record m { servers = insert m.servers s.id s }))

abbrev pub create_pause : ℕ
create_pause = 3000000

module _ {F : Type 0} (fl : Float F) where
  -- Under the lock again; the deferred call leaves.
  unfoldable pub finish_create : Bool → Bool → ServerSpec → ℕ → Mock → Result Server × Mock
  unfolding record_server save_locked
  finish_create fail boots spec now m =
      let m' = record m { cur_concurrent = m.cur_concurrent - 1 } in
      if boots
      then (err (transient (reported "mock: entered status terminated while booting")), m')
      else if fail
      then (err (reported "mock: simulated create failure"), m')
      else record_server spec now (realize fl spec.gpu) (record m' { seq = m'.seq + 1 })

  unfoldable pub create_server : Context → ServerSpec → Net Mock → Result Server × Net Mock
  unfolding enter_create finish_create
  create_server ctx spec n =
      let (found, m) = enter_create spec n.cloud in
      let now = n.now + create_pause in
      let (r, m') = finish_create found.0 found.1 spec now m in
      (r, record { cloud = m'; now = now })

unfoldable pub destroy : String → Mock → Result (Unit {0}) × Mock
unfolding save_locked
destroy id m =
    if m.fail_destroy_once
    then (
      err (reported "mock: simulated transient destroy failure"),
      record m { fail_destroy_once = false },
    )
    else if ltb 0 m.fail_destroy_n
    then (
      err (reported "mock: simulated destroy failure"),
      record m { fail_destroy_n = m.fail_destroy_n - 1 },
    )
    else (ok tt, save_locked (record m { servers = remove m.servers id }))

unfoldable pub destroy_server : Context → String → Net Mock → Result (Unit {0}) × Net Mock
unfolding destroy
destroy_server ctx id n = let (r, m) = destroy id n.cloud in (r, record n { cloud = m })

unfoldable pub list_by_tag : Context → String → Net Mock → Result (List Server) × Net Mock
list_by_tag ctx id n = (ok (select (λ s. str_eq s.cluster_id id) (values n.cloud.servers)), n)

unfoldable pub list_all_tagged : Context → Net Mock → Result (List Server) × Net Mock
list_all_tagged ctx n = (ok (values n.cloud.servers), n)

unfoldable pub reap_aux : Context → String → Net Mock → Result (Unit {0}) × Net Mock
reap_aux ctx id n =
    let m = n.cloud in
    (
      (if m.fail_reap_aux then err (reported "mock: simulated aux-reap failure") else ok tt),
      record n { cloud = record m { reap_aux_calls = m.reap_aux_calls + 1 } },
    )

abbrev pub mock : {F : Type 0} → Float F → Provider Mock
mock fl = record {
  name = "mock";
  create_server = create_server fl;
  destroy_server = destroy_server;
  list_by_tag = list_by_tag;
  list_all_tagged = list_all_tagged;
  reap_aux = some reap_aux;
}

-- Count
abbrev pub count : Mock → ℕ
count m = length m.servers

module _ {F : Type 0} (fl : Float F) where
  abbrev flat_price : Money F
  flat_price = record { amount = fl.hundredths 1; currency = "EUR" }

  unfoldable pub price_of : String → List (GpuOffering F) → Money F
  price_of type [] = flat_price
  price_of type (o ∷ os) = if str_eq o.server_type type then o.hourly else price_of type os

  unfoldable pub hourly_price : String → Money F
  unfolding price_of gpu_offerings
  hourly_price type =
      if str_eq type ""
      then record { amount = fl.zero_float; currency = "" }
      else price_of type (gpu_offerings fl)

  -- `n < 1` cannot hold where a GPU is wanted; the code tests it all the same.
  unfoldable pub estimate_hourly : GpuReq → Result (Money F)
  unfolding match_gpu_offering
  estimate_hourly req =
      if wanted req
      then (elim (match_gpu_offering fl req) [
        | err e ↦ err e
        | ok o ↦
            let units : ℕ = (if ltb req.count 1 then 1 else req.count) in
            ok (record {
              amount = fl.mul o.hourly.amount (fl.of_ℕ units);
              currency = o.hourly.currency;
            })
      ])
      else ok flat_price

  abbrev pub pricer : Pricer F Mock
  pricer = record {
    hourly_price = λ ctx type region n. (ok (hourly_price type), n);
    estimate_hourly = λ ctx spec n. (estimate_hourly spec.gpu, n);
  }
