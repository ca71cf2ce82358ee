-- ===== src/Examples/Hetzner.antt =====
-- A cloud of Hetzner machines, without failures, and the client over it.
use Prim.Native.String.{◌++◌ as append}
use text.Mathlib.TextLemmas.{append_cancel_left}
use pandion.Prelude.{
  ℕ, ◌+◌, ◌≡◌, refl, ap, inl, inr, String, Bool, false, List, [], ◌∷◌, Option, none, some, arith,
  str_eq, eq_refl, eq_iff, length, select, Option-cases, Bool-cases, All,
}
use pandion.Prelude.Integer.{pos, format_int, parse_int}
use pandion.Errors.{ok}
use pandion.Provider.{Net, Server, ServerSpec, no_gpu}
use pandion.Select.Locations.{SearchMode, search_plan, order_locations}
use pandion.Client.Hetzner.{Api, Machine, CreateOpts, label_cluster_id, to_server}
use pandion.Client.Hetzner.Walls.{selector}
use pandion.Client.Hetzner.Create.{create_server, create_opts, wait_running}
use pandion.Client.Hetzner.Placed.{create_server-IsPlaced, IsPlaced}
use pandion.Client.Hetzner.Refined.{Documented, HasId, find, drop_id, label, is_label}
use pandion.Prelude.Dict.{lookup}
use pandion.Prelude.Decimal.{decimal, read_digits}
use pandion.Prelude.Unique.{gather_all}
use pandion.Client.Loops.{search, wait_until}
use pandion.Client.Hetzner.Keys.{ensure_login_key}
use pandion.State.{load, close}
use pandion.Orchestrator.{World}
use pandion.Orchestrator.Retry.{destroy_with_retry}
use pandion.Orchestrator.Down.{down}
use pandion.Client.Hetzner.Teardown.{hetzner, list_by_tag, destroy_server, reap_aux}
use pandion.Client.Hetzner.Contracted.{hetzner-Refines, down-hetzner, Refines}
use pandion.Examples.{whole, hetzner_types, empty_disk}

abbrev selects_label : String → Option String → Bool
selects_label s none = false
selects_label s (some v) = str_eq (selector v) s

abbrev made : CreateOpts → List Machine → Machine
made opts ms = record {
  id = pos (100 + length ms);
  name = opts.name;
  status = "running";
  created = some 7;
  server_type = some opts.server_type;
  location = some opts.location;
  datacenter = none;
  ip = some "203.0.113.7";
  labels = opts.labels;
}

abbrev pub cloud : Api ℕ (List Machine)
cloud = record {
  message = λ e. "unavailable";
  server_types = λ ctx n. (ok hetzner_types, n);
  locations = λ ctx n. (ok ("fsn1" ∷ "nbg1" ∷ []), n);
  image = λ ctx name arch n. (ok (some (pos 1)), n);
  create = λ ctx opts n.
      (ok (pos (100 + length n.cloud)), record n { cloud = made opts n.cloud ∷ n.cloud });
  get_by_id = λ ctx id n. (ok (find id n.cloud), n);
  delete = λ ctx id n. (ok tt, record n { cloud = drop_id id n.cloud });
  servers = λ ctx s n. (ok (select (λ m. selects_label s (label m)) n.cloud), n);
  key_by_name = λ ctx name n. (ok none, n);
  create_key =
      λ ctx name key labels n. (ok (record { id = pos 1; name = name; public_key = key }), n);
  all_keys = λ ctx n. (ok [], n);
  keys = λ ctx s n. (ok [], n);
  delete_key = λ ctx id n. (ok tt, n);
  walls = λ ctx s n. (ok [], n);
  create_wall = λ ctx name labels rules resources n. (ok tt, n);
  remove_resources = λ ctx id rs n. (ok tt, n);
  delete_wall = λ ctx id n. (ok tt, n);
  pricing = λ ctx n. (ok (record { currency = "EUR"; server_types = [] }), n);
}

selector-injective : (v id : String) → selector v ≡ selector id → v ≡ id
selector-injective v id h =
    append_cancel_left "=" v id
      (append_cancel_left label_cluster_id (append "=" v) (append "=" id) h)

selector-same : (v id : String) → str_eq (selector v) (selector id) ≡ str_eq v id
selector-same v id = elim (Bool-cases (str_eq v id)) [
  | inl e ↦ ground (arith, e, eq_refl (selector v), ap selector ((eq_iff v id).0 e))
  | inr e ↦
      ground (arith, e, eq_iff (selector v) (selector id), eq_iff v id, selector-injective v id)
]

selects_same :
    (id : String) (ms : List Machine)
    → select (λ m. selects_label (selector id) (label m)) ms
      ≡ select (λ m. is_label id (label m)) ms
selects_same id [] = refl
selects_same id (m ∷ ms) = elim (Option-cases (label m)) [
  | inl bare ↦ ground (arith, bare, selects_same id ms)
  | inr (v, has) ↦ ground (arith, has, selector-same v id, selects_same id ms)
]

abbrev documented : Documented cloud
documented = record {
  machines = λ c. c;
  is_value = λ id. Unit {0};
  finds = λ ctx id n o h. ground (arith, h);
  deletes = λ ctx id n h. refl;
  delete_fails = λ ctx id n e h. absurd (ground (arith, h));
  selects = λ ctx id n l value h. ground (arith, h, selects_same id n.cloud);
  quiet_get = λ ctx id n. refl;
  quiet_servers = λ ctx s n. refl;
  quiet_keys = λ ctx s n. refl;
  quiet_delete_key = λ ctx id n. refl;
  quiet_walls = λ ctx s n. refl;
  quiet_detach = λ ctx id rs n. refl;
  quiet_delete_wall = λ ctx id n. refl;
}

abbrev pub in_nbg1 : ServerSpec
in_nbg1 = record {
  name = "broker";
  cluster_id = "a";
  type = "cx22";
  min_cores = 0;
  min_ram_gb = 0;
  region_pref = "nbg1" ∷ [];
  image = "";
  user_data = "";
  login_pub_key = "ssh-ed25519 AAAA";
  gpu = no_gpu;
}

abbrev pub nothing_there : Net (List Machine)
nothing_there = record { cloud = []; now = 0 }

abbrev broker_there : Server
broker_there =
    to_server (made (create_opts whole cloud none in_nbg1 (pos 1) [] ("cx22", "nbg1")) []) "a"

create_server-IsPlaced_example : IsPlaced whole cloud none in_nbg1 broker_there
unfolding create_server ensure_login_key search search_plan order_locations gather_all wait_running
    wait_until
create_server-IsPlaced_example =
    create_server-IsPlaced whole cloud none ("fsn1" ∷ []) SearchMode.cheapest_type in_nbg1
      nothing_there broker_there refl

-- A machine of another project, one of cluster "a", and one of cluster "b".
abbrev machine : ℕ → List (String × String) → Machine
machine k labels = record {
  id = pos k;
  name = "m";
  status = "running";
  created = some 7;
  server_type = some "cx22";
  location = some "nbg1";
  datacenter = none;
  ip = some "203.0.113.7";
  labels = labels;
}

abbrev three : List Machine
three =
    machine 1 []
    ∷ machine 2 (("pandion-cluster-id", "a") ∷ [])
    ∷ machine 3 (("pandion-cluster-id", "b") ∷ [])
    ∷ []

three-HasId : All HasId three
three-HasId = ((1, refl, omega arith), ((2, refl, omega arith), ((3, refl, omega arith), tt)))

hetzner-Refines_example :
    Refines whole cloud documented [] SearchMode.cheapest_type none "a" "2"
      (record { cloud = three; now = 0 })
unfolding format_int decimal
hetzner-Refines_example =
    hetzner-Refines whole cloud documented [] SearchMode.cheapest_type none "a" "2"
      (record { cloud = three; now = 0 }) tt (2, refl, omega arith) three-HasId

abbrev three_world : World (List Machine)
three_world = record { net = record { cloud = three; now = 0 }; disk = empty_disk [] }

three_down :
    (down (hetzner whole cloud [] SearchMode.cheapest_type) 1 none "a" three_world).0 ≡ ok tt
unfolding down list_by_tag lookup destroy_with_retry destroy_server parse_int to_server format_int
    decimal read_digits load reap_aux close
three_down = refl

down-hetzner_example :
    All
      (λ m. is_label "a" (label m) ≡ false)
      (down (hetzner whole cloud [] SearchMode.cheapest_type) 1 none "a" three_world).1.net.cloud
    × (lookup
          (down
            (hetzner whole cloud [] SearchMode.cheapest_type)
            1
            none
            "a"
            three_world).1.disk.records
          "a"
        ≡ none)
down-hetzner_example =
    down-hetzner whole cloud documented [] SearchMode.cheapest_type 1 none "a" three_world tt
      three-HasId three_down
