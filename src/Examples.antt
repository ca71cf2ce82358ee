-- ===== src/Examples.antt =====
-- Runs of the models on concrete inputs, and each theorem at an input that meets its hypotheses.
mod Journal
mod Teardown
mod Provisioning
mod Concurrent
mod Networking
mod Relaying
mod Settings
mod Spending
mod Selecting
mod Hetzner
mod Clouds
mod Sending
mod Nearest
use pandion.Prelude.{
  ℕ, ◌+◌, ◌*◌, ◌/◌, ◌≡◌, not, ◌==◌, arith, leb, ltb, List, [], ◌∷◌, Option, none, some, String,
  Bool, false, true,
}
use pandion.Prelude.Dict.{Dict}
use pandion.Provider.{Float, Net, Server, no_gpu_info}
use pandion.State.{Disk, Outcome}
use pandion.Mock.{Mock, new}
use pandion.Orchestrator.{World}
use pandion.Select.{Ordered}
use pandion.Select.Clouds.Hetzner.{TypeInfo}

-- Whole numbers of hundredths in the place of floating-point numbers.
abbrev pub whole_float : Float ℕ
whole_float = record {
  zero_float = 0;
  add = λ a b. a + b;
  mul = λ a b. a * b;
  less = ltb;
  at_most = leb;
  of_ℕ = λ n. n;
  hundredths = λ n. n;
  hours = λ d. d / 3600000000000;
}

abbrev pub empty_disk : List Outcome → Disk
empty_disk faults = record { records = []; temps = []; faults = faults }

abbrev pub server_of : String → String → Server
server_of id cluster = record {
  id = id;
  name = "node";
  cluster_id = cluster;
  type = "mock-small";
  region = "mock-dc";
  ip = "10.0.0.1";
  created = some 5;
  gpu = no_gpu_info;
}

-- Two servers of cluster "a", one of "b", and a mock whose next destroys are set to fail.
abbrev pub two_clusters : Bool → ℕ → Mock
two_clusters once failing = record new {
  seq = 3;
  servers =
      ("mock-1", server_of "mock-1" "a")
      ∷ ("mock-2", server_of "mock-2" "b")
      ∷ ("mock-3", server_of "mock-3" "a")
      ∷ [];
  fail_destroy_once = once;
  fail_destroy_n = failing;
}

abbrev pub world : Mock → List Outcome → World Mock
world m faults = record { net = record { cloud = m; now = 100 }; disk = empty_disk faults }

pub less_differs : (a b : ℕ) → ltb a b ≡ true → not (a == b) ≡ true
less_differs a b h = ground (arith, h)

pub differs_sym : (a b : ℕ) → not (a == b) ≡ not (b == a)
differs_sym a b = ground arith

pub less_asym : (a b : ℕ) → ltb a b ≡ true → ltb b a ≡ false
less_asym a b h = ground (arith, h)

pub not_less_trans : (a b c : ℕ) → ltb b a ≡ false → ltb c b ≡ false → ltb c a ≡ false
not_less_trans a b c h k = ground (arith, h, k)

abbrev pub whole : Ordered ℕ
whole = record {
  less = ltb;
  differs = λ a b. not (a == b);
  of_ℕ = λ n. n;
  less_differs = less_differs;
  differs_sym = differs_sym;
  less_asym = less_asym;
  not_less_trans = not_less_trans;
}

abbrev pub hetzner_types : List (TypeInfo ℕ)
hetzner_types =
    record { name = "cx32"; cores = 4; mem_gb = 8; arch = "x86"; deprecated = false }
    ∷ record { name = "cpx11"; cores = 2; mem_gb = 2; arch = "x86"; deprecated = true }
    ∷ record { name = "cx22"; cores = 2; mem_gb = 4; arch = "x86"; deprecated = false }
    ∷ []
