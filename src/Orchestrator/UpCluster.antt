-- ===== src/Orchestrator/UpCluster.antt =====
-- UpCluster: the nodes of a cluster are provisioned concurrently. A run is a sequence of steps, one
-- for each point at which a goroutine holds the lock, waits for the semaphore or hears from the
-- backend, and any goroutine may be next. The semaphore and the error group (golang.org/x/sync) are
-- parameters; what createWithRetry returns for a node is chosen by the environment.
pub mod Stands
pub mod Barrier
pub mod Recorded
pub mod Failed
use pandion.Prelude.{
  ℕ, suc, ◌+◌, ◌<◌, ◌≡◌, ◌==◌, String, Bool, true, false, List, Option, none, some, map, get_elem?,
  set, All, if◌then◌else◌,
}
use pandion.Errors.{Result, ok, err, Error, cancelled, wrapped, provisioning}
use pandion.Provider.{Server}
use pandion.State.{Phase, Node, Cluster, Disk, schema_version, save}
use pandion.Orchestrator.Up.{NodeSpec}

abbrev pub default_max_concurrency : ℕ
default_max_concurrency = 5

-- semaphore.Weighted, taken and given back in units of one.
pub record Semaphore (S : Type 0) : Type 0 where
  pub new_weighted : ℕ → S
  pub try_acquire : S → Option S
  pub release : S → S
  pub held : S → ℕ
  pub size : S → ℕ
  pub new_free : (n : ℕ) → (held (new_weighted n) ≡ 0) × (size (new_weighted n) ≡ n)
  pub acquired :
      (s t : S)
      → try_acquire s ≡ some t
      → (held s < size s) × (held t ≡ held s + 1) × (size t ≡ size s)
  pub released :
      (s : S) (k : ℕ) → held s ≡ suc k → (held (release s) ≡ k) × (size (release s) ≡ size s)

-- errgroup.Group with its context: the first error is kept, and cancels the context.
pub record Group (G : Type 0) : Type 0 where
  pub with_context : G
  pub cancel : G → G
  pub returned : Option Error → G → G
  pub done : G → Bool
  pub first : G → Option Error
  pub with_context_none : first with_context ≡ none
  pub cancel_first : (g : G) → first (cancel g) ≡ first g
  pub returned_none : (g : G) → first (returned none g) ≡ first g
  pub returned_some :
      (e : Error) (g : G)
      → first (returned (some e) g) ≡ elim (first g) [ none ↦ some e | some x ↦ some x ]

-- Where a goroutine stands: at sem.Acquire; inside, before its phase is set; before the save of it;
-- in the create call; before its last save, with what it returns; after that; with the semaphore
-- given back; at its end.
pub data Stand : Type 0 where
  queued admitted marked creating : Stand
  answered saved leaving ended : Option Error → Stand

-- A node of the cluster with its goroutine.
pub record Slot : Type 0 where
  pub node : Node
  pub stand : Stand

pub record System (S G : Type 0) : Type 0 where
  pub slots : List Slot
  pub updated : ℕ
  pub sem : S
  pub group : G
  pub disk : Disk

abbrev pub node_of : Slot → Node
node_of x = x.node

-- A node as planned, at its goroutine's start.
abbrev pub planned_slot : NodeSpec → Slot
planned_slot spec = record {
  node = record { name = spec.name; server_id = ""; ip = ""; phase = Phase.planned };
  stand = Stand.queued;
}

-- The node after createWithRetry, and the error of its goroutine.
unfoldable pub answer : Node → Result Server → Node × Option Error
answer n (err e) = (record n { phase = Phase.failed }, some (wrapped (provisioning n.name) e))
answer n (ok srv) = (record n { server_id = srv.id; ip = srv.ip; phase = Phase.running }, none)

module _ {S G : Type 0} (sm : Semaphore S) (gr : Group G) (id : String) (provider : String) where
  -- The cluster that the goroutines share; it has been saved at least once.
  abbrev pub cluster_of : ℕ → List Slot → Cluster
  cluster_of updated slots = record {
    version = schema_version;
    id = id;
    provider = provider;
    nodes = map node_of slots;
    updated = updated;
  }

  abbrev pub put : System S G → ℕ → Node → Stand → System S G
  put s i n st = record s { slots = set s.slots i (record { node = n; stand = st }) }

  -- The closure `save` at a time: a failure is not passed on.
  unfoldable pub save_all : ℕ → System S G → System S G
  save_all now s = record s {
    updated = now;
    disk = (save now (cluster_of s.updated s.slots) s.disk).1;
  }

  -- Every node planned, and room for at most `max_conc` goroutines at work.
  abbrev pub unsaved : List NodeSpec → ℕ → Disk → System S G
  unsaved specs max_conc d = record {
    slots = map planned_slot specs;
    updated = 0;
    sem = sm.new_weighted (if max_conc == 0 then default_max_concurrency else max_conc);
    group = gr.with_context;
    disk = d;
  }

  -- The state in which the goroutines are started.
  unfoldable pub started : List NodeSpec → ℕ → ℕ → Disk → System S G
  unfolding save_all
  started specs max_conc now d = save_all now (unsaved specs max_conc d)

  abbrev pub At : System S G → ℕ → Node → Stand → Type 0
  At s i n st = get_elem? s.slots i ≡ some (record { node = n; stand = st })

  pub data Step : System S G → System S G → Type 0 where
    -- the caller's context is cancelled
    interrupted : (s : System S G) → Step s (record s { group = gr.cancel s.group })
    acquires :
        (s : System S G) (i : ℕ) (n : Node) (t : S)
        → At s i n Stand.queued
        → sm.try_acquire s.sem ≡ some t
        → Step s (record (put s i n Stand.admitted) { sem = t })
    -- sem.Acquire gives up with the context's error
    refused :
        (s : System S G) (i : ℕ) (n : Node)
        → At s i n Stand.queued
        → gr.done s.group ≡ true
        → Step s (put s i n (Stand.leaving (some cancelled)))
    marks :
        (s : System S G) (i : ℕ) (n : Node)
        → At s i n Stand.admitted
        → Step s (put s i (record n { phase = Phase.provisioning }) Stand.marked)
    journals :
        (s : System S G) (i : ℕ) (n : Node) (now : ℕ)
        → At s i n Stand.marked
        → Step s (save_all now (put s i n Stand.creating))
    answers :
        (s : System S G) (i : ℕ) (n : Node) (r : Result Server)
        → At s i n Stand.creating
        → Step s (put s i (answer n r).0 (Stand.answered (answer n r).1))
    saves :
        (s : System S G) (i : ℕ) (n : Node) (o : Option Error) (now : ℕ)
        → At s i n (Stand.answered o)
        → Step s (save_all now (put s i n (Stand.saved o)))
    -- the deferred sem.Release
    releases :
        (s : System S G) (i : ℕ) (n : Node) (o : Option Error)
        → At s i n (Stand.saved o)
        → Step s (record (put s i n (Stand.leaving o)) { sem = sm.release s.sem })
    -- the goroutine's result reaches the group
    returns :
        (s : System S G) (i : ℕ) (n : Node) (o : Option Error)
        → At s i n (Stand.leaving o)
        → Step s (record (put s i n (Stand.ended o)) { group = gr.returned o s.group })

  pub data Reached (specs : List NodeSpec) (max_conc now : ℕ) (d : Disk) : System S G → Type 0 where
    starts : Reached specs max_conc now d (started specs max_conc now d)
    continues :
        (s t : System S G)
        → Reached specs max_conc now d s
        → Step s t
        → Reached specs max_conc now d t

abbrev pub is_ended : Slot → Bool
is_ended x = elim x.stand [ Stand.ended o ↦ true | _ ↦ false ]

-- g.Wait has returned: every goroutine is at its end.
abbrev pub Waited : List Slot → Type 0
Waited slots = All (λ x. is_ended x ≡ true) slots
