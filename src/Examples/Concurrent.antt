-- ===== src/Examples/Concurrent.antt =====
-- UpCluster over a counting semaphore and a plain error group: one node, brought up to its end.
use pandion.Prelude.{
  ℕ, suc, ◌+◌, ◌-◌, ◌<◌, ◌≤◌, ◌≡◌, refl, String, Bool, true, false, List, [], ◌∷◌, Option, none,
  some, All, count, ltb, arith, if◌then◌else◌,
}
use pandion.Errors.{ok, Error}
use pandion.Provider.{no_gpu}
use pandion.State.{Phase, Node}
use pandion.Orchestrator.Up.{NodeSpec}
use pandion.Orchestrator.UpCluster.{
  Semaphore, Group, Stand, System, put, Waited, started, save_all, answer, acquires, marks,
  journals, answers, saves, releases, returns, Reached, starts, continues,
}
use pandion.Orchestrator.UpCluster.Stands.{IsRunning, is_creating}
use pandion.Orchestrator.UpCluster.Barrier.{creating-Reached, Waited-IsRunning}
use pandion.Orchestrator.UpCluster.Recorded.{Recorded, Waited-Recorded}
use pandion.Examples.{empty_disk, server_of}

counting-acquired :
    (s t : ℕ × ℕ)
    → (if ltb s.0 s.1 then some (s.0 + 1, s.1) else none) ≡ some t
    → (s.0 < s.1) × (t.0 ≡ s.0 + 1) × (t.1 ≡ s.1)
counting-acquired s t h = ground (arith, h)

counting-released : (n k : ℕ) → n ≡ suc k → n - 1 ≡ k
counting-released n k h = omega (arith, h)

abbrev counting : Semaphore (ℕ × ℕ)
counting = record {
  new_weighted = λ n. (0, n);
  try_acquire = λ s. if ltb s.0 s.1 then some (s.0 + 1, s.1) else none;
  release = λ s. (s.0 - 1, s.1);
  held = λ s. s.0;
  size = λ s. s.1;
  new_free = λ n. (refl, refl);
  acquired = counting-acquired;
  released = λ s k h. (counting-released s.0 k h, refl);
}

abbrev first_kept : Option Error → Option Error → Option Error
first_kept none o = o
first_kept (some e) o = some e

abbrev kept_once : Option Error → Option Error → Option Error
kept_once o none = o
kept_once o (some e) = first_kept o (some e)

abbrev stopped : Option Error → Bool → Bool
stopped none b = b
stopped (some e) b = true

first_kept_law :
    (o : Option Error) (e : Error)
    → first_kept o (some e) ≡ elim o [ none ↦ some e | some x ↦ some x ]
first_kept_law none e = refl
first_kept_law (some f) e = refl

abbrev plain_group : Group (Option Error × Bool)
plain_group = record {
  with_context = (none, false);
  cancel = λ g. (g.0, true);
  returned = λ o g. (kept_once g.0 o, stopped o g.1);
  done = λ g. g.1;
  first = λ g. g.0;
  with_context_none = refl;
  cancel_first = λ g. refl;
  returned_none = λ g. refl;
  returned_some = λ e g. first_kept_law g.0 e;
}

abbrev one_spec : List NodeSpec
one_spec =
    record {
      name = "a";
      user_data = "";
      login_pub_key = "";
      type = "";
      image = "";
      region_pref = [];
      gpu = no_gpu;
    }
    ∷ []

abbrev Run : Type 0
Run = System (ℕ × ℕ) (Option Error × Bool)

abbrev node_at : Phase → String → String → Node
node_at phase id ip = record { name = "a"; server_id = id; ip = ip; phase = phase }

abbrev moved : Run → Node → Stand → Run
moved s n st = put counting plain_group "c" "mock" s 0 n st

abbrev saved_at : ℕ → Run → Run
saved_at now s = save_all counting plain_group "c" "mock" now s

abbrev begun : Run
begun = started counting plain_group "c" "mock" one_spec 2 7 (empty_disk [])

abbrev inside : Run
inside = record (moved begun (node_at Phase.planned "" "") Stand.admitted) { sem = (1, 2) }

abbrev under_way : Run
under_way = moved inside (node_at Phase.provisioning "" "") Stand.marked

abbrev waiting : Run
waiting = saved_at 8 (moved under_way (node_at Phase.provisioning "" "") Stand.creating)

abbrev up : Node
up = (answer (node_at Phase.provisioning "" "") (ok (server_of "s-1" "c"))).0

abbrev answered_run : Run
answered_run = moved waiting up (Stand.answered none)

abbrev saved_run : Run
saved_run = saved_at 9 (moved answered_run up (Stand.saved none))

abbrev released_run : Run
released_run = record (moved saved_run up (Stand.leaving none)) { sem = (0, 2) }

abbrev ended_run : Run
ended_run = moved released_run up (Stand.ended none)

one_up : Reached counting plain_group "c" "mock" one_spec 2 7 (empty_disk []) ended_run
unfolding started save_all answer
one_up =
    continues released_run ended_run
      (continues saved_run released_run
        (continues answered_run saved_run
          (continues waiting answered_run
            (continues under_way waiting
              (continues inside under_way
                (continues begun inside starts
                  (acquires begun 0 (node_at Phase.planned "" "") (1, 2) refl refl))
                (marks inside 0 (node_at Phase.planned "" "") refl))
              (journals under_way 0 (node_at Phase.provisioning "" "") 8 refl))
            (answers waiting 0 (node_at Phase.provisioning "" "") (ok (server_of "s-1" "c")) refl))
          (saves answered_run 0 up none 9 refl))
        (releases saved_run 0 up none refl))
      (returns released_run 0 up none refl)

ended_run-Waited : Waited ended_run.slots
unfolding started save_all answer
ended_run-Waited = (refl, tt)

Waited-IsRunning_example : All (λ x. IsRunning x.node) ended_run.slots
unfolding started save_all
Waited-IsRunning_example =
    Waited-IsRunning counting plain_group "c" "mock" one_spec 2 7 (empty_disk []) ended_run one_up
      ended_run-Waited refl

creating-Reached_example : count is_creating ended_run.slots ≤ 2
creating-Reached_example =
    creating-Reached counting plain_group "c" "mock" one_spec 2 7 (empty_disk []) ended_run one_up

Waited-Recorded_example : Recorded counting plain_group "c" "mock" ended_run
Waited-Recorded_example =
    Waited-Recorded counting plain_group "c" "mock" one_spec 2 7 (empty_disk []) ended_run refl
      one_up ended_run-Waited
