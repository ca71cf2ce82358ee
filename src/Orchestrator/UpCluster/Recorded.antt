-- ===== src/Orchestrator/UpCluster/Recorded.antt =====
-- UpCluster: what the journal holds once the group has been waited for.
use pandion.Prelude.{
  ℕ, ◌≡◌, refl, sym, ap, ◌∙◌, String, Bool, true, false, List, [], some, All, All-set_at,
  All-set_back, All-imp, map-set_same, arith, eq_refl,
}
use pandion.Prelude.Dict.{lookup, lookup-insert}
use pandion.State.{Node, Cluster, whole, Disk, stamp, save}
use pandion.Orchestrator.Up.{NodeSpec}
use pandion.Orchestrator.UpCluster.{
  Semaphore, Group, Stand, Slot, System, node_of, cluster_of, save_all, unsaved, started, put, At,
  Step, interrupted, acquires, refused, marks, journals, answers, saves, releases, returns, Reached,
  starts, continues, is_ended, Waited,
}

-- Whether every change of a goroutine's node has been followed by a save.
abbrev clean_at : Stand → Bool
clean_at Stand.marked = false
clean_at (Stand.answered o) = false
clean_at _ = true

abbrev Clean : Slot → Type 0
Clean x = clean_at x.stand ≡ true

ended-clean :
    (n : Node) (st : Stand) → is_ended (record { node = n; stand = st }) ≡ true → clean_at st ≡ true
ended-clean n (Stand.ended o) h = refl
ended-clean n Stand.queued h = refl
ended-clean n Stand.admitted h = refl
ended-clean n Stand.marked h = absurd (ground (arith, h))
ended-clean n Stand.creating h = refl
ended-clean n (Stand.answered o) h = absurd (ground (arith, h))
ended-clean n (Stand.saved o) h = refl
ended-clean n (Stand.leaving o) h = refl

-- On a disk that works, a save puts the stamped cluster into the record, and the disk still works.
save-works :
    (now : ℕ) (c : Cluster) (d : Disk)
    → d.faults ≡ []
    → (lookup (save now c d).1.records c.id ≡ some (whole (stamp now c)))
      × ((save now c d).1.faults ≡ [])
unfolding save
save-works now c d h = (
  ground (
    arith,
    h,
    lookup-insert d.temps c.id c.id (whole (stamp now c)),
    eq_refl c.id,
    lookup-insert d.records c.id c.id (whole (stamp now c)),
  ),
  ground (arith, h, lookup-insert d.temps c.id c.id (whole (stamp now c)), eq_refl c.id),
)

module _ {S G : Type 0} (sm : Semaphore S) (gr : Group G) (id : String) (provider : String) where
  abbrev pub Recorded : System S G → Type 0
  Recorded s =
      lookup s.disk.records id ≡ some (whole (cluster_of sm gr id provider s.updated s.slots))

  -- The record follows the nodes, but for those that a goroutine is about to save.
  abbrev Inv : System S G → Type 0
  Inv s = (s.disk.faults ≡ []) × (All Clean s.slots → Recorded s)

  save_all-Inv :
      (now : ℕ) (s : System S G) → s.disk.faults ≡ [] → Inv (save_all sm gr id provider now s)
  unfolding save_all
  save_all-Inv now s h =
      let (kept, works) =
        save-works now (cluster_of sm gr id provider s.updated s.slots) s.disk h in
      (works, λ _. kept)

  -- A move between two clean stands that leaves the node.
  Inv-put :
      (s : System S G) (i : ℕ) (n : Node) (st st' : Stand)
      → At sm gr id provider s i n st
      → clean_at st ≡ true
      → Inv s
      → Inv (put sm gr id provider s i n st')
  Inv-put s i n st st' at clean (h, k) = (
    h,
    λ all_clean.
        k (
          All-set_back Clean s.slots i (record { node = n; stand = st })
            (record { node = n; stand = st' }) at clean all_clean)
        ∙ ap
            (λ ns.
              some (whole (record (cluster_of sm gr id provider s.updated s.slots) { nodes = ns })))
            (sym (
              map-set_same node_of s.slots i (record { node = n; stand = st })
                (record { node = n; stand = st' }) at refl)),
  )

  -- A move to a stand before a save.
  Inv-dirty :
      (s : System S G) (i : ℕ) (n n' : Node) (st st' : Stand)
      → At sm gr id provider s i n st
      → clean_at st' ≡ false
      → Inv s
      → Inv (put sm gr id provider s i n' st')
  Inv-dirty s i n n' st st' at dirty (h, k) = (
    h,
    λ all_clean.
        let clean =
          All-set_at Clean s.slots i (record { node = n; stand = st })
            (record { node = n'; stand = st' }) at all_clean in
        absurd (ground (arith, dirty, clean)),
  )

  Inv-Step : {s t : System S G} → Step sm gr id provider s t → Inv s → Inv t
  Inv-Step (interrupted s) h = h
  Inv-Step (acquires s i n u at worked) h = Inv-put s i n Stand.queued Stand.admitted at refl h
  Inv-Step (refused s i n at done) h = Inv-put s i n Stand.queued _ at refl h
  Inv-Step (marks s i n at) h = Inv-dirty s i n _ Stand.admitted Stand.marked at refl h
  Inv-Step (journals s i n now at) h =
      save_all-Inv now (put sm gr id provider s i n Stand.creating) h.0
  Inv-Step (answers s i n r at) h = Inv-dirty s i n _ Stand.creating _ at refl h
  Inv-Step (saves s i n o now at) h =
      save_all-Inv now (put sm gr id provider s i n (Stand.saved o)) h.0
  Inv-Step (releases s i n o at) h = Inv-put s i n (Stand.saved o) (Stand.leaving o) at refl h
  Inv-Step (returns s i n o at) h = Inv-put s i n (Stand.leaving o) (Stand.ended o) at refl h

  Inv-Reached :
      (specs : List NodeSpec) (max_conc now : ℕ) (d : Disk) {s : System S G}
      → d.faults ≡ []
      → Reached sm gr id provider specs max_conc now d s
      → Inv s
  unfolding started
  Inv-Reached specs max_conc now d h starts =
      save_all-Inv now (unsaved sm gr id provider specs max_conc d) h
  Inv-Reached specs max_conc now d h (continues s t reached step) =
      Inv-Step step (Inv-Reached specs max_conc now d h reached)

  -- On a disk that works, in every run of UpCluster, once the group has been waited for, with or
  -- without an error, the journal's record is the cluster that UpCluster returns, whatever the
  -- order in which the goroutines saved it.
  pub Waited-Recorded :
      (specs : List NodeSpec) (max_conc now : ℕ) (d : Disk) (s : System S G)
      → d.faults ≡ []
      → Reached sm gr id provider specs max_conc now d s
      → Waited s.slots
      → Recorded s
  Waited-Recorded specs max_conc now d s h reached waited =
      (Inv-Reached specs max_conc now d h reached).1
        (All-imp (λ x. is_ended x ≡ true) Clean s.slots (λ x. ended-clean x.node x.stand) waited)
