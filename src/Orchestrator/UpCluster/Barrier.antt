-- ===== src/Orchestrator/UpCluster/Barrier.antt =====
-- UpCluster: how many goroutines work at a time, and what holds once the group has been waited for.
use pandion.Prelude.{
  ℕ, ◌≤◌, ◌≡◌, ◌==◌, refl, sym, ◌∙◌, subst, String, true, List, [], ◌∷◌, Option, none, some, set,
  All, All-set, All-get_elem?, All-imp, count, count-set, if◌then◌else◌, arith,
}
use pandion.Errors.{Error, cancelled}
use pandion.State.{Node, Disk}
use pandion.Orchestrator.Up.{NodeSpec}
use pandion.Orchestrator.UpCluster.{
  Semaphore, Group, Stand, Slot, System, answer, save_all, started, put, At, Step, interrupted,
  acquires, refused, marks, journals, answers, saves, releases, returns, Reached, starts, continues,
  is_ended, Waited, default_max_concurrency,
}
use pandion.Orchestrator.UpCluster.Stands.{
  holds_at, holds, is_creating, IsRunning, SettledAt, Settled, SettledAt-some, Fine-answer,
  planned-Settled, planned-holds, holds-some, creating-holds, returned-some,
}

module _ {S G : Type 0} (sm : Semaphore S) (gr : Group G) (id : String) (provider : String) where
  open sm use {held, size}
  open gr use {first}

  -- Under a limit, the semaphore's count is that of the goroutines that hold it.
  abbrev Held : ℕ → S → List Slot → Type 0
  Held limit t slots = (held t ≡ count holds slots) × (held t ≤ size t) × (size t ≡ limit)

  abbrev Inv : ℕ → System S G → Type 0
  Inv limit s = Held limit s.sem s.slots × All (Settled (first s.group)) s.slots

  -- A move between two stands that both hold the semaphore, or both do not.
  Held-put :
      (limit : ℕ) (s : System S G) (i : ℕ) (n : Node) (st : Stand) (n' : Node) (st' : Stand)
      → At sm gr id provider s i n st
      → holds_at st ≡ holds_at st'
      → Held limit s.sem s.slots
      → Held limit s.sem (put sm gr id provider s i n' st').slots
  Held-put limit s i n st n' st' at same (h, le, e) = (
    ground (
      arith,
      count-set holds s.slots i (record { node = n; stand = st })
          (record { node = n'; stand = st' }) at,
    ),
    le,
    e,
  )

  Inv-Step : (limit : ℕ) {s t : System S G} → Step sm gr id provider s t → Inv limit s → Inv limit t
  unfolding save_all
  Inv-Step limit (interrupted s) (h, k) =
      (h, subst (λ f. All (Settled f) s.slots) (sym (gr.cancel_first s.group)) k)
  Inv-Step limit (acquires s i n u at worked) (h, k) =
      let (room, more, same) = sm.acquired s.sem u worked in
      let counted =
        count-set holds s.slots i (record { node = n; stand = Stand.queued })
          (record { node = n; stand = Stand.admitted }) at in
      (
        (
          omega (arith, h.0, more, counted),
          omega (arith, room, more, same),
          omega (arith, same, h.2),
        ),
        All-set (Settled (first s.group)) s.slots i _ k tt,
      )
  Inv-Step limit (refused s i n at done) (h, k) = (
    Held-put limit s i n Stand.queued n (Stand.leaving (some cancelled)) at refl h,
    All-set (Settled (first s.group)) s.slots i _ k tt,
  )
  Inv-Step limit (marks s i n at) (h, k) = (
    Held-put limit s i n Stand.admitted _ Stand.marked at refl h,
    All-set (Settled (first s.group)) s.slots i _ k tt,
  )
  Inv-Step limit (journals s i n now at) (h, k) = (
    Held-put limit s i n Stand.marked n Stand.creating at refl h,
    All-set (Settled (first s.group)) s.slots i _ k tt,
  )
  Inv-Step limit (answers s i n r at) (h, k) = (
    Held-put limit s i n Stand.creating _ (Stand.answered (answer n r).1) at refl h,
    All-set (Settled (first s.group)) s.slots i _ k (Fine-answer n r),
  )
  Inv-Step limit (saves s i n o now at) (h, k) = (
    Held-put limit s i n (Stand.answered o) n (Stand.saved o) at refl h,
    All-set (Settled (first s.group)) s.slots i _ k
        (All-get_elem? (Settled (first s.group)) s.slots i _ k at),
  )
  Inv-Step limit (releases s i n o at) (h, k) =
      let counted =
        count-set holds s.slots i (record { node = n; stand = Stand.saved o })
          (record { node = n; stand = Stand.leaving o }) at in
      let (m, some_held) = holds-some s.slots i _ at refl in
      let (less, same) = sm.released s.sem m (h.0 ∙ some_held) in
      (
        (
          omega (arith, counted, some_held, less),
          omega (arith, h.0, h.1, some_held, less, same),
          omega (arith, same, h.2),
        ),
        All-set (Settled (first s.group)) s.slots i _ k
            (All-get_elem? (Settled (first s.group)) s.slots i _ k at),
      )
  Inv-Step limit (returns s i n none at) (h, k) = (
    Held-put limit s i n (Stand.leaving none) n (Stand.ended none) at refl h,
    subst (λ f. All (Settled f) (set s.slots i (record { node = n; stand = Stand.ended none })))
        (sym (gr.returned_none s.group))
        (All-set (Settled (first s.group)) s.slots i _ k
          (All-get_elem? (Settled (first s.group)) s.slots i _ k at)),
  )
  Inv-Step limit (returns s i n (some e) at) (h, k) =
      let (f, told) = returned-some gr e s.group in
      (
        Held-put limit s i n (Stand.leaving (some e)) n (Stand.ended (some e)) at refl h,
        subst
            (λ x.
              All (Settled x) (set s.slots i (record { node = n; stand = Stand.ended (some e) })))
            (sym told)
            (All-set (Settled (some f)) s.slots i
              (record { node = n; stand = Stand.ended (some e) })
              (All-imp (Settled (first s.group)) (Settled (some f)) s.slots
                (λ x. SettledAt-some (first s.group) f x.node x.stand) k)
              (f, refl)),
      )

  abbrev pub limit_of : ℕ → ℕ
  limit_of max_conc = if max_conc == 0 then default_max_concurrency else max_conc

  Inv-Reached :
      (specs : List NodeSpec) (max_conc now : ℕ) (d : Disk) {s : System S G}
      → Reached sm gr id provider specs max_conc now d s
      → Inv (limit_of max_conc) s
  unfolding started save_all
  Inv-Reached specs max_conc now d starts =
      let (free, sized) = sm.new_free (limit_of max_conc) in
      (
        (ground (arith, free, planned-holds specs), omega (arith, free), sized),
        planned-Settled (first gr.with_context) specs,
      )
  Inv-Reached specs max_conc now d (continues s t reached step) =
      Inv-Step (limit_of max_conc) step (Inv-Reached specs max_conc now d reached)

  -- At every point of every run of UpCluster, no more nodes are being created at once than the
  -- given number, or five for the number 0.
  pub creating-Reached :
      (specs : List NodeSpec) (max_conc now : ℕ) (d : Disk) (s : System S G)
      → Reached sm gr id provider specs max_conc now d s
      → count is_creating s.slots ≤ (if max_conc == 0 then 5 else max_conc)
  creating-Reached specs max_conc now d s reached =
      let ((h, le, e), k) = Inv-Reached specs max_conc now d reached in
      omega (arith, h, le, e, creating-holds s.slots)

  ended-IsRunning :
      (n : Node) (st : Stand) (f : Option Error)
      → is_ended (record { node = n; stand = st }) ≡ true
      → SettledAt f n st
      → f ≡ none
      → IsRunning n
  ended-IsRunning n (Stand.ended none) f e h nothing = h
  ended-IsRunning n (Stand.ended (some x)) f e h nothing = absurd (ground (arith, h.1))
  ended-IsRunning n Stand.queued f e h nothing = absurd (ground (arith, e))
  ended-IsRunning n Stand.admitted f e h nothing = absurd (ground (arith, e))
  ended-IsRunning n Stand.marked f e h nothing = absurd (ground (arith, e))
  ended-IsRunning n Stand.creating f e h nothing = absurd (ground (arith, e))
  ended-IsRunning n (Stand.answered o) f e h nothing = absurd (ground (arith, e))
  ended-IsRunning n (Stand.saved o) f e h nothing = absurd (ground (arith, e))
  ended-IsRunning n (Stand.leaving o) f e h nothing = absurd (ground (arith, e))

  All-IsRunning :
      (f : Option Error) (xs : List Slot)
      → Waited xs
      → All (Settled f) xs
      → f ≡ none
      → All (λ x. IsRunning x.node) xs
  All-IsRunning f [] w h nothing = tt
  All-IsRunning f (x ∷ xs) w h nothing =
      (ended-IsRunning x.node x.stand f w.0 h.0 nothing, All-IsRunning f xs w.1 h.1 nothing)

  -- The barrier: in every run of UpCluster, once the group has been waited for and has no error,
  -- every node of the cluster runs.
  pub Waited-IsRunning :
      (specs : List NodeSpec) (max_conc now : ℕ) (d : Disk) (s : System S G)
      → Reached sm gr id provider specs max_conc now d s
      → Waited s.slots
      → gr.first s.group ≡ none
      → All (λ x. IsRunning x.node) s.slots
  Waited-IsRunning specs max_conc now d s reached waited nothing =
      All-IsRunning (gr.first s.group) s.slots waited (Inv-Reached specs max_conc now d reached).1
        nothing

  pub Settled-Reached :
      (specs : List NodeSpec) (max_conc now : ℕ) (d : Disk) (s : System S G)
      → Reached sm gr id provider specs max_conc now d s
      → All (Settled (gr.first s.group)) s.slots
  Settled-Reached specs max_conc now d s reached = (Inv-Reached specs max_conc now d reached).1
