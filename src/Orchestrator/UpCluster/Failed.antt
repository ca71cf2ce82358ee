-- ===== src/Orchestrator/UpCluster/Failed.antt =====
-- UpCluster: when the group has an error.
use pandion.Prelude.{
  ℕ, ◌≡◌, refl, sym, ◌∙◌, ◌⊎◌, inl, inr, String, Bool, true, false, List, [], ◌∷◌, Option, none,
  some, All, any, any-set, any-set_hit, arith,
}
use pandion.Errors.{Error, cancelled}
use pandion.State.{Node, Disk}
use pandion.Orchestrator.Up.{NodeSpec}
use pandion.Orchestrator.UpCluster.{
  Semaphore, Group, Stand, Slot, System, answer, save_all, started, put, At, Step, interrupted,
  acquires, refused, marks, journals, answers, saves, releases, returns, Reached, starts, continues,
}
use pandion.Orchestrator.UpCluster.Barrier.{Settled-Reached}
use pandion.Orchestrator.UpCluster.Stands.{Settled, SettledAt}

abbrev failed_at : Stand → Bool
failed_at (Stand.ended (some e)) = true
failed_at _ = false

-- The goroutine has ended with an error.
abbrev pub failed : Slot → Bool
failed x = failed_at x.stand

abbrev pub is_some : Option Error → Bool
is_some none = false
is_some (some e) = true

none_failed :
    (n : Node) (st : Stand) (f : Option Error) → SettledAt f n st → f ≡ none → failed_at st ≡ false
none_failed n (Stand.ended (some e)) f h nothing = absurd (ground (arith, h.1, nothing))
none_failed n (Stand.ended none) f h nothing = refl
none_failed n Stand.queued f h nothing = refl
none_failed n Stand.admitted f h nothing = refl
none_failed n Stand.marked f h nothing = refl
none_failed n Stand.creating f h nothing = refl
none_failed n (Stand.answered o) f h nothing = refl
none_failed n (Stand.saved o) f h nothing = refl
none_failed n (Stand.leaving o) f h nothing = refl

any-failed-none :
    (f : Option Error) (xs : List Slot) → All (Settled f) xs → f ≡ none → any failed xs ≡ false
any-failed-none f [] h nothing = refl
any-failed-none f (x ∷ xs) h nothing =
    ground (arith, none_failed x.node x.stand f h.0 nothing, any-failed-none f xs h.1 nothing)

module _ {S G : Type 0} (sm : Semaphore S) (gr : Group G) (id : String) (provider : String) where
  abbrev Inv : System S G → Type 0
  Inv s = (gr.first s.group ≡ none) ⊎ (any failed s.slots ≡ true)

  -- A move that leaves the group, from a stand that is not the end.
  Inv-put :
      (s : System S G) (i : ℕ) (n n' : Node) (st st' : Stand)
      → At sm gr id provider s i n st
      → failed_at st ≡ false
      → Inv s
      → Inv (put sm gr id provider s i n' st')
  Inv-put s i n n' st st' at open' (inl e) = inl e
  Inv-put s i n n' st st' at open' (inr a) = inr (
      any-set failed s.slots i (record { node = n; stand = st }) (record { node = n'; stand = st' })
        at open' a)

  Inv-first :
      (s : System S G) (g : G)
      → gr.first g ≡ gr.first s.group
      → Inv s
      → Inv (record s { group = g })
  Inv-first s g same (inl e) = inl (same ∙ e)
  Inv-first s g same (inr a) = inr a

  Inv-Step : {s t : System S G} → Step sm gr id provider s t → Inv s → Inv t
  unfolding save_all
  Inv-Step (interrupted s) h = Inv-first s (gr.cancel s.group) (gr.cancel_first s.group) h
  Inv-Step (acquires s i n u at worked) h = Inv-put s i n n Stand.queued Stand.admitted at refl h
  Inv-Step (refused s i n at done) h =
      Inv-put s i n n Stand.queued (Stand.leaving (some cancelled)) at refl h
  Inv-Step (marks s i n at) h = Inv-put s i n _ Stand.admitted Stand.marked at refl h
  Inv-Step (journals s i n now at) h = Inv-put s i n n Stand.marked Stand.creating at refl h
  Inv-Step (answers s i n r at) h =
      Inv-put s i n _ Stand.creating (Stand.answered (answer n r).1) at refl h
  Inv-Step (saves s i n o now at) h = Inv-put s i n n (Stand.answered o) (Stand.saved o) at refl h
  Inv-Step (releases s i n o at) h = Inv-put s i n n (Stand.saved o) (Stand.leaving o) at refl h
  Inv-Step (returns s i n none at) h =
      Inv-first (put sm gr id provider s i n (Stand.ended none)) (gr.returned none s.group)
        (gr.returned_none s.group)
        (Inv-put s i n n (Stand.leaving none) (Stand.ended none) at refl h)
  Inv-Step (returns s i n (some e) at) h = inr (
      any-set_hit failed s.slots i (record { node = n; stand = Stand.leaving (some e) })
        (record { node = n; stand = Stand.ended (some e) }) at refl)

  Inv-Reached :
      (specs : List NodeSpec) (max_conc now : ℕ) (d : Disk) {s : System S G}
      → Reached sm gr id provider specs max_conc now d s
      → Inv s
  unfolding started save_all
  Inv-Reached specs max_conc now d starts = inl gr.with_context_none
  Inv-Reached specs max_conc now d (continues s t reached step) =
      Inv-Step step (Inv-Reached specs max_conc now d reached)

  decided :
      (s : System S G) (f : Option Error)
      → gr.first s.group ≡ f
      → Inv s
      → All (Settled (gr.first s.group)) s.slots
      → is_some f ≡ any failed s.slots
  decided s none e h k = sym (any-failed-none (gr.first s.group) s.slots k e)
  decided s (some x) e (inl n) k = absurd (ground (arith, e, n))
  decided s (some x) e (inr a) k = sym a

  -- At every point of every run of UpCluster, the group has an error exactly if a goroutine has
  -- ended with one: what the wait returns hides no failure, and makes none up.
  pub Reached-failed :
      (specs : List NodeSpec) (max_conc now : ℕ) (d : Disk) (s : System S G)
      → Reached sm gr id provider specs max_conc now d s
      → is_some (gr.first s.group) ≡ any failed s.slots
  Reached-failed specs max_conc now d s reached =
      decided s (gr.first s.group) refl (Inv-Reached specs max_conc now d reached)
        (Settled-Reached sm gr id provider specs max_conc now d s reached)
