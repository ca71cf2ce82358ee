-- ===== src/Orchestrator/UpCluster/Stands.antt =====
-- UpCluster: which goroutines hold the semaphore, and what is known of a node by the stand of its
-- goroutine.
use pandion.Prelude.{
  ℕ, zero, suc, ◌+◌, ◌≤◌, ◌≡◌, refl, ◌∙◌, Option-cases, inl, inr, Bool, true, false, List, [], ◌∷◌,
  Option, none, some, map, get_elem?, All, count, one_if, arith,
}
use pandion.Errors.{Result, ok, err, Error}
use pandion.Provider.{Server}
use pandion.State.{Phase, Node}
use pandion.Orchestrator.Up.{NodeSpec}
use pandion.Orchestrator.UpCluster.{Group, Stand, Slot, planned_slot, answer}

-- Whether a goroutine holds the semaphore.
abbrev pub holds_at : Stand → Bool
holds_at Stand.admitted = true
holds_at Stand.marked = true
holds_at Stand.creating = true
holds_at (Stand.answered o) = true
holds_at (Stand.saved o) = true
holds_at _ = false

abbrev pub holds : Slot → Bool
holds x = holds_at x.stand

abbrev creates : Stand → Bool
creates Stand.creating = true
creates _ = false

abbrev pub is_creating : Slot → Bool
is_creating x = creates x.stand

abbrev pub IsRunning : Node → Type 0
IsRunning n = n.phase ≡ Phase.running

abbrev Fine : Option Error → Node → Type 0
Fine none n = IsRunning n
Fine (some e) n = Unit

-- What is known of a node by its goroutine's stand and the group's error.
abbrev pub SettledAt : Option Error → Node → Stand → Type 0
SettledAt first n (Stand.answered o) = Fine o n
SettledAt first n (Stand.saved o) = Fine o n
SettledAt first n (Stand.leaving o) = Fine o n
SettledAt first n (Stand.ended none) = IsRunning n
SettledAt first n (Stand.ended (some e)) = (f : Error) × (first ≡ some f)
SettledAt first n _ = Unit

abbrev pub Settled : Option Error → Slot → Type 0
Settled first x = SettledAt first x.node x.stand

pub SettledAt-some :
    (first : Option Error) (e : Error) (n : Node) (st : Stand)
    → SettledAt first n st
    → SettledAt (some e) n st
SettledAt-some first e n (Stand.ended none) h = h
SettledAt-some first e n (Stand.ended (some f)) h = (e, refl)
SettledAt-some first e n Stand.queued h = tt
SettledAt-some first e n Stand.admitted h = tt
SettledAt-some first e n Stand.marked h = tt
SettledAt-some first e n Stand.creating h = tt
SettledAt-some first e n (Stand.answered o) h = h
SettledAt-some first e n (Stand.saved o) h = h
SettledAt-some first e n (Stand.leaving o) h = h

pub Fine-answer : (n : Node) (r : Result Server) → Fine (answer n r).1 (answer n r).0
unfolding answer
Fine-answer n (ok srv) = refl
Fine-answer n (err e) = tt

pub planned-Settled :
    (first : Option Error) (specs : List NodeSpec) → All (Settled first) (map planned_slot specs)
planned-Settled first [] = tt
planned-Settled first (s ∷ ss) = (tt, planned-Settled first ss)

pub planned-holds : (specs : List NodeSpec) → count holds (map planned_slot specs) ≡ 0
planned-holds [] = refl
planned-holds (s ∷ ss) = omega (arith, planned-holds ss)

pub holds-some :
    (xs : List Slot) (i : ℕ) (x : Slot)
    → get_elem? xs i ≡ some x
    → holds x ≡ true
    → (k : ℕ) × (count holds xs ≡ suc k)
holds-some [] i x h t = absurd (ground (arith, h))
holds-some (y ∷ ys) zero x h t = (count holds ys, ground (arith, h, t))
holds-some (y ∷ ys) (suc i) x h t =
    let (k, e) = holds-some ys i x h t in (k + one_if (holds y), omega (arith, e))

creating-holds_one : (st : Stand) → one_if (creates st) ≤ one_if (holds_at st)
creating-holds_one Stand.creating = omega arith
creating-holds_one _ = omega arith

pub creating-holds : (xs : List Slot) → count is_creating xs ≤ count holds xs
creating-holds [] = omega arith
creating-holds (x ∷ xs) = omega (arith, creating-holds_one x.stand, creating-holds xs)

pub returned-some :
    {G : Type 0} (gr : Group G) (e : Error) (g : G)
    → (f : Error) × (gr.first (gr.returned (some e) g) ≡ some f)
returned-some gr e g = elim (Option-cases (gr.first g)) [
  | inl nothing ↦ (e, gr.returned_some e g ∙ rw nothing)
  | inr (f, found) ↦ (f, gr.returned_some e g ∙ rw found)
]
