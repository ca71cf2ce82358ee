-- ===== src/Orchestrator/Reap/Gone.antt =====
-- What Reap has done when it reports no error.
use pandion.Prelude.{
  ℕ, ◌+◌, ◌≡◌, refl, String, List, [], ◌∷◌, Option, none, some, arith, length, All, sym, subst, inl,
  inr,
}
use pandion.Errors.{Error, Result-cases}
use pandion.Provider.{Context, Provider, Server}
use pandion.Orchestrator.{World}
use pandion.Orchestrator.Down.{down, first_error}
use pandion.Orchestrator.Down.Contract.{Contract, tagged}
use pandion.Orchestrator.Down.Verified.{down-IsGone, down-valid}
use pandion.Orchestrator.Down.Others.{down-Keeps, Apart}
use pandion.Orchestrator.Reap.{ReapCandidate, one_more, reap_loop, reap}

All-Apart-nil : (l : List Server) → All (Apart []) l
All-Apart-nil [] = tt
All-Apart-nil (t ∷ l) = (tt, All-Apart-nil l)

module _ {C : Type 0} (p : Provider C) (k : Contract p) (base_delay : ℕ) (ctx : Context) where
  open k use {alive, valid}

  abbrev pub Empty : String → World C → Type 0
  Empty id w = tagged id (alive w.net.cloud) ≡ []

  -- A cluster that has no servers gets none by a reaping.
  reap_loop-Empty :
      (id : String) (n : ℕ) (first : Option Error) (cs : List ReapCandidate) (w : World C)
      → All (λ c. k.names c.cluster_id) cs
      → valid w.net.cloud
      → Empty id w
      → Empty id (reap_loop p base_delay ctx n first cs w).1
  unfolding reap_loop
  reap_loop-Empty id n first [] w named v h = h
  reap_loop-Empty id n first (c ∷ cs) w named v h =
      let (v', h') =
        down-Keeps p k base_delay ctx id [] c.cluster_id w named.0
          (All-Apart-nil (tagged c.cluster_id (alive w.net.cloud))) (v, h) in
      let (r, w') = down p base_delay ctx c.cluster_id w in
      reap_loop-Empty id (one_more n r) (first_error first r) cs w' named.1 v' h'

  reap_loop-first :
      (n : ℕ) (e : Error) (cs : List ReapCandidate) (w : World C)
      → (reap_loop p base_delay ctx n (some e) cs w).0.1 ≡ some e
  unfolding reap_loop
  reap_loop-first n e [] w = refl
  reap_loop-first n e (c ∷ cs) w =
      let (r, w') = down p base_delay ctx c.cluster_id w in reap_loop-first (one_more n r) e cs w'

  reap_loop-gone :
      (n : ℕ) (cs : List ReapCandidate) (w : World C)
      → All (λ c. k.names c.cluster_id) cs
      → valid w.net.cloud
      → (reap_loop p base_delay ctx n none cs w).0.1 ≡ none
      → ((reap_loop p base_delay ctx n none cs w).0.0 ≡ n + length cs)
        × All (λ c. Empty c.cluster_id (reap_loop p base_delay ctx n none cs w).1) cs
  unfolding reap_loop
  reap_loop-gone n [] w named v h = (omega arith, tt)
  reap_loop-gone n (c ∷ cs) w named v h =
      let (r, w') = down p base_delay ctx c.cluster_id w in
      let v' = down-valid p k base_delay ctx c.cluster_id w v in
      elim (Result-cases r) [
        | inr (e, failed) ↦ absurd (ground (arith, reap_loop-first n e cs w'))
        | inl (u, worked) ↦
            let (many, gone) =
              reap_loop-gone (n + 1) cs w' named.1 v' (rw (worked, reap_loop) at h) in
            let empty = (down-IsGone p k base_delay ctx c.cluster_id w named.0 v worked).0 in
            let stepped : reap_loop p base_delay ctx n none (c ∷ cs) w
                ≡ reap_loop p base_delay ctx (n + 1) none cs w' =
              rw (worked, reap_loop) in
            subst (λ x. (x.0.0 ≡ n + length (c ∷ cs)) × All (λ d. Empty d.cluster_id x.1) (c ∷ cs))
              (sym stepped)
              (
                omega (arith, many),
                (reap_loop-Empty c.cluster_id (n + 1) none cs w' named.1 v' empty, gone),
              )
      ]

  -- Over a backend that keeps its contract, from a state that is valid by it, for candidates whose
  -- ids the backend tells apart: if Reap reports no error, it counts every candidate as reaped, and at its end the backend has no server of any
  -- candidate: a later teardown brings no earlier cluster back.
  pub reap-gone :
      (cs : List ReapCandidate) (w : World C)
      → All (λ c. k.names c.cluster_id) cs
      → valid w.net.cloud
      → (reap p base_delay ctx cs w).0.1 ≡ none
      → ((reap p base_delay ctx cs w).0.0 ≡ length cs)
        × All (λ c. Empty c.cluster_id (reap p base_delay ctx cs w).1) cs
  unfolding reap
  reap-gone cs w named v h =
      let (many, gone) = reap_loop-gone 0 cs w named v h in (omega (arith, many), gone)
