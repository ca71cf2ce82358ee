-- ===== src/Orchestrator/Reap.antt =====
-- ReapPlan and Reap: the clusters that are alive at the backend, and their teardown. A duration is
-- a number of nanoseconds; the difference to Go's zero time is the largest duration there is. The age of a creation in the future
-- is 0, where that of Go is below 0; it is too young for every bound that is set, as it is in Go.
pub mod Plan
pub mod Due
pub mod Gone
use pandion.Prelude.{
  ℕ, suc, ◌+◌, ◌-◌, ◌^◌, String, Bool, true, false, List, [], ◌∷◌, Option, none, some, ltb,
  if◌then◌else◌, map, not, ◌&&◌, select,
}
use pandion.Prelude.Dict.{Dict, lookup, insert}
use pandion.Prelude.Order.{sort, str_leb}
use pandion.Errors.{Result, ok, err, Error}
use pandion.Provider.{Context, Net, Provider, Server}
use pandion.Orchestrator.{World}
use pandion.Orchestrator.Down.{down, first_error}

pub record ReapCandidate : Type 0 where
  pub cluster_id : String
  pub servers : ℕ
  pub oldest_age : ℕ

-- The running count and the oldest creation of a cluster; none is the zero time.
pub record Agg : Type 0 where
  pub n : ℕ
  pub oldest : Option ℕ

-- `!s.Created.IsZero() && s.Created.Before(a.oldest)`
unfoldable pub is_older : Option ℕ → Option ℕ → Bool
is_older none oldest = false
is_older (some t) none = false
is_older (some t) (some u) = ltb t u

abbrev known_agg : Option Agg → Server → Agg
known_agg none s = record { n = 0; oldest = s.created }
known_agg (some a) s = a

-- One server onto its cluster's entry.
unfoldable pub count_server : Option Agg → Server → Agg
unfolding is_older
count_server found s =
    let a = known_agg found s in
    record { n = a.n + 1; oldest = (if is_older s.created a.oldest then s.created else a.oldest) }

unfoldable pub aggregate : Dict Agg → List Server → Dict Agg
unfolding count_server
aggregate m [] = m
aggregate m (s ∷ ss) = aggregate (insert m s.cluster_id (count_server (lookup m s.cluster_id) s)) ss

abbrev pub max_duration : ℕ
max_duration = 2 ^ 63 - 1

-- now.Sub(oldest)
unfoldable pub age_of : ℕ → Option ℕ → ℕ
age_of now none = max_duration
age_of now (some t) = now - t

-- Whether the loop over the clusters passes one over.
unfoldable pub too_young : ℕ → ℕ → Bool
too_young older_than age = ltb 0 older_than && ltb age older_than

unfoldable pub candidate : ℕ → String × Agg → ReapCandidate
unfolding age_of
candidate now e = record { cluster_id = e.0; servers = e.1.n; oldest_age = age_of now e.1.oldest }

abbrev pub by_cluster : ReapCandidate → ReapCandidate → Bool
by_cluster a b = str_leb a.cluster_id b.cluster_id

unfoldable pub plan : ℕ → ℕ → List Server → List ReapCandidate
unfolding candidate too_young aggregate
plan older_than now all =
    sort by_cluster (
      select (λ c. not (too_young older_than c.oldest_age))
        (map (candidate now) (aggregate [] all)))

module _ {C : Type 0} (p : Provider C) (ctx : Context) where
  unfoldable pub reap_plan : ℕ → Net C → Result (List ReapCandidate) × Net C
  unfolding plan
  reap_plan older_than n =
      let (all, n') = p.list_all_tagged ctx n in
      elim all [ err e ↦ (err e, n') | ok ss ↦ (ok (plan older_than n'.now ss), n') ]

abbrev pub one_more : ℕ → Result (Unit {0}) → ℕ
one_more n (ok _) = n + 1
one_more n (err e) = n

module _ {C : Type 0} (p : Provider C) (base_delay : ℕ) (ctx : Context) where
  -- The loop of Reap: it goes on past a failure and keeps the first error.
  unfoldable pub reap_loop :
      ℕ → Option Error → List ReapCandidate → World C → (ℕ × Option Error) × World C
  reap_loop n first [] w = ((n, first), w)
  reap_loop n first (c ∷ cs) w =
      let (r, w') = down p base_delay ctx c.cluster_id w in
      reap_loop (one_more n r) (first_error first r) cs w'

  unfoldable pub reap : List ReapCandidate → World C → (ℕ × Option Error) × World C
  unfolding reap_loop
  reap candidates w = reap_loop 0 none candidates w
