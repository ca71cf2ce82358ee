-- ===== src/Orchestrator/Reap/Plan.antt =====
-- What a reap plan lists.
use pandion.Prelude.{
  ℕ, ◌+◌, ◌≡◌, refl, ◌≤◌, String, List, [], ◌∷◌, Option, none, some, arith, ltb, str_eq, eq_iff,
  if◌then◌else◌, length, select, select-select, All, Bool-cases, inl, inr, not, map, ap, ◌∙◌,
}
use pandion.Prelude.Dict.{Dict, lookup, insert, lookup-insert, Distinct, insert-Distinct}
use pandion.Prelude.Order.{
  sort, sort-IsSorted, IsSorted, str_leb_total, select-sort_nil, select-sort_one,
}
use pandion.Provider.{Server}
use pandion.Orchestrator.Reap.{
  ReapCandidate, Agg, count_server, aggregate, plan, candidate, age_of, is_older, too_young,
  by_cluster, max_duration,
}

abbrev pub tagged : String → List Server → List Server
tagged id = select (λ s. str_eq s.cluster_id id)

-- The entry that a cluster's own servers make.
unfoldable pub fold_servers : Option Agg → List Server → Option Agg
fold_servers o [] = o
fold_servers o (s ∷ ss) = fold_servers (some (count_server o s)) ss

lookup-aggregate :
    (m : Dict Agg) (ss : List Server) (id : String)
    → lookup (aggregate m ss) id ≡ fold_servers (lookup m id) (tagged id ss)
unfolding aggregate fold_servers
lookup-aggregate m [] id = refl
lookup-aggregate m (s ∷ ss) id =
    let a = count_server (lookup m s.cluster_id) s in
    ground (
      arith,
      lookup-aggregate (insert m s.cluster_id a) ss id,
      lookup-insert m s.cluster_id id a,
      eq_iff s.cluster_id id,
    )

aggregate-Distinct : (m : Dict Agg) (ss : List Server) → Distinct m → Distinct (aggregate m ss)
unfolding aggregate
aggregate-Distinct m [] d = d
aggregate-Distinct m (s ∷ ss) d =
    aggregate-Distinct (insert m s.cluster_id (count_server (lookup m s.cluster_id) s)) ss
      (insert-Distinct m s.cluster_id (count_server (lookup m s.cluster_id) s) d)

-- The candidates of one cluster.
abbrev pub planned : String → List ReapCandidate → List ReapCandidate
planned id = select (λ c. str_eq c.cluster_id id)

abbrev only : ℕ → String → Option Agg → List ReapCandidate
only now id none = []
only now id (some a) = candidate now (id, a) ∷ []

planned-candidates :
    (now : ℕ) (id : String) (m : Dict Agg)
    → Distinct m
    → planned id (map (candidate now) m) ≡ only now id (lookup m id)
unfolding lookup candidate
planned-candidates now id [] d = refl
planned-candidates now id ((k, a) ∷ m) d =
    ground (arith, planned-candidates now id m d.1, eq_iff k id)

-- The plan's answer for a cluster with an entry, if the entry is old enough.
abbrev pub due : ℕ → ℕ → String → Option Agg → List ReapCandidate
due older_than now id none = []
due older_than now id (some a) =
    if too_young older_than (age_of now a.oldest) then [] else candidate now (id, a) ∷ []

kept_only :
    (older_than now : ℕ) (id : String) (o : Option Agg)
    → select (λ c. not (too_young older_than c.oldest_age)) (only now id o)
      ≡ due older_than now id o
unfolding candidate
kept_only older_than now id none = refl
kept_only older_than now id (some a) = ground arith

sorted_due :
    (older_than now : ℕ) (id : String) (o : Option Agg) (l : List ReapCandidate)
    → planned id l ≡ due older_than now id o
    → planned id (sort by_cluster l) ≡ due older_than now id o
sorted_due older_than now id none l h = select-sort_nil by_cluster (λ c. str_eq c.cluster_id id) l h
sorted_due older_than now id (some a) l h = ground (
  arith,
  select-sort_nil by_cluster (λ c. str_eq c.cluster_id id) l,
  select-sort_one by_cluster (λ c. str_eq c.cluster_id id) l (candidate now (id, a)),
)

-- A plan has one candidate for each cluster of which the backend lists a server and whose oldest
-- creation is old enough, and none for any other cluster; the entry of a cluster comes from the
-- servers with its tag alone, in the order of the listing.
pub planned-plan :
    (older_than now : ℕ) (all : List Server) (id : String)
    → planned id (plan older_than now all)
      ≡ due older_than now id (fold_servers none (tagged id all))
unfolding plan lookup
planned-plan older_than now all id =
    let m = aggregate [] all in
    let kept = select (λ c. not (too_young older_than c.oldest_age)) (map (candidate now) m) in
    rw (← lookup-aggregate [] all id) (
      sorted_due older_than now id (lookup m id) kept (
        select-select (λ c. str_eq c.cluster_id id) (λ c. not (too_young older_than c.oldest_age))
          (map (candidate now) m)
        ∙ ap (select (λ c. not (too_young older_than c.oldest_age)))
            (planned-candidates now id m (aggregate-Distinct [] all tt))
        ∙ kept_only older_than now id (lookup m id)))

-- A plan is sorted by cluster.
pub plan-IsSorted :
    (older_than now : ℕ) (all : List Server) → IsSorted by_cluster (plan older_than now all)
unfolding plan
plan-IsSorted older_than now all =
    sort-IsSorted by_cluster (λ a b. str_leb_total a.cluster_id b.cluster_id) _

abbrev pub tally : Option Agg → ℕ
tally none = 0
tally (some a) = a.n

pub tally-fold_servers :
    (o : Option Agg) (ss : List Server) → tally (fold_servers o ss) ≡ tally o + length ss
unfolding fold_servers count_server
tally-fold_servers o [] = omega arith
tally-fold_servers none (s ∷ ss) = omega (arith, tally-fold_servers (some (count_server none s)) ss)
tally-fold_servers (some a) (s ∷ ss) =
    omega (arith, tally-fold_servers (some (count_server (some a) s)) ss)

-- Created no earlier than `t`.
abbrev pub Since : ℕ → Server → Type 0
Since t s = (u : ℕ) × (s.created ≡ some u) × (t ≤ u)

fold_servers-Since :
    (a : Agg) (t : ℕ) (ss : List Server)
    → a.oldest ≡ some t
    → All (λ s. (u : ℕ) × (s.created ≡ some u)) ss
    → (b : Agg) × (fold_servers (some a) ss ≡ some b)
      × (u : ℕ) × (b.oldest ≡ some u)
      × (u ≤ t)
      × All (Since u) ss
unfolding fold_servers count_server is_older
fold_servers-Since a t [] h k = (a, refl, t, h, omega arith, tt)
fold_servers-Since a t (s ∷ ss) h ((u, e), k) = elim (Bool-cases (ltb u t)) [
  | inl earlier ↦
      let (b, folded, v, oldest, le, since) =
        fold_servers-Since (count_server (some a) s) u ss (ground arith) k in
      (b, folded, v, oldest, ground arith, ((u, e, le), since))
  | inr later ↦
      let (b, folded, v, oldest, le, since) =
        fold_servers-Since (count_server (some a) s) t ss (ground arith) k in
      (b, folded, v, oldest, le, ((u, e, ground arith), since))
]

-- Where the backend knows when each server of a cluster was created, the entry of the cluster
-- counts its servers, and its age is that of a time no later than any of their creations.
pub fold_servers-counts :
    (s : Server) (ss : List Server)
    → All (λ x. (u : ℕ) × (x.created ≡ some u)) (s ∷ ss)
    → (b : Agg) × (fold_servers none (s ∷ ss) ≡ some b)
      × (b.n ≡ length (s ∷ ss))
      × (u : ℕ) × (b.oldest ≡ some u)
      × All (Since u) (s ∷ ss)
unfolding fold_servers count_server is_older
fold_servers-counts s ss ((t, e), k) =
    let a = count_server none s in
    let (b, folded, u, oldest, le, since) = fold_servers-Since a t ss (ground arith) k in
    (b, folded, ground (arith, tally-fold_servers none (s ∷ ss)), u, oldest, ((t, e, le), since))

pub fold_servers-unknown :
    (a : Agg) (ss : List Server)
    → a.oldest ≡ none
    → (b : Agg) × (fold_servers (some a) ss ≡ some b) × (b.oldest ≡ none)
unfolding fold_servers count_server is_older
fold_servers-unknown a [] h = (a, refl, h)
fold_servers-unknown a (s ∷ ss) h = fold_servers-unknown (count_server (some a) s) ss (ground arith)

-- The cluster of a server that the backend lists first and without a creation time counts as the
-- oldest there can be: whatever the ages of its other servers, no bound up to the largest duration
-- spares it.
pub plan_unknown_first :
    (older_than now : ℕ) (all : List Server) (id : String) (s : Server) (ss : List Server)
    → tagged id all ≡ s ∷ ss
    → s.created ≡ none
    → older_than ≤ max_duration
    → (c : ReapCandidate) × (planned id (plan older_than now all) ≡ c ∷ [])
      × (c.oldest_age ≡ max_duration)
unfolding fold_servers count_server is_older candidate age_of too_young
plan_unknown_first older_than now all id s ss listed unknown bound =
    let (b, folded, oldest) = fold_servers-unknown (count_server none s) ss (ground arith) in
    (candidate now (id, b), ground (arith, planned-plan older_than now all id), ground arith)
