-- ===== src/Orchestrator/Reap/Due.antt =====
-- orchestrator.go, ReapPlan: the clusters that are old enough, and their ages.
use pandion.Prelude.{
  ℕ, ◌-◌, ◌≤◌, ◌≡◌, refl, ap, sym, ◌∙◌, ◌⊎◌, ◌&&◌, inl, inr, String, List, [], ◌∷◌, none, some,
  arith, ltb, length, All, Bool-cases, Option-cases, subst, if◌then◌else◌,
}
use pandion.Provider.{Server}
use pandion.Orchestrator.Reap.{
  ReapCandidate, Agg, count_server, is_older, plan, candidate, age_of, too_young, max_duration,
}
use pandion.Orchestrator.Reap.Plan.{
  tagged, planned, planned-plan, fold_servers, fold_servers-unknown, due, tally-fold_servers,
}

-- A server of the list was created at this time.
abbrev pub HasTime : ℕ → List Server → Type 0
HasTime t [] = ⊥
HasTime t (s ∷ ss) = (s.created ≡ some t) ⊎ HasTime t ss

-- A server was not created before this time, where its creation is known.
abbrev pub NotBefore : ℕ → Server → Type 0
NotBefore t s = (s.created ≡ none) ⊎ ((u : ℕ) × (s.created ≡ some u) × (t ≤ u))

-- The age of a cluster with these servers: the time since the oldest of their known creations; but
-- the largest duration there is where the creation of the first is not known.
abbrev pub IsAge : ℕ → Server → List Server → ℕ → Type 0
IsAge now s ss age =
    ((s.created ≡ none) × (age ≡ max_duration))
    ⊎ ((first : ℕ) × (s.created ≡ some first)
        × (t : ℕ) × HasTime t (s ∷ ss)
        × All (NotBefore t) (s ∷ ss)
        × (age ≡ now - t))

-- The candidates of a cluster with these servers: none without one, or where its age is below a
-- bound that is set, and else one, with their number and that age.
abbrev pub Due : ℕ → ℕ → String → List Server → List ReapCandidate → Type 0
Due older_than now id [] cs = cs ≡ []
Due older_than now id (s ∷ ss) cs =
    (age : ℕ) × IsAge now s ss age
    × (cs ≡ (
        if ltb 0 older_than && ltb age older_than
        then []
        else record { cluster_id = id; servers = length (s ∷ ss); oldest_age = age } ∷ []))

NotBefore-earlier : (u t : ℕ) (s : Server) → u ≤ t → NotBefore t s → NotBefore u s
NotBefore-earlier u t s le (inl unknown) = inl unknown
NotBefore-earlier u t s le (inr (v, e, later)) = inr (v, e, omega (arith, le, later))

fold_servers-oldest :
    (a : Agg) (t : ℕ) (ss : List Server)
    → a.oldest ≡ some t
    → (b : Agg) × (fold_servers (some a) ss ≡ some b)
      × (u : ℕ) × (b.oldest ≡ some u)
      × (u ≤ t)
      × ((u ≡ t) ⊎ HasTime u ss)
      × All (NotBefore u) ss
unfolding fold_servers count_server is_older
fold_servers-oldest a t [] h = (a, refl, t, h, omega arith, inl refl, tt)
fold_servers-oldest a t (s ∷ ss) h = elim (Option-cases s.created) [
  | inl unknown ↦
      let (b, folded, u, oldest, le, has, later) =
        fold_servers-oldest (count_server (some a) s) t ss (ground arith) in
      (
        b,
        folded,
        u,
        oldest,
        le,
        elim has [ inl e ↦ inl e | inr k ↦ inr (inr k) ],
        (inl unknown, later),
      )
  | inr (v, known) ↦ elim (Bool-cases (ltb v t)) [
    | inl earlier ↦
        let (b, folded, u, oldest, le, has, later) =
          fold_servers-oldest (count_server (some a) s) v ss (ground arith) in
        (
          b,
          folded,
          u,
          oldest,
          ground (arith, earlier, le),
          inr (elim has [ inl e ↦ inl (known ∙ ap some (sym e)) | inr k ↦ inr k ]),
          (inr (v, known, le), later),
        )
    | inr after ↦
        let (b, folded, u, oldest, le, has, later) =
          fold_servers-oldest (count_server (some a) s) t ss (ground arith) in
        (
          b,
          folded,
          u,
          oldest,
          le,
          elim has [ inl e ↦ inl e | inr k ↦ inr (inr k) ],
          (inr (v, known, ground (arith, after, le)), later),
        )
  ]
]

due-Due :
    (older_than now : ℕ) (id : String) (s : Server) (ss : List Server) (b : Agg) (age : ℕ)
    → fold_servers none (s ∷ ss) ≡ some b
    → age_of now b.oldest ≡ age
    → IsAge now s ss age
    → Due older_than now id (s ∷ ss) (due older_than now id (some b))
unfolding too_young candidate
due-Due older_than now id s ss b age folded e is_age =
    let count : b.n ≡ length (s ∷ ss) = ground (arith, folded, tally-fold_servers none (s ∷ ss)) in
    (age, is_age, rw (e, count) refl)

fold-Due :
    (older_than now : ℕ) (id : String) (ts : List Server)
    → Due older_than now id ts (due older_than now id (fold_servers none ts))
unfolding fold_servers count_server age_of
fold-Due older_than now id [] = refl
fold-Due older_than now id (s ∷ ss) = elim (Option-cases s.created) [
  | inl unknown ↦
      let (b, folded, oldest) = fold_servers-unknown (count_server none s) ss (ground arith) in
      subst (λ o. Due older_than now id (s ∷ ss) (due older_than now id o)) (sym folded)
        (due-Due older_than now id s ss b max_duration folded (rw oldest refl)
          (inl (unknown, refl)))
  | inr (t, known) ↦
      let (b, folded, u, oldest, le, has, later) =
        fold_servers-oldest (count_server none s) t ss (ground arith) in
      let time : HasTime u (s ∷ ss) = elim has [
        | inl e ↦ inl (known ∙ ap some (sym e))
        | inr k ↦ inr k
      ] in
      subst (λ o. Due older_than now id (s ∷ ss) (due older_than now id o)) (sym folded)
        (due-Due older_than now id s ss b (now - u) folded (rw oldest refl)
          (inr (t, known, u, time, (inr (t, known, le), later), refl)))
]

-- The candidates of a plan for a cluster are those that its servers in the listing make due: one, if
-- the backend lists a server of it and it is old enough, and none else. Its age is that of the oldest
-- known creation of its servers, or the largest duration where the creation of the first is not
-- known, and its number is that of its servers.
pub plan-Due :
    (older_than now : ℕ) (all : List Server) (id : String)
    → Due older_than now id (tagged id all) (planned id (plan older_than now all))
plan-Due older_than now all id =
    rw (planned-plan older_than now all id) (fold-Due older_than now id (tagged id all))
