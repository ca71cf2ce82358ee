-- ===== src/Orchestrator/Status/Shown.antt =====
-- What Status shows.
use pandion.Prelude.{
  ℕ, ◌≤◌, length, length-map, ◌≡◌, refl, ap, subst, String, List, [], ◌∷◌, Option, none, some, map,
  arith, str_eq, eq_iff, select, All, ◌⊎◌, inl, inr,
}
use mathlib.Core.List.{Perm}
use pandion.Prelude.Dict.{Dict, lookup, values, Distinct, Entries}
use pandion.Prelude.Order.{
  sort, sort-IsSorted, IsSorted, map-sort, str_leb_total, select-sort_nil, select-sort_one,
}
use pandion.Errors.{ok}
use pandion.Provider.{Context, Net, Provider, Server, Float, Pricer}
use pandion.Orchestrator.Status.{
  ClusterStatus, by_name, by_id, with_sorted_nodes, status_loop, show_clusters, status,
}
use pandion.Orchestrator.Status.Gathered.{
  tagged, node_name, server_name, lapse, names_at, oldest_at, IsAgeOf, Own, OwnIf, Entries-OwnIf,
  status_loop-After,
}

-- A cluster as it is shown for its listed servers: none without one, else one entry, with their
-- names and the largest of their ages: no less than any of theirs, and one of them.
abbrev pub Shows : {F : Type 0} → ℕ → List Server → List (ClusterStatus F) → Type 0
Shows now [] shown = shown ≡ []
Shows {F} now (s ∷ ss) shown =
    (cs : ClusterStatus F) × (shown ≡ cs ∷ [])
    × Perm (map node_name cs.nodes) (map server_name (s ∷ ss))
    × All (λ x. lapse now x.created ≤ cs.oldest) (s ∷ ss)
    × IsAgeOf now cs.oldest (s ∷ ss)

abbrev shown_of : {F : Type 0} → Option (ClusterStatus F) → List (ClusterStatus F)
shown_of none = []
shown_of (some cs) = with_sorted_nodes cs ∷ []

abbrev pub with_id : {F : Type 0} → String → List (ClusterStatus F) → List (ClusterStatus F)
with_id id = select (λ c. str_eq c.cluster_id id)

module _ {F : Type 0} (fl : Float F) where
  with_id-values :
      (id : String) (m : Dict (ClusterStatus F))
      → Distinct m
      → Entries (Own fl) m
      → with_id id (map with_sorted_nodes (values m)) ≡ shown_of (lookup m id)
  unfolding lookup
  with_id-values id [] d h = refl
  with_id-values id ((k, cs) ∷ m) d h =
      ground (arith, h.0.0, d.0, eq_iff k id, with_id-values id m d.1 h.1)

  with_id-sort :
      (id : String) (o : Option (ClusterStatus F)) (l : List (ClusterStatus F))
      → with_id id l ≡ shown_of o
      → with_id id (sort by_id l) ≡ shown_of o
  with_id-sort id none l e = select-sort_nil by_id (λ c. str_eq c.cluster_id id) l e
  with_id-sort id (some cs) l e =
      select-sort_one by_id (λ c. str_eq c.cluster_id id) l (with_sorted_nodes cs) e

module _ {F : Type 0} (fl : Float F) where
  shown_of-Shows :
      (now : ℕ) (id : String) (ts : List Server) (o : Option (ClusterStatus F))
      (l : List (ClusterStatus F))
      → names_at o ≡ map server_name ts
      → All (λ s. lapse now s.created ≤ oldest_at o) ts
      → (oldest_at o ≡ 0) ⊎ IsAgeOf now (oldest_at o) ts
      → OwnIf fl id o
      → l ≡ shown_of o
      → Shows now ts l
  shown_of-Shows now id [] none l names covered attained own e = e
  shown_of-Shows now id [] (some cs) l names covered attained own e =
      absurd (omega (arith, own.1, ap length names, length-map node_name cs.nodes))
  shown_of-Shows now id (s ∷ ss) none l names covered attained own e =
      absurd (omega (arith, ap length names))
  shown_of-Shows now id (s ∷ ss) (some cs) l names covered attained own e = (
    with_sorted_nodes cs,
    e,
    subst (λ x. Perm (map node_name (sort by_name cs.nodes)) x) names
        (map-sort by_name node_name cs.nodes),
    covered,
    elim attained [ inr one ↦ one | inl zero_age ↦ inl (omega (arith, zero_age, covered.0)) ],
  )

module _ {F C : Type 0} (fl : Float F) (p : Provider C) (pricing : Option (Pricer F C))
    (ctx : Context) where
  -- If the backend lists its servers, Status succeeds, whatever the pricer answers. What it shows
  -- is sorted by cluster, and has one entry for each cluster with a server and none for any other;
  -- the entry names the servers with the cluster's tag, each once, and its age is the largest of
  -- theirs.
  pub status-Shows :
      (n : Net C) (all : List Server)
      → (p.list_all_tagged ctx n).0 ≡ ok all
      → (out : List (ClusterStatus F)) × (currency : String) × ((status fl p pricing ctx n).0
          ≡ ok (out, currency))
        × IsSorted by_id out
        × ((id : String) → Shows (p.list_all_tagged ctx n).1.now (tagged id all) (with_id id out))
  unfolding status show_clusters lookup
  status-Shows n all listed =
      let n1 = (p.list_all_tagged ctx n).1 in
      let found = status_loop fl pricing ctx n1.now [] "" all n1 in
      let m = found.0.0 in
      let (d, own, after) = status_loop-After fl pricing ctx n1.now [] "" all n1 tt tt in
      let shown = map with_sorted_nodes (values m) in
      (
        sort by_id shown,
        found.0.1,
        rw listed,
        sort-IsSorted by_id (λ a b. str_leb_total a.cluster_id b.cluster_id) shown,
        λ id.
            let (names, older, covered, attained) = after id in
            shown_of-Shows fl n1.now id (tagged id all) (lookup m id)
              (with_id id (sort by_id shown)) names covered attained
              (Entries-OwnIf fl m id (lookup m id) own refl)
              (with_id-sort fl id (lookup m id) shown (with_id-values fl id m d own)),
      )
