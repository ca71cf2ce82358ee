-- ===== src/Orchestrator/Status/Gathered.antt =====
-- What the loop of Status gathers from the listed servers.
use pandion.Prelude.{
  ℕ, ◌≤◌, ◌<◌, length, length-append, ◌≡◌, refl, sym, ap, ◌∙◌, subst, String, List, [], ◌∷◌, ◌++◌,
  Option, none, some, map, arith, str_eq, eq_iff, select, All, ◌⊎◌, ◌-◌, Bool-cases, inl, inr,
}
use mathlib.Core.List.{append_assoc, append-nil}
use pandion.Prelude.Dict.{
  Dict, lookup, insert, lookup-insert, Distinct, insert-Distinct, Entries, insert-Entries,
  Entries-lookup,
}
use pandion.Provider.{Context, Net, Server, Float, Money, Pricer}
use pandion.Orchestrator.Status.{
  NodeStatus, ClusterStatus, node_age, add_node, node_status, currency_after, price_server,
  status_loop,
}

abbrev pub tagged : String → List Server → List Server
tagged id = select (λ s. str_eq s.cluster_id id)

abbrev pub node_name : {F : Type 0} → NodeStatus F → String
node_name n = n.name

abbrev pub server_name : Server → String
server_name s = s.name

abbrev pub names_at : {F : Type 0} → Option (ClusterStatus F) → List String
names_at none = []
names_at (some cs) = map node_name cs.nodes

abbrev pub oldest_at : {F : Type 0} → Option (ClusterStatus F) → ℕ
oldest_at none = 0
oldest_at (some cs) = cs.oldest

-- The time since a creation, and none for one that is not known.
abbrev pub lapse : ℕ → Option ℕ → ℕ
lapse now none = 0
lapse now (some t) = now - t

map-append_one :
    {F : Type 0} (l : List (NodeStatus F)) (x : NodeStatus F)
    → map node_name (l ++ x ∷ []) ≡ map node_name l ++ node_name x ∷ []
map-append_one [] x = refl
map-append_one (y ∷ l) x = ap (λ r. node_name y ∷ r) (map-append_one l x)

module _ {F : Type 0} (fl : Float F) where
  add_node-effect :
      (now : ℕ) (s : Server) (price : Option (Money F)) (o : Option (ClusterStatus F))
      → (map node_name (add_node fl now s price o).nodes ≡ names_at o ++ s.name ∷ [])
        × (oldest_at o ≤ (add_node fl now s price o).oldest)
        × (lapse now s.created ≤ (add_node fl now s price o).oldest)
        × (((add_node fl now s price o).oldest ≡ oldest_at o)
            ⊎ ((add_node fl now s price o).oldest ≡ lapse now s.created))
  unfolding add_node node_age
  add_node-effect now s none none = (refl, omega arith, ground arith, ground arith)
  add_node-effect now s (some m) none = (refl, omega arith, ground arith, ground arith)
  add_node-effect now s none (some cs) =
      (map-append_one cs.nodes _, ground arith, ground arith, ground arith)
  add_node-effect now s (some m) (some cs) =
      (map-append_one cs.nodes _, ground arith, ground arith, ground arith)

  -- An entry stands under its own id, and has a node.
  abbrev pub Own : String → ClusterStatus F → Type 0
  Own id cs = (cs.cluster_id ≡ id) × (0 < length cs.nodes)

  abbrev pub OwnIf : String → Option (ClusterStatus F) → Type 0
  OwnIf id none = Unit
  OwnIf id (some cs) = Own id cs

  add_node-Own :
      (now : ℕ) (s : Server) (price : Option (Money F)) (o : Option (ClusterStatus F))
      → OwnIf s.cluster_id o
      → Own s.cluster_id (add_node fl now s price o)
  unfolding add_node
  add_node-Own now s none none h = (refl, omega arith)
  add_node-Own now s (some m) none h = (refl, omega arith)
  add_node-Own now s none (some cs) h =
      (h.0, omega (arith, length-append cs.nodes (node_status fl now s none ∷ [])))
  add_node-Own now s (some m) (some cs) h =
      (h.0, omega (arith, length-append cs.nodes (node_status fl now s (some m) ∷ [])))

  pub Entries-OwnIf :
      (m : Dict (ClusterStatus F)) (id : String) (o : Option (ClusterStatus F))
      → Entries Own m
      → lookup m id ≡ o
      → OwnIf id o
  Entries-OwnIf m id none h e = tt
  Entries-OwnIf m id (some cs) h e = Entries-lookup Own m id cs h e

-- A server of the list has this age.
abbrev pub IsAgeOf : ℕ → ℕ → List Server → Type 0
IsAgeOf now age [] = ⊥
IsAgeOf now age (s ∷ ss) = (lapse now s.created ≡ age) ⊎ IsAgeOf now age ss

module _ {F C : Type 0} (fl : Float F) (pricing : Option (Pricer F C)) (ctx : Context) where
  abbrev AfterAt :
      ℕ → String → Option (ClusterStatus F) → List Server → Option (ClusterStatus F) → Type 0
  AfterAt now id o ss o' =
      (names_at o' ≡ names_at o ++ map server_name (tagged id ss))
      × (oldest_at o ≤ oldest_at o')
      × All (λ s. lapse now s.created ≤ oldest_at o') (tagged id ss)
      × ((oldest_at o' ≡ oldest_at o) ⊎ IsAgeOf now (oldest_at o') (tagged id ss))

  After-cons :
      (now : ℕ) (m : Dict (ClusterStatus F)) (s : Server) (cs : ClusterStatus F) (ss : List Server)
      (m' : Dict (ClusterStatus F)) (id : String)
      → (map node_name cs.nodes ≡ names_at (lookup m s.cluster_id) ++ s.name ∷ [])
        × (oldest_at (lookup m s.cluster_id) ≤ cs.oldest)
        × (lapse now s.created ≤ cs.oldest)
        × ((cs.oldest ≡ oldest_at (lookup m s.cluster_id)) ⊎ (cs.oldest ≡ lapse now s.created))
      → AfterAt now id (lookup (insert m s.cluster_id cs) id) ss (lookup m' id)
      → AfterAt now id (lookup m id) (s ∷ ss) (lookup m' id)
  After-cons now m s cs ss m' id effect after = elim (Bool-cases (str_eq s.cluster_id id)) [
    | inr e ↦
        let looked : lookup (insert m s.cluster_id cs) id ≡ lookup m id =
          ground (arith, e, lookup-insert m s.cluster_id id cs) in
        rw e (subst (λ o. AfterAt now id o ss (lookup m' id)) looked after)
    | inl e ↦
        let same : s.cluster_id ≡ id = ground (arith, e, eq_iff s.cluster_id id) in
        let looked : lookup (insert m s.cluster_id cs) id ≡ some cs =
          ground (arith, e, lookup-insert m s.cluster_id id cs) in
        let (names, older, covered, attained) =
          subst (λ o. AfterAt now id o ss (lookup m' id)) looked after in
        let (named, newer, covers, which) =
          subst
            (λ k.
              (map node_name cs.nodes ≡ names_at (lookup m k) ++ s.name ∷ [])
              × (oldest_at (lookup m k) ≤ cs.oldest)
              × (lapse now s.created ≤ cs.oldest)
              × ((cs.oldest ≡ oldest_at (lookup m k)) ⊎ (cs.oldest ≡ lapse now s.created)))
            same effect in
        let rest = map server_name (tagged id ss) in
        rw e (
          names
              ∙ ap (λ l. l ++ rest) named
              ∙ append_assoc (names_at (lookup m id)) (s.name ∷ []) rest,
          omega (arith, newer, older),
          (omega (arith, covers, older), covered),
          elim attained [
            | inr one ↦ inr (inr one)
            | inl kept ↦ elim which [
              | inl before ↦ inl (kept ∙ before)
              | inr own ↦ inr (inl (sym own ∙ sym kept))
            ]
          ],
        )
  ]

  abbrev pub After : ℕ → Dict (ClusterStatus F) → List Server → Dict (ClusterStatus F) → Type 0
  After now m ss m' =
      Distinct m'
      × Entries (Own fl) m'
      × ((id : String) → AfterAt now id (lookup m id) ss (lookup m' id))

  pub status_loop-After :
      (now : ℕ) (m : Dict (ClusterStatus F)) (currency : String) (ss : List Server) (n : Net C)
      → Distinct m
      → Entries (Own fl) m
      → After now m ss (status_loop fl pricing ctx now m currency ss n).0.0
  unfolding status_loop
  status_loop-After now m currency [] n d h =
      (d, h, λ id. (sym (append-nil _), omega arith, tt, inl refl))
  status_loop-After now m currency (s ∷ ss) n d h =
      let (price, n') = price_server fl pricing ctx s n in
      let id' = s.cluster_id in
      let cs = add_node fl now s price (lookup m id') in
      let own =
        add_node-Own fl now s price (lookup m id') (Entries-OwnIf fl m id' (lookup m id') h refl) in
      let (d', h', rest) =
        status_loop-After now (insert m id' cs) (currency_after fl price currency) ss n'
          (insert-Distinct m id' cs d) (insert-Entries (Own fl) m id' cs h own) in
      (
        d',
        h',
        λ id.
            After-cons now m s cs ss
              (status_loop fl pricing ctx now (insert m id' cs) (currency_after fl price currency)
                ss n').0.0
              id (add_node-effect fl now s price (lookup m id')) (rest id),
      )
