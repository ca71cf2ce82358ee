-- ===== src/Client/Hetzner/Placed.antt =====
-- hetzner.go, CreateServer: the machine that it reports, where it was created, and that it runs.
use pandion.Prelude.{
  ◌*◌, ◌≡◌, sym, ap, ◌∙◌, inl, inr, String, true, false, not, ◌||◌, List, [], ◌∷◌, ◌++◌, some,
  arith, str_eq, eq_refl, eq_iff, All, All-append, All-imp, Option-cases, subst,
}
use pandion.Prelude.Integer.{ℤ}
use pandion.Prelude.Unique.{contains}
use pandion.Errors.{ok, wrapped, creating, calling}
use pandion.Provider.{Context, Net, Server, ServerSpec}
use pandion.Select.{Ordered}
use pandion.Select.Locations.{SearchMode, search_plan, at_location, of_type}
use pandion.Select.Locations.Ordering.{order_locations-contains}
use pandion.Select.Clouds.Hetzner.{TypeInfo}
use pandion.Client.{>>=-ok, wrapping}
use pandion.Client.Loops.{waited, wait_until}
use pandion.Client.Loops.Ends.{waited-found}
use pandion.Client.Loops.Searched.{search-Searched}
use pandion.Client.Request.{is_strict, second}
use pandion.Client.Hetzner.{Api, Machine, SshKey, to_server, is_availability_err}
use pandion.Client.Hetzner.Create.{
  check_running, wait_running, create_opts, started, candidates_for, ordered_for, search_server,
  create_server, find_image, login_keys,
}

-- A pair of a type and a location of two lists.
abbrev pub IsFrom : List String → List String → String × String → Type 0
IsFrom types locs p = (contains types p.0 ≡ true) × (contains locs p.1 ≡ true)

All-more_types :
    (x : String) (ts ls : List String) (ps : List (String × String))
    → All (IsFrom ts ls) ps
    → All (IsFrom (x ∷ ts) ls) ps
All-more_types x ts ls ps h =
    All-imp (IsFrom ts ls) (IsFrom (x ∷ ts) ls) ps (λ p k. (ground (arith, k.0), k.1)) h

All-more_locations :
    (x : String) (ts ls : List String) (ps : List (String × String))
    → All (IsFrom ts ls) ps
    → All (IsFrom ts (x ∷ ls)) ps
All-more_locations x ts ls ps h =
    All-imp (IsFrom ts ls) (IsFrom ts (x ∷ ls)) ps (λ p k. (k.0, ground (arith, k.1))) h

at_location-IsFrom :
    (l : String) (types locs : List String)
    → contains locs l ≡ true
    → All (IsFrom types locs) (at_location l types)
at_location-IsFrom l [] locs h = tt
at_location-IsFrom l (t ∷ ts) locs h = (
  (ground (arith, eq_refl t), h),
  All-more_types t ts locs (at_location l ts) (at_location-IsFrom l ts locs h),
)

of_type-IsFrom :
    (t : String) (types locs : List String)
    → contains types t ≡ true
    → All (IsFrom types locs) (of_type t locs)
of_type-IsFrom t types [] h = tt
of_type-IsFrom t types (l ∷ ls) h = (
  (h, ground (arith, eq_refl l)),
  All-more_locations l types ls (of_type t ls) (of_type-IsFrom t types ls h),
)

pub search_plan-IsFrom :
    (types locs : List String) (mode : SearchMode)
    → All (IsFrom types locs) (search_plan types locs mode)
unfolding search_plan
search_plan-IsFrom [] locs SearchMode.cheapest_type = tt
search_plan-IsFrom (t ∷ ts) locs SearchMode.cheapest_type =
    All-append (IsFrom (t ∷ ts) locs) (of_type t locs)
      (search_plan ts locs SearchMode.cheapest_type)
      (of_type-IsFrom t (t ∷ ts) locs (ground (arith, eq_refl t)))
      (All-more_types t ts locs (search_plan ts locs SearchMode.cheapest_type)
        (search_plan-IsFrom ts locs SearchMode.cheapest_type))
search_plan-IsFrom [] [] SearchMode.region_first = tt
search_plan-IsFrom [] (l ∷ ls) SearchMode.region_first =
    All-more_locations l [] ls (search_plan [] ls SearchMode.region_first)
      (search_plan-IsFrom [] ls SearchMode.region_first)
search_plan-IsFrom (t ∷ ts) [] SearchMode.region_first = tt
search_plan-IsFrom (t ∷ ts) (l ∷ ls) SearchMode.region_first =
    All-append (IsFrom (t ∷ ts) (l ∷ ls)) (at_location l (t ∷ ts))
      (search_plan (t ∷ ts) ls SearchMode.region_first)
      (at_location-IsFrom l (t ∷ ts) (l ∷ ls) (ground (arith, eq_refl l)))
      (All-more_locations l (t ∷ ts) ls (search_plan (t ∷ ts) ls SearchMode.region_first)
        (search_plan-IsFrom (t ∷ ts) ls SearchMode.region_first))

All-middle {ℓ κ} :
    {A : Type ℓ} (P : A → Type κ) (before : List A) (a : A) (after : List A)
    → All P (before ++ a ∷ after)
    → P a
All-middle P [] a after h = h.0
All-middle P (b ∷ before) a after h = All-middle P before a after h.1

module _ {F C : Type 0} (o : Ordered F) (api : Api F C) (ctx : Context) where
  -- A machine that runs and has an address.
  abbrev pub IsRunning : Machine → Type 0
  IsRunning m = (m.status ≡ "running") × ((ip : String) × (m.ip ≡ some ip))

  -- The cloud has answered a look at an id with this machine.
  abbrev pub IsSeen : ℤ → Machine → Type 0
  IsSeen id m = (at_look : Net C) × ((api.get_by_id ctx id at_look).0 ≡ ok (some m))

  check_running-IsRunning :
      (id : ℤ) (n : Net C) (m : Machine)
      → (check_running o api ctx id n).0 ≡ ok (some m)
      → IsRunning m × IsSeen id m
  unfolding check_running
  check_running-IsRunning id n m h =
      let (found, e, rest) = >>=-ok _ (api.get_by_id ctx id) n (some m) h in
      elim (Option-cases found) [
        | inl gone ↦ absurd (ground (arith, rest, gone))
        | inr (x, there) ↦ elim (Option-cases x.ip) [
          | inl bare ↦ absurd (ground (arith, rest, there, bare))
          | inr (ip, has) ↦
              let same : x ≡ m = ground (arith, rest, there, has) in
              let runs : x.status ≡ "running" =
                ground (arith, rest, there, has, eq_iff x.status "running") in
              (subst IsRunning same (runs, (ip, has)), (n, e ∙ ap ok (there ∙ ap some same)))
        ]
      ]

  started-IsRunning :
      (spec : ServerSpec) (pair : String × String) (id : ℤ) (n : Net C) (s : Server)
      → (started o api ctx spec pair id n).0 ≡ ok s
      → (m : Machine) × IsRunning m × IsSeen id m × (s ≡ to_server m spec.cluster_id)
  unfolding wait_running wait_until
  started-IsRunning spec pair id n s h =
      let (m, e, rest) = >>=-ok _ (waited (wait_running o api ctx id)) n s h in
      let (k, found) =
        waited-found ctx (3 * second) "server not running within timeout"
          (check_running o api ctx id) (120 * second) n m e in
      let (runs, seen) = check_running-IsRunning id k m found in
      (m, runs, seen, ground (arith, rest))

  -- An accepted creation, as the request wants it, and the machine that came of it.
  abbrev pub IsPlaced : ServerSpec → Server → Type 0
  IsPlaced spec s =
      (pair : String × String) × (image : ℤ) × (keys : List SshKey) × (at_call : Net C) × (id : ℤ)
      × (machine : Machine) × ((not (is_strict spec) || contains spec.region_pref pair.1) ≡ true)
      × ((str_eq spec.type "" || str_eq pair.0 spec.type) ≡ true)
      × ((api.create ctx (create_opts o api ctx spec image keys pair) at_call).0 ≡ ok id)
      × IsRunning machine
      × IsSeen id machine
      × (s ≡ to_server machine spec.cluster_id)

  candidates_for-named :
      (spec : ServerSpec) (types : List (TypeInfo F)) (n : Net C) (cands : List String)
      → (candidates_for o api ctx spec types n).0 ≡ ok cands
      → str_eq spec.type "" ≡ false
      → cands ≡ spec.type ∷ []
  unfolding candidates_for
  candidates_for-named spec types n cands h e = ground (arith, h, e)

  ordered_for-strict :
      (pref : List String) (spec : ServerSpec) (locs : List String) (v : String)
      → contains (ordered_for o api ctx pref spec locs) v ≡ true
      → is_strict spec ≡ true
      → contains spec.region_pref v ≡ true
  unfolding ordered_for
  ordered_for-strict pref spec locs v h e =
      let (_, within, _) = order_locations-contains locs spec.region_pref true in
      ground (arith, h, e, within v)

  search_server-IsPlaced :
      (spec : ServerSpec) (image : ℤ) (keys : List SshKey) (cands locs pref : List String)
      (mode : SearchMode) (n : Net C) (s : Server)
      → (str_eq spec.type "" ≡ false → cands ≡ spec.type ∷ [])
      → (search_server o api ctx spec image keys
          (search_plan cands (ordered_for o api ctx pref spec locs) mode)
          n).0
        ≡ ok s
      → IsPlaced spec s
  unfolding search_server
  search_server-IsPlaced spec image keys cands locs pref mode n s named h =
      let ordered = ordered_for o api ctx pref spec locs in
      let plan = search_plan cands ordered mode in
      elim (search-Searched (λ pair. api.create ctx (create_opts o api ctx spec image keys pair))
        (λ e. is_availability_err (api.message e)) (λ pair e. wrapped (creating pair.0 pair.1) e)
        (started o api ctx spec) "no available type/location for spec" plan n) [
          | inl (m, refused, e) ↦ absurd (ground (arith, ap (λ r. r.0) e, h))
          | inr (before, pair, after, m, split, refused, inr (x, bad, kind, e)) ↦
              absurd (ground (arith, ap (λ r. r.0) e, h))
          | inr (before, pair, after, m, split, refused, inl (id, made, e)) ↦
              let (from_type, from_loc) = All-middle (IsFrom cands ordered) before pair after (
                subst (All (IsFrom cands ordered)) split (search_plan-IsFrom cands ordered mode)) in
              let (machine, runs, seen, same) =
                started-IsRunning spec pair id
                  (api.create ctx (create_opts o api ctx spec image keys pair) m).1 s
                  (sym (ap (λ r. r.0) e) ∙ h) in
              (
                pair,
                image,
                keys,
                m,
                id,
                machine,
                ground (arith, ordered_for-strict pref spec locs pair.1 from_loc),
                ground (arith, named, from_type, eq_iff spec.type pair.0, eq_refl spec.type),
                made,
                runs,
                seen,
                same,
              )
        ]

  -- A server that CreateServer of the Hetzner client reports is the machine with which the cloud
  -- answered a look at the id that its accepted creation gave: that creation was in a region that the
  -- request names where it names any, and of the type that it names where it names one; and the
  -- machine, as the cloud answered, runs and has an address.
  pub create_server-IsPlaced :
      (pref : List String) (mode : SearchMode) (spec : ServerSpec) (n : Net C) (s : Server)
      → (create_server o api ctx pref mode spec n).0 ≡ ok s
      → IsPlaced spec s
  unfolding create_server
  create_server-IsPlaced pref mode spec n s h =
      let (types, _, h1) =
        >>=-ok _ (wrapping (calling "list server types") (api.server_types ctx)) n s h in
      let (cands, picked, h2) = >>=-ok _ (candidates_for o api ctx spec types) _ s h1 in
      let (locs, _, h3) =
        >>=-ok _ (wrapping (calling "list locations") (api.locations ctx)) _ s h2 in
      let (image, _, h4) = >>=-ok _ (find_image o api ctx spec) _ s h3 in
      let (keys, _, h5) = >>=-ok _ (login_keys o api ctx spec) _ s h4 in
      search_server-IsPlaced spec image keys cands locs pref mode _ s
        (candidates_for-named spec types _ cands picked) h5
