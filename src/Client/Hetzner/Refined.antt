-- ===== src/Client/Hetzner/Refined.antt =====
-- The Hetzner client keeps the contract of a backend, over a cloud that does what its documentation
-- says: the abstract state is the list of the project's labelled machines.
use pandion.Prelude.{
  ℕ, ◌^◌, ◌<◌, ◌≡◌, refl, sym, ap, ◌∙◌, ◌⊎◌, inl, inr, String, Bool, true, false, not, List, [],
  ◌∷◌, Option, none, some, arith, str_eq, eq_iff, All, select, map, Bool-cases, Option-cases,
  if◌then◌else◌, subst,
}
use pandion.Prelude.Dict.{lookup}
use pandion.Prelude.Integer.{ℤ, pos, int_eq, format_int, format_int-same, parse_int-format_int}
use pandion.Errors.{Result, ok, err, Error, Result-cases}
use pandion.Provider.{Context, Net, Server}
use pandion.Orchestrator.Down.Contract.{tagged, without}
use pandion.Client.{>>=-ok, >>=-cases}
use pandion.Client.Quiet.{IsQuiet, >>=-IsQuiet}
use pandion.Client.Hetzner.{Api, Machine, Resource, to_server, label_cluster_id}
use pandion.Client.Hetzner.Walls.{selector}
use pandion.Client.Hetzner.Teardown.{
  delete_found, destroy_parsed, destroy_server, list_by_tag, label_of,
}

-- A label of a machine is there, and is this one.
abbrev pub is_labelled : Option String → Bool
is_labelled none = false
is_labelled (some v) = true

abbrev pub is_label : String → Option String → Bool
is_label id none = false
is_label id (some v) = str_eq v id

abbrev pub label : Machine → Option String
label m = lookup m.labels label_cluster_id

-- The first machine of an id, and the machines without it.
abbrev pub find : ℤ → List Machine → Option Machine
find id [] = none
find id (m ∷ ms) = if int_eq m.id id then some m else find id ms

abbrev pub drop_id : ℤ → List Machine → List Machine
drop_id id = select (λ m. not (int_eq m.id id))

-- The server that a listing of everything makes of a machine, and those of all labelled ones.
abbrev pub seen : Machine → Server
seen m = to_server m (label_of (label m))

abbrev pub servers_of : List Machine → List Server
servers_of ms = map seen (select (λ m. is_labelled (label m)) ms)

-- An id as the cloud gives it: a number above zero or zero, within int64.
abbrev pub HasId : Machine → Type 0
HasId m = (k : ℕ) × (m.id ≡ pos k) × (k < 2 ^ 63)

abbrev pub IsServerId : String → Type 0
IsServerId id = (k : ℕ) × (id ≡ format_int (pos k)) × (k < 2 ^ 63)

pub servers_of-drop_id :
    (k : ℕ) (ms : List Machine)
    → All HasId ms
    → servers_of (drop_id (pos k) ms) ≡ without (format_int (pos k)) (servers_of ms)
unfolding to_server
servers_of-drop_id k [] h = refl
servers_of-drop_id k (m ∷ ms) ((j, own, small), rest) =
    ground (arith, own, servers_of-drop_id k ms rest, format_int-same j k)

pub listed-tagged :
    (id : String) (ms : List Machine)
    → map (λ m. to_server m id) (select (λ m. is_label id (label m)) ms) ≡ tagged id (servers_of ms)
unfolding to_server
listed-tagged id [] = refl
listed-tagged id (m ∷ ms) = elim (Option-cases (label m)) [
  | inl bare ↦ ground (arith, bare, listed-tagged id ms)
  | inr (v, has) ↦ elim (Bool-cases (str_eq v id)) [
    | inr other ↦ ground (arith, has, other, listed-tagged id ms)
    | inl same ↦
        ground (arith, has, same, listed-tagged id ms, ap (to_server m) ((eq_iff v id).0 same))
  ]
]

find-none : (id : ℤ) (ms : List Machine) → find id ms ≡ none → drop_id id ms ≡ ms
find-none id [] h = refl
find-none id (m ∷ ms) h = ground (arith, h, find-none id ms)

find-some :
    (k : ℕ) (ms : List Machine) (m : Machine)
    → All HasId ms
    → find (pos k) ms ≡ some m
    → m.id ≡ pos k
find-some k [] m a h = absurd (ground (arith, h))
find-some k (x ∷ ms) m ((j, own, _), rest) h = ground (arith, own, h, find-some k ms m rest)

pub drop_id-HasId : (id : ℤ) (ms : List Machine) → All HasId ms → All HasId (drop_id id ms)
drop_id-HasId id [] h = tt
drop_id-HasId id (m ∷ ms) h = ground (arith, h.0, drop_id-HasId id ms h.1)

-- What Hetzner's documentation says of the calls that the contract is about: a machine is found by
-- its id, a deletion that succeeds removes the machine and one that fails may have, a selector
-- selects by the label, and no other call changes the machines. Ids are given by the cloud.
pub record Documented {F C : Type 0} (api : Api F C) : Type 1 where
  pub machines : C → List Machine
  pub is_value : String → Type 0
  pub finds :
      (ctx : Context) (id : ℤ) (n : Net C) (o : Option Machine)
      → (api.get_by_id ctx id n).0 ≡ ok o
      → o ≡ find id (machines n.cloud)
  pub deletes :
      (ctx : Context) (id : ℤ) (n : Net C)
      → (api.delete ctx id n).0 ≡ ok tt
      → machines (api.delete ctx id n).1.cloud ≡ drop_id id (machines n.cloud)
  pub delete_fails :
      (ctx : Context) (id : ℤ) (n : Net C) (e : Error)
      → (api.delete ctx id n).0 ≡ err e
      → (machines (api.delete ctx id n).1.cloud ≡ machines n.cloud)
        ⊎ (machines (api.delete ctx id n).1.cloud ≡ drop_id id (machines n.cloud))
  pub selects :
      (ctx : Context) (id : String) (n : Net C) (l : List Machine)
      → is_value id
      → (api.servers ctx (selector id) n).0 ≡ ok l
      → l ≡ select (λ m. is_label id (label m)) (machines n.cloud)
  pub quiet_get : (ctx : Context) (id : ℤ) → IsQuiet machines (api.get_by_id ctx id)
  pub quiet_servers : (ctx : Context) (s : String) → IsQuiet machines (api.servers ctx s)
  pub quiet_keys : (ctx : Context) (s : String) → IsQuiet machines (api.keys ctx s)
  pub quiet_delete_key : (ctx : Context) (id : ℤ) → IsQuiet machines (api.delete_key ctx id)
  pub quiet_walls : (ctx : Context) (s : String) → IsQuiet machines (api.walls ctx s)
  pub quiet_detach :
      (ctx : Context) (id : ℤ) (rs : List Resource)
      → IsQuiet machines (api.remove_resources ctx id rs)
  pub quiet_delete_wall : (ctx : Context) (id : ℤ) → IsQuiet machines (api.delete_wall ctx id)

module _ {F C : Type 0} (api : Api F C) (d : Documented api) (ctx : Context) where
  open d use {machines}

  pub list_by_tag-tagged :
      (id : String) (n : Net C) (l : List Server)
      → d.is_value id
      → (list_by_tag api ctx id n).0 ≡ ok l
      → l ≡ tagged id (servers_of (machines n.cloud))
  unfolding list_by_tag
  list_by_tag-tagged id n l value h =
      let (found, e, rest) = >>=-ok _ (api.servers ctx (selector id)) n l h in
      let same : map (λ m. to_server m id) found ≡ l = ground (arith, rest) in
      sym same
      ∙ ap (map (λ m. to_server m id)) (d.selects ctx id n found value e)
      ∙ listed-tagged id (machines n.cloud)

  pub list_by_tag-IsQuiet : (id : String) → IsQuiet machines (list_by_tag api ctx id)
  unfolding list_by_tag
  list_by_tag-IsQuiet id =
      >>=-IsQuiet machines (api.servers ctx (selector id)) _ (d.quiet_servers ctx (selector id))
        (λ a n. refl)

  -- What a destroy of an id that the cloud gave makes of the machines.
  abbrev pub Destroyed : ℕ → Net C → Result (Unit {0}) × Net C → Type 0
  Destroyed k n r =
      ((r.0 ≡ ok tt) × (machines r.1.cloud ≡ drop_id (pos k) (machines n.cloud)))
      ⊎ ((e : Error) × (r.0 ≡ err e)
          × ((machines r.1.cloud ≡ machines n.cloud)
              ⊎ (machines r.1.cloud ≡ drop_id (pos k) (machines n.cloud))))

  delete-Destroyed :
      (k : ℕ) (n m : Net C)
      → machines m.cloud ≡ machines n.cloud
      → Destroyed k n (api.delete ctx (pos k) m)
  delete-Destroyed k n m same = elim (Result-cases (api.delete ctx (pos k) m).0) [
    | inl (u, e) ↦ inl (e, rw (sym same) (d.deletes ctx (pos k) m e))
    | inr (x, e) ↦ inr (x, e, rw (sym same) (d.delete_fails ctx (pos k) m x e))
  ]

  delete_found-Destroyed :
      (k : ℕ) (n m : Net C) (o : Option Machine)
      → All HasId (machines n.cloud)
      → machines m.cloud ≡ machines n.cloud
      → o ≡ find (pos k) (machines n.cloud)
      → Destroyed k n (delete_found api ctx o m)
  unfolding delete_found
  delete_found-Destroyed k n m none ids same found =
      inl (refl, same ∙ sym (find-none (pos k) (machines n.cloud) (sym found)))
  delete_found-Destroyed k n m (some x) ids same found =
      subst (λ i. Destroyed k n (api.delete ctx i m))
        (sym (find-some k (machines n.cloud) x ids (sym found))) (delete-Destroyed k n m same)

  destroy_parsed-Destroyed :
      (k : ℕ) (n : Net C)
      → All HasId (machines n.cloud)
      → Destroyed k n (destroy_parsed api ctx (some (pos k)) n)
  unfolding destroy_parsed
  destroy_parsed-Destroyed k n ids =
      let get = api.get_by_id ctx (pos k) in
      let quiet = d.quiet_get ctx (pos k) n in
      elim (>>=-cases (delete_found api ctx) get n) [
        | inr (x, e, stop) ↦ subst (Destroyed k n) (sym stop) (inr (x, refl, inl quiet))
        | inl (o, e, go) ↦
            subst (Destroyed k n) (sym go)
              (delete_found-Destroyed k n (get n).1 o ids quiet (d.finds ctx (pos k) n o e))
      ]

  pub destroy_server-Destroyed :
      (k : ℕ) (n : Net C)
      → k < 2 ^ 63
      → All HasId (machines n.cloud)
      → Destroyed k n (destroy_server api ctx (format_int (pos k)) n)
  unfolding destroy_server
  destroy_server-Destroyed k n small ids =
      subst (λ o. Destroyed k n (destroy_parsed api ctx o n)) (sym (parse_int-format_int k small))
        (destroy_parsed-Destroyed k n ids)
