-- ===== src/Mock/Valid.antt =====
-- The mock's server map: keys are the servers' ids, and ids are fresh, so that no creation
-- overwrites a server. The mock keeps the contract that the orchestrator relies on.
use Prim.Native.String.{◌++◌ as append}
use text.Mathlib.TextLemmas.{append_cancel_left}
use pandion.Prelude.{
  ℕ, ◌+◌, ◌-◌, ◌≤◌, ◌≡◌, refl, inl, String, Bool, true, false, List, [], ◌∷◌, ◌++◌, some, arith,
  str_eq, eq_iff, str_eq_of_ne, All, ap, All-imp, All-append, ◌∙◌,
}
use pandion.Prelude.Dict.{Dict, insert, remove, values}
use pandion.Prelude.Decimal.{decimal, decimal-injective}
use pandion.Errors.{Result, ok, err, Error}
use pandion.Provider.{Context, Net, Server, ServerSpec, GpuInfo, Float}
use pandion.Orchestrator.Down.{reap_auxiliary}
use pandion.Orchestrator.Down.Contract.{Contract, tagged, without}
use pandion.Mock.{
  Mock, mock, server_id, create_pause, save_locked, record_server, finish_create, create_server,
  realize, destroy, destroy_server, list_by_tag, reap_aux, enter_create,
}

-- An entry made under a sequence number up to `seq`, under its own id.
abbrev pub Made : ℕ → String × Server → Type 0
Made seq e = (e.1.id ≡ e.0) × ((i : ℕ) × (i ≤ seq) × (e.0 ≡ server_id i))

abbrev pub IsValid : Mock → Type 0
IsValid m = All (Made m.seq) m.servers

server_id-injective : (i j : ℕ) → server_id i ≡ server_id j → i ≡ j
server_id-injective i j h =
    decimal-injective i j (append_cancel_left "mock-" (decimal i) (decimal j) h)

Made-mono : (a b : ℕ) → a ≤ b → (e : String × Server) → Made a e → Made b e
Made-mono a b h e (own, (i, le, name)) = (own, (i, omega arith, name))

server_id-ne :
    (i seq : ℕ) (k : String) → i ≤ seq → k ≡ server_id i → str_eq k (server_id (seq + 1)) ≡ false
server_id-ne i seq k le e =
    str_eq_of_ne k (server_id (seq + 1))
      (λ h. absurd (omega (arith, server_id-injective i (seq + 1) (cc))))

-- A server under the next sequence number goes to the end.
insert_fresh :
    (seq : ℕ) (l : Dict Server) (s : Server)
    → All (Made seq) l
    → insert l (server_id (seq + 1)) s ≡ l ++ (server_id (seq + 1), s) ∷ []
unfolding insert
insert_fresh seq [] s h = refl
insert_fresh seq ((k, v) ∷ l) s ((own, (i, le, name)), rest) =
    ground (arith, server_id-ne i seq k le name, insert_fresh seq l s rest)

values-append : (l m : Dict Server) → values (l ++ m) ≡ values l ++ values m
values-append [] m = refl
values-append (e ∷ l) m = ap (◌∷◌ e.1) (values-append l m)

values-remove :
    (seq : ℕ) (l : Dict Server) (id : String)
    → All (Made seq) l
    → values (remove l id) ≡ without id (values l)
unfolding remove
values-remove seq [] id h = refl
values-remove seq ((k, v) ∷ l) id ((own, _), rest) =
    ground (arith, values-remove seq l id rest, eq_iff k id, eq_iff v.id id)

All-remove :
    (P : String × Server → Type 0) (l : Dict Server) (id : String) → All P l → All P (remove l id)
unfolding remove
All-remove P [] id h = tt
All-remove P ((k, v) ∷ l) id h = ground (arith, All-remove P l id h.1)

servers-save_locked : (m : Mock) → (save_locked m).servers ≡ m.servers
unfolding save_locked
servers-save_locked m = ground arith

save_locked-IsValid : (m : Mock) → IsValid m → IsValid (save_locked m)
unfolding save_locked
save_locked-IsValid m h = ground arith

-- What a creation makes of the servers: one more at the end, or the same ones after an error.
abbrev pub Grown : Dict Server → Result Server → Mock → Type 0
Grown l (ok s) m = m.servers ≡ l ++ (s.id, s) ∷ []
Grown l (err e) m = m.servers ≡ l

abbrev numbered : Mock → Mock
numbered m = record m { seq = m.seq + 1 }

record_server-Grown :
    (spec : ServerSpec) (now : ℕ) (r : Result (String × GpuInfo)) (m : Mock)
    → IsValid m
    → Grown m.servers
        (record_server spec now r (numbered m)).0
        (record_server spec now r (numbered m)).1
      × IsValid (record_server spec now r (numbered m)).1
unfolding record_server
record_server-Grown spec now (err e) m h = (
  refl,
  All-imp (Made m.seq) (Made (m.seq + 1)) m.servers (Made-mono m.seq (m.seq + 1) (omega arith)) h,
)
record_server-Grown spec now (ok (type, gpu)) m h =
    let s : Server = record {
      id = server_id (m.seq + 1);
      name = spec.name;
      cluster_id = spec.cluster_id;
      type = type;
      region = "mock-dc";
      ip = append "10.0.0." (decimal (m.seq + 1));
      created = some now;
      gpu = gpu;
    } in
    let m' = record m { seq = m.seq + 1; servers = insert m.servers s.id s } in
    let placed = insert_fresh m.seq m.servers s h in
    let older =
      All-imp (Made m.seq) (Made (m.seq + 1)) m.servers (Made-mono m.seq (m.seq + 1) (omega arith))
        h in
    (
      servers-save_locked m' ∙ placed,
      save_locked-IsValid m' (
          rw placed (
            All-append (Made (m.seq + 1)) m.servers ((s.id, s) ∷ []) older
              ((refl, (m.seq + 1, omega arith, refl)), tt))),
    )

module _ {F : Type 0} (fl : Float F) where
  finish_create-Grown :
      (fail boots : Bool) (spec : ServerSpec) (now : ℕ) (m : Mock)
      → IsValid m
      → Grown m.servers
          (finish_create fl fail boots spec now m).0
          (finish_create fl fail boots spec now m).1
        × IsValid (finish_create fl fail boots spec now m).1
  unfolding finish_create
  finish_create-Grown fail true spec now m h = (refl, h)
  finish_create-Grown true false spec now m h = (refl, h)
  finish_create-Grown false false spec now m h =
      record_server-Grown spec now (realize fl spec.gpu)
        (record m { cur_concurrent = m.cur_concurrent - 1 }) h

  -- A creation by the mock, from a state that is valid, leaves one that is valid; it adds one server,
  -- under a fresh id and at the end of the map's entries,
  -- or leaves the servers alone where it returns an error; it never overwrites a server.
  pub create_server-Grown :
      (ctx : Context) (spec : ServerSpec) (n : Net Mock)
      → IsValid n.cloud
      → Grown n.cloud.servers (create_server fl ctx spec n).0 (create_server fl ctx spec n).1.cloud
        × IsValid (create_server fl ctx spec n).1.cloud
  unfolding create_server enter_create
  create_server-Grown ctx spec n h =
      let (found, m) = enter_create spec n.cloud in
      finish_create-Grown found.0 found.1 spec (n.now + create_pause) m h

pub destroy-IsValid : (id : String) (m : Mock) → IsValid m → IsValid (destroy id m).1
unfolding destroy save_locked
destroy-IsValid id m h = ground (arith, All-remove (Made m.seq) m.servers id h)

pub destroy-ok :
    (id : String) (m : Mock)
    → IsValid m
    → (destroy id m).0 ≡ ok tt
    → values (destroy id m).1.servers ≡ without id (values m.servers)
unfolding destroy save_locked
destroy-ok id m h e = ground (arith, values-remove m.seq m.servers id h)

destroy-err :
    (id : String) (m : Mock) (x : Error)
    → (destroy id m).0 ≡ err x
    → (destroy id m).1.servers ≡ m.servers
unfolding destroy
destroy-err id m x e = ground arith

module _ (ctx : Context) (id : String) (n : Net Mock) where
  pub listed-tagged :
      (l : List Server) → (list_by_tag ctx id n).0 ≡ ok l → l ≡ tagged id (values n.cloud.servers)
  unfolding list_by_tag
  listed-tagged l h = ground arith

  list_by_tag-keeps : (list_by_tag ctx id n).1 ≡ n
  unfolding list_by_tag
  list_by_tag-keeps = refl

  pub destroy_server-IsValid : IsValid n.cloud → IsValid (destroy_server ctx id n).1.cloud
  unfolding destroy_server
  destroy_server-IsValid = destroy-IsValid id n.cloud

  pub destroy_server-ok :
      IsValid n.cloud
      → (destroy_server ctx id n).0 ≡ ok tt
      → values (destroy_server ctx id n).1.cloud.servers ≡ without id (values n.cloud.servers)
  unfolding destroy_server
  destroy_server-ok = destroy-ok id n.cloud

  pub destroy_server-err :
      (x : Error)
      → (destroy_server ctx id n).0 ≡ err x
      → values (destroy_server ctx id n).1.cloud.servers ≡ values n.cloud.servers
  unfolding destroy_server
  destroy_server-err x h = ap values (destroy-err id n.cloud x h)

  pub list_by_tag-keeps_view :
      IsValid n.cloud
      → IsValid (list_by_tag ctx id n).1.cloud
        × (values (list_by_tag ctx id n).1.cloud.servers ≡ values n.cloud.servers)
  list_by_tag-keeps_view v = rw list_by_tag-keeps (v, refl)

  pub reap_auxiliary-keeps_view :
      {F : Type 0} (fl : Float F)
      → IsValid n.cloud
      → IsValid (reap_auxiliary (mock fl) ctx id n).1.cloud
        × (values (reap_auxiliary (mock fl) ctx id n).1.cloud.servers ≡ values n.cloud.servers)
  unfolding reap_auxiliary reap_aux
  reap_auxiliary-keeps_view fl v = (v, refl)

pub All-Unit : (l : List Server) → All (λ s. Unit {0}) l
All-Unit [] = tt
All-Unit (s ∷ l) = (tt, All-Unit l)

-- The mock keeps the contract of a backend.
abbrev pub mock-Contract : {F : Type 0} (fl : Float F) → Contract (mock fl)
mock-Contract fl = record {
  valid = IsValid;
  alive = λ m. values m.servers;
  names = λ id. Unit;
  gives = λ id. Unit;
  lists = λ ctx id n l name v h. (listed-tagged ctx id n l h, All-Unit l);
  list_keeps = λ ctx id n v. list_by_tag-keeps_view ctx id n v;
  destroy_valid = λ ctx id n v. destroy_server-IsValid ctx id n v;
  destroys = λ ctx id n own v h. destroy_server-ok ctx id n v h;
  fails = λ ctx id n e own v h. inl (destroy_server-err ctx id n e h);
  reap_keeps = λ ctx id n v. reap_auxiliary-keeps_view ctx id n fl v;
}
