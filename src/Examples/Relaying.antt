-- ===== src/Examples/Relaying.antt =====
-- The relay on a few sessions. The identity stands for the hash.
use pandion.Prelude.{ℕ, String, true, false, List, [], ◌∷◌, none, ◌≡◌, refl, str_eq, if◌then◌else◌}
use pandion.Prelude.Dict.{lookup}
use pandion.Relay.{Session, Store, session, expired, read, get, unless_expired, delete}
use pandion.Relay.Grants.{get-token}
use pandion.Relay.Revoked.{on_session, delete-revokes}
use pandion.Relay.Server.{new_limiter, Server, bad_token_per_min}
use pandion.Relay.Server.Throttle.{Request, page_of, terminal_of}

abbrev plain : String → String
plain s = s

abbrev grant : String → String → ℕ → Session
grant id token expiry = record {
  id = id;
  token = token;
  cluster_id = "c";
  node = "a";
  target = "10.99.0.2";
  host_pub = "";
  user = "guest";
  ssh_key_pem = "";
  expiry = expiry;
  read_only = false;
  record_session = false;
}

abbrev spool : Store
spool = record {
  files = ("t1", session (grant "s1" "t1" 50)) ∷ ("t2", session (grant "s2" "t2" 10)) ∷ [];
  faults = [];
}

get-token_example : ((grant "s1" "t1" 50).token ≡ "t1") × (expired (grant "s1" "t1" 50) 20 ≡ false)
unfolding get read unless_expired lookup
get-token_example =
    get-token plain "t1" 20 spool (grant "s1" "t1" 50) (λ a b e. e) (refl, (refl, tt)) refl

delete-revokes_example : lookup (delete plain "s1" spool).1.files "t1" ≡ (
    if on_session (λ s. str_eq s.id "s1") (lookup spool.files "t1")
    then none
    else lookup spool.files "t1")
unfolding lookup
delete-revokes_example =
    delete-revokes plain "s1" spool "t1" refl (refl, (refl, tt)) (refl, (refl, tt))

abbrev server : Server
server = record { store = spool; lim = new_limiter bad_token_per_min; record_dir = "" }

abbrev scan : List Request
scan = page_of "198.51.100.7" "guess" 20 ∷ terminal_of "198.51.100.7" "t1" 20 true true false ∷ []
