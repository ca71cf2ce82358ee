-- ===== src/Discovery.antt =====
-- internal/discovery/discovery.go: the variables by which the nodes of a cluster find each other. A
-- variable's name and the script are lists of the codes of their characters; case is that of ASCII.
pub mod Listed
pub mod Ranked
pub mod Variables
use pandion.Prelude.{
  ℕ, suc, ◌+◌, ◌||◌, String, Bool, true, false, List, [], ◌∷◌, ◌++◌, Option, none, some, map,
  length, str_eq, if◌then◌else◌,
}
use pandion.Prelude.Text.{codes, to_upper, is_upper, is_digit}
use pandion.Prelude.Decimal.{decimal}
use pandion.Prelude.Dict.{Dict, lookup}
use pandion.Prelude.Order.{sort, str_leb}

-- The character that is written for a rune of the node's name, in upper case.
unfoldable pub var_code : ℕ → ℕ
unfolding is_upper is_digit
var_code r = if is_upper r || is_digit r then r else b'_'

unfoldable pub env_var_name : String → List ℕ
unfolding to_upper var_code
env_var_name node = codes "PANDION_" ++ map (λ r. var_code (to_upper r)) (codes node) ++ codes "_IP"

-- The keys of the map, sorted.
unfoldable pub names_of : Dict String → List String
names_of ips = sort str_leb (map (λ e. e.0) ips)

-- `ips[n]`, empty where it is absent
abbrev ip_of : Dict String → String → String
ip_of ips n = elim (lookup ips n) [ none ↦ "" | some ip ↦ ip ]

-- The loop that finds the rank of a name, from index `i` on.
unfoldable pub rank_from : List String → String → ℕ → ℕ → ℕ
rank_from [] self i rank = rank
rank_from (n ∷ ns) self i rank = rank_from ns self (i + 1) (if str_eq n self then i else rank)

abbrev pub rank_of : Dict String → String → ℕ
rank_of ips self = rank_from (names_of ips) self 0 0

-- A line of the script: a variable and its value.
abbrev Export : Type 0
Export = List ℕ × String

abbrev node_exports : Dict String → List String → List Export
node_exports ips [] = []
node_exports ips (n ∷ ns) = (env_var_name n, ip_of ips n) ∷ node_exports ips ns

abbrev own_ip : Option String → List Export
own_ip none = []
own_ip (some ip) = (codes "PANDION_SELF_IP", ip) ∷ []

abbrev rendezvous : Dict String → List String → String → List Export
rendezvous ips [] self = []
rendezvous ips (n ∷ ns) self =
    (codes "PANDION_WORLD_SIZE", decimal (length (n ∷ ns)))
    ∷ (codes "PANDION_RANK", decimal (rank_from (n ∷ ns) self 0 0))
    ∷ (codes "PANDION_MASTER_ADDR", ip_of ips n)
    ∷ (codes "PANDION_MASTER_PORT", "29500")
    ∷ []

unfoldable pub exports : Dict String → String → List Export
exports ips self =
    let names = names_of ips in
    node_exports ips names
    ++ (if str_eq self ""
        then []
        else (codes "PANDION_SELF_NAME", self) ∷ own_ip (lookup ips self)
          ++ rendezvous ips names self)

abbrev lines_of : List Export → List ℕ
lines_of [] = []
lines_of (e ∷ es) = codes "export " ++ e.0 ++ codes "=" ++ codes e.1 ++ codes "\n" ++ lines_of es

unfoldable pub script : Dict String → String → List ℕ
unfolding exports
script ips self =
    codes "# Pandion service discovery (overlay IPs). Generated — do not edit.\n"
    ++ lines_of (exports ips self)
