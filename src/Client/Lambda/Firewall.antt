-- ===== src/Client/Lambda/Firewall.antt =====
-- firewall.go: the account's firewall, to which the overlay's port is added once.
use pandion.Prelude.{ℕ, Bool, false, ◌&&◌, List, [], ◌∷◌, ◌++◌, leb, any, if◌then◌else◌}
use pandion.Prelude.Text.{equal_fold}
use pandion.Errors.{calling}
use pandion.Provider.{Context}
use pandion.Client.{Call, pure, wrapping, ◌>>=◌}
use pandion.Client.Lambda.{Api, Config, Client, FwRule, get_rules, put_rules}
use pandion.Client.Lambda.Http.{request}

-- A range [lo, hi] with the port in it; anything else is none.
unfoldable pub covers : ℕ → List ℕ → Bool
covers port (lo ∷ hi ∷ []) = leb lo port && leb port hi
covers port [] = false
covers port (a ∷ []) = false
covers port (a ∷ b ∷ c ∷ rest) = false

unfoldable pub opens : ℕ → FwRule → Bool
unfolding covers
opens port r = equal_fold r.protocol "udp" && covers port r.port_range

abbrev pub overlay_rule : ℕ → FwRule
overlay_rule port = record {
  protocol = "udp";
  port_range = port ∷ port ∷ [];
  source_network = "0.0.0.0/0";
  description = "Pandion WireGuard overlay";
}

-- The rules to put, where there are any to put.
unfoldable pub with_port : ℕ → List FwRule → List FwRule
unfolding opens
with_port port rules = if any (opens port) rules then rules else rules ++ overlay_rule port ∷ []

unfoldable pub ensure_cluster_firewall :
    {C : Type 0} → Api C → Config → Context → ℕ → Call (Client C) (Unit {0})
unfolding opens with_port
ensure_cluster_firewall api cfg ctx port = do
  a ← wrapping (calling "list firewall rules") (request api cfg ctx get_rules)
  if any (opens port) a.rules then pure tt else (do
    done ←
        wrapping (calling "open WireGuard port in the Lambda account firewall")
          (request api cfg ctx (put_rules (with_port port a.rules)))
    pure tt)
