-- ===== src/Client/Hetzner/Walls.antt =====
-- hetzner.go: the cluster's firewall at the cloud's edge, made once and deleted with the cluster.
use Prim.Native.String.{◌++◌ as append}
use pandion.Prelude.{ℕ, zero, suc, ◌*◌, String, List, [], ◌∷◌, none, some}
use pandion.Prelude.Decimal.{decimal}
use pandion.Prelude.Integer.{ℤ}
use pandion.Errors.{Result, ok, err}
use pandion.Provider.{Context}
use pandion.Client.{Call, pure, try, rest_for, ◌>>=◌, ◌>>◌}
use pandion.Client.Request.{second}
use pandion.Client.Hetzner.{Api, Wall, Rule, Resource, label_selector, server, label_cluster_id}

-- LabelClusterID=<id>
abbrev pub selector : String → String
selector cluster_id = append label_cluster_id (append "=" cluster_id)

abbrev any_ip : List String
any_ip = "0.0.0.0/0" ∷ "::/0" ∷ []

unfoldable pub cluster_firewall_rules : ℕ → List Rule
cluster_firewall_rules wg_port =
    record {
      direction = "in";
      protocol = "tcp";
      port = some "22";
      source_ips = any_ip;
      description = "SSH (host nftables scopes to operator)";
    }
    ∷ record {
      direction = "in";
      protocol = "udp";
      port = some (decimal wg_port);
      source_ips = any_ip;
      description = "WireGuard overlay";
    }
    ∷ record {
      direction = "in";
      protocol = "icmp";
      port = none;
      source_ips = any_ip;
      description = "ICMP (diagnostics)";
    }
    ∷ []

-- The resources to detach: selectors and servers that are there.
unfoldable pub detachable : List Resource → List Resource
detachable [] = []
detachable (label_selector (some s) ∷ rs) = label_selector (some s) ∷ detachable rs
detachable (server (some i) ∷ rs) = server (some i) ∷ detachable rs
detachable (r ∷ rs) = detachable rs

module _ {F C : Type 0} (api : Api F C) (ctx : Context) where
  unfoldable pub ensure_cluster_firewall : String → ℕ → Call C (Unit {0})
  unfolding cluster_firewall_rules
  ensure_cluster_firewall cluster_id wg_port = do
    existing ← api.walls ctx (selector cluster_id)
    elim existing [
      | w ∷ ws ↦ pure tt
      | [] ↦
          api.create_wall ctx (append "pandion-fw-" cluster_id)
            ((label_cluster_id, cluster_id) ∷ []) (cluster_firewall_rules wg_port)
            (label_selector (some (selector cluster_id)) ∷ [])
    ]

  -- The attempts that are left; `last` is derr.
  unfoldable pub delete_rounds : ℕ → Result (Unit {0}) → ℤ → Call C (Unit {0})
  delete_rounds zero last id n = (last, n)
  delete_rounds (suc left) last id n =
      (do
        r ← try (api.delete_wall ctx id)
        elim r [
          | ok u ↦ pure tt
          | err e ↦ do rest_for ctx (3 * second); delete_rounds left (err e) id
        ])
        n

  unfoldable pub detach : Wall → List Resource → Call C (Unit {0})
  detach w [] = pure tt
  detach w (r ∷ rs) = do ignored ← try (api.remove_resources ctx w.id (r ∷ rs)); pure tt

  unfoldable pub delete_firewall : Wall → Call C (Unit {0})
  unfolding detach detachable delete_rounds
  delete_firewall w = do detach w (detachable w.applied_to); delete_rounds 10 (ok tt) w.id
