-- ===== src/Firewall.antt =====
-- internal/firewall/nftables.go: the nftables ruleset of a node. A rule is a condition and an
-- action with the text that the code writes for it, and a table is what the text of a ruleset is
-- written from: its set, its policy and its chains. What a chain does to a packet is in
-- Firewall/Filter.
pub mod Filter
pub mod Enforced
pub mod Rendered
use pandion.Prelude.{ℕ, Bool, true, false, ◌&&◌, not, List, [], ◌∷◌, str_eq, ◌==◌, if◌then◌else◌}
use Prim.Native.String.{String, ◌++◌}
use pandion.Prelude.Decimal.{decimal}
use pandion.Prelude.Order.{sort, str_leb}

pub record Spec : Type 0 where
  pub ssh_port : ℕ
  pub ssh_from_cidr : String
  pub wg_port : ℕ
  pub allow_overlay_input : Bool
  pub allow_l2_input : Bool
  pub ingress_ports : List ℕ
  pub egress_allow_ips : List String
  pub allow_dns : Bool
  pub no_public_ssh : Bool
  pub block_metadata : Bool
  pub audit_only : Bool

abbrev pub metadata_ip : String
metadata_ip = "169.254.169.254"

abbrev pub overlay_subnet : String
overlay_subnet = "10.99.0.0/24"

abbrev pub l2_vxlan_port : ℕ
l2_vxlan_port = 4789

unfoldable pub normalize : Spec → Spec
normalize s = if s.ssh_port == 0 then record s { ssh_port = 22 } else s

pub data Condition : Type 0 where
  -- the interface that a packet comes in by, and that it leaves by
  iif iifname oif : String → Condition
  established icmp egress_ok : Condition
  udp_dport tcp_dport : ℕ → Condition
  saddr_tcp daddr_udp : String → ℕ → Condition
  daddr : String → Condition

pub data Action : Type 0 where
  accept drop : Action
  log : String → Action

pub data Rule : Type 0 where
  on : Condition → Action → Rule
  -- a rule for every packet
  always : Action → Rule

-- A rule that is written under an `if`.
abbrev pub when : Bool → Condition → Action → List Rule → List Rule
when b c a rest = if b then on c a ∷ rest else rest

abbrev pub when_audit : Bool → String → List Rule
when_audit b prefix = if b then always (Action.log prefix) ∷ [] else []

abbrev pub is_set : ℕ → Bool
is_set n = not (n == 0)

abbrev pub is_empty : List String → Bool
is_empty [] = true
is_empty (x ∷ xs) = false

-- The `switch` over the public SSH rules.
abbrev pub ssh_rule : Spec → List Rule → List Rule
ssh_rule s rest =
    if s.no_public_ssh
    then rest
    else if not (str_eq s.ssh_from_cidr "")
    then on (saddr_tcp s.ssh_from_cidr s.ssh_port) Action.accept ∷ rest
    else on (tcp_dport s.ssh_port) Action.accept ∷ rest

unfoldable pub ingress_rules : List ℕ → List Rule → List Rule
ingress_rules [] rest = rest
ingress_rules (p ∷ ps) rest = on (tcp_dport p) Action.accept ∷ ingress_rules ps rest

-- The chain `input`, of a normalized spec.
unfoldable pub input_chain : Spec → List Rule
unfolding ingress_rules
input_chain s =
    on (iif "lo") Action.accept
    ∷ on established Action.accept
    ∷ on icmp Action.accept
    ∷ when s.allow_overlay_input (iif "wg0") Action.accept (
        when s.allow_l2_input (iifname "vxlan0") Action.accept (
          when (is_set s.wg_port) (udp_dport s.wg_port) Action.accept (
            ssh_rule s
              (ingress_rules s.ingress_ports (when_audit s.audit_only "pandion-audit-in ")))))

-- The outbound rules of the overlays.
unfoldable pub overlay_rules : Spec → List Rule → List Rule
overlay_rules s rest = when s.allow_overlay_input (oif "wg0") Action.accept (
    when (is_set s.wg_port) (udp_dport s.wg_port) Action.accept (
      when s.allow_l2_input (oif "vxlan0") Action.accept
        (when s.allow_l2_input (daddr_udp overlay_subnet l2_vxlan_port) Action.accept rest)))

-- Those of names and of the allowed addresses, and the dry run's.
unfoldable pub allowed_rules : Spec → List Rule
allowed_rules s = when s.allow_dns (udp_dport 53) Action.accept (
    when s.allow_dns (tcp_dport 53) Action.accept (
      when (not (is_empty s.egress_allow_ips)) egress_ok Action.accept
        (when_audit s.audit_only "pandion-audit-out ")))

-- The chain `output`.
unfoldable pub output_chain : Spec → List Rule
unfolding overlay_rules allowed_rules
output_chain s =
    on (oif "lo") Action.accept
    ∷ when (s.block_metadata && not s.audit_only) (daddr metadata_ip) Action.drop
        (on established Action.accept ∷ overlay_rules s (allowed_rules s))

unfoldable pub condition_text : Condition → String
unfolding decimal
condition_text (iif i) = "iif \"" ++ i ++ "\""
condition_text (iifname i) = "iifname \"" ++ i ++ "\""
condition_text (oif i) = "oif \"" ++ i ++ "\""
condition_text established = "ct state established,related"
condition_text icmp = "ip protocol icmp"
condition_text egress_ok = "ip daddr @egress_ok"
condition_text (udp_dport n) = "udp dport " ++ decimal n
condition_text (tcp_dport n) = "tcp dport " ++ decimal n
condition_text (saddr_tcp a n) = "ip saddr " ++ a ++ " tcp dport " ++ decimal n
condition_text (daddr_udp a n) = "ip daddr " ++ a ++ " udp dport " ++ decimal n
condition_text (daddr a) = "ip daddr " ++ a

unfoldable pub action_text : Action → String
action_text Action.accept = "accept"
action_text Action.drop = "drop"
action_text (Action.log prefix) = "log prefix \"" ++ prefix ++ "\" counter"

unfoldable pub rule_text : Rule → String
unfolding condition_text action_text
rule_text (on c a) = "    " ++ condition_text c ++ " " ++ action_text a ++ "\n"
rule_text (always a) = "    " ++ action_text a ++ "\n"

unfoldable pub chain_text : List Rule → String
unfolding rule_text
chain_text [] = "  }\n"
chain_text (r ∷ rs) = rule_text r ++ chain_text rs

-- strings.Join
unfoldable pub join_texts : List String → String → String
join_texts [] sep = ""
join_texts (x ∷ []) sep = x
join_texts (x ∷ y ∷ xs) sep = x ++ sep ++ join_texts (y ∷ xs) sep

-- The set of the allowed addresses, which are sorted.
unfoldable pub set_text : List String → String
unfolding join_texts
set_text [] = ""
set_text (ip ∷ ips) =
    "  set egress_ok {\n    type ipv4_addr; flags interval;\n    elements = { "
    ++ join_texts (ip ∷ ips) ", "
    ++ " }\n  }\n"

-- What the ruleset says, before it is written: the set, the policy of both chains, and the chains.
pub record Table : Type 0 where
  pub elements : List String
  pub policy : Action
  pub input : List Rule
  pub output : List Rule

abbrev pub written : Spec → Table
written s = record {
  elements = sort str_leb s.egress_allow_ips;
  policy = if s.audit_only then Action.accept else Action.drop;
  input = input_chain s;
  output = output_chain s;
}

unfoldable pub table_of : Spec → Table
unfolding normalize
table_of given = written (normalize given)

unfoldable pub table_text : Table → String
unfolding chain_text set_text action_text
table_text r =
    "flush ruleset\ntable inet pandion {\n"
    ++ set_text r.elements
    ++ "  chain input {\n    type filter hook input priority 0; policy "
    ++ action_text r.policy
    ++ ";\n"
    ++ chain_text r.input
    ++ "  chain output {\n    type filter hook output priority 0; policy "
    ++ action_text r.policy
    ++ ";\n"
    ++ chain_text r.output
    ++ "}\n"

-- The whole ruleset, as it is handed to `nft -f`.
unfoldable pub nf_tables : Spec → String
unfolding table_of table_text
nf_tables s = table_text (table_of s)
