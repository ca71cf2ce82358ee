-- ===== src/Overlay.antt =====
-- internal/overlay: the WireGuard configurations, and the VXLAN segment on top with its inspection
-- of
-- ARP. Keys are given; a rule of the inspection is a constructor with the text that the code
-- writes.
pub mod Inspected
use pandion.Prelude.{ℕ, ◌-◌, List, [], ◌∷◌, ltb, ◌==◌, str_eq, if◌then◌else◌}
use Prim.Native.String.{String, ◌++◌}
use pandion.Prelude.Decimal.{decimal}

abbrev default_port : ℕ
default_port = 51820

abbrev l2_dst_port : ℕ
l2_dst_port = 4789

abbrev vxlan_overhead : ℕ
vxlan_overhead = 50

abbrev l2_mtu_floor : ℕ
l2_mtu_floor = 1280

abbrev default_wg_mtu : ℕ
default_wg_mtu = 1420

abbrev underlay_mtu : ℕ → ℕ
underlay_mtu wg_mtu = if wg_mtu == 0 then default_wg_mtu else wg_mtu

-- A difference below zero is below the floor as well.
unfoldable pub mtu_for : ℕ → ℕ
mtu_for wg_mtu =
    let m = underlay_mtu wg_mtu - vxlan_overhead in if ltb m l2_mtu_floor then l2_mtu_floor else m

abbrev port_or_default : ℕ → ℕ
port_or_default port = if port == 0 then default_port else port

unfoldable pub interface_config : String → String → ℕ → String
unfolding decimal
interface_config priv_key address port =
    "[Interface]\nAddress = "
    ++ address
    ++ "\nListenPort = "
    ++ decimal (port_or_default port)
    ++ "\nPrivateKey = "
    ++ priv_key
    ++ "\n"

pub record NodeSpec : Type 0 where
  pub priv_key : String
  pub address : String
  pub listen_port : ℕ
  pub peer_pub_key : String
  pub peer_allowed_ip : String

unfoldable pub node_config : NodeSpec → String
unfolding interface_config
node_config s =
    interface_config s.priv_key s.address s.listen_port
    ++ "\n[Peer]\nPublicKey = "
    ++ s.peer_pub_key
    ++ "\nAllowedIPs = "
    ++ s.peer_allowed_ip
    ++ "\n"

unfoldable pub set_peer_command : String → String → String → ℕ → String → String
unfolding decimal
set_peer_command iface peer_pub endpoint_ip port overlay_ip =
    "wg set "
    ++ iface
    ++ " peer "
    ++ peer_pub
    ++ " endpoint "
    ++ endpoint_ip
    ++ ":"
    ++ decimal (port_or_default port)
    ++ " allowed-ips "
    ++ overlay_ip
    ++ "/32 persistent-keepalive 25"

pub record OperatorPeer : Type 0 where
  pub pub_key : String
  pub endpoint : String
  pub allowed_ip : String

abbrev peer_text : OperatorPeer → String
peer_text p =
    "\n[Peer]\nPublicKey = " ++ p.pub_key ++ "\nEndpoint = " ++ p.endpoint ++ "\nAllowedIPs = "
    ++ p.allowed_ip ++ "\nPersistentKeepalive = 25\n"

abbrev peers_text : List OperatorPeer → String
peers_text [] = ""
peers_text (p ∷ ps) = peer_text p ++ peers_text ps

unfoldable pub operator_config_multi : String → String → List OperatorPeer → String
operator_config_multi priv_key address peers =
    "[Interface]\nAddress = "
    ++ address
    ++ "\nPrivateKey = "
    ++ priv_key
    ++ "\n"
    ++ peers_text peers

pub record L2Binding : Type 0 where
  pub l2_ip : String
  pub mac : String
  pub wg_ip : String

pub record OperatorSpec : Type 0 where
  pub priv_key : String
  pub address : String
  pub peer_pub_key : String
  pub endpoint : String
  pub peer_allowed_ip : String

unfoldable pub operator_config : OperatorSpec → String
unfolding operator_config_multi
operator_config s = operator_config_multi s.priv_key s.address (
    record { pub_key = s.peer_pub_key; endpoint = s.endpoint; allowed_ip = s.peer_allowed_ip } ∷ [])

pub record L2NodeSpec : Type 0 where
  pub vni : ℕ
  pub local_wg : String
  pub addr : String
  pub mac : String
  pub mtu : ℕ
  pub profile : String

-- The commands of the lab profile alone.
abbrev lab_commands : String → List String
lab_commands profile =
    if str_eq profile "lab"
    then "sysctl -w net.ipv4.conf.vxlan0.rp_filter=0" ∷ "ip link set vxlan0 promisc on" ∷ []
    else []

unfoldable pub vxlan_bring_up : L2NodeSpec → List String
unfolding decimal
vxlan_bring_up s =
    "ip link del vxlan0 2>/dev/null || true"
    ∷ ("ip link add vxlan0 type vxlan id "
        ++ decimal s.vni
        ++ " dstport "
        ++ decimal l2_dst_port
        ++ " dev wg0 local "
        ++ s.local_wg
        ++ " nolearning")
    ∷ ("ip link set vxlan0 address " ++ s.mac)
    ∷ ("ip link set vxlan0 mtu " ++ decimal s.mtu)
    ∷ ("ip addr add " ++ s.addr ++ " dev vxlan0")
    ∷ "ip link set vxlan0 up"
    ∷ lab_commands s.profile

unfoldable pub fdb_inject : String → String → List String
fdb_inject peer_mac peer_wg_ip =
    ("bridge fdb append " ++ peer_mac ++ " dev vxlan0 dst " ++ peer_wg_ip)
    ∷ ("bridge fdb append 00:00:00:00:00:00 dev vxlan0 dst " ++ peer_wg_ip)
    ∷ []

pub data Operation : Type 0 where
  request reply : Operation

-- The rules on vxlan0.
pub data ArpRule : Type 0 where
  accept_binding : L2Binding → ArpRule
  drop_operation : Operation → ArpRule

unfoldable pub dai_rules : List L2Binding → List ArpRule
dai_rules [] = drop_operation Operation.reply ∷ drop_operation Operation.request ∷ []
dai_rules (b ∷ bs) = accept_binding b ∷ dai_rules bs

unfoldable pub arp_rule_text : ArpRule → String
arp_rule_text (accept_binding b) =
    "    meta iifname \"vxlan0\" arp saddr ip " ++ b.l2_ip ++ " arp saddr ether " ++ b.mac
    ++ " accept\n"
arp_rule_text (drop_operation Operation.reply) =
    "    meta iifname \"vxlan0\" arp operation reply drop\n"
arp_rule_text (drop_operation Operation.request) =
    "    meta iifname \"vxlan0\" arp operation request drop\n"

abbrev arp_rules_text : List ArpRule → String
arp_rules_text [] = "  }\n}\n"
arp_rules_text (r ∷ rs) = arp_rule_text r ++ arp_rules_text rs

unfoldable pub dai_text : List L2Binding → String
unfolding dai_rules arp_rule_text
dai_text bindings =
    "table arp pandion_dai {\n  chain input {\n    type filter hook input priority 0; policy accept;\n"
    ++ arp_rules_text (dai_rules bindings)
