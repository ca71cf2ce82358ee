-- ===== src/Examples/Networking.antt =====
-- The discovery of two nodes, and the inspection of ARP on their segment.
use mathlib.Core.List.{Permᴰ}
use pandion.Prelude.{
  ◌↔◌, ◌<◌, String, ◌||◌, not, List, [], ◌∷◌, some, ◌≡◌, refl, length, get_elem?, str_eq, any,
}
use pandion.Prelude.Dict.{Dict, lookup}
use pandion.Discovery.{names_of, rank_of}
use pandion.Discovery.Ranked.{rank_of-injective}
use pandion.Overlay.{L2Binding, Operation, dai_rules}
use pandion.Overlay.Inspected.{
  ArpPacket, named, bound, is_unnamed, arp_passes, arp_passes-dai_rules,
}

abbrev two_nodes : Dict String
two_nodes = ("worker-a", "10.99.0.2") ∷ ("broker", "10.99.0.1") ∷ []

abbrev broker : String
broker = "broker"

-- The listing of another node.
abbrev same_nodes : Dict String
same_nodes = ("broker", "10.99.0.1") ∷ ("worker-a", "10.99.0.2") ∷ []

rank_of-injective_example :
    (names_of two_nodes ≡ names_of same_nodes)
    × (rank_of two_nodes "broker" < length (names_of two_nodes))
    × (get_elem? (names_of two_nodes) (rank_of two_nodes "broker") ≡ some "broker")
    × ((broker ≡ broker) ↔ (rank_of two_nodes "broker" ≡ rank_of same_nodes "broker"))
unfolding lookup
rank_of-injective_example =
    rank_of-injective two_nodes same_nodes "broker" "broker" "10.99.0.1" "10.99.0.1"
      (Permᴰ.swap refl refl) refl refl

abbrev bindings : List L2Binding
bindings = record { l2_ip = "192.168.66.2"; mac = "02:00:00:00:00:02"; wg_ip = "10.99.0.2" } ∷ []

abbrev forged : ArpPacket
forged = record {
  interface = "vxlan0";
  sender_ip = "192.168.66.2";
  sender_mac = "02:00:00:00:00:03";
  operation = named Operation.reply;
}

arp_passes-dai_rules_example : arp_passes (dai_rules bindings) forged ≡ (
    not (str_eq forged.interface "vxlan0")
    || any (bound forged) bindings
    || is_unnamed forged.operation)
arp_passes-dai_rules_example = arp_passes-dai_rules bindings forged
