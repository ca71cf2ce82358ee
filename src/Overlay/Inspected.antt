-- ===== src/Overlay/Inspected.antt =====
-- Which ARP packets pass the inspection: the first rule that a packet meets decides, and the chain
-- accepts what meets none.
use pandion.Prelude.{
  ℕ, ◌+◌, ◌≤◌, String, Bool, true, false, ◌&&◌, ◌||◌, not, List, [], ◌∷◌, ◌≡◌, arith, any, str_eq,
  if◌then◌else◌,
}
use pandion.Overlay.{
  L2Binding, Operation, ArpRule, accept_binding, drop_operation, dai_rules, mtu_for,
}

-- An ARP packet; its operation may be one that no rule names.
pub data ArpOperation : Type 0 where
  named : Operation → ArpOperation
  unnamed : ArpOperation

pub record ArpPacket : Type 0 where
  pub interface : String
  pub sender_ip : String
  pub sender_mac : String
  pub operation : ArpOperation

abbrev pub is_unnamed : ArpOperation → Bool
is_unnamed (named o) = false
is_unnamed unnamed = true

abbrev is_operation : Operation → ArpOperation → Bool
is_operation Operation.request (named Operation.request) = true
is_operation Operation.reply (named Operation.reply) = true
is_operation _ _ = false

-- The sender is a binding's.
abbrev pub bound : ArpPacket → L2Binding → Bool
bound p b = str_eq p.sender_ip b.l2_ip && str_eq p.sender_mac b.mac

abbrev pub arp_passes : List ArpRule → ArpPacket → Bool
arp_passes [] p = true
arp_passes (accept_binding b ∷ rs) p =
    if str_eq p.interface "vxlan0" && bound p b then true else arp_passes rs p
arp_passes (drop_operation o ∷ rs) p =
    if str_eq p.interface "vxlan0" && is_operation o p.operation then false else arp_passes rs p

last_rules :
    (o : ArpOperation) (q : ArpPacket)
    → arp_passes (dai_rules []) (record q { operation = o })
      ≡ (not (str_eq q.interface "vxlan0") || false || is_unnamed o)
unfolding dai_rules
last_rules unnamed q = ground arith
last_rules (named Operation.request) q = ground arith
last_rules (named Operation.reply) q = ground arith

-- On the segment, the inspection lets through exactly the requests and replies whose sender is one
-- of the bindings, and every packet of another operation; it does not touch other interfaces.
pub arp_passes-dai_rules :
    (bindings : List L2Binding) (p : ArpPacket)
    → arp_passes (dai_rules bindings) p
      ≡ (not (str_eq p.interface "vxlan0") || any (bound p) bindings || is_unnamed p.operation)
unfolding dai_rules
arp_passes-dai_rules [] p = last_rules p.operation p
arp_passes-dai_rules (b ∷ bs) p = ground (arith, arp_passes-dai_rules bs p)

-- The inner MTU is at least that of IPv6, and leaves room for the encapsulation in every underlay
-- with room for both.
mtu_for-fits : (w : ℕ) → 1330 ≤ w → (1280 ≤ mtu_for w) × (mtu_for w + 50 ≡ w)
unfolding mtu_for
mtu_for-fits w h = ground (arith, h)
