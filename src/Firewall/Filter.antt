-- ===== src/Firewall/Filter.antt =====
-- What nftables does with a chain, as its documentation has it: the first accept or drop whose
-- condition a packet meets decides, a log only notes the packet, and past the last rule the chain's
-- policy decides. Whether an address is in a CIDR is a parameter.
use pandion.Prelude.{
  ℕ, String, Bool, true, false, ◌&&◌, List, [], ◌∷◌, str_eq, ◌==◌, any, if◌then◌else◌,
}
use pandion.Firewall.{
  Condition, iif, iifname, oif, established, icmp, egress_ok, udp_dport, tcp_dport, saddr_tcp,
  daddr_udp, daddr, Action, Rule, on, always,
}

pub data Protocol : Type 0 where
  tcp udp icmp_protocol other : Protocol

pub record Packet : Type 0 where
  -- the interface it comes in by, in the input chain, or leaves by, in the output chain
  pub interface : String
  pub source : String
  pub destination : String
  pub protocol : Protocol
  pub port : ℕ
  pub is_established : Bool

abbrev pub is_udp : Packet → Bool
is_udp p = elim p.protocol [ Protocol.udp ↦ true | _ ↦ false ]

abbrev pub is_tcp : Packet → Bool
is_tcp p = elim p.protocol [ Protocol.tcp ↦ true | _ ↦ false ]

abbrev pub is_icmp : Packet → Bool
is_icmp p = elim p.protocol [ Protocol.icmp_protocol ↦ true | _ ↦ false ]

module _ (covers : String → String → Bool) (allowed : List String) where
  abbrev pub meets : Condition → Packet → Bool
  meets (iif i) p = str_eq p.interface i
  meets (iifname i) p = str_eq p.interface i
  meets (oif i) p = str_eq p.interface i
  meets established p = p.is_established
  meets icmp p = is_icmp p
  meets egress_ok p = any (λ a. covers a p.destination) allowed
  meets (udp_dport n) p = is_udp p && (p.port == n)
  meets (tcp_dport n) p = is_tcp p && (p.port == n)
  meets (saddr_tcp a n) p = covers a p.source && (is_tcp p && (p.port == n))
  meets (daddr_udp a n) p = covers a p.destination && (is_udp p && (p.port == n))
  meets (daddr a) p = covers a p.destination

  -- Whether a packet passes a chain with a policy.
  abbrev pub passes : Bool → List Rule → Packet → Bool
  passes policy [] p = policy
  passes policy (on c Action.accept ∷ rs) p = if meets c p then true else passes policy rs p
  passes policy (on c Action.drop ∷ rs) p = if meets c p then false else passes policy rs p
  passes policy (on c (Action.log t) ∷ rs) p = passes policy rs p
  passes policy (always Action.accept ∷ rs) p = true
  passes policy (always Action.drop ∷ rs) p = false
  passes policy (always (Action.log t) ∷ rs) p = passes policy rs p

  -- Whether it is noted on its way.
  abbrev pub logged : List Rule → Packet → Bool
  logged [] p = false
  logged (on c Action.accept ∷ rs) p = if meets c p then false else logged rs p
  logged (on c Action.drop ∷ rs) p = if meets c p then false else logged rs p
  logged (on c (Action.log t) ∷ rs) p = if meets c p then true else logged rs p
  logged (always Action.accept ∷ rs) p = false
  logged (always Action.drop ∷ rs) p = false
  logged (always (Action.log t) ∷ rs) p = true
