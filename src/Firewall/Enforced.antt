-- ===== src/Firewall/Enforced.antt =====
-- nftables.go: what the two chains let through and log, over any policy and set.
use pandion.Prelude.{
  ℕ, String, Bool, true, false, ◌&&◌, ◌||◌, not, List, [], ◌∷◌, ◌≡◌, refl, arith, str_eq, ◌==◌, any,
  if◌then◌else◌,
}
use pandion.Firewall.{
  Spec, established, daddr, Action, Rule, on, when, when_audit, is_set, is_empty, ssh_rule,
  ingress_rules, overlay_rules, allowed_rules, input_chain, output_chain, metadata_ip,
  overlay_subnet, l2_vxlan_port,
}
use pandion.Firewall.Filter.{Packet, is_udp, is_tcp, is_icmp, passes, logged}

output_law :
    (audit block lo metadata est overlay allowance : Bool)
    → (if lo
        then true
        else (not ((block && not audit) && metadata)
            && (if est then true else (overlay || (allowance || audit)))))
      ≡ ((lo || (not (block && metadata) && (est || overlay || allowance))) || audit)
output_law true block lo metadata est overlay allowance = ground arith
output_law false block lo metadata est overlay allowance = ground arith

module _ (covers : String → String → Bool) (allowed : List String) where
  logged-ingress_rules :
      (ports : List ℕ) (p : Packet)
      → logged covers allowed (ingress_rules ports (when_audit true "pandion-audit-in ")) p
        ≡ not (is_tcp p && any (λ n. p.port == n) ports)
  unfolding ingress_rules
  logged-ingress_rules [] p = ground arith
  logged-ingress_rules (n ∷ ns) p = ground (arith, logged-ingress_rules ns p)

  passes-ssh_rule :
      (s : Spec) (policy : Bool) (rest : List Rule) (p : Packet)
      → passes covers allowed policy (ssh_rule s rest) p ≡ (
          (not s.no_public_ssh
            && (is_tcp p
                && (p.port == s.ssh_port)
                && (str_eq s.ssh_from_cidr "" || covers s.ssh_from_cidr p.source)))
          || passes covers allowed policy rest p)
  passes-ssh_rule s policy rest p = ground arith

  passes-ingress_rules :
      (ports : List ℕ) (policy : Bool) (rest : List Rule) (p : Packet)
      → passes covers allowed policy (ingress_rules ports rest) p
        ≡ ((is_tcp p && any (λ n. p.port == n) ports) || passes covers allowed policy rest p)
  unfolding ingress_rules
  passes-ingress_rules [] policy rest p = ground arith
  passes-ingress_rules (n ∷ ns) policy rest p =
      ground (arith, passes-ingress_rules ns policy rest p)

  -- The inbound packets that a spec opens the node to, with the port of its SSH.
  abbrev pub opened_at : ℕ → Spec → Packet → Bool
  opened_at port s p =
      str_eq p.interface "lo"
      || p.is_established
      || is_icmp p
      || (s.allow_overlay_input && str_eq p.interface "wg0")
      || (s.allow_l2_input && str_eq p.interface "vxlan0")
      || (is_set s.wg_port && (is_udp p && (p.port == s.wg_port)))
      || (not s.no_public_ssh
          && (is_tcp p
              && (p.port == port)
              && (str_eq s.ssh_from_cidr "" || covers s.ssh_from_cidr p.source)))
      || (is_tcp p && any (λ n. p.port == n) s.ingress_ports)

  passes-audit :
      (b policy : Bool) (t : String) (p : Packet)
      → passes covers allowed policy (when_audit b t) p ≡ policy
  passes-audit true policy t p = refl
  passes-audit false policy t p = refl

  passes-public :
      (s : Spec) (policy : Bool) (p : Packet)
      → passes covers allowed policy
          (ssh_rule s (ingress_rules s.ingress_ports (when_audit s.audit_only "pandion-audit-in ")))
          p
        ≡ ((not s.no_public_ssh
              && (is_tcp p
                  && (p.port == s.ssh_port)
                  && (str_eq s.ssh_from_cidr "" || covers s.ssh_from_cidr p.source)))
            || (is_tcp p && any (λ n. p.port == n) s.ingress_ports)
            || policy)
  passes-public s policy p =
      let noted = when_audit s.audit_only "pandion-audit-in " in
      ground (
        arith,
        passes-ssh_rule s policy (ingress_rules s.ingress_ports noted) p,
        passes-ingress_rules s.ingress_ports policy noted p,
        passes-audit s.audit_only policy "pandion-audit-in " p,
      )

  abbrev over_overlay : Spec → Packet → Bool
  over_overlay s p =
      (s.allow_overlay_input && str_eq p.interface "wg0")
      || (is_set s.wg_port && (is_udp p && (p.port == s.wg_port)))
      || (s.allow_l2_input && str_eq p.interface "vxlan0")
      || (s.allow_l2_input
          && (covers overlay_subnet p.destination && (is_udp p && (p.port == l2_vxlan_port))))

  abbrev by_allowance : Spec → Packet → Bool
  by_allowance s p =
      (s.allow_dns && ((is_udp p || is_tcp p) && (p.port == 53)))
      || (not (is_empty s.egress_allow_ips) && any (λ a. covers a p.destination) allowed)

  -- The outbound packets that a spec leaves open: none to the metadata service where it is blocked,
  -- but by the loopback interface.
  abbrev pub opened_by : Spec → Packet → Bool
  opened_by s p =
      str_eq p.interface "lo"
      || (not (s.block_metadata && covers metadata_ip p.destination)
          && (p.is_established || over_overlay s p || by_allowance s p))

  passes-overlay_rules :
      (s : Spec) (policy : Bool) (rest : List Rule) (p : Packet)
      → passes covers allowed policy (overlay_rules s rest) p
        ≡ (over_overlay s p || passes covers allowed policy rest p)
  unfolding overlay_rules
  passes-overlay_rules s policy rest p = ground arith

  passes-allowed_rules :
      (s : Spec) (policy : Bool) (p : Packet)
      → passes covers allowed policy (allowed_rules s) p ≡ (by_allowance s p || policy)
  unfolding allowed_rules
  passes-allowed_rules s policy p = ground arith

  logged-overlay_rules :
      (s : Spec) (rest : List Rule) (p : Packet)
      → logged covers allowed (overlay_rules s rest) p
        ≡ (not (over_overlay s p) && logged covers allowed rest p)
  unfolding overlay_rules
  logged-overlay_rules s rest p = ground arith

  logged-allowed_rules :
      (s : Spec) (p : Packet)
      → logged covers allowed (allowed_rules (record s { audit_only = true })) p
        ≡ not (by_allowance s p)
  unfolding allowed_rules
  logged-allowed_rules s p = ground arith

  passes-blocked :
      (b policy : Bool) (rest : List Rule) (p : Packet)
      → passes covers allowed policy (when b (daddr metadata_ip) Action.drop rest) p
        ≡ (not (b && covers metadata_ip p.destination) && passes covers allowed policy rest p)
  passes-blocked true policy rest p = ground arith
  passes-blocked false policy rest p = refl

  passes-output_chain :
      (s : Spec) (p : Packet)
      → passes covers allowed s.audit_only (output_chain s) p ≡ (opened_by s p || s.audit_only)
  unfolding output_chain
  passes-output_chain s p =
      let tail : passes covers allowed s.audit_only (overlay_rules s (allowed_rules s)) p
          ≡ (over_overlay s p || (by_allowance s p || s.audit_only)) =
        rw (
          passes-overlay_rules s s.audit_only (allowed_rules s) p,
          passes-allowed_rules s s.audit_only p,
        ) in
      rw
        (
          passes-blocked (s.block_metadata && not s.audit_only) s.audit_only
              (on established Action.accept ∷ overlay_rules s (allowed_rules s)) p,
          tail,
        )
        (output_law s.audit_only s.block_metadata (str_eq p.interface "lo")
          (covers metadata_ip p.destination) p.is_established (over_overlay s p) (by_allowance s p))

  -- What the chains of a spec let through, with the policy that it wants.
  pub passes-chains :
      (s : Spec) (p : Packet)
      → (passes covers allowed s.audit_only (input_chain s) p
          ≡ (opened_at s.ssh_port s p || s.audit_only))
        × (passes covers allowed s.audit_only (output_chain s) p ≡ (opened_by s p || s.audit_only))
  unfolding input_chain
  passes-chains s p = (ground (arith, passes-public s s.audit_only p), passes-output_chain s p)

  logged-public :
      (s : Spec) (p : Packet)
      → logged covers allowed
          (ssh_rule s (ingress_rules s.ingress_ports (when_audit true "pandion-audit-in ")))
          p
        ≡ not (
            (not s.no_public_ssh
              && (is_tcp p
                  && (p.port == s.ssh_port)
                  && (str_eq s.ssh_from_cidr "" || covers s.ssh_from_cidr p.source)))
            || (is_tcp p && any (λ n. p.port == n) s.ingress_ports))
  logged-public s p = ground (arith, logged-ingress_rules s.ingress_ports p)

  -- What the chains of a dry run log.
  pub logged-chains :
      (s : Spec) (p : Packet)
      → (logged covers allowed (input_chain (record s { audit_only = true })) p
          ≡ not (opened_at s.ssh_port s p))
        × (logged covers allowed (output_chain (record s { audit_only = true })) p
            ≡ not (opened_by (record s { block_metadata = false }) p))
  unfolding input_chain output_chain
  logged-chains s p =
      let t = record s { audit_only = true } in
      (
        ground (arith, logged-public s p),
        ground (arith, logged-overlay_rules t (allowed_rules t) p, logged-allowed_rules s p),
      )
