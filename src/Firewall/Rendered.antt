-- ===== src/Firewall/Rendered.antt =====
-- nftables.go: what the rendered ruleset does to packets, its policy and its set included.
use pandion.Prelude.{
  ℕ, String, Bool, true, false, ◌&&◌, ◌||◌, not, List, [], ◌∷◌, ◌≡◌, refl, sym, ap, ◌∙◌, arith,
  str_eq, ◌==◌, any, if◌then◌else◌, Bool-cases, inl, inr,
}
use pandion.Prelude.Order.{sort, insert_sorted, str_leb}
use pandion.Firewall.{
  Spec, Action, Table, table_of, written, normalize, is_set, is_empty, metadata_ip, overlay_subnet,
  l2_vxlan_port,
}
use pandion.Firewall.Filter.{Packet, is_udp, is_tcp, is_icmp, passes, logged}
use pandion.Firewall.Enforced.{opened_at, opened_by, passes-chains, logged-chains}

abbrev is_accept : Action → Bool
is_accept Action.accept = true
is_accept _ = false

-- The port of SSH, which is 22 where none is given.
abbrev pub ssh_port_of : Spec → ℕ
ssh_port_of s = if s.ssh_port == 0 then 22 else s.ssh_port

table_of-unset :
    (s : Spec) → (s.ssh_port == 0) ≡ true → table_of s ≡ written (record s { ssh_port = 22 })
unfolding table_of normalize
table_of-unset s h = rw h refl

table_of-given : (s : Spec) → (s.ssh_port == 0) ≡ false → table_of s ≡ written s
unfolding table_of normalize
table_of-given s h = rw h refl

or_false : (b : Bool) → (b || false) ≡ b
or_false true = refl
or_false false = refl

module _ (covers : String → String → Bool) where
  -- What the ruleset lets in and out, its set being that of the allowed addresses.
  abbrev pub lets_in : Table → Packet → Bool
  lets_in r p = passes covers r.elements (is_accept r.policy) r.input p

  abbrev pub lets_out : Table → Packet → Bool
  lets_out r p = passes covers r.elements (is_accept r.policy) r.output p

  abbrev pub logs_in : Table → Packet → Bool
  logs_in r p = logged covers r.elements r.input p

  abbrev pub logs_out : Table → Packet → Bool
  logs_out r p = logged covers r.elements r.output p

  -- The inbound packets that a spec opens the node to.
  abbrev pub opened_in : Spec → Packet → Bool
  opened_in s p =
      str_eq p.interface "lo"
      || p.is_established
      || is_icmp p
      || (s.allow_overlay_input && str_eq p.interface "wg0")
      || (s.allow_l2_input && str_eq p.interface "vxlan0")
      || (is_set s.wg_port && (is_udp p && (p.port == s.wg_port)))
      || (not s.no_public_ssh
          && (is_tcp p
              && (p.port == ssh_port_of s)
              && (str_eq s.ssh_from_cidr "" || covers s.ssh_from_cidr p.source)))
      || (is_tcp p && any (λ n. p.port == n) s.ingress_ports)

  -- The outbound packets that a spec leaves open: none to the metadata service where it is blocked,
  -- but by the loopback interface.
  abbrev pub opened_out : Spec → Packet → Bool
  opened_out s p =
      str_eq p.interface "lo"
      || (not (s.block_metadata && covers metadata_ip p.destination)
          && (p.is_established
              || (s.allow_overlay_input && str_eq p.interface "wg0")
              || (is_set s.wg_port && (is_udp p && (p.port == s.wg_port)))
              || (s.allow_l2_input && str_eq p.interface "vxlan0")
              || (s.allow_l2_input
                  && (covers overlay_subnet p.destination
                      && (is_udp p && (p.port == l2_vxlan_port))))
              || (s.allow_dns && ((is_udp p || is_tcp p) && (p.port == 53)))
              || any (λ a. covers a p.destination) s.egress_allow_ips))

  any-insert_sorted :
      (f : String → Bool) (x : String) (xs : List String)
      → any f (insert_sorted str_leb x xs) ≡ any f (x ∷ xs)
  unfolding insert_sorted
  any-insert_sorted f x [] = refl
  any-insert_sorted f x (y ∷ ys) = ground (arith, any-insert_sorted f x ys)

  any-sort : (f : String → Bool) (xs : List String) → any f (sort str_leb xs) ≡ any f xs
  unfolding sort
  any-sort f [] = refl
  any-sort f (x ∷ xs) = ground (arith, any-insert_sorted f x (sort str_leb xs), any-sort f xs)

  any-given : (f : String → Bool) (xs : List String) → (not (is_empty xs) && any f xs) ≡ any f xs
  any-given f [] = refl
  any-given f (x ∷ xs) = refl

  opened_by-out :
      (s : Spec) (p : Packet)
      → opened_by covers (sort str_leb s.egress_allow_ips) s p ≡ opened_out s p
  opened_by-out s p = ground (
    arith,
    any-sort (λ a. covers a p.destination) s.egress_allow_ips,
    any-given (λ a. covers a p.destination) s.egress_allow_ips,
  )

  is_accept-policy : (b : Bool) → is_accept (if b then Action.accept else Action.drop) ≡ b
  is_accept-policy true = refl
  is_accept-policy false = refl

  -- What a spec whose port of SSH is given lets through.
  let_through :
      (t : Spec) (p : Packet)
      → (lets_in (written t) p
          ≡ (opened_at covers (sort str_leb t.egress_allow_ips) t.ssh_port t p || t.audit_only))
        × (lets_out (written t) p ≡ (opened_out t p || t.audit_only))
  let_through t p =
      let (inward, outward) = passes-chains covers (sort str_leb t.egress_allow_ips) t p in
      rw (is_accept-policy t.audit_only)
        (inward, outward ∙ ap (λ b. b || t.audit_only) (opened_by-out t p))

  noted :
      (t : Spec) (p : Packet)
      → (logs_in (written (record t { audit_only = true })) p
          ≡ not (lets_in (written (record t { audit_only = false; block_metadata = false })) p))
        × (logs_out (written (record t { audit_only = true })) p
            ≡ not (lets_out (written (record t { audit_only = false; block_metadata = false })) p))
  noted t p =
      let u : Spec = record t { audit_only = false; block_metadata = false } in
      let (inward, outward) = let_through u p in
      let (log_in, log_out) = logged-chains covers (sort str_leb t.egress_allow_ips) t p in
      (
        log_in ∙ sym (ap not (inward ∙ or_false _)),
        log_out
            ∙ ap not (opened_by-out (record t { block_metadata = false }) p)
            ∙ sym (ap not (outward ∙ or_false _)),
      )

  -- The ruleset of a spec, as its policy, its set and its chains are written. Enforced, it lets
  -- through exactly what the spec opens: nothing reaches the node and nothing leaves it but by a rule
  -- of the spec, and the metadata service, where it is blocked, is out of reach through any of the
  -- allowances. In a dry run it lets everything through.
  pub passes-table_of :
      (s : Spec) (p : Packet)
      → (lets_in (table_of s) p ≡ (opened_in s p || s.audit_only))
        × (lets_out (table_of s) p ≡ (opened_out s p || s.audit_only))
  passes-table_of s p = elim (Bool-cases (s.ssh_port == 0)) [
    | inl unset ↦ rw (table_of-unset s unset, unset) (let_through (record s { ssh_port = 22 }) p)
    | inr given ↦ rw (table_of-given s given, given) (let_through s p)
  ]

  -- A dry run logs exactly the packets that the ruleset of the same spec drops when it is enforced
  -- without the blocking of the metadata service, and so not those to the metadata service that an
  -- allowance covers.
  pub logged-table_of :
      (s : Spec) (p : Packet)
      → (logs_in (table_of (record s { audit_only = true })) p
          ≡ not (lets_in (table_of (record s { audit_only = false; block_metadata = false })) p))
        × (logs_out (table_of (record s { audit_only = true })) p
            ≡ not (lets_out (table_of (record s { audit_only = false; block_metadata = false })) p))
  logged-table_of s p =
      let dry : Spec = record s { audit_only = true } in
      let lock : Spec = record s { audit_only = false; block_metadata = false } in
      elim (Bool-cases (s.ssh_port == 0)) [
        | inl unset ↦
            rw (table_of-unset dry unset, table_of-unset lock unset)
              (noted (record s { ssh_port = 22 }) p)
        | inr given ↦ rw (table_of-given dry given, table_of-given lock given) (noted s p)
      ]
