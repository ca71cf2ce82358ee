-- ===== src/Examples/Settings.antt =====
-- The settings and the firewall of a node.
use pandion.Prelude.{
  String, Bool, true, false, ◌||◌, not, [], ◌∷◌, Option, none, some, ◌≡◌, ◌↔◌, refl, str_eq,
}
use pandion.Config.{text, object, no_fields, field, Security, NodeCommon, Node, Cluster}
use pandion.Config.Effective.{effective}
use pandion.Config.Merged.{Says, effective-secure}
use pandion.Firewall.{Spec, table_of, output_chain, chain_text}
use pandion.Firewall.Filter.{Protocol, Packet}
use pandion.Firewall.Rendered.{
  lets_in, lets_out, logs_in, logs_out, opened_in, opened_out, passes-table_of, logged-table_of,
}

abbrev plain_common : Option Security → NodeCommon
plain_common sec = record {
  target = "";
  engine = "";
  size = "";
  gpu = "";
  image = "";
  container_image = "";
  ttl = "";
  toolchain = none;
  sync = none;
  sec = sec;
  setup = [];
}

abbrev lab : Security
lab = record {
  overlay = some (object (field "l2" (object (field "profile" (text "lab") no_fields)) no_fields));
  egress_allow = "pypi.org" ∷ [];
  open_egress_during_build = none;
  run_as = "";
  encrypt_volumes = none;
  block_metadata_service = some false;
  audit_log = none;
  capabilities = "CAP_NET_RAW" ∷ "" ∷ [];
}

abbrev node : Node
node = record {
  common = plain_common none;
  name = "a";
  role = "";
  run = "./a";
  ipc_ports = [];
  privileged_ports = [];
  needs_caps = "CAP_NET_RAW" ∷ "CAP_SYS_NICE" ∷ [];
  egress_allow = [];
}

abbrev cluster : Cluster
cluster = record {
  api_version = "v1";
  name = "c";
  provider = record { name = "mock"; credential = ""; region = "" };
  defaults = plain_common (some lab);
  nodes = node ∷ [];
  lifecycle = record { destroy_on_exit = none; confirm_teardown = none; keep_on_failure = none };
}

effective-secure_example :
    (((effective cluster node).block_metadata ≡ false)
      ↔ Says (λ s. s.block_metadata_service) cluster node false)
    × (((effective cluster node).audit_log ≡ false) ↔ Says (λ s. s.audit_log) cluster node false)
    × (((effective cluster node).encrypt_volumes ≡ true)
        ↔ Says (λ s. s.encrypt_volumes) cluster node true)
effective-secure_example = effective-secure cluster node

abbrev lockdown : Spec
lockdown = record {
  ssh_port = 22;
  ssh_from_cidr = "";
  wg_port = 51820;
  allow_overlay_input = true;
  allow_l2_input = false;
  ingress_ports = 8080 ∷ [];
  egress_allow_ips = "0.0.0.0/0" ∷ [];
  allow_dns = true;
  no_public_ssh = true;
  block_metadata = true;
  audit_only = false;
}

abbrev to_metadata : Packet
to_metadata = record {
  interface = "eth0";
  source = "203.0.113.4";
  destination = "169.254.169.254";
  protocol = Protocol.tcp;
  port = 80;
  is_established = false;
}

-- An address is in its own CIDR and in that of all addresses.
abbrev in_cidr : String → String → Bool
in_cidr cidr a = str_eq cidr "0.0.0.0/0" || str_eq cidr a

passes-table_of_example :
    (lets_in in_cidr (table_of lockdown) to_metadata
      ≡ (opened_in in_cidr lockdown to_metadata || false))
    × (lets_out in_cidr (table_of lockdown) to_metadata
        ≡ (opened_out in_cidr lockdown to_metadata || false))
passes-table_of_example = passes-table_of in_cidr lockdown to_metadata

-- The rules that keep the metadata service and SSH shut, as they are written.
lockdown_text :
    chain_text (output_chain lockdown)
    ≡ "    oif \"lo\" accept\n    ip daddr 169.254.169.254 drop\n    ct state established,related accept\n    oif \"wg0\" accept\n    udp dport 51820 accept\n    udp dport 53 accept\n    tcp dport 53 accept\n    ip daddr @egress_ok accept\n  }\n"
unfolding chain_text output_chain
lockdown_text = refl

logged-table_of_example :
    (logs_in in_cidr (table_of (record lockdown { audit_only = true })) to_metadata
      ≡ not (
          lets_in in_cidr
            (table_of (record lockdown { audit_only = false; block_metadata = false }))
            to_metadata))
    × (logs_out in_cidr (table_of (record lockdown { audit_only = true })) to_metadata
        ≡ not (
            lets_out in_cidr
              (table_of (record lockdown { audit_only = false; block_metadata = false }))
              to_metadata))
logged-table_of_example = logged-table_of in_cidr lockdown to_metadata
