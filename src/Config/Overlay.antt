-- ===== src/Config/Overlay.antt =====
-- The Layer-2 overlay that a `security.overlay` value asks for.
use pandion.Prelude.{ℕ, String, Option, none, some, str_eq, if◌then◌else◌}
use pandion.Config.{
  Value, text, integer, real, object, Fields, no_fields, field, Security, Node, Cluster,
}

pub record L2Overlay : Type 0 where
  pub profile : String
  pub subnet : String
  pub vni : ℕ

abbrev default_l2_subnet : String
default_l2_subnet = "192.168.66.0/24"

abbrev default_l2_vni : ℕ
default_l2_vni = 100

abbrev default_overlay : L2Overlay
default_overlay = record { profile = "safe"; subnet = default_l2_subnet; vni = default_l2_vni }

-- t[key]
abbrev pub field_of : Fields → String → Option Value
field_of no_fields key = none
field_of (field k v fs) key = let rest = field_of fs key in if str_eq k key then some v else rest

-- `if p, ok := v.(string); ok && p != ""`
abbrev pub text_or : Option Value → String → String
text_or (some (text s)) old = if str_eq s "" then old else s
text_or _ old = old

abbrev number_or : Option Value → ℕ → ℕ
number_or (some (integer n)) old = n
number_or (some (real n)) old = n
number_or _ old = old

abbrev pub overlay_of_fields : Option Value → Option L2Overlay
overlay_of_fields none = none
overlay_of_fields (some (object m)) = some (record {
  profile = text_or (field_of m "profile") default_overlay.profile;
  subnet = text_or (field_of m "subnet") default_overlay.subnet;
  vni = number_or (field_of m "vni") default_overlay.vni;
})
overlay_of_fields (some _) = some default_overlay

unfoldable pub parse_overlay : Value → Option L2Overlay
parse_overlay (text s) = if str_eq s "l2" then some default_overlay else none
parse_overlay (object t) = overlay_of_fields (field_of t "l2")
parse_overlay _ = none

-- What a security section asks for; an absent overlay is nil.
unfoldable pub overlay_in : Option Security → Option L2Overlay
unfolding parse_overlay
overlay_in none = none
overlay_in (some sec) = elim sec.overlay [ none ↦ none | some v ↦ parse_overlay v ]

-- The node's overlay, else that of the defaults.
abbrev pub overlay_or : Option L2Overlay → Option L2Overlay → Option L2Overlay
overlay_or (some o) d = some o
overlay_or none d = d

unfoldable pub resolve_l2 : Cluster → Node → Option L2Overlay
unfolding overlay_in
resolve_l2 c n = overlay_or (overlay_in n.common.sec) (overlay_in c.defaults.sec)
