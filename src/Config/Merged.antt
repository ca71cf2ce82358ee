-- ===== src/Config/Merged.antt =====
-- What the merged settings are.
use pandion.Prelude.{
  String, Bool, true, false, subst, Option-cases, Bool-cases, ◌&&◌, ◌||◌, not, List, Option, none,
  some, ◌≡◌, ◌↔◌, ◌⊎◌, inl, inr, refl, arith, str_eq,
}
use pandion.Prelude.Unique.{
  Gathered, nothing_gathered, gather_all, contains, unique, IsGathered, nothing_gathered-IsGathered,
  gather_all-IsGathered, contains-gather_all,
}
use pandion.Config.{Value, null, text, flag, integer, real, object, Security, Node, Cluster}
use pandion.Config.Overlay.{
  L2Overlay, parse_overlay, overlay_in, resolve_l2, overlay_of_fields, overlay_or, field_of,
  text_or,
}
use pandion.Config.Effective.{
  effective, node_caps, egress_allow, sec_bool, nonempty, add_from, flag_in,
}

-- Whether a section's list holds a string.
abbrev pub lists : (Security → List String) → Option Security → String → Bool
lists items none v = false
lists items (some sec) v = contains (items sec) v

add_from-IsGathered :
    (items : Security → List String) (sec : Option Security) (g : Gathered)
    → IsGathered g
    → IsGathered (add_from items sec g)
add_from-IsGathered items none g h = h
add_from-IsGathered items (some sec) g h = gather_all-IsGathered nonempty (items sec) g h

contains-add_from :
    (items : Security → List String) (sec : Option Security) (g : Gathered) (v : String)
    → IsGathered g
    → contains (add_from items sec g).out v
      ≡ (contains g.out v || (nonempty v && lists items sec v))
contains-add_from items none g v h = ground arith
contains-add_from items (some sec) g v h = contains-gather_all nonempty (items sec) g v h

-- The three lists of a union, one after the other.
gathered_three :
    (items : Security → List String) (own : List String) (node defaults : Option Security)
    → let g =
        add_from items defaults (add_from items node (gather_all nonempty own nothing_gathered)) in
      (unique g.out ≡ true)
      × ((v : String)
          → contains g.out v
            ≡ (nonempty v && (contains own v || lists items node v || lists items defaults v)))
gathered_three items own node defaults =
    let g = gather_all nonempty own nothing_gathered in
    let h = gather_all-IsGathered nonempty own nothing_gathered nothing_gathered-IsGathered in
    let h' = add_from-IsGathered items node g h in
    (
      (add_from-IsGathered items defaults (add_from items node g) h').1,
      λ v. ground (
        arith,
        contains-add_from items defaults (add_from items node g) v h',
        contains-add_from items node g v h,
        contains-gather_all nonempty own nothing_gathered v nothing_gathered-IsGathered,
      ),
    )

-- A node's capabilities and its egress are each the union of its own list and those of its security
-- section and the defaults' one: the nonempty strings of the three, each once.
pub node_caps-unique :
    (c : Cluster) (n : Node)
    → (unique (node_caps c n) ≡ true)
      × ((v : String)
          → contains (node_caps c n) v ≡ (
              nonempty v
              && (contains n.needs_caps v
                  || lists (λ s. s.capabilities) n.common.sec v
                  || lists (λ s. s.capabilities) c.defaults.sec v)))
      × (unique (egress_allow c n) ≡ true)
      × ((v : String)
          → contains (egress_allow c n) v ≡ (
              nonempty v
              && (contains n.egress_allow v
                  || lists (λ s. s.egress_allow) n.common.sec v
                  || lists (λ s. s.egress_allow) c.defaults.sec v)))
unfolding node_caps egress_allow
node_caps-unique c n =
    let (once, has) =
      gathered_three (λ s. s.capabilities) n.needs_caps n.common.sec c.defaults.sec in
    let (once', has') =
      gathered_three (λ s. s.egress_allow) n.egress_allow n.common.sec c.defaults.sec in
    (once, has, once', has')

-- Whether a node turns a setting to a value, or says nothing of it and the defaults do.
abbrev pub Says : (Security → Option Bool) → Cluster → Node → Bool → Type 0
Says get c n b =
    (flag_in get n.common.sec ≡ some b)
    ⊎ ((flag_in get n.common.sec ≡ none) × (flag_in get c.defaults.sec ≡ some b))

-- A flag, else that of the defaults, else a fallback, is other than the fallback where one says so.
sec_bool_iff :
    (own default : Option Bool) (fallback b : Bool)
    → b ≡ not fallback
    → (elim own [ some v ↦ v | none ↦ elim default [ some v ↦ v | none ↦ fallback ] ] ≡ b)
      ↔ ((own ≡ some b) ⊎ ((own ≡ none) × (default ≡ some b)))
sec_bool_iff (some v) default fallback b h = (
  λ e. inl (ground (arith, e)),
  λ s. elim s [ inl e ↦ ground (arith, e) | inr e ↦ ground (arith, e) ],
)
sec_bool_iff none (some v) fallback b h = (
  λ e. inr (refl, ground (arith, e)),
  λ s. elim s [ inl e ↦ ground (arith, e) | inr e ↦ ground (arith, e) ],
)
sec_bool_iff none none fallback b h = (
  λ e. ground (arith, e, h),
  λ s. elim s [ inl e ↦ ground (arith, e) | inr e ↦ ground (arith, e) ],
)

-- Secure by default: the metadata service is reachable, and the audit log is off, exactly where the
-- node says so, or says nothing and the defaults do; volumes are encrypted exactly where they ask
-- for it in this way, and so not by default.
pub effective-secure :
    (c : Cluster) (n : Node)
    → (((effective c n).block_metadata ≡ false) ↔ Says (λ s. s.block_metadata_service) c n false)
      × (((effective c n).audit_log ≡ false) ↔ Says (λ s. s.audit_log) c n false)
      × (((effective c n).encrypt_volumes ≡ true) ↔ Says (λ s. s.encrypt_volumes) c n true)
unfolding effective sec_bool
effective-secure c n = (
  sec_bool_iff (flag_in (λ s. s.block_metadata_service) n.common.sec)
      (flag_in (λ s. s.block_metadata_service) c.defaults.sec) true false refl,
  sec_bool_iff (flag_in (λ s. s.audit_log) n.common.sec) (flag_in (λ s. s.audit_log) c.defaults.sec)
      true false refl,
  sec_bool_iff (flag_in (λ s. s.encrypt_volumes) n.common.sec)
      (flag_in (λ s. s.encrypt_volumes) c.defaults.sec) false true refl,
)

abbrev Named : L2Overlay → Type 0
Named o = (nonempty o.profile ≡ true) × (nonempty o.subnet ≡ true)

text_or-nonempty :
    (v : Option Value) (old : String) → nonempty old ≡ true → nonempty (text_or v old) ≡ true
text_or-nonempty none old h = h
text_or-nonempty (some (text s)) old h = ground (arith, h)
text_or-nonempty (some null) old h = h
text_or-nonempty (some (flag b)) old h = h
text_or-nonempty (some (integer k)) old h = h
text_or-nonempty (some (real k)) old h = h
text_or-nonempty (some (object m)) old h = h

abbrev NamedIf : Option L2Overlay → Type 0
NamedIf none = Unit
NamedIf (some o) = Named o

overlay_of_fields-Named : (v : Option Value) → NamedIf (overlay_of_fields v)
overlay_of_fields-Named none = tt
overlay_of_fields-Named (some (object m)) = (
  text_or-nonempty (field_of m "profile") "safe" refl,
  text_or-nonempty (field_of m "subnet") "192.168.66.0/24" refl,
)
overlay_of_fields-Named (some null) = (refl, refl)
overlay_of_fields-Named (some (flag b)) = (refl, refl)
overlay_of_fields-Named (some (integer k)) = (refl, refl)
overlay_of_fields-Named (some (real k)) = (refl, refl)
overlay_of_fields-Named (some (text s)) = (refl, refl)

parse_overlay-Named : (v : Value) → NamedIf (parse_overlay v)
unfolding parse_overlay
parse_overlay-Named (text s) = elim (Bool-cases (str_eq s "l2")) [
  | inl e ↦ rw e (refl, refl)
  | inr e ↦ rw e tt
]
parse_overlay-Named (object t) = overlay_of_fields-Named (field_of t "l2")
parse_overlay-Named null = tt
parse_overlay-Named (flag b) = tt
parse_overlay-Named (integer k) = tt
parse_overlay-Named (real k) = tt

overlay_in-Named : (sec : Option Security) → NamedIf (overlay_in sec)
unfolding overlay_in
overlay_in-Named none = tt
overlay_in-Named (some sec) = elim (Option-cases sec.overlay) [
  | inl e ↦ rw e tt
  | inr (v, e) ↦ rw e (parse_overlay-Named v)
]

overlay_or-Named : (o d : Option L2Overlay) → NamedIf o → NamedIf d → NamedIf (overlay_or o d)
overlay_or-Named (some o) d h k = h
overlay_or-Named none d h k = k

resolve_l2-Named : (c : Cluster) (n : Node) → NamedIf (resolve_l2 c n)
unfolding resolve_l2
resolve_l2-Named c n =
    overlay_or-Named (overlay_in n.common.sec) (overlay_in c.defaults.sec)
      (overlay_in-Named n.common.sec) (overlay_in-Named c.defaults.sec)

-- A Layer-2 overlay always has a profile and a subnet, whatever the value that asks for it.
resolve_l2-named :
    (c : Cluster) (n : Node) (o : L2Overlay)
    → resolve_l2 c n ≡ some o
    → (nonempty o.profile ≡ true) × (nonempty o.subnet ≡ true)
resolve_l2-named c n o h = subst NamedIf h (resolve_l2-Named c n)
