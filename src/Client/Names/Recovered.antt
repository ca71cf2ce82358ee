-- ===== src/Client/Names/Recovered.antt =====
-- Names in the form that the clouds allow: sanitizing makes them, and leaves them as they are, so
-- that a cluster is found again under the name that its tag gives back.
use Prim.Native.Char.{Char, code}
use Prim.Native.String.{◌++◌ as append}
use text.Mathlib.TextLemmas.{nil-append, cons-append, append_cancel_left}
use text.Mathlib.TextPositions.{starts_with-append}
use pandion.Prelude.{
  ℕ, ◌≡◌, refl, String, Bool, true, false, [], ◌∷◌, arith, ◌==◌, all, Bool-cases, inl, inr, ap, ◌∙◌,
  sym,
}
use pandion.Prelude.Text.{codes, is_upper, is_lower, is_digit}
use pandion.Client.Names.{
  lower_text, is_name, is_word, dashed, trim_front, put_front, trim_back, trim_dashes, sanitize,
  cluster_tag, recover_cluster_id, tag_all, tag_cid_prefix, drop, size, lower,
}

abbrev pub begins_dash : String → Bool
begins_dash String.[] = false
begins_dash (String.◌∷◌ c s) = code c == b'-'

abbrev pub ends_dash : String → Bool
ends_dash String.[] = false
ends_dash (String.◌∷◌ c String.[]) = code c == b'-'
ends_dash (String.◌∷◌ c (String.◌∷◌ d s)) = ends_dash (String.◌∷◌ d s)

-- Lower-case letters, digits and dashes, with no dash at an end.
abbrev pub IsDnsName : String → Type 0
IsDnsName s = (all is_name (codes s) ≡ true) × (begins_dash s ≡ false) × (ends_dash s ≡ false)

lower_text-kept : (s : String) → all is_name (codes s) ≡ true → lower_text s ≡ s
unfolding lower_text is_name is_word is_lower is_digit lower is_upper
lower_text-kept String.[] h = refl
lower_text-kept (String.◌∷◌ c s) h = ground (arith, h, lower_text-kept s)

dashed-kept : (s : String) → all is_name (codes s) ≡ true → dashed is_name false s ≡ s
unfolding dashed
dashed-kept String.[] h = refl
dashed-kept (String.◌∷◌ c s) h = ground (arith, h, dashed-kept s)

trim_front-kept : (s : String) → begins_dash s ≡ false → trim_front s ≡ s
unfolding trim_front
trim_front-kept String.[] h = refl
trim_front-kept (String.◌∷◌ c s) h = ground (arith, h)

trim_back-kept : (s : String) → ends_dash s ≡ false → trim_back s ≡ s
unfolding trim_back put_front
trim_back-kept String.[] h = refl
trim_back-kept (String.◌∷◌ c String.[]) h = ground (arith, h)
trim_back-kept (String.◌∷◌ c (String.◌∷◌ d s)) h = rw (trim_back-kept (String.◌∷◌ d s) h) refl

pub sanitize-kept : (s : String) → IsDnsName s → sanitize s ≡ s
unfolding sanitize trim_dashes
sanitize-kept s (names, front, back) =
    rw
      (lower_text-kept s names, dashed-kept s names, trim_back-kept s back, trim_front-kept s front)
      refl

dashed-names : (run : Bool) (s : String) → all is_name (codes (dashed is_name run s)) ≡ true
unfolding dashed is_name
dashed-names run String.[] = refl
dashed-names run (String.◌∷◌ c s) = ground (arith, dashed-names false s, dashed-names true s)

trim_front-names :
    (p : ℕ → Bool) (s : String) → all p (codes s) ≡ true → all p (codes (trim_front s)) ≡ true
unfolding trim_front
trim_front-names p String.[] h = refl
trim_front-names p (String.◌∷◌ c s) h = ground (arith, h, trim_front-names p s)

put_front-names :
    (p : ℕ → Bool) (c : Char) (s : String)
    → p (code c) ≡ true
    → all p (codes s) ≡ true
    → all p (codes (put_front c s)) ≡ true
unfolding put_front
put_front-names p c String.[] h k = elim (Bool-cases (code c == b'-')) [
  | inl e ↦ rw e refl
  | inr e ↦ rw (e, h) refl
]
put_front-names p c (String.◌∷◌ d s) h k = ground (arith, h, k)

trim_back-names :
    (p : ℕ → Bool) (s : String) → all p (codes s) ≡ true → all p (codes (trim_back s)) ≡ true
unfolding trim_back
trim_back-names p String.[] h = refl
trim_back-names p (String.◌∷◌ c s) h =
    ground (arith, h, put_front-names p c (trim_back s), trim_back-names p s)

pub begins_dash-trim_front : (s : String) → begins_dash (trim_front s) ≡ false
unfolding trim_front
begins_dash-trim_front String.[] = refl
begins_dash-trim_front (String.◌∷◌ c s) = ground (arith, begins_dash-trim_front s)

ends_dash-trim_front : (s : String) → ends_dash s ≡ false → ends_dash (trim_front s) ≡ false
unfolding trim_front
ends_dash-trim_front String.[] h = refl
ends_dash-trim_front (String.◌∷◌ c String.[]) h = ground (arith, h)
ends_dash-trim_front (String.◌∷◌ c (String.◌∷◌ d s)) h =
    ground (arith, h, ends_dash-trim_front (String.◌∷◌ d s))

ends_dash-put_front :
    (c : Char) (s : String) → ends_dash s ≡ false → ends_dash (put_front c s) ≡ false
unfolding put_front
ends_dash-put_front c String.[] h = elim (Bool-cases (code c == b'-')) [
  | inl e ↦ rw e refl
  | inr e ↦ rw e e
]
ends_dash-put_front c (String.◌∷◌ d s) h = h

ends_dash-trim_back : (s : String) → ends_dash (trim_back s) ≡ false
unfolding trim_back
ends_dash-trim_back String.[] = refl
ends_dash-trim_back (String.◌∷◌ c s) = ends_dash-put_front c (trim_back s) (ends_dash-trim_back s)

pub trim_dashes-IsDnsName : (s : String) → all is_name (codes s) ≡ true → IsDnsName (trim_dashes s)
unfolding trim_dashes
trim_dashes-IsDnsName s h = (
  trim_front-names is_name (trim_back s) (trim_back-names is_name s h),
  begins_dash-trim_front (trim_back s),
  ends_dash-trim_front (trim_back s) (ends_dash-trim_back s),
)

pub sanitize-IsDnsName : (s : String) → IsDnsName (sanitize s)
unfolding sanitize
sanitize-IsDnsName s =
    trim_dashes-IsDnsName (dashed is_name false (lower_text s)) (dashed-names false (lower_text s))

drop-append : (t s : String) → drop (size t) (append t s) ≡ s
drop-append String.[] s = nil-append s
drop-append (String.◌∷◌ c t) s = rw cons-append (drop-append t s)

recover-cluster_tag :
    (id : String) → recover_cluster_id (tag_all ∷ cluster_tag id ∷ []) ≡ sanitize id
unfolding recover_cluster_id cluster_tag
recover-cluster_tag id =
    rw (starts_with-append tag_cid_prefix (sanitize id)) (drop-append tag_cid_prefix (sanitize id))

-- The cluster id that is read back out of a server's tags is the cluster's own in the form that the
-- clouds allow, and that form has the same tag: a reconcile by the id read back finds the same
-- servers.
pub recover_cluster_id-cluster_tag :
    (id : String)
    → (recover_cluster_id (tag_all ∷ cluster_tag id ∷ []) ≡ sanitize id)
      × IsDnsName (sanitize id)
      × (cluster_tag (recover_cluster_id (tag_all ∷ cluster_tag id ∷ [])) ≡ cluster_tag id)
unfolding cluster_tag
recover_cluster_id-cluster_tag id = (
  recover-cluster_tag id,
  sanitize-IsDnsName id,
  ap (append tag_cid_prefix)
      (ap sanitize (recover-cluster_tag id) ∙ sanitize-kept (sanitize id) (sanitize-IsDnsName id)),
)

-- Clusters whose ids are in the form that the clouds allow have tags of their own: where two such
-- ids have the same tag they are the same.
pub cluster_tag-injective :
    (a b : String) → IsDnsName a → IsDnsName b → cluster_tag a ≡ cluster_tag b → a ≡ b
unfolding cluster_tag
cluster_tag-injective a b ha hb e =
    sym (sanitize-kept a ha)
    ∙ append_cancel_left tag_cid_prefix (sanitize a) (sanitize b) e
    ∙ sanitize-kept b hb
