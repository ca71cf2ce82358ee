-- ===== src/Client/Names/Bounds.antt =====
-- The names of servers: within the length that the cloud allows, and in the form it allows.
use Prim.Native.Char.{Char, code}
use pandion.Prelude.{
  ℕ, zero, suc, ◌≤◌, ◌≡◌, refl, String, Bool, true, arith, all, ◌==◌, Bool-cases, inl, inr, ltb,
}
use pandion.Prelude.Text.{codes}
use pandion.Client.Names.{
  size, cut, trim_front, put_front, trim_back, trim_dashes, shortened, server_name, sanitize,
  is_name, node_name,
}
use pandion.Client.Names.Recovered.{IsDnsName, sanitize-IsDnsName, trim_dashes-IsDnsName}

size-trim_front-le : (s : String) → size (trim_front s) ≤ size s
unfolding trim_front
size-trim_front-le String.[] = omega arith
size-trim_front-le (String.◌∷◌ c s) = elim (Bool-cases (code c == b'-')) [
  | inl e ↦ rw e (omega (arith, size-trim_front-le s))
  | inr e ↦ rw e (omega arith)
]

size-put_front-le : (c : Char) (s : String) → size (put_front c s) ≤ suc (size s)
unfolding put_front
size-put_front-le c String.[] = elim (Bool-cases (code c == b'-')) [
  | inl e ↦ rw e (omega arith)
  | inr e ↦ rw e (omega arith)
]
size-put_front-le c (String.◌∷◌ d s) = omega arith

size-trim_back-le : (s : String) → size (trim_back s) ≤ size s
unfolding trim_back
size-trim_back-le String.[] = omega arith
size-trim_back-le (String.◌∷◌ c s) =
    omega (arith, size-put_front-le c (trim_back s), size-trim_back-le s)

size-trim_dashes-le : (s : String) → size (trim_dashes s) ≤ size s
unfolding trim_dashes
size-trim_dashes-le s = omega (arith, size-trim_front-le (trim_back s), size-trim_back-le s)

size-cut-le : (k : ℕ) (s : String) → size (cut k s) ≤ k
unfolding cut
size-cut-le zero s = omega arith
size-cut-le (suc k) String.[] = omega arith
size-cut-le (suc k) (String.◌∷◌ c s) = omega (arith, size-cut-le k s)

cut-names :
    (p : ℕ → Bool) (k : ℕ) (s : String) → all p (codes s) ≡ true → all p (codes (cut k s)) ≡ true
unfolding cut
cut-names p zero s h = refl
cut-names p (suc k) String.[] h = refl
cut-names p (suc k) (String.◌∷◌ c s) h = ground (arith, h, cut-names p k s)

-- The name of a server has no more characters than the cloud allows, all of them lower-case
-- letters, digits or dashes, and no dash at an end, whatever the cluster and the node are called.
pub server_name-IsDnsName :
    (limit : ℕ) (cluster_id node : String)
    → (size (server_name limit cluster_id node) ≤ limit)
      × IsDnsName (server_name limit cluster_id node)
unfolding server_name shortened
server_name-IsDnsName limit cluster_id node =
    let name = sanitize (node_name cluster_id node) in
    let names = sanitize-IsDnsName (node_name cluster_id node) in
    elim (Bool-cases (ltb limit (size name))) [
      | inl e ↦ rw e (
        omega (arith, size-trim_dashes-le (cut limit name), size-cut-le limit name),
        trim_dashes-IsDnsName (cut limit name) (cut-names is_name limit name names.0),
      )
      | inr e ↦ rw e (ground (arith, e), names)
    ]
