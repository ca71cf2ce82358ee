-- ===== src/Client/Names.antt =====
-- internal/provider/<cloud>/<cloud>.go: the names, tags and keys under which a cluster's resources
-- are found again. strings.ToLower is that of the letters whose lower case is in ASCII, which are
-- those of ASCII, the Kelvin sign and the capital I with a dot; the lower case of any other letter is
-- outside, where each character is dealt with alike.
pub mod Bounds
pub mod Recovered
use Prim.Native.Char.{Char, code}
use Prim.Native.String.{◌++◌ as append, char_at, len, slice}
use text.Mathlib.Text.{find?, starts_with}
use pandion.Prelude.{
  ℕ, zero, suc, ◌-◌, String, Bool, true, false, not, ◌&&◌, ◌||◌, List, [], ◌∷◌, Option, none, some,
  ltb, leb, ◌==◌, str_eq, if◌then◌else◌,
}
use pandion.Prelude.Text.{is_lower, is_upper, is_digit}

-- strings.Contains, and for one of several texts
unfoldable pub contains_text : String → String → Bool
contains_text s t = elim (find? s t) [ none ↦ false | some i ↦ true ]

unfoldable pub contains_any : List String → String → Bool
unfolding contains_text
contains_any [] s = false
contains_any (t ∷ ts) s = contains_text s t || contains_any ts s

lower : Char → Char
unfolding is_upper
lower c =
    if is_upper (code c)
    then char_at "abcdefghijklmnopqrstuvwxyz" (code c - b'A')
    else if code c == 8490
    then "k"
    else if code c == 304
    then "i"
    else c

-- strings.ToLower
unfoldable pub lower_text : String → String
unfolding lower
lower_text String.[] = ""
lower_text (String.◌∷◌ c s) = String.◌∷◌ (lower c) (lower_text s)

-- [a-z0-9], and [a-z0-9-]
unfoldable pub is_word : ℕ → Bool
unfolding is_lower is_digit
is_word c = is_lower c || is_digit c

unfoldable pub is_name : ℕ → Bool
unfolding is_word
is_name c = is_word c || c == b'-'

module _ (kept : ℕ → Bool) where
  -- ReplaceAllString(s, "-") for the runs of characters that are not kept; `run` is set within one.
  unfoldable pub dashed : Bool → String → String
  dashed run String.[] = ""
  dashed run (String.◌∷◌ c s) =
      let copy = String.◌∷◌ c (dashed false s) in
      let skip = dashed true s in
      if kept (code c) then copy else if run then skip else String.◌∷◌ "-" skip

-- strings.Trim(s, "-")
unfoldable pub trim_front : String → String
trim_front String.[] = ""
trim_front (String.◌∷◌ c s) =
    let rest = trim_front s in if code c == b'-' then rest else String.◌∷◌ c s

unfoldable pub put_front : Char → String → String
put_front c String.[] = if code c == b'-' then "" else String.◌∷◌ c ""
put_front c (String.◌∷◌ d s) = String.◌∷◌ c (String.◌∷◌ d s)

unfoldable pub trim_back : String → String
unfolding put_front
trim_back String.[] = ""
trim_back (String.◌∷◌ c s) = put_front c (trim_back s)

unfoldable pub trim_dashes : String → String
unfolding trim_front trim_back
trim_dashes s = trim_front (trim_back s)

-- s[:k] for a text in ASCII
unfoldable pub cut : ℕ → String → String
cut zero s = ""
cut (suc k) String.[] = ""
cut (suc k) (String.◌∷◌ c s) = String.◌∷◌ c (cut k s)

abbrev pub size : String → ℕ
size String.[] = 0
size (String.◌∷◌ c s) = suc (size s)

-- sanitize of the clients that keep dashes, and of lambda's, which joins runs of them
unfoldable pub sanitize : String → String
unfolding lower_text dashed trim_dashes is_name
sanitize s = trim_dashes (dashed is_name false (lower_text s))

unfoldable pub sanitize_words : String → String
unfolding lower_text dashed trim_dashes is_word
sanitize_words s = trim_dashes (dashed is_word false (lower_text s))

-- The name of a node's server: `limit` is what the cloud allows.
unfoldable pub shortened : ℕ → String → String
unfolding cut trim_dashes
shortened limit s = if ltb limit (size s) then trim_dashes (cut limit s) else s

abbrev pub node_name : String → String → String
node_name cluster_id node = append "pandion-" (append cluster_id (append "-" node))

unfoldable pub server_name : ℕ → String → String → String
unfolding sanitize shortened
server_name limit cluster_id node = shortened limit (sanitize (node_name cluster_id node))

abbrev pub tag_all : String
tag_all = "pandion"

abbrev pub tag_cid_prefix : String
tag_cid_prefix = "pandion-cid-"

unfoldable pub cluster_tag : String → String
unfolding sanitize
cluster_tag cluster_id = append tag_cid_prefix (sanitize cluster_id)

-- strings.TrimPrefix, for a text that has the prefix
abbrev pub drop : ℕ → String → String
drop zero s = s
drop (suc k) String.[] = ""
drop (suc k) (String.◌∷◌ c s) = drop k s

unfoldable pub recover_cluster_id : List String → String
recover_cluster_id [] = ""
recover_cluster_id (t ∷ ts) =
    let rest = recover_cluster_id ts in if starts_with t tag_cid_prefix then drop 12 t else rest

unfoldable pub login_key_name : String → String
unfolding sanitize
login_key_name cluster_id = append "pandion-login-" (sanitize cluster_id)

-- unicode.IsSpace on ASCII
unfoldable pub is_space : ℕ → Bool
is_space c = c == b' ' || (leb 9 c && leb c 13)

unfoldable pub skip_space : String → String
unfolding is_space
skip_space String.[] = ""
skip_space (String.◌∷◌ c s) =
    let rest = skip_space s in if is_space (code c) then rest else String.◌∷◌ c s

-- The field that a text begins with, and what follows it.
unfoldable pub field : String → String
unfolding is_space
field String.[] = ""
field (String.◌∷◌ c s) = let more = String.◌∷◌ c (field s) in if is_space (code c) then "" else more

unfoldable pub after_field : String → String
unfolding is_space
after_field String.[] = ""
after_field (String.◌∷◌ c s) =
    let rest = after_field s in if is_space (code c) then String.◌∷◌ c s else rest

unfoldable pub keep_front : Char → String → String
unfolding is_space
keep_front c String.[] = if is_space (code c) then "" else String.◌∷◌ c ""
keep_front c (String.◌∷◌ d s) = String.◌∷◌ c (String.◌∷◌ d s)

unfoldable pub trim_space_back : String → String
unfolding keep_front
trim_space_back String.[] = ""
trim_space_back (String.◌∷◌ c s) = keep_front c (trim_space_back s)

unfoldable pub trim_space : String → String
unfolding skip_space trim_space_back
trim_space s = skip_space (trim_space_back s)

-- The second field of a public key, where there is one, and else the text without its margins.
unfoldable pub key_material : String → String
unfolding trim_space skip_space field after_field
key_material pub_key =
    let second = field (skip_space (after_field (trim_space pub_key))) in
    if str_eq second "" then trim_space pub_key else second
