-- ===== src/Lockfile.antt =====
-- internal/lockfile/lockfile.go: the packages that a lock records for a node, read from the node's
-- report, and the packages of a request with those versions. Files and JSON are left out.
pub mod Pinned
pub mod Locked
use Prim.Native.Char.{Char, code}
use Prim.Native.String.{◌++◌ as append}
use text.Mathlib.Text.{starts_with}
use pandion.Prelude.{
  ℕ, String, Bool, true, false, ◌||◌, List, [], ◌∷◌, Option, none, some, ◌==◌, str_eq, map,
  if◌then◌else◌,
}
use pandion.Prelude.Dict.{Dict, lookup, insert}
use pandion.Client.Names.{trim_space, is_space, drop}

pub record NodeLock : Type 0 where
  pub name : String
  pub image : String
  pub os : String
  pub kernel : String
  pub packages : Dict String

pub record Lock : Type 0 where
  pub id : String
  pub provider : String
  pub pandion_version : String
  pub created : ℕ
  pub nodes : List NodeLock

-- strings.IndexByte(s, '=') >= 0, and what stands before it
unfoldable pub has_equals : String → Bool
has_equals String.[] = false
has_equals (String.◌∷◌ c s) = code c == b'=' || has_equals s

unfoldable pub before_equals : String → String
before_equals String.[] = ""
before_equals (String.◌∷◌ c s) =
    let rest = before_equals s in if code c == b'=' then "" else String.◌∷◌ c rest

unfoldable pub pkg_name : String → String
unfolding has_equals before_equals
pkg_name s = if has_equals s then before_equals s else trim_space s

-- strings.Split at line breaks: the first line, and those after it.
unfoldable pub split_lines : String → String × List String
split_lines String.[] = ("", [])
split_lines (String.◌∷◌ c s) =
    let (line, lines) = split_lines s in
    if code c == b'\n' then ("", line ∷ lines) else (String.◌∷◌ c line, lines)

abbrev pub push_word : String → List String → List String
push_word w ws = if str_eq w "" then ws else w ∷ ws

-- The word that a text begins with, and those after it.
unfoldable pub split_fields : String → String × List String
split_fields String.[] = ("", [])
split_fields (String.◌∷◌ c s) =
    let (w, ws) = split_fields s in
    if is_space (code c) then ("", push_word w ws) else (String.◌∷◌ c w, ws)

-- strings.Fields
unfoldable pub fields : String → List String
unfolding split_fields
fields s = let (w, ws) = split_fields s in push_word w ws

abbrev pub trim_prefix : String → String
trim_prefix line = if starts_with line "__OS__" then drop 6 line else line

-- The body of the loop over the lines.
unfoldable pub read_line : NodeLock → String → List String → NodeLock
read_line nl line [] = nl
read_line nl line (tag ∷ []) =
    if str_eq tag "__OS__" then record nl { os = trim_space (trim_prefix line) } else nl
read_line nl line (tag ∷ a ∷ []) =
    if str_eq tag "__OS__"
    then record nl { os = trim_space (trim_prefix line) }
    else if str_eq tag "__KERNEL__"
    then record nl { kernel = a }
    else nl
read_line nl line (tag ∷ a ∷ b ∷ more) =
    if str_eq tag "__OS__"
    then record nl { os = trim_space (trim_prefix line) }
    else if str_eq tag "__KERNEL__"
    then record nl { kernel = a }
    else if str_eq tag "__PKG__"
    then record nl { packages = insert nl.packages a b }
    else nl

unfoldable pub read_lines : NodeLock → List String → NodeLock
unfolding read_line fields
read_lines nl [] = nl
read_lines nl (line ∷ lines) = read_lines (read_line nl line (fields line)) lines

abbrev pub no_lock : NodeLock
no_lock = record { name = ""; image = ""; os = ""; kernel = ""; packages = [] }

unfoldable pub parse_query : String → NodeLock
unfolding split_lines read_lines
parse_query out = let (line, lines) = split_lines out in read_lines no_lock (line ∷ lines)

unfoldable pub node_lock : String → List NodeLock → Option NodeLock
node_lock node [] = none
node_lock node (nl ∷ nls) = if str_eq nl.name node then some nl else node_lock node nls

abbrev pub at_version : String → String → Option String → String
at_version p name none = p
at_version p name (some v) = if str_eq v "" then p else append name (append "=" v)

unfoldable pub pin : Option NodeLock → String → String
unfolding pkg_name
pin none p = p
pin (some nl) p = at_version p (pkg_name p) (lookup nl.packages (pkg_name p))

unfoldable pub pinned_packages : Lock → String → List String → List String
unfolding node_lock pin
pinned_packages l node pkgs = map (pin (node_lock node l.nodes)) pkgs
