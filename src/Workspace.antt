-- ===== src/Workspace.antt =====
-- internal/workspace/workspace.go: what of a project is sent to a node. A tree of files is as the
-- walk finds it, its entries in the walk's order; a file that cannot be read is `none`. The tar and
-- gzip formats, and the headers of ELF files, are left out.
pub mod Glob
pub mod Sent
pub mod Archived
use Prim.Native.Char.{Char, code}
use Prim.Native.String.{◌++◌ as append}
use text.Mathlib.Text.{starts_with}
use pandion.Prelude.{
  ℕ, ◌+◌, String, Bool, true, false, not, ◌&&◌, ◌||◌, List, [], ◌∷◌, ◌++◌, Option, none, some, ◌==◌,
  suc, str_eq, if◌then◌else◌,
}
use pandion.Client.Names.{trim_space, drop}
use pandion.Workspace.Glob.{matches}

-- strings.Split at slashes: the first segment, and those after it.
unfoldable pub split_slashes : String → String × List String
split_slashes String.[] = ("", [])
split_slashes (String.◌∷◌ c s) =
    let (seg, segs) = split_slashes s in
    if code c == b'/' then ("", seg ∷ segs) else (String.◌∷◌ c seg, segs)

abbrev pub segments : String → List String
segments rel = (split_slashes rel).0 ∷ (split_slashes rel).1

unfoldable pub ends_slash : String → Bool
ends_slash String.[] = false
ends_slash (String.◌∷◌ c s) = if str_eq s "" then code c == b'/' else ends_slash s

-- strings.TrimSuffix(p, "/")
unfoldable pub trim_slash : String → String
trim_slash String.[] = ""
trim_slash (String.◌∷◌ c s) =
    let rest = String.◌∷◌ c (trim_slash s) in if str_eq s "" && code c == b'/' then "" else rest

unfoldable pub has_slash : String → Bool
has_slash String.[] = false
has_slash (String.◌∷◌ c s) = code c == b'/' || has_slash s

-- A pattern as Match takes it apart.
pub record Pattern : Type 0 where
  pub dir_only : Bool
  pub anchored : Bool
  pub text : String

unfoldable pub pattern_of : String → Pattern
unfolding ends_slash trim_slash
pattern_of p =
    let pat = trim_slash p in
    let anchored = starts_with pat "/" in
    record {
      dir_only = ends_slash p;
      anchored = anchored;
      text = if anchored then drop 1 pat else pat;
    }

abbrev pub is_end : List String → Bool
is_end [] = true
is_end (s ∷ ss) = false

-- The loop over the segments; `first` is the index 0.
unfoldable pub match_segments : Pattern → Bool → Bool → List String → Bool
unfolding matches
match_segments p is_dir first [] = false
match_segments p is_dir first (seg ∷ segs) =
    let rest = match_segments p is_dir false segs in
    if p.anchored && not first
    then false
    else (matches p.text seg && not (p.dir_only && not (not (is_end segs) || is_dir))) || rest

-- The body of the loop over the patterns.
unfoldable pub match_pattern : String → Bool → Pattern → Bool
unfolding match_segments has_slash matches
match_pattern rel is_dir p =
    if str_eq p.text ""
    then false
    else if has_slash p.text
    then matches p.text rel
    else match_segments p is_dir true (segments rel)

unfoldable pub match_any : List String → String → Bool → Bool
unfolding match_pattern pattern_of
match_any [] rel is_dir = false
match_any (p ∷ ps) rel is_dir = match_pattern rel is_dir (pattern_of p) || match_any ps rel is_dir

-- The loop over the lines of an ignore file.
unfoldable pub kept_lines : List String → List String
kept_lines [] = []
kept_lines (line ∷ lines) =
    let l = trim_space line in
    let rest = kept_lines lines in if str_eq l "" || starts_with l "#" then rest else l ∷ rest

unfoldable pub new_ignore : List String → List String
unfolding kept_lines
new_ignore lines = ".git" ∷ ".git/" ∷ kept_lines lines

-- Ignore.Match, for the ignore file of these lines
unfoldable pub ignored : List String → String → Bool → Bool
unfolding match_any new_ignore
ignored lines rel is_dir = match_any (new_ignore lines) rel is_dir

pub data Kind : Type 0 where
  regular symlink special : Kind

-- The entries of a directory: a file with its kind and its bytes, or a directory, before the rest.
pub data Entries : Type 0 where
  nil : Entries
  file : String → Kind → Option (List ℕ) → Entries → Entries
  dir : String → Entries → Entries → Entries

-- A header of the archive, and the bytes after it. The path of a directory has a slash behind it in
-- the archive.
pub record Header : Type 0 where
  pub path : String
  pub is_dir : Bool
  pub bytes : List ℕ

-- The path of an entry, relative to the root.
abbrev pub join : String → String → String
join at name = if str_eq at "" then name else append at (append "/" name)

abbrev pub put : Header → Option (List Header) → Option (List Header)
put h none = none
put h (some hs) = some (h ∷ hs)

-- The headers of a directory's inside, and those of what comes after it.
abbrev pub both : Option (List Header) → Option (List Header) → Option (List Header)
both none rest = none
both (some hs) none = none
both (some hs) (some rest) = some (hs ++ rest)

-- A file that is not ignored.
unfoldable pub send_file :
    String → Kind → Option (List ℕ) → Option (List Header) → Option (List Header)
send_file rel symlink bytes rest = rest
send_file rel special bytes rest = rest
send_file rel regular none rest = none
send_file rel regular (some b) rest = put (record { path = rel; is_dir = false; bytes = b }) rest

module _ (lines : List String) where
  -- The walk below the directory `at`.
  unfoldable pub send : String → Entries → Option (List Header)
  unfolding send_file
  send at nil = some []
  send at (file name kind bytes more) =
      let rel = join at name in
      let rest = send at more in
      if ignored lines rel false then rest else send_file rel kind bytes rest
  send at (dir name inner more) =
      let rel = join at name in
      let below = send rel inner in
      let rest = send at more in
      if ignored lines rel true
      then rest
      else put (record { path = rel; is_dir = true; bytes = [] }) (both below rest)

unfoldable pub count_files : List Header → ℕ
count_files [] = 0
count_files (h ∷ hs) = if h.is_dir then count_files hs else suc (count_files hs)

-- Archive: the headers, and the number of files among them.
unfoldable pub archive : List String → Entries → Option (List Header × ℕ)
unfolding send count_files
archive lines root = elim (send lines "" root) [ none ↦ none | some hs ↦ some (hs, count_files hs) ]
