-- ===== src/Workspace/Glob.antt =====
-- path/filepath of Go's library, as internal/workspace/workspace.go uses it: Match, on a system
-- whose separator is the slash. A malformed pattern matches nothing.
use Prim.Native.Char.{code}
use pandion.Prelude.{
  ℕ, String, Bool, true, false, not, ◌&&◌, ◌||◌, List, [], ◌∷◌, ◌++◌, Option, none, some, leb,
  str_eq, ◌==◌, if◌then◌else◌,
}

-- A part of a pattern between its stars: any one character, a character, or one in or out of some
-- ranges.
pub data Token : Type 0 where
  any : Token
  exact : ℕ → Token
  within : Bool → List (ℕ × ℕ) → Token

-- Where the reading of a pattern stands: between two parts, after a backslash, at the start of a
-- range, or in a range of which the lower end is read, perhaps with a dash after it; a backslash
-- in a range comes before an end of it.
pub data Reading : Type 0 where
  plain escaped : Reading
  opened : Reading
  lower : Bool → List (ℕ × ℕ) → Reading
  lower_escaped : Bool → List (ℕ × ℕ) → Reading
  after_lower : Bool → List (ℕ × ℕ) → ℕ → Reading
  upper : Bool → List (ℕ × ℕ) → ℕ → Reading
  upper_escaped : Bool → List (ℕ × ℕ) → ℕ → Reading

-- The part of a pattern from one star to the next: whether a star stands before it.
pub record Chunk : Type 0 where
  pub star : Bool
  pub tokens : List Token

-- Chunks read from the right: what stands before the first star, and the chunks with a star.
abbrev Chunks : Type 0
Chunks = Option (List Token × List Chunk)

abbrev put : Token → Chunks → Chunks
put t none = none
put t (some (ts, cs)) = some (t ∷ ts, cs)

-- A star: several in a row are one.
abbrev put_star : Chunks → Chunks
put_star none = none
put_star (some ([], c ∷ cs)) = some ([], c ∷ cs)
put_star (some ([], [])) = some ([], record { star = true; tokens = [] } ∷ [])
put_star (some (t ∷ ts, cs)) = some ([], record { star = true; tokens = t ∷ ts } ∷ cs)

-- A character at the lower end of a range.
abbrev at_lower : Bool → List (ℕ × ℕ) → ℕ → Option Reading
at_lower neg rs c =
    if c == b'\\'
    then some (lower_escaped neg rs)
    else if c == b'-' || c == b']'
    then none
    else some (after_lower neg rs c)

-- A character at the upper end of a range.
abbrev at_upper : Bool → List (ℕ × ℕ) → ℕ → ℕ → Option Reading
at_upper neg rs lo c =
    if c == b'\\'
    then some (upper_escaped neg rs lo)
    else if c == b'-' || c == b']'
    then none
    else some (lower neg (rs ++ (lo, c) ∷ []))

module _ (rest : Reading → Chunks) where
  abbrev go_on : Option Reading → Chunks
  go_on none = none
  go_on (some r) = rest r

  -- getEsc of the lower end, or the end of the ranges after the first of them.
  abbrev in_ranges : Bool → List (ℕ × ℕ) → ℕ → Chunks
  in_ranges neg [] c = go_on (at_lower neg [] c)
  in_ranges neg (r ∷ rs) c =
      if c == b']' then put (within neg (r ∷ rs)) (rest plain) else go_on (at_lower neg (r ∷ rs) c)

  unfoldable read : Reading → ℕ → Chunks
  read plain c =
      if c == b'*'
      then put_star (rest plain)
      else if c == b'?'
      then put any (rest plain)
      else if c == b'\\'
      then rest escaped
      else if c == b'['
      then rest opened
      else put (exact c) (rest plain)
  read escaped c = put (exact c) (rest plain)
  read opened c = if c == b'^' then rest (lower true []) else in_ranges false [] c
  read (lower neg rs) c = in_ranges neg rs c
  read (lower_escaped neg rs) c = rest (after_lower neg rs c)
  read (after_lower neg rs lo) c =
      if c == b'-' then rest (upper neg rs lo) else in_ranges neg (rs ++ (lo, lo) ∷ []) c
  read (upper neg rs lo) c = go_on (at_upper neg rs lo c)
  read (upper_escaped neg rs lo) c = rest (lower neg (rs ++ (lo, c) ∷ []))

unfoldable parse : String → Reading → Chunks
unfolding read
parse String.[] plain = some ([], [])
parse String.[] r = none
parse (String.◌∷◌ c s) r = read (parse s) r (code c)

abbrev in_some : List (ℕ × ℕ) → ℕ → Bool
in_some [] c = false
in_some ((lo, hi) ∷ rs) c = (leb lo c && leb c hi) || in_some rs c

unfoldable pub fits : Token → ℕ → Bool
fits any c = not (c == b'/')
fits (exact d) c = c == d
fits (within neg rs) c = if neg then not (in_some rs c) else in_some rs c

-- matchChunk: what is left of a name that begins with the chunk.
unfoldable pub match_chunk : List Token → String → Option String
unfolding fits
match_chunk [] s = some s
match_chunk (t ∷ ts) String.[] = none
match_chunk (t ∷ ts) (String.◌∷◌ c s) =
    let left = match_chunk ts s in if fits t (code c) then left else none

module _ (last : Bool) (ts : List Token) where
  -- A match of the last chunk has nothing left.
  unfoldable pub try_at : String → Option String
  unfolding match_chunk
  try_at s = elim (match_chunk ts s) [
    | none ↦ none
    | some left ↦ if last && not (str_eq left "") then none else some left
  ]

  -- The first place where the chunk matches, after characters that are no separator.
  unfoldable pub seek : String → Option String
  unfolding try_at
  seek String.[] = try_at ""
  seek (String.◌∷◌ c s) =
      let later = seek s in
      elim (try_at (String.◌∷◌ c s)) [
        | some left ↦ some left
        | none ↦ if code c == b'/' then none else later
      ]

unfoldable pub no_slash : String → Bool
no_slash String.[] = true
no_slash (String.◌∷◌ c s) = not (code c == b'/') && no_slash s

abbrev is_last : List Chunk → Bool
is_last [] = true
is_last (c ∷ cs) = false

-- The loop over the chunks.
unfoldable pub match_chunks : List Chunk → String → Bool
unfolding seek try_at no_slash
match_chunks [] name = str_eq name ""
match_chunks (chunk ∷ cs) name =
    let more : Option String → Bool =
      λ o. elim o [ none ↦ false | some left ↦ match_chunks cs left ] in
    elim chunk.tokens [
      | [] ↦ if chunk.star then no_slash name else more (some name)
      | t ∷ ts' ↦ more (
          if chunk.star
          then seek (is_last cs) chunk.tokens name
          else try_at (is_last cs) chunk.tokens name)
    ]

-- The chunks of a pattern, the first without a star.
abbrev chunks_of : List Token × List Chunk → List Chunk
chunks_of ([], cs) = cs
chunks_of (t ∷ ts, cs) = record { star = false; tokens = t ∷ ts } ∷ cs

-- filepath.Match, an error counting as false
unfoldable pub matches : String → String → Bool
unfolding parse match_chunks
matches pattern name = elim (parse pattern plain) [
  | none ↦ false
  | some parts ↦ match_chunks (chunks_of parts) name
]
