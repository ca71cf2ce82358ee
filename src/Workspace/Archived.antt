-- ===== src/Workspace/Archived.antt =====
-- workspace.go, Archive and Match: what is in an archive, and that version control never is.
use pandion.Prelude.{
  ◌≡◌, refl, ap, ◌∙◌, ◌↔◌, length, select, inl, inr, String, Bool, true, false, not, List, [], ◌∷◌,
  some, arith, str_eq, eq_iff, All, All-imp, Bool-cases, Option-cases, subst, ℕ,
}
use pandion.Prelude.Unique.{contains}
use pandion.Workspace.Glob.{matches}
use pandion.Workspace.{
  Entries, Header, send, archive, count_files, ignored, match_any, match_pattern, match_segments,
  pattern_of, Pattern, new_ignore, segments,
}
use pandion.Workspace.Sent.{Sends, Has, send-sends, sends-send, sends-kept}

abbrev git : Pattern
git = record { dir_only = false; anchored = false; text = ".git" }

git_matches : matches ".git" ".git" ≡ true
unfolding matches
git_matches = refl

match_segments-git :
    (segs : List String) (is_dir first : Bool)
    → match_segments git is_dir first segs ≡ false
    → contains segs ".git" ≡ false
unfolding match_segments
match_segments-git [] is_dir first h = refl
match_segments-git (seg ∷ segs) is_dir first h = elim (Bool-cases (str_eq seg ".git")) [
  | inl same ↦
      let m : matches ".git" seg ≡ true =
        ap (matches ".git") ((eq_iff seg ".git").0 same) ∙ git_matches in
      absurd (ground (arith, h, m))
  | inr other ↦ rw other (match_segments-git segs is_dir false (ground (arith, h)))
]

ignored-git :
    (lines : List String) (rel : String) (is_dir : Bool)
    → ignored lines rel is_dir ≡ false
    → contains (segments rel) ".git" ≡ false
unfolding ignored match_any match_pattern pattern_of new_ignore
ignored-git lines rel is_dir h = match_segments-git (segments rel) is_dir true (ground (arith, h))

All-Has : (P : Header → Type 0) (hs : List Header) (h : Header) → All P hs → Has hs h → P h
All-Has P [] h all k = absurd k
All-Has P (x ∷ xs) h all (inl e) = subst P e all.0
All-Has P (x ∷ xs) h all (inr k) = All-Has P xs h all.1 k

length-select : (hs : List Header) → count_files hs ≡ length (select (λ h. not h.is_dir) hs)
unfolding count_files
length-select [] = refl
length-select (h ∷ hs) = ground (arith, length-select hs)

archive-send :
    (lines : List String) (root : Entries) (hs : List Header) (count : ℕ)
    → archive lines root ≡ some (hs, count)
    → (send lines "" root ≡ some hs) × (count ≡ count_files hs)
unfolding archive
archive-send lines root hs count e = elim (Option-cases (send lines "" root)) [
  | inl nothing ↦ absurd (ground (arith, e, nothing))
  | inr (xs, there) ↦ (ground (arith, e, there), ground (arith, e, there))
]

-- Archive, where it succeeds, sends a header exactly if the tree has it: as a regular file with
-- these bytes, or as a directory, that no pattern keeps back, and with no directory above it that a
-- pattern does; the count is that of the files among the headers; and whatever the ignore file says,
-- no path that is sent has .git in it, at any depth.
pub archive-Sends :
    (lines : List String) (root : Entries) (hs : List Header) (count : ℕ) (h : Header)
    → archive lines root ≡ some (hs, count)
    → (Has hs h ↔ Sends lines "" root h)
      × (count ≡ length (select (λ x. not x.is_dir) hs))
      × All (λ x. contains (segments x.path) ".git" ≡ false) hs
archive-Sends lines root hs count h e =
    let (sent, counted) = archive-send lines root hs count e in
    let all = send-sends lines "" root hs sent in
    (
      (λ k. All-Has (Sends lines "" root) hs h all k, λ s. sends-send lines "" root hs h sent s),
      counted ∙ length-select hs,
      All-imp (Sends lines "" root) _ hs
          (λ x s. ignored-git lines x.path x.is_dir (sends-kept lines "" root x s)) all,
    )
