-- ===== src/Examples/Sending.antt =====
-- A small project that is sent to a node, and the lock of another.
use pandion.Prelude.{
  ◌≡◌, refl, ◌↔◌, String, true, false, not, List, [], ◌∷◌, some, All, length, map, select,
}
use pandion.Prelude.Unique.{contains}
use pandion.Workspace.{
  Entries, Header, nil, file, dir, regular, symlink, archive, ignored, segments, split_slashes,
}
use pandion.Client.Names.{trim_space}
use pandion.Workspace.Glob.{matches}
use pandion.Workspace.Sent.{Sends, Has}
use pandion.Workspace.Archived.{archive-Sends}
use pandion.Lockfile.{Lock, pkg_name, pinned_packages}
use pandion.Lockfile.Locked.{IsPinned, AllPairs, pinned_packages-IsPinned}

-- The directory .git, a log, and a source file.
abbrev project : Entries
project = dir ".git" (file "HEAD" regular (some (1 ∷ [])) nil) (
    file "run.log" regular (some (2 ∷ []))
      (dir "src" (file "main.go" regular (some (3 ∷ [])) (file "link" symlink (some []) nil)) nil))

abbrev source : Header
source = record { path = "src/main.go"; is_dir = false; bytes = 3 ∷ [] }

abbrev sent : List Header
sent = record { path = "src"; is_dir = true; bytes = [] } ∷ source ∷ []

archive-Sends_example :
    (Has sent source ↔ Sends ("# logs" ∷ "*.log" ∷ []) "" project source)
    × (1 ≡ length (select (λ x. not x.is_dir) sent))
    × All (λ x. contains (segments x.path) ".git" ≡ false) sent
unfolding archive ignored split_slashes trim_space
archive-Sends_example = archive-Sends ("# logs" ∷ "*.log" ∷ []) project sent 1 source refl

abbrev lock : Lock
lock = record {
  id = "a";
  provider = "hetzner";
  pandion_version = "1";
  created = 0;
  nodes =
      record { name = "n"; image = ""; os = ""; kernel = ""; packages = ("gcc", "4:13.2") ∷ [] }
      ∷ [];
}

pinned_packages-IsPinned_example :
    AllPairs
      (IsPinned lock "n")
      ("gcc" ∷ "make" ∷ [])
      (pinned_packages lock "n" ("gcc" ∷ "make" ∷ []))
    × (map pkg_name (pinned_packages lock "n" ("gcc" ∷ "make" ∷ []))
        ≡ map pkg_name ("gcc" ∷ "make" ∷ []))
    × (pinned_packages lock "n" (pinned_packages lock "n" ("gcc" ∷ "make" ∷ []))
        ≡ pinned_packages lock "n" ("gcc" ∷ "make" ∷ []))
pinned_packages-IsPinned_example = pinned_packages-IsPinned lock "n" ("gcc" ∷ "make" ∷ [])

-- Patterns of filepath.Match.
globs :
    map
      (λ (p : String × String). matches p.0 p.1)
      (("*.log", "run.log")
        ∷ ("[a-c]?", "bz")
        ∷ ("[^a]", "a")
        ∷ ("*", "a/b")
        ∷ ("a[", "a")
        ∷ ("\\*", "*")
        ∷ [])
    ≡ true ∷ true ∷ false ∷ false ∷ false ∷ true ∷ []
unfolding matches
globs = refl
