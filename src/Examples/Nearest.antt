-- ===== src/Examples/Nearest.antt =====
-- The suggestion for a misspelt field.
use pandion.Prelude.{◌≤◌, ◌≡◌, refl, String, true, List, [], ◌∷◌, All}
use pandion.Prelude.Text.{codes}
use pandion.Prelude.Unique.{contains}
use pandion.Config.Nearest.{levenshtein, nearest_key, limit}
use pandion.Config.Nearest.Edits.{Edits, done, stay, remove, levenshtein-Edits}
use pandion.Config.Nearest.Chosen.{far, nearest_key-IsNearest}

abbrev fields : List String
fields = "name" ∷ "run" ∷ "role" ∷ []

levenshtein-Edits_example :
    Edits (codes "runn") (codes "run") (levenshtein (codes "runn") (codes "run"))
    × (levenshtein (codes "runn") (codes "run") ≤ 1)
levenshtein-Edits_example =
    levenshtein-Edits (codes "runn") (codes "run") 1 (stay (stay (stay (remove done))))

nearest_key-IsNearest_example :
    (contains fields "run" ≡ true)
    × (far "runn" "run" ≤ limit "runn")
    × All (λ k. far "runn" "run" ≤ far "runn" k) fields
unfolding nearest_key
nearest_key-IsNearest_example = nearest_key-IsNearest "runn" "run" fields refl refl
