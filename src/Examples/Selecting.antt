-- ===== src/Examples/Selecting.antt =====
-- Selections among a few types and locations, with whole numbers as prices.
use pandion.Prelude.{select}
use mathlib.Core.List.{Perm}
use pandion.Select.Clouds.Hetzner
use pandion.Examples.{whole, hetzner_types}

candidates-IsAscending_example :
    Perm
      (Hetzner.candidates whole 2 2 "x86" hetzner_types)
      (select (Hetzner.meets whole 2 2 "x86") hetzner_types)
    × Hetzner.IsAscending whole (Hetzner.candidates whole 2 2 "x86" hetzner_types)
candidates-IsAscending_example = Hetzner.candidates-IsAscending whole hetzner_types 2 2 "x86"
