-- ===== src/Client/Request.antt =====
-- What the clients' CreateServer and EstimateHourly make of a request alike: its defaults, and
-- whether the regions it names are the only ones. Times are in nanoseconds.
use pandion.Prelude.{ℕ, String, Bool, true, false, [], ◌∷◌, ◌==◌, str_eq, if◌then◌else◌}
use pandion.Provider.{ServerSpec}

-- minCores and minRAM
unfoldable pub at_least : ℕ → ℕ
at_least n = if n == 0 then 2 else n

unfoldable pub image_or : String → String → String
image_or default image = if str_eq image "" then default else image

-- strictRegion
abbrev pub is_strict : ServerSpec → Bool
is_strict spec = elim spec.region_pref [ [] ↦ false | r ∷ rs ↦ true ]

-- The first of the regions that a request names.
abbrev pub first_region : ServerSpec → String
first_region spec = elim spec.region_pref [ [] ↦ "" | r ∷ rs ↦ r ]

abbrev pub second : ℕ
second = 1000000000
