-- ===== src/Client/Lambda/Gpu.antt =====
-- gpu.go: what the names and descriptions of types tell of their GPUs, the offerings, and prices.
-- The regular expressions are walked from the left, with letters of ASCII.
use Prim.Native.Char.{code}
use pandion.Prelude.{
  ℕ, zero, suc, String, Bool, true, false, not, ◌&&◌, ◌||◌, List, [], ◌∷◌, Option, none, some,
  str_eq, ltb, ◌==◌, if◌then◌else◌,
}
use pandion.Prelude.Text.{is_digit, is_lower, is_upper, equal_fold}
use pandion.Prelude.Integer.{ℤ, pos, negsuc, parse_int}
use pandion.Prelude.Order.{str_leb, sort}
use pandion.Prelude.Unique.{contains}
use pandion.Provider.{GpuReq, GpuInfo, GpuOffering, Float, Money}
use pandion.Client.Names.{lower_text}
use pandion.Client.Lambda.{Offering}

module _ (test : ℕ → Bool) where
  -- The longest front of a text whose characters pass a test, and what follows it.
  unfoldable pub front : String → String
  front String.[] = ""
  front (String.◌∷◌ c s) = let more = String.◌∷◌ c (front s) in if test (code c) then more else ""

  unfoldable pub after : String → String
  after String.[] = ""
  after (String.◌∷◌ c s) = let rest = after s in if test (code c) then rest else String.◌∷◌ c s

-- The leftmost match.
unfoldable pub first_match : {A : Type 0} → (String → Option A) → String → Option A
first_match match String.[] = match ""
first_match match (String.◌∷◌ c s) =
    let rest = first_match match s in
    elim (match (String.◌∷◌ c s)) [ none ↦ rest | some a ↦ some a ]

-- The character that a text begins with, where it passes a test, and what follows.
unfoldable pub expect : (ℕ → Bool) → String → Option String
expect test String.[] = none
expect test (String.◌∷◌ c s) = if test (code c) then some s else none

abbrev and_then : {A B : Type 0} → (A → Option B) → Option A → Option B
and_then f none = none
and_then f (some a) = f a

abbrev not_empty : String → Option String
not_empty s = if str_eq s "" then none else some s

-- _(\d+)x_ at the front of a text: the digits, and what follows.
unfoldable pub count_and_rest : String → Option (String × String)
unfolding front after expect is_digit
count_and_rest s =
    and_then
      (λ t.
        and_then
          (λ digits.
            and_then (λ u. and_then (λ rest. some (digits, rest)) (expect (λ c. c == b'_') u))
              (expect (λ c. c == b'x' || c == b'X') (after is_digit t)))
          (not_empty (front is_digit t)))
      (expect (λ c. c == b'_') s)

unfoldable pub is_token : ℕ → Bool
unfolding is_digit is_lower is_upper
is_token c = is_lower c || is_digit c || is_upper c

-- countRe and modelRe
unfoldable pub count_here : String → Option String
unfolding count_and_rest
count_here s = and_then (λ p. some p.0) (count_and_rest s)

unfoldable pub model_here : String → Option String
unfolding count_and_rest front is_token
model_here s = and_then (λ p. not_empty (front is_token p.1)) (count_and_rest s)

-- \s
abbrev pub is_re_space : ℕ → Bool
is_re_space c = c == 32 || c == 9 || c == 10 || c == 12 || c == 13

-- vramRe
unfoldable pub vram_here : String → Option String
unfolding front after expect is_digit
vram_here s =
    and_then
      (λ digits.
        and_then (λ u. and_then (λ rest. some digits) (expect (λ c. c == b'B') u))
          (expect (λ c. c == b'G') (after is_re_space (after is_digit s))))
      (not_empty (front is_digit s))

-- A number that was read, where it is above zero, and where it is any.
unfoldable pub positive_or : ℕ → Option ℤ → ℕ
positive_or n none = n
positive_or n (some (negsuc k)) = n
positive_or n (some (pos zero)) = n
positive_or n (some (pos (suc k))) = suc k

unfoldable pub gpu_count : String → ℕ
unfolding first_match count_here positive_or
gpu_count name = elim (first_match count_here name) [
  | none ↦ 1
  | some digits ↦ positive_or 1 (parse_int digits)
]

unfoldable pub gpu_vram : String → ℕ
unfolding first_match vram_here positive_or
gpu_vram desc = elim (first_match vram_here desc) [
  | none ↦ 0
  | some digits ↦ positive_or 0 (parse_int digits)
]

unfoldable pub parse_gpu : String → String → Option GpuInfo
unfolding first_match model_here gpu_count gpu_vram
parse_gpu name desc = elim (first_match model_here name) [
  | none ↦ none
  | some model ↦
      some (record { model = lower_text model; count = gpu_count name; vram = gpu_vram desc })
]

unfoldable pub pick_region : List String → List String → String
pick_region avail [] = elim avail [ [] ↦ "" | a ∷ as' ↦ a ]
pick_region avail (p ∷ ps) = let rest = pick_region avail ps in if contains avail p then p else rest

module _ {F : Type 0} (fl : Float F) where
  -- `hundredths` is the quotient of the cents by a hundred.
  unfoldable pub cents_to_money : ℕ → Money F
  cents_to_money cents =
      if cents == 0
      then record { amount = fl.zero_float; currency = "" }
      else record { amount = fl.hundredths cents; currency = "USD" }

  unfoldable pub to_offerings : List Offering → List (GpuOffering F)
  unfolding parse_gpu cents_to_money
  to_offerings [] = []
  to_offerings (t ∷ ts) =
      let rest = to_offerings ts in
      if t.itype.gpus == 0 then rest else (elim (parse_gpu t.itype.name t.itype.description) [
        | none ↦ rest
        | some gpu ↦
            record {
              server_type = t.itype.name;
              gpu = gpu;
              regions = sort str_leb t.regions;
              hourly = cents_to_money t.itype.price_cents_per_hr;
              image = "";
            }
            ∷ rest
      ])

  unfoldable pub offering_satisfies : GpuOffering F → GpuReq → Bool
  offering_satisfies o req =
      if not (str_eq req.model "") && not (equal_fold req.model o.gpu.model)
      then false
      else if ltb 0 req.min_vram && ltb o.gpu.vram req.min_vram
      then false
      else if ltb 0 req.count && not (o.gpu.count == req.count)
      then false
      else true

  -- The loop of ResolveGPUType: a type and a region.
  unfoldable pub first_offering :
      GpuReq → List String → List (GpuOffering F) → Option (String × String)
  unfolding offering_satisfies pick_region
  first_offering req pref [] = none
  first_offering req pref (g ∷ gs) =
      let rest = first_offering req pref gs in
      if offering_satisfies g req && not (str_eq (pick_region g.regions pref) "")
      then some (g.server_type, pick_region g.regions pref)
      else rest

  -- The loops of offeringFor and HourlyPrice.
  unfoldable pub offering_named : String → List (GpuOffering F) → Option (GpuOffering F)
  offering_named name [] = none
  offering_named name (g ∷ gs) =
      let rest = offering_named name gs in if str_eq g.server_type name then some g else rest

  unfoldable pub price_of : String → List Offering → Money F
  unfolding cents_to_money
  price_of name [] = record { amount = fl.zero_float; currency = "" }
  price_of name (t ∷ ts) =
      let rest = price_of name ts in
      if str_eq t.itype.name name then cents_to_money t.itype.price_cents_per_hr else rest
