-- ===== src/Client/Priced.antt =====
-- hetzner.go: the type whose price is estimated is the one that a creation asks for first.
use pandion.Prelude.{
  ◌≡◌, refl, inl, inr, String, Bool-cases, List, [], ◌∷◌, Option, arith, str_eq, ◌⊎◌,
}
use pandion.Errors.{ok}
use pandion.Provider.{Context, Float, Net, ServerSpec}
use pandion.Select.{Ordered}
use pandion.Select.Clouds.Hetzner.{TypeInfo, select_candidates}
use pandion.Client.Request.{at_least}
use pandion.Client.Hetzner.{Api, arch}
use pandion.Client.Hetzner.Create.{candidates_for}
use pandion.Client.Hetzner.Prices.{type_for}

List-cases : {A : Type 0} (l : List A) → (l ≡ []) ⊎ ((x : A) × (rest : List A) × (l ≡ x ∷ rest))
List-cases [] = inl refl
List-cases (x ∷ rest) = inr (x, rest, refl)

module _ {F C : Type 0} (fl : Float F) (o : Ordered F) (parse_float : String → Option F)
    (api : Api F C) (ctx : Context) where
  -- The type that Hetzner's estimate of a request is for is the first of the candidates that a
  -- creation for the same request would go through, where the cloud lists the same types to both.
  pub type_for-first :
      (spec : ServerSpec) (n m : Net C) (types : List (TypeInfo F)) (t : String)
      (cands : List String)
      → (api.server_types ctx n).0 ≡ ok types
      → (type_for fl o parse_float api ctx spec n).0 ≡ ok t
      → (candidates_for o api ctx spec types m).0 ≡ ok cands
      → (rest : List String) × (cands ≡ t ∷ rest)
  unfolding type_for candidates_for
  type_for-first spec n m types t cands listed estimated created =
      let fitting =
        select_candidates o types (at_least spec.min_cores) (at_least spec.min_ram_gb) arch in
      elim (Bool-cases (str_eq spec.type "")) [
        | inr named ↦ ([], ground (arith, named, estimated, created))
        | inl open_type ↦ elim (List-cases fitting) [
          | inl nothing ↦ absurd (ground (arith, open_type, created, nothing))
          | inr (x, rest, split) ↦
              (rest, ground (arith, open_type, listed, estimated, created, split))
        ]
      ]
