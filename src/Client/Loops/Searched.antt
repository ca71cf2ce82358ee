-- ===== src/Client/Loops/Searched.antt =====
-- What the search over the combinations does, and what a listing by pages gathers.
use pandion.Prelude.{
  ℕ, zero, suc, ◌≡◌, refl, ap, ◌⊎◌, inl, inr, String, Bool, true, false, List, [], ◌∷◌, ◌++◌,
  Option, none, some, Bool-cases, arith, length, sym, ◌<◌,
}
use mathlib.Core.List.{append_assoc}
use pandion.Errors.{Result, ok, err, Error, Result-cases, reported}
use pandion.Provider.{Net}
use pandion.Client.{Call}
use pandion.Client.Loops.{search, pages}

module _ {C P A : Type 0} (create : P → Call C A) (unavailable : Error → Bool) where
  -- From `n` to `m`, each combination was asked for once and was not to be had.
  abbrev pub Refused : List P → Net C → Net C → Type 0
  Refused [] n m = n ≡ m
  Refused (p ∷ ps) n m =
      ((e : Error) × ((create p n).0 ≡ err e) × (unavailable e ≡ true))
      × Refused ps (create p n).1 m

module _ {C P A B : Type 0} (create : P → Call C A) (unavailable : Error → Bool)
    (explain : P → Error → Error) (finish : P → A → Call C B) (exhausted : String) where
  -- The answer at the first combination that was not refused.
  abbrev pub Stopped : P → Net C → Result B × Net C → Type 0
  Stopped p m r =
      ((a : A) × ((create p m).0 ≡ ok a) × (r ≡ finish p a (create p m).1))
      ⊎ ((e : Error) × ((create p m).0 ≡ err e)
          × (unavailable e ≡ false)
          × (r ≡ (err (explain p e), (create p m).1)))

  -- Every combination was refused, or the search stopped at the first that was not.
  abbrev pub Searched : List P → Net C → Result B × Net C → Type 0
  Searched plan n r =
      ((m : Net C) × Refused create unavailable plan n m × (r ≡ (err (reported exhausted), m)))
      ⊎ ((before : List P) × (p : P) × (after : List P) × (m : Net C) × (plan ≡ before ++ p ∷ after)
          × Refused create unavailable before n m
          × Stopped p m r)

  Searched-cons :
      (p : P) (ps : List P) (n : Net C) (r : Result B × Net C)
      → ((e : Error) × ((create p n).0 ≡ err e) × (unavailable e ≡ true))
      → Searched ps (create p n).1 r
      → Searched (p ∷ ps) n r
  Searched-cons p ps n r refused (inl (m, all, e)) = inl (m, (refused, all), e)
  Searched-cons p ps n r refused (inr (before, q, after, m, e, all, stop)) =
      inr (p ∷ before, q, after, m, ap (λ l. p ∷ l) e, (refused, all), stop)

  -- A search asks for the combinations in their order, each once: it stops at the first that is not
  -- refused, with what follows its creation or with its error, and reports that there is none left
  -- where all of them were refused.
  pub search-Searched :
      (plan : List P) (n : Net C)
      → Searched plan n (search create unavailable explain finish exhausted plan n)
  unfolding search
  search-Searched [] n = inl (n, refl, refl)
  search-Searched (p ∷ ps) n = elim (Result-cases (create p n).0) [
    | inl (a, e) ↦ inr ([], p, ps, n, refl, refl, inl (a, e, rw e refl))
    | inr (x, e) ↦ elim (Bool-cases (unavailable x)) [
      | inl u ↦ Searched-cons p ps n _ (x, e, u) (rw (e, u) (search-Searched ps (create p n).1))
      | inr u ↦ inr ([], p, ps, n, refl, refl, inr (x, e, u, rw (e, u) refl))
    ]
  ]

module _ {C T A : Type 0} (page : T → Call C (List A × Option T)) where
  -- The pages from `t` on, each naming the next, between two states.
  abbrev pub Pages : List A → List (List A) → T → Net C → Net C → Type 0
  Pages p [] t n m = page t n ≡ (ok (p, none), m)
  Pages p (q ∷ ps) t n m =
      (t' : T) × ((page t n).0 ≡ ok (p, some t')) × Pages q ps t' (page t n).1 m

  abbrev pub all_pages : List A → List (List A) → List A
  all_pages p [] = p
  all_pages p (q ∷ ps) = p ++ all_pages q ps

  -- A listing gathers its pages in their order, where it has no more pages than rounds.
  pub pages-all :
      (p : List A) (ps : List (List A)) (t : T) (n m : Net C) (acc : List A) (left : ℕ)
      → Pages p ps t n m
      → length ps < left
      → pages page left t acc n ≡ (ok (some (acc ++ all_pages p ps)), m)
  unfolding pages
  pages-all p ps t n m acc zero h l = absurd (omega (arith, l))
  pages-all p [] t n m acc (suc left) h l = rw h refl
  pages-all p (q ∷ ps) t n m acc (suc left) (t', e, h) l = rw e (
      rw (sym (append_assoc acc p (all_pages q ps)))
        (pages-all q ps t' (page t n).1 m (acc ++ p) left h (omega (arith, l))))
