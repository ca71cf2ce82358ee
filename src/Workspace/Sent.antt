-- ===== src/Workspace/Sent.antt =====
-- workspace.go, Archive: the walk sends what no pattern keeps back.
use pandion.Prelude.{
  ◌≡◌, refl, sym, ap, ◌∙◌, ◌⊎◌, inl, inr, String, true, false, List, [], ◌∷◌, ◌++◌, Option, none,
  some, arith, All, All-append, All-imp, Bool-cases, subst, ℕ,
}
use pandion.Workspace.{
  Entries, Kind, Header, nil, file, dir, regular, symlink, special, join, put, both, send_file,
  send, ignored,
}

module _ (lines : List String) where
  -- The headers that a directory's entries are to send: a regular file that is not ignored, with its
  -- bytes; a directory that is not ignored, and what is inside it.
  pub data Sends : String → Entries → Header → Type 0 where
    this_file :
        {at name : String} {bytes : List ℕ} {more : Entries}
        → ignored lines (join at name) false ≡ false
        → Sends at
            (file name regular (some bytes) more)
            (record { path = join at name; is_dir = false; bytes = bytes })
    past_file :
        {at name : String} {kind : Kind} {bytes : Option (List ℕ)} {more : Entries} {h : Header}
        → Sends at more h
        → Sends at (file name kind bytes more) h
    this_dir :
        {at name : String} {inner more : Entries}
        → ignored lines (join at name) true ≡ false
        → Sends at (dir name inner more) (record { path = join at name; is_dir = true; bytes = [] })
    inside :
        {at name : String} {inner more : Entries} {h : Header}
        → ignored lines (join at name) true ≡ false
        → Sends (join at name) inner h
        → Sends at (dir name inner more) h
    past_dir :
        {at name : String} {inner more : Entries} {h : Header}
        → Sends at more h
        → Sends at (dir name inner more) h

abbrev pub Has : List Header → Header → Type 0
Has [] h = ⊥
Has (x ∷ xs) h = (x ≡ h) ⊎ Has xs h

Has-left : (xs ys : List Header) (h : Header) → Has xs h → Has (xs ++ ys) h
Has-left [] ys h k = absurd k
Has-left (x ∷ xs) ys h (inl e) = inl e
Has-left (x ∷ xs) ys h (inr k) = inr (Has-left xs ys h k)

Has-right : (xs ys : List Header) (h : Header) → Has ys h → Has (xs ++ ys) h
Has-right [] ys h k = k
Has-right (x ∷ xs) ys h k = inr (Has-right xs ys h k)

put-some :
    (h : Header) (o : Option (List Header)) (hs : List Header)
    → put h o ≡ some hs
    → (rest : List Header) × (o ≡ some rest) × (hs ≡ h ∷ rest)
put-some h none hs e = absurd (ground (arith, e))
put-some h (some rest) hs e = (rest, refl, ground (arith, e))

both-some :
    (a b : Option (List Header)) (hs : List Header)
    → both a b ≡ some hs
    → (xs : List Header) × (ys : List Header) × (a ≡ some xs) × (b ≡ some ys) × (hs ≡ xs ++ ys)
both-some none b hs e = absurd (ground (arith, e))
both-some (some xs) none hs e = absurd (ground (arith, e))
both-some (some xs) (some ys) hs e = (xs, ys, refl, refl, ground (arith, e))

module _ (lines : List String) where
  send_file-sends :
      (at name : String) (kind : Kind) (bytes : Option (List ℕ)) (more : Entries)
      (rest : Option (List Header)) (hs : List Header)
      → ignored lines (join at name) false ≡ false
      → ((r : List Header) → rest ≡ some r → All (Sends lines at more) r)
      → send_file (join at name) kind bytes rest ≡ some hs
      → All (Sends lines at (file name kind bytes more)) hs
  unfolding send_file
  send_file-sends at name symlink bytes more rest hs k h e =
      All-imp (Sends lines at more) _ hs (λ x s. past_file s) (h hs e)
  send_file-sends at name special bytes more rest hs k h e =
      All-imp (Sends lines at more) _ hs (λ x s. past_file s) (h hs e)
  send_file-sends at name regular none more rest hs k h e = absurd (ground (arith, e))
  send_file-sends at name regular (some b) more rest hs k h e =
      let (r, er, split) =
        put-some (record { path = join at name; is_dir = false; bytes = b }) rest hs e in
      subst (All (Sends lines at (file name regular (some b) more))) (sym split)
        (this_file k, All-imp (Sends lines at more) _ r (λ x s. past_file s) (h r er))

  dir-some :
      (at name : String) (inner more : Entries) (hs : List Header)
      → ignored lines (join at name) true ≡ false
      → send lines at (dir name inner more) ≡ some hs
      → (xs : List Header) × (ys : List Header) × (send lines (join at name) inner ≡ some xs)
        × (send lines at more ≡ some ys)
        × (hs ≡ record { path = join at name; is_dir = true; bytes = [] } ∷ xs ++ ys)
  unfolding send
  dir-some at name inner more hs kept e =
      let below = send lines (join at name) inner in
      let top : Header = record { path = join at name; is_dir = true; bytes = [] } in
      let (r, er, split) =
        put-some top (both below (send lines at more)) hs (ground (arith, e, kept)) in
      let (xs, ys, ex, ey, parts) = both-some below (send lines at more) r er in
      (xs, ys, ex, ey, split ∙ ap (λ l. top ∷ l) parts)

  pub send-sends :
      (at : String) (es : Entries) (hs : List Header)
      → send lines at es ≡ some hs
      → All (Sends lines at es) hs
  unfolding send
  send-sends at nil hs e =
      let same : [] ≡ hs = ground (arith, e) in subst (All (Sends lines at nil)) same tt
  send-sends at (file name kind bytes more) hs e =
      elim (Bool-cases (ignored lines (join at name) false)) [
        | inl gone ↦
            All-imp (Sends lines at more) _ hs (λ x s. past_file s)
              (send-sends at more hs (ground (arith, e, gone)))
        | inr kept ↦
            send_file-sends at name kind bytes more (send lines at more) hs kept
              (λ r k. send-sends at more r k) (ground (arith, e, kept))
      ]
  send-sends at (dir name inner more) hs e = elim (Bool-cases (ignored lines (join at name) true)) [
    | inl gone ↦
        All-imp (Sends lines at more) _ hs (λ x s. past_dir s)
          (send-sends at more hs (ground (arith, e, gone)))
    | inr kept ↦
        let (xs, ys, ex, ey, split) = dir-some at name inner more hs kept e in
        subst (All (Sends lines at (dir name inner more))) (sym split) (
          this_dir kept,
          All-append _ xs ys
              (All-imp (Sends lines (join at name) inner) _ xs (λ x s. inside kept s)
                (send-sends (join at name) inner xs ex))
              (All-imp (Sends lines at more) _ ys (λ x s. past_dir s) (send-sends at more ys ey)),
        )
  ]

  send_file-Has :
      (rel : String) (kind : Kind) (bytes : Option (List ℕ)) (rest : Option (List Header))
      (hs : List Header) (h : Header)
      → send_file rel kind bytes rest ≡ some hs
      → ((r : List Header) → rest ≡ some r → Has r h)
      → Has hs h
  unfolding send_file
  send_file-Has rel symlink bytes rest hs h e k = k hs e
  send_file-Has rel special bytes rest hs h e k = k hs e
  send_file-Has rel regular none rest hs h e k = absurd (ground (arith, e))
  send_file-Has rel regular (some b) rest hs h e k =
      let (r, er, split) = put-some (record { path = rel; is_dir = false; bytes = b }) rest hs e in
      subst (λ l. Has l h) (sym split) (inr (k r er))

  pub sends-send :
      (at : String) (es : Entries) (hs : List Header) (h : Header)
      → send lines at es ≡ some hs
      → Sends lines at es h
      → Has hs h
  unfolding send send_file
  sends-send at nil hs h e s = elim s [ ]
  sends-send at (file name regular (some b) more) hs h e (this_file kept) =
      let (r, er, split) =
        put-some (record { path = join at name; is_dir = false; bytes = b }) (send lines at more) hs
          (ground (arith, e, kept)) in
      subst (λ l. Has l h) (sym split) (inl refl)
  sends-send at (file name kind bytes more) hs h e (past_file s) =
      elim (Bool-cases (ignored lines (join at name) false)) [
        | inl gone ↦ sends-send at more hs h (ground (arith, e, gone)) s
        | inr kept ↦
            send_file-Has (join at name) kind bytes (send lines at more) hs h
              (ground (arith, e, kept)) (λ r er. sends-send at more r h er s)
      ]
  sends-send at (dir name inner more) hs h e (this_dir kept) =
      let (xs, ys, ex, ey, split) = dir-some at name inner more hs kept e in
      subst (λ l. Has l h) (sym split) (inl refl)
  sends-send at (dir name inner more) hs h e (inside kept s) =
      let (xs, ys, ex, ey, split) = dir-some at name inner more hs kept e in
      subst (λ l. Has l h) (sym split)
        (inr (Has-left xs ys h (sends-send (join at name) inner xs h ex s)))
  sends-send at (dir name inner more) hs h e (past_dir s) =
      elim (Bool-cases (ignored lines (join at name) true)) [
        | inl gone ↦ sends-send at more hs h (ground (arith, e, gone)) s
        | inr kept ↦
            let (xs, ys, ex, ey, split) = dir-some at name inner more hs kept e in
            subst (λ l. Has l h) (sym split)
              (inr (Has-right xs ys h (sends-send at more ys h ey s)))
      ]

  pub sends-kept :
      (at : String) (es : Entries) (h : Header)
      → Sends lines at es h
      → ignored lines h.path h.is_dir ≡ false
  sends-kept at es h (this_file kept) = kept
  sends-kept at es h (past_file s) = sends-kept at _ h s
  sends-kept at es h (this_dir kept) = kept
  sends-kept at es h (inside kept s) = sends-kept _ _ h s
  sends-kept at es h (past_dir s) = sends-kept at _ h s
