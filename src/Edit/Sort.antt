-- ===== src/Edit/Sort.antt =====
-- `sortTargetsDescending` on targets in any order whose starts differ.
use mathlib.Core.Path.{subst}
use morfx.Base.{
  ◌<◌, ◌≡◌, refl, sym, ap, ◌∙◌, true, false, List, [], ◌∷◌, ◌++◌, inl, inr, ◌⊎◌, if◌then◌else◌,
  arith,
}
use morfx.Edit.{Target, before, insert_target, sort_targets_descending}

module _ {Node : Type 0} where
  abbrev pub AllAfter : Target Node → List (Target Node) → Type 0
  AllAfter t [] = Unit
  AllAfter t (u ∷ us) = (t.start_byte < u.start_byte) × AllAfter t us

  -- starts that grow strictly
  abbrev pub Ascending : List (Target Node) → Type 0
  Ascending [] = Unit
  Ascending (t ∷ ts) = AllAfter t ts × Ascending ts

  -- The last list is the one before it with the target put somewhere into it.
  abbrev pub Inserted : Target Node → List (Target Node) → List (Target Node) → Type 0
  Inserted t us [] = ⊥
  Inserted t us (v ∷ vs) =
      ((t ≡ v) × (us ≡ vs)) ⊎ ((ws : List (Target Node)) × ((us ≡ v ∷ ws) × Inserted t ws vs))

  -- The second list has the targets of the first one in some order.
  abbrev pub Reorders : List (Target Node) → List (Target Node) → Type 0
  Reorders [] us = us ≡ []
  Reorders (t ∷ ts) us = (vs : List (Target Node)) × (Reorders ts vs × Inserted t vs us)

  abbrev pub backwards : List (Target Node) → List (Target Node)
  backwards [] = []
  backwards (t ∷ ts) = backwards ts ++ t ∷ []

  AllAfter-snoc :
      (t u : Target Node) (us : List (Target Node))
      → t.start_byte < u.start_byte
      → AllAfter t us
      → AllAfter t (us ++ u ∷ [])
  AllAfter-snoc t u [] h hs = (h, tt)
  AllAfter-snoc t u (v ∷ us) h (hv, hs) = (hv, AllAfter-snoc t u us h hs)

  AllAfter-backwards :
      (t : Target Node) (us : List (Target Node)) → AllAfter t us → AllAfter t (backwards us)
  AllAfter-backwards t [] h = tt
  AllAfter-backwards t (u ∷ us) (h, hs) =
      AllAfter-snoc t u (backwards us) h (AllAfter-backwards t us hs)

  -- What stands before all stands before the target that was put among them, and before the others.
  AllAfter-Inserted :
      (v t : Target Node) (us vs : List (Target Node))
      → Inserted t us vs
      → AllAfter v vs
      → (v.start_byte < t.start_byte) × AllAfter v us
  AllAfter-Inserted v t us [] put h = absurd put
  AllAfter-Inserted v t us (w ∷ vs) (inl (same, rest)) (h, hs) = (
    subst (λ (x : Target Node). v.start_byte < x.start_byte) (sym same) h,
    subst (λ (xs : List (Target Node)). AllAfter v xs) (sym rest) hs,
  )
  AllAfter-Inserted v t us (w ∷ vs) (inr (ws, (rest, put))) (h, hs) =
      let (after, others) = AllAfter-Inserted v t ws vs put hs in
      (after, subst (λ (xs : List (Target Node)). AllAfter v xs) (sym rest) (h, others))

  Ascending-Inserted :
      (t : Target Node) (us vs : List (Target Node))
      → Inserted t us vs
      → Ascending vs
      → Ascending us
  Ascending-Inserted t us [] put h = absurd put
  Ascending-Inserted t us (v ∷ vs) (inl (same, rest)) (h, hs) =
      subst (λ (xs : List (Target Node)). Ascending xs) (sym rest) hs
  Ascending-Inserted t us (v ∷ vs) (inr (ws, (rest, put))) (h, hs) =
      subst (λ (xs : List (Target Node)). Ascending xs) (sym rest)
        ((AllAfter-Inserted v t ws vs put h).1, Ascending-Inserted t ws vs put hs)

  before_lem : (t u : Target Node) → t.start_byte < u.start_byte → before u t ≡ true
  unfolding before
  before_lem t u h = ground arith

  not_before : (t u : Target Node) → t.start_byte < u.start_byte → before t u ≡ false
  unfolding before
  not_before t u h = ground arith

  insert_target-AllAfter :
      (t : Target Node) (us : List (Target Node))
      → AllAfter t us
      → insert_target t us ≡ us ++ t ∷ []
  unfolding insert_target
  insert_target-AllAfter t [] h = refl
  insert_target-AllAfter t (u ∷ us) (h, hs) = rw (before_lem t u h, insert_target-AllAfter t us hs)

  insert_target-snoc :
      (t v : Target Node) (us : List (Target Node))
      → v.start_byte < t.start_byte
      → insert_target t (us ++ v ∷ []) ≡ insert_target t us ++ v ∷ []
  unfolding insert_target
  insert_target-snoc t v [] h = rw (not_before v t h)
  insert_target-snoc t v (u ∷ us) h =
      elim (before u t)
        as (λ b.
          (if b then u ∷ insert_target t (us ++ v ∷ []) else t ∷ u ∷ (us ++ v ∷ []))
          ≡ (if b then u ∷ insert_target t us else t ∷ u ∷ us) ++ v ∷ []) [
            | true ↦ ap (λ (xs : List (Target Node)). u ∷ xs) (insert_target-snoc t v us h)
            | false ↦ refl
          ]

  insert_target-Inserted :
      (t : Target Node) (us vs : List (Target Node))
      → Inserted t us vs
      → Ascending vs
      → insert_target t (backwards us) ≡ backwards vs
  insert_target-Inserted t us [] put h = absurd put
  insert_target-Inserted t us (v ∷ vs) (inl (same, rest)) (h, hs) =
      ap (λ (xs : List (Target Node)). insert_target t (backwards xs)) rest
      ∙ insert_target-AllAfter t (backwards vs)
          (AllAfter-backwards t vs (subst (λ (x : Target Node). AllAfter x vs) (sym same) h))
      ∙ ap (λ (x : Target Node). backwards vs ++ x ∷ []) same
  insert_target-Inserted t us (v ∷ vs) (inr (ws, (rest, put))) (h, hs) =
      ap (λ (xs : List (Target Node)). insert_target t (backwards xs)) rest
      ∙ insert_target-snoc t v (backwards ws) (AllAfter-Inserted v t ws vs put h).0
      ∙ ap (λ (xs : List (Target Node)). xs ++ v ∷ []) (insert_target-Inserted t ws vs put hs)

  -- In whatever order they are given, targets whose starts differ are sorted from the last start to the
  -- first.
  pub sort_targets_descending-Reorders :
      (ts us : List (Target Node))
      → Reorders ts us
      → Ascending us
      → sort_targets_descending ts ≡ backwards us
  unfolding sort_targets_descending
  sort_targets_descending-Reorders [] us same h = ap backwards (sym same)
  sort_targets_descending-Reorders (t ∷ ts) us (vs, (others, put)) h =
      ap (insert_target t)
        (sort_targets_descending-Reorders ts vs others (Ascending-Inserted t vs us put h))
      ∙ insert_target-Inserted t vs us put h
