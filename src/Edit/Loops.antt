-- ===== src/Edit/Loops.antt =====
-- One lemma for the three loops: a round that splices one span per target, run over the targets
-- from the last to the first, rewrites the pieces of the text.
use morfx.Base.{ℕ, ◌+◌, ◌≤◌, ◌≡◌, refl, List, [], ◌∷◌, ◌++◌, length, length-append, arith}
use morfx.Base.Bytes.{Bytes}
use morfx.Edit.{Target, sort_targets_descending}
use morfx.Edit.Pieces.{Piece, splice, original, rewritten, regroup, splice-front}
use morfx.Edit.Sort.{Ascending, Reorders, backwards, sort_targets_descending-Reorders}

module _ {Node : Type 0} (from upto : Target Node → ℕ) (text : Target Node → Bytes) where
  -- Each target marks the old bytes of one piece, in the order of the text, and its text is the
  -- new one of that piece. The first piece begins at the offset.
  abbrev pub Covers : ℕ → List (Target Node) → List Piece → Type 0
  Covers offset [] [] = Unit
  Covers offset [] (p ∷ ps) = ⊥
  Covers offset (t ∷ ts) [] = ⊥
  Covers offset (t ∷ ts) (p ∷ ps) =
      (from t ≡ offset + length p.gap)
      × (upto t ≡ from t + length p.old)
      × (p.new ≡ text t)
      × Covers (upto t) ts ps

  abbrev pub Splices : (Bytes → Target Node → Bytes) → Type 0
  Splices step =
      (result : Bytes) (t : Target Node)
      → from t ≤ length result
      → upto t ≤ length result
      → step result t ≡ splice (from t) (upto t) (text t) result

module _ {Node : Type 0} (step : Bytes → Target Node → Bytes) where
  abbrev pub run : Bytes → List (Target Node) → Bytes
  run result [] = result
  run result (t ∷ ts) = run (step result t) ts

  run-snoc :
      (result : Bytes) (ts : List (Target Node)) (t : Target Node)
      → run result (ts ++ t ∷ []) ≡ step (run result ts) t
  run-snoc result [] t = refl
  run-snoc result (u ∷ us) t = run-snoc (step result u) us t

module _ {Node : Type 0} (from upto : Target Node → ℕ) (text : Target Node → Bytes)
    (step : Bytes → Target Node → Bytes) (splices : Splices from upto text step) where
  step-front :
      (before : Bytes) (t : Target Node) (p : Piece) (rest : Bytes)
      → from t ≡ length (before ++ p.gap)
      → upto t ≡ length ((before ++ p.gap) ++ p.old)
      → p.new ≡ text t
      → step (((before ++ p.gap) ++ p.old) ++ rest) t ≡ before ++ (p.gap ++ (p.new ++ rest))
  step-front before t p rest hf hu hn =
      let whole = length-append ((before ++ p.gap) ++ p.old) rest in
      let front = length-append (before ++ p.gap) p.old in
      rw (splices (((before ++ p.gap) ++ p.old) ++ rest) t (omega arith) (omega arith), ← hn)
        (splice-front before p.gap p.old p.new rest (from t) (upto t) hf hu)

  run-backwards :
      (before : Bytes) (ts : List (Target Node)) (ps : List Piece) (tail : Bytes) (offset : ℕ)
      → offset ≡ length before
      → Covers from upto text offset ts ps
      → run step (before ++ original ps tail) (backwards ts) ≡ before ++ rewritten ps tail
  run-backwards before [] [] tail offset h c = refl
  run-backwards before [] (p ∷ ps) tail offset h c = absurd c
  run-backwards before (t ∷ ts) [] tail offset h c = absurd c
  run-backwards before (t ∷ ts) (p ∷ ps) tail offset h (cf, cu, cn, cs) =
      let hf : from t ≡ length (before ++ p.gap) = omega (arith, length-append before p.gap) in
      let hu : upto t ≡ length ((before ++ p.gap) ++ p.old) =
        omega (arith, length-append (before ++ p.gap) p.old) in
      rw (run-snoc step _ (backwards ts) t, regroup before p.gap p.old (original ps tail))
        (rw (run-backwards ((before ++ p.gap) ++ p.old) ts ps tail (upto t) hu cs)
          (step-front before t p (rewritten ps tail) hf hu cn))

  -- After the sort, the loop rewrites the whole text.
  pub run-sort :
      (ts us : List (Target Node)) (ps : List Piece) (tail : Bytes)
      → Reorders ts us
      → Ascending us
      → Covers from upto text 0 us ps
      → run step (original ps tail) (sort_targets_descending ts) ≡ rewritten ps tail
  run-sort ts us ps tail order h c =
      rw (sort_targets_descending-Reorders ts us order h) (run-backwards [] us ps tail 0 refl c)
