-- ===== src/Edit/Correct.antt =====
-- The edits of providers/base/provider.go rewrite exactly the pieces that their targets mark.
use morfx.Base.{ℕ, ◌≡◌, ◌≢◌, refl, ap, ◌∙◌, List, [], ◌∷◌, arith}
use morfx.Base.Bytes.{Bytes}
use morfx.Edit.{
  Target, done, sort_targets_descending, replace_target, replace_loop, do_replace,
  insert_before_target, insert_before_loop, do_insert_before, insert_after_target,
  insert_after_loop, do_insert_after, before_text, after_text,
}
use morfx.Edit.Pieces.{Piece, original, rewritten}
use morfx.Edit.Sort.{Ascending, Reorders}
use morfx.Edit.Loops.{Covers, Splices, run, run-sort}

module _ {Node : Type 0} where
  pub replace_target-Splices :
      (replacement : Bytes)
      → Splices {Node = Node}
          (λ t. t.start_byte)
          (λ t. t.end_byte)
          (λ _. replacement)
          (replace_target replacement)
  unfolding replace_target
  replace_target-Splices replacement result t hf hu = ground arith

  replace_loop-run :
      (replacement result : Bytes) (ts : List (Target Node))
      → replace_loop replacement result ts ≡ run (replace_target replacement) result ts
  unfolding replace_loop
  replace_loop-run replacement result [] = refl
  replace_loop-run replacement result (t ∷ ts) =
      replace_loop-run replacement (replace_target replacement result t) ts

  -- Where the targets do not overlap and their starts differ, whatever the order in which they are
  -- given, `do_replace` puts the replacement in place of the bytes of each target, and leaves all
  -- other bytes as they were.
  pub do_replace-rewritten :
      (ts us : List (Target Node)) (ps : List Piece) (tail replacement : Bytes)
      → ts ≢ []
      → Reorders ts us
      → Ascending us
      → Covers (λ t. t.start_byte) (λ t. t.end_byte) (λ _. replacement) 0 us ps
      → do_replace (original ps tail) ts replacement ≡ done (rewritten ps tail)
  unfolding do_replace
  do_replace-rewritten [] us ps tail replacement some_target order h c = absurd (some_target refl)
  do_replace-rewritten (t ∷ ts) us ps tail replacement some_target order h c = ap done (
      replace_loop-run replacement (original ps tail) (sort_targets_descending (t ∷ ts))
      ∙ run-sort _ _ _ (replace_target replacement) (replace_target-Splices replacement) (t ∷ ts) us
          ps tail order h c)

module _ {Node : Type 0} (start_row : Node → ℕ) where
  insert_before_target-Splices :
      (source content : Bytes)
      → Splices
          (λ t. t.start_byte)
          (λ t. t.start_byte)
          (before_text start_row source content)
          (insert_before_target start_row source content)
  unfolding insert_before_target
  insert_before_target-Splices source content result t hf hu = ground arith

  insert_before_loop-run :
      (source content result : Bytes) (ts : List (Target Node))
      → insert_before_loop start_row source content result ts
        ≡ run (insert_before_target start_row source content) result ts
  unfolding insert_before_loop
  insert_before_loop-run source content result [] = refl
  insert_before_loop-run source content result (t ∷ ts) =
      insert_before_loop-run source content (insert_before_target start_row source content result t)
        ts

  -- Where the starts of the targets differ, whatever the order in which they are given,
  -- `do_insert_before` puts the indentation of the target's first line, the content and a line end in
  -- front of each target, and leaves all bytes of the text as they were.
  pub do_insert_before-rewritten :
      (ts us : List (Target Node)) (ps : List Piece) (tail content : Bytes)
      → ts ≢ []
      → Reorders ts us
      → Ascending us
      → Covers
          (λ t. t.start_byte)
          (λ t. t.start_byte)
          (before_text start_row (original ps tail) content)
          0
          us
          ps
      → do_insert_before start_row (original ps tail) ts content ≡ done (rewritten ps tail)
  unfolding do_insert_before
  do_insert_before-rewritten [] us ps tail content some_target order h c = absurd (some_target refl)
  do_insert_before-rewritten (t ∷ ts) us ps tail content some_target order h c = ap done (
      insert_before_loop-run (original ps tail) content (original ps tail)
        (sort_targets_descending (t ∷ ts))
      ∙ run-sort _ _ (before_text start_row (original ps tail) content) _
          (insert_before_target-Splices (original ps tail) content) (t ∷ ts) us ps tail order h c)

  insert_after_target-Splices :
      (source content : Bytes)
      → Splices
          (λ t. t.end_byte)
          (λ t. t.end_byte)
          (after_text start_row source content)
          (insert_after_target start_row source content)
  unfolding insert_after_target
  insert_after_target-Splices source content result t hf hu = ground arith

  insert_after_loop-run :
      (source content result : Bytes) (ts : List (Target Node))
      → insert_after_loop start_row source content result ts
        ≡ run (insert_after_target start_row source content) result ts
  unfolding insert_after_loop
  insert_after_loop-run source content result [] = refl
  insert_after_loop-run source content result (t ∷ ts) =
      insert_after_loop-run source content (insert_after_target start_row source content result t)
        ts

  -- Where the starts of the targets differ and their ends stand in the order of their starts,
  -- whatever the order in which they are given, `do_insert_after` puts a line end, the indentation of
  -- the target's first line and the content behind each target, and leaves all bytes of the text as
  -- they were.
  pub do_insert_after-rewritten :
      (ts us : List (Target Node)) (ps : List Piece) (tail content : Bytes)
      → ts ≢ []
      → Reorders ts us
      → Ascending us
      → Covers
          (λ t. t.end_byte)
          (λ t. t.end_byte)
          (after_text start_row (original ps tail) content)
          0
          us
          ps
      → do_insert_after start_row (original ps tail) ts content ≡ done (rewritten ps tail)
  unfolding do_insert_after
  do_insert_after-rewritten [] us ps tail content some_target order h c = absurd (some_target refl)
  do_insert_after-rewritten (t ∷ ts) us ps tail content some_target order h c = ap done (
      insert_after_loop-run (original ps tail) content (original ps tail)
        (sort_targets_descending (t ∷ ts))
      ∙ run-sort _ _ (after_text start_row (original ps tail) content) _
          (insert_after_target-Splices (original ps tail) content) (t ∷ ts) us ps tail order h c)
