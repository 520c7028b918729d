-- ===== src/Edit/Overlap.antt =====
-- What providers/base/provider.go does to a target inside another one.
use morfx.Base.{◌+◌, ◌<◌, ◌≡◌, ap, ◌∙◌, List, [], ◌∷◌, ◌++◌, length, length-append, arith}
use morfx.Base.Bytes.{Bytes}
use morfx.Edit.{Target, done, sort_targets_descending, replace_target, replace_loop, do_replace}
use morfx.Edit.Pieces.{splice, regroup, splice-front}
use morfx.Edit.Sort.{Reorders, sort_targets_descending-Reorders}
use morfx.Edit.Correct.{replace_target-Splices}

-- An outer target over `head ++ inner ++ foot`, the last bytes of a text, and an inner one over
-- `inner`; a round of the loop takes the inner one first.
module _ {Node : Type 0} (outer_target inner_target : Target Node) (pre head inner foot : Bytes)
    (outer_start : outer_target.start_byte ≡ length pre)
    (outer_end : outer_target.end_byte ≡ length pre + length head + length inner + length foot)
    (inner_start : inner_target.start_byte ≡ length pre + length head)
    (inner_end : inner_target.end_byte ≡ length pre + length head + length inner)
    (some_head : 0 < length head) where
  sorted :
      (ts : List (Target Node))
      → Reorders ts (outer_target ∷ inner_target ∷ [])
      → sort_targets_descending ts ≡ inner_target ∷ outer_target ∷ []
  sorted ts order =
      sort_targets_descending-Reorders ts (outer_target ∷ inner_target ∷ []) order
        ((omega arith, tt), (tt, tt))

  length-whole :
      (text : Bytes)
      → length (pre ++ (head ++ (text ++ foot)))
        ≡ length pre + length head + length text + length foot
  length-whole text = omega (
    arith,
    length-append pre (head ++ (text ++ foot)),
    length-append head (text ++ foot),
    length-append text foot,
  )

  inner_round :
      (replacement : Bytes)
      → replace_target replacement (pre ++ (head ++ (inner ++ foot))) inner_target
        ≡ pre ++ (head ++ (replacement ++ foot))
  inner_round replacement =
      let whole = length-whole inner in
      replace_target-Splices replacement (pre ++ (head ++ (inner ++ foot))) inner_target
        (omega arith) (omega arith)
      ∙ ap (splice inner_target.start_byte inner_target.end_byte replacement)
          (regroup pre head inner foot)
      ∙ splice-front pre head inner replacement foot inner_target.start_byte inner_target.end_byte
          (omega (arith, length-append pre head))
          (omega (arith, length-append pre head, length-append (pre ++ head) inner))

  outer_round :
      (replacement : Bytes)
      → length replacement < length inner
      → replace_target replacement (pre ++ (head ++ (replacement ++ foot))) outer_target
        ≡ pre ++ (head ++ (replacement ++ foot))
  unfolding replace_target
  outer_round replacement short = ground (arith, length-whole replacement)

  -- Of two targets, the outer one ends with the text, and the inner one starts behind the start of the
  -- outer one and ends no later. Where the replacement is shorter than the inner target, only that is
  -- replaced, in whatever order the two are given: the outer one is out of range when its turn comes,
  -- and it is skipped.
  pub do_replace-skips_outer :
      (ts : List (Target Node))
      → Reorders ts (outer_target ∷ inner_target ∷ [])
      → (replacement : Bytes) → length replacement < length inner
      → do_replace (pre ++ (head ++ (inner ++ foot))) ts replacement
        ≡ done (pre ++ (head ++ (replacement ++ foot)))
  unfolding do_replace
  do_replace-skips_outer [] order replacement short = absurd cc
  do_replace-skips_outer (t ∷ ts) order replacement short = ap done (
      ap (replace_loop replacement (pre ++ (head ++ (inner ++ foot)))) (sorted (t ∷ ts) order)
      ∙ rw (inner_round replacement) (outer_round replacement short))
