-- ===== src/Edit/Samples.antt =====
-- Tests of the edits, and their theorems at concrete inputs.
use morfx.Base.{ℕ, ◌≡◌, refl, some, List, [], ◌∷◌, inl, inr, arith}
use morfx.Base.Bytes.{Bytes, codes}
use morfx.Edit.{
  Target, done, sort_targets_descending, do_replace, do_insert_before, do_insert_after, before_text,
  after_text, get_indentation,
}
use morfx.Edit.Pieces.{Piece, original, rewritten}
use morfx.Edit.Sort.{Reorders, backwards, sort_targets_descending-Reorders}
use morfx.Edit.Correct.{do_replace-rewritten, do_insert_before-rewritten, do_insert_after-rewritten}
use morfx.Edit.Indent.{do_insert_before-indented, do_insert_after-indented, indented_target}
use morfx.Edit.Overlap.{do_replace-skips_outer}

-- A node is its start row.
abbrev row : ℕ → ℕ
row node = node

abbrev span : ℕ → ℕ → Target ℕ
span start stop = record { name = codes "f"; start_byte = start; end_byte = stop; node = some 0 }

abbrev two_targets : List (Target ℕ)
two_targets = span 1 3 ∷ span 4 5 ∷ []

abbrev two_pieces : List Piece
two_pieces =
    record { gap = codes "a"; old = codes "bc"; new = codes "XYZ" }
    ∷ record { gap = codes "d"; old = codes "e"; new = codes "XYZ" }
    ∷ []

replace_two : do_replace (codes "abcdef") two_targets (codes "XYZ") ≡ done (codes "aXYZdXYZf")
unfolding do_replace
replace_two = refl

two_swapped : Reorders (span 4 5 ∷ span 1 3 ∷ []) two_targets
two_swapped = (span 1 3 ∷ [], (([], (refl, inl (refl, refl))), inr ([], (refl, inl (refl, refl)))))

sort_targets_descending-Reorders_example :
    sort_targets_descending (span 4 5 ∷ span 1 3 ∷ []) ≡ backwards two_targets
sort_targets_descending-Reorders_example =
    sort_targets_descending-Reorders (span 4 5 ∷ span 1 3 ∷ []) two_targets two_swapped
      ((omega arith, tt), (tt, tt))

do_replace-rewritten_example :
    do_replace (original two_pieces (codes "f")) (span 4 5 ∷ span 1 3 ∷ []) (codes "XYZ")
    ≡ done (rewritten two_pieces (codes "f"))
do_replace-rewritten_example =
    do_replace-rewritten (span 4 5 ∷ span 1 3 ∷ []) two_targets two_pieces (codes "f") (codes "XYZ")
      (λ e. cc) two_swapped ((omega arith, tt), (tt, tt)) (refl, refl, refl, (refl, refl, refl, tt))

abbrev one_insertion : Bytes → List Piece
one_insertion text = record { gap = codes "  a"; old = []; new = text } ∷ []

do_insert_after-rewritten_example :
    do_insert_after row
      (original (one_insertion (codes "\n  new")) (codes "b"))
      (span 2 3 ∷ [])
      (codes "new")
    ≡ done (rewritten (one_insertion (codes "\n  new")) (codes "b"))
unfolding after_text get_indentation
do_insert_after-rewritten_example =
    do_insert_after-rewritten row (span 2 3 ∷ []) (span 2 3 ∷ []) (one_insertion (codes "\n  new"))
      (codes "b") (codes "new") (λ e. cc) ([], (refl, inl (refl, refl))) (tt, tt)
      (refl, refl, refl, tt)

do_insert_before-rewritten_example :
    do_insert_before row
      (original (one_insertion (codes "  new\n")) (codes "b"))
      (span 3 4 ∷ [])
      (codes "new")
    ≡ done (rewritten (one_insertion (codes "  new\n")) (codes "b"))
unfolding before_text get_indentation
do_insert_before-rewritten_example =
    do_insert_before-rewritten row (span 3 4 ∷ []) (span 3 4 ∷ []) (one_insertion (codes "  new\n"))
      (codes "b") (codes "new") (λ e. cc) ([], (refl, inl (refl, refl))) (tt, tt)
      (refl, refl, refl, tt)

-- The text "x\n  ab\n", with the target `ab` on its second line.
abbrev one_line : List Bytes
one_line = codes "x" ∷ []

second_row : ℕ → ℕ
second_row node = 1

do_insert_before-indented_example :
    do_insert_before second_row
      (codes "x\n  ab\n")
      (indented_target 7 (codes "f") one_line (codes "  ") (codes "ab") ∷ [])
      (codes "c")
    ≡ done (codes "x\n    c\nab\n")
unfolding second_row
do_insert_before-indented_example =
    do_insert_before-indented second_row 7 (codes "f") one_line (codes "  ") b'a' (codes "b")
      (codes "\n") refl ((refl, tt), tt) (refl, (refl, tt)) refl (codes "c")

do_insert_after-indented_example :
    do_insert_after second_row
      (codes "x\n  ab\n")
      (indented_target 7 (codes "f") one_line (codes "  ") (codes "ab") ∷ [])
      (codes "c")
    ≡ done (codes "x\n  ab\n  c\n")
unfolding second_row
do_insert_after-indented_example =
    do_insert_after-indented second_row 7 (codes "f") one_line (codes "  ") b'a' (codes "b")
      (codes "\n") refl ((refl, tt), tt) (refl, (refl, tt)) refl (codes "c")

do_replace-skips_outer_example :
    do_replace (codes "xabcd") (span 2 4 ∷ span 1 5 ∷ []) [] ≡ done (codes "xad")
do_replace-skips_outer_example =
    do_replace-skips_outer (span 1 5) (span 2 4) (codes "x") (codes "a") (codes "bc") (codes "d")
      refl refl refl refl (omega arith) (span 2 4 ∷ span 1 5 ∷ [])
      (span 1 5 ∷ [], (([], (refl, inl (refl, refl))), inr ([], (refl, inl (refl, refl))))) []
      (omega arith)
