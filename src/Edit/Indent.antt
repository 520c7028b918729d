-- ===== src/Edit/Indent.antt =====
-- `getIndentation`, and where the insertions of providers/base/provider.go put the indentation.
use mathlib.Core.Path.{subst}
use morfx.Base.{
  ℕ, suc, ◌+◌, ◌==◌, ◌||◌, ◌≡◌, refl, ap, ◌∙◌, sym, Bool, true, false, some, inl, List, [], ◌∷◌,
  ◌++◌, length, append_assoc, length-append, arith,
}
use morfx.Base.Bytes.{Bytes, codes}
use morfx.Edit.{
  Target, done, find_line, leading_blanks, indentation_at, get_indentation, do_insert_before,
  do_insert_after, before_text, after_text,
}
use morfx.Edit.Pieces.{Piece}
use morfx.Edit.Correct.{do_insert_before-rewritten, do_insert_after-rewritten}

abbrev pub is_blank : ℕ → Bool
is_blank c = c == b' ' || c == b'\t'

abbrev pub Blanks : Bytes → Type 0
Blanks [] = Unit
Blanks (c ∷ s) = (is_blank c ≡ true) × Blanks s

abbrev pub OneLine : Bytes → Type 0
OneLine [] = Unit
OneLine (c ∷ s) = ((c == b'\n') ≡ false) × OneLine s

abbrev pub AllOneLine : List Bytes → Type 0
AllOneLine [] = Unit
AllOneLine (l ∷ ls) = OneLine l × AllOneLine ls

-- the lines, each with its line end
abbrev pub lines_text : List Bytes → Bytes
lines_text [] = []
lines_text (l ∷ ls) = l ++ (b'\n' ∷ lines_text ls)

find_line-line :
    (l : Bytes) (n : ℕ) (s : Bytes)
    → OneLine l
    → find_line (suc n) (l ++ (b'\n' ∷ s)) ≡ find_line n s
unfolding find_line
find_line-line [] n s h = refl
find_line-line (c ∷ l) n s (h, hs) = rw (h, find_line) (find_line-line l n s hs)

find_line-lines_text :
    (ls : List Bytes) (c : ℕ) (s : Bytes)
    → AllOneLine ls
    → find_line (length ls) (lines_text ls ++ (c ∷ s)) ≡ some (c ∷ s)
unfolding find_line
find_line-lines_text [] c s h = refl
find_line-lines_text (l ∷ ls) c s (h, hs) =
    rw append_assoc
      (find_line-line l (length ls) (lines_text ls ++ (c ∷ s)) h ∙ find_line-lines_text ls c s hs)

leading_blanks-append :
    (w : Bytes) (c : ℕ) (s : Bytes)
    → Blanks w
    → is_blank c ≡ false
    → leading_blanks (w ++ (c ∷ s)) ≡ w
unfolding leading_blanks
leading_blanks-append [] c s h hc = rw hc
leading_blanks-append (d ∷ w) c s (h, hs) hc = rw (h, leading_blanks-append w c s hs hc)

indentation_at_lem :
    (ls : List Bytes) (w : Bytes) (c : ℕ) (s : Bytes)
    → AllOneLine ls
    → Blanks w
    → is_blank c ≡ false
    → indentation_at (length ls) (lines_text ls ++ (w ++ (c ∷ s))) ≡ w
unfolding indentation_at
indentation_at_lem ls [] c s h hw hc =
    rw (find_line-lines_text ls c s h, indentation_at) (leading_blanks-append [] c s tt hc)
indentation_at_lem ls (d ∷ w) c s h hw hc =
    rw (find_line-lines_text ls d (w ++ (c ∷ s)) h, indentation_at)
      (leading_blanks-append (d ∷ w) c s hw hc)

-- A text `c ∷ s` on a line that begins with the blanks `w`, below the lines `ls`.
abbrev pub line_start : List Bytes → Bytes → Bytes
line_start ls w = lines_text ls ++ w

abbrev pub indented_source : List Bytes → Bytes → Bytes → Bytes → Bytes
indented_source ls w body rest = line_start ls w ++ (body ++ rest)

-- the target that is that text
abbrev pub indented_target :
    {Node : Type 0} → Node → Bytes → List Bytes → Bytes → Bytes → Target Node
indented_target node name ls w body = record {
  name = name;
  start_byte = length (line_start ls w);
  end_byte = length (line_start ls w) + length body;
  node = some node;
}

module _ {Node : Type 0} (start_row : Node → ℕ) (node : Node) (name : Bytes) (ls : List Bytes)
    (w : Bytes) (c : ℕ) (s rest : Bytes) (on_row : start_row node ≡ length ls)
    (one_line : AllOneLine ls) (blanks : Blanks w) (not_blank : is_blank c ≡ false) where
  indentation_of-target :
      get_indentation start_row (indented_source ls w (c ∷ s) rest) (some node) ≡ w
  unfolding get_indentation
  indentation_of-target =
      rw (on_row, append_assoc) (indentation_at_lem ls w c (s ++ rest) one_line blanks not_blank)

  after_text_lem :
      (content : Bytes)
      → after_text start_row
          (indented_source ls w (c ∷ s) rest)
          content
          (indented_target node name ls w (c ∷ s))
        ≡ codes "\n" ++ (w ++ content)
  unfolding after_text
  after_text_lem content = rw indentation_of-target

  before_text_lem :
      (content : Bytes)
      → before_text start_row
          (indented_source ls w (c ∷ s) rest)
          content
          (indented_target node name ls w (c ∷ s))
        ≡ w ++ (content ++ codes "\n")
  unfolding before_text
  before_text_lem content = rw indentation_of-target

  -- A target `c ∷ s`, whose node starts on the row below the lines `ls`, on a line that begins with
  -- the blanks `w`, `c` being no blank: what is inserted after it begins a new line with the same
  -- indentation `w`, and what stood behind the target stands behind the content.
  pub do_insert_after-indented :
      (content : Bytes)
      → do_insert_after start_row
          (indented_source ls w (c ∷ s) rest)
          ((indented_target node name ls w (c ∷ s)) ∷ [])
          content
        ≡ done ((line_start ls w) ++ ((c ∷ s) ++ (codes "\n" ++ (w ++ (content ++ rest)))))
  do_insert_after-indented content =
      let same = append_assoc (line_start ls w) (c ∷ s) rest in
      let p : Piece = record {
        gap = (line_start ls w) ++ (c ∷ s);
        old = [];
        new = codes "\n" ++ (w ++ content);
      } in
      subst
        (λ source.
          do_insert_after start_row source ((indented_target node name ls w (c ∷ s)) ∷ []) content
          ≡ done ((line_start ls w) ++ ((c ∷ s) ++ (codes "\n" ++ (w ++ (content ++ rest))))))
        same
        (do_insert_after-rewritten start_row ((indented_target node name ls w (c ∷ s)) ∷ [])
            ((indented_target node name ls w (c ∷ s)) ∷ []) (p ∷ []) rest content (λ e. cc)
            ([], (refl, inl (refl, refl))) (tt, tt)
            (
              omega (arith, length-append (line_start ls w) (c ∷ s)),
              omega arith,
              sym (rw same (after_text_lem content)),
              tt,
            )
          ∙ ap done (simp append_assoc))

  -- A target `c ∷ s`, whose node starts on the row below the lines `ls`, on a line that begins with
  -- the blanks `w`, `c` being no blank: what is inserted before it stands behind the indentation that
  -- the line already has and a second copy of it, and the target moves to the front of the next line.
  pub do_insert_before-indented :
      (content : Bytes)
      → do_insert_before start_row
          (indented_source ls w (c ∷ s) rest)
          ((indented_target node name ls w (c ∷ s)) ∷ [])
          content
        ≡ done ((line_start ls w) ++ (w ++ (content ++ (codes "\n" ++ ((c ∷ s) ++ rest)))))
  do_insert_before-indented content =
      do_insert_before-rewritten start_row ((indented_target node name ls w (c ∷ s)) ∷ [])
        ((indented_target node name ls w (c ∷ s)) ∷ [])
        (record { gap = (line_start ls w); old = []; new = w ++ (content ++ codes "\n") } ∷ [])
        ((c ∷ s) ++ rest) content (λ e. cc) ([], (refl, inl (refl, refl))) (tt, tt)
        (omega arith, omega arith, sym (before_text_lem content), tt)
      ∙ ap done (simp append_assoc)
