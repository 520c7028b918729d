-- ===== src/Edit.antt =====
-- The text edits of providers/base/provider.go: `sortTargetsDescending`, `doReplace`, `doDelete`,
-- `doInsertBefore`, `doInsertAfter`, `doAppendToTarget` and `getIndentation`.
pub mod Pieces
pub mod Sort
pub mod Loops
pub mod Correct
pub mod Indent
pub mod Overlap
mod Samples
use morfx.Base.{
  ℕ, zero, suc, ◌<◌, ltb, Bool, true, false, ◌||◌, ◌&&◌, Option, none, some, List, [], ◌∷◌, ◌++◌,
  length, take, drop, ◌==◌, if◌then◌else◌,
}
use morfx.Base.Bytes.{Bytes, codes}

-- The fields of `Target` that the edits read; `Node` is tree-sitter's.
pub record Target (Node : Type 0) : Type 0 where
  pub name : Bytes
  pub start_byte : ℕ
  pub end_byte : ℕ
  pub node : Option Node

-- What an edit returns. `panic` is a slice out of range.
pub data Edited : Type 0 where
  done : Bytes → Edited
  no_targets : Edited
  panic : Edited

module _ {Node : Type 0} where
  -- the comparison that `sort.SliceStable` is given
  pub before : Target Node → Target Node → Bool
  before a b =
      if a.start_byte == b.start_byte
      then (if a.end_byte == b.end_byte then false else ltb b.end_byte a.end_byte)
      else ltb b.start_byte a.start_byte

  pub insert_target : Target Node → List (Target Node) → List (Target Node)
  insert_target t [] = t ∷ []
  insert_target t (u ∷ us) = if before u t then u ∷ insert_target t us else t ∷ u ∷ us

  -- The sort is stable, and a stable sort has one result: this is insertion sort.
  unfoldable pub sort_targets_descending : List (Target Node) → List (Target Node)
  unfolding insert_target before
  sort_targets_descending [] = []
  sort_targets_descending (t ∷ ts) = insert_target t (sort_targets_descending ts)

  -- one round of the loop of `doReplace`
  pub replace_target : Bytes → Bytes → Target Node → Bytes
  replace_target replacement result t =
      if ltb (length result) t.start_byte || ltb (length result) t.end_byte
      then result
      else take t.start_byte result ++ (replacement ++ drop t.end_byte result)

  pub replace_loop : Bytes → Bytes → List (Target Node) → Bytes
  unfolding replace_target
  replace_loop replacement result [] = result
  replace_loop replacement result (t ∷ ts) =
      replace_loop replacement (replace_target replacement result t) ts

  unfoldable pub do_replace : Bytes → List (Target Node) → Bytes → Edited
  unfolding replace_loop sort_targets_descending
  do_replace source [] replacement = no_targets
  do_replace source (t ∷ ts) replacement =
      done (replace_loop replacement source (sort_targets_descending (t ∷ ts)))

  unfoldable pub do_delete : Bytes → List (Target Node) → Edited
  unfolding do_replace
  do_delete source targets = do_replace source targets []

-- the text from the start of a line on, if the loop of `getIndentation` finds that line
pub find_line : ℕ → Bytes → Option Bytes
find_line line [] = none
find_line zero (c ∷ s) = some (c ∷ s)
find_line (suc line) (c ∷ s) = find_line (if c == b'\n' then line else suc line) s

pub leading_blanks : Bytes → Bytes
leading_blanks [] = []
leading_blanks (c ∷ s) =
    let rest = leading_blanks s in if c == b' ' || c == b'\t' then c ∷ rest else []

-- Where no line is found, `lineStart` stays 0.
pub indentation_at : ℕ → Bytes → Bytes
unfolding find_line leading_blanks
indentation_at line source = elim (find_line line source) [
  | none ↦ leading_blanks source
  | some s ↦ leading_blanks s
]

-- `start_row` is `StartPoint().Row` of a tree-sitter node.
module _ {Node : Type 0} (start_row : Node → ℕ) where
  pub get_indentation : Bytes → Option Node → Bytes
  unfolding indentation_at
  get_indentation source none = []
  get_indentation source (some node) = indentation_at (start_row node) source

  pub before_text : Bytes → Bytes → Target Node → Bytes
  before_text source content t = get_indentation source t.node ++ (content ++ codes "\n")

  pub after_text : Bytes → Bytes → Target Node → Bytes
  after_text source content t = codes "\n" ++ (get_indentation source t.node ++ content)

  -- one round of the loop of `doInsertBefore`
  pub insert_before_target : Bytes → Bytes → Bytes → Target Node → Bytes
  insert_before_target source content result t =
      if ltb (length result) t.start_byte
      then result
      else take t.start_byte result ++ (before_text source content t ++ drop t.start_byte result)

  pub insert_before_loop : Bytes → Bytes → Bytes → List (Target Node) → Bytes
  unfolding insert_before_target before_text get_indentation
  insert_before_loop source content result [] = result
  insert_before_loop source content result (t ∷ ts) =
      insert_before_loop source content (insert_before_target source content result t) ts

  unfoldable pub do_insert_before : Bytes → List (Target Node) → Bytes → Edited
  unfolding insert_before_loop sort_targets_descending
  do_insert_before source [] content = no_targets
  do_insert_before source (t ∷ ts) content =
      done (insert_before_loop source content source (sort_targets_descending (t ∷ ts)))

  -- one round of the loop of `doInsertAfter`
  pub insert_after_target : Bytes → Bytes → Bytes → Target Node → Bytes
  insert_after_target source content result t =
      if ltb (length result) t.end_byte
      then result
      else take t.end_byte result ++ (after_text source content t ++ drop t.end_byte result)

  pub insert_after_loop : Bytes → Bytes → Bytes → List (Target Node) → Bytes
  unfolding insert_after_target after_text get_indentation
  insert_after_loop source content result [] = result
  insert_after_loop source content result (t ∷ ts) =
      insert_after_loop source content (insert_after_target source content result t) ts

  unfoldable pub do_insert_after : Bytes → List (Target Node) → Bytes → Edited
  unfolding insert_after_loop sort_targets_descending
  do_insert_after source [] content = no_targets
  do_insert_after source (t ∷ ts) content =
      done (insert_after_loop source content source (sort_targets_descending (t ∷ ts)))

-- `SmartAppend` of a language that has it; `none` is "not handled".
abbrev pub SmartAppend : Type 0 → Type 0
SmartAppend Node = Bytes → Option Node → Bytes → Option Bytes

module _ {Node : Type 0} where
  unfoldable pub append_after : Bytes → Target Node → Bytes → Edited
  append_after source target content =
      if ltb (length source) target.end_byte
      then panic
      else done (
          take target.end_byte source ++ ((codes "\n\n" ++ content) ++ drop target.end_byte source))

  unfoldable pub do_append_to_target :
      Option (SmartAppend Node) → Bytes → List (Target Node) → Bytes → Edited
  unfolding append_after
  do_append_to_target smart source [] content = no_targets
  do_append_to_target none source (t ∷ ts) content = append_after source t content
  do_append_to_target (some smart) source (t ∷ ts) content = elim (smart source t.node content) [
    | some modified ↦ done modified
    | none ↦ append_after source t content
  ]
