-- ===== src/Search/Provider/Settles.antt =====
-- The errors and stops of `Transform` of providers/base/provider.go.
use morfx.Base.{
  ℕ, ◌≡◌, refl, Bool, true, false, ◌&&◌, Option, none, some, List, [], ◌∷◌, length, map, ltb,
  if-split, if-both,
}
use morfx.Base.Bytes.{Bytes, codes, beq, beq→eq, is_empty}
use morfx.Recipe.{Floats}
use morfx.Edit.{
  append_after, Target, Edited, done, no_targets, panic, SmartAppend, do_append_to_target,
  do_replace, do_delete, do_insert_before, do_insert_after,
}
use morfx.Search.{Node, Match, Patterns, LanguageConfig, kind_of, name_of}
use morfx.Search.Engine.{find_targets}
use morfx.Search.Confidence.{Arithmetic, ConfidenceScore}
use morfx.Search.Provider.{
  TransformOp, Transformed, stopped, no_targets_for_edit, Surroundings, apply_method, conclude,
  conclude_method, is_append_to_root, append_to_root, root_confidence, targets_confidence,
  transform_targets, transform_tree,
}

left_true : (a b : Bool) → (a && b) ≡ true → a ≡ true
left_true true b e = refl
left_true false b e = e

module _ {L : Type 0} (patterns : Patterns) (config : LanguageConfig L)
    (around : Surroundings L) where
  module _ (F : Floats) (A : Arithmetic F) (parse : Bytes → Option (Node L)) where
    -- The transformation is no error of an edit without targets, and it stops only in an append.
    abbrev pub Settles : Bytes → Transformed F → Type 0
    Settles method no_targets_for_edit = ⊥
    Settles method stopped = method ≡ codes "append"
    Settles method _ = Unit

    -- Every edit but the append returns a text, and so does none without targets.
    abbrev pub Edits : Bytes → Option Edited → Type 0
    Edits method none = Unit
    Edits method (some (done modified)) = Unit
    Edits method (some no_targets) = ⊥
    Edits method (some panic) = method ≡ codes "append"

    append_after-Edits :
        (method source : Bytes) (t : Target (Node L)) (content : Bytes)
        → method ≡ codes "append"
        → Edits method (some (append_after source t content))
    unfolding append_after
    append_after-Edits method source t content is_append =
        if-both (λ (r : Edited). Edits method (some r)) (ltb (length source) t.end_byte) is_append
          tt

    append-Edits :
        (method : Bytes) (smart : Option (SmartAppend (Node L))) (source : Bytes)
        (t : Target (Node L)) (ts : List (Target (Node L))) (content : Bytes)
        → method ≡ codes "append"
        → Edits method (some (do_append_to_target smart source (t ∷ ts) content))
    unfolding do_append_to_target
    append-Edits method none source t ts content is_append =
        append_after-Edits method source t content is_append
    append-Edits method (some smart) source t ts content is_append =
        elim (smart source t.node content)
          as (λ o. Edits method (
            some (elim o as (λ x. Edited) [
              | some modified ↦ done modified
              | none ↦ append_after source t content
            ]))) [
              | some modified ↦ tt
              | none ↦ append_after-Edits method source t content is_append
            ]

    pub apply_method-Edits :
        (op : TransformOp) (source : Bytes) (t : Target (Node L)) (ts : List (Target (Node L)))
        → Edits op.method (apply_method patterns config around op source (t ∷ ts))
    unfolding apply_method do_delete do_replace do_insert_before do_insert_after
    apply_method-Edits op source t ts =
        if-split (Edits op.method) (beq op.method (codes "replace")) (λ e. tt)
          (λ e.
            if-split (Edits op.method) (beq op.method (codes "delete")) (λ e. tt)
              (λ e.
                if-split (Edits op.method) (beq op.method (codes "insert_before")) (λ e. tt)
                  (λ e.
                    if-split (Edits op.method) (beq op.method (codes "insert_after")) (λ e. tt)
                      (λ e.
                        if-split (Edits op.method) (beq op.method (codes "append"))
                          (λ e.
                            append-Edits op.method around.smart_append source t ts op.content
                              (beq→eq _ _ e))
                          (λ e. tt)))))

    conclude_method-Settles :
        (kind : Bytes) (confidence : Bytes → ConfidenceScore F) (method source : Bytes) (count : ℕ)
        (edited : Option Edited)
        → Edits kind edited
        → Settles kind
            (conclude_method patterns config around F A parse confidence method count source edited)
    unfolding conclude_method conclude
    conclude_method-Settles kind confidence method source count none edits = tt
    conclude_method-Settles kind confidence method source count (some (done modified)) edits = tt
    conclude_method-Settles kind confidence method source count (some no_targets) edits = edits
    conclude_method-Settles kind confidence method source count (some panic) edits = edits

    transform_targets-Settles :
        (op : TransformOp) (source : Bytes) (ms : List (Match L))
        → Settles op.method (transform_targets patterns config around F A parse op source ms)
    unfolding transform_targets
    transform_targets-Settles op source [] = tt
    transform_targets-Settles op source (m ∷ ms) =
        conclude_method-Settles op.method
          (targets_confidence patterns config around F A parse op source (m ∷ ms)) op.method source
          (length (m ∷ ms)) _ (apply_method-Edits op source m.target (map (λ t. t.target) ms))

    append_to_root-Settles :
        (root : Node L) (source method content : Bytes)
        → beq method (codes "append") ≡ true
        → Settles method (append_to_root patterns config around F A parse root source content)
    unfolding append_to_root conclude_method
    append_to_root-Settles root source method content is_append =
        conclude_method-Settles method
          (λ modified. root_confidence patterns config around F A parse) (codes "append") source 1
          (some _)
          (append-Edits method around.smart_append source _ [] content (beq→eq _ _ is_append))

    -- On a parsed tree, no transformation returns the error of an edit without targets, and none stops
    -- the program but an append.
    pub transform_tree-Settles :
        (root : Node L) (source : Bytes) (op : TransformOp)
        → Settles op.method (transform_tree patterns config around F A parse root source op)
    unfolding transform_tree
    transform_tree-Settles root source op =
        if-split (Settles op.method) (is_append_to_root op)
          (λ e. append_to_root-Settles root source op.method op.content (
            left_true _ (is_empty (kind_of op.target))
              (left_true _ (is_empty (name_of op.target)) e)))
          (λ e.
            transform_targets-Settles op source
              (find_targets patterns config source op.target root))
