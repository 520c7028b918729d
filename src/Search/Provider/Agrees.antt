-- ===== src/Search/Provider/Agrees.antt =====
-- `Query` and `Transform` of providers/base/provider.go on one tree.
use morfx.Base.{
  ℕ, suc, ◌<◌, ◌≡◌, refl, sym, ap, false, Option, none, some, List, [], ◌∷◌, length, map, arith,
}
use morfx.Base.Bytes.{Bytes}
use morfx.Recipe.{Floats}
use morfx.Edit.{Edited, done, no_targets, panic}
use morfx.Search.{Node, Match, Patterns, LanguageConfig}
use morfx.Search.Engine.{find_targets}
use morfx.Search.Confidence.{Arithmetic, ConfidenceScore}
use morfx.Search.Provider.{
  TransformOp, Found, QueryResult, target_to_match, syntax_errors, matches, Transformed, changed,
  no_matches_found, unknown_method, stopped, unknown_method, stopped, Surroundings, find_errors,
  query_tree, conclude, conclude_method, is_append_to_root, targets_confidence, transform_targets,
  transform_tree,
}
use morfx.Search.Provider.Settles.{Edits, apply_method-Edits}

length-map : {A B : Type 0} → (f : A → B) (xs : List A) → length (map f xs) ≡ length xs
length-map f [] = refl
length-map f (x ∷ xs) = ap suc (length-map f xs)

module _ {L : Type 0} (patterns : Patterns) (config : LanguageConfig L)
    (around : Surroundings L) where
  module _ (F : Floats) (A : Arithmetic F) (parse : Bytes → Option (Node L)) where
    -- The count of a transformation is the number of the matches `found`, and it finds none exactly
    -- where there is none; it ends in no other way on a tree.
    abbrev pub Matching : List Found → Transformed F → Type 0
    Matching found (changed t) = (0 < length found) × (t.match_count ≡ length found)
    Matching found no_matches_found = found ≡ []
    Matching found (unknown_method method) = 0 < length found
    Matching found stopped = 0 < length found
    Matching found _ = ⊥

    -- A query that finds syntax errors has no matches; then the nodes count that its walk gives.
    abbrev pub Agrees : List Found → QueryResult → Transformed F → Type 0
    Agrees walked (matches found) t = (found ≡ walked) × Matching found t
    Agrees walked (syntax_errors errors) t = Matching walked t
    Agrees walked _ t = ⊥

    conclude_method-Matching :
        (confidence : Bytes → ConfidenceScore F) (method source : Bytes) (count : ℕ)
        (edited : Option Edited) (found : List Found)
        → 0 < length found
        → count ≡ length found
        → Edits patterns config around F A parse method edited
        → Matching found
            (conclude_method patterns config around F A parse confidence method count source edited)
    unfolding conclude_method conclude
    conclude_method-Matching confidence method source count none found some_match same edits =
        some_match
    conclude_method-Matching confidence method source count (some (done modified)) found some_match
          same edits =
        (some_match, same)
    conclude_method-Matching confidence method source count (some no_targets) found some_match same
          edits =
        edits
    conclude_method-Matching confidence method source count (some panic) found some_match same
          edits =
        some_match

    transform_targets-Matching :
        (op : TransformOp) (source : Bytes) (ms : List (Match L))
        → Matching
            (map (target_to_match source) ms)
            (transform_targets patterns config around F A parse op source ms)
    unfolding transform_targets
    transform_targets-Matching op source [] = refl
    transform_targets-Matching op source (m ∷ ms) =
        conclude_method-Matching
          (targets_confidence patterns config around F A parse op source (m ∷ ms)) op.method source
          (length (m ∷ ms)) _ (map (target_to_match source) (m ∷ ms)) (omega arith)
          (sym (length-map (target_to_match source) (m ∷ ms)))
          (apply_method-Edits patterns config around F A parse op source m.target
            (map (λ t. t.target) ms))

    transform_tree-elsewhere :
        (root : Node L) (source : Bytes) (op : TransformOp)
        → is_append_to_root op ≡ false
        → transform_tree patterns config around F A parse root source op
          ≡ transform_targets patterns config around F A parse op source
              (find_targets patterns config source op.target root)
    unfolding transform_tree
    transform_tree-elsewhere root source op not_root = rw not_root

    -- On one tree, a transformation that does not append to the root counts as many targets as
    -- `find_targets` gives for its target, and finds none exactly where that gives none. These are the
    -- matches of the query, unless the tree has syntax errors: the query reports these and no matches,
    -- while the transformation goes on.
    pub transform_tree-Agrees :
        (root : Node L) (source : Bytes) (op : TransformOp)
        → is_append_to_root op ≡ false
        → Agrees
            (map (target_to_match source) (find_targets patterns config source op.target root))
            (query_tree patterns config around root source op.target)
            (transform_tree patterns config around F A parse root source op)
    unfolding query_tree
    transform_tree-Agrees root source op not_root =
        rw (transform_tree-elsewhere root source op not_root)
          (elim (find_errors config.node_type around.start_position root)
            as (λ es.
              Agrees
                (map (target_to_match source) (find_targets patterns config source op.target root))
                (elim es as (λ x. QueryResult) [
                  | [] ↦ matches (
                      map (target_to_match source)
                        (find_targets patterns config source op.target root))
                  | f ∷ fs ↦ syntax_errors (f ∷ fs)
                ])
                (transform_targets patterns config around F A parse op source
                  (find_targets patterns config source op.target root))) [
                    | [] ↦ (
                      refl,
                      transform_targets-Matching op source
                          (find_targets patterns config source op.target root),
                    )
                    | f ∷ fs ↦
                        transform_targets-Matching op source
                          (find_targets patterns config source op.target root)
                  ])
