-- ===== src/Search/Provider/Sound.antt =====
-- The confidence that `Transform` of providers/base/provider.go reports.
use morfx.Base.{ℕ, ◌≡◌, sym, true, false, Option, none, some, List, [], ◌∷◌, length, if-both}
use morfx.Base.Bytes.{Bytes, codes}
use morfx.Recipe.{Floats}
use morfx.Edit.{Edited, done, no_targets, panic}
use morfx.Search.{Node, Match, Patterns, LanguageConfig, name_of}
use morfx.Search.Engine.{find_targets}
use morfx.Search.Cache.{Fetched, fetched, nil_tree}
use morfx.Search.Confidence.{Arithmetic, ConfidenceScore, confidence_level, calculate_confidence}
use morfx.Search.Confidence.Range.{OrdersUnit, IsSound, adjust_confidence-IsSound}
use morfx.Search.Provider.{
  TransformOp, Transformed, changed, Surroundings, conclude, conclude_method, is_append_to_root,
  normalized, append_to_root, root_confidence, targets_confidence, validate, transform_targets,
  transform_tree, transform_fetched,
}

module _ {L : Type 0} (patterns : Patterns) (config : LanguageConfig L)
    (around : Surroundings L) where
  module _ (F : Floats) (A : Arithmetic F) (parse : Bytes → Option (Node L)) where
    -- The level tells of the score, and the score is in range, wherever there is one.
    abbrev pub HasSoundConfidence : OrdersUnit F → Transformed F → Type 0
    HasSoundConfidence orders (changed t) = IsSound F A orders t.confidence
    HasSoundConfidence orders _ = Unit

    conclude-HasSoundConfidence :
        (orders : OrdersUnit F) (confidence : Bytes → ConfidenceScore F) (method source : Bytes)
        (count : ℕ) (edited : Edited)
        → ((modified : Bytes) → IsSound F A orders (confidence modified))
        → HasSoundConfidence orders
            (conclude patterns config around F A parse confidence method count source edited)
    unfolding conclude
    conclude-HasSoundConfidence orders confidence method source count (done modified) sound =
        sound modified
    conclude-HasSoundConfidence orders confidence method source count no_targets sound = tt
    conclude-HasSoundConfidence orders confidence method source count panic sound = tt

    conclude_method-HasSoundConfidence :
        (orders : OrdersUnit F) (confidence : Bytes → ConfidenceScore F) (method source : Bytes)
        (count : ℕ) (edited : Option Edited)
        → ((modified : Bytes) → IsSound F A orders (confidence modified))
        → HasSoundConfidence orders
            (conclude_method patterns config around F A parse confidence method count source edited)
    unfolding conclude_method
    conclude_method-HasSoundConfidence orders confidence method source count none sound = tt
    conclude_method-HasSoundConfidence orders confidence method source count (some edited) sound =
        conclude-HasSoundConfidence orders confidence method source count edited sound

    targets_confidence-IsSound :
        (orders : OrdersUnit F) (op : TransformOp) (source : Bytes) (ms : List (Match L))
        (modified : Bytes)
        → IsSound F A orders
            (targets_confidence patterns config around F A parse op source ms modified)
    unfolding targets_confidence
    targets_confidence-IsSound orders op source ms modified =
        adjust_confidence-IsSound F A orders (validate patterns config around parse modified)
          (name_of op.target) (length ms) source modified
          (calculate_confidence F A around.is_exported op.method (name_of op.target) ms)

    module _ (orders : OrdersUnit F) (high : confidence_level F A F.float_one ≡ codes "high") where
      append_to_root-HasSoundConfidence :
          (root : Node L) (source content : Bytes)
          → HasSoundConfidence orders
              (append_to_root patterns config around F A parse root source content)
      unfolding append_to_root
      append_to_root-HasSoundConfidence root source content =
          conclude-HasSoundConfidence orders
            (λ modified. root_confidence patterns config around F A parse) (codes "append") source 1
            _ (λ modified. (orders.1, sym high))

      transform_targets-HasSoundConfidence :
          (op : TransformOp) (source : Bytes) (ms : List (Match L))
          → HasSoundConfidence orders
              (transform_targets patterns config around F A parse op source ms)
      unfolding transform_targets
      transform_targets-HasSoundConfidence op source [] = tt
      transform_targets-HasSoundConfidence op source (m ∷ ms) =
          conclude_method-HasSoundConfidence orders
            (targets_confidence patterns config around F A parse op source (m ∷ ms)) op.method
            source (length (m ∷ ms)) _ (targets_confidence-IsSound orders op source (m ∷ ms))

      transform_tree-HasSoundConfidence :
          (root : Node L) (source : Bytes) (op : TransformOp)
          → HasSoundConfidence orders
              (transform_tree patterns config around F A parse root source op)
      unfolding transform_tree
      transform_tree-HasSoundConfidence root source op =
          if-both (HasSoundConfidence orders) (is_append_to_root op)
            (append_to_root-HasSoundConfidence root source op.content)
            (transform_targets-HasSoundConfidence op source
              (find_targets patterns config source op.target root))

      -- Where the floats order 0 and 1 and 1 is of the level "high": every transformation that succeeds
      -- reports a score from 0 to 1, and the level of that score.
      pub transform_fetched-HasSoundConfidence :
          (found : Fetched (Node L)) (source : Bytes) (op : TransformOp)
          → HasSoundConfidence orders
              (transform_fetched patterns config around F A parse found source op)
      unfolding transform_fetched
      transform_fetched-HasSoundConfidence nil_tree source op = tt
      transform_fetched-HasSoundConfidence (fetched none true) source op = tt
      transform_fetched-HasSoundConfidence (fetched none false) source op = tt
      transform_fetched-HasSoundConfidence (fetched (some root) hit) source op =
          transform_tree-HasSoundConfidence root source
            (normalized patterns config around F A parse op)
