-- ===== src/Search/Confidence.antt =====
-- The confidence in a transformation: `calculateConfidence`, `adjustConfidence`, `clampConfidence` and
-- `confidenceLevel` of providers/base/provider.go.
pub mod Range
use morfx.Base.{
  ℕ, ◌+◌, ◌-◌, ◌==◌, ltb, Bool, true, false, ◌&&◌, not, List, [], ◌∷◌, ◌++◌, length, if◌then◌else◌,
}
use morfx.Base.Bytes.{Bytes, codes, beq, is_empty, contains}
use morfx.Recipe.{Floats}
use morfx.Edit.{Target}
use morfx.Search.{Node, Match}

-- The arithmetic of float64: `constant` reads a constant as it is written, `of_nat` is a conversion.
pub record Arithmetic (F : Floats) : Type 0 where
  pub constant : Bytes → F.Float
  pub of_nat : ℕ → F.Float
  pub add : F.Float → F.Float → F.Float
  pub sub : F.Float → F.Float → F.Float
  pub div : F.Float → F.Float → F.Float

-- `ConfidenceFactor`, less the text of its reason
pub record ConfidenceFactor (F : Floats) : Type 0 where
  pub name : Bytes
  pub impact : F.Float

pub record ConfidenceScore (F : Floats) : Type 0 where
  pub score : F.Float
  pub level : Bytes
  pub factors : List (ConfidenceFactor F)

-- `strings.Count` of one byte
pub count_byte : ℕ → Bytes → ℕ
count_byte b [] = 0
count_byte b (c ∷ s) = let rest = count_byte b s in if c == b then rest + 1 else rest

module _ (F : Floats) (A : Arithmetic F) where
  unfoldable pub confidence_level : F.Float → Bytes
  confidence_level score =
      if F.lt score (A.constant (codes "0.5"))
      then codes "low"
      else if F.lt score (A.constant (codes "0.8"))
      then codes "medium"
      else codes "high"

  unfoldable pub clamp : F.Float → F.Float
  clamp score =
      if F.lt score F.float_zero
      then F.float_zero
      else if F.lt F.float_one score
      then F.float_one
      else score

  -- A score and the factors so far; the impact is `constant`, with a sign where it is taken off.
  abbrev Scored : Type 0
  Scored = F.Float × List (ConfidenceFactor F)

  pub raise : Bytes → Bytes → Scored → Scored
  raise name amount (score, factors) = (
    A.add score (A.constant amount),
    factors ++ (record { name = name; impact = A.constant amount }) ∷ [],
  )

  pub lower : Bytes → Bytes → Scored → Scored
  lower name amount (score, factors) = (
    A.sub score (A.constant amount),
    factors ++ (record { name = name; impact = A.constant (codes "-" ++ amount) }) ∷ [],
  )

  abbrev lower_if : Bool → Bytes → Bytes → Scored → Scored
  lower_if test name amount scored = if test then lower name amount scored else scored

  pub score_targets : ℕ → Scored → Scored
  unfolding raise lower
  score_targets count scored =
      if count == 1
      then raise (codes "single_target") (codes "0.1") scored
      else lower_if (ltb 5 count) (codes "multiple_targets") (codes "0.3") scored

  abbrev first_exported : {L : Type 0} → (Bytes → Bool) → List (Match L) → Bool
  first_exported is_exported [] = false
  first_exported is_exported (m ∷ ms) = is_exported m.target.name

  pub score_method : Bytes → Bool → Scored → Scored
  unfolding lower beq
  score_method method exported scored =
      if beq method (codes "delete")
      then lower_if exported (codes "delete_exported_api") (codes "0.3")
          (lower (codes "delete_operation") (codes "0.1") scored)
      else lower_if (beq method (codes "replace") && exported) (codes "exported_api") (codes "0.2")
          scored

  unfoldable pub calculate_confidence :
      {L : Type 0} → (Bytes → Bool) → Bytes → Bytes → List (Match L) → ConfidenceScore F
  unfolding score_targets score_method lower clamp confidence_level contains
  calculate_confidence is_exported method name targets =
      let scored = lower_if (contains name b'*') (codes "wildcard_pattern") (codes "0.15") (
        score_method method (first_exported is_exported targets)
          (score_targets (length targets) (F.float_one, []))) in
      record {
        score = clamp scored.0;
        level = confidence_level (clamp scored.0);
        factors = scored.1;
      }

  pub clamp_confidence : ConfidenceScore F → ConfidenceScore F
  unfolding clamp confidence_level
  clamp_confidence conf = record {
    score = clamp conf.score;
    level = confidence_level (clamp conf.score);
    factors = conf.factors;
  }

  -- whether the size changes by more than 0.3 of the original
  pub is_large_delta : Bytes → Bytes → Bool
  is_large_delta original modified =
      not (is_empty modified)
      && not (is_empty original)
      && F.lt (A.constant (codes "0.3")) (
          A.div
            (A.of_nat ((length modified - length original) + (length original - length modified)))
            (A.of_nat (length original)))

  -- `valid` is the result of `Validate` of the modified text, and `count` the number of targets.
  unfoldable pub adjust_confidence :
      Bool → Bytes → ℕ → Bytes → Bytes → ConfidenceScore F → ConfidenceScore F
  unfolding lower clamp_confidence is_large_delta count_byte
  adjust_confidence valid name count original modified conf =
      let scored =
        lower_if (is_large_delta original modified) (codes "large_size_delta") (codes "0.1") (
          lower_if (ltb 1 (count_byte b'*' name)) (codes "broad_wildcard") (codes "0.1") (
            lower_if (ltb 3 count) (codes "large_target_set") (codes "0.1") (
              lower_if (not valid) (codes "post_validation_failed") (codes "0.4")
                (conf.score, conf.factors)))) in
      clamp_confidence (record { score = scored.0; level = conf.level; factors = scored.1 })
