-- ===== src/Search/Confidence/Range.antt =====
-- The score of a transformation stays between 0 and 1, in providers/base/provider.go.
use morfx.Base.{ℕ, ◌≡◌, refl, Bool, false, List, if-split}
use morfx.Base.Bytes.{Bytes}
use morfx.Recipe.{Floats}
use morfx.Search.{Match}
use morfx.Search.Confidence.{
  Arithmetic, ConfidenceScore, confidence_level, clamp, calculate_confidence, clamp_confidence,
  adjust_confidence,
}

-- Not below 0 and not above 1, as the order of the floats tells it.
abbrev pub InRange : (F : Floats) → F.Float → Type 0
InRange F score = (F.lt score F.float_zero ≡ false) × (F.lt F.float_one score ≡ false)

-- What IEEE 754 says of the order of 0 and 1.
abbrev pub OrdersUnit : Floats → Type 0
OrdersUnit F = InRange F F.float_zero × InRange F F.float_one

module _ (F : Floats) (A : Arithmetic F) (orders : OrdersUnit F) where
  -- The level tells of the score, and the score is in range.
  abbrev pub IsSound : ConfidenceScore F → Type 0
  IsSound conf = InRange F conf.score × (conf.level ≡ confidence_level F A conf.score)

  clamp-InRange : (score : F.Float) → InRange F (clamp F A score)
  unfolding clamp
  clamp-InRange score =
      if-split (InRange F) (F.lt score F.float_zero) (λ below. orders.0)
        (λ above_zero.
          if-split (InRange F) (F.lt F.float_one score) (λ above. orders.1)
            (λ below_one. (above_zero, below_one)))

  pub calculate_confidence-IsSound :
      {L : Type 0}
      → (is_exported : Bytes → Bool) (method name : Bytes) (targets : List (Match L))
      → IsSound (calculate_confidence F A is_exported method name targets)
  unfolding calculate_confidence
  calculate_confidence-IsSound is_exported method name targets = (clamp-InRange _, refl)

  pub adjust_confidence-IsSound :
      (valid : Bool) (name : Bytes) (count : ℕ) (original modified : Bytes)
      (conf : ConfidenceScore F)
      → IsSound (adjust_confidence F A valid name count original modified conf)
  unfolding adjust_confidence clamp_confidence
  adjust_confidence-IsSound valid name count original modified conf = (clamp-InRange _, refl)
