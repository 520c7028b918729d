-- ===== src/Files/Processor/Overall.antt =====
-- The details of transformed files and `calculateOverallConfidence` of core/fileprocessor.go.
use morfx.Base.{
  ℕ, ◌+◌, ltb, ◌==◌, Bool, true, false, ◌||◌, Option, none, some, List, [], ◌∷◌, ◌++◌,
  if◌then◌else◌,
}
use morfx.Base.Bytes.{Bytes, codes}
use morfx.Recipe.{Floats}
use morfx.Search.Confidence.{Arithmetic, ConfidenceFactor, ConfidenceScore, clamp}
use morfx.Files.Transaction.{TransactionError}

-- The errors of a file; the error of a failed record of a failed write is left out.
pub data DetailError : Type 0 where
  no_provider : Bytes → DetailError
  failed_to_read transformation_failed refused_by_safety not_backed_up failed_to_write : DetailError
  not_registered not_completed : TransactionError → DetailError

-- `FileTransformDetail`, less its diff and its sizes; no confidence is the zero value.
pub record Detail (F : Floats) : Type 0 where
  pub file_path : Bytes
  pub match_count : ℕ
  pub modified : Bool
  pub backup_path : Bytes
  pub confidence : Option (ConfidenceScore F)
  pub error : Option DetailError

module _ (F : Floats) where
  abbrev pub new_detail : Bytes → Detail F
  new_detail path = record {
    file_path = path;
    match_count = 0;
    modified = false;
    backup_path = [];
    confidence = none;
    error = none;
  }

  abbrev failed_with : Option DetailError → Bool
  failed_with none = false
  failed_with (some e) = true

  abbrev pub has_failed : Detail F → Bool
  has_failed d = failed_with d.error

  abbrev score_of : Option (ConfidenceScore F) → F.Float
  score_of none = F.float_zero
  score_of (some c) = c.score

  module _ (A : Arithmetic F) where
    -- The sum of the scores, their number, and whether there are errors or scores below 0.7.
    record Sums : Type 0 where
      total : F.Float
      files : ℕ
      has_errors : Bool
      has_low : Bool

    add_detail : Sums → Detail F → Sums
    add_detail sums d =
        if has_failed d
        then record sums { has_errors = true }
        else if d.modified
        then record {
          total = A.add sums.total (score_of d.confidence);
          files = sums.files + 1;
          has_errors = sums.has_errors;
          has_low = sums.has_low || F.lt (score_of d.confidence) (A.constant (codes "0.7"));
        }
        else sums

    add_details : Sums → List (Detail F) → Sums
    unfolding add_detail
    add_details sums [] = sums
    add_details sums (d ∷ ds) = add_details (add_detail sums d) ds

    abbrev lowered :
        Bool
        → Bytes
        → Bytes
        → F.Float × List (ConfidenceFactor F)
        → F.Float × List (ConfidenceFactor F)
    lowered test name amount (score, factors) =
        if test
        then (
          A.sub score (A.constant amount),
          factors ++ (record { name = name; impact = A.constant (codes "-" ++ amount) }) ∷ [],
        )
        else (score, factors)

    level_of : F.Float → Bytes
    level_of score =
        if F.lt score (A.constant (codes "0.5"))
        then codes "low"
        else if F.lt score (A.constant (codes "0.8"))
        then codes "medium"
        else codes "high"

    average : Sums → ConfidenceScore F
    unfolding level_of clamp
    average sums =
        let (score, factors) = lowered (ltb 10 sums.files) (codes "batch_operation") (codes "0.1") (
          lowered sums.has_low (codes "low_confidence_files") (codes "0.1") (
            lowered sums.has_errors (codes "file_errors") (codes "0.2")
              (A.div sums.total (A.of_nat sums.files), []))) in
        record { score = clamp F A score; level = level_of (clamp F A score); factors = factors }

    abbrev no_confidence : ConfidenceScore F
    no_confidence = record { score = F.float_zero; level = codes "low"; factors = [] }

    unfoldable pub overall_confidence : List (Detail F) → ConfidenceScore F
    unfolding add_details average
    overall_confidence details =
        let sums =
          add_details
            (record { total = F.float_zero; files = 0; has_errors = false; has_low = false })
            details in
        if sums.files == 0 then no_confidence else average sums
