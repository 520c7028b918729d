-- ===== src/Safety/Limits.antt =====
-- What `ValidateOperation` of mcp/safety.go accepts.
use morfx.Base.{
  ◌≡◌, ◌⊎◌, ◌↔◌, inl, inr, ℕ, ◌+◌, ◌^◌, ◌≤◌, ◌<◌, ltb, Bool, false, none, List, [], ◌∷◌, length,
  ◌&&◌, refl, ap, ◌∙◌, if-split, arith,
}
use morfx.Safety.{
  SafetyConfig, SafetyFile, SafetyOperation, SafetyError, file_too_large, ConfidenceMode, per_file,
  global, both, no_mode, add_int64, check_sizes, check_per_file, check_global, check_confidence,
  validate_operation,
}

-- A limit of 0 is no limit.
abbrev pub Within : ℕ → ℕ → Type 0
Within limit n = (limit ≡ 0) ⊎ (n ≤ limit)

module _ {Float : Type 0} where
  abbrev pub sum_sizes : List (SafetyFile Float) → ℕ
  sum_sizes [] = 0
  sum_sizes (file ∷ files) = file.size + sum_sizes files

  abbrev pub AllWithin : ℕ → List (SafetyFile Float) → Type 0
  AllWithin limit [] = Unit
  AllWithin limit (file ∷ files) = Within limit file.size × AllWithin limit files

module _ {Float : Type 0} (lt : Float → Float → Bool) where
  abbrev pub AllConfident : Float → List (SafetyFile Float) → Type 0
  AllConfident threshold [] = Unit
  AllConfident threshold (file ∷ files) =
      (lt file.confidence threshold ≡ false) × AllConfident threshold files

  abbrev pub Confident : ConfidenceMode → SafetyConfig Float → SafetyOperation Float → Type 0
  Confident per_file config op = AllConfident config.per_file_threshold op.files
  Confident global config op = lt op.global_confidence config.global_threshold ≡ false
  Confident both config op =
      AllConfident config.per_file_threshold op.files
      × (lt op.global_confidence config.global_threshold ≡ false)
  Confident no_mode config op = Unit

  check_per_file_iff :
      (threshold : Float) (files : List (SafetyFile Float))
      → (check_per_file lt threshold files ≡ none) ↔ AllConfident threshold files
  unfolding check_per_file
  check_per_file_iff threshold [] = (λ _. tt, λ _. refl)
  check_per_file_iff threshold (file ∷ files) =
      let (rest_to, rest_from) = check_per_file_iff threshold files in ground arith

  check_confidence_iff :
      (mode : ConfidenceMode) (config : SafetyConfig Float) (op : SafetyOperation Float)
      → (check_confidence lt mode config op ≡ none) ↔ Confident mode config op
  unfolding check_confidence check_global
  check_confidence_iff per_file config op = check_per_file_iff config.per_file_threshold op.files
  check_confidence_iff global config op = ground arith
  check_confidence_iff both config op =
      let (to, from) = check_per_file_iff config.per_file_threshold op.files in ground arith
  check_confidence_iff no_mode config op = (λ _. tt, λ _. refl)

  add_int64-small : (a b : ℕ) → a + b < 2 ^ 63 → add_int64 a b ≡ a + b
  add_int64-small a b h = omega arith

  -- Without an overflow the loop returns the sum of the sizes, unless a file is too large.
  check_sizes-cases :
      (limit total : ℕ) (files : List (SafetyFile Float))
      → total + sum_sizes files < 2 ^ 63
      → ((check_sizes lt limit total files ≡ inr (total + sum_sizes files)) × AllWithin limit files)
        ⊎ ((e : SafetyError) × (check_sizes lt limit total files ≡ inl e)
            × ¬ (AllWithin limit files))
  unfolding check_sizes
  check_sizes-cases limit total [] small = inl (ground arith, tt)
  check_sizes-cases limit total (file ∷ files) small =
      let sum = add_int64-small total file.size (omega arith) in
      let rest = check_sizes-cases limit (total + file.size) files (omega arith) in
      let moved = ap (λ n. check_sizes lt limit n files) sum in
      if-split
        (λ (o : SafetyError ⊎ ℕ).
          ((o ≡ inr (total + (file.size + sum_sizes files)))
            × (Within limit file.size × AllWithin limit files))
          ⊎ ((e : SafetyError) × (o ≡ inl e) × ¬ (Within limit file.size × AllWithin limit files)))
        (ltb 0 limit && ltb limit file.size)
        (λ big. inr (file_too_large file.path, refl, λ all. ground arith))
        (λ fits. elim rest [
          | inl (e, all) ↦ inl (moved ∙ e ∙ ap inr (omega arith), (ground arith, all))
          | inr (x, e, not_all) ↦ inr (x, moved ∙ e, λ all. not_all all.1)
        ])

  -- Where the sizes add up to less than 2 ^ 63, an operation passes exactly when its files are within
  -- the limits on their number, on each size and on the sum of the sizes, and the confidences that
  -- the mode asks for are not below their thresholds.
  pub validate_operation_iff :
      (config : SafetyConfig Float) (op : SafetyOperation Float)
      → sum_sizes op.files < 2 ^ 63
      → (validate_operation lt config op ≡ none) ↔ (
          Within config.max_files (length op.files)
          × AllWithin config.max_file_size op.files
          × Within config.max_total_size (sum_sizes op.files)
          × Confident config.confidence_mode config op)
  unfolding validate_operation
  validate_operation_iff config op small =
      let (to, from) = check_confidence_iff config.confidence_mode config op in
      elim (check_sizes-cases config.max_file_size 0 op.files (omega arith)) [
        | inl (e, all) ↦ rw (e, validate_operation) (ground arith)
        | inr (x, e, not_all) ↦ rw (e, validate_operation) (ground arith)
      ]
