-- ===== src/Recipe/Run/Totals.antt =====
-- What a finished recipe of core/recipe.go reports.
use morfx.Base.{
  ℕ, ◌+◌, ◌≡◌, refl, ◌∙◌, sym, true, false, none, some, List, [], ◌∷◌, ◌++◌, length, length-append,
  if-both, subst, append_assoc, append-nil, arith,
}
use morfx.Base.Bytes.{Bytes}
use morfx.Recipe.{
  Floats, FileTransformOp, Recipe, RecipeStep, RecipeStepResult, RecipeResult, FileTransformResult,
  Answer, failed, returned, Execution, stopped, finished, panic, recipe_step_operation,
  recipe_step_threshold, require_recipe_confidence, validate_recipe,
}
use morfx.Recipe.Run.{
  StepOutcome, step_done, step_stopped, step_panic, apply_step, after_preflight, finish_apply,
  run_step, next_round, run_steps, start, add_step, step_result_of, execute_recipe,
}

module _ (F : Floats) where
  -- the result that counts: of the apply run, or of the preflight of a dry run
  abbrev pub final_of : RecipeStepResult F → FileTransformResult F
  final_of r = elim r.applied_result [ none ↦ r.result | some applied ↦ applied ]

  abbrev pub sum_over : (FileTransformResult F → ℕ) → List (RecipeStepResult F) → ℕ
  sum_over count [] = 0
  sum_over count (r ∷ rs) = count (final_of r) + sum_over count rs

  sum_over-append :
      (count : FileTransformResult F → ℕ) (rs : List (RecipeStepResult F)) (r : RecipeStepResult F)
      → sum_over count (rs ++ r ∷ []) ≡ sum_over count rs + count (final_of r)
  sum_over-append count [] r = omega arith
  sum_over-append count (x ∷ rs) r = omega (arith, sum_over-append count rs r)

  -- one more step in the sum
  sum_over-step :
      (count : FileTransformResult F → ℕ) (rs : List (RecipeStepResult F)) (r : RecipeStepResult F)
      {n : ℕ} {final : FileTransformResult F}
      → n ≡ sum_over count rs
      → final_of r ≡ final
      → n + count final ≡ sum_over count (rs ++ r ∷ [])
  sum_over-step count rs r h e = cc (sum_over-append count rs r)

  abbrev pub step_names : List (RecipeStep F) → List Bytes
  step_names [] = []
  step_names (s ∷ ss) = s.name ∷ step_names ss

  abbrev pub result_names : List (RecipeStepResult F) → List Bytes
  result_names [] = []
  result_names (r ∷ rs) = r.name ∷ result_names rs

  result_names-append :
      (rs : List (RecipeStepResult F)) (r : RecipeStepResult F)
      → result_names (rs ++ r ∷ []) ≡ result_names rs ++ r.name ∷ []
  result_names-append [] r = refl
  result_names-append (x ∷ rs) r = rw (result_names-append rs r)

  -- The counts of a result are those of its steps.
  pub record Tallied (total : RecipeResult F) : Type 0 where
    pub runs : total.steps_run ≡ length total.steps
    pub scanned : total.files_scanned ≡ sum_over (λ r. r.files_scanned) total.steps
    pub modified : total.files_modified ≡ sum_over (λ r. r.files_modified) total.steps
    pub matches : total.total_matches ≡ sum_over (λ r. r.total_matches) total.steps

  -- the result of the rounds before the steps `rest`, where all steps have the names `names`
  record Progress (names : List Bytes) (rest : List (RecipeStep F)) (total : RecipeResult F)
      : Type 0 where
    tallied : Tallied total
    named : result_names total.steps ++ step_names rest ≡ names

  module _ {W E : Type 0} (transform_files : FileTransformOp → W → Answer F E × W) where
    -- A step that is done reports under its own name the result that counts.
    abbrev Honest : RecipeStep F → StepOutcome F transform_files → Type 0
    Honest step (step_done final r) = (final_of r ≡ final) × (r.name ≡ step.name)
    Honest step (step_stopped e) = Unit
    Honest step step_panic = Unit

    finish_apply-Honest :
        (recipe : Recipe F) (step : RecipeStep F) (preflight : FileTransformResult F)
        (answer : Answer F E)
        → Honest step (finish_apply F transform_files recipe step preflight answer)
    unfolding finish_apply step_result_of
    finish_apply-Honest recipe step preflight (failed e) = tt
    finish_apply-Honest recipe step preflight (returned none) = tt
    finish_apply-Honest recipe step preflight (returned (some applied)) = (refl, refl)

    apply_step-Honest :
        (recipe : Recipe F) (step : RecipeStep F) (preflight : FileTransformResult F) (w : W)
        → Honest step (apply_step F transform_files recipe step preflight w).0
    unfolding apply_step step_result_of
    apply_step-Honest recipe step preflight w =
        if-both (λ (o : StepOutcome F transform_files × W). Honest step o.0) recipe.dry_run
          (refl, refl)
          (finish_apply-Honest recipe step preflight
            (transform_files (recipe_step_operation F step false) w).0)

    after_preflight-Honest :
        (recipe : Recipe F) (step : RecipeStep F) (answer : Answer F E) (w : W)
        → Honest step (after_preflight F transform_files recipe step answer w).0
    unfolding after_preflight
    after_preflight-Honest recipe step (failed e) w = tt
    after_preflight-Honest recipe step (returned none) w = tt
    after_preflight-Honest recipe step (returned (some preflight)) w =
        if-both (λ (o : StepOutcome F transform_files × W). Honest step o.0)
          (require_recipe_confidence F preflight (recipe_step_threshold F recipe step))
          (apply_step-Honest recipe step preflight w) tt

    add_step-Progress :
        (names : List Bytes) (step : RecipeStep F) (rest : List (RecipeStep F))
        (total : RecipeResult F) (final : FileTransformResult F) (r : RecipeStepResult F)
        → Progress names (step ∷ rest) total
        → Honest step (step_done final r)
        → Progress names rest (add_step F transform_files total final r)
    unfolding add_step
    add_step-Progress names step rest total final r p (e, n) = record {
      tallied = record {
        runs = rw (p.tallied.runs, length-append total.steps (r ∷ []));
        scanned = sum_over-step (λ x. x.files_scanned) total.steps r p.tallied.scanned e;
        modified = sum_over-step (λ x. x.files_modified) total.steps r p.tallied.modified e;
        matches = sum_over-step (λ x. x.total_matches) total.steps r p.tallied.matches e;
      };
      named =
          rw
            (
              result_names-append total.steps r,
              n,
              append_assoc (result_names total.steps) (step.name ∷ []) (step_names rest),
            )
            p.named;
    }

    abbrev Reported : (RecipeResult F → Type 0) → Execution F E → Type 0
    Reported Q (finished r) = Q r
    Reported Q (stopped e) = Unit
    Reported Q panic = Unit

    next_round-Progress :
        (names : List Bytes) (step : RecipeStep F) (rest : List (RecipeStep F))
        (go : RecipeResult F → W → Execution F E × W)
        → ((total : RecipeResult F) (w : W)
            → Progress names rest total
            → Reported (Progress names []) (go total w).0)
        → (total : RecipeResult F) (outcome : StepOutcome F transform_files) (w : W)
        → Progress names (step ∷ rest) total
        → Honest step outcome
        → Reported (Progress names []) (next_round F transform_files go total outcome w).0
    unfolding next_round
    next_round-Progress names step rest go ih total (step_done final r) w p h =
        ih (add_step F transform_files total final r) w
          (add_step-Progress names step rest total final r p h)
    next_round-Progress names step rest go ih total (step_stopped e) w p h = tt
    next_round-Progress names step rest go ih total step_panic w p h = tt

    run_steps-Progress :
        (recipe : Recipe F) (names : List Bytes) (steps : List (RecipeStep F))
        (total : RecipeResult F) (w : W)
        → Progress names steps total
        → Reported (Progress names []) (run_steps F transform_files recipe steps total w).0
    unfolding run_steps run_step
    run_steps-Progress recipe names [] total w p = p
    run_steps-Progress recipe names (step ∷ steps) total w p =
        next_round-Progress names step steps (run_steps F transform_files recipe steps)
          (run_steps-Progress recipe names steps) total (run_step F transform_files recipe step w).0
          (run_step F transform_files recipe step w).1 p
          (after_preflight-Honest recipe step
            (transform_files (recipe_step_operation F step true) w).0
            (transform_files (recipe_step_operation F step true) w).1)

    start-Progress :
        (recipe : Recipe F)
        → Progress (step_names recipe.steps) recipe.steps (start F transform_files recipe)
    unfolding start
    start-Progress recipe = record {
      tallied = record { runs = refl; scanned = refl; modified = refl; matches = refl };
      named = refl;
    }

    execute_recipe-Progress :
        (recipe : Recipe F) (w : W)
        → Reported
            (Progress (step_names recipe.steps) [])
            (execute_recipe F transform_files recipe w).0
    unfolding execute_recipe
    execute_recipe-Progress recipe w =
        elim (validate_recipe F {E = E} recipe)
          as (λ v.
            Reported (Progress (step_names recipe.steps) [])
              (elim v as (λ x. Execution F E × W) [
                | some e ↦ (stopped e, w)
                | none ↦
                    run_steps F transform_files recipe recipe.steps (start F transform_files recipe)
                      w
              ]).0) [
                | some e ↦ tt
                | none ↦
                    run_steps-Progress recipe (step_names recipe.steps) recipe.steps
                      (start F transform_files recipe) w (start-Progress recipe)
              ]

    -- A recipe that finishes reports a result for each of its steps, in order, and its counts are
    -- those of these results.
    pub execute_recipe-finished :
        (recipe : Recipe F) (w : W) (total : RecipeResult F)
        → (execute_recipe F transform_files recipe w).0 ≡ finished total
        → Tallied total × (result_names total.steps ≡ step_names recipe.steps)
    execute_recipe-finished recipe w total e =
        let p =
          subst (Reported (Progress (step_names recipe.steps) [])) e
            (execute_recipe-Progress recipe w) in
        (p.tallied, sym (append-nil (result_names total.steps)) ∙ p.named)
