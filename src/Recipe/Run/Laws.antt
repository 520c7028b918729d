-- ===== src/Recipe/Run/Laws.antt =====
-- What the execution of a recipe of core/recipe.go promises.
use morfx.Base.{◌≡◌, refl, true, false, none, some, List, [], ◌∷◌, arith}
use morfx.Recipe.{
  Floats, FileTransformOp, Recipe, RecipeStep, RecipeResult, FileTransformResult, Answer, failed,
  returned, Execution, stopped, recipe_step_operation, recipe_step_threshold,
  require_recipe_confidence, validate_recipe,
}
use morfx.Recipe.Run.{
  StepOutcome, step_done, step_stopped, step_panic, apply_step, after_preflight, run_step,
  next_round, run_steps, start, add_step, execute_recipe,
}

module _ (F : Floats) {W E : Type 0} (transform_files : FileTransformOp → W → Answer F E × W) where
  -- A call with the dry run flag keeps `P`.
  abbrev pub DryKeeps : (W → Type 0) → Type 0
  DryKeeps P = (op : FileTransformOp) (w : W) → op.dry_run ≡ true → P w → P (transform_files op w).1

  -- An apply run of a step keeps `P` if it stands right behind a preflight of the step that returned
  -- a result with enough confidence.
  abbrev pub GatedKeeps : Recipe F → (W → Type 0) → Type 0
  GatedKeeps recipe P =
      (step : RecipeStep F) (preflight : FileTransformResult F) (w : W)
      → recipe.dry_run ≡ false
      → (transform_files (recipe_step_operation F step true) w).0 ≡ returned (some preflight)
      → require_recipe_confidence F preflight (recipe_step_threshold F recipe step) ≡ true
      → P w
      → P (transform_files (recipe_step_operation F step true) w).1
      → P
          (transform_files (recipe_step_operation F step false)
            (transform_files (recipe_step_operation F step true) w).1).1

  module _ (recipe : Recipe F) (P : W → Type 0) (dry_keeps : DryKeeps P)
      (gated_keeps : GatedKeeps recipe P) where
    apply_step-keeps :
        (step : RecipeStep F) (preflight : FileTransformResult F) (w : W)
        → (transform_files (recipe_step_operation F step true) w).0 ≡ returned (some preflight)
        → require_recipe_confidence F preflight (recipe_step_threshold F recipe step) ≡ true
        → P w
        → P (transform_files (recipe_step_operation F step true) w).1
        → P
            (apply_step F transform_files recipe step preflight
              (transform_files (recipe_step_operation F step true) w).1).1
    unfolding apply_step
    apply_step-keeps step preflight w e gate before h =
        let kept = gated_keeps step preflight w in ground arith

    after_preflight-keeps :
        (step : RecipeStep F) (answer : Answer F E) (w : W)
        → (transform_files (recipe_step_operation F step true) w).0 ≡ answer
        → P w
        → P (transform_files (recipe_step_operation F step true) w).1
        → P
            (after_preflight F transform_files recipe step answer
              (transform_files (recipe_step_operation F step true) w).1).1
    unfolding after_preflight
    after_preflight-keeps step (failed e) w h before p = p
    after_preflight-keeps step (returned none) w h before p = p
    after_preflight-keeps step (returned (some preflight)) w h before p =
        let kept = apply_step-keeps step preflight w h in ground arith

    run_step-keeps :
        (step : RecipeStep F) (w : W) → P w → P (run_step F transform_files recipe step w).1
    unfolding run_step recipe_step_operation
    run_step-keeps step w h =
        after_preflight-keeps step (transform_files (recipe_step_operation F step true) w).0 w refl
          h (dry_keeps (recipe_step_operation F step true) w refl h)

    next_round-keeps :
        (go : RecipeResult F → W → Execution F E × W)
        → ((total : RecipeResult F) (w : W) → P w → P (go total w).1)
        → (total : RecipeResult F) (outcome : StepOutcome F transform_files) (w : W) → P w
        → P (next_round F transform_files go total outcome w).1
    unfolding next_round
    next_round-keeps go ih total (step_done final step_result) w h =
        ih (add_step F transform_files total final step_result) w h
    next_round-keeps go ih total (step_stopped e) w h = h
    next_round-keeps go ih total step_panic w h = h

    run_steps-keeps :
        (steps : List (RecipeStep F)) (total : RecipeResult F) (w : W)
        → P w
        → P (run_steps F transform_files recipe steps total w).1
    unfolding run_steps
    run_steps-keeps [] total w h = h
    run_steps-keeps (step ∷ steps) total w h =
        next_round-keeps (run_steps F transform_files recipe steps) (run_steps-keeps steps) total
          (run_step F transform_files recipe step w).0 (run_step F transform_files recipe step w).1
          (run_step-keeps step w h)

    -- What every dry call keeps, and every apply call keeps that stands right behind a dry call of the
    -- same step that returned a result with enough confidence, the execution of a recipe keeps.
    pub execute_recipe-keeps : (w : W) → P w → P (execute_recipe F transform_files recipe w).1
    unfolding execute_recipe
    execute_recipe-keeps w h =
        elim (validate_recipe F {E = E} recipe)
          as (λ v.
            P
              (elim v as (λ x. Execution F E × W) [
                | some e ↦ (stopped e, w)
                | none ↦
                    run_steps F transform_files recipe recipe.steps (start F transform_files recipe)
                      w
              ]).1) [
                | some e ↦ h
                | none ↦ run_steps-keeps recipe.steps (start F transform_files recipe) w h
              ]

  -- A dry recipe makes dry calls only: what every dry call keeps, its execution keeps.
  pub execute_recipe-dry :
      (recipe : Recipe F) (P : W → Type 0)
      → recipe.dry_run ≡ true
      → DryKeeps P
      → (w : W) → P w
      → P (execute_recipe F transform_files recipe w).1
  execute_recipe-dry recipe P dry keeps =
      execute_recipe-keeps recipe P keeps
        (λ step preflight w wet looked gate before h. ground arith)
