-- ===== src/Recipe/Run.antt =====
-- `ExecuteRecipe` of core/recipe.go, round by round.
pub mod Laws
pub mod Partial
pub mod Totals
use morfx.Base.{ℕ, ◌+◌, Bool, true, false, Option, none, some, List, [], ◌∷◌, ◌++◌, if◌then◌else◌}
use morfx.Base.Bytes.{Bytes, is_empty}
use morfx.Recipe.{
  Floats, FileTransformOp, Recipe, RecipeStep, RecipeStepResult, RecipeResult, FileTransformResult,
  RecipeError, preflight_failed, apply_failed, no_result, confidence_too_low, Answer, failed,
  returned, Execution, stopped, finished, panic, recipe_step_operation, recipe_step_threshold,
  require_recipe_confidence, validate_recipe,
}

-- `W` is what the processor changes, and `transform_files` its method.
module _ (F : Floats) {W E : Type 0} (transform_files : FileTransformOp → W → Answer F E × W) where
  pub start : Recipe F → RecipeResult F
  start recipe = record {
    name = recipe.name;
    dry_run = recipe.dry_run;
    steps_run = 0;
    files_scanned = 0;
    files_modified = 0;
    total_matches = 0;
    transaction_ids = [];
    steps = [];
  }

  pub add_step : RecipeResult F → FileTransformResult F → RecipeStepResult F → RecipeResult F
  add_step total final step_result = record total {
    steps_run = total.steps_run + 1;
    files_scanned = total.files_scanned + final.files_scanned;
    files_modified = total.files_modified + final.files_modified;
    total_matches = total.total_matches + final.total_matches;
    transaction_ids =
        if is_empty final.transaction_id
        then total.transaction_ids
        else total.transaction_ids ++ final.transaction_id ∷ [];
    steps = total.steps ++ step_result ∷ [];
  }

  -- the result of a step whose preflight passed
  pub step_result_of :
      Recipe F
      → RecipeStep F
      → FileTransformResult F
      → Option (FileTransformResult F)
      → RecipeStepResult F
  step_result_of recipe step preflight applied = record {
    name = step.name;
    method = step.method;
    dry_run = recipe.dry_run;
    min_confidence = recipe_step_threshold F recipe step;
    result = preflight;
    applied_result = applied;
  }

  -- what one round of the loop ends with
  pub data StepOutcome : Type 0 where
    step_done : FileTransformResult F → RecipeStepResult F → StepOutcome
    step_stopped : RecipeError E → StepOutcome
    step_panic : StepOutcome

  pub finish_apply : Recipe F → RecipeStep F → FileTransformResult F → Answer F E → StepOutcome
  finish_apply recipe step preflight (failed e) = step_stopped (apply_failed step.name e)
  finish_apply recipe step preflight (returned none) = step_panic
  finish_apply recipe step preflight (returned (some applied)) =
      step_done applied (step_result_of recipe step preflight (some applied))

  pub apply_step : Recipe F → RecipeStep F → FileTransformResult F → W → StepOutcome × W
  apply_step recipe step preflight w =
      if recipe.dry_run
      then (step_done preflight (step_result_of recipe step preflight none), w)
      else (let (answer, w') = transform_files (recipe_step_operation F step false) w in
          (finish_apply recipe step preflight answer, w'))

  pub after_preflight : Recipe F → RecipeStep F → Answer F E → W → StepOutcome × W
  after_preflight recipe step (failed e) w = (step_stopped (preflight_failed step.name e), w)
  after_preflight recipe step (returned none) w = (step_stopped (no_result step.name), w)
  after_preflight recipe step (returned (some preflight)) w =
      if require_recipe_confidence F preflight (recipe_step_threshold F recipe step)
      then apply_step recipe step preflight w
      else (step_stopped (confidence_too_low step.name), w)

  -- one round of the loop of `ExecuteRecipe`
  pub run_step : Recipe F → RecipeStep F → W → StepOutcome × W
  run_step recipe step w =
      let (answer, w') = transform_files (recipe_step_operation F step true) w in
      after_preflight recipe step answer w'

  -- the end of a round: the next rounds, `go`, follow a step that is done
  pub next_round :
      (RecipeResult F → W → Execution F E × W)
      → RecipeResult F
      → StepOutcome
      → W
      → Execution F E × W
  next_round go total (step_done final step_result) w = go (add_step total final step_result) w
  next_round go total (step_stopped e) w = (stopped e, w)
  next_round go total step_panic w = (panic, w)

  pub run_steps : Recipe F → List (RecipeStep F) → RecipeResult F → W → Execution F E × W
  run_steps recipe [] total w = (finished total, w)
  run_steps recipe (step ∷ steps) total w =
      let (outcome, w') = run_step recipe step w in
      next_round (run_steps recipe steps) total outcome w'

  unfoldable pub execute_recipe : Recipe F → W → Execution F E × W
  unfolding next_round run_steps run_step after_preflight apply_step finish_apply start add_step
      step_result_of
  execute_recipe recipe w = elim (validate_recipe F recipe) [
    | some e ↦ (stopped e, w)
    | none ↦ run_steps recipe recipe.steps (start recipe) w
  ]
