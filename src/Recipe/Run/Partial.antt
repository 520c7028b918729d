-- ===== src/Recipe/Run/Partial.antt =====
-- A recipe of core/recipe.go that stops behind a step that it has applied.
use morfx.Base.{◌≡◌, ap, ◌∙◌, true, false, none, some, List, [], ◌∷◌, ◌++◌}
use morfx.Recipe.{
  Floats, FileTransformOp, Recipe, RecipeStep, RecipeResult, FileTransformResult, Answer, failed,
  returned, stopped, preflight_failed, recipe_step_operation, recipe_step_threshold,
  require_recipe_confidence, validate_recipe,
}
use morfx.Recipe.Run.{
  step_done, step_stopped, apply_step, after_preflight, finish_apply, run_step, next_round,
  run_steps, start, add_step, step_result_of, execute_recipe,
}

module _ (F : Floats) {W E : Type 0} (transform_files : FileTransformOp → W → Answer F E × W) where
  -- The preflight of the step at `w` returns `preflight` with enough confidence, its apply run
  -- returns `applied`, and `w'` is left.
  pub record Applies (recipe : Recipe F) (step : RecipeStep F)
      (preflight applied : FileTransformResult F) (w w1 w' : W) : Type 0 where
    pub looked :
        transform_files (recipe_step_operation F step true) w ≡ (returned (some preflight), w1)
    pub confident :
        require_recipe_confidence F preflight (recipe_step_threshold F recipe step) ≡ true
    pub changed :
        transform_files (recipe_step_operation F step false) w1 ≡ (returned (some applied), w')

  run_step-Applies :
      (recipe : Recipe F) (step : RecipeStep F) (preflight applied : FileTransformResult F)
      (w w1 w' : W)
      → recipe.dry_run ≡ false
      → Applies recipe step preflight applied w w1 w'
      → run_step F transform_files recipe step w ≡ (
        step_done applied (step_result_of F transform_files recipe step preflight (some applied)),
        w',
      )
  unfolding run_step after_preflight apply_step finish_apply
  run_step-Applies recipe step preflight applied w w1 w' wet h =
      rw (h.looked, h.confident, wet, h.changed)

  run_step-fails :
      (recipe : Recipe F) (step : RecipeStep F) (e : E) (w w' : W)
      → transform_files (recipe_step_operation F step true) w ≡ (failed e, w')
      → run_step F transform_files recipe step w ≡ (step_stopped (preflight_failed step.name e), w')
  unfolding run_step after_preflight
  run_step-fails recipe step e w w' h = rw (h)

  -- The steps all apply, and lead from one state to the other.
  pub data AppliesAll (recipe : Recipe F) : List (RecipeStep F) → W → W → Type 0 where
    all_applied : {w : W} → AppliesAll recipe [] w w
    applies :
        {step : RecipeStep F} {steps : List (RecipeStep F)}
        {preflight applied : FileTransformResult F} {w w1 w2 w3 : W}
        → Applies recipe step preflight applied w w1 w2
        → AppliesAll recipe steps w2 w3
        → AppliesAll recipe (step ∷ steps) w w3

  run_steps-AppliesAll :
      (recipe : Recipe F) (before : List (RecipeStep F)) (step : RecipeStep F)
      (after : List (RecipeStep F)) (e : E) (w w1 w2 : W) (total : RecipeResult F)
      → recipe.dry_run ≡ false
      → AppliesAll recipe before w w1
      → transform_files (recipe_step_operation F step true) w1 ≡ (failed e, w2)
      → run_steps F transform_files recipe (before ++ step ∷ after) total w
        ≡ (stopped (preflight_failed step.name e), w2)
  unfolding run_steps next_round
  run_steps-AppliesAll recipe [] step after e w w1 w2 total wet all_applied h =
      rw (run_step-fails recipe step e w w2 h)
  run_steps-AppliesAll recipe (x ∷ before) step after e w w1 w2 total wet
        (applies {preflight = p} {applied = a} {w1 = v1} {w2 = v2} one rest) h =
      rw (run_step-Applies recipe x p a w v1 v2 wet one) (
        run_steps-AppliesAll recipe before step after e v2 w1 w2
          (add_step F transform_files total a
            (step_result_of F transform_files recipe x p (some a)))
          wet rest h)

  -- A valid recipe that is not dry and whose step `step` fails in its preflight ends with that error
  -- and with the changes of all steps before it, which stay applied.
  pub execute_recipe-partial :
      (recipe : Recipe F) (before : List (RecipeStep F)) (step : RecipeStep F)
      (after : List (RecipeStep F)) (e : E) (w w1 w2 : W)
      → validate_recipe F {E = E} recipe ≡ none
      → recipe.dry_run ≡ false
      → recipe.steps ≡ before ++ step ∷ after
      → AppliesAll recipe before w w1
      → transform_files (recipe_step_operation F step true) w1 ≡ (failed e, w2)
      → execute_recipe F transform_files recipe w ≡ (stopped (preflight_failed step.name e), w2)
  unfolding execute_recipe
  execute_recipe-partial recipe before step after e w w1 w2 valid wet steps all h =
      rw (valid, execute_recipe)
        (ap (λ l. run_steps F transform_files recipe l (start F transform_files recipe) w) steps
          ∙ run_steps-AppliesAll recipe before step after e w w1 w2 (start F transform_files recipe)
              wet all h)
