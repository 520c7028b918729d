-- ===== src/Recipe.antt =====
-- core/recipe.go: named sequences of transformations, their data and validation.
pub mod Run
mod Samples
pub mod Valid
use morfx.Base.{
  ℕ, zero, suc, ◌+◌, ◌==◌, Bool, true, false, ◌&&◌, ◌||◌, not, Option, none, some, List, [], ◌∷◌,
  ◌++◌, if◌then◌else◌,
}
use morfx.Base.Bytes.{Bytes, codes, beq, is_empty, trim_space}
use morfx.Dsl.Query.{AgentQuery, agent_query}
use morfx.Dsl.Parser.{Result, ok, err, out_of_fuel, DslError, parse_dsl}

pub record FileScope : Type 0 where
  pub path : Bytes
  pub include : List Bytes
  pub exclude : List Bytes
  pub max_depth : ℕ
  pub max_files : ℕ
  pub follow_symlinks : Bool
  pub language : Bytes

-- float64: its order, and the constants that the program compares with.
pub record Floats : Type 1 where
  pub Float : Type 0
  pub lt : Float → Float → Bool
  pub float_zero : Float
  pub float_one : Float
  -- `DefaultRecipeMinConfidence`
  pub default_min_confidence : Float

-- `FileTransformOp`, with the fields of the embedded `TransformOp`
pub record FileTransformOp : Type 0 where
  pub method : Bytes
  pub target : AgentQuery
  pub content : Bytes
  pub replacement : Bytes
  pub scope : FileScope
  pub dry_run : Bool
  pub backup : Bool
  pub parallel : Bool

pub data StepError : Type 0 where
  step_name_required scope_path_required target_type_required : StepError
  replacement_required content_required min_confidence_out_of_range : StepError
  unsupported_method : Bytes → StepError
  target_dsl_invalid : DslError → StepError

-- The index of a step counts from 0. `E` is the type of the processor's errors.
pub data RecipeError (E : Type 0) : Type 0 where
  recipe_name_required no_steps : RecipeError E
  step_invalid : ℕ → StepError → RecipeError E
  preflight_failed apply_failed : Bytes → E → RecipeError E
  no_result confidence_too_low : Bytes → RecipeError E

abbrev blank : Bytes → Bool
blank s = is_empty (trim_space s)

unfoldable pub is_supported_recipe_method : Bytes → Bool
unfolding beq
is_supported_recipe_method method =
    beq method (codes "replace")
    || beq method (codes "delete")
    || beq method (codes "insert_before")
    || beq method (codes "insert_after")
    || beq method (codes "append")

abbrev kind_of : AgentQuery → Bytes
kind_of (agent_query kind _ _ _ _ _ _) = kind

module _ (F : Floats) where
  open F use {Float, lt, float_zero, float_one, default_min_confidence}

  pub record RecipeStep : Type 0 where
    pub name : Bytes
    pub method : Bytes
    pub scope : FileScope
    pub target : AgentQuery
    pub target_dsl : Bytes
    pub replacement : Bytes
    pub content : Bytes
    pub min_confidence : Float
    pub backup : Bool

  pub record Recipe : Type 0 where
    pub name : Bytes
    pub dry_run : Bool
    pub min_confidence : Float
    pub steps : List RecipeStep

  -- the fields of `FileTransformResult` that a recipe reads
  pub record FileTransformResult : Type 0 where
    pub files_scanned : ℕ
    pub files_modified : ℕ
    pub total_matches : ℕ
    pub confidence : Float
    pub transaction_id : Bytes

  pub record RecipeStepResult : Type 0 where
    pub name : Bytes
    pub method : Bytes
    pub dry_run : Bool
    pub min_confidence : Float
    pub result : FileTransformResult
    pub applied_result : Option FileTransformResult

  pub record RecipeResult : Type 0 where
    pub name : Bytes
    pub dry_run : Bool
    pub steps_run : ℕ
    pub files_scanned : ℕ
    pub files_modified : ℕ
    pub total_matches : ℕ
    pub transaction_ids : List Bytes
    pub steps : List RecipeStepResult

  -- the `switch` of `validateRecipeStep` on the method
  pub check_payload : RecipeStep → Option StepError
  check_payload step =
      if beq step.method (codes "replace")
      then (if blank step.replacement then some replacement_required else none)
      else if beq step.method (codes "insert_before")
          || beq step.method (codes "insert_after")
          || beq step.method (codes "append")
      then (if blank step.content then some content_required else none)
      else none

  pub check_confidence_range : RecipeStep → Option StepError
  check_confidence_range step =
      if lt step.min_confidence float_zero || lt float_one step.min_confidence
      then some min_confidence_out_of_range
      else none

  pub check_dsl : RecipeStep → Option StepError
  check_dsl step =
      if blank step.target_dsl
      then none
      else elim (parse_dsl step.target_dsl) [ err e ↦ some (target_dsl_invalid e) | _ ↦ none ]

  abbrev otherwise : Option StepError → Option StepError → Option StepError
  otherwise none next = next
  otherwise (some e) next = some e

  -- `validateRecipeStep`; `none` is the nil error.
  unfoldable pub validate_recipe_step : RecipeStep → Option StepError
  validate_recipe_step step =
      if blank step.name
      then some step_name_required
      else if not (is_supported_recipe_method step.method)
      then some (unsupported_method step.method)
      else if blank step.scope.path
      then some scope_path_required
      else if is_empty (kind_of step.target)
          && blank step.target_dsl
          && not (beq step.method (codes "append"))
      then some target_type_required
      else otherwise (check_dsl step) (otherwise (check_payload step) (check_confidence_range step))

  module _ {E : Type 0} where
    pub validate_steps : ℕ → List RecipeStep → Option (RecipeError E)
    validate_steps index [] = none
    validate_steps index (step ∷ steps) =
        let rest = validate_steps (index + 1) steps in
        elim (validate_recipe_step step) [ some e ↦ some (step_invalid index e) | none ↦ rest ]

    unfoldable pub validate_recipe : Recipe → Option (RecipeError E)
    unfolding validate_steps
    validate_recipe recipe =
        if blank recipe.name
        then some recipe_name_required
        else elim recipe.steps [ [] ↦ some no_steps | s ∷ ss ↦ validate_steps 0 (s ∷ ss) ]

  -- `recipeStepOperation`: a selector that does not parse leaves the target of the step.
  unfoldable pub recipe_step_operation : RecipeStep → Bool → FileTransformOp
  recipe_step_operation step dry = record {
    method = step.method;
    target =
        if blank step.target_dsl
        then step.target
        else elim (parse_dsl step.target_dsl) [ ok parsed ↦ parsed | _ ↦ step.target ];
    content = step.content;
    replacement = step.replacement;
    scope = step.scope;
    dry_run = dry;
    backup = step.backup;
    parallel = true;
  }

  unfoldable pub recipe_step_threshold : Recipe → RecipeStep → Float
  recipe_step_threshold recipe step =
      if lt float_zero step.min_confidence
      then step.min_confidence
      else if lt float_zero recipe.min_confidence
      then recipe.min_confidence
      else default_min_confidence

  -- `requireRecipeConfidence` on a result that is there
  unfoldable pub require_recipe_confidence : FileTransformResult → Float → Bool
  require_recipe_confidence result threshold =
      if result.files_modified == 0 && result.total_matches == 0
      then true
      else not (lt result.confidence threshold)

  -- What `TransformFiles` returns: an error, or a pointer to a result.
  pub data Answer (E : Type 0) : Type 0 where
    failed : E → Answer E
    returned : Option FileTransformResult → Answer E

  -- what a recipe returns
  pub data Execution (E : Type 0) : Type 0 where
    stopped : RecipeError E → Execution E
    finished : RecipeResult → Execution E
    -- A nil result of an apply run is dereferenced.
    panic : Execution E
