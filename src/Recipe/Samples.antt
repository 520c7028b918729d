-- ===== src/Recipe/Samples.antt =====
-- Tests of recipes, and their theorems at concrete inputs.
use morfx.Base.{
  ℕ, suc, ◌≤◌, ◌≡◌, ◌≢◌, ◌↔◌, refl, Bool, true, false, none, some, List, [], ◌∷◌, if◌then◌else◌,
  ltb, arith,
}
use morfx.Base.Bytes.{Bytes, codes, beq, is_empty, trim_space}
use morfx.Dsl.Query.{agent_query, no_child, nil}
use morfx.Dsl.Parser.{parse_dsl}
use morfx.Recipe.{
  Floats, FileScope, FileTransformOp, Recipe, RecipeStep, FileTransformResult, RecipeResult,
  RecipeStepResult, preflight_failed, Answer, failed, returned, stopped, finished,
  recipe_step_operation, validate_recipe, blank, validate_recipe_step, is_supported_recipe_method,
  check_dsl, check_payload, check_confidence_range, require_recipe_confidence,
  recipe_step_threshold,
}
use morfx.Recipe.Run.{execute_recipe}
use morfx.Recipe.Run.Laws.{execute_recipe-keeps, execute_recipe-dry}
use morfx.Recipe.Run.Partial.{AppliesAll, all_applied, applies, execute_recipe-partial}
use morfx.Recipe.Run.Totals.{execute_recipe-finished, Tallied, step_names, result_names}
use morfx.Recipe.Valid.{AllValid, validate_recipe_iff}

-- confidences in hundredths
abbrev hundredths : Floats
hundredths = record {
  Float = ℕ;
  lt = ltb;
  float_zero = 0;
  float_one = 100;
  default_min_confidence = 85;
}

abbrev src_scope : FileScope
src_scope = record {
  path = codes "src";
  include = [];
  exclude = [];
  max_depth = 0;
  max_files = 0;
  follow_symlinks = false;
  language = codes "go";
}

abbrev step_with : Bytes → Bytes → RecipeStep hundredths
step_with name text = record {
  name = name;
  method = codes "append";
  scope = src_scope;
  target = agent_query [] [] no_child false [] nil [];
  target_dsl = codes "func:a";
  replacement = [];
  content = text;
  min_confidence = 0;
  backup = false;
}

abbrev good_step : RecipeStep hundredths
good_step = step_with (codes "one") (codes "x")

abbrev bad_step : RecipeStep hundredths
bad_step = step_with (codes "two") (codes "bad")

abbrev recipe_of : Bool → List (RecipeStep hundredths) → Recipe hundredths
recipe_of dry steps = record { name = codes "r"; dry_run = dry; min_confidence = 0; steps = steps }

-- how many calls there were
record Calls : Type 0 where
  previews : ℕ
  applied : ℕ

abbrev one_file : FileTransformResult hundredths
one_file = record {
  files_scanned = 3;
  files_modified = 1;
  total_matches = 2;
  confidence = 90;
  transaction_id = codes "t";
}

-- A processor that counts its calls, and refuses the content "bad".
abbrev counting : FileTransformOp → Calls → Answer hundredths Bytes × Calls
counting op calls = (
  if beq op.content (codes "bad") then failed (codes "refused") else returned (some one_file),
  if op.dry_run
      then record { previews = suc calls.previews; applied = calls.applied }
      else record { previews = calls.previews; applied = suc calls.applied },
)

abbrev no_calls : Calls
no_calls = record { previews = 0; applied = 0 }

two_steps_counted :
    (execute_recipe hundredths counting (recipe_of false (good_step ∷ good_step ∷ [])) no_calls).1
    ≡ record { previews = 2; applied = 2 }
unfolding execute_recipe validate_recipe is_empty trim_space validate_recipe_step
    is_supported_recipe_method check_dsl parse_dsl check_payload check_confidence_range
    recipe_step_operation require_recipe_confidence recipe_step_threshold
two_steps_counted = refl

counting_dry :
    (op : FileTransformOp) (w : Calls)
    → op.dry_run ≡ true
    → w.applied ≤ w.previews
    → (counting op w).1.applied ≤ (counting op w).1.previews
counting_dry op w dry h = ground arith

counting_gated :
    (step : RecipeStep hundredths) (w : Calls)
    → w.applied ≤ w.previews
    → (counting
        (recipe_step_operation hundredths step false)
        (counting (recipe_step_operation hundredths step true) w).1).1.applied
      ≤ (counting
          (recipe_step_operation hundredths step false)
          (counting (recipe_step_operation hundredths step true) w).1).1.previews
unfolding recipe_step_operation
counting_gated step w h = omega arith

-- No step is applied more often than it is previewed.
execute_recipe-keeps_example :
    (execute_recipe hundredths counting
      (recipe_of false (good_step ∷ bad_step ∷ []))
      no_calls).1.applied
    ≤ (execute_recipe hundredths counting
        (recipe_of false (good_step ∷ bad_step ∷ []))
        no_calls).1.previews
execute_recipe-keeps_example =
    execute_recipe-keeps hundredths counting (recipe_of false (good_step ∷ bad_step ∷ []))
      (λ calls. calls.applied ≤ calls.previews) counting_dry
      (λ step preflight w wet looked gate before h. counting_gated step w before) no_calls
      (omega arith)

none_applied :
    (op : FileTransformOp) (w : Calls)
    → op.dry_run ≡ true
    → w.applied ≡ 0
    → (counting op w).1.applied ≡ 0
none_applied op w dry h = ground arith

execute_recipe-dry_example :
    (execute_recipe hundredths counting
      (recipe_of true (good_step ∷ good_step ∷ []))
      no_calls).1.applied
    ≡ 0
execute_recipe-dry_example =
    execute_recipe-dry hundredths counting (recipe_of true (good_step ∷ good_step ∷ []))
      (λ calls. calls.applied ≡ 0) refl none_applied no_calls refl

abbrev step_report : RecipeStepResult hundredths
step_report = record {
  name = codes "one";
  method = codes "append";
  dry_run = false;
  min_confidence = 85;
  result = one_file;
  applied_result = some one_file;
}

abbrev report_of_two : RecipeResult hundredths
report_of_two = record {
  name = codes "r";
  dry_run = false;
  steps_run = 2;
  files_scanned = 6;
  files_modified = 2;
  total_matches = 4;
  transaction_ids = codes "t" ∷ codes "t" ∷ [];
  steps = step_report ∷ step_report ∷ [];
}

two_steps_report :
    (execute_recipe hundredths counting (recipe_of false (good_step ∷ good_step ∷ [])) no_calls).0
    ≡ finished report_of_two
unfolding execute_recipe validate_recipe is_empty trim_space validate_recipe_step
    is_supported_recipe_method check_dsl parse_dsl check_payload check_confidence_range
    recipe_step_operation require_recipe_confidence recipe_step_threshold
two_steps_report = refl

execute_recipe-finished_example :
    Tallied hundredths report_of_two
    × (result_names hundredths (step_report ∷ step_report ∷ [])
        ≡ step_names hundredths (good_step ∷ good_step ∷ []))
execute_recipe-finished_example =
    execute_recipe-finished hundredths counting (recipe_of false (good_step ∷ good_step ∷ []))
      no_calls report_of_two two_steps_report

good_then_bad_valid :
    validate_recipe hundredths {E = Bytes} (recipe_of false (good_step ∷ bad_step ∷ [])) ≡ none
unfolding validate_recipe is_empty trim_space validate_recipe_step is_supported_recipe_method
    check_dsl parse_dsl check_payload check_confidence_range
good_then_bad_valid = refl

good_step_applies :
    AppliesAll hundredths counting
      (recipe_of false (good_step ∷ bad_step ∷ []))
      (good_step ∷ [])
      no_calls
      (record { previews = 1; applied = 1 })
unfolding recipe_step_operation require_recipe_confidence recipe_step_threshold beq
good_step_applies =
    applies {step = good_step} {preflight = one_file} {applied = one_file} {w = no_calls}
      {w1 = record { previews = 1; applied = 0 }}
      (record { looked = refl; confident = refl; changed = refl }) all_applied

bad_step_refused :
    counting (recipe_step_operation hundredths bad_step true) (record { previews = 1; applied = 1 })
    ≡ (failed (codes "refused"), record { previews = 2; applied = 1 })
unfolding recipe_step_operation beq
bad_step_refused = refl

execute_recipe-partial_example :
    execute_recipe hundredths counting (recipe_of false (good_step ∷ bad_step ∷ [])) no_calls ≡ (
      stopped (preflight_failed (codes "two") (codes "refused")),
      record { previews = 2; applied = 1 },
    )
execute_recipe-partial_example =
    execute_recipe-partial hundredths counting (recipe_of false (good_step ∷ bad_step ∷ []))
      (good_step ∷ []) bad_step [] (codes "refused") no_calls (record { previews = 1; applied = 1 })
      (record { previews = 2; applied = 1 }) good_then_bad_valid refl refl good_step_applies
      bad_step_refused

validate_recipe_iff_example :
    (validate_recipe hundredths {E = Bytes} (recipe_of true (good_step ∷ [])) ≡ none)
    ↔ ((blank (codes "r") ≡ false) × (good_step ∷ [] ≢ []) × AllValid hundredths (good_step ∷ []))
validate_recipe_iff_example =
    validate_recipe_iff hundredths {E = Bytes} (recipe_of true (good_step ∷ []))
