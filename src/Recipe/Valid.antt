-- ===== src/Recipe/Valid.antt =====
-- What the validation of core/recipe.go accepts.
use morfx.Base.{
  ℕ, ◌+◌, ◌≡◌, ◌≢◌, ◌↔◌, ◌⊎◌, refl, sym, true, false, if◌then◌else◌, Option, none, some, List, [],
  ◌∷◌, subst, arith,
}
use morfx.Base.Bytes.{Bytes, codes, beq, is_empty, beq→eq}
use morfx.Dsl.Query.{AgentQuery}
use morfx.Dsl.Parser.{ok, parse_dsl}
use morfx.Dsl.Correct.{parse_dsl_total}
use morfx.Recipe.{
  Floats, Recipe, RecipeStep, RecipeError, recipe_name_required, no_steps, blank, kind_of,
  check_payload, check_confidence_range, check_dsl, is_supported_recipe_method,
  validate_recipe_step, validate_steps, validate_recipe,
}

module _ (F : Floats) where
  open F use {Float, lt, float_zero, float_one}

  -- The selector of the step, if there is one, parses.
  abbrev pub SelectorParses : RecipeStep F → Type 0
  SelectorParses step =
      (blank step.target_dsl ≡ true) ⊎ ((q : AgentQuery) × (parse_dsl step.target_dsl ≡ ok q))

  pub record IsValidStep (step : RecipeStep F) : Type 0 where
    pub named : blank step.name ≡ false
    pub supported : is_supported_recipe_method step.method ≡ true
    pub scoped : blank step.scope.path ≡ false
    pub targeted :
        (is_empty (kind_of step.target) ≡ false)
        ⊎ (blank step.target_dsl ≡ false)
        ⊎ (beq step.method (codes "append") ≡ true)
    pub parses : SelectorParses step
    pub replaces : beq step.method (codes "replace") ≡ true → blank step.replacement ≡ false
    pub adds_before : beq step.method (codes "insert_before") ≡ true → blank step.content ≡ false
    pub adds_after : beq step.method (codes "insert_after") ≡ true → blank step.content ≡ false
    pub appends : beq step.method (codes "append") ≡ true → blank step.content ≡ false
    pub not_negative : lt step.min_confidence float_zero ≡ false
    pub at_most_one : lt float_one step.min_confidence ≡ false

  check_dsl_iff : (step : RecipeStep F) → (check_dsl F step ≡ none) ↔ SelectorParses step
  unfolding check_dsl
  check_dsl_iff step = let total = parse_dsl_total step.target_dsl in ground arith

  check_confidence_range_iff :
      (step : RecipeStep F)
      → (check_confidence_range F step ≡ none)
        ↔ ((lt step.min_confidence float_zero ≡ false) × (lt float_one step.min_confidence ≡ false))
  unfolding check_confidence_range
  check_confidence_range_iff step = ground arith

  replace_only :
      (s : Bytes)
      → beq s (codes "replace") ≡ true
      → (beq s (codes "insert_before") ≡ false)
        × (beq s (codes "insert_after") ≡ false)
        × (beq s (codes "append") ≡ false)
  unfolding beq
  replace_only s e =
      subst
        (λ m.
          (beq m (codes "insert_before") ≡ false)
          × (beq m (codes "insert_after") ≡ false)
          × (beq m (codes "append") ≡ false))
        (sym (beq→eq s (codes "replace") e)) (refl, refl, refl)

  abbrev PayloadFits : RecipeStep F → Type 0
  PayloadFits step =
      (beq step.method (codes "replace") ≡ true → blank step.replacement ≡ false)
      × (beq step.method (codes "insert_before") ≡ true → blank step.content ≡ false)
      × (beq step.method (codes "insert_after") ≡ true → blank step.content ≡ false)
      × (beq step.method (codes "append") ≡ true → blank step.content ≡ false)

  check_payload_iff : (step : RecipeStep F) → (check_payload F step ≡ none) ↔ PayloadFits step
  unfolding check_payload
  check_payload_iff step = let replaces = replace_only step.method in ground arith

  pub validate_recipe_step_iff :
      (step : RecipeStep F) → (validate_recipe_step F step ≡ none) ↔ IsValidStep step
  unfolding validate_recipe_step
  validate_recipe_step_iff step =
      let (dsl_to, dsl_from) = check_dsl_iff step in
      let (payload_to, payload_from) = check_payload_iff step in
      let (range_to, range_from) = check_confidence_range_iff step in ground arith

  abbrev pub AllValid : List (RecipeStep F) → Type 0
  AllValid [] = Unit
  AllValid (s ∷ ss) = IsValidStep s × AllValid ss

  module _ {E : Type 0} where
    validate_steps_iff :
        (index : ℕ) (steps : List (RecipeStep F))
        → (validate_steps F {E = E} index steps ≡ none) ↔ AllValid steps
    unfolding validate_steps
    validate_steps_iff index [] = (λ _. tt, λ _. refl)
    validate_steps_iff index (s ∷ ss) =
        let (step_to, step_from) = validate_recipe_step_iff s in
        let (rest_to, rest_from) = validate_steps_iff (index + 1) ss in ground arith

    -- A recipe is accepted exactly when it has a name and a step, and each of its steps has a name, a
    -- known method, a path, a target, a selector that parses if there is one, the text that its method
    -- needs, and a confidence between zero and one.
    pub validate_recipe_iff :
        (recipe : Recipe F)
        → (validate_recipe F {E = E} recipe ≡ none)
          ↔ ((blank recipe.name ≡ false) × (recipe.steps ≢ []) × AllValid recipe.steps)
    unfolding validate_recipe
    validate_recipe_iff recipe =
        elim recipe.steps
          as (λ steps.
            ((if blank recipe.name
                then some recipe_name_required
                else elim steps as (λ x. Option (RecipeError E)) [
                  | [] ↦ some no_steps
                  | s ∷ ss ↦ validate_steps F 0 (s ∷ ss)
                ])
              ≡ none)
            ↔ ((blank recipe.name ≡ false) × (steps ≢ []) × AllValid steps)) [
              | [] ↦ ground arith
              | s ∷ ss ↦ (let (rest_to, rest_from) = validate_steps_iff 0 (s ∷ ss) in ground arith)
            ]
