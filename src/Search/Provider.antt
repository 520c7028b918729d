-- ===== src/Search/Provider.antt =====
-- `Query` and `Transform` of providers/base/provider.go on a parsed tree and through the cache.
pub mod Sound
pub mod Settles
pub mod Agrees
pub mod Uncached
use morfx.Base.{
  ℕ, ◌==◌, leb, Bool, true, false, ◌&&◌, ◌||◌, not, Option, none, some, List, [], ◌∷◌, ◌++◌, length,
  take, drop, if◌then◌else◌, map,
}
use morfx.Base.Bytes.{Bytes, codes, beq, is_empty}
use morfx.Dsl.Query.{AgentQuery, agent_query, Contains, no_child, child, Queries, nil, cons}
use morfx.Recipe.{Floats}
use morfx.Edit.{
  Target, Edited, done, no_targets, panic, SmartAppend, do_replace, do_delete, do_insert_before,
  do_insert_after, do_append_to_target,
}
use morfx.Search.{
  Node, node, Nodes, leaf, also, Match, Patterns, LanguageConfig, kind_of, name_of, type_of,
  new_target,
}
use morfx.Search.Engine.{find_targets}
use morfx.Search.Cache.{Cache, Others, Fetched, fetched, nil_tree, get_or_parse}
use morfx.Search.Confidence.{Arithmetic, ConfidenceScore, calculate_confidence, adjust_confidence}

-- `TransformOp` of core/types.go
pub record TransformOp : Type 0 where
  pub method : Bytes
  pub target : AgentQuery
  pub content : Bytes
  pub replacement : Bytes

-- `Match` of core/types.go, less its location and the fields that this code leaves empty
pub record Found : Type 0 where
  pub kind : Bytes
  pub name : Bytes
  pub content : Bytes
  pub captures : List (Bytes × Bytes)

-- What `Query` returns; a syntax error has its line and column. `stopped` follows a nil tree.
pub data QueryResult : Type 0 where
  query_failed_to_copy query_failed_to_parse query_stopped : QueryResult
  syntax_errors : List (ℕ × ℕ) → QueryResult
  matches : List Found → QueryResult

pub record Transformation (F : Floats) : Type 0 where
  pub modified : Bytes
  pub diff : Bytes
  pub confidence : ConfidenceScore F
  pub match_count : ℕ

-- What `Transform` returns; `stopped` is a slice out of range, or follows a nil tree.
pub data Transformed (F : Floats) : Type 0 where
  changed : Transformation F → Transformed F
  failed_to_copy failed_to_parse no_matches_found no_targets_for_edit stopped : Transformed F
  unknown_method : Bytes → Transformed F

-- What a language adds for this code; the positions are tree-sitter's, and `unified_diff` is difflib's,
-- `none` its error.
pub record Surroundings (L : Type 0) : Type 0 where
  pub start_row : Node L → ℕ
  pub start_position : L → ℕ × ℕ
  pub normalize_query_type : Option (Bytes → Bytes)
  pub is_exported : Bytes → Bool
  pub smart_append : Option (SmartAppend (Node L))
  pub unified_diff : Bytes → Bytes → Option Bytes

abbrev normal_type : Option (Bytes → Bytes) → Bytes → Bytes
normal_type none kind = kind
normal_type (some normalize) kind = normalize kind

mutual
  pub normalize_query : Option (Bytes → Bytes) → AgentQuery → AgentQuery
  normalize_query n (agent_query kind name c direct op operands attributes) =
      agent_query (normal_type n kind) name (normalize_contains n c) direct op
        (normalize_each n operands) attributes

  pub normalize_contains : Option (Bytes → Bytes) → Contains → Contains
  normalize_contains n no_child = no_child
  normalize_contains n (child q) = child (normalize_query n q)

  pub normalize_each : Option (Bytes → Bytes) → Queries → Queries
  normalize_each n nil = nil
  normalize_each n (cons q qs) = cons (normalize_query n q) (normalize_each n qs)

module _ {L : Type 0} (node_type : L → Bytes) (start_position : L → ℕ × ℕ) where
  abbrev own_error : L → List (ℕ × ℕ)
  own_error label = if beq (node_type label) (codes "ERROR") then start_position label ∷ [] else []

  mutual
    pub find_errors : Node L → List (ℕ × ℕ)
    find_errors (node label children) = own_error label ++ find_errors_each children

    pub find_errors_each : Nodes L → List (ℕ × ℕ)
    find_errors_each leaf = []
    find_errors_each (also n ns) = find_errors n ++ find_errors_each ns

pub target_to_match : {L : Type 0} → Bytes → Match L → Found
target_to_match source m = record {
  kind = m.kind;
  name = m.target.name;
  content =
      if leb m.target.start_byte m.target.end_byte && leb m.target.end_byte (length source)
      then drop m.target.start_byte (take m.target.end_byte source)
      else [];
  captures = m.captures;
}

abbrev is_nil : {A : Type 0} → List A → Bool
is_nil [] = true
is_nil (x ∷ xs) = false

abbrev pub is_append_to_root : TransformOp → Bool
is_append_to_root op =
    beq op.method (codes "append") && is_empty (kind_of op.target) && is_empty (name_of op.target)

module _ {L : Type 0} (patterns : Patterns) (config : LanguageConfig L)
    (around : Surroundings L) where
  open around use {
    start_row, start_position, normalize_query_type, is_exported, smart_append, unified_diff,
  }

  pub query_tree : Node L → Bytes → AgentQuery → QueryResult
  unfolding find_errors target_to_match find_targets
  query_tree root source query = elim (find_errors config.node_type start_position root) [
    | [] ↦ matches (map (target_to_match source) (find_targets patterns config source query root))
    | e ∷ es ↦ syntax_errors (e ∷ es)
  ]

  -- `Query` on what the cache gives
  unfoldable pub query_fetched : Fetched (Node L) → Bytes → AgentQuery → QueryResult
  unfolding query_tree normalize_query
  query_fetched nil_tree source query = query_stopped
  query_fetched (fetched none true) source query = query_failed_to_copy
  query_fetched (fetched none false) source query = query_failed_to_parse
  query_fetched (fetched (some root) hit) source query =
      query_tree root source (normalize_query normalize_query_type query)

  -- `Validate`, less its texts; `parse` is the parser of the language
  pub validate : (Bytes → Option (Node L)) → Bytes → Bool
  unfolding find_errors
  validate parse source = elim (parse source) [
    | none ↦ false
    | some root ↦ is_nil (find_errors config.node_type start_position root)
  ]

  pub generate_diff : Bytes → Bytes → Bytes
  generate_diff original modified =
      if beq original modified then [] else elim (unified_diff original modified) [
        | some text ↦ text
        | none ↦
            codes "--- original\n+++ modified\n@@ changes @@\n"
            ++ patterns.itoa (length original)
            ++ codes " bytes -> "
            ++ patterns.itoa (length modified)
            ++ codes " bytes"
      ]

  -- the `switch` of `Transform`; `none` is its default
  pub apply_method : TransformOp → Bytes → List (Target (Node L)) → Option Edited
  unfolding do_replace do_delete do_insert_before do_insert_after do_append_to_target
  apply_method op source targets =
      if beq op.method (codes "replace")
      then some (do_replace source targets op.replacement)
      else if beq op.method (codes "delete")
      then some (do_delete source targets)
      else if beq op.method (codes "insert_before")
      then some (do_insert_before start_row source targets op.content)
      else if beq op.method (codes "insert_after")
      then some (do_insert_after start_row source targets op.content)
      else if beq op.method (codes "append")
      then some (do_append_to_target smart_append source targets op.content)
      else none

  module _ (F : Floats) (A : Arithmetic F) (parse : Bytes → Option (Node L)) where
    -- what `Transform` makes of an edit
    pub conclude : (Bytes → ConfidenceScore F) → Bytes → ℕ → Bytes → Edited → Transformed F
    unfolding generate_diff
    conclude confidence method count source (done modified) = changed (record {
      modified = modified;
      diff = generate_diff source modified;
      confidence = confidence modified;
      match_count = count;
    })
    conclude confidence method count source no_targets = no_targets_for_edit
    conclude confidence method count source panic = stopped

    pub conclude_method :
        (Bytes → ConfidenceScore F) → Bytes → ℕ → Bytes → Option Edited → Transformed F
    unfolding conclude
    conclude_method confidence method count source none = unknown_method method
    conclude_method confidence method count source (some edited) =
        conclude confidence method count source edited

    abbrev pub root_confidence : ConfidenceScore F
    root_confidence = record {
      score = F.float_one;
      level = codes "high";
      factors = (record { name = codes "append_to_root"; impact = F.float_zero }) ∷ [];
    }

    pub append_to_root : Node L → Bytes → Bytes → Transformed F
    unfolding conclude do_append_to_target new_target
    append_to_root root source content =
        conclude (λ modified. root_confidence) (codes "append") 1 source
          (do_append_to_target smart_append source
            ((new_target patterns config source root [] []).target ∷ []) content)

    pub targets_confidence : TransformOp → Bytes → List (Match L) → Bytes → ConfidenceScore F
    unfolding calculate_confidence adjust_confidence validate
    targets_confidence op source ms modified =
        adjust_confidence F A (validate parse modified) (name_of op.target) (length ms) source
          modified (calculate_confidence F A is_exported op.method (name_of op.target) ms)

    pub transform_targets : TransformOp → Bytes → List (Match L) → Transformed F
    unfolding conclude_method apply_method targets_confidence
    transform_targets op source [] = no_matches_found
    transform_targets op source (m ∷ ms) =
        conclude_method (targets_confidence op source (m ∷ ms)) op.method (length (m ∷ ms)) source
          (apply_method op source (map (λ t. t.target) (m ∷ ms)))

    unfoldable pub transform_tree : Node L → Bytes → TransformOp → Transformed F
    unfolding append_to_root transform_targets find_targets
    transform_tree root source op =
        if is_append_to_root op
        then append_to_root root source op.content
        else transform_targets op source (find_targets patterns config source op.target root)

    abbrev pub normalized : TransformOp → TransformOp
    normalized op = record op { target = normalize_query normalize_query_type op.target }

    -- `Transform` on what the cache gives
    unfoldable pub transform_fetched : Fetched (Node L) → Bytes → TransformOp → Transformed F
    unfolding transform_tree normalize_query
    transform_fetched nil_tree source op = stopped
    transform_fetched (fetched none true) source op = failed_to_copy
    transform_fetched (fetched none false) source op = failed_to_parse
    transform_fetched (fetched (some root) hit) source op =
        transform_tree root source (normalized op)

    module _ (hash : Bytes → Bytes) (copy : Node L → Option (Node L)) (max_age now : ℕ)
        (others : Others (Node L)) where
      unfoldable pub query : Bytes → AgentQuery → Cache (Node L) → QueryResult × Cache (Node L)
      unfolding query_fetched get_or_parse
      query source q c =
          let (found, after) = get_or_parse hash copy max_age now others parse source c in
          (query_fetched found source q, after)

      unfoldable pub transform :
          Bytes → TransformOp → Cache (Node L) → Transformed F × Cache (Node L)
      unfolding transform_fetched get_or_parse
      transform source op c =
          let (found, after) = get_or_parse hash copy max_age now others parse source c in
          (transform_fetched found source op, after)
