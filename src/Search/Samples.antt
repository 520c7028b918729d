-- ===== src/Search/Samples.antt =====
-- Tests of the queries on trees, and their theorems at concrete inputs.
mod Provider
use morfx.Base.{
  arith, ℕ, ◌+◌, ◌≡◌, refl, Bool, true, false, ◌&&◌, Option, none, some, List, [], ◌∷◌,
  if◌then◌else◌, ltb, ◌-◌,
}
use morfx.Base.Bytes.{Bytes, codes, beq, is_empty, to_upper, trim_space, contains}
use morfx.Dsl.Query.{AgentQuery, agent_query, no_child, child, nil, cons}
use morfx.Recipe.{Floats}
use morfx.Search.{
  Node, node, leaf, also, Patterns, LanguageConfig, has, semantic_target_key, kind_of, name_of,
  match_pattern_captures, candidate_targets,
}
use morfx.Search.Engine.{keys, find_targets}
use morfx.Search.Engine.Sets.{Distinct}
use morfx.Search.Engine.Meaning.{selects, KeepsKind, find_targets-selects, find_targets-Distinct}
use morfx.Search.Cache.{Cache, Others, Fetched, fetched, load, get_or_parse}
use morfx.Search.Cache.Coherent.{
  Holds, Transparent, get_or_parse-Transparent, get_or_parse-mixes_parsers,
}
use morfx.Search.Confidence.{Arithmetic, confidence_level}
use morfx.Search.Provider.{
  TransformOp, Surroundings, query_tree, query_fetched, transform_tree, transform_fetched, query,
  transform,
}
use morfx.Search.Provider.Sound.{HasSoundConfidence, transform_fetched-HasSoundConfidence}
use morfx.Search.Provider.Settles.{Settles, transform_tree-Settles}
use morfx.Search.Provider.Agrees.{Agrees, transform_tree-Agrees}
use morfx.Search.Provider.Uncached.{query-uncached, transform-uncached}

-- A label is the type of a node, its name and its ends.
pub record Label : Type 0 where
  pub of_type : Bytes
  pub name : Bytes
  pub start : ℕ
  pub stop : ℕ

abbrev pub label : Bytes → Bytes → ℕ → ℕ → Label
label of_type name start stop = record {
  of_type = of_type;
  name = name;
  start = start;
  stop = stop;
}

abbrev pub label_name : Node Label → Bytes → Bytes
label_name (node l children) source = l.name

abbrev pub mapped : Bytes → List Bytes
mapped kind = if beq kind (codes "function") then codes "function_declaration" ∷ [] else []

abbrev pub sample_config : LanguageConfig Label
sample_config = record {
  node_type = λ l. l.of_type;
  start_byte = λ l. l.start;
  end_byte = λ l. l.stop;
  map_query_type_to_node_types = mapped;
  extract_node_name = label_name;
  expand_matches = none;
  validate_query_node = none;
  validate_type_spec = none;
  validate_assignment = none;
  matches_attributes = λ t source attributes. true;
}

abbrev pub plain_patterns : Patterns
plain_patterns = record {
  path_match = λ pattern name. some (beq pattern name);
  quote_meta = λ s. s;
  find_submatch = λ pattern name. none;
  itoa = λ n. (48 + n) ∷ [];
}

-- Of the source "fa{}fb{}", two functions.
abbrev pub sample_tree : Node Label
sample_tree = node (label (codes "program") [] 0 8) (
    also (node (label (codes "function_declaration") (codes "a") 0 4) leaf)
      (also (node (label (codes "function_declaration") (codes "b") 4 8) leaf) leaf))

abbrev pub functions : Bytes → AgentQuery
functions name = agent_query (codes "function") name no_child false [] nil []

abbrev pub not_a : AgentQuery
not_a = agent_query [] [] no_child false (codes "NOT") (cons (functions (codes "a")) nil) []

abbrev pub all_but_a : AgentQuery
all_but_a =
    agent_query [] [] no_child false (codes "AND") (cons (functions (codes "*")) (cons not_a nil))
      []

two_functions :
    keys plain_patterns
      (find_targets plain_patterns sample_config [] (functions (codes "*")) sample_tree)
    ≡ codes "function:0:4:a" ∷ codes "function:4:8:b" ∷ []
unfolding find_targets to_upper trim_space candidate_targets match_pattern_captures is_empty
    semantic_target_key contains
two_functions = refl

one_function :
    keys plain_patterns (find_targets plain_patterns sample_config [] all_but_a sample_tree)
    ≡ codes "function:4:8:b" ∷ []
unfolding find_targets to_upper trim_space candidate_targets match_pattern_captures is_empty
    semantic_target_key contains
one_function = refl

keeps_kind : KeepsKind plain_patterns sample_config []
keeps_kind expand n query found = absurd cc

find_targets-selects_example :
    has
      (codes "function:4:8:b")
      (keys plain_patterns (find_targets plain_patterns sample_config [] all_but_a sample_tree))
    ≡ selects plain_patterns sample_config [] all_but_a sample_tree (codes "function:4:8:b")
find_targets-selects_example =
    find_targets-selects plain_patterns sample_config [] keeps_kind all_but_a sample_tree
      (codes "function:4:8:b")

find_targets-Distinct_example :
    Distinct
      (keys plain_patterns (find_targets plain_patterns sample_config [] all_but_a sample_tree))
find_targets-Distinct_example =
    find_targets-Distinct plain_patterns sample_config [] keeps_kind all_but_a sample_tree

abbrev pub no_trees : Cache (Node Label)
no_trees = record { entries = []; hits = 0; misses = 0; evictions = 0 }

abbrev pub sample_source : Bytes
sample_source = codes "fa{}fb{}"

abbrev pub parse_sample : Bytes → Option (Node Label)
parse_sample source = if beq source (codes "fa{}fb{}") then some sample_tree else none

abbrev pub no_others : Others (Node Label)
no_others = record { change = λ c. c; closes = false }

get_or_parse-Transparent_example :
    Transparent
      (λ s. s)
      parse_sample
      (λ s. Unit)
      some
      (λ t. refl)
      5
      1
      (λ s s' in_use in_use' e. e)
      no_others
      refl
      (λ c holds. holds)
      sample_source
      (get_or_parse (λ s. s) some 5 1 no_others parse_sample sample_source no_trees)
get_or_parse-Transparent_example =
    get_or_parse-Transparent (λ s. s) parse_sample (λ s. Unit) some (λ t. refl) 5 1
      (λ s s' in_use in_use' e. e) no_others refl (λ c holds. holds) sample_source no_trees tt tt

get_or_parse-mixes_parsers_example :
    (get_or_parse
      (λ s. s)
      some
      5
      6
      no_others
      (λ s. none)
      sample_source
      (get_or_parse (λ s. s) some 5 1 no_others parse_sample sample_source no_trees).1).0
    ≡ fetched (some sample_tree) true
unfolding load beq
get_or_parse-mixes_parsers_example =
    get_or_parse-mixes_parsers (λ s. s) some (λ t. refl) 5 parse_sample (λ s. none) sample_source
      sample_tree no_trees 1 6 refl refl (omega arith)
