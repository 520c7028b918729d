-- ===== src/Search.antt =====
-- Queries of providers/base/provider.go on syntax trees: names and patterns, candidates of a node.
pub mod Cache
pub mod Confidence
pub mod Provider
mod Samples
pub mod Engine
use morfx.Base.{
  ℕ, ◌+◌, ◌/◌, ◌%◌, ◌==◌, ltb, leb, Bool, true, false, ◌&&◌, ◌||◌, not, Option, none, some, List,
  [], ◌∷◌, ◌++◌, if◌then◌else◌,
}
use morfx.Base.Bytes.{Bytes, codes, beq, is_empty, contains}
use morfx.Dsl.Query.{AgentQuery, agent_query, Attributes}
use morfx.Edit.{Target}

-- A node of tree-sitter: what it tells of itself, and its children in their order.
mutual
  pub data Node (L : Type 0) : Type 0 where
    node : L → Nodes L → Node L

  pub data Nodes (L : Type 0) : Type 0 where
    leaf : Nodes L
    also : Node L → Nodes L → Nodes L

-- `Target` of providers/base/match_types.go: the fields that the edits read, and the query's type and
-- captures.
pub record Match (L : Type 0) : Type 0 where
  pub kind : Bytes
  pub captures : List (Bytes × Bytes)
  pub target : Target (Node L)

-- package path and package regexp: `path_match` is path.Match, and `none` its error; `find_submatch`
-- compiles an expression and gives the groups of the first match.
pub record Patterns : Type 0 where
  pub path_match : Bytes → Bytes → Option Bool
  pub quote_meta : Bytes → Bytes
  pub find_submatch : Bytes → Bytes → Option (List Bytes)
  -- strconv.Itoa, as `%d` prints
  pub itoa : ℕ → Bytes

-- `LanguageConfig` and the interfaces that it may implement besides; the first three are
-- tree-sitter's. `matches_attributes` is the method of that name, for one source.
pub record LanguageConfig (L : Type 0) : Type 0 where
  pub node_type : L → Bytes
  pub start_byte : L → ℕ
  pub end_byte : L → ℕ
  pub map_query_type_to_node_types : Bytes → List Bytes
  pub extract_node_name : Node L → Bytes → Bytes
  pub expand_matches : Option (Node L → Bytes → AgentQuery → List (Match L))
  pub validate_query_node : Option (Node L → Bytes → Bytes → Bool)
  pub validate_type_spec : Option (Node L → Bytes → Bytes → Bool)
  pub validate_assignment : Option (Node L → Bytes → Bytes → Bool)
  pub matches_attributes : Target (Node L) → Bytes → Attributes → Bool

-- membership in a map used as a set, and `slices.Contains`
unfoldable pub has : Bytes → List Bytes → Bool
has k [] = false
has k (x ∷ xs) = beq k x || has k xs

abbrev pub kind_of : AgentQuery → Bytes
kind_of (agent_query kind _ _ _ _ _ _) = kind

abbrev pub name_of : AgentQuery → Bytes
name_of (agent_query _ name _ _ _ _ _) = name

abbrev pub attributes_of : AgentQuery → Attributes
attributes_of (agent_query _ _ _ _ _ _ attributes) = attributes

pub is_word_char : ℕ → Bool
is_word_char c =
    leb b'a' c && leb c b'z' || leb b'A' c && leb c b'Z' || leb b'0' c && leb c b'9' || c == b'_'

-- `string(b)` at a byte, which is taken for a code point
pub string_of_byte : ℕ → Bytes
string_of_byte c = if ltb c 128 then c ∷ [] else (0xC0 + c / 64) ∷ (0x80 + c % 64) ∷ []

module _ (patterns : Patterns) where
  open patterns use {path_match, quote_meta, find_submatch, itoa}

  -- The loop of `matchCapturePattern` gives an expression and the names of its captures. The first
  -- argument is the part of a capture's name behind a `$`, if the loop stands in one.
  pub next_mode : Option Bytes → ℕ → Option Bytes
  unfolding is_word_char
  next_mode none c = if c == b'$' then some [] else none
  next_mode (some name) c =
      if is_word_char c then some (name ++ c ∷ []) else if c == b'$' then some [] else none

  pub literal : ℕ → Bytes × List Bytes → Bytes × List Bytes
  unfolding string_of_byte
  literal c (rest, names) =
      if c == b'*'
      then (codes ".*" ++ rest, names)
      else if c == b'$'
      then (rest, names)
      else (quote_meta (string_of_byte c) ++ rest, names)

  pub close_capture : Bytes → Bytes → Bytes × List Bytes → Bytes × List Bytes
  close_capture group name (rest, names) =
      if is_empty name
      then (quote_meta (codes "$") ++ rest, names)
      else (group ++ rest, name ∷ names)

  pub emit : Option Bytes → ℕ → Bytes × List Bytes → Bytes × List Bytes
  unfolding literal close_capture is_word_char
  emit none c compiled = literal c compiled
  emit (some name) c compiled =
      if is_word_char c then compiled else close_capture (codes "(.+?)") name (literal c compiled)

  pub compile : Option Bytes → Bytes → Bytes × List Bytes
  unfolding next_mode emit close_capture
  compile none [] = ([], [])
  compile (some name) [] = close_capture (codes "(.+)") name ([], [])
  compile mode (c ∷ s) = emit mode c (compile (next_mode mode c) s)

  -- A map of captures holds the last of two groups with one name; here both stand, the last one first.
  pub zip_captures : List Bytes → List Bytes → List (Bytes × Bytes) → List (Bytes × Bytes)
  zip_captures (n ∷ ns) (g ∷ gs) found = zip_captures ns gs ((n, g) ∷ found)
  zip_captures _ _ found = found

  pub match_capture_pattern : Bytes → Bytes → Bool × List (Bytes × Bytes)
  unfolding compile zip_captures
  match_capture_pattern name pattern =
      let (body, names) = compile none pattern in
      elim (find_submatch (codes "^" ++ body ++ codes "$") name) [
        | none ↦ (false, [])
        | some groups ↦ (true, zip_captures names groups [])
      ]

  unfoldable pub match_pattern_captures : Bytes → Bytes → Bool × List (Bytes × Bytes)
  unfolding match_capture_pattern
  match_pattern_captures name pattern =
      if is_empty pattern || beq pattern (codes "*")
      then (true, [])
      else if contains pattern b'$'
      then match_capture_pattern name pattern
      else elim (path_match pattern name) [ none ↦ (false, []) | some matched ↦ (matched, []) ]

  module _ {L : Type 0} where
    -- `semanticTargetKey`
    pub semantic_target_key : Bytes → Target (Node L) → Bytes
    semantic_target_key kind t =
        kind
        ++ codes ":"
        ++ itoa t.start_byte
        ++ codes ":"
        ++ itoa t.end_byte
        ++ codes ":"
        ++ t.name

    module _ (config : LanguageConfig L) (source : Bytes) where
      abbrev type_of : Node L → Bytes
      type_of (node label _) = config.node_type label

      pub new_target : Node L → Bytes → Bytes → Match L
      new_target (node label children) kind name = record {
        kind = kind;
        captures = [];
        target = record {
          name = name;
          start_byte = config.start_byte label;
          end_byte = config.end_byte label;
          node = some (node label children);
        };
      }

      abbrev passes : Option (Node L → Bytes → Bytes → Bool) → Node L → Bytes → Bool
      passes none n kind = true
      passes (some validate) n kind = validate n source kind

      pub passes_provider_validation : Node L → Bytes → Bool
      passes_provider_validation n kind =
          passes config.validate_query_node n kind
          && passes config.validate_type_spec n kind
          && passes config.validate_assignment n kind

      pub node_matches : Node L → Bytes → Bool
      unfolding passes_provider_validation has
      node_matches n kind =
          has (type_of n) (config.map_query_type_to_node_types kind)
          && passes_provider_validation n kind

      pub expand_matches : Node L → AgentQuery → List (Match L)
      unfolding new_target
      expand_matches n query = elim config.expand_matches [
        | some expand ↦ expand n source query
        | none ↦ new_target n (kind_of query) (config.extract_node_name n source) ∷ []
      ]

      -- the name that a match without one gets
      pub named : Match L → Match L
      named m = record m {
        target = record m.target {
          name = if is_empty m.target.name then codes "anonymous" else m.target.name;
        };
      }

      -- the loop of `candidateTargets`; `contains_child` is `matchesContains` for the query's child
      pub filter_candidates : (Match L → Bool) → AgentQuery → List (Match L) → List (Match L)
      unfolding named
      filter_candidates contains_child query [] = []
      filter_candidates contains_child query (found ∷ ms) =
          let rest = filter_candidates contains_child query ms in
          let m = named found in
          let (matched, captures) = match_pattern_captures m.target.name (name_of query) in
          if matched
            && config.matches_attributes m.target source (attributes_of query)
            && contains_child m
          then record m { captures = captures } ∷ rest
          else rest

      unfoldable pub candidate_targets : (Match L → Bool) → AgentQuery → Node L → List (Match L)
      unfolding node_matches expand_matches filter_candidates
      candidate_targets contains_child query n =
          if node_matches n (kind_of query)
          then filter_candidates contains_child query (expand_matches n query)
          else []
