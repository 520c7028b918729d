-- ===== src/Dsl/Selector.antt =====
-- A selector with its attributes, as docs/dsl.md lays it out and core/dsl.go restricts it: no attribute
-- is empty or given twice, and the shorthand type does not stand beside `type=`.
use morfx.Base.{ℕ, ◌==◌, ◌≡◌, ◌≢◌, false, List, [], ◌∷◌, ◌++◌}
use morfx.Base.Bytes.{Bytes, codes, is_empty, join, trim_space}
use morfx.Dsl.Query.{AgentQuery, Attributes, agent_query, no_child, nil}
use morfx.Dsl.Tokens.{Tokens, token, selector, attribute}

-- The text has no such byte.
abbrev pub Lacks : ℕ → Bytes → Type 0
Lacks b [] = Unit
Lacks b (c ∷ s) = ((c == b) ≡ false) × Lacks b s

-- No attribute has the key.
abbrev pub Absent : Bytes → Attributes → Type 0
Absent k [] = Unit
Absent k ((j, v) ∷ attributes) = (j ≢ k) × Absent k attributes

-- The shorthand words are the attribute `type`.
abbrev pub Closed : List Bytes → Attributes → Attributes → Type 0
Closed [] found attributes = attributes ≡ found
Closed (w ∷ ws) found attributes =
    Absent (codes "type") found
    × (attributes ≡ found ++ (codes "type", join (w ∷ ws) (codes " ")) ∷ [])

abbrev pub NoAttribute : Tokens → Type 0
NoAttribute ts = (word : Bytes) (rest : Tokens) → ts ≢ token attribute word ∷ rest

-- The attributes at the front of the tokens, behind the shorthand words and the attributes so far.
pub data AttributeList : Tokens → List Bytes → Attributes → Attributes → Tokens → Type 0 where
  no_more :
      {ts rest : Tokens} {words : List Bytes} {found attributes : Attributes}
      → NoAttribute ts
      → Closed words found attributes
      → ts ≡ rest
      → AttributeList ts words found attributes rest
  shorthand :
      {ts u rest : Tokens} {words : List Bytes} {found attributes : Attributes} {word : Bytes}
      → ts ≡ token attribute word ∷ u
      → Lacks b'=' word
      → AttributeList u (words ++ word ∷ []) found attributes rest
      → AttributeList ts words found attributes rest
  key_value :
      {ts u rest : Tokens} {words : List Bytes} {found attributes : Attributes} (key value : Bytes)
      → ts ≡ token attribute (key ++ (b'=' ∷ value)) ∷ u
      → Lacks b'=' key
      → is_empty (trim_space key) ≡ false
      → is_empty (trim_space value) ≡ false
      → Absent (trim_space key) found
      → AttributeList u words (found ++ (trim_space key, trim_space value) ∷ []) attributes rest
      → AttributeList ts words found attributes rest

-- A name that is left out is the pattern `*`.
abbrev pub Names : Bytes → Bytes → Type 0
Names [] pattern = pattern ≡ codes "*"
Names (c ∷ s) pattern = pattern ≡ c ∷ s

pub data Selector : Tokens → AgentQuery → Tokens → Type 0 where
  selector_with :
      {ts u rest : Tokens} {q : AgentQuery} {attributes : Attributes} (kind name pattern : Bytes)
      → ts ≡ token selector (kind ++ (b':' ∷ name)) ∷ u
      → Lacks b':' kind
      → is_empty (trim_space kind) ≡ false
      → Names (trim_space name) pattern
      → AttributeList u [] [] attributes rest
      → agent_query (trim_space kind) pattern no_child false [] nil attributes ≡ q
      → Selector ts q rest
