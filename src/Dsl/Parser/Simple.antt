-- ===== src/Dsl/Parser/Simple.antt =====
-- `parseSimple` and `parseAttributes` of core/dsl.go read a selector with its attributes.
use mathlib.Core.Path.{subst}
use morfx.Base.{
  ◌==◌, ◌≡◌, ◌≢◌, refl, sym, ap, ◌∙◌, Bool, true, false, ◌||◌, Option, none, some, List, [], ◌∷◌,
  ◌++◌, if-split, if◌then◌else◌, arith, ℕ,
}
use morfx.Base.Bytes.{Bytes, codes, beq, beq→eq, beq_refl, cut_byte, is_empty, trim_space}
use morfx.Dsl.Query.{AgentQuery, Attributes}
use morfx.Dsl.Tokens.{Tokens, token, selector, operator, lparen, rparen, attribute}
use morfx.Dsl.Selector.{
  Lacks, Absent, Closed, NoAttribute, AttributeList, no_more, shorthand, key_value, Names, Selector,
  selector_with,
}
use morfx.Dsl.Parser.{
  ok, err, invalid_attribute, duplicate_attribute, out_of_fuel, Result, ◌>>=◌, has_key,
  add_attribute, close_attributes, parse_attributes, selector_query, parse_simple, selector_syntax,
  Parsed,
}

-- What `cut_byte` says of the byte in the text.
Cut : ℕ → Bytes → Option (Bytes × Bytes) → Type 0
Cut b s none = Lacks b s
Cut b s (some (k, v)) = (s ≡ k ++ (b ∷ v)) × Lacks b k

later-Cut :
    (b c : ℕ) (s : Bytes) (found : Option (Bytes × Bytes))
    → (c == b) ≡ false
    → Cut b s found
    → Cut b (c ∷ s) (elim found [ none ↦ none | some (k, v) ↦ some (c ∷ k, v) ])
unfolding Cut
later-Cut b c s none other cut = (other, cut)
later-Cut b c s (some (k, v)) other (e, lacks) = (ap (λ (r : Bytes). c ∷ r) e, (other, lacks))

cut_byte-Cut : (b : ℕ) (s : Bytes) → Cut b s (cut_byte b s)
unfolding cut_byte Cut
cut_byte-Cut b [] = tt
cut_byte-Cut b (c ∷ s) =
    if-split (Cut b (c ∷ s)) (c == b)
      (λ e. let same : c ≡ b = ground arith in (ap (λ (d : ℕ). d ∷ s) same, tt))
      (λ e. later-Cut b c s (cut_byte b s) e (cut_byte-Cut b s))

cut_byte-append : (b : ℕ) (k v : Bytes) → Lacks b k → cut_byte b (k ++ (b ∷ v)) ≡ some (k, v)
unfolding cut_byte
cut_byte-append b [] v lacks = ground arith
cut_byte-append b (c ∷ k) v (h, hs) = rw (h, cut_byte-append b k v hs) refl

cut_byte-none : (b : ℕ) (s : Bytes) → Lacks b s → cut_byte b s ≡ none
unfolding cut_byte
cut_byte-none b [] lacks = refl
cut_byte-none b (c ∷ s) (h, hs) = rw (h, cut_byte-none b s hs) refl

has_key-Absent : (k : Bytes) (m : Attributes) → has_key k m ≡ false → Absent k m
unfolding has_key
has_key-Absent k [] h = tt
has_key-Absent k ((j, v) ∷ m) h =
    let other : beq j k ≡ false = ground arith in
    (
      (λ e. let same = ap (beq j) e in let own = beq_refl j in absurd cc),
      has_key-Absent k m (ground arith),
    )

if-false : (b : Bool) {c : Bool} → b ≢ true → c ≡ false → (b || c) ≡ false
if-false true differs h = absurd (differs refl)
if-false false differs h = h

Absent-has_key : (k : Bytes) (m : Attributes) → Absent k m → has_key k m ≡ false
unfolding has_key
Absent-has_key k [] h = refl
Absent-has_key k ((j, v) ∷ m) (h, hs) =
    let others = Absent-has_key k m hs in if-false (beq j k) (λ e. h (beq→eq j k e)) others

close_attributes-Closed :
    (words : List Bytes) (found attributes : Attributes)
    → close_attributes (words, found) ≡ ok attributes
    → Closed words found attributes
unfolding close_attributes
close_attributes-Closed [] found attributes h = cc
close_attributes-Closed (w ∷ ws) found attributes h =
    if-split (λ r. r ≡ ok attributes → Closed (w ∷ ws) found attributes)
      (has_key (codes "type") found) (λ e k. absurd cc)
      (λ e k. (has_key-Absent (codes "type") found e, cc)) h

Closed-close_attributes :
    (words : List Bytes) (found attributes : Attributes)
    → Closed words found attributes
    → close_attributes (words, found) ≡ ok attributes
unfolding close_attributes
Closed-close_attributes [] found attributes h = cc
Closed-close_attributes (w ∷ ws) found attributes (absent, h) =
    rw (Absent-has_key (codes "type") found absent) (ap ok (sym h))

abbrev with_rest : Tokens → Attributes → Result (Attributes × Tokens)
with_rest ts a = ok (a, ts)

stop-AttributeList :
    (ts rest : Tokens) (words : List Bytes) (found attributes : Attributes) (r : Result Attributes)
    → close_attributes (words, found) ≡ r
    → NoAttribute ts
    → (r >>= with_rest ts) ≡ ok (attributes, rest)
    → AttributeList ts words found attributes rest
stop-AttributeList ts rest words found attributes (ok a) closed ended h =
    no_more ended (close_attributes-Closed words found attributes (closed ∙ cc)) cc
stop-AttributeList ts rest words found attributes (err e) closed ended h = absurd cc
stop-AttributeList ts rest words found attributes out_of_fuel closed ended h = absurd cc

NoAttribute-parse_attributes :
    (ts : Tokens) (words : List Bytes) (found : Attributes)
    → NoAttribute ts
    → parse_attributes ts (words, found) ≡ (close_attributes (words, found) >>= with_rest ts)
unfolding parse_attributes
NoAttribute-parse_attributes [] words found ended = refl
NoAttribute-parse_attributes (token selector v ∷ ts) words found ended = refl
NoAttribute-parse_attributes (token operator v ∷ ts) words found ended = refl
NoAttribute-parse_attributes (token lparen v ∷ ts) words found ended = refl
NoAttribute-parse_attributes (token rparen v ∷ ts) words found ended = refl
NoAttribute-parse_attributes (token attribute v ∷ ts) words found ended = absurd (ended v ts refl)

-- What `add_attribute` does with a word that `cut_byte` has cut or not.
abbrev add_cut :
    Bytes → List Bytes → Attributes → Option (Bytes × Bytes) → Result (List Bytes × Attributes)
add_cut word words found none = ok (words ++ word ∷ [], found)
add_cut word words found (some (before, after)) =
    if is_empty (trim_space before) || is_empty (trim_space after)
    then err (invalid_attribute word)
    else if has_key (trim_space before) found
    then err (duplicate_attribute (trim_space before))
    else ok (words, found ++ (trim_space before, trim_space after) ∷ [])

add_attribute-eq-add_cut :
    (word : Bytes) (words : List Bytes) (found : Attributes)
    → add_attribute word (words, found) ≡ add_cut word words found (cut_byte b'=' word)
unfolding add_attribute
add_attribute-eq-add_cut word words found =
    elim (cut_byte b'=' word)
      as (λ o.
        (elim o as (λ x. Result (List Bytes × Attributes)) [
          | none ↦ ok (words ++ word ∷ [], found)
          | some (before, after) ↦
              if is_empty (trim_space before) || is_empty (trim_space after)
              then err (invalid_attribute word)
              else if has_key (trim_space before) found
              then err (duplicate_attribute (trim_space before))
              else ok (words, found ++ (trim_space before, trim_space after) ∷ [])
        ])
        ≡ add_cut word words found o) [ none ↦ refl | some (before, after) ↦ refl ]

-- `read` is the same of the tokens behind the word.
add_cut-AttributeList :
    (ts rest : Tokens) (w : Bytes) (words : List Bytes) (found attributes : Attributes)
    (cut : Option (Bytes × Bytes))
    → ((words' : List Bytes) (found' : Attributes)
        → parse_attributes ts (words', found') ≡ ok (attributes, rest)
        → AttributeList ts words' found' attributes rest)
    → Cut b'=' w cut
    → (add_cut w words found cut >>= parse_attributes ts) ≡ ok (attributes, rest)
    → AttributeList (token attribute w ∷ ts) words found attributes rest
unfolding Cut
add_cut-AttributeList ts rest w words found attributes none read lacks h =
    shorthand refl lacks (read (words ++ w ∷ []) found h)
add_cut-AttributeList ts rest w words found attributes (some (key, value)) read (e, lacks) h =
    if-split
      (λ (r : Result (List Bytes × Attributes)).
        (r >>= parse_attributes ts) ≡ ok (attributes, rest)
        → AttributeList (token attribute w ∷ ts) words found attributes rest)
      (is_empty (trim_space key) || is_empty (trim_space value)) (λ bad k. absurd cc)
      (λ good k.
        if-split
          (λ (r : Result (List Bytes × Attributes)).
            (r >>= parse_attributes ts) ≡ ok (attributes, rest)
            → AttributeList (token attribute w ∷ ts) words found attributes rest)
          (has_key (trim_space key) found) (λ twice l. absurd cc)
          (λ once l.
            key_value key value (ap (λ (x : Bytes). token attribute x ∷ ts) e) lacks (ground arith)
              (ground arith) (has_key-Absent (trim_space key) found once)
              (read words (found ++ (trim_space key, trim_space value) ∷ []) l))
          k)
      h

parse_attributes-AttributeList :
    (ts rest : Tokens) (words : List Bytes) (found attributes : Attributes)
    → parse_attributes ts (words, found) ≡ ok (attributes, rest)
    → AttributeList ts words found attributes rest
unfolding parse_attributes
parse_attributes-AttributeList [] rest words found attributes h =
    stop-AttributeList [] rest words found attributes _ refl (λ word u e. cc) h
parse_attributes-AttributeList (token selector v ∷ ts) rest words found attributes h =
    stop-AttributeList _ rest words found attributes _ refl (λ word u e. cc) h
parse_attributes-AttributeList (token operator v ∷ ts) rest words found attributes h =
    stop-AttributeList _ rest words found attributes _ refl (λ word u e. cc) h
parse_attributes-AttributeList (token lparen v ∷ ts) rest words found attributes h =
    stop-AttributeList _ rest words found attributes _ refl (λ word u e. cc) h
parse_attributes-AttributeList (token rparen v ∷ ts) rest words found attributes h =
    stop-AttributeList _ rest words found attributes _ refl (λ word u e. cc) h
parse_attributes-AttributeList (token attribute w ∷ ts) rest words found attributes h =
    add_cut-AttributeList ts rest w words found attributes (cut_byte b'=' w)
      (λ words' found' read. parse_attributes-AttributeList ts rest words' found' attributes read)
      (cut_byte-Cut b'=' w)
      (subst
        (λ (r : Result (List Bytes × Attributes)).
          (r >>= parse_attributes ts) ≡ ok (attributes, rest))
        (add_attribute-eq-add_cut w words found) h)

add_attribute-word :
    (word : Bytes) (words : List Bytes) (found : Attributes)
    → Lacks b'=' word
    → add_attribute word (words, found) ≡ ok (words ++ word ∷ [], found)
add_attribute-word word words found lacks =
    add_attribute-eq-add_cut word words found
    ∙ ap (add_cut word words found) (cut_byte-none b'=' word lacks)

add_attribute-pair :
    (key value : Bytes) (words : List Bytes) (found : Attributes)
    → Lacks b'=' key
    → is_empty (trim_space key) ≡ false
    → is_empty (trim_space value) ≡ false
    → Absent (trim_space key) found
    → add_attribute (key ++ (b'=' ∷ value)) (words, found)
      ≡ ok (words, found ++ (trim_space key, trim_space value) ∷ [])
add_attribute-pair key value words found lacks some_key some_value absent =
    add_attribute-eq-add_cut (key ++ (b'=' ∷ value)) words found
    ∙ ap (add_cut (key ++ (b'=' ∷ value)) words found) (cut_byte-append b'=' key value lacks)
    ∙ rw (some_key, some_value, Absent-has_key (trim_space key) found absent) refl

parse_attributes-next :
    (ts u : Tokens) (word : Bytes) (before after : List Bytes × Attributes)
    → ts ≡ token attribute word ∷ u
    → add_attribute word before ≡ ok after
    → parse_attributes ts before ≡ parse_attributes u after
unfolding parse_attributes
parse_attributes-next ts u word before after next added =
    rw (next, parse_attributes) (rw added refl)

AttributeList-parse_attributes :
    {ts rest : Tokens} {words : List Bytes} {found attributes : Attributes}
    → AttributeList ts words found attributes rest
    → parse_attributes ts (words, found) ≡ ok (attributes, rest)
AttributeList-parse_attributes {ts} {rest} {words} {found} {attributes} (no_more ended closed end) =
    rw
      (
        NoAttribute-parse_attributes ts words found ended,
        Closed-close_attributes words found attributes closed,
      )
      cc
AttributeList-parse_attributes {words} {found} (shorthand {word} next lacks more) =
    parse_attributes-next _ _ word (words, found) _ next (add_attribute-word word words found lacks)
    ∙ AttributeList-parse_attributes more
AttributeList-parse_attributes {words} {found}
      (key_value key value next lacks some_key some_value absent more) =
    parse_attributes-next _ _ (key ++ (b'=' ∷ value)) (words, found) _ next
      (add_attribute-pair key value words found lacks some_key some_value absent)
    ∙ AttributeList-parse_attributes more

pattern_of-Names : (n : Bytes) → Names n (if is_empty n then codes "*" else n)
unfolding is_empty
pattern_of-Names [] = refl
pattern_of-Names (c ∷ s) = refl

Names-eq : (n p : Bytes) → Names n p → (if is_empty n then codes "*" else n) ≡ p
unfolding is_empty
Names-eq [] p h = sym h
Names-eq (c ∷ s) p h = sym h

Selector-selector_query :
    (kind name : Bytes) (ts u rest : Tokens) (attributes : Attributes) (q : AgentQuery)
    → ts ≡ token selector (kind ++ (b':' ∷ name)) ∷ u
    → Lacks b':' kind
    → is_empty (trim_space kind) ≡ false
    → AttributeList u [] [] attributes rest
    → selector_query kind name attributes ≡ q
    → Selector ts q rest
unfolding selector_query
Selector-selector_query kind name ts u rest attributes q next lacks some_kind list same =
    selector_with kind name _ next lacks some_kind (pattern_of-Names (trim_space name)) list same

abbrev with_query : Bytes → Bytes → Attributes × Tokens → Parsed
with_query kind name (attributes, rest) = ok (selector_query kind name attributes, rest)

-- behind the test of the kind
parsed-Selector :
    (kind name : Bytes) (ts u rest : Tokens) (q : AgentQuery) (r : Result (Attributes × Tokens))
    → parse_attributes u ([], []) ≡ r
    → ts ≡ token selector (kind ++ (b':' ∷ name)) ∷ u
    → Lacks b':' kind
    → is_empty (trim_space kind) ≡ false
    → (r >>= with_query kind name) ≡ ok (q, rest)
    → Selector ts q rest
parsed-Selector kind name ts u rest q (ok (attributes, after)) parsed next lacks some_kind h =
    Selector-selector_query kind name ts u rest attributes q next lacks some_kind
      (parse_attributes-AttributeList u rest [] [] attributes (parsed ∙ cc)) cc
parsed-Selector kind name ts u rest q (err e) parsed next lacks some_kind h = absurd cc
parsed-Selector kind name ts u rest q out_of_fuel parsed next lacks some_kind h = absurd cc

Cut-Selector :
    (value : Bytes) (u rest : Tokens) (q : AgentQuery) (cut : Option (Bytes × Bytes))
    → Cut b':' value cut
    → (elim cut as (λ x. Parsed) [
      | none ↦ err selector_syntax
      | some (kind, name) ↦
          if is_empty (trim_space kind)
          then err selector_syntax
          else (parse_attributes u ([], []) >>= with_query kind name)
    ])
      ≡ ok (q, rest)
    → Selector (token selector value ∷ u) q rest
unfolding Cut
Cut-Selector value u rest q none lacks h = absurd cc
Cut-Selector value u rest q (some (kind, name)) (e, lacks) h =
    if-split (λ r. r ≡ ok (q, rest) → Selector (token selector value ∷ u) q rest)
      (is_empty (trim_space kind)) (λ empty k. absurd cc)
      (λ some_kind k.
        parsed-Selector kind name (token selector value ∷ u) u rest q _ refl
          (ap (λ (x : Bytes). token selector x ∷ u) e) lacks some_kind k)
      h

-- What `parse_simple` reads is a selector with its attributes.
pub parse_simple-Selector :
    (ts rest : Tokens) (q : AgentQuery) → parse_simple ts ≡ ok (q, rest) → Selector ts q rest
unfolding parse_simple
parse_simple-Selector [] rest q h = absurd cc
parse_simple-Selector (token selector value ∷ ts) rest q h =
    Cut-Selector value ts rest q (cut_byte b':' value) (cut_byte-Cut b':' value) h
parse_simple-Selector (token operator value ∷ ts) rest q h = absurd cc
parse_simple-Selector (token lparen value ∷ ts) rest q h = absurd cc
parse_simple-Selector (token rparen value ∷ ts) rest q h = absurd cc
parse_simple-Selector (token attribute value ∷ ts) rest q h = absurd cc

-- `parse_simple` reads every selector with its attributes.
pub Selector-parse_simple :
    {ts rest : Tokens} {q : AgentQuery} → Selector ts q rest → parse_simple ts ≡ ok (q, rest)
unfolding parse_simple selector_query
Selector-parse_simple {rest}
      (selector_with kind name pattern next lacks some_kind named list same) =
    rw (next, parse_simple)
      (rw (cut_byte-append b':' kind name lacks) (
        rw some_kind (
          rw (AttributeList-parse_attributes list)
            (rw (Names-eq (trim_space name) pattern named) (ap (λ x. ok (x, rest)) same)))))
