-- ===== src/Search/Samples/Provider.antt =====
-- The theorems on `Query` and `Transform` at concrete inputs.
use morfx.Base.{ℕ, ◌+◌, ◌≡◌, refl, true, false, none, some, [], map, if◌then◌else◌, ltb, ◌-◌}
use morfx.Base.Bytes.{Bytes, codes, beq}
use morfx.Recipe.{Floats}
use morfx.Search.Cache.{fetched}
use morfx.Search.Engine.{find_targets}
use morfx.Search.Cache.Coherent.{Holds}
use morfx.Search.Confidence.{Arithmetic, confidence_level}
use morfx.Search.Provider.{
  TransformOp, Surroundings, target_to_match, query_tree, query_fetched, transform_tree,
  transform_fetched, query, transform,
}
use morfx.Search.Provider.Sound.{HasSoundConfidence, transform_fetched-HasSoundConfidence}
use morfx.Search.Provider.Settles.{Settles, transform_tree-Settles}
use morfx.Search.Provider.Agrees.{Agrees, transform_tree-Agrees}
use morfx.Search.Provider.Uncached.{query-uncached, transform-uncached}
use morfx.Search.Samples.{
  Label, sample_config, plain_patterns, sample_tree, functions, all_but_a, no_trees, sample_source,
  parse_sample, no_others,
}

-- scores in hundredths
abbrev hundredths : Floats
hundredths = record {
  Float = ℕ;
  lt = ltb;
  float_zero = 0;
  float_one = 100;
  default_min_confidence = 85;
}

abbrev constant_of : Bytes → ℕ
constant_of s = if beq s (codes "0.5") then 50 else if beq s (codes "0.8") then 80 else 10

abbrev whole_numbers : Arithmetic hundredths
whole_numbers = record {
  constant = constant_of;
  of_nat = λ n. n;
  add = λ a b. a + b;
  sub = λ a b. a - b;
  div = λ a b. a;
}

abbrev plain_surroundings : Surroundings Label
plain_surroundings = record {
  start_row = λ n. 0;
  start_position = λ l. (1, l.start + 1);
  normalize_query_type = none;
  is_exported = λ name. false;
  smart_append = none;
  unified_diff = λ original modified. none;
}

abbrev delete_a : TransformOp
delete_a = record {
  method = codes "delete";
  target = functions (codes "a");
  content = [];
  replacement = [];
}

transform_fetched-HasSoundConfidence_example :
    HasSoundConfidence plain_patterns sample_config plain_surroundings hundredths whole_numbers
      parse_sample
      ((refl, refl), (refl, refl))
      (transform_fetched plain_patterns sample_config plain_surroundings hundredths whole_numbers
        parse_sample
        (fetched (some sample_tree) true)
        sample_source
        delete_a)
unfolding confidence_level beq
transform_fetched-HasSoundConfidence_example =
    transform_fetched-HasSoundConfidence plain_patterns sample_config plain_surroundings hundredths
      whole_numbers parse_sample ((refl, refl), (refl, refl)) refl (fetched (some sample_tree) true)
      sample_source delete_a

transform_tree-Settles_example :
    Settles plain_patterns sample_config plain_surroundings hundredths whole_numbers parse_sample
      (codes "delete")
      (transform_tree plain_patterns sample_config plain_surroundings hundredths whole_numbers
        parse_sample sample_tree sample_source delete_a)
transform_tree-Settles_example =
    transform_tree-Settles plain_patterns sample_config plain_surroundings hundredths whole_numbers
      parse_sample sample_tree sample_source delete_a

transform_tree-Agrees_example :
    Agrees plain_patterns sample_config plain_surroundings hundredths whole_numbers parse_sample
      (map (target_to_match sample_source) (
        find_targets plain_patterns sample_config sample_source
          (functions (codes "a"))
          sample_tree))
      (query_tree plain_patterns sample_config plain_surroundings sample_tree sample_source
        (functions (codes "a")))
      (transform_tree plain_patterns sample_config plain_surroundings hundredths whole_numbers
        parse_sample sample_tree sample_source delete_a)
unfolding beq
transform_tree-Agrees_example =
    transform_tree-Agrees plain_patterns sample_config plain_surroundings hundredths whole_numbers
      parse_sample sample_tree sample_source delete_a refl

query-uncached_example :
    ((query plain_patterns sample_config plain_surroundings hundredths whole_numbers parse_sample
        (λ s. s)
        some
        5
        1
        no_others
        sample_source
        all_but_a
        no_trees).0
      ≡ query_fetched plain_patterns sample_config plain_surroundings
          (fetched (parse_sample sample_source) false)
          sample_source
          all_but_a)
    × Holds
        (λ s. s)
        parse_sample
        (λ s. Unit)
        (query plain_patterns sample_config plain_surroundings hundredths whole_numbers parse_sample
          (λ s. s)
          some
          5
          1
          no_others
          sample_source
          all_but_a
          no_trees).1.entries
query-uncached_example =
    query-uncached plain_patterns sample_config plain_surroundings hundredths whole_numbers
      parse_sample (λ s. s) some (λ t. refl) (λ s. Unit) (λ s s' in_use in_use' e. e) 5 1 no_others
      refl (λ c holds. holds) sample_source tt all_but_a no_trees tt

transform-uncached_example :
    ((transform plain_patterns sample_config plain_surroundings hundredths whole_numbers
        parse_sample
        (λ s. s)
        some
        5
        1
        no_others
        sample_source
        delete_a
        no_trees).0
      ≡ transform_fetched plain_patterns sample_config plain_surroundings hundredths whole_numbers
          parse_sample
          (fetched (parse_sample sample_source) false)
          sample_source
          delete_a)
    × Holds
        (λ s. s)
        parse_sample
        (λ s. Unit)
        (transform plain_patterns sample_config plain_surroundings hundredths whole_numbers
          parse_sample
          (λ s. s)
          some
          5
          1
          no_others
          sample_source
          delete_a
          no_trees).1.entries
transform-uncached_example =
    transform-uncached plain_patterns sample_config plain_surroundings hundredths whole_numbers
      parse_sample (λ s. s) some (λ t. refl) (λ s. Unit) (λ s s' in_use in_use' e. e) 5 1 no_others
      refl (λ c holds. holds) sample_source tt delete_a no_trees tt
