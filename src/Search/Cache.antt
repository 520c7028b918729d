-- ===== src/Search/Cache.antt =====
-- `ASTCache` of providers/base/cache.go: parsed trees by the hash of their source.
pub mod Coherent
use morfx.Base.{
  ℕ, ◌+◌, ◌-◌, ltb, Bool, true, false, Option, none, some, List, [], ◌∷◌, if◌then◌else◌,
}
use morfx.Base.Bytes.{Bytes, beq}

-- `CachedAST`; a tree is `none` where the copy of a tree was nil.
pub record Entry (T : Type 0) : Type 0 where
  pub tree : Option T
  pub timestamp : ℕ

pub record Cache (T : Type 0) : Type 0 where
  pub entries : List (Bytes × Entry T)
  pub hits : ℕ
  pub misses : ℕ
  pub evictions : ℕ

-- What `GetOrParse` returns, or that it follows a nil or a closed tree.
pub data Fetched (T : Type 0) : Type 0 where
  fetched : Option T → Bool → Fetched T
  nil_tree : Fetched T

-- What other goroutines do during a call: to the cache, and whether one of them, as `pruneExpired` may,
-- closes the tree that the call has found in the cache before it is copied.
pub record Others (T : Type 0) : Type 0 where
  pub change : Cache T → Cache T
  pub closes : Bool

module _ {T : Type 0} where
  unfoldable pub load : Bytes → List (Bytes × Entry T) → Option (Entry T)
  load k [] = none
  load k ((j, e) ∷ rest) = if beq k j then some e else load k rest

  pub delete : Bytes → List (Bytes × Entry T) → List (Bytes × Entry T)
  delete k [] = []
  delete k ((j, e) ∷ rest) = let kept = delete k rest in if beq k j then kept else (j, e) ∷ kept

  -- `LoadOrStore`, of which the caller only asks what the map holds afterwards
  pub load_or_store : Bytes → Entry T → List (Bytes × Entry T) → List (Bytes × Entry T)
  unfolding load
  load_or_store k e entries = elim (load k entries) [
    | none ↦ (k, e) ∷ entries
    | some other ↦ entries
  ]

  abbrev pub count_miss : Cache T → Cache T
  count_miss c = record c { misses = c.misses + 1 }

  abbrev pub count_hit : Cache T → Cache T
  count_hit c = record c { hits = c.hits + 1 }

  pub evict : Bytes → Cache T → Cache T
  unfolding delete
  evict k c = record c { entries = delete k c.entries; evictions = c.evictions + 1 }

-- `max_age` is the field of that name and `now` the clock at the call.
module _ {T : Type 0} (max_age : ℕ) (now : ℕ) where
  unfoldable pub is_expired : Entry T → Bool
  is_expired e = ltb max_age (now - e.timestamp)

  -- the loop of `pruneExpired`; a nil tree would stop the program there
  unfoldable pub prune_expired : List (Bytes × Entry T) → List (Bytes × Entry T)
  unfolding is_expired
  prune_expired [] = []
  prune_expired ((k, e) ∷ rest) =
      let kept = prune_expired rest in if is_expired e then kept else (k, e) ∷ kept

-- `hash` is the hexadecimal SHA-256, and `copy` tree-sitter's copy of a tree.
module _ {T : Type 0} (hash : Bytes → Bytes) (copy : T → Option T) (max_age : ℕ) (now : ℕ) where
  -- the part of `GetOrParse` below the counting of a miss; what other goroutines do to the cache stands
  -- behind the parse
  pub parse_and_store : Others T → (Bytes → Option T) → Bytes → Cache T → Fetched T × Cache T
  unfolding load_or_store
  parse_and_store others parse source c = elim (parse source) [
    | none ↦ (fetched none false, others.change c)
    | some t ↦ (
      fetched (some t) false,
      record (others.change c) {
        entries =
            load_or_store (hash source) (record { tree = copy t; timestamp = now })
              (others.change c).entries;
      },
    )
  ]

  pub use_entry :
      Others T → (Bytes → Option T) → Bytes → Cache T → Option T → Bool → Fetched T × Cache T
  unfolding evict parse_and_store
  use_entry others parse source c none true = (nil_tree, evict (hash source) c)
  use_entry others parse source c none false = (nil_tree, c)
  use_entry others parse source c (some t) true =
      parse_and_store others parse source (count_miss (evict (hash source) c))
  use_entry others parse source c (some t) false =
      (if others.closes then nil_tree else fetched (copy t) true, others.change c)

  unfoldable pub get_or_parse :
      Others T → (Bytes → Option T) → Bytes → Cache T → Fetched T × Cache T
  unfolding load is_expired use_entry parse_and_store
  get_or_parse others parse source c = elim (load (hash source) c.entries) [
    | none ↦ parse_and_store others parse source (count_miss c)
    | some e ↦ use_entry others parse source (count_hit c) e.tree (is_expired max_age now e)
  ]
