-- ===== src/Files/Samples.antt =====
-- Tests of the file processor, and its theorems at concrete inputs.
use morfx.Base.{
  ℕ, ◌+◌, ◌-◌, ltb, ◌≡◌, refl, ap, if-split, Bool, true, false, ◌||◌, Option, none, some, List, [],
  ◌∷◌, ◌++◌, if◌then◌else◌,
}
use morfx.Base.Bytes.{Bytes, codes, beq, beq→eq, is_empty}
use morfx.Dsl.Query.{agent_query, no_child, nil}
use morfx.Disk.{success, failure, World, Files, stat, read_file, write_file, touch, rename}
use morfx.Recipe.{Floats, FileTransformOp}
use morfx.Search.{has}
use morfx.Search.Confidence.{Arithmetic}
use morfx.Files.Quiet.{Place, kept, lock, scratch}
use morfx.Files.Transaction.{
  begin_transaction, add_operation, complete_operation, rollback_transaction,
}
use morfx.Files.Writer.{AtomicWriteConfig, Surrounding, write_atomically, lock_of, temp_of}
use morfx.Files.Writer.Quiet.{write_atomically-Like}
use morfx.Files.Writer.Atomic.{IsAtomic, write_atomically-IsAtomic}
use morfx.Files.Processor.{WalkResult, transformed, FileProcessor, transform_files}
use morfx.Files.Processor.Plan.{planned, plan, any_failure}
use morfx.Files.Processor.AllOrNothing.{AllOrNone, transform_files-AllOrNone}
use morfx.Files.Processor.Dry.{transform_files-dry}

-- scores in hundredths
abbrev hundredths : Floats
hundredths = record {
  Float = ℕ;
  lt = ltb;
  float_zero = 0;
  float_one = 100;
  default_min_confidence = 85;
}

abbrev whole_numbers : Arithmetic hundredths
whole_numbers = record {
  constant = λ s. 10;
  of_nat = λ n. n;
  add = λ a b. a + b;
  sub = λ a b. a - b;
  div = λ a b. a;
}

abbrev writer_config : AtomicWriteConfig
writer_config = record { use_fsync = false; temp_suffix = codes ".tmp"; backup_original = false }

abbrev alone : Surrounding
alone = record {
  own_pid = codes "1";
  is_alive = λ content. false;
  timestamp = codes "t";
  is_late = [];
}

abbrev log_path : Bytes → Bytes
log_path id = id ++ codes ".json"

-- The files are "a" and "c", the transaction is "t".
abbrev place_of : Bytes → Place
place_of p =
    if beq p (codes "a.lock") || beq p (codes "c.lock")
    then lock
    else if beq p (codes "a.tmp") || beq p (codes "c.tmp") || beq p (codes "t.json")
    then scratch
    else kept

abbrev CanWrite : Bytes → Type 0
CanWrite path =
    (place_of path ≡ kept)
    × (place_of (lock_of path) ≡ lock)
    × (place_of (temp_of writer_config path) ≡ scratch)

abbrev file_at : Bytes → Bytes → WalkResult
file_at path backup_path = record { path = path; language = codes "go"; backup_path = backup_path }

abbrev two_files : List WalkResult
two_files = file_at (codes "a") (codes "a.bak") ∷ file_at (codes "c") (codes "c.bak") ∷ []

abbrev sample_processor : FileProcessor hundredths
sample_processor = record {
  get_provider = λ language. some (λ content op.
      transformed (codes "new") 1 (record { score = 90; level = codes "high"; factors = [] }));
  safety_enabled = true;
  validate_batch = none;
  validate_file_change = none;
  walk_scope = λ scope files. some (two_files, []);
  write_atomic = write_atomically writer_config 1 alone;
}

abbrev replacing : Bool → FileTransformOp
replacing dry = record {
  method = codes "replace";
  target = agent_query (codes "function") (codes "f") no_child false [] nil [];
  content = [];
  replacement = codes "new";
  scope = record {
    path = codes ".";
    include = [];
    exclude = [];
    max_depth = 0;
    max_files = 0;
    follow_symlinks = false;
    language = codes "go";
  };
  dry_run = dry;
  backup = false;
  parallel = false;
}

-- The file "a" is there, and "c" is not.
abbrev sample_files : Files
sample_files p = if beq p (codes "a") then some (codes "old") else none

abbrev sample_world : World
sample_world = record { files = sample_files; outcomes = [] }

first_is_restored :
    (transform_files hundredths whole_numbers log_path
        (λ tx. codes "log")
        sample_processor
        (replacing false)
        (codes "t")
        sample_world).1.files
      (codes "a")
    ≡ some (codes "old")
unfolding transform_files begin_transaction write_file read_file beq add_operation stat touch
    write_atomically rename complete_operation rollback_transaction is_empty
first_is_restored = refl

log_scratch : place_of (log_path (codes "t")) ≡ scratch
unfolding beq
log_scratch = refl

a_kept : place_of (codes "a") ≡ kept
unfolding beq
a_kept = refl

no_locks : (q : Bytes) → place_of q ≡ lock → sample_files q ≡ none
no_locks q is_lock =
    if-split (λ (r : Option Bytes). r ≡ none) (beq q (codes "a"))
      (λ e. let same = ap place_of (beq→eq q (codes "a") e) in let a = a_kept in absurd cc)
      (λ e. refl)

transform_files-AllOrNone_example :
    AllOrNone hundredths whole_numbers log_path
      (λ tx. codes "log")
      sample_processor
      (replacing false)
      refl
      refl
      place_of
      CanWrite
      (λ path content w g can like.
        write_atomically-Like path writer_config refl place_of 0 alone content w g like can.0 can.1
          can.2)
      (codes "t")
      log_scratch
      (planned hundredths sample_processor (replacing false) two_files sample_files)
      true
      sample_files
      (transform_files hundredths whole_numbers log_path
        (λ tx. codes "log")
        sample_processor
        (replacing false)
        (codes "t")
        sample_world)
unfolding beq is_empty planned plan any_failure has
transform_files-AllOrNone_example =
    transform_files-AllOrNone hundredths whole_numbers log_path (λ tx. codes "log") sample_processor
      (replacing false) refl refl place_of CanWrite
      (λ path content w g can like.
        write_atomically-Like path writer_config refl place_of 0 alone content w g like can.0 can.1
          can.2)
      (codes "t") log_scratch two_files [] sample_world sample_files
      (record { quiet = refl; same = λ q q_kept. refl; idle = no_locks }) (λ v like. refl) refl
      (((refl, refl, refl), refl, refl, refl), (((refl, refl, refl), refl, refl, refl), tt))
      (refl, refl, tt)

transform_files-dry_example :
    (transform_files hundredths whole_numbers log_path
        (λ tx. codes "log")
        sample_processor
        (replacing true)
        (codes "t")
        sample_world).1.files
      (codes "a")
    ≡ some (codes "old")
unfolding beq
transform_files-dry_example =
    transform_files-dry hundredths whole_numbers log_path (λ tx. codes "log") sample_processor
      (replacing true) refl refl (codes "a") (codes "t") sample_world

-- The fourth call fails.
abbrev failing_world : World
failing_world = record {
  files = sample_files;
  outcomes = success ∷ success ∷ success ∷ failure 0 ∷ [];
}

write_atomically-IsAtomic_example :
    IsAtomic
      (codes "a")
      (failing_world.files (codes "a"))
      (codes "new")
      (write_atomically writer_config 1 alone (codes "a") (codes "new") failing_world)
write_atomically-IsAtomic_example =
    write_atomically-IsAtomic writer_config (λ e. cc) (codes "a") 1 alone (codes "new")
      failing_world
