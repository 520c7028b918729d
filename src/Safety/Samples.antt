-- ===== src/Safety/Samples.antt =====
-- The theorems on atomic writes at concrete inputs.
use morfx.Base.{
  ltb, ◌↔◌, arith, ℕ, Bool, true, false, ◌≡◌, refl, none, some, [], ◌∷◌, if◌then◌else◌,
}
use morfx.Base.Bytes.{Bytes, codes, beq, is_empty}
use morfx.Disk.{failure, success}
use morfx.Journal.{Logged}
use morfx.Safety.{
  SafetyFile, SafetyOperation, validate_operation, SafetyConfig, per_file, written, write_failed,
  atomic_write, commit_write, rollback, tmp_path_of, backup_path_of,
}
use morfx.Safety.Atomic.{IsAtomic, atomic_write-IsAtomic}
use morfx.Safety.Limits.{Within, AllWithin, Confident, validate_operation_iff}
use morfx.Safety.Rollback.{commit_write-rename_fails}
use morfx.Safety.Unnamed.{atomic_write-removes_target}
use morfx.Safety.Undo.{atomic_write-rollback, atomic_write-rollback_unbacked}

-- `DefaultConfig`, with thresholds in hundredths; the arguments are its settings for backups and for
-- the transaction log.
abbrev config_with : Bool → Bool → SafetyConfig ℕ
config_with backups logging = record {
  max_files = 1000;
  max_file_size = 10485760;
  max_total_size = 104857600;
  confidence_mode = per_file;
  per_file_threshold = 70;
  global_threshold = 85;
  validate_file_hashes = true;
  use_fsync = false;
  create_backups = backups;
  backup_suffix = codes ".morfx.bak";
  transaction_log = logging;
}

abbrev main_go : Bytes
main_go = codes "a.go"

-- `a.go` holds "old", and `a.go.tmp.7f` holds "new".
abbrev quiet_disk : Logged
quiet_disk = record {
  world = record {
    files = λ q.
        if beq main_go q
        then some (codes "old")
        else if beq (codes "a.go.tmp.7f") q
        then some (codes "new")
        else none;
    outcomes = [];
  };
  transactions = [];
}

abbrev failing_disk : Logged
failing_disk = record quiet_disk {
  world = record { files = quiet_disk.world.files; outcomes = failure 0 ∷ [] };
}

-- The write of the temporary file fails after two bytes.
abbrev torn_disk : Logged
torn_disk = record quiet_disk {
  world = record { files = quiet_disk.world.files; outcomes = success ∷ failure 3 ∷ [] };
}

atomic_write-IsAtomic_example : IsAtomic main_go (some (codes "old")) (codes "new") (
    atomic_write
      (config_with true false)
      (some (codes "7f"))
      (codes "tx")
      main_go
      (codes "new")
      torn_disk)
unfolding beq
atomic_write-IsAtomic_example =
    atomic_write-IsAtomic (config_with true false) main_go (λ e e'. cc) refl (some (codes "7f"))
      (codes "tx") (codes "new") torn_disk

commit_write-rename_fails_example :
    ((commit_write
        (config_with true true)
        (codes "tx")
        main_go
        (codes "a.go.tmp.7f")
        failing_disk).0
      ≡ write_failed)
    × ((commit_write
            (config_with true true)
            (codes "tx")
            main_go
            (codes "a.go.tmp.7f")
            failing_disk).1.world.files
          main_go
        ≡ none)
unfolding beq
commit_write-rename_fails_example =
    commit_write-rename_fails (config_with true true) (codes "tx") main_go (codes "a.go.tmp.7f")
      failing_disk refl refl 0 refl

atomic_write-rollback_example :
    ((atomic_write
        (config_with true true)
        (some (codes "7f"))
        (codes "tx")
        main_go
        (codes "new")
        quiet_disk).0
      ≡ written (some (codes "tx")))
    × ((rollback
            (some (codes "tx"))
            (atomic_write
              (config_with true true)
              (some (codes "7f"))
              (codes "tx")
              main_go
              (codes "new")
              quiet_disk).1).1.world.files
          main_go
        ≡ some (codes "old"))
unfolding beq tmp_path_of backup_path_of
atomic_write-rollback_example =
    atomic_write-rollback (config_with true true) main_go (codes "7f") (codes "tx") (codes "new")
      quiet_disk refl refl (codes "old") refl refl (λ e. cc) refl

atomic_write-rollback_unbacked_example :
    ((atomic_write
        (config_with false true)
        (some (codes "7f"))
        (codes "tx")
        main_go
        (codes "new")
        quiet_disk).0
      ≡ written (some (codes "tx")))
    × ((rollback
            (some (codes "tx"))
            (atomic_write
              (config_with false true)
              (some (codes "7f"))
              (codes "tx")
              main_go
              (codes "new")
              quiet_disk).1).1.world.files
          main_go
        ≡ none)
unfolding beq
atomic_write-rollback_unbacked_example =
    atomic_write-rollback_unbacked (config_with false true) main_go (codes "7f") (codes "tx")
      (codes "new") quiet_disk refl refl (codes "old") refl refl

abbrev small_file : SafetyFile ℕ
small_file = record { path = main_go; size = 300; confidence = 80 }

abbrev two_files : SafetyOperation ℕ
two_files = record { files = small_file ∷ small_file ∷ []; global_confidence = 80 }

validate_operation_iff_example :
    (validate_operation ltb (config_with true true) two_files ≡ none) ↔ (
      Within 1000 2
      × AllWithin 10485760 (small_file ∷ small_file ∷ [])
      × Within 104857600 600
      × Confident ltb per_file (config_with true true) two_files)
validate_operation_iff_example =
    validate_operation_iff ltb (config_with true true) two_files (omega arith)

-- The first five calls succeed.
abbrev sixth_fails : Logged
sixth_fails = record quiet_disk {
  world = record {
    files = quiet_disk.world.files;
    outcomes = success ∷ success ∷ success ∷ success ∷ success ∷ failure 0 ∷ [];
  };
}

abbrev unnamed_backups : SafetyConfig ℕ
unnamed_backups = record (config_with true false) { backup_suffix = [] }

atomic_write-removes_target_example :
    ((atomic_write unnamed_backups
        (some (codes "7f"))
        (codes "tx")
        main_go
        (codes "new")
        sixth_fails).0
      ≡ write_failed)
    × ((atomic_write unnamed_backups
            (some (codes "7f"))
            (codes "tx")
            main_go
            (codes "new")
            sixth_fails).1.world.files
          main_go
        ≡ none)
unfolding beq is_empty
atomic_write-removes_target_example =
    atomic_write-removes_target unnamed_backups main_go refl refl (codes "7f") (codes "tx")
      (codes "new") (codes "old") sixth_fails 0 refl refl refl
