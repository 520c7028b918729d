-- ===== src/Safety.antt =====
-- mcp/safety.go: the checks before an operation, and the atomic write.
pub mod Atomic
pub mod Limits
pub mod Rollback
pub mod Undo
pub mod Unnamed
mod Samples
use morfx.Base.{
  ◌⊎◌, inl, inr, ℕ, ◌+◌, ◌^◌, ◌%◌, ltb, Bool, true, false, ◌&&◌, Option, none, some, List, [], ◌∷◌,
  ◌++◌, length, if◌then◌else◌,
}
use morfx.Base.Bytes.{Bytes, codes, is_empty}
use morfx.Disk.{
  World, Stat, stat, present, missing, stat_error, read_file, write_file, touch, rename, remove,
}
use morfx.Journal.{
  Logged, begin_transaction, complete_transaction, fail_transaction, rollback_transaction,
}

-- the string `ConfidenceMode`; any other string is `no_mode`
pub data ConfidenceMode : Type 0 where
  per_file global both no_mode : ConfidenceMode

-- `SafetyConfig`; a limit that is not positive is 0. `Float` stands for float64.
pub record SafetyConfig (Float : Type 0) : Type 0 where
  pub max_files : ℕ
  pub max_file_size : ℕ
  pub max_total_size : ℕ
  pub confidence_mode : ConfidenceMode
  pub per_file_threshold : Float
  pub global_threshold : Float
  pub validate_file_hashes : Bool
  pub use_fsync : Bool
  pub create_backups : Bool
  pub backup_suffix : Bytes
  pub transaction_log : Bool

pub record SafetyFile (Float : Type 0) : Type 0 where
  pub path : Bytes
  pub size : ℕ
  pub confidence : Float

pub record SafetyOperation (Float : Type 0) : Type 0 where
  pub files : List (SafetyFile Float)
  pub global_confidence : Float

pub data SafetyError : Type 0 where
  too_many_files total_size_too_large confidence_too_low : SafetyError
  file_too_large per_file_confidence_low file_modified file_system_error : Bytes → SafetyError

-- `+` and `>` of int64, on numbers below 2 ^ 64 that stand for the bit pattern; the right side of
-- the test is not negative.
abbrev pub add_int64 : ℕ → ℕ → ℕ
add_int64 a b = (a + b) % 2 ^ 64

abbrev pub gt_int64 : ℕ → ℕ → Bool
gt_int64 a b = ltb a (2 ^ 63) && ltb b a

abbrev orelse : Option SafetyError → Option SafetyError → Option SafetyError
orelse none other = other
orelse (some e) other = some e

-- `lt` is `<` on float64.
module _ {Float : Type 0} (lt : Float → Float → Bool) where
  -- the first loop, with the total so far: an error, or the total
  pub check_sizes : ℕ → ℕ → List (SafetyFile Float) → SafetyError ⊎ ℕ
  check_sizes limit total [] = inr total
  check_sizes limit total (file ∷ files) =
      let rest = check_sizes limit (add_int64 total file.size) files in
      if ltb 0 limit && ltb limit file.size then inl (file_too_large file.path) else rest

  pub check_per_file : Float → List (SafetyFile Float) → Option SafetyError
  check_per_file threshold [] = none
  check_per_file threshold (file ∷ files) =
      let rest = check_per_file threshold files in
      if lt file.confidence threshold then some (per_file_confidence_low file.path) else rest

  pub check_global : SafetyConfig Float → SafetyOperation Float → Option SafetyError
  check_global config op =
      if lt op.global_confidence config.global_threshold then some confidence_too_low else none

  -- the `switch` on the confidence mode
  pub check_confidence :
      ConfidenceMode → SafetyConfig Float → SafetyOperation Float → Option SafetyError
  unfolding check_per_file check_global
  check_confidence per_file config op = check_per_file config.per_file_threshold op.files
  check_confidence global config op = check_global config op
  check_confidence both config op =
      orelse (check_per_file config.per_file_threshold op.files) (check_global config op)
  check_confidence no_mode config op = none

  -- `none` is the nil error.
  unfoldable pub validate_operation :
      SafetyConfig Float → SafetyOperation Float → Option SafetyError
  unfolding check_sizes check_confidence
  validate_operation config op =
      if ltb 0 config.max_files && ltb config.max_files (length op.files)
      then some too_many_files
      else elim (check_sizes config.max_file_size 0 op.files) [
        | inl e ↦ some e
        | inr total ↦
            if ltb 0 config.max_total_size && gt_int64 total config.max_total_size
            then some total_size_too_large
            else check_confidence config.confidence_mode config op
      ]

-- What an atomic write returns. The handle of a logged write holds its transaction's ID.
pub data WriteResult : Type 0 where
  written : Option Bytes → WriteResult
  write_failed backup_failed stat_failed : WriteResult

pub write_backup : Option Bytes → Bytes → World → Bool × World
write_backup none dst w = (false, w)
write_backup (some bytes) dst w =
    let (copied, w') = write_file dst bytes w in if copied then touch dst w' else (false, w')

pub copy_present : Stat → Bytes → Bytes → World → Bool × World
unfolding write_backup
copy_present missing src dst w = (true, w)
copy_present stat_error src dst w = (false, w)
copy_present present src dst w = let (content, w') = read_file src w in write_backup content dst w'

-- `createBackup`; true is success
pub create_backup : Bytes → Bytes → World → Bool × World
unfolding copy_present
create_backup src dst w = let (there, w') = stat src w in copy_present there src dst w'

pub cleanup_failed_write : Bytes → Bytes → World → World
cleanup_failed_write tmp_path backup_path w =
    let w₁ = (remove tmp_path w).1 in if is_empty backup_path then w₁ else (remove backup_path w₁).1

pub tmp_path_of : Bytes → Bytes → Bytes
tmp_path_of path suffix = path ++ (codes ".tmp." ++ suffix)

module _ {Float : Type 0} (config : SafetyConfig Float) where
  pub backup_path_of : Bytes → Bytes
  backup_path_of path = if config.create_backups then path ++ config.backup_suffix else []

  pub make_backup : Bytes → World → Bool × World
  make_backup path w =
      if config.create_backups then create_backup path (backup_path_of path) w else (true, w)

  -- `syncFile`, if the configuration asks for it
  pub sync : Bytes → World → Bool × World
  sync path w = if config.use_fsync then touch path w else (true, w)

  -- The temporary file is written and synced; what is left is the log, the rename and the directory.
  pub commit_write : Bytes → Bytes → Bytes → Logged → WriteResult × Logged
  commit_write tx_id path tmp_path s =
      let backup_path = backup_path_of path in
      let logged =
        if config.transaction_log
        then begin_transaction tx_id path tmp_path backup_path s.transactions
        else s.transactions in
      let (renamed, w) = rename tmp_path path s.world in
      let done : Logged = record { world = (sync path w).1; transactions = logged } in
      let cleaned : Logged = record {
        world = cleanup_failed_write tmp_path backup_path w;
        transactions = logged;
      } in
      if renamed then (written (if config.transaction_log then some tx_id else none), done) else (
        write_failed,
        if config.transaction_log then (fail_transaction tx_id cleaned).1 else cleaned,
      )

  -- The temporary file, its content and its sync; on a failure the files of the write are removed.
  pub write_tmp : Bytes → Bytes → Bytes → World → Bool × World
  write_tmp path tmp_path content w =
      let (wrote, w₁) = write_file tmp_path content w in
      let (synced, w₂) = sync tmp_path w₁ in
      if wrote
      then (if synced
          then (true, w₂)
          else (false, cleanup_failed_write tmp_path (backup_path_of path) w₂))
      else (false, cleanup_failed_write tmp_path (backup_path_of path) w₁)

  -- `AtomicWrite` behind the test of the target; `suffix` is what `generateRandomSuffix` returns.
  pub write_checked : Option Bytes → Bytes → Bytes → Bytes → Logged → WriteResult × Logged
  write_checked none tx_id path content s = (write_failed, s)
  write_checked (some suffix) tx_id path content s =
      let tmp_path = tmp_path_of path suffix in
      let (backed_up, w₁) = make_backup path s.world in
      let (ready, w₂) = write_tmp path tmp_path content w₁ in
      if backed_up
      then (if ready
          then commit_write tx_id path tmp_path (record s { world = w₂ })
          else (write_failed, record s { world = w₂ }))
      else (backup_failed, record s { world = w₁ })

  unfoldable pub atomic_write : Option Bytes → Bytes → Bytes → Bytes → Logged → WriteResult × Logged
  unfolding write_checked make_backup write_tmp commit_write tmp_path_of create_backup
      cleanup_failed_write backup_path_of sync
  atomic_write suffix tx_id path content s =
      let (there, w) = stat path s.world in
      elim there [
        | stat_error ↦ (stat_failed, record s { world = w })
        | _ ↦ write_checked suffix tx_id path content (record s { world = w })
      ]

-- `AtomicWriteHandle.Commit`: the handle and the log after it
unfoldable pub commit : Option Bytes → Logged → Option Bytes × Logged
commit none s = (none, s)
commit (some tx_id) s =
    (none, record s { transactions = complete_transaction tx_id s.transactions })

-- `AtomicWriteHandle.Rollback`; true is success
unfoldable pub rollback : Option Bytes → Logged → Bool × Logged
rollback none s = (true, s)
rollback (some tx_id) s = rollback_transaction tx_id s
