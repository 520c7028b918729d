-- ===== src/Files/Transaction.antt =====
-- `TransactionManager` of core/transaction.go.
pub mod Quiet
pub mod Rollback
use morfx.Base.{
  Bool, true, false, ◌&&◌, ◌||◌, not, Option, none, some, List, [], ◌∷◌, ◌++◌, if◌then◌else◌, ◌⊎◌,
  inl, inr,
}
use morfx.Base.Bytes.{Bytes, codes, beq, is_empty}
use morfx.Disk.{World, stat, Stat, present, missing, stat_error, read_file, write_file, remove}
use morfx.Files.{branch, copy_file}

-- `TransactionOperation`, less its checksum and its time; of its error the fact that there is one
pub record TransactionOperation : Type 0 where
  pub op_type : Bytes
  pub file_path : Bytes
  pub backup_path : Bytes
  pub completed : Bool
  pub has_error : Bool

pub data TransactionStatus : Type 0 where
  pending committed rolled_back : TransactionStatus

-- `TransactionLog`, less its times and its description
pub record TransactionLog : Type 0 where
  pub id : Bytes
  pub operations : List TransactionOperation
  pub status : TransactionStatus

pub data TransactionError : Type 0 where
  already_in_progress operation_not_found : Bytes → TransactionError
  no_active_transaction log_not_written checksum_failed backup_failed : TransactionError
  has_failed_operations : TransactionError
  rollback_errors : List Bytes → Bool → TransactionError

-- The current transaction and the disk.
pub record Manager : Type 0 where
  pub current : Option TransactionLog
  pub world : World

-- `log_of` is the path of the log of a transaction, `print` its JSON text, and `write` the WriteFile of
-- the atomic writer.
module _ (log_of : Bytes → Bytes) (print : TransactionLog → Bytes)
    (write : Bytes → Bytes → World → Bool × World) where
  pub write_transaction_log : TransactionLog → World → Bool × World
  write_transaction_log tx w = write_file (log_of tx.id) (print tx) w

  abbrev pub new_transaction : Bytes → TransactionLog
  new_transaction id = record { id = id; operations = []; status = pending }

  abbrev pub begun : TransactionLog → Bool × World → Option TransactionError × Manager
  begun tx (true, w) = (none, record { current = some tx; world = w })
  begun tx (false, w) = (some log_not_written, record { current = none; world = w })

  unfoldable pub begin_transaction : Bytes → Manager → Option TransactionError × Manager
  unfolding write_transaction_log
  begin_transaction id tm = elim tm.current [
    | some tx ↦ (some (already_in_progress tx.id), tm)
    | none ↦ begun (new_transaction id) (write_transaction_log (new_transaction id) tm.world)
  ]

  abbrev pub takes_checksum : Bytes → Bool
  takes_checksum op_type = beq op_type (codes "modify") || beq op_type (codes "delete")

  -- The backup path of an operation, or an error. The checksum reads the file.
  pub back_up_read :
      Bytes → Bytes → Bytes → Option Bytes × World → (TransactionError ⊎ Bytes) × World
  unfolding copy_file
  back_up_read op_type path backup_path (none, w) = (inl checksum_failed, w)
  back_up_read op_type path backup_path (some content, w) =
      if beq op_type (codes "modify")
      then branch (copy_file path backup_path w) (λ v. (inr backup_path, v))
          (λ v. (inl backup_failed, v))
      else (inr [], w)

  abbrev pub back_up_stated :
      Bytes → Bytes → Bytes → Stat × World → (TransactionError ⊎ Bytes) × World
  back_up_stated op_type path backup_path (present, w) =
      back_up_read op_type path backup_path (read_file path w)
  back_up_stated op_type path backup_path (missing, w) = (inr [], w)
  back_up_stated op_type path backup_path (stat_error, w) = (inr [], w)

  pub back_up_operation : Bytes → Bytes → Bytes → World → (TransactionError ⊎ Bytes) × World
  unfolding back_up_read
  back_up_operation op_type path backup_path w =
      if takes_checksum op_type
      then back_up_stated op_type path backup_path (stat path w)
      else (inr [], w)

  abbrev pub new_operation : Bytes → Bytes → Bytes → TransactionOperation
  new_operation op_type path backup_path = record {
    op_type = op_type;
    file_path = path;
    backup_path = backup_path;
    completed = false;
    has_error = false;
  }

  abbrev pub with_operation : TransactionLog → TransactionOperation → TransactionLog
  with_operation tx op = record tx { operations = tx.operations ++ op ∷ [] }

  abbrev pub added :
      TransactionLog
      → TransactionOperation
      → Bool × World
      → (TransactionError ⊎ TransactionOperation) × Manager
  added tx op (true, w) = (inr op, record { current = some tx; world = w })
  added tx op (false, w) = (inl log_not_written, record { current = some tx; world = w })

  pub record_operation :
      TransactionLog
      → Bytes
      → Bytes
      → (TransactionError ⊎ Bytes) × World
      → (TransactionError ⊎ TransactionOperation) × Manager
  unfolding write_transaction_log
  record_operation tx op_type path (inl e, w) = (inl e, record { current = some tx; world = w })
  record_operation tx op_type path (inr backup_path, w) =
      let op = new_operation op_type path backup_path in
      added (with_operation tx op) op (write_transaction_log (with_operation tx op) w)

  -- `AddOperation`; `backup_path` is the path that `generateBackupPath` makes
  unfoldable pub add_operation :
      Bytes → Bytes → Bytes → Manager → (TransactionError ⊎ TransactionOperation) × Manager
  unfolding back_up_operation record_operation
  add_operation op_type path backup_path tm = elim tm.current [
    | none ↦ (inl no_active_transaction, tm)
    | some tx ↦
        record_operation tx op_type path (back_up_operation op_type path backup_path tm.world)
  ]

  -- the loop of `CompleteOperation`; `none` is the operation not found
  unfoldable pub complete_first :
      Bytes → Bool → List TransactionOperation → Option (List TransactionOperation)
  complete_first path has_error [] = none
  complete_first path has_error (op ∷ ops) =
      let rest = complete_first path has_error ops in
      if beq op.file_path path && not op.completed
      then some (record op { completed = true; has_error = op.has_error || has_error } ∷ ops)
      else elim rest [ none ↦ none | some os ↦ some (op ∷ os) ]

  abbrev pub kept_as : TransactionLog → Bool × World → Option TransactionError × Manager
  kept_as tx (true, w) = (none, record { current = some tx; world = w })
  kept_as tx (false, w) = (some log_not_written, record { current = some tx; world = w })

  pub store_completed :
      TransactionLog
      → Bytes
      → Option (List TransactionOperation)
      → World
      → Option TransactionError × Manager
  unfolding write_transaction_log
  store_completed tx path none w =
      (some (operation_not_found path), record { current = some tx; world = w })
  store_completed tx path (some ops) w =
      kept_as (record tx { operations = ops })
        (write_transaction_log (record tx { operations = ops }) w)

  unfoldable pub complete_operation : Bytes → Bool → Manager → Option TransactionError × Manager
  unfolding complete_first store_completed
  complete_operation path has_error tm = elim tm.current [
    | none ↦ (some no_active_transaction, tm)
    | some tx ↦ store_completed tx path (complete_first path has_error tx.operations) tm.world
  ]

  unfoldable pub all_succeeded : List TransactionOperation → Bool
  all_succeeded [] = true
  all_succeeded (op ∷ ops) = op.completed && not op.has_error && all_succeeded ops

  abbrev pub ended : Bool × World → Option TransactionError × Manager
  ended (true, w) = (none, record { current = none; world = w })
  ended (false, w) = (some log_not_written, record { current = none; world = w })

  pub commit_found : TransactionLog → World → Option TransactionError × Manager
  unfolding all_succeeded write_transaction_log
  commit_found tx w =
      if all_succeeded tx.operations
      then ended (write_transaction_log (record tx { status = committed }) w)
      else (some has_failed_operations, record { current = some tx; world = w })

  unfoldable pub commit_transaction : Manager → Option TransactionError × Manager
  unfolding commit_found
  commit_transaction tm = elim tm.current [
    | none ↦ (some no_active_transaction, tm)
    | some tx ↦ commit_found tx tm.world
  ]

  abbrev pub write_back : Bytes → Option Bytes × World → Bool × World
  write_back path (none, w) = (false, w)
  write_back path (some content, w) = write path content w

  abbrev pub restore_stated : TransactionOperation → Stat × World → Bool × World
  restore_stated op (present, w) = write_back op.file_path (read_file op.backup_path w)
  restore_stated op (missing, w) = (false, w)
  restore_stated op (stat_error, w) = (false, w)

  pub restore : TransactionOperation → World → Bool × World
  restore op w =
      if op.has_error
      then (true, w)
      else if is_empty op.backup_path
      then (false, w)
      else restore_stated op (stat op.backup_path w)

  abbrev remove_stated : Bytes → Stat × World → Bool × World
  remove_stated path (present, w) = remove path w
  remove_stated path (missing, w) = (true, w)
  remove_stated path (stat_error, w) = (true, w)

  pub remove_created : Bytes → World → Bool × World
  remove_created path w = remove_stated path (stat path w)

  -- `rollbackOperation`
  unfoldable pub rollback_operation : TransactionOperation → World → Bool × World
  unfolding restore remove_created
  rollback_operation op w =
      if beq op.op_type (codes "modify")
      then restore op w
      else if beq op.op_type (codes "create")
      then remove_created op.file_path w
      else (false, w)

  abbrev pub noted : Bytes → List Bytes → Bool × World → List Bytes × World
  noted path failed (true, w) = (failed, w)
  noted path failed (false, w) = (failed ++ path ∷ [], w)

  abbrev pub rollback_one : TransactionOperation → List Bytes × World → List Bytes × World
  rollback_one op (failed, w) =
      if op.completed then noted op.file_path failed (rollback_operation op w) else (failed, w)

  -- the loop of `RollbackTransaction`, from the last operation to the first; the paths that failed
  unfoldable pub rollback_each : List TransactionOperation → World → List Bytes × World
  unfolding rollback_operation
  rollback_each [] w = ([], w)
  rollback_each (op ∷ ops) w = rollback_one op (rollback_each ops w)

  abbrev pub rolled : List Bytes → Bool × World → Option TransactionError × Manager
  rolled [] (true, w) = (none, record { current = none; world = w })
  rolled failed (logged, w) =
      (some (rollback_errors failed (not logged)), record { current = none; world = w })

  abbrev pub close_rollback :
      TransactionLog → List Bytes × World → Option TransactionError × Manager
  close_rollback tx (failed, w) =
      rolled failed (write_transaction_log (record tx { status = rolled_back }) w)

  pub rollback_found : TransactionLog → World → Option TransactionError × Manager
  unfolding rollback_each write_transaction_log
  rollback_found tx w = close_rollback tx (rollback_each tx.operations w)

  unfoldable pub rollback_transaction : Manager → Option TransactionError × Manager
  unfolding rollback_found
  rollback_transaction tm = elim tm.current [
    | none ↦ (some no_active_transaction, tm)
    | some tx ↦ rollback_found tx tm.world
  ]
