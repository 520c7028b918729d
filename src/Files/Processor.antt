-- ===== src/Files/Processor.antt =====
-- `transformFile` and `TransformFiles` of core/fileprocessor.go, with one file after the other.
pub mod Overall
pub mod Plan
pub mod Quiet
pub mod Each
pub mod AllOrNothing
pub mod Dry
use morfx.Base.{
  ℕ, zero, suc, ◌+◌, Bool, true, false, ◌&&◌, ◌||◌, not, Option, none, some, List, [], ◌∷◌, ◌++◌,
  if◌then◌else◌, ◌⊎◌, inl, inr, length,
}
use morfx.Base.Bytes.{Bytes, codes, beq}
use morfx.Disk.{World, Files, stat, present, missing, stat_error, read_file, write_file, touch}
use morfx.Recipe.{Floats, FileScope, FileTransformOp, FileTransformResult, Answer, failed, returned}
use morfx.Search.Confidence.{Arithmetic, ConfidenceScore}
use morfx.Files.{branch, copy_file}
use morfx.Files.Transaction.{
  TransactionOperation, TransactionLog, TransactionError, Manager, begin_transaction, add_operation,
  complete_operation, commit_transaction, rollback_transaction,
}
use morfx.Files.Processor.Overall.{
  Detail, DetailError, no_provider, failed_to_read, transformation_failed, refused_by_safety,
  not_registered, not_backed_up, failed_to_write, not_completed, new_detail, has_failed,
  overall_confidence,
}

-- `WalkResult`, less its error, and the path that `generateBackupPath` makes for it.
pub record WalkResult : Type 0 where
  pub path : Bytes
  pub language : Bytes
  pub backup_path : Bytes

-- `TransformResult`; an error is told apart where it is `ErrNoMatchesFound`.
pub data TransformResult (F : Floats) : Type 0 where
  transformed : Bytes → ℕ → ConfidenceScore F → TransformResult F
  no_matches : TransformResult F
  transform_error : TransformResult F

pub data ProcessError : Type 0 where
  begin_failed rollback_failed commit_failed : TransactionError → ProcessError
  walk_failed batch_refused : ProcessError

-- What a file processor is built with. A delegate for safety may be missing.
pub record FileProcessor (F : Floats) : Type 0 where
  pub get_provider : Bytes → Option (Bytes → FileTransformOp → TransformResult F)
  pub safety_enabled : Bool
  pub validate_batch : Option (FileScope → List WalkResult → Bool)
  pub validate_file_change : Option (WalkResult → ConfidenceScore F → Bool)
  -- `Walk` of core/filewalker.go, `none` its error; the files that it finds and the errors it meets
  pub walk_scope : FileScope → Files → Option (List WalkResult × List Bytes)
  -- `WriteFile` of the atomic writer
  pub write_atomic : Bytes → Bytes → World → Bool × World

-- `writeFile`
pub write_plainly : Bytes → Bytes → World → Bool × World
write_plainly path content w =
    let (s, v) = stat path w in
    elim s [
      | missing ↦ write_file path content v
      | stat_error ↦ (false, v)
      | present ↦ branch (write_file path content v) (λ u. touch path u) (λ u. (false, u))
    ]

module _ (F : Floats) where
  -- `ValidateFileChange`, which is asked where there are matches
  abbrev pub accepts :
      Option (WalkResult → ConfidenceScore F → Bool) → WalkResult → ℕ → ConfidenceScore F → Bool
  accepts none wr match_count confidence = true
  accepts (some validate) wr zero confidence = true
  accepts (some validate) wr (suc n) confidence = validate wr confidence

-- `log_of` and `print` are those of the transaction manager.
module _ (F : Floats) (A : Arithmetic F) (log_of : Bytes → Bytes) (print : TransactionLog → Bytes)
    (fp : FileProcessor F) (op : FileTransformOp) where
  -- `tx != nil && txManager != nil`
  abbrev pub is_active : Bool
  is_active = fp.safety_enabled && not op.dry_run

  abbrev pub with_error : DetailError → Detail F → Detail F
  with_error e detail = record detail { error = some e }

  abbrev pub completed_detail : Detail F → Option TransactionError × Manager → Detail F × Manager
  completed_detail detail (none, tm) = (detail, tm)
  completed_detail detail (some e, tm) = (with_error (not_completed e) detail, tm)

  -- what follows the write of the new content
  pub after_write : WalkResult → Detail F → Manager → Bool × World → Detail F × Manager
  after_write wr detail tm (true, w) =
      if is_active
      then completed_detail detail
          (complete_operation log_of print fp.write_atomic wr.path false (record tm { world = w }))
      else (detail, record tm { world = w })
  after_write wr detail tm (false, w) =
      if is_active
      then (
        with_error failed_to_write detail,
        (complete_operation log_of print fp.write_atomic wr.path true (record tm { world = w })).1,
      )
      else (with_error failed_to_write detail, record tm { world = w })

  pub write_modified : WalkResult → Bytes → Detail F → Manager → Detail F × Manager
  unfolding after_write write_plainly
  write_modified wr modified detail tm =
      if op.dry_run
      then (detail, tm)
      else after_write wr detail tm (
          if fp.safety_enabled
          then fp.write_atomic wr.path modified tm.world
          else write_plainly wr.path modified tm.world)

  abbrev pub registered :
      WalkResult
      → Bytes
      → Detail F
      → (TransactionError ⊎ TransactionOperation) × Manager
      → Detail F × Manager
  registered wr modified detail (inl e, tm) = (with_error (not_registered e) detail, tm)
  registered wr modified detail (inr o, tm) =
      write_modified wr modified (record detail { backup_path = o.backup_path }) tm

  abbrev pub backed_up : WalkResult → Bytes → Detail F → Manager → Bool × World → Detail F × Manager
  backed_up wr modified detail tm (true, w) =
      write_modified wr modified (record detail { backup_path = wr.path ++ codes ".bak" })
        (record tm { world = w })
  backed_up wr modified detail tm (false, w) =
      (with_error not_backed_up detail, record tm { world = w })

  -- from the registration of the operation on
  pub modify_file : WalkResult → Bytes → Detail F → Manager → Detail F × Manager
  unfolding write_modified copy_file
  modify_file wr modified detail tm =
      if is_active
      then registered wr modified detail
          (add_operation log_of print fp.write_atomic (codes "modify") wr.path wr.backup_path tm)
      else if op.backup
      then backed_up wr modified detail tm (copy_file wr.path (wr.path ++ codes ".bak") tm.world)
      else write_modified wr modified detail tm

  -- from the answer of the provider on
  pub use_answer : WalkResult → Bytes → TransformResult F → Manager → Detail F × Manager
  unfolding modify_file
  use_answer wr content no_matches tm = (new_detail F wr.path, tm)
  use_answer wr content transform_error tm =
      (with_error transformation_failed (new_detail F wr.path), tm)
  use_answer wr content (transformed modified match_count confidence) tm =
      let detail = record (new_detail F wr.path) {
        match_count = match_count;
        confidence = some confidence;
      } in
      if accepts F fp.validate_file_change wr match_count confidence
      then if beq modified content
        then (detail, tm)
        else modify_file wr modified (record detail { modified = true }) tm
      else (with_error refused_by_safety (record detail { match_count = 0 }), tm)

  abbrev pub use_content :
      WalkResult
      → (Bytes → FileTransformOp → TransformResult F)
      → Manager
      → Option Bytes × World
      → Detail F × Manager
  use_content wr transform tm (none, w) =
      (with_error failed_to_read (new_detail F wr.path), record tm { world = w })
  use_content wr transform tm (some content, w) =
      use_answer wr content (transform content op) (record tm { world = w })

  -- `transformFile`
  unfoldable pub transform_file : WalkResult → Manager → Detail F × Manager
  unfolding use_answer
  transform_file wr tm = elim (fp.get_provider wr.language) [
    | none ↦ (with_error (no_provider wr.language) (new_detail F wr.path), tm)
    | some transform ↦ use_content wr transform tm (read_file wr.path tm.world)
  ]

  abbrev pub cons_detail : Detail F → List (Detail F) × Manager → List (Detail F) × Manager
  cons_detail detail (details, tm) = (detail ∷ details, tm)

  abbrev pub go_on :
      (Manager → List (Detail F) × Manager) → Detail F × Manager → List (Detail F) × Manager
  go_on loop (detail, tm) = cons_detail detail (loop tm)

  unfoldable pub transform_each : List WalkResult → Manager → List (Detail F) × Manager
  unfolding transform_file
  transform_each [] tm = ([], tm)
  transform_each (wr ∷ wrs) tm = go_on (λ m. transform_each wrs m) (transform_file wr tm)

  abbrev count_matches : List (Detail F) → ℕ
  count_matches [] = 0
  count_matches (d ∷ ds) = d.match_count + count_matches ds

  abbrev count_modified : List (Detail F) → ℕ
  count_modified [] = 0
  count_modified (d ∷ ds) = if d.modified then 1 + count_modified ds else count_modified ds

  abbrev pub some_failed : List (Detail F) → Bool
  some_failed [] = false
  some_failed (d ∷ ds) = has_failed F d || some_failed ds

  abbrev pub has_walk_errors : List Bytes → Bool
  has_walk_errors [] = false
  has_walk_errors (e ∷ es) = true

  pub result_of : Bytes → List (Detail F) → FileTransformResult F
  unfolding overall_confidence
  result_of id details = record {
    files_scanned = length details;
    files_modified = count_modified details;
    total_matches = count_matches details;
    confidence = (overall_confidence F A details).score;
    transaction_id = if is_active then id else [];
  }

  -- the rollback that is deferred, whose error is ignored
  abbrev pub fail_and_rollback : ProcessError → Manager → Answer F ProcessError × World
  fail_and_rollback e tm =
      (failed e, (rollback_transaction log_of print fp.write_atomic tm).1.world)

  abbrev pub rolled :
      FileTransformResult F → Option TransactionError × Manager → Answer F ProcessError × World
  rolled result (none, tm) = (returned (some result), tm.world)
  rolled result (some e, tm) = fail_and_rollback (rollback_failed e) tm

  abbrev pub committed_result :
      FileTransformResult F → Option TransactionError × Manager → Answer F ProcessError × World
  committed_result result (none, tm) = (returned (some result), tm.world)
  committed_result result (some e, tm) = fail_and_rollback (commit_failed e) tm

  abbrev pub finish : Bytes → List Bytes → List (Detail F) × Manager → Answer F ProcessError × World
  finish id errors (details, tm) =
      let result = result_of id details in
      if is_active
      then (if some_failed details || has_walk_errors errors
          then rolled result (rollback_transaction log_of print fp.write_atomic tm)
          else committed_result result (commit_transaction log_of print fp.write_atomic tm))
      else (returned (some result), tm.world)

  abbrev pub batch_accepted : Option (FileScope → List WalkResult → Bool) → List WalkResult → Bool
  batch_accepted none wrs = true
  batch_accepted (some validate) wrs = validate op.scope wrs

  abbrev pub walked :
      Bytes → Option (List WalkResult × List Bytes) → Manager → Answer F ProcessError × World
  walked id none tm = fail_and_rollback walk_failed tm
  walked id (some (wrs, errors)) tm =
      if batch_accepted fp.validate_batch wrs
      then finish id errors (transform_each wrs tm)
      else fail_and_rollback batch_refused tm

  abbrev pub started : Bytes → Option TransactionError × Manager → Answer F ProcessError × World
  started id (some e, tm) = (failed (begin_failed e), tm.world)
  started id (none, tm) = walked id (fp.walk_scope op.scope tm.world.files) tm

  -- `TransformFiles`; `id` is the name of the transaction
  unfoldable pub transform_files : Bytes → World → Answer F ProcessError × World
  unfolding transform_each result_of
  transform_files id w =
      if is_active
      then started id
          (begin_transaction log_of print fp.write_atomic id (record { current = none; world = w }))
      else started id (none, record { current = none; world = w })
