-- ===== src/Files/Transaction/Quiet.antt =====
-- The transactions of core/transaction.go where no call fails.

use morfx.Base.{
  ◌≡◌, refl, ap, ◌∙◌, Bool, true, false, none, some, List, [], ◌∷◌, ◌++◌, inl, inr, map, arith,
}
use morfx.Base.Bytes.{Bytes, codes, beq, beq_refl}
use morfx.Disk.{World, Files, update, present?}
use morfx.Files.{branch}
use morfx.Files.Quiet.{
  Place, kept, scratch, Like, succeeded, stat-Like, read_file-Like, write_scratch-Like,
  copy_file-Like,
}
use morfx.Files.Transaction.{
  TransactionOperation, TransactionLog, backup_failed, Manager, pending, committed,
  write_transaction_log, back_up_read, back_up_stated, back_up_operation, new_operation,
  with_operation, added, record_operation, add_operation, complete_first, store_completed,
  complete_operation, kept_as, all_succeeded, commit_found, commit_transaction, ended,
  begin_transaction, begun,
}

module _ (place : Bytes → Place) (log_of : Bytes → Bytes) (print : TransactionLog → Bytes)
    (write : Bytes → Bytes → World → Bool × World) where
  abbrev modify : Bytes
  modify = codes "modify"

  -- The log of a transaction is a scratch file.
  pub write_log-Like :
      (tx : TransactionLog) (w : World) (g : Files)
      → Like place w g
      → place (log_of tx.id) ≡ scratch
      → (v : World) × ((write_transaction_log log_of print write tx w ≡ (true, v)) × Like place v g)
  unfolding write_transaction_log
  write_log-Like tx w g like is_scratch =
      succeeded place _ g (write_scratch-Like place w g like (log_of tx.id) (print tx) is_scratch)

  back_up_operation-Like :
      (path backup_path content : Bytes) (w : World) (g : Files)
      → Like place w g
      → place path ≡ kept
      → place backup_path ≡ kept
      → g path ≡ some content
      → (v : World) × ((back_up_operation log_of print write modify path backup_path w
            ≡ (inr backup_path, v))
          × Like place v (update g backup_path (some content)))
  unfolding back_up_operation back_up_read beq
  back_up_operation-Like path backup_path content w g like path_kept backup_kept there =
      let (v, (copied, like')) =
        succeeded place _ _
          (copy_file-Like place path backup_path content w g like path_kept backup_kept there) in
      (
        v,
        (
          ap (back_up_stated log_of print write modify path backup_path)
                (stat-Like place w g like path path_kept ∙ ap (λ o. (present? o, w)) there)
              ∙ ap (back_up_read log_of print write modify path backup_path)
                  (read_file-Like place w g like path path_kept ∙ ap (λ o. (o, w)) there)
              ∙ ap (λ r. branch r (λ u. (inr backup_path, u)) (λ u. (inl backup_failed, u))) copied,
          like',
        ),
      )

  abbrev pub manager : TransactionLog → World → Manager
  manager tx w = record { current = some tx; world = w }

  -- A modification of a file that is there is registered and backed up.
  pub add_operation-Like :
      (tx : TransactionLog) (path backup_path content : Bytes) (w : World) (g : Files)
      → Like place w g
      → place (log_of tx.id) ≡ scratch
      → place path ≡ kept
      → place backup_path ≡ kept
      → g path ≡ some content
      → (v : World) × ((add_operation log_of print write modify path backup_path (manager tx w) ≡ (
        inr (new_operation log_of print write modify path backup_path),
        manager
            (with_operation log_of print write tx
              (new_operation log_of print write modify path backup_path))
            v,
      ))
          × Like place v (update g backup_path (some content)))
  unfolding add_operation record_operation
  add_operation-Like tx path backup_path content w g like log_scratch path_kept backup_kept there =
      let op = new_operation log_of print write modify path backup_path in
      let tx' = with_operation log_of print write tx op in
      let (v, (backed_up, like')) =
        back_up_operation-Like path backup_path content w g like path_kept backup_kept there in
      let (u, (logged, like'')) = write_log-Like tx' v _ like' log_scratch in
      (
        u,
        (
          ap (record_operation log_of print write tx modify path) backed_up
              ∙ ap (added log_of print write tx' op) logged,
          like'',
        ),
      )

  -- The operation of a path and its backup once it is done.
  abbrev pub done_operation : Bytes × Bytes → TransactionOperation
  done_operation (path, backup_path) = record {
    op_type = modify;
    file_path = path;
    backup_path = backup_path;
    completed = true;
    has_error = false;
  }

  abbrev pub with_done : Bytes → List (Bytes × Bytes) → TransactionLog
  with_done id steps = record { id = id; operations = map done_operation steps; status = pending }

  complete_first-last :
      (steps : List (Bytes × Bytes)) (path backup_path : Bytes)
      → complete_first log_of print write path false (
          map done_operation steps ++ new_operation log_of print write modify path backup_path ∷ [])
        ≡ some (map done_operation (steps ++ (path, backup_path) ∷ []))
  unfolding complete_first
  complete_first-last [] path backup_path = rw (beq_refl path) refl
  complete_first-last ((p, b) ∷ steps) path backup_path =
      let rest = complete_first-last steps path backup_path in ground arith

  -- The registered operation is found and done.
  pub complete_operation-Like :
      (id : Bytes) (steps : List (Bytes × Bytes)) (path backup_path : Bytes) (w : World) (g : Files)
      → Like place w g
      → place (log_of id) ≡ scratch
      → (v : World) × ((complete_operation log_of print write path false (
              manager
                (with_operation log_of print write
                  (with_done id steps)
                  (new_operation log_of print write modify path backup_path))
                w)
            ≡ (none, manager (with_done id (steps ++ (path, backup_path) ∷ [])) v))
          × Like place v g)
  unfolding complete_operation store_completed
  complete_operation-Like id steps path backup_path w g like log_scratch =
      let tx =
        with_operation log_of print write (with_done id steps)
          (new_operation log_of print write modify path backup_path) in
      let tx' = with_done id (steps ++ (path, backup_path) ∷ []) in
      let (v, (logged, like')) = write_log-Like tx' w g like log_scratch in
      (
        v,
        (
          ap (λ o. store_completed log_of print write tx path o w)
                (complete_first-last steps path backup_path)
              ∙ ap (kept_as log_of print write tx') logged,
          like',
        ),
      )

  all_succeeded-done :
      (steps : List (Bytes × Bytes))
      → all_succeeded log_of print write (map done_operation steps) ≡ true
  unfolding all_succeeded
  all_succeeded-done [] = refl
  all_succeeded-done (s ∷ steps) = all_succeeded-done steps

  pub commit_transaction-Like :
      (id : Bytes) (steps : List (Bytes × Bytes)) (w : World) (g : Files)
      → Like place w g
      → place (log_of id) ≡ scratch
      → (v : World) × ((commit_transaction log_of print write (manager (with_done id steps) w)
            ≡ (none, record { current = none; world = v }))
          × Like place v g)
  unfolding commit_transaction commit_found
  commit_transaction-Like id steps w g like log_scratch =
      let tx = record (with_done id steps) { status = committed } in
      let (v, (logged, like')) = write_log-Like tx w g like log_scratch in
      (v, (rw (all_succeeded-done steps) (ap (ended log_of print write) logged), like'))

  -- A transaction begins where none runs.
  pub begin_transaction-Like :
      (id : Bytes) (w : World) (g : Files)
      → Like place w g
      → place (log_of id) ≡ scratch
      → (v : World) × ((begin_transaction log_of print write id
              (record { current = none; world = w })
            ≡ (none, manager (with_done id []) v))
          × Like place v g)
  unfolding begin_transaction
  begin_transaction-Like id w g like log_scratch =
      let (v, (logged, like')) = write_log-Like (with_done id []) w g like log_scratch in
      (v, (ap (begun log_of print write (with_done id [])) logged, like'))
