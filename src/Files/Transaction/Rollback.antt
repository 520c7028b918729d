-- ===== src/Files/Transaction/Rollback.antt =====
-- The rollback of core/transaction.go where no call fails, as a function of the files.
use mathlib.Core.Path.{subst}
use morfx.Base.{◌≡◌, refl, sym, ap, ◌∙◌, Bool, true, false, none, some, List, [], ◌∷◌, map}
use morfx.Base.Bytes.{Bytes, beq, is_empty}
use morfx.Disk.{World, Files, update, present?}
use morfx.Files.Quiet.{Place, kept, scratch, Like, Succeeds, succeeded, stat-Like, read_file-Like}
use morfx.Files.Transaction.{
  TransactionLog, rolled_back, restore, restore_stated, write_back, rollback_operation,
  rollback_one, rollback_each, close_rollback, rolled, noted, rollback_found, rollback_transaction,
}
use morfx.Files.Transaction.Quiet.{write_log-Like, done_operation, with_done, manager}

-- The files once the steps are undone, the last one first: each path gets what its backup holds.
abbrev pub undo : List (Bytes × Bytes) → Files → Files
undo [] g = g
undo ((path, backup_path) ∷ steps) g = let h = undo steps g in update h path (h backup_path)

module _ (place : Bytes → Place) (log_of : Bytes → Bytes) (print : TransactionLog → Bytes)
    (write : Bytes → Bytes → World → Bool × World)
    -- the paths that the atomic writer writes
    (CanWrite : Bytes → Type 0)
    (writes : (path content : Bytes) (w : World) (g : Files)
      → CanWrite path
      → Like place w g
      → Succeeds place (write path content w) (update g path (some content))) where
  -- The paths can be written, and each backup is there when its turn comes.
  abbrev pub Undoable : List (Bytes × Bytes) → Files → Type 0
  Undoable [] g = Unit
  Undoable ((path, backup_path) ∷ steps) g =
      CanWrite path
      × (place backup_path ≡ kept)
      × (is_empty backup_path ≡ false)
      × ((content : Bytes) × (undo steps g backup_path ≡ some content))
      × Undoable steps g

  rollback_operation-Like :
      (path backup_path content : Bytes) (w : World) (g : Files)
      → Like place w g
      → CanWrite path
      → place backup_path ≡ kept
      → is_empty backup_path ≡ false
      → g backup_path ≡ some content
      → (v : World) × ((rollback_operation log_of print write
              (done_operation place log_of print write (path, backup_path))
              w
            ≡ (true, v))
          × Like place v (update g path (some content)))
  unfolding rollback_operation restore beq
  rollback_operation-Like path backup_path content w g like can_write backup_kept named there =
      let op = done_operation place log_of print write (path, backup_path) in
      let (v, (wrote, like')) = succeeded place _ _ (writes path content w g can_write like) in
      (
        v,
        (
          rw named (
                ap (restore_stated log_of print write op) (
                  stat-Like place w g like backup_path backup_kept
                  ∙ ap (λ o. (present? o, w)) there))
              ∙ ap (write_back log_of print write path)
                  (read_file-Like place w g like backup_path backup_kept ∙ ap (λ o. (o, w)) there)
              ∙ wrote,
          like',
        ),
      )

  rollback_each-Like :
      (steps : List (Bytes × Bytes)) (w : World) (g : Files)
      → Like place w g
      → Undoable steps g
      → (v : World) × ((rollback_each log_of print write
              (map (done_operation place log_of print write) steps)
              w
            ≡ ([], v))
          × Like place v (undo steps g))
  unfolding rollback_each
  rollback_each-Like [] w g like undoable = (w, (refl, like))
  rollback_each-Like ((path, backup_path) ∷ steps) w g like undoable =
      let op = done_operation place log_of print write (path, backup_path) in
      let (u, (rest, like')) = rollback_each-Like steps w g like undoable.4 in
      let (content, there) = undoable.3 in
      let (v, (one, like'')) =
        rollback_operation-Like path backup_path content u (undo steps g) like' undoable.0
          undoable.1 undoable.2 there in
      (
        v,
        (
          ap (rollback_one log_of print write op) rest ∙ ap (noted log_of print write path []) one,
          subst (λ o. Like place v (update (undo steps g) path o)) (sym there) like'',
        ),
      )

  -- A rollback succeeds and undoes all steps.
  pub rollback_transaction-Like :
      (id : Bytes) (steps : List (Bytes × Bytes)) (w : World) (g : Files)
      → Like place w g
      → place (log_of id) ≡ scratch
      → Undoable steps g
      → (v : World) × ((rollback_transaction log_of print write
              (manager place log_of print write (with_done place log_of print write id steps) w)
            ≡ (none, record { current = none; world = v }))
          × Like place v (undo steps g))
  unfolding rollback_transaction rollback_found
  rollback_transaction-Like id steps w g like log_scratch undoable =
      let (u, (rest, like')) = rollback_each-Like steps w g like undoable in
      let tx = record (with_done place log_of print write id steps) { status = rolled_back } in
      let (v, (logged, like'')) =
        write_log-Like place log_of print write tx u (undo steps g) like' log_scratch in
      (
        v,
        (
          ap (close_rollback log_of print write (with_done place log_of print write id steps)) rest
              ∙ ap (rolled log_of print write []) logged,
          like'',
        ),
      )
