-- ===== src/Journal/Undo.antt =====
-- The rollback of mcp/transaction_log.go where no call fails: with a backup it restores the target,
-- without one it removes it.
use morfx.Base.{true, false, ◌≡◌, ◌≢◌, ◌⊎◌, none, some, [], ◌∷◌, arith}
use morfx.Base.Bytes.{Bytes, beq, beq_refl}
use morfx.Disk.{World, stat, rename, remove}
use morfx.Journal.{
  Logged, Transaction, Transactions, find_transaction, store_transaction, fail_transaction,
  rollback_transaction, rollback_found, rollback_files, restore_target, remove_tmp,
}

pub find_transaction-store_transaction :
    (tx : Transaction) (txs : Transactions)
    → find_transaction tx.id (store_transaction tx txs) ≡ some tx
unfolding find_transaction store_transaction
find_transaction-store_transaction tx [] = ground (arith, beq_refl tx.id)
find_transaction-store_transaction tx (u ∷ us) =
    ground (arith, beq_refl tx.id, find_transaction-store_transaction tx us)

module _ (tx : Transaction) (w : World) (quiet : w.outcomes ≡ []) where
  abbrev pub Unbacked : Type 0
  Unbacked = (tx.backup_path ≡ []) ⊎ (w.files tx.backup_path ≡ none)

  restore_target-removes :
      Unbacked
      → ((restore_target tx w).0 ≡ true) × ((restore_target tx w).1.files tx.target_path ≡ none)
  unfolding restore_target stat rename remove
  restore_target-removes unbacked = ground (arith, beq_refl tx.target_path)

  restore_target-restores :
      (content : Bytes)
      → tx.backup_path ≢ []
      → w.files tx.backup_path ≡ some content
      → ((restore_target tx w).0 ≡ true)
        × ((restore_target tx w).1.files tx.target_path ≡ some content)
  unfolding restore_target stat rename
  restore_target-restores content named backed = ground (arith, beq_refl tx.target_path)

  -- the temporary file is not the target
  module _ (apart : beq tx.tmp_path tx.target_path ≡ false) where
    remove_tmp-target :
        (v : World) → (remove_tmp tx v).files tx.target_path ≡ v.files tx.target_path
    unfolding remove_tmp stat remove
    remove_tmp-target v = ground arith

    -- Without a backup file the target is gone afterwards.
    pub rollback_files-removes :
        Unbacked
        → ((rollback_files tx w).0 ≡ true) × ((rollback_files tx w).1.files tx.target_path ≡ none)
    unfolding rollback_files
    rollback_files-removes unbacked =
        ground (arith, restore_target-removes unbacked, remove_tmp-target (restore_target tx w).1)

    -- With a backup file the target has its content afterwards.
    pub rollback_files-restores :
        (content : Bytes)
        → tx.backup_path ≢ []
        → w.files tx.backup_path ≡ some content
        → ((rollback_files tx w).0 ≡ true)
          × ((rollback_files tx w).1.files tx.target_path ≡ some content)
    unfolding rollback_files
    rollback_files-restores content named backed = ground (
      arith,
      restore_target-restores content named backed,
      remove_tmp-target (restore_target tx w).1,
    )

rollback_found-files :
    (tx : Transaction) (s : Logged)
    → ((rollback_found tx s).0 ≡ (rollback_files tx s.world).0)
      × ((rollback_found tx s).1.world ≡ (rollback_files tx s.world).1)
unfolding rollback_found
rollback_found-files tx s = ground arith

module _ (tx : Transaction) (s : Logged) where
  -- A rollback of the transaction stored last undoes its files.
  pub rollback_transaction-store_transaction :
      let stored : Logged = record s { transactions = store_transaction tx s.transactions } in
      ((rollback_transaction tx.id stored).0 ≡ (rollback_files tx s.world).0)
      × ((rollback_transaction tx.id stored).1.world ≡ (rollback_files tx s.world).1)
  unfolding rollback_transaction
  rollback_transaction-store_transaction =
      rw (find_transaction-store_transaction tx s.transactions, rollback_transaction)
        (rollback_found-files tx (record s { transactions = store_transaction tx s.transactions }))

  pub fail_transaction-store_transaction :
      let stored : Logged = record s { transactions = store_transaction tx s.transactions } in
      (fail_transaction tx.id stored).1.world ≡ (rollback_files tx s.world).1
  unfolding fail_transaction
  fail_transaction-store_transaction =
      rw (find_transaction-store_transaction tx s.transactions, fail_transaction)
