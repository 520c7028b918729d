-- ===== src/Safety/Rollback.antt =====
-- What becomes of the target of an atomic write of mcp/safety.go when the write is undone.
use morfx.Base.{ℕ, true, false, ◌≡◌, ◌⊎◌, inl, inr, refl, ap, ◌∙◌, none, [], ◌∷◌, arith}
use morfx.Base.Bytes.{Bytes, beq, beq_refl, is_empty}
use morfx.Disk.{World, failure, rename, remove}
use morfx.Journal.{
  Logged, Transaction, begin_transaction, fail_transaction, rollback_files, pending,
}
use morfx.Journal.Undo.{fail_transaction-store_transaction, rollback_files-removes}
use morfx.Safety.{SafetyConfig, write_failed, cleanup_failed_write, backup_path_of, commit_write}

abbrev pub opened : Bytes → Bytes → Bytes → Bytes → Transaction
opened tx_id path tmp_path backup_path = record {
  id = tx_id;
  target_path = path;
  tmp_path = tmp_path;
  backup_path = backup_path;
  status = pending;
}

cleaned :
    (tmp_path backup_path : Bytes) (w : World)
    → w.outcomes ≡ []
    → (cleanup_failed_write tmp_path backup_path w).outcomes ≡ []
unfolding cleanup_failed_write remove
cleaned tmp_path backup_path w quiet = ground arith

backup_cleaned :
    (tmp_path backup_path : Bytes) (w : World)
    → w.outcomes ≡ []
    → (backup_path ≡ []) ⊎ ((cleanup_failed_write tmp_path backup_path w).files backup_path ≡ none)
unfolding cleanup_failed_write remove is_empty
backup_cleaned tmp_path [] w quiet = inl refl
backup_cleaned tmp_path (c ∷ cs) w quiet = inr (ground (arith, beq_refl (c ∷ cs)))

module _ {Float : Type 0} (config : SafetyConfig Float) (tx_id path tmp_path : Bytes) (s : Logged)
    (logged : config.transaction_log ≡ true) (apart : beq tmp_path path ≡ false) where
  after_begin : World → Logged
  after_begin w = record {
    world = w;
    transactions =
        begin_transaction tx_id path tmp_path (backup_path_of config path) s.transactions;
  }

  renamed_wrong :
      (n : ℕ)
      → s.world.outcomes ≡ failure n ∷ []
      → rename tmp_path path s.world ≡ (false, record s.world { outcomes = [] })
  unfolding rename
  renamed_wrong n fails = ground arith

  aborted :
      (n : ℕ)
      → s.world.outcomes ≡ failure n ∷ []
      → ((commit_write config tx_id path tmp_path s).0 ≡ write_failed)
        × ((commit_write config tx_id path tmp_path s).1
            ≡ (fail_transaction tx_id (
                after_begin (
                  cleanup_failed_write tmp_path
                    (backup_path_of config path)
                    (record s.world { outcomes = [] })))).1)
  unfolding commit_write after_begin
  aborted n fails = ground (arith, renamed_wrong n fails)

  undone :
      (w : World)
      → (fail_transaction tx_id (after_begin w)).1.world
        ≡ (rollback_files (opened tx_id path tmp_path (backup_path_of config path)) w).1
  unfolding after_begin begin_transaction
  undone w =
      fail_transaction-store_transaction (opened tx_id path tmp_path (backup_path_of config path))
        (record s { world = w })

  -- With the transaction log on, where only the rename of the temporary file fails, the write fails
  -- and the file that stood at the path is removed, with a backup or without one.
  pub commit_write-rename_fails :
      (n : ℕ)
      → s.world.outcomes ≡ failure n ∷ []
      → ((commit_write config tx_id path tmp_path s).0 ≡ write_failed)
        × ((commit_write config tx_id path tmp_path s).1.world.files path ≡ none)
  commit_write-rename_fails n fails =
      let backup_path = backup_path_of config path in
      let w : World = record s.world { outcomes = [] } in
      let w' = cleanup_failed_write tmp_path backup_path w in
      let (result, state) = aborted n fails in
      (
        result,
        ap (λ (t : Logged). t.world.files path) state
            ∙ ap (λ (v : World). v.files path) (undone w')
            ∙ (rollback_files-removes (opened tx_id path tmp_path backup_path) w'
                (cleaned tmp_path backup_path w refl) apart
                (backup_cleaned tmp_path backup_path w refl)).1,
      )
