-- ===== src/Safety/Undo.antt =====
-- A logged atomic write of mcp/safety.go followed by a rollback, where no call fails.
use mathlib.Core.Path.{subst}
use morfx.Base.{true, false, ◌≡◌, ◌≢◌, inl, refl, ap, ◌∙◌, sym, none, some, [], ◌∷◌, arith}
use morfx.Base.Bytes.{Bytes, beq, beq_refl}
use morfx.Disk.{World, stat, read_file, write_file, touch, rename}
use morfx.Journal.{Logged, begin_transaction, rollback_files, rollback_transaction}
use morfx.Journal.Undo.{
  rollback_transaction-store_transaction, rollback_files-removes, rollback_files-restores,
}
use morfx.Safety.{
  SafetyConfig, WriteResult, written, backup_path_of, create_backup, copy_present, write_backup,
  make_backup, write_tmp, sync, commit_write, tmp_path_of, write_checked, atomic_write, rollback,
}
use morfx.Safety.Atomic.{tmp_path_differs, backup_path_differs}
use morfx.Safety.Rollback.{opened}

module _ {Float : Type 0} (config : SafetyConfig Float) (path : Bytes) where
  quiet-create_backup :
      (dst old : Bytes) (w : World)
      → w.outcomes ≡ []
      → w.files path ≡ some old
      → ((create_backup path dst w).0 ≡ true)
        × ((create_backup path dst w).1.outcomes ≡ [])
        × ((create_backup path dst w).1.files dst ≡ some old)
  unfolding create_backup copy_present write_backup stat read_file write_file touch
  quiet-create_backup dst old w quiet there = ground (arith, beq_refl dst)

  quiet-write_tmp :
      (tmp_path content : Bytes) (w : World)
      → w.outcomes ≡ []
      → ((write_tmp config path tmp_path content w).0 ≡ true)
        × ((write_tmp config path tmp_path content w).1.outcomes ≡ [])
        × ((write_tmp config path tmp_path content w).1.files tmp_path ≡ some content)
  unfolding write_tmp sync write_file touch
  quiet-write_tmp tmp_path content w quiet = ground (arith, beq_refl tmp_path)

  files-quiet-write_tmp :
      (tmp_path content q : Bytes) (w : World)
      → w.outcomes ≡ []
      → beq tmp_path q ≡ false
      → (write_tmp config path tmp_path content w).1.files q ≡ w.files q
  unfolding write_tmp sync write_file touch
  files-quiet-write_tmp tmp_path content q w quiet apart = ground arith

  module _ (tx_id tmp_path : Bytes) (s : Logged) (logged : config.transaction_log ≡ true) where
    quiet-commit_write :
        (content : Bytes)
        → s.world.outcomes ≡ []
        → s.world.files tmp_path ≡ some content
        → ((commit_write config tx_id path tmp_path s).0 ≡ written (some tx_id))
          × ((commit_write config tx_id path tmp_path s).1.world.outcomes ≡ [])
          × ((commit_write config tx_id path tmp_path s).1.transactions
              ≡ begin_transaction tx_id path tmp_path (backup_path_of config path) s.transactions)
    unfolding commit_write rename sync touch
    quiet-commit_write content quiet ready = ground arith

    files-quiet-commit_write :
        (content q : Bytes)
        → s.world.outcomes ≡ []
        → s.world.files tmp_path ≡ some content
        → beq tmp_path q ≡ false
        → beq path q ≡ false
        → (commit_write config tx_id path tmp_path s).1.world.files q ≡ s.world.files q
    unfolding commit_write rename sync touch
    files-quiet-commit_write content q quiet ready h k = ground arith

rolled_back_files :
    (tx_id path tmp_path backup_path : Bytes) (t s : Logged)
    → t.transactions ≡ begin_transaction tx_id path tmp_path backup_path s.transactions
    → (rollback (some tx_id) t).1.world
      ≡ (rollback_files (opened tx_id path tmp_path backup_path) t.world).1
unfolding rollback begin_transaction
rolled_back_files tx_id path tmp_path backup_path t s e =
    subst
      (λ txs.
        (rollback_transaction tx_id (record { world = t.world; transactions = txs })).1.world
        ≡ (rollback_files (opened tx_id path tmp_path backup_path) t.world).1)
      (sym e)
      (rollback_transaction-store_transaction (opened tx_id path tmp_path backup_path)
        (record { world = t.world; transactions = s.transactions })).1

beq_comm : (s t : Bytes) → beq s t ≡ false → beq t s ≡ false
unfolding beq
beq_comm [] [] h = h
beq_comm [] (b ∷ t) h = refl
beq_comm (a ∷ s) [] h = refl
beq_comm (a ∷ s) (b ∷ t) h = ground (arith, beq_comm s t)

backup_path-ne-nil :
    {Float : Type 0} (config : SafetyConfig Float) (path : Bytes)
    → config.backup_suffix ≢ []
    → config.create_backups ≡ true
    → backup_path_of config path ≢ []
unfolding backup_path_of
backup_path-ne-nil config [] named on = ground (arith, named)
backup_path-ne-nil config (c ∷ path) named on = ground arith

-- A write to `path`, logged as `tx_id`, in a world where no call fails.
module _ {Float : Type 0} (config : SafetyConfig Float) (path suffix tx_id content : Bytes)
    (s : Logged) (logged : config.transaction_log ≡ true) (quiet : s.world.outcomes ≡ [])
    (old : Bytes) (there : s.world.files path ≡ some old) where
  abbrev write_it : WriteResult × Logged
  write_it = atomic_write config (some suffix) tx_id path content s

  abbrev backed_up : World
  backed_up = (make_backup config path s.world).1

  abbrev ready : Logged
  ready = record s { world = (write_tmp config path (tmp_path_of path suffix) content backed_up).1 }

  write_it-eq-commit_write :
      (make_backup config path s.world).0 ≡ true
      → backed_up.outcomes ≡ []
      → write_it ≡ commit_write config tx_id path (tmp_path_of path suffix) ready
  unfolding atomic_write write_checked stat
  write_it-eq-commit_write made still =
      ground (arith, quiet-write_tmp config path (tmp_path_of path suffix) content backed_up still)

  module _ (made : (make_backup config path s.world).0 ≡ true)
      (still : backed_up.outcomes ≡ []) where
    write_it-logged :
        (write_it.0 ≡ written (some tx_id))
        × (write_it.1.world.outcomes ≡ [])
        × (write_it.1.transactions
            ≡ begin_transaction tx_id path
                (tmp_path_of path suffix)
                (backup_path_of config path)
                s.transactions)
    write_it-logged =
        let (_, silent, filled) =
          quiet-write_tmp config path (tmp_path_of path suffix) content backed_up still in
        rw (write_it-eq-commit_write made still) (
          quiet-commit_write config path tx_id (tmp_path_of path suffix) ready logged content silent
            filled)

    files-write_it :
        (q : Bytes)
        → beq (tmp_path_of path suffix) q ≡ false
        → beq path q ≡ false
        → write_it.1.world.files q ≡ backed_up.files q
    files-write_it q h k =
        let tmp_path = tmp_path_of path suffix in
        let (_, silent, filled) = quiet-write_tmp config path tmp_path content backed_up still in
        rw (write_it-eq-commit_write made still) (
          files-quiet-commit_write config path tx_id tmp_path ready logged content q silent filled h
            k
          ∙ files-quiet-write_tmp config path tmp_path content q backed_up still h)

    rolled :
        (rollback (some tx_id) write_it.1).1.world
        ≡ (rollback_files
            (opened tx_id path (tmp_path_of path suffix) (backup_path_of config path))
            write_it.1.world).1
    rolled =
        rolled_back_files tx_id path (tmp_path_of path suffix) (backup_path_of config path)
          write_it.1 s write_it-logged.2

  backup_made :
      config.create_backups ≡ true
      → ((make_backup config path s.world).0 ≡ true)
        × (backed_up.outcomes ≡ [])
        × (backed_up.files (backup_path_of config path) ≡ some old)
  unfolding make_backup
  backup_made on =
      ground (
        arith,
        quiet-create_backup config path (backup_path_of config path) old s.world quiet there,
      )

  backup_skipped :
      config.create_backups ≡ false
      → ((make_backup config path s.world).0 ≡ true)
        × (backed_up.outcomes ≡ [])
        × (backup_path_of config path ≡ [])
  unfolding make_backup backup_path_of
  backup_skipped off = ground arith

  -- With backups on, a backup suffix that is not empty, and a backup path other than that of the
  -- temporary file, the write succeeds and a rollback puts the old content back.
  pub atomic_write-rollback :
      config.create_backups ≡ true
      → config.backup_suffix ≢ []
      → beq (tmp_path_of path suffix) (backup_path_of config path) ≡ false
      → (write_it.0 ≡ written (some tx_id))
        × ((rollback (some tx_id) write_it.1).1.world.files path ≡ some old)
  atomic_write-rollback on named apart =
      let tmp_path = tmp_path_of path suffix in
      let backup_path = backup_path_of config path in
      let (made, still, kept) = backup_made on in
      let (result, silent, _) = write_it-logged made still in
      let other = backup_path_differs config path (λ e. named) on in
      (
        result,
        ap (λ (w : World). w.files path) (rolled made still)
            ∙ (rollback_files-restores (opened tx_id path tmp_path backup_path) write_it.1.world
                silent (tmp_path_differs path suffix) old (backup_path-ne-nil config path named on)
                (files-write_it made still backup_path apart (beq_comm backup_path path other)
                  ∙ kept)).1,
      )

  -- With backups off, which is the default, a rollback of a successful write removes the file, though
  -- it was there with other content before the write.
  pub atomic_write-rollback_unbacked :
      config.create_backups ≡ false
      → (write_it.0 ≡ written (some tx_id))
        × ((rollback (some tx_id) write_it.1).1.world.files path ≡ none)
  atomic_write-rollback_unbacked off =
      let tmp_path = tmp_path_of path suffix in
      let backup_path = backup_path_of config path in
      let (made, still, unnamed) = backup_skipped off in
      let (result, silent, _) = write_it-logged made still in
      (
        result,
        ap (λ (w : World). w.files path) (rolled made still)
            ∙ (rollback_files-removes (opened tx_id path tmp_path backup_path) write_it.1.world
                silent (tmp_path_differs path suffix) (inl unnamed)).1,
      )
