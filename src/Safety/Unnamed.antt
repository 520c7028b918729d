-- ===== src/Safety/Unnamed.antt =====
-- An atomic write of mcp/safety.go whose backup suffix is empty, so that the backup is the file itself.
use mathlib.Core.List.{append-nil}
use morfx.Base.{ℕ, zero, suc, true, false, ◌≡◌, some, none, List, [], ◌∷◌, arith}
use morfx.Base.Bytes.{Bytes, beq, beq_refl, is_empty}
use morfx.Disk.{World, Outcome, success, failure, stat, read_file, write_file, touch, remove}
use morfx.Journal.{Logged}
use morfx.Safety.{
  SafetyConfig, write_failed, write_backup, copy_present, create_backup, cleanup_failed_write,
  backup_path_of, make_backup, write_tmp, tmp_path_of, write_checked, atomic_write,
}
use morfx.Safety.Atomic.{tmp_path_differs}

-- The calls of a backup succeed, and the next one fails.
abbrev backup_then_failure : ℕ → List Outcome
backup_then_failure n = success ∷ success ∷ success ∷ success ∷ failure n ∷ []

module _ {Float : Type 0} (config : SafetyConfig Float) (path : Bytes)
    (backed : config.create_backups ≡ true) (unnamed : config.backup_suffix ≡ []) where
  backup_path_same : backup_path_of config path ≡ path
  unfolding backup_path_of
  backup_path_same = rw (backed, unnamed) (append-nil path)

  self_backup :
      (old : Bytes) (w : World) (n : ℕ)
      → w.files path ≡ some old
      → w.outcomes ≡ backup_then_failure n
      → ((create_backup path path w).0 ≡ true)
        × ((create_backup path path w).1.outcomes ≡ failure n ∷ [])
        × ((create_backup path path w).1.files path ≡ some old)
  unfolding create_backup copy_present write_backup stat read_file write_file touch
  self_backup old w n there fails = ground (arith, beq_refl path)

  cleaned_target :
      (tmp_path old : Bytes) (w : World)
      → is_empty path ≡ false
      → beq tmp_path path ≡ false
      → w.outcomes ≡ []
      → w.files path ≡ some old
      → (cleanup_failed_write tmp_path path w).files path ≡ none
  unfolding cleanup_failed_write remove
  cleaned_target tmp_path old w some_path apart quiet there = ground (arith, beq_refl path)

  failed_write :
      (tmp_path content old : Bytes) (w : World) (n : ℕ)
      → beq tmp_path path ≡ false
      → w.outcomes ≡ failure n ∷ []
      → w.files path ≡ some old
      → ((write_file tmp_path content w).0 ≡ false)
        × ((write_file tmp_path content w).1.outcomes ≡ [])
        × ((write_file tmp_path content w).1.files path ≡ some old)
  unfolding write_file
  failed_write tmp_path content old w zero apart fails there = ground arith
  failed_write tmp_path content old w (suc n) apart fails there = ground arith

  failed_tmp :
      (tmp_path content old : Bytes) (w : World) (n : ℕ)
      → is_empty path ≡ false
      → beq tmp_path path ≡ false
      → w.outcomes ≡ failure n ∷ []
      → w.files path ≡ some old
      → ((write_tmp config path tmp_path content w).0 ≡ false)
        × ((write_tmp config path tmp_path content w).1.files path ≡ none)
  unfolding write_tmp
  failed_tmp tmp_path content old w n some_path apart fails there =
      let w₁ = (write_file tmp_path content w).1 in
      rw backup_path_same (
        ground (
          arith,
          failed_write tmp_path content old w n apart fails there,
          cleaned_target tmp_path old w₁ some_path apart,
        ))

  -- With backups on, an empty backup suffix and a path that is not empty: where the calls up to the
  -- backup succeed and the write of the temporary file fails, the write fails and removes the file
  -- that it was to replace.
  pub atomic_write-removes_target :
      (suffix tx_id content old : Bytes) (s : Logged) (n : ℕ)
      → is_empty path ≡ false
      → s.world.files path ≡ some old
      → s.world.outcomes ≡ success ∷ backup_then_failure n
      → ((atomic_write config (some suffix) tx_id path content s).0 ≡ write_failed)
        × ((atomic_write config (some suffix) tx_id path content s).1.world.files path ≡ none)
  unfolding atomic_write write_checked make_backup stat
  atomic_write-removes_target suffix tx_id content old s n some_path there fails =
      let w = (stat path s.world).1 in
      let w₁ = (create_backup path path w).1 in
      ground (
        arith,
        backup_path_same,
        self_backup old w n,
        failed_tmp (tmp_path_of path suffix) content old w₁ n some_path
            (tmp_path_differs path suffix),
      )
