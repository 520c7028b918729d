-- ===== src/Safety/Atomic.antt =====
-- The atomic write of mcp/safety.go, under every pattern of failing calls.

use morfx.Base.{
  true, false, ◌≡◌, ◌≢◌, refl, ◌∙◌, inl, inr, Option, none, some, [], ◌++◌, arith, if◌then◌else◌,
  Bool-cases,
}
use morfx.Base.Bytes.{beq-append, Bytes, codes, beq, is_empty}
use morfx.Disk.{
  World, Stat, stat, present, missing, stat_error, read_file, write_file, rename, remove,
}
use morfx.Disk.Frame.{
  files-stat, files-read_file, files-touch, files-write_file, files-remove, rename-true,
  rename-false, write_file-true,
}
use morfx.Journal.{Logged}
use morfx.Safety.{
  SafetyConfig, WriteResult, written, write_backup, copy_present, create_backup,
  cleanup_failed_write, backup_path_of, make_backup, sync, commit_write, write_tmp, tmp_path_of,
  write_checked, atomic_write,
}

-- What may stand at the path after a write of `content` where `before` stood.
abbrev pub IsAtomic : Bytes → Option Bytes → Bytes → WriteResult × Logged → Type 0
IsAtomic path before content (written _, s) = s.world.files path ≡ some content
IsAtomic path before content (_, s) = s.world.files path ≡ before

pub tmp_path_differs : (path suffix : Bytes) → beq (tmp_path_of path suffix) path ≡ false
unfolding tmp_path_of
tmp_path_differs path suffix = beq-append path (codes ".tmp." ++ suffix) (λ e. cc)

module _ {Float : Type 0} (config : SafetyConfig Float) (path : Bytes)
    (named : config.create_backups ≡ true → config.backup_suffix ≢ []) where
  pub backup_path_differs :
      config.create_backups ≡ true → beq (backup_path_of config path) path ≡ false
  unfolding backup_path_of
  backup_path_differs h = rw h (beq-append path config.backup_suffix (named h))

  files-write_backup :
      (content : Option Bytes) (dst : Bytes) (w : World)
      → beq dst path ≡ false
      → (write_backup content dst w).1.files path ≡ w.files path
  unfolding write_backup
  files-write_backup none dst w h = refl
  files-write_backup (some bytes) dst w h =
      ground (
        arith,
        files-write_file dst path w bytes h,
        files-touch dst path (write_file dst bytes w).1,
      )

  files-copy_present :
      (there : Stat) (src dst : Bytes) (w : World)
      → beq dst path ≡ false
      → (copy_present there src dst w).1.files path ≡ w.files path
  unfolding copy_present
  files-copy_present missing src dst w h = refl
  files-copy_present stat_error src dst w h = refl
  files-copy_present present src dst w h =
      files-write_backup (read_file src w).0 dst (read_file src w).1 h ∙ files-read_file src path w

  files-create_backup :
      (src dst : Bytes) (w : World)
      → beq dst path ≡ false
      → (create_backup src dst w).1.files path ≡ w.files path
  unfolding create_backup
  files-create_backup src dst w h =
      files-copy_present (stat src w).0 src dst (stat src w).1 h ∙ files-stat src path w

  files-make_backup : (w : World) → (make_backup config path w).1.files path ≡ w.files path
  unfolding make_backup
  files-make_backup w =
      ground (arith, backup_path_differs, files-create_backup path (backup_path_of config path) w)

  backup_path_named : config.create_backups ≡ false → backup_path_of config path ≡ []
  unfolding backup_path_of
  backup_path_named h = ground arith

  files-cleanup_backup :
      (w : World)
      → (if is_empty (backup_path_of config path)
            then w
            else (remove (backup_path_of config path) w).1).files
          path
        ≡ w.files path
  files-cleanup_backup w = elim (Bool-cases config.create_backups) [
    | inl e ↦
        ground (arith, files-remove (backup_path_of config path) path w (backup_path_differs e))
    | inr e ↦ rw (backup_path_named e) (unfold is_empty in refl)
  ]

  files-cleanup_failed_write :
      (tmp_path : Bytes) (w : World)
      → beq tmp_path path ≡ false
      → (cleanup_failed_write tmp_path (backup_path_of config path) w).files path ≡ w.files path
  unfolding cleanup_failed_write
  files-cleanup_failed_write tmp_path w h =
      files-cleanup_backup (remove tmp_path w).1 ∙ files-remove tmp_path path w h

  files-sync : (p : Bytes) (w : World) → (sync config p w).1.files path ≡ w.files path
  unfolding sync
  files-sync p w = ground (arith, files-touch p path w)

  files-write_tmp :
      (tmp_path content : Bytes) (w : World)
      → beq tmp_path path ≡ false
      → (write_tmp config path tmp_path content w).1.files path ≡ w.files path
  unfolding write_tmp
  files-write_tmp tmp_path content w h =
      let w₁ = (write_file tmp_path content w).1 in
      let w₂ = (sync config tmp_path w₁).1 in
      ground (
        arith,
        files-write_file tmp_path path w content h,
        files-sync tmp_path w₁,
        files-cleanup_failed_write tmp_path w₁ h,
        files-cleanup_failed_write tmp_path w₂ h,
      )

  write_tmp-true :
      (tmp_path content : Bytes) (w : World)
      → (write_tmp config path tmp_path content w).0 ≡ true
      → (write_tmp config path tmp_path content w).1.files tmp_path ≡ some content
  unfolding write_tmp sync
  write_tmp-true tmp_path content w h =
      let w₁ = (write_file tmp_path content w).1 in
      ground (arith, write_file-true w tmp_path content, files-touch tmp_path tmp_path w₁)

  module _ (unlogged : config.transaction_log ≡ false) where
    commit_write-IsAtomic :
        (tx_id tmp_path content : Bytes) (s : Logged)
        → beq tmp_path path ≡ false
        → s.world.files tmp_path ≡ some content
        → IsAtomic path (s.world.files path) content (commit_write config tx_id path tmp_path s)
    unfolding commit_write
    commit_write-IsAtomic tx_id tmp_path content s differs ready =
        let w = (rename tmp_path path s.world).1 in
        ground (
          arith,
          rename-true s.world tmp_path path content,
          rename-false s.world tmp_path path path,
          files-sync path w,
          files-cleanup_failed_write tmp_path w differs,
        )

    write_checked-IsAtomic :
        (suffix : Option Bytes) (tx_id content : Bytes) (s : Logged)
        → IsAtomic path
            (s.world.files path)
            content
            (write_checked config suffix tx_id path content s)
    unfolding write_checked
    write_checked-IsAtomic none tx_id content s = refl
    write_checked-IsAtomic (some suffix) tx_id content s =
        let tmp_path = tmp_path_of path suffix in
        let w₁ = (make_backup config path s.world).1 in
        let w₂ = (write_tmp config path tmp_path content w₁).1 in
        let differs = tmp_path_differs path suffix in
        let ready : Logged = record s { world = w₂ } in
        ground (
          arith,
          files-make_backup s.world,
          files-write_tmp tmp_path content w₁ differs,
          write_tmp-true tmp_path content w₁,
          commit_write-IsAtomic tx_id tmp_path content ready differs,
        )

    -- With the transaction log off and, if backups are on, a backup suffix that is not empty, and
    -- whatever calls fail, an atomic write that succeeds leaves the new content at the path, and one that fails leaves there
    -- what was there before.
    pub atomic_write-IsAtomic :
        (suffix : Option Bytes) (tx_id content : Bytes) (s : Logged)
        → IsAtomic path
            (s.world.files path)
            content
            (atomic_write config suffix tx_id path content s)
    unfolding atomic_write
    atomic_write-IsAtomic suffix tx_id content s =
        let found : Logged = record s { world = (stat path s.world).1 } in
        ground
          (arith, files-stat path path s.world, write_checked-IsAtomic suffix tx_id content found)
