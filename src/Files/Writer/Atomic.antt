-- ===== src/Files/Writer/Atomic.antt =====
-- An atomic write of core/atomicwriter.go, whatever calls fail.
use morfx.Base.{
  ℕ, ◌≡◌, ◌≢◌, refl, ◌∙◌, Bool, true, false, Option, none, some, [], ◌++◌, inl, inr, ◌⊎◌, if-both,
}
use morfx.Base.Bytes.{Bytes, codes, beq, beq-append}
use morfx.Disk.{
  World, Stat, present, missing, stat_error, stat, read_file, write_file, touch, rename,
}
use morfx.Disk.Frame.{
  files-stat, files-read_file, files-touch, files-write_file, files-remove, rename-true,
  rename-false, write_file-true,
}
use morfx.Files.{create_truncated, branch, copy_file, copy_stated, copy_to}
use morfx.Files.Writer.{
  AtomicWriteConfig, Surrounding, Acquired, acquired, timed_out, lock_failed, still_trying,
  and_with, and_release, temp_of, release_lock, acquire_lock, back_up_stated, back_up, abandon,
  close_and_abandon, synced, close_and_rename, fill, open_and_fill, write_and_release, write_locked,
  write_atomically,
}
use morfx.Files.Writer.Keeps.{
  files-create_truncated, files-release_lock, files-branch, files-acquire_lock,
}

-- The path has the new content if the write succeeds, and the old or the new if it fails.
abbrev pub IsAtomic : Bytes → Option Bytes → Bytes → Bool × World → Type 0
IsAtomic path before content (true, w) = w.files path ≡ some content
IsAtomic path before content (false, w) = (w.files path ≡ before) ⊎ (w.files path ≡ some content)

-- The same before the lock is released: a write that fails has left the path alone.
abbrev Writes : Bytes → Option Bytes → Bytes → Bool × World → Type 0
Writes path before content (true, w) = w.files path ≡ some content
Writes path before content (false, w) = w.files path ≡ before

module _ (config : AtomicWriteConfig) (suffixed : config.temp_suffix ≢ []) (path : Bytes) where
  temp_differs : beq (temp_of config path) path ≡ false
  temp_differs = beq-append path config.temp_suffix suffixed

  files-abandon : (w : World) → (abandon config path w).1.files path ≡ w.files path
  files-abandon w = files-remove (temp_of config path) path w temp_differs

  files-close_and_abandon :
      (w : World) → (close_and_abandon config path w).1.files path ≡ w.files path
  files-close_and_abandon w =
      files-abandon (touch (temp_of config path) w).1 ∙ files-touch (temp_of config path) path w

  renamed-Writes :
      (before : Option Bytes) (content : Bytes) (r : Bool × World)
      → (r.0 ≡ true → r.1.files path ≡ some content)
      → (r.0 ≡ false → r.1.files path ≡ before)
      → Writes path before content (branch r (λ v. (true, v)) (λ v. abandon config path v))
  renamed-Writes before content (true, w) new old = new refl
  renamed-Writes before content (false, w) new old = files-abandon w ∙ old refl

  closed-Writes :
      (before : Option Bytes) (content : Bytes) (r : Bool × World)
      → r.1.files path ≡ before
      → r.1.files (temp_of config path) ≡ some content
      → Writes path before content (
          branch r
            (λ v.
              branch
                (rename (temp_of config path) path v)
                (λ u. (true, u))
                (λ u. abandon config path u))
            (λ v. abandon config path v))
  closed-Writes before content (true, w) same ready =
      renamed-Writes before content (rename (temp_of config path) path w)
        (rename-true w (temp_of config path) path content ready)
        (λ e. rename-false w (temp_of config path) path path e ∙ same)
  closed-Writes before content (false, w) same ready = files-abandon w ∙ same

  close_and_rename-Writes :
      (before : Option Bytes) (content : Bytes) (w : World)
      → w.files path ≡ before
      → w.files (temp_of config path) ≡ some content
      → Writes path before content (close_and_rename config path w)
  unfolding close_and_rename
  close_and_rename-Writes before content w same ready =
      closed-Writes before content (touch (temp_of config path) w)
        (files-touch (temp_of config path) path w ∙ same)
        (files-touch (temp_of config path) (temp_of config path) w ∙ ready)

  synced-Writes :
      (before : Option Bytes) (content : Bytes) (r : Bool × World)
      → r.1.files path ≡ before
      → r.1.files (temp_of config path) ≡ some content
      → Writes path before content
          (branch r (λ v. close_and_rename config path v) (λ v. close_and_abandon config path v))
  synced-Writes before content (true, w) same ready =
      close_and_rename-Writes before content w same ready
  synced-Writes before content (false, w) same ready = files-close_and_abandon w ∙ same

  files-synced : (q : Bytes) (w : World) → (synced config path w).1.files q ≡ w.files q
  files-synced q w =
      if-both (λ (r : Bool × World). r.1.files q ≡ w.files q) config.use_fsync
        (files-touch (temp_of config path) q w) refl

  written-Writes :
      (before : Option Bytes) (content : Bytes) (r : Bool × World)
      → r.1.files path ≡ before
      → (r.0 ≡ true → r.1.files (temp_of config path) ≡ some content)
      → Writes path before content (
          branch r
            (λ v.
              branch
                (synced config path v)
                (λ u. close_and_rename config path u)
                (λ u. close_and_abandon config path u))
            (λ v. close_and_abandon config path v))
  written-Writes before content (true, w) same ready =
      synced-Writes before content (synced config path w) (files-synced path w ∙ same)
        (files-synced (temp_of config path) w ∙ ready refl)
  written-Writes before content (false, w) same ready = files-close_and_abandon w ∙ same

  opened-Writes :
      (before : Option Bytes) (content : Bytes) (r : Bool × World)
      → r.1.files path ≡ before
      → Writes path before content (branch r (λ v. fill config path content v) (λ v. (false, v)))
  unfolding fill
  opened-Writes before content (true, w) same =
      written-Writes before content (write_file (temp_of config path) content w)
        (files-write_file (temp_of config path) path w content temp_differs ∙ same)
        (write_file-true w (temp_of config path) content)
  opened-Writes before content (false, w) same = same

  open_and_fill-Writes :
      (before : Option Bytes) (content : Bytes) (r : Bool × World)
      → r.1.files path ≡ before
      → Writes path before content (open_and_fill config path content r)
  unfolding open_and_fill
  open_and_fill-Writes before content (true, w) same =
      opened-Writes before content (create_truncated (temp_of config path) w)
        (files-create_truncated path (temp_of config path) w temp_differs ∙ same)
  open_and_fill-Writes before content (false, w) same = same

  files-copy_to :
      (target : Bytes) (r : Option Bytes × World)
      → beq target path ≡ false
      → (copy_to target r).1.files path ≡ r.1.files path
  files-copy_to target (none, w) differs = refl
  files-copy_to target (some content, w) differs =
      files-branch path (write_file target content w) (w.files path) _ _
        (files-write_file target path w content differs)
        (λ v same. files-touch target path v ∙ same) (λ v same. same)

  files-copy_stated :
      (target : Bytes) (r : Stat × World)
      → beq target path ≡ false
      → (copy_stated path target r).1.files path ≡ r.1.files path
  files-copy_stated target (present, w) differs =
      files-copy_to target (read_file path w) differs ∙ files-read_file path path w
  files-copy_stated target (missing, w) differs = refl
  files-copy_stated target (stat_error, w) differs = refl

  files-back_up_stated :
      (timestamp : Bytes) (r : Stat × World)
      → (back_up_stated config timestamp path r).1.files path ≡ r.1.files path
  unfolding copy_file
  files-back_up_stated timestamp (present, w) =
      if-both (λ (r : Bool × World). r.1.files path ≡ w.files path) config.backup_original
        (files-copy_stated (path ++ (codes ".bak" ++ (codes "." ++ timestamp))) (stat path w)
            (beq-append path (codes ".bak" ++ (codes "." ++ timestamp)) (λ e. cc))
          ∙ files-stat path path w)
        refl
  files-back_up_stated timestamp (missing, w) = refl
  files-back_up_stated timestamp (stat_error, w) = refl

  files-back_up :
      (timestamp : Bytes) (w : World)
      → (back_up config timestamp path w).1.files path ≡ w.files path
  unfolding back_up
  files-back_up timestamp w = files-back_up_stated timestamp (stat path w) ∙ files-stat path path w

  and_with-IsAtomic :
      (before : Option Bytes) (content : Bytes) (wrote : Bool) (v : World) (r : Bool × World)
      → Writes path before content (wrote, v)
      → r.1.files path ≡ v.files path
      → IsAtomic path before content (and_with config wrote r)
  and_with-IsAtomic before content true v (true, w) writes same = same ∙ writes
  and_with-IsAtomic before content true v (false, w) writes same = inr (same ∙ writes)
  and_with-IsAtomic before content false v (released, w) writes same = inl (same ∙ writes)

  and_release-IsAtomic :
      (before : Option Bytes) (content : Bytes) (r : Bool × World)
      → Writes path before content r
      → IsAtomic path before content (and_release config path r)
  and_release-IsAtomic before content (wrote, w) writes =
      and_with-IsAtomic before content wrote w (release_lock path w) writes
        (files-release_lock path w)

  write_locked-IsAtomic :
      (around : Surrounding) (content : Bytes) (before : Option Bytes) (r : Acquired × World)
      → r.1.files path ≡ before
      → IsAtomic path before content (write_locked config around path content r)
  unfolding write_and_release
  write_locked-IsAtomic around content before (acquired, w) same =
      and_release-IsAtomic before content
        (open_and_fill config path content (back_up config around.timestamp path w))
        (open_and_fill-Writes before content (back_up config around.timestamp path w)
          (files-back_up around.timestamp w ∙ same))
  write_locked-IsAtomic around content before (timed_out, w) same = inl same
  write_locked-IsAtomic around content before (lock_failed, w) same = inl same
  write_locked-IsAtomic around content before (still_trying, w) same = inl same

  -- Whatever calls fail, and where the suffix of the scratch file is not empty: a write that succeeds
  -- leaves the new content at its path, and one that fails leaves the old content or the new one.
  pub write_atomically-IsAtomic :
      (fuel : ℕ) (around : Surrounding) (content : Bytes) (w : World)
      → IsAtomic path (w.files path) content (write_atomically config fuel around path content w)
  unfolding write_atomically
  write_atomically-IsAtomic fuel around content w =
      write_locked-IsAtomic around content (w.files path)
        (acquire_lock fuel around around.is_late path w)
        (files-acquire_lock path fuel around around.is_late w)
