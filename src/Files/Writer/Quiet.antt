-- ===== src/Files/Writer/Quiet.antt =====
-- An atomic write of core/atomicwriter.go where no call fails and the lock is free.
use mathlib.Core.Path.{subst}
use morfx.Base.{ℕ, suc, ◌≡◌, refl, sym, ap, ◌∙◌, true, false, none, some, [], arith}
use morfx.Base.Bytes.{Bytes, beq_refl}
use morfx.Disk.{World, Stat, present, missing, stat_error, Files, update, touch, write_file, rename}
use morfx.Files.{create_exclusive, create_truncated, remove_if_there}
use morfx.Files.Quiet.{Place, kept, lock, scratch, apart, Like, Succeeds, putting, quiet-stat}
use morfx.Files.Writer.{
  AtomicWriteConfig, Surrounding, acquired, ends, on_round, and_with, and_release, lock_of, temp_of,
  release_lock, lock_round, acquire_lock, back_up_stated, back_up, close_and_rename, fill,
  open_and_fill, write_and_release, write_locked, write_atomically,
}

module _ (path : Bytes) where
  quiet-release_lock :
      (w : World) → w.outcomes ≡ [] → release_lock path w ≡ (true, putting w (lock_of path) none)
  unfolding release_lock touch remove_if_there
  quiet-release_lock w quiet = rw quiet refl

  -- The lock file names this process.
  abbrev locked_by : Surrounding → World → World
  locked_by around w =
      putting (putting w (lock_of path) (some [])) (lock_of path) (some around.own_pid)

  quiet-lock_round :
      (around : Surrounding) (w : World)
      → w.outcomes ≡ []
      → w.files (lock_of path) ≡ none
      → lock_round around around.is_late path w ≡ (ends acquired, locked_by around w)
  unfolding lock_round create_exclusive write_file touch
  quiet-lock_round around w quiet free = rw quiet (rw free refl)

  quiet-acquire_lock :
      (fuel : ℕ) (around : Surrounding) (w : World)
      → w.outcomes ≡ []
      → w.files (lock_of path) ≡ none
      → acquire_lock (suc fuel) around around.is_late path w ≡ (acquired, locked_by around w)
  unfolding acquire_lock
  quiet-acquire_lock fuel around w quiet free =
      ap (on_round (λ rest v. acquire_lock fuel around rest path v))
        (quiet-lock_round around w quiet free)

  module _ (config : AtomicWriteConfig) (unbacked : config.backup_original ≡ false) where
    -- The scratch file is written and renamed to the path.
    abbrev replaced : Bytes → World → World
    replaced content w =
        putting
          (putting
            (putting (putting w (temp_of config path) (some [])) (temp_of config path)
              (some content))
            (temp_of config path) none)
          path (some content)

    unbacked_stated :
        (timestamp : Bytes) (s : Stat) (w : World)
        → back_up_stated config timestamp path (s, w) ≡ (true, w)
    unbacked_stated timestamp present w = rw unbacked refl
    unbacked_stated timestamp missing w = refl
    unbacked_stated timestamp stat_error w = refl

    quiet-back_up :
        (timestamp : Bytes) (w : World)
        → w.outcomes ≡ []
        → back_up config timestamp path w ≡ (true, w)
    unfolding back_up
    quiet-back_up timestamp w quiet =
        ap (back_up_stated config timestamp path) (quiet-stat w quiet path)
        ∙ unbacked_stated timestamp _ w

    quiet-open_and_fill :
        (content : Bytes) (w : World)
        → w.outcomes ≡ []
        → open_and_fill config path content (true, w) ≡ (true, replaced content w)
    unfolding open_and_fill create_truncated fill write_file close_and_rename touch rename
    quiet-open_and_fill content w quiet = ground (arith, beq_refl (temp_of config path))

    quiet-write_and_release :
        (timestamp content : Bytes) (w : World)
        → w.outcomes ≡ []
        → write_and_release config timestamp path content w
          ≡ (true, putting (replaced content w) (lock_of path) none)
    unfolding write_and_release
    quiet-write_and_release timestamp content w quiet =
        ap (and_release config path) (
          ap (open_and_fill config path content) (quiet-back_up timestamp w quiet)
          ∙ quiet-open_and_fill content w quiet)
        ∙ ap (and_with config true) (quiet-release_lock (replaced content w) quiet)

    -- Without failing calls and where the lock is free, the file is replaced and the lock is free again.
    quiet-write_atomically :
        (fuel : ℕ) (around : Surrounding) (content : Bytes) (w : World)
        → w.outcomes ≡ []
        → w.files (lock_of path) ≡ none
        → write_atomically config (suc fuel) around path content w
          ≡ (true, putting (replaced content (locked_by around w)) (lock_of path) none)
    unfolding write_atomically
    quiet-write_atomically fuel around content w quiet free =
        ap (write_locked config around path content) (quiet-acquire_lock fuel around w quiet free)
        ∙ quiet-write_and_release around.timestamp content (locked_by around w) quiet

    module _ (place : Bytes → Place) where
      -- Where the paths of the write have their places, the write changes the one kept file.
      pub write_atomically-Like :
          (fuel : ℕ) (around : Surrounding) (content : Bytes) (w : World) (g : Files)
          → Like place w g
          → place path ≡ kept
          → place (lock_of path) ≡ lock
          → place (temp_of config path) ≡ scratch
          → Succeeds place
              (write_atomically config (suc fuel) around path content w)
              (update g path (some content))
      write_atomically-Like fuel around content w g like is_kept is_lock is_scratch =
          subst (λ r. Succeeds place r (update g path (some content)))
            (sym (
              quiet-write_atomically fuel around content w like.quiet
                (like.idle (lock_of path) is_lock)))
            (
              refl,
              record {
                quiet = like.quiet;
                same = λ q q_kept.
                    let e = apart place (lock_of path) q (λ h. absurd cc) in
                    let t = apart place (temp_of config path) q (λ h. absurd cc) in
                    let o = like.same q q_kept in ground arith;
                idle = λ q q_lock.
                    let e = apart place path q (λ h. absurd cc) in
                    let t = apart place (temp_of config path) q (λ h. absurd cc) in
                    let o = like.idle q q_lock in ground arith;
              },
            )
