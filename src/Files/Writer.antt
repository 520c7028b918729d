-- ===== src/Files/Writer.antt =====
-- `AtomicWriter.WriteFile` of core/atomicwriter.go, for one writer in this process.
pub mod Quiet
pub mod Keeps
pub mod Atomic
use morfx.Base.{
  ℕ, zero, suc, Bool, true, false, ◌&&◌, not, Option, none, some, List, [], ◌∷◌, ◌++◌,
  if◌then◌else◌,
}
use morfx.Base.Bytes.{Bytes, codes}
use morfx.Disk.{
  World, stat, Stat, present, missing, stat_error, read_file, write_file, touch, rename, remove,
}
use morfx.Files.{
  Created, made, already_there, not_made, create_exclusive, create_truncated, remove_if_there,
  copy_file, branch,
}

-- `AtomicWriteConfig`; the time that `LockTimeout` allows is the list of tests of the deadline.
pub record AtomicWriteConfig : Type 0 where
  pub use_fsync : Bool
  pub temp_suffix : Bytes
  pub backup_original : Bool

-- What a write meets around it: this process as the lock file names it, whether the content of a lock
-- file names a process that runs, the time stamp of a backup, and the tests of the deadline in order.
pub record Surrounding : Type 0 where
  pub own_pid : Bytes
  pub is_alive : Bytes → Bool
  pub timestamp : Bytes
  pub is_late : List Bool

-- What an acquisition ends with; `still_trying` is fuel used up.
pub data Acquired : Type 0 where
  acquired timed_out lock_failed still_trying : Acquired

abbrev pub lock_of : Bytes → Bytes
lock_of path = path ++ codes ".lock"

-- the close and the removal of `releaseLock`
unfoldable pub release_lock : Bytes → World → Bool × World
unfolding remove_if_there touch
release_lock path w =
    let (closed, w₁) = touch (lock_of path) w in
    let (removed, w₂) = remove_if_there (lock_of path) w₁ in (closed && removed, w₂)

abbrev pub name_lock : Bytes → Bytes → World → Acquired × World
name_lock own_pid path w =
    branch (write_file (lock_of path) own_pid w)
      (λ w₁.
        branch (touch (lock_of path) w₁) (λ w₂. (acquired, w₂))
          (λ w₂. (lock_failed, (release_lock path w₂).1)))
      (λ w₁. (lock_failed, (release_lock path w₁).1))

abbrev pub stale : (Bytes → Bool) → Option Bytes → Bool
stale is_alive none = true
stale is_alive (some content) = not (is_alive content)

-- `isLockStale`
unfoldable pub is_lock_stale : (Bytes → Bool) → Bytes → World → Bool × World
is_lock_stale is_alive path w =
    let (content, w') = read_file (lock_of path) w in (stale is_alive content, w')

-- What a round of the loop goes on with: the tests of the deadline that are left.
pub data Round : Type 0 where
  ends : Acquired → Round
  again : List Bool → Round

abbrev pub wait : List Bool → Round
wait [] = ends timed_out
wait (true ∷ rest) = ends timed_out
wait (false ∷ rest) = again rest

abbrev pub on_held : Bytes → List Bool → Bool × World → Round × World
on_held path is_late (true, w) = (again is_late, (remove (lock_of path) w).1)
on_held path is_late (false, w) = (wait is_late, w)

abbrev pub on_named : Acquired × World → Round × World
on_named (a, w) = (ends a, w)

abbrev pub on_created : Surrounding → List Bool → Bytes → Created × World → Round × World
on_created around is_late path (made, w) = on_named (name_lock around.own_pid path w)
on_created around is_late path (not_made, w) = (ends lock_failed, w)
on_created around is_late path (already_there, w) =
    on_held path is_late (is_lock_stale around.is_alive path w)

-- one round of the loop of `acquireLock`; a lock that counts as stale is removed without a look at the clock
unfoldable pub lock_round : Surrounding → List Bool → Bytes → World → Round × World
unfolding create_exclusive is_lock_stale
lock_round around is_late path w =
    on_created around is_late path (create_exclusive (lock_of path) w)

abbrev pub on_round : (List Bool → World → Acquired × World) → Round × World → Acquired × World
on_round loop (ends a, w) = (a, w)
on_round loop (again rest, w) = loop rest w

-- the loop of `acquireLock`, on fuel
unfoldable pub acquire_lock : ℕ → Surrounding → List Bool → Bytes → World → Acquired × World
unfolding lock_round
acquire_lock zero around is_late path w = (still_trying, w)
acquire_lock (suc fuel) around is_late path w =
    on_round (λ rest v. acquire_lock fuel around rest path v) (lock_round around is_late path w)

module _ (config : AtomicWriteConfig) where
  abbrev pub temp_of : Bytes → Bytes
  temp_of path = path ++ config.temp_suffix

  abbrev pub back_up_stated : Bytes → Bytes → Stat × World → Bool × World
  back_up_stated timestamp path (present, w) =
      if config.backup_original
      then copy_file path (path ++ (codes ".bak" ++ (codes "." ++ timestamp))) w
      else (true, w)
  back_up_stated timestamp path (missing, w) = (true, w)
  back_up_stated timestamp path (stat_error, w) = (true, w)

  -- the backup, where one is asked for and the file is there
  pub back_up : Bytes → Bytes → World → Bool × World
  unfolding copy_file
  back_up timestamp path w = back_up_stated timestamp path (stat path w)

  abbrev pub abandon : Bytes → World → Bool × World
  abandon path w = (false, (remove (temp_of path) w).1)

  pub close_and_rename : Bytes → World → Bool × World
  close_and_rename path w =
      branch (touch (temp_of path) w)
        (λ w₁. branch (rename (temp_of path) path w₁) (λ w₂. (true, w₂)) (λ w₂. abandon path w₂))
        (λ w₁. abandon path w₁)

  abbrev pub close_and_abandon : Bytes → World → Bool × World
  close_and_abandon path w = abandon path (touch (temp_of path) w).1

  -- `Sync`, where it is asked for
  abbrev pub synced : Bytes → World → Bool × World
  synced path w = if config.use_fsync then touch (temp_of path) w else (true, w)

  -- `WriteString`, `Sync`, `Close` and `Rename`
  pub fill : Bytes → Bytes → World → Bool × World
  unfolding close_and_rename
  fill path content w =
      branch (write_file (temp_of path) content w)
        (λ w₁.
          branch (synced path w₁) (λ w₂. close_and_rename path w₂)
            (λ w₂. close_and_abandon path w₂))
        (λ w₁. close_and_abandon path w₁)

  pub open_and_fill : Bytes → Bytes → Bool × World → Bool × World
  unfolding create_truncated fill
  open_and_fill path content backed_up =
      branch backed_up
        (λ w.
          branch (create_truncated (temp_of path) w) (λ w₁. fill path content w₁)
            (λ w₁. (false, w₁)))
        (λ w. (false, w))

  abbrev pub and_with : Bool → Bool × World → Bool × World
  and_with wrote (released, w) = (wrote && released, w)

  abbrev pub and_release : Bytes → Bool × World → Bool × World
  and_release path (wrote, w) = and_with wrote (release_lock path w)

  pub write_and_release : Bytes → Bytes → Bytes → World → Bool × World
  unfolding back_up open_and_fill release_lock
  write_and_release timestamp path content w =
      and_release path (open_and_fill path content (back_up timestamp path w))

  abbrev pub write_locked : Surrounding → Bytes → Bytes → Acquired × World → Bool × World
  write_locked around path content (acquired, w) = write_and_release around.timestamp path content w
  write_locked around path content (_, w) = (false, w)

  -- `WriteFile`
  unfoldable pub write_atomically : ℕ → Surrounding → Bytes → Bytes → World → Bool × World
  unfolding acquire_lock write_and_release
  write_atomically fuel around path content w =
      write_locked around path content (acquire_lock fuel around around.is_late path w)
