-- ===== src/Files/Writer/Keeps.antt =====
-- What the lock of core/atomicwriter.go leaves of the file beside it.
use morfx.Base.{ℕ, zero, suc, ◌≡◌, refl, ◌∙◌, Bool, true, false, Option, List, arith}
use morfx.Base.Bytes.{Bytes, codes, beq, beq-append}
use morfx.Disk.{World, write_file, touch}
use morfx.Disk.Frame.{files-read_file, files-touch, files-write_file, files-remove}
use morfx.Files.{
  Created, made, already_there, not_made, create_exclusive, create_truncated, remove_if_there,
  branch,
}
use morfx.Files.Writer.{
  Surrounding, Acquired, Round, ends, again, on_round, lock_of, release_lock, name_lock,
  is_lock_stale, on_held, on_created, lock_round, acquire_lock,
}

module _ (path : Bytes) where
  -- A file beside the path is not the path.
  lock_differs : beq (lock_of path) path ≡ false
  lock_differs = beq-append path (codes ".lock") (λ e. cc)

  files-remove_if_there :
      (p : Bytes) (w : World)
      → beq p path ≡ false
      → (remove_if_there p w).1.files path ≡ w.files path
  unfolding remove_if_there
  files-remove_if_there p w h = ground arith

  pub files-create_truncated :
      (p : Bytes) (w : World)
      → beq p path ≡ false
      → (create_truncated p w).1.files path ≡ w.files path
  unfolding create_truncated
  files-create_truncated p w h = ground arith

  files-create_exclusive :
      (p : Bytes) (w : World)
      → beq p path ≡ false
      → (create_exclusive p w).1.files path ≡ w.files path
  unfolding create_exclusive
  files-create_exclusive p w h = ground arith

  pub files-release_lock : (w : World) → (release_lock path w).1.files path ≡ w.files path
  unfolding release_lock
  files-release_lock w =
      files-remove_if_there (lock_of path) (touch (lock_of path) w).1 lock_differs
      ∙ files-touch (lock_of path) path w

  -- What follows a call keeps the file if both ways on keep it.
  pub files-branch :
      {A : Type 0}
      → (r : Bool × World) (before : Option Bytes) (go stop : World → A × World)
      → r.1.files path ≡ before
      → ((v : World) → v.files path ≡ before → (go v).1.files path ≡ before)
      → ((v : World) → v.files path ≡ before → (stop v).1.files path ≡ before)
      → (branch r go stop).1.files path ≡ before
  files-branch (true, w) before go stop same keeps_go keeps_stop = keeps_go w same
  files-branch (false, w) before go stop same keeps_go keeps_stop = keeps_stop w same

  files-name_lock :
      (own_pid : Bytes) (w : World) → (name_lock own_pid path w).1.files path ≡ w.files path
  files-name_lock own_pid w =
      files-branch (write_file (lock_of path) own_pid w) (w.files path) _ _
        (files-write_file (lock_of path) path w own_pid lock_differs)
        (λ v same.
          files-branch (touch (lock_of path) v) (w.files path) _ _
            (files-touch (lock_of path) path v ∙ same) (λ u same'. same')
            (λ u same'. files-release_lock u ∙ same'))
        (λ v same. files-release_lock v ∙ same)

  files-on_held :
      (is_late : List Bool) (r : Bool × World)
      → (on_held path is_late r).1.files path ≡ r.1.files path
  files-on_held is_late (true, w) = files-remove (lock_of path) path w lock_differs
  files-on_held is_late (false, w) = refl

  files-is_lock_stale :
      (is_alive : Bytes → Bool) (w : World)
      → (is_lock_stale is_alive path w).1.files path ≡ w.files path
  unfolding is_lock_stale
  files-is_lock_stale is_alive w = files-read_file (lock_of path) path w

  files-on_created :
      (around : Surrounding) (is_late : List Bool) (r : Created × World)
      → (on_created around is_late path r).1.files path ≡ r.1.files path
  files-on_created around is_late (made, w) = files-name_lock around.own_pid w
  files-on_created around is_late (not_made, w) = refl
  files-on_created around is_late (already_there, w) =
      files-on_held is_late (is_lock_stale around.is_alive path w)
      ∙ files-is_lock_stale around.is_alive w

  files-on_round :
      (loop : List Bool → World → Acquired × World) (before : Option Bytes) (r : Round × World)
      → r.1.files path ≡ before
      → ((rest : List Bool) (v : World) → (loop rest v).1.files path ≡ v.files path)
      → (on_round loop r).1.files path ≡ before
  files-on_round loop before (ends a, w) same keeps = same
  files-on_round loop before (again rest, w) same keeps = keeps rest w ∙ same

  pub files-acquire_lock :
      (fuel : ℕ) (around : Surrounding) (is_late : List Bool) (w : World)
      → (acquire_lock fuel around is_late path w).1.files path ≡ w.files path
  unfolding acquire_lock lock_round
  files-acquire_lock zero around is_late w = refl
  files-acquire_lock (suc fuel) around is_late w =
      files-on_round (λ rest v. acquire_lock fuel around rest path v) (w.files path)
        (lock_round around is_late path w)
        (files-on_created around is_late (create_exclusive (lock_of path) w)
          ∙ files-create_exclusive (lock_of path) w lock_differs)
        (λ rest v. files-acquire_lock fuel around rest v)
