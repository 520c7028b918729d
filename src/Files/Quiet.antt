-- ===== src/Files/Quiet.antt =====
-- Package core on a disk where no call fails: what a world looks like to a reader who knows the lock
-- files and the scratch files of the program from all others.
use mathlib.Core.Path.{subst}
use morfx.Base.{◌≡◌, refl, sym, ap, ◌∙◌, Bool, true, false, Option, none, some, [], arith}
use morfx.Base.Bytes.{Bytes, beq, beq→eq}
use morfx.Disk.{
  World, Files, update, stat, present?, read_file, write_file, touch, rename, rename_found,
}
use morfx.Files.{
  created_at, create_exclusive, create_truncated, remove_if_there, copy_file, branch, copy_to,
  copy_stated,
}

abbrev pub putting : World → Bytes → Option Bytes → World
putting w path value = record w { files = update w.files path value }

-- The calls on a world where none fails.
module _ (w : World) (quiet : w.outcomes ≡ []) where
  pub quiet-stat : (path : Bytes) → stat path w ≡ (present? (w.files path), w)
  unfolding stat
  quiet-stat path = rw quiet refl

  pub quiet-read_file : (path : Bytes) → read_file path w ≡ (w.files path, w)
  unfolding read_file
  quiet-read_file path = rw quiet refl

  pub quiet-touch : (path : Bytes) → touch path w ≡ (true, w)
  unfolding touch
  quiet-touch path = rw quiet refl

  pub quiet-write_file :
      (path content : Bytes) → write_file path content w ≡ (true, putting w path (some content))
  unfolding write_file
  quiet-write_file path content = rw quiet refl

  pub quiet-create_truncated :
      (path : Bytes) → create_truncated path w ≡ (true, putting w path (some []))
  unfolding create_truncated
  quiet-create_truncated path = rw quiet refl

  pub quiet-remove_if_there : (path : Bytes) → remove_if_there path w ≡ (true, putting w path none)
  unfolding remove_if_there
  quiet-remove_if_there path = rw quiet refl

  pub quiet-rename :
      (source target : Bytes)
      → rename source target w ≡ rename_found (w.files source) source target w
  unfolding rename
  quiet-rename source target = rw quiet refl

  pub quiet-create_exclusive :
      (path : Bytes) → create_exclusive path w ≡ created_at (w.files path) path w
  unfolding create_exclusive
  quiet-create_exclusive path = rw quiet refl

-- What a path is for: a file that is kept, a lock, or a file of the program's own.
pub data Place : Type 0 where
  kept lock scratch : Place

-- Two paths for different uses are not one path.
pub apart : (place : Bytes → Place) (p q : Bytes) → ¬ (place p ≡ place q) → beq p q ≡ false
apart place p q differ =
    elim (beq p q) as (λ b. beq p q ≡ b → beq p q ≡ false) [
      | true ↦ λ e. absurd (differ (ap place (beq→eq p q e)))
      | false ↦ λ e. e
    ]
      refl

module _ (place : Bytes → Place) where
  -- No call fails, the kept files are those of `g`, and no lock is held.
  pub record Like (w : World) (g : Files) : Type 0 where
    pub quiet : w.outcomes ≡ []
    pub same : (q : Bytes) → place q ≡ kept → w.files q ≡ g q
    pub idle : (q : Bytes) → place q ≡ lock → w.files q ≡ none

  -- A call succeeds and leaves a world that looks like `g`.
  abbrev pub Succeeds : Bool × World → Files → Type 0
  Succeeds (ok, w) g = (ok ≡ true) × Like w g

  module _ (w : World) (g : Files) (like : Like w g) where
    -- What is put in a scratch file is not seen.
    put-scratch :
        (path : Bytes) (value : Option Bytes)
        → place path ≡ scratch
        → Like (record w { files = update w.files path value }) g
    put-scratch path value is_scratch = record {
      quiet = like.quiet;
      same = λ q is_kept. let e = apart place path q (λ h. absurd cc) in rw e (like.same q is_kept);
      idle = λ q is_lock. let e = apart place path q (λ h. absurd cc) in rw e (like.idle q is_lock);
    }

    put-kept :
        (path : Bytes) (value : Option Bytes)
        → place path ≡ kept
        → Like (record w { files = update w.files path value }) (update g path value)
    put-kept path value is_kept = record {
      quiet = like.quiet;
      same = λ q q_kept. let e = like.same q q_kept in ground arith;
      idle = λ q is_lock. let e = apart place path q (λ h. absurd cc) in rw e (like.idle q is_lock);
    }

    pub stat-Like : (path : Bytes) → place path ≡ kept → stat path w ≡ (present? (g path), w)
    stat-Like path is_kept =
        quiet-stat w like.quiet path ∙ ap (λ o. (present? o, w)) (like.same path is_kept)

    pub read_file-Like : (path : Bytes) → place path ≡ kept → read_file path w ≡ (g path, w)
    read_file-Like path is_kept =
        quiet-read_file w like.quiet path ∙ ap (λ o. (o, w)) (like.same path is_kept)

    pub write_scratch-Like :
        (path content : Bytes) → place path ≡ scratch → Succeeds (write_file path content w) g
    write_scratch-Like path content is_scratch =
        subst (λ r. Succeeds r g) (sym (quiet-write_file w like.quiet path content))
          (refl, put-scratch path (some content) is_scratch)

    write_kept-Like :
        (path content : Bytes)
        → place path ≡ kept
        → Succeeds (write_file path content w) (update g path (some content))
    write_kept-Like path content is_kept =
        subst (λ r. Succeeds r (update g path (some content)))
          (sym (quiet-write_file w like.quiet path content))
          (refl, put-kept path (some content) is_kept)

  branch-touch :
      (path : Bytes) (r : Bool × World) (g : Files)
      → Succeeds r g
      → Succeeds (branch r (λ v. touch path v) (λ v. (false, v))) g
  branch-touch path (true, w) g done =
      subst (λ r. Succeeds r g) (sym (quiet-touch w done.1.quiet path)) done
  branch-touch path (false, w) g done = absurd cc

  -- A kept file is copied to a kept path.
  pub copy_file-Like :
      (source target content : Bytes) (w : World) (g : Files)
      → Like w g
      → place source ≡ kept
      → place target ≡ kept
      → g source ≡ some content
      → Succeeds (copy_file source target w) (update g target (some content))
  unfolding copy_file
  copy_file-Like source target content w g like source_kept target_kept there =
      let stated = stat-Like w g like source source_kept ∙ ap (λ o. (present? o, w)) there in
      let read = read_file-Like w g like source source_kept ∙ ap (λ o. (o, w)) there in
      subst (λ r. Succeeds r (update g target (some content)))
        (sym (ap (copy_stated source target) stated ∙ ap (copy_to target) read))
        (branch-touch target (write_file target content w) (update g target (some content))
          (write_kept-Like w g like target content target_kept))

  -- A call that succeeds gives a world.
  pub succeeded :
      (r : Bool × World) (g : Files) → Succeeds r g → (v : World) × ((r ≡ (true, v)) × Like v g)
  succeeded (true, w) g s = (w, (refl, s.1))
  succeeded (false, w) g s = absurd cc
