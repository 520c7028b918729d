-- ===== src/Files/Processor/Plan.antt =====
-- What core/fileprocessor.go is to do with the files of a transformation, without a disk.
use morfx.Base.{
  ◌≡◌, refl, sym, ap, ◌∙◌, Bool, true, false, ◌||◌, Option, none, some, List, [], ◌∷◌, ◌++◌, map,
  if◌then◌else◌, if-split, arith,
}
use morfx.Base.Bytes.{Bytes, beq, beq→eq, beq_refl}
use morfx.Disk.{Files, update}
use morfx.Recipe.{Floats, FileTransformOp}
use morfx.Search.{has}
use morfx.Files.Transaction.Rollback.{undo}
use morfx.Files.Processor.{
  WalkResult, TransformResult, transformed, no_matches, transform_error, FileProcessor, accepts,
}

-- A file that gets a new content, and the path of its backup.
pub record Change : Type 0 where
  pub path : Bytes
  pub backup_path : Bytes
  pub content : Bytes

abbrev pub step_of : Change → Bytes × Bytes
step_of c = (c.path, c.backup_path)

abbrev pub backups : List Change → List Bytes
backups [] = []
backups (c ∷ cs) = c.backup_path ∷ backups cs

abbrev pub with_change : Change → Files → Files
with_change c g = update (update g c.backup_path (g c.path)) c.path (some c.content)

abbrev pub forward : List Change → Files → Files
forward [] g = g
forward (c ∷ cs) g = forward cs (with_change c g)

-- No backup is a file of its own, nor a backup of a later change.
abbrev pub Fresh : List Change → Type 0
Fresh [] = Unit
Fresh (c ∷ cs) =
    (has c.backup_path (backups cs) ≡ false) × (beq c.path c.backup_path ≡ false) × Fresh cs

different : (p q : Bytes) → beq p q ≡ false → ¬ (p ≡ q)
different p q differ e = let same = beq_refl p in cc

beq_swap : (p q : Bytes) → beq p q ≡ false → beq q p ≡ false
beq_swap p q differ =
    elim (beq q p) as (λ b. beq q p ≡ b → beq q p ≡ false) [
      | true ↦ λ e. absurd (different p q differ (sym (beq→eq q p e)))
      | false ↦ λ e. e
    ]
      refl

split_false : (a b : Bool) → (a || b) ≡ false → (a ≡ false) × (b ≡ false)
split_false true b e = absurd cc
split_false false b e = (refl, e)

pub with_change-backup :
    (c : Change) (g : Files)
    → beq c.path c.backup_path ≡ false
    → with_change c g c.backup_path ≡ g c.path
with_change-backup c g differ = let own = beq_refl c.backup_path in ground arith

with_change-elsewhere :
    (c : Change) (g : Files) (q : Bytes)
    → beq c.path q ≡ false
    → beq c.backup_path q ≡ false
    → with_change c g q ≡ g q
with_change-elsewhere c g q other no_backup = ground arith

-- Undoing all changes gives every file but the backups its content again.
pub undo-forward :
    (cs : List Change) (g : Files) (q : Bytes)
    → Fresh cs
    → has q (backups cs) ≡ false
    → undo (map step_of cs) (forward cs g) q ≡ g q
unfolding has
undo-forward [] g q fresh q_fresh = refl
undo-forward (c ∷ cs) g q fresh q_fresh =
    let (q_own, q_later) = split_false (beq q c.backup_path) (has q (backups cs)) q_fresh in
    if-split (λ (r : Option Bytes). r ≡ g q) (beq c.path q)
      (λ same.
        undo-forward cs (with_change c g) c.backup_path fresh.2 fresh.0
        ∙ with_change-backup c g fresh.1
        ∙ ap g (beq→eq c.path q same))
      (λ other.
        undo-forward cs (with_change c g) q fresh.2 q_later
        ∙ with_change-elsewhere c g q other (beq_swap q c.backup_path q_own))

module _ (F : Floats) (fp : FileProcessor F) (op : FileTransformOp) where
  pub data Plan : Type 0 where
    leaves fails : Plan
    changes : Bytes → Plan

  abbrev pub plan_answer : WalkResult → Bytes → TransformResult F → Plan
  plan_answer wr content no_matches = leaves
  plan_answer wr content transform_error = fails
  plan_answer wr content (transformed modified match_count confidence) =
      if accepts F fp.validate_file_change wr match_count confidence
      then if beq modified content then leaves else changes modified
      else fails

  -- What is to be done with a file where the files are `g`.
  abbrev pub plan_content :
      WalkResult → Option Bytes → Option (Bytes → FileTransformOp → TransformResult F) → Plan
  plan_content wr content none = fails
  plan_content wr none (some transform) = fails
  plan_content wr (some content) (some transform) = plan_answer wr content (transform content op)

  unfoldable pub plan : WalkResult → Files → Plan
  plan wr g = plan_content wr (g wr.path) (fp.get_provider wr.language)

  abbrev pub planned_change : WalkResult → Plan → List Change
  planned_change wr leaves = []
  planned_change wr fails = []
  planned_change wr (changes content) =
      (record { path = wr.path; backup_path = wr.backup_path; content = content }) ∷ []

  abbrev pub is_failure : Plan → Bool
  is_failure leaves = false
  is_failure fails = true
  is_failure (changes content) = false

  -- The changes of all files, each planned behind the changes before it.
  unfoldable pub planned : List WalkResult → Files → List Change
  unfolding plan
  planned [] g = []
  planned (wr ∷ wrs) g =
      let now = planned_change wr (plan wr g) in now ++ planned wrs (forward now g)

  unfoldable pub any_failure : List WalkResult → Files → Bool
  unfolding plan
  any_failure [] g = false
  any_failure (wr ∷ wrs) g =
      let p = plan wr g in is_failure p || any_failure wrs (forward (planned_change wr p) g)
