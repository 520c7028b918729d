-- ===== src/Files/Processor/AllOrNothing.antt =====
-- The transformation of many files by core/fileprocessor.go changes all of them as planned or none.
use mathlib.Core.Path.{subst}
use morfx.Base.{
  ◌≡◌, refl, sym, ◌∙◌, Bool, true, false, ◌&&◌, ◌||◌, not, Option, none, some, List, [], ◌∷◌, ◌++◌,
  map, if-both, if-split, if◌then◌else◌,
}
use morfx.Base.Bytes.{Bytes, beq, is_empty}
use morfx.Disk.{World, Files, update}
use morfx.Recipe.{Floats, FileTransformOp, Answer, failed, returned}
use morfx.Search.{has}
use morfx.Search.Confidence.{Arithmetic}
use morfx.Files.Quiet.{Place, kept, scratch, Like, Succeeds}
use morfx.Files.Transaction.{TransactionLog, commit_transaction, rollback_transaction}
use morfx.Files.Transaction.Quiet.{commit_transaction-Like, begin_transaction-Like}
use morfx.Files.Transaction.Rollback.{Undoable, rollback_transaction-Like}
use morfx.Files.Processor.{
  WalkResult, ProcessError, TransformResult, transformed, no_matches, transform_error, accepts,
  FileProcessor, some_failed, has_walk_errors, result_of, finish, walked, started, batch_accepted,
  rolled, committed_result, transform_files,
}
use morfx.Files.Processor.Overall.{Detail}
use morfx.Files.Processor.Plan.{
  Change, step_of, backups, forward, with_change, with_change-backup, Fresh, undo-forward, Plan,
  plan_answer, plan_content, plan, planned_change, planned, any_failure,
}
use morfx.Files.Processor.Quiet.{Placed, behind}
use morfx.Files.Processor.Each.{AllPlaced, transform_each-done}

module _ (F : Floats) (A : Arithmetic F) (log_of : Bytes → Bytes) (print : TransactionLog → Bytes)
    (fp : FileProcessor F) (op : FileTransformOp) (safe : fp.safety_enabled ≡ true)
    (wet : op.dry_run ≡ false) (place : Bytes → Place) (CanWrite : Bytes → Type 0)
    (writes : (path content : Bytes) (w : World) (g : Files)
      → CanWrite path
      → Like place w g
      → Succeeds place (fp.write_atomic path content w) (update g path (some content)))
    (id : Bytes) (log_scratch : place (log_of id) ≡ scratch) where
  -- Every change is of a file that is there, and in its place.
  abbrev Sound : List Change → Files → Type 0
  Sound [] g = Unit
  Sound (c ∷ cs) g =
      CanWrite c.path
      × (place c.backup_path ≡ kept)
      × (is_empty c.backup_path ≡ false)
      × ((old : Bytes) × (g c.path ≡ some old))
      × Sound cs (with_change c g)

  Sound-append :
      (cs ds : List Change) (g : Files) → Sound cs g → Sound ds (forward cs g) → Sound (cs ++ ds) g
  Sound-append [] ds g now rest = rest
  Sound-append (c ∷ cs) ds g now rest =
      (now.0, now.1, now.2, now.3, Sound-append cs ds (with_change c g) now.4 rest)

  plan_answer-Sound :
      (wr : WalkResult) (old : Bytes) (answer : TransformResult F) (g : Files)
      → Placed F A log_of print fp op safe wet place CanWrite writes id log_scratch wr
      → g wr.path ≡ some old
      → Sound (planned_change F fp op wr (plan_answer F fp op wr old answer)) g
  plan_answer-Sound wr old no_matches g placed there = tt
  plan_answer-Sound wr old transform_error g placed there = tt
  plan_answer-Sound wr old (transformed modified match_count confidence) g placed there =
      if-both (λ (p : Plan F fp op). Sound (planned_change F fp op wr p) g)
        (accepts F fp.validate_file_change wr match_count confidence)
        (if-both (λ (p : Plan F fp op). Sound (planned_change F fp op wr p) g) (beq modified old) tt
          (placed.0, placed.2, placed.3, (old, there), tt))
        tt

  plan_content-Sound :
      (wr : WalkResult) (content : Option Bytes)
      (provider : Option (Bytes → FileTransformOp → TransformResult F)) (g : Files)
      → Placed F A log_of print fp op safe wet place CanWrite writes id log_scratch wr
      → g wr.path ≡ content
      → Sound (planned_change F fp op wr (plan_content F fp op wr content provider)) g
  plan_content-Sound wr content none g placed there = tt
  plan_content-Sound wr none (some transform) g placed there = tt
  plan_content-Sound wr (some old) (some transform) g placed there =
      plan_answer-Sound wr old (transform old op) g placed there

  planned-Sound :
      (wrs : List WalkResult) (g : Files)
      → AllPlaced F A log_of print fp op safe wet place CanWrite writes id log_scratch wrs
      → Sound (planned F fp op wrs g) g
  unfolding planned plan
  planned-Sound [] g placed = tt
  planned-Sound (wr ∷ wrs) g placed =
      Sound-append (planned_change F fp op wr (plan F fp op wr g)) _ g
        (plan_content-Sound wr (g wr.path) (fp.get_provider wr.language) g placed.0 refl)
        (planned-Sound wrs _ placed.1)

  forward-Undoable :
      (cs : List Change) (g : Files)
      → Sound cs g
      → Fresh cs
      → Undoable place log_of print fp.write_atomic CanWrite writes (map step_of cs) (forward cs g)
  forward-Undoable [] g sound fresh = tt
  forward-Undoable (c ∷ cs) g sound fresh = (
    sound.0,
    sound.1,
    sound.2,
    (
      sound.3.0,
      undo-forward cs (with_change c g) c.backup_path fresh.2 fresh.0
          ∙ with_change-backup c g fresh.1
          ∙ sound.3.1,
    ),
    forward-Undoable cs (with_change c g) sound.4 fresh.2,
  )

  abbrev is_returned : Answer F ProcessError → Bool
  is_returned (failed e) = false
  is_returned (returned result) = true

  -- A result is returned, and every kept file but the backups has its old content, where the change is
  -- spoiled, and else the planned one.
  abbrev pub AllOrNone : List Change → Bool → Files → Answer F ProcessError × World → Type 0
  AllOrNone cs spoiled g (answer, w) =
      (is_returned answer ≡ true)
      × ((q : Bytes)
          → place q ≡ kept
          → has q (backups cs) ≡ false
          → w.files q ≡ (if spoiled then g q else forward cs g q))

  finish-AllOrNone :
      (cs : List Change) (errors : List Bytes) (details : List (Detail F)) (v : World) (g : Files)
      → Like place v (forward cs g)
      → Sound cs g
      → Fresh cs
      → AllOrNone cs
          (some_failed F A log_of print fp op details
            || has_walk_errors F A log_of print fp op errors)
          g
          (finish F A log_of print fp op id errors (
            details,
            behind F A log_of print fp op safe wet place CanWrite writes id log_scratch
                (map step_of cs)
                v,
          ))
  finish-AllOrNone cs errors details v g like sound fresh =
      let (u, (rolled_back, like')) =
        rollback_transaction-Like place log_of print fp.write_atomic CanWrite writes id
          (map step_of cs) v (forward cs g) like log_scratch (forward-Undoable cs g sound fresh) in
      let (u', (committed, like'')) =
        commit_transaction-Like place log_of print fp.write_atomic id (map step_of cs) v
          (forward cs g) like log_scratch in
      let result = result_of F A log_of print fp op id details in
      if-split
        (AllOrNone cs
          (some_failed F A log_of print fp op details
            || has_walk_errors F A log_of print fp op errors)
          g)
        (fp.safety_enabled && not op.dry_run)
        (λ e.
          elim (some_failed F A log_of print fp op details
              || has_walk_errors F A log_of print fp op errors)
            as (λ b. AllOrNone cs b g (
              if b
              then rolled F A log_of print fp op result (
                  rollback_transaction log_of print fp.write_atomic (
                    behind F A log_of print fp op safe wet place CanWrite writes id log_scratch
                      (map step_of cs) v))
              else committed_result F A log_of print fp op result (
                  commit_transaction log_of print fp.write_atomic (
                    behind F A log_of print fp op safe wet place CanWrite writes id log_scratch
                      (map step_of cs) v)))) [
                        | true ↦
                            subst
                              (λ r. AllOrNone cs true g (rolled F A log_of print fp op result r))
                              (sym rolled_back)
                              (
                                refl,
                                λ q q_kept q_fresh.
                                    like'.same q q_kept ∙ undo-forward cs g q fresh q_fresh,
                              )
                        | false ↦
                            subst
                              (λ r.
                                AllOrNone cs false g
                                  (committed_result F A log_of print fp op result r))
                              (sym committed) (refl, λ q q_kept q_fresh. like''.same q q_kept)
                      ])
        (λ e. absurd cc)

  -- Where transactions are on, no call fails, the writer writes the paths that it is given, all paths
  -- are in their places, the batch is accepted and the backups are new files: if a file or the walk
  -- fails, the transformation leaves every file as it was, and else every file has the content planned
  -- for it. It returns a result in both cases. This holds of every file that is kept, backups apart.
  pub transform_files-AllOrNone :
      (wrs : List WalkResult) (errors : List Bytes) (w : World) (g : Files)
      → Like place w g
      → ((v : World) → Like place v g → fp.walk_scope op.scope v.files ≡ some (wrs, errors))
      → batch_accepted F A log_of print fp op fp.validate_batch wrs ≡ true
      → AllPlaced F A log_of print fp op safe wet place CanWrite writes id log_scratch wrs
      → Fresh (planned F fp op wrs g)
      → AllOrNone
          (planned F fp op wrs g)
          (any_failure F fp op wrs g || has_walk_errors F A log_of print fp op errors)
          g
          (transform_files F A log_of print fp op id w)
  unfolding transform_files
  transform_files-AllOrNone wrs errors w g like walks accepted placed fresh =
      let cs = planned F fp op wrs g in
      let spoiled = any_failure F fp op wrs g || has_walk_errors F A log_of print fp op errors in
      let (v, (began, like')) =
        begin_transaction-Like place log_of print fp.write_atomic id w g like log_scratch in
      let (details, (u, (done, (like'', f)))) =
        transform_each-done F A log_of print fp op safe wet place CanWrite writes id log_scratch []
          wrs v g like' placed in
      if-split (AllOrNone cs spoiled g) (fp.safety_enabled && not op.dry_run)
        (λ e.
          subst (λ r. AllOrNone cs spoiled g (started F A log_of print fp op id r)) (sym began)
            (subst
              (λ r. AllOrNone cs spoiled g (
                walked F A log_of print fp op id r (
                  behind F A log_of print fp op safe wet place CanWrite writes id log_scratch []
                    v)))
              (sym (walks v like'))
              (if-split (AllOrNone cs spoiled g)
                (batch_accepted F A log_of print fp op fp.validate_batch wrs)
                (λ e.
                  subst (λ r. AllOrNone cs spoiled g (finish F A log_of print fp op id errors r))
                    (sym done)
                    (subst
                      (λ b. AllOrNone cs (b || has_walk_errors F A log_of print fp op errors) g (
                        finish F A log_of print fp op id errors (
                          details,
                          behind F A log_of print fp op safe wet place CanWrite writes id
                              log_scratch (map step_of cs) u,
                        )))
                      f
                      (finish-AllOrNone cs errors details u g like'' (planned-Sound wrs g placed)
                        fresh)))
                (λ e. absurd cc))))
        (λ e. absurd cc)
