-- ===== src/Files/Processor/Quiet.antt =====
-- The file processor of core/fileprocessor.go with transactions, where no call fails.
use mathlib.Core.Path.{subst}
use mathlib.Core.List.{append-nil}
use morfx.Base.{
  ◌≡◌, refl, sym, ap, ◌∙◌, Bool, true, false, ◌&&◌, not, Option, none, some, List, [], ◌∷◌, ◌++◌,
  map, if-split, if◌then◌else◌,
}
use morfx.Base.Bytes.{Bytes, codes, beq, is_empty}
use morfx.Disk.{World, Files, update, read_file}
use morfx.Recipe.{Floats, FileTransformOp}
use morfx.Search.Confidence.{Arithmetic}
use morfx.Files.Quiet.{Place, kept, scratch, Like, Succeeds, succeeded, read_file-Like}
use morfx.Files.Transaction.{TransactionLog, Manager, new_operation, with_operation}
use morfx.Files.Transaction.Quiet.{with_done, manager, add_operation-Like, complete_operation-Like}
use morfx.Files.Processor.{
  WalkResult, TransformResult, transformed, no_matches, transform_error, FileProcessor, accepts,
  with_error, after_write, write_modified, registered, modify_file, use_answer, use_content,
  transform_file, completed_detail,
}
use morfx.Files.Processor.Overall.{
  Detail, DetailError, no_provider, transformation_failed, refused_by_safety, failed_to_read,
  new_detail, has_failed,
}
use morfx.Files.Processor.Plan.{
  step_of, forward, Plan, leaves, fails, changes, plan_answer, plan_content, plan, planned_change,
  is_failure,
}

module _ (F : Floats) (A : Arithmetic F) (log_of : Bytes → Bytes) (print : TransactionLog → Bytes)
    (fp : FileProcessor F) (op : FileTransformOp) (safe : fp.safety_enabled ≡ true)
    (wet : op.dry_run ≡ false) (place : Bytes → Place) (CanWrite : Bytes → Type 0)
    (writes : (path content : Bytes) (w : World) (g : Files)
      → CanWrite path
      → Like place w g
      → Succeeds place (fp.write_atomic path content w) (update g path (some content)))
    (id : Bytes) (log_scratch : place (log_of id) ≡ scratch) where
  -- The paths of a file and of its backup are in their places.
  abbrev pub Placed : WalkResult → Type 0
  Placed wr =
      CanWrite wr.path
      × (place wr.path ≡ kept)
      × (place wr.backup_path ≡ kept)
      × (is_empty wr.backup_path ≡ false)

  active : (fp.safety_enabled && not op.dry_run) ≡ true
  active = ap (λ b. b && not op.dry_run) safe ∙ ap (λ b. true && not b) wet

  -- The manager behind the steps that are done.
  abbrev pub behind : List (Bytes × Bytes) → World → Manager
  behind steps w =
      manager place log_of print fp.write_atomic
        (with_done place log_of print fp.write_atomic id steps) w

  -- A file is done as planned: its steps are behind the others and the files have its change.
  abbrev pub Done :
      List (Bytes × Bytes) → WalkResult → Files → Plan F fp op → Detail F × Manager → Type 0
  Done steps wr g p r =
      (detail : Detail F) × ((v : World) × ((r
            ≡ (detail, behind (steps ++ map step_of (planned_change F fp op wr p)) v))
          × (Like place v (forward (planned_change F fp op wr p) g)
              × (has_failed F detail ≡ is_failure F fp op p))))

  after_write-done :
      (steps : List (Bytes × Bytes)) (wr : WalkResult) (detail : Detail F) (w v : World) (g : Files)
      → Like place v g
      → (u : World) × ((after_write F A log_of print fp op wr detail
              (manager place log_of print fp.write_atomic
                (with_operation log_of print fp.write_atomic
                  (with_done place log_of print fp.write_atomic id steps)
                  (new_operation log_of print fp.write_atomic
                    (codes "modify")
                    wr.path
                    wr.backup_path))
                w)
              (true, v)
            ≡ (detail, behind (steps ++ (wr.path, wr.backup_path) ∷ []) u))
          × Like place u g)
  unfolding after_write
  after_write-done steps wr detail w v g like =
      let (u, (completed, like')) =
        complete_operation-Like place log_of print fp.write_atomic id steps wr.path wr.backup_path v
          g like log_scratch in
      (
        u,
        (
          if-split
              (λ (r : Detail F × Manager).
                r ≡ (detail, behind (steps ++ (wr.path, wr.backup_path) ∷ []) u))
              (fp.safety_enabled && not op.dry_run)
              (λ e. ap (completed_detail F A log_of print fp op detail) completed) (λ e. absurd cc),
          like',
        ),
      )

  -- The manager with the registered operation of a file.
  abbrev registering : List (Bytes × Bytes) → WalkResult → World → Manager
  registering steps wr w =
      manager place log_of print fp.write_atomic
        (with_operation log_of print fp.write_atomic
          (with_done place log_of print fp.write_atomic id steps)
          (new_operation log_of print fp.write_atomic (codes "modify") wr.path wr.backup_path))
        w

  write_modified-done :
      (steps : List (Bytes × Bytes)) (wr : WalkResult) (content : Bytes) (detail : Detail F)
      (w : World) (g : Files)
      → Like place w g
      → Placed wr
      → (u : World) × ((write_modified F A log_of print fp op wr content detail
              (registering steps wr w)
            ≡ (detail, behind (steps ++ (wr.path, wr.backup_path) ∷ []) u))
          × Like place u (update g wr.path (some content)))
  unfolding write_modified
  write_modified-done steps wr content detail w g like placed =
      let (v, (wrote, like')) = succeeded place _ _ (writes wr.path content w g placed.0 like) in
      let (u, (done, like'')) =
        after_write-done steps wr detail w v (update g wr.path (some content)) like' in
      (
        u,
        (
          if-split
              (λ (r : Detail F × Manager).
                r ≡ (detail, behind (steps ++ (wr.path, wr.backup_path) ∷ []) u))
              op.dry_run (λ e. absurd cc)
              (λ e.
                ap (after_write F A log_of print fp op wr detail (registering steps wr w)) (
                  if-split (λ (r : Bool × World). r ≡ (true, v)) fp.safety_enabled (λ e. wrote)
                    (λ e. absurd cc))
                ∙ done),
          like'',
        ),
      )

  modify_file-Done :
      (steps : List (Bytes × Bytes)) (wr : WalkResult) (old content : Bytes) (detail : Detail F)
      (w : World) (g : Files)
      → Like place w g
      → Placed wr
      → g wr.path ≡ some old
      → detail.error ≡ none
      → Done steps wr g
          (changes content)
          (modify_file F A log_of print fp op wr content detail (behind steps w))
  unfolding modify_file
  modify_file-Done steps wr old content detail w g like placed there fine =
      let (v, (added, like')) =
        add_operation-Like place log_of print fp.write_atomic
          (with_done place log_of print fp.write_atomic id steps) wr.path wr.backup_path old w g
          like log_scratch placed.1 placed.2 there in
      let detail' = record detail { backup_path = wr.backup_path } in
      let (u, (done, like'')) =
        write_modified-done steps wr content detail' v (update g wr.backup_path (some old)) like'
          placed in
      (
        detail',
        (
          u,
          (
            if-split
                (λ (r : Detail F × Manager).
                  r ≡ (detail', behind (steps ++ (wr.path, wr.backup_path) ∷ []) u))
                (fp.safety_enabled && not op.dry_run)
                (λ e. ap (registered F A log_of print fp op wr content detail) added ∙ done)
                (λ e. absurd cc),
            (
              subst (λ o. Like place u (update (update g wr.backup_path o) wr.path (some content)))
                  (sym there) like'',
              ap (λ o. has_failed F (record detail' { error = o })) fine,
            ),
          ),
        ),
      )

  -- Nothing is written for a file that is left alone or fails.
  leaves-Done :
      (steps : List (Bytes × Bytes)) (wr : WalkResult) (detail : Detail F) (w : World) (g : Files)
      → Like place w g
      → detail.error ≡ none
      → Done steps wr g leaves (detail, behind steps w)
  leaves-Done steps wr detail w g like fine = (
    detail,
    (
      w,
      (
        ap (λ s. (detail, behind s w)) (sym (append-nil steps)),
        (like, ap (λ o. has_failed F (record detail { error = o })) fine),
      ),
    ),
  )

  fails-Done :
      (steps : List (Bytes × Bytes)) (wr : WalkResult) (detail : Detail F) (e : DetailError)
      (w : World) (g : Files)
      → Like place w g
      → Done steps wr g fails (with_error F A log_of print fp op e detail, behind steps w)
  fails-Done steps wr detail e w g like = (
    with_error F A log_of print fp op e detail,
    (
      w,
      (
        ap (λ s. (with_error F A log_of print fp op e detail, behind s w)) (sym (append-nil steps)),
        (like, refl),
      ),
    ),
  )

  use_answer-Done :
      (steps : List (Bytes × Bytes)) (wr : WalkResult) (old : Bytes) (answer : TransformResult F)
      (w : World) (g : Files)
      → Like place w g
      → Placed wr
      → g wr.path ≡ some old
      → Done steps wr g
          (plan_answer F fp op wr old answer)
          (use_answer F A log_of print fp op wr old answer (behind steps w))
  unfolding use_answer
  use_answer-Done steps wr old no_matches w g like placed there =
      leaves-Done steps wr (new_detail F wr.path) w g like refl
  use_answer-Done steps wr old transform_error w g like placed there =
      fails-Done steps wr (new_detail F wr.path) transformation_failed w g like
  use_answer-Done steps wr old (transformed modified match_count confidence) w g like placed there =
      let detail = record (new_detail F wr.path) {
        match_count = match_count;
        confidence = some confidence;
      } in
      elim (accepts F fp.validate_file_change wr match_count confidence)
        as (λ b.
          Done steps wr g
            (if b then (if beq modified old then leaves else changes modified) else fails)
            (if b
              then (if beq modified old
                  then (detail, behind steps w)
                  else modify_file F A log_of print fp op wr modified
                      (record detail { modified = true }) (behind steps w))
              else (
                with_error F A log_of print fp op refused_by_safety
                    (record detail { match_count = 0 }),
                behind steps w,
              ))) [
                | true ↦
                    elim (beq modified old)
                      as (λ b. Done steps wr g (if b then leaves else changes modified) (
                        if b
                        then (detail, behind steps w)
                        else modify_file F A log_of print fp op wr modified
                            (record detail { modified = true }) (behind steps w))) [
                              | true ↦ leaves-Done steps wr detail w g like refl
                              | false ↦
                                  modify_file-Done steps wr old modified
                                    (record detail { modified = true }) w g like placed there refl
                            ]
                | false ↦
                    fails-Done steps wr (record detail { match_count = 0 }) refused_by_safety w g
                      like
              ]

  use_content-Done :
      (steps : List (Bytes × Bytes)) (wr : WalkResult)
      (transform : Bytes → FileTransformOp → TransformResult F) (w : World) (g : Files)
      (content : Option Bytes)
      → Like place w g
      → Placed wr
      → g wr.path ≡ content
      → Done steps wr g
          (plan_content F fp op wr content (some transform))
          (use_content F A log_of print fp op wr transform (behind steps w) (content, w))
  use_content-Done steps wr transform w g none like placed there =
      fails-Done steps wr (new_detail F wr.path) failed_to_read w g like
  use_content-Done steps wr transform w g (some old) like placed there =
      use_answer-Done steps wr old (transform old op) w g like placed there

  pub transform_file-Done :
      (steps : List (Bytes × Bytes)) (wr : WalkResult) (w : World) (g : Files)
      → Like place w g
      → Placed wr
      → Done steps wr g
          (plan F fp op wr g)
          (transform_file F A log_of print fp op wr (behind steps w))
  unfolding transform_file plan
  transform_file-Done steps wr w g like placed =
      elim (fp.get_provider wr.language)
        as (λ o.
          Done steps wr g (plan_content F fp op wr (g wr.path) o)
            (elim o as (λ x. Detail F × Manager) [
              | none ↦ (
                with_error F A log_of print fp op (no_provider wr.language) (new_detail F wr.path),
                behind steps w,
              )
              | some transform ↦
                  use_content F A log_of print fp op wr transform (behind steps w)
                    (read_file wr.path w)
            ])) [
              | none ↦ fails-Done steps wr (new_detail F wr.path) (no_provider wr.language) w g like
              | some transform ↦
                  subst
                    (λ r.
                      Done steps wr g (plan_content F fp op wr (g wr.path) (some transform))
                        (use_content F A log_of print fp op wr transform (behind steps w) r))
                    (sym (read_file-Like place w g like wr.path placed.1))
                    (use_content-Done steps wr transform w g (g wr.path) like placed refl)
            ]
