-- ===== src/Files/Processor/Dry.antt =====
-- A dry run of core/fileprocessor.go without backups.
use mathlib.Core.Path.{subst}
use morfx.Base.{
  ◌≡◌, refl, sym, ap, ◌∙◌, Bool, true, false, ◌&&◌, not, Option, none, some, List, [], ◌∷◌, if-both,
  if-split,
}
use morfx.Base.Bytes.{Bytes, beq}
use morfx.Disk.{World, read_file}
use morfx.Disk.Frame.{files-read_file}
use morfx.Recipe.{Floats, FileTransformOp, Answer}
use morfx.Search.Confidence.{Arithmetic}
use morfx.Files.Transaction.{TransactionLog, Manager, rollback_transaction}
use morfx.Files.Processor.{
  WalkResult, TransformResult, transformed, no_matches, transform_error, ProcessError,
  FileProcessor, accepts, with_error, write_modified, modify_file, use_answer, use_content,
  transform_file, transform_each, go_on, finish, walked, batch_accepted, transform_files,
}
use morfx.Files.Processor.Overall.{Detail, no_provider, new_detail}

and_false : (b : Bool) → (b && false) ≡ false
and_false true = refl
and_false false = refl

module _ (F : Floats) (A : Arithmetic F) (log_of : Bytes → Bytes) (print : TransactionLog → Bytes)
    (fp : FileProcessor F) (op : FileTransformOp) (dry : op.dry_run ≡ true)
    (unbacked : op.backup ≡ false) (q : Bytes) where
  inactive : (fp.safety_enabled && not op.dry_run) ≡ false
  inactive = ap (λ b. fp.safety_enabled && not b) dry ∙ and_false fp.safety_enabled

  -- No transaction runs, and the file is the one that `w` holds.
  abbrev Keeps : World → {B : Type 0} → B × Manager → Type 0
  Keeps w (b, tm) = (tm.current ≡ none) × (tm.world.files q ≡ w.files q)

  modify_file-Keeps :
      (wr : WalkResult) (modified : Bytes) (detail : Detail F) (w : World)
      → Keeps w (
          modify_file F A log_of print fp op wr modified detail
            (record { current = none; world = w }))
  unfolding modify_file write_modified
  modify_file-Keeps wr modified detail w =
      if-split (Keeps w) (fp.safety_enabled && not op.dry_run) (λ e. let i = inactive in absurd cc)
        (λ e.
          if-split (Keeps w) op.backup (λ e. absurd cc)
            (λ e. if-split (Keeps w) op.dry_run (λ e. (refl, refl)) (λ e. absurd cc)))

  use_answer-Keeps :
      (wr : WalkResult) (old : Bytes) (answer : TransformResult F) (w : World)
      → Keeps w
          (use_answer F A log_of print fp op wr old answer (record { current = none; world = w }))
  unfolding use_answer
  use_answer-Keeps wr old no_matches w = (refl, refl)
  use_answer-Keeps wr old transform_error w = (refl, refl)
  use_answer-Keeps wr old (transformed modified match_count confidence) w =
      let detail = record (new_detail F wr.path) {
        match_count = match_count;
        confidence = some confidence;
      } in
      if-both (Keeps w) (accepts F fp.validate_file_change wr match_count confidence)
        (if-both (Keeps w) (beq modified old) {x = (detail, record { current = none; world = w })}
          (refl, refl) (modify_file-Keeps wr modified (record detail { modified = true }) w))
        (refl, refl)

  use_content-Keeps :
      (wr : WalkResult) (transform : Bytes → FileTransformOp → TransformResult F)
      (content : Option Bytes) (v w : World)
      → v.files q ≡ w.files q
      → Keeps w (
          use_content F A log_of print fp op wr transform
            (record { current = none; world = w })
            (content, v))
  use_content-Keeps wr transform none v w same = (refl, same)
  use_content-Keeps wr transform (some old) v w same =
      let kept = use_answer-Keeps wr old (transform old op) v in (kept.0, kept.1 ∙ same)

  transform_file-Keeps :
      (wr : WalkResult) (w : World)
      → Keeps w (transform_file F A log_of print fp op wr (record { current = none; world = w }))
  unfolding transform_file
  transform_file-Keeps wr w =
      elim (fp.get_provider wr.language)
        as (λ o. Keeps w (elim o as (λ x. Detail F × Manager) [
          | none ↦ (
            with_error F A log_of print fp op (no_provider wr.language) (new_detail F wr.path),
            record { current = none; world = w },
          )
          | some transform ↦
              use_content F A log_of print fp op wr transform (record { current = none; world = w })
                (read_file wr.path w)
        ])) [
          | none ↦ (refl, refl)
          | some transform ↦
              use_content-Keeps wr transform (read_file wr.path w).0 (read_file wr.path w).1 w
                (files-read_file wr.path q w)
        ]

  go_on-Keeps :
      (loop : Manager → List (Detail F) × Manager) (w : World) (r : Detail F × Manager)
      → Keeps w r
      → ((v : World) → Keeps v (loop (record { current = none; world = v })))
      → Keeps w (go_on F A log_of print fp op loop r)
  go_on-Keeps loop w (detail, tm) kept rest =
      subst (λ m. Keeps w (go_on F A log_of print fp op loop (detail, m)))
        (sym (ap (λ c. record { current = c; world = tm.world }) kept.0))
        ((rest tm.world).0, (rest tm.world).1 ∙ kept.1)

  transform_each-Keeps :
      (wrs : List WalkResult) (w : World)
      → Keeps w (transform_each F A log_of print fp op wrs (record { current = none; world = w }))
  unfolding transform_each
  transform_each-Keeps [] w = (refl, refl)
  transform_each-Keeps (wr ∷ wrs) w =
      go_on-Keeps (λ m. transform_each F A log_of print fp op wrs m) w
        (transform_file F A log_of print fp op wr (record { current = none; world = w }))
        (transform_file-Keeps wr w) (λ v. transform_each-Keeps wrs v)

  -- What `TransformFiles` returns, and the file that `w` holds.
  abbrev KeepsFile : World → Answer F ProcessError × World → Type 0
  KeepsFile w (answer, v) = v.files q ≡ w.files q

  finish-KeepsFile :
      (id : Bytes) (errors : List Bytes) (w : World) (r : List (Detail F) × Manager)
      → Keeps w r
      → KeepsFile w (finish F A log_of print fp op id errors r)
  finish-KeepsFile id errors w (details, tm) kept =
      if-split (KeepsFile w) (fp.safety_enabled && not op.dry_run)
        (λ e. let i = inactive in absurd cc) (λ e. kept.1)

  walked-KeepsFile :
      (id : Bytes) (w : World) (found : Option (List WalkResult × List Bytes))
      → KeepsFile w (walked F A log_of print fp op id found (record { current = none; world = w }))
  unfolding rollback_transaction
  walked-KeepsFile id w none = refl
  walked-KeepsFile id w (some (wrs, errors)) =
      if-both (KeepsFile w) (batch_accepted F A log_of print fp op fp.validate_batch wrs)
        (finish-KeepsFile id errors w
          (transform_each F A log_of print fp op wrs (record { current = none; world = w }))
          (transform_each-Keeps wrs w))
        refl

  -- A dry run without backups leaves every file as it was, whatever calls fail.
  pub transform_files-dry :
      (id : Bytes) (w : World) → (transform_files F A log_of print fp op id w).1.files q ≡ w.files q
  unfolding transform_files
  transform_files-dry id w =
      if-split (KeepsFile w) (fp.safety_enabled && not op.dry_run)
        (λ e. let i = inactive in absurd cc)
        (λ e. walked-KeepsFile id w (fp.walk_scope op.scope w.files))
