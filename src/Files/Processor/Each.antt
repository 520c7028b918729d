-- ===== src/Files/Processor/Each.antt =====
-- All files of core/fileprocessor.go, one behind the other, are done as planned.
use mathlib.Core.Path.{subst}
use mathlib.Core.List.{append-nil}
use morfx.Base.{◌≡◌, refl, sym, ap, ◌∙◌, true, false, ◌||◌, some, List, [], ◌∷◌, ◌++◌, map}
use morfx.Base.Bytes.{Bytes}
use morfx.Disk.{World, Files, update}
use morfx.Recipe.{Floats, FileTransformOp}
use morfx.Search.Confidence.{Arithmetic}
use morfx.Files.Quiet.{Place, scratch, Like, Succeeds}
use morfx.Files.Transaction.{TransactionLog, Manager}
use morfx.Files.Processor.{
  WalkResult, FileProcessor, transform_each, go_on, cons_detail, some_failed,
}
use morfx.Files.Processor.Overall.{Detail}
use morfx.Files.Processor.Plan.{
  Change, step_of, forward, with_change, plan, planned_change, is_failure, planned, any_failure,
}
use morfx.Files.Processor.Quiet.{Placed, behind, Done, transform_file-Done}

forward-append :
    (cs ds : List Change) (g : Files) → forward (cs ++ ds) g ≡ forward ds (forward cs g)
forward-append [] ds g = refl
forward-append (c ∷ cs) ds g = forward-append cs ds (with_change c g)

steps-append :
    (steps : List (Bytes × Bytes)) (cs ds : List Change)
    → (steps ++ map step_of cs) ++ map step_of ds ≡ steps ++ map step_of (cs ++ ds)
steps-append [] [] ds = refl
steps-append [] (c ∷ cs) ds = ap (λ r. step_of c ∷ r) (steps-append [] cs ds)
steps-append (s ∷ steps) cs ds = ap (λ r. s ∷ r) (steps-append steps cs ds)

module _ (F : Floats) (A : Arithmetic F) (log_of : Bytes → Bytes) (print : TransactionLog → Bytes)
    (fp : FileProcessor F) (op : FileTransformOp) (safe : fp.safety_enabled ≡ true)
    (wet : op.dry_run ≡ false) (place : Bytes → Place) (CanWrite : Bytes → Type 0)
    (writes : (path content : Bytes) (w : World) (g : Files)
      → CanWrite path
      → Like place w g
      → Succeeds place (fp.write_atomic path content w) (update g path (some content)))
    (id : Bytes) (log_scratch : place (log_of id) ≡ scratch) where
  abbrev pub AllPlaced : List WalkResult → Type 0
  AllPlaced [] = Unit
  AllPlaced (wr ∷ wrs) =
      Placed F A log_of print fp op safe wet place CanWrite writes id log_scratch wr × AllPlaced wrs

  -- All files are done as planned, one behind the other.
  abbrev pub AllDone :
      List (Bytes × Bytes) → List WalkResult → Files → List (Detail F) × Manager → Type 0
  AllDone steps wrs g r =
      (details : List (Detail F)) × ((v : World) × ((r ≡ (
        details,
        behind F A log_of print fp op safe wet place CanWrite writes id log_scratch
            (steps ++ map step_of (planned F fp op wrs g)) v,
      ))
          × (Like place v (forward (planned F fp op wrs g) g)
              × (some_failed F A log_of print fp op details ≡ any_failure F fp op wrs g))))

  go_on-Done :
      (steps : List (Bytes × Bytes)) (wr : WalkResult) (wrs : List WalkResult) (g : Files)
      (r : Detail F × Manager)
      → Done F A log_of print fp op safe wet place CanWrite writes id log_scratch steps wr g
          (plan F fp op wr g)
          r
      → ((steps' : List (Bytes × Bytes)) (w : World) (g' : Files)
          → Like place w g'
          → AllDone steps' wrs g' (
              transform_each F A log_of print fp op wrs (
                behind F A log_of print fp op safe wet place CanWrite writes id log_scratch steps'
                  w)))
      → AllDone steps
          (wr ∷ wrs)
          g
          (go_on F A log_of print fp op (λ m. transform_each F A log_of print fp op wrs m) r)
  unfolding planned any_failure
  go_on-Done steps wr wrs g r (d, (u, (e, (like, f)))) rest =
      let now = planned_change F fp op wr (plan F fp op wr g) in
      let (ds, (v, (e', (like', f')))) = rest (steps ++ map step_of now) u (forward now g) like in
      (
        d ∷ ds,
        (
          v,
          (
            ap (go_on F A log_of print fp op (λ m. transform_each F A log_of print fp op wrs m)) e
                ∙ ap (cons_detail F A log_of print fp op d) e'
                ∙ ap
                    (λ s. (
                      d ∷ ds,
                      behind F A log_of print fp op safe wet place CanWrite writes id log_scratch s
                          v,
                    ))
                    (steps-append steps now (planned F fp op wrs (forward now g))),
            (
              subst (λ h. Like place v h)
                  (sym (forward-append now (planned F fp op wrs (forward now g)) g)) like',
              ap (λ b. b || some_failed F A log_of print fp op ds) f
                  ∙ ap (λ b. is_failure F fp op (plan F fp op wr g) || b) f',
            ),
          ),
        ),
      )

  pub transform_each-done :
      (steps : List (Bytes × Bytes)) (wrs : List WalkResult) (w : World) (g : Files)
      → Like place w g
      → AllPlaced wrs
      → AllDone steps wrs g (
          transform_each F A log_of print fp op wrs
            (behind F A log_of print fp op safe wet place CanWrite writes id log_scratch steps w))
  unfolding transform_each planned any_failure
  transform_each-done steps [] w g like placed = (
    [],
    (
      w,
      (
        ap
            (λ s.
              ([], behind F A log_of print fp op safe wet place CanWrite writes id log_scratch s w))
            (sym (append-nil steps)),
        (like, refl),
      ),
    ),
  )
  transform_each-done steps (wr ∷ wrs) w g like placed =
      go_on-Done steps wr wrs g _
        (transform_file-Done F A log_of print fp op safe wet place CanWrite writes id log_scratch
          steps wr w g like placed.0)
        (λ steps' u g' like'. transform_each-done steps' wrs u g' like' placed.1)
