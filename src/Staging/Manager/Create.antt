-- ===== src/Staging/Manager/Create.antt =====
-- `CreateStage` of mcp/staging.go keeps the limit of a session.
use morfx.Base.{
  ℕ, ◌≡◌, ◌⊎◌, ◌<◌, refl, sym, ap, ◌∙◌, subst, Bool, true, false, Option, none, some, if-split,
  arith,
}
use morfx.Base.Bytes.{is_empty}
use morfx.Staging.{Stage, StagingConfig, Database, StagingError, Call, Outcome, success}
use morfx.Staging.Manager.{check_stage_count, with_defaults, save_new, save_if_room, create_stage}

module _ {Float D : Type 0} (database : Database Float D) (limits : StagingConfig) where
  open database use {count_pending, insert_stage}

  -- The session of the stage may take one more pending stage.
  abbrev pub MayStage : Stage Float → D → Type 0
  MayStage stage d =
      (is_empty stage.session_id ≡ true)
      ⊎ (limits.max_stages_per_session ≡ 0)
      ⊎ ((n : ℕ) × (count_pending stage.session_id d ≡ some n)
          × (n < limits.max_stages_per_session))

  check_stage_count-none :
      (stage : Stage Float) (d : D)
      → check_stage_count database limits stage d ≡ none
      → MayStage stage d
  unfolding check_stage_count
  check_stage_count-none stage d h = ground arith

  with_defaults-status :
      (call : Call) (stage : Stage Float)
      → is_empty (with_defaults database limits call stage).status ≡ false
  unfolding with_defaults is_empty
  with_defaults-status call stage =
      if-split (λ status. is_empty status ≡ false) (is_empty stage.status) (λ blank. refl)
        (λ given. given)

  with_defaults-session_id :
      (call : Call) (stage : Stage Float)
      → (with_defaults database limits call stage).session_id ≡ stage.session_id
  unfolding with_defaults
  with_defaults-session_id call stage = refl

  save_new-success :
      (late : Bool) (stage saved : Stage Float) (d : D)
      → (save_new database limits late stage d).0 ≡ success saved
      → (saved ≡ stage) × (insert_stage saved d ≡ (true, (save_new database limits late stage d).1))
  unfolding save_new
  save_new-success late stage saved d h =
      let same : stage ≡ saved = ground arith in
      let made : (insert_stage stage d).0 ≡ true = ground arith in
      (
        sym same,
        subst (λ x. insert_stage x d ≡ (true, (insert_stage stage d).1)) same
            (ap (λ b. (b, (insert_stage stage d).1)) made),
      )

  save_if_room-success :
      (limit : Option StagingError) (call : Call) (late : Bool) (stage saved : Stage Float) (d : D)
      → check_stage_count database limits stage d ≡ limit
      → (save_if_room database limits limit call late stage d).0 ≡ success saved
      → (is_empty saved.status ≡ false)
        × (saved.session_id ≡ stage.session_id)
        × MayStage stage d
        × (insert_stage saved d ≡ (true, (save_if_room database limits limit call late stage d).1))
  unfolding save_if_room
  save_if_room-success (some e) call late stage saved d limit h = ground arith
  save_if_room-success none call late stage saved d limit h =
      let (same, made) =
        save_new-success late (with_defaults database limits call stage) saved d h in
      (
        ap (λ (x : Stage Float). is_empty x.status) same ∙ with_defaults-status call stage,
        ap (λ (x : Stage Float). x.session_id) same ∙ with_defaults-session_id call stage,
        check_stage_count-none stage d limit,
        made,
      )

  -- A stage that is created has a status, its session had room for it, and it is the one that the
  -- database took.
  pub create_stage-success :
      (call : Call) (late : Bool) (stage saved : Stage Float) (d : D)
      → (create_stage database limits call late stage d).0 ≡ success saved
      → (is_empty saved.status ≡ false)
        × (saved.session_id ≡ stage.session_id)
        × MayStage stage d
        × (insert_stage saved d ≡ (true, (create_stage database limits call late stage d).1))
  unfolding create_stage
  create_stage-success call late stage saved d h =
      if-split
        (λ (r : Outcome (Stage Float) × D).
          r.0 ≡ success saved
          → (is_empty saved.status ≡ false)
            × (saved.session_id ≡ stage.session_id)
            × MayStage stage d
            × (insert_stage saved d ≡ (true, r.1)))
        call.cancelled_before (λ before done. ground arith)
        (λ before.
          save_if_room-success (check_stage_count database limits stage d) call late stage saved d
            refl)
        h
