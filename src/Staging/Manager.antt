-- ===== src/Staging/Manager.antt =====
-- `CreateStage` and `ApplyStage` of mcp/staging.go.
pub mod Laws
pub mod Atomic
pub mod Create
mod Samples
use morfx.Base.{
  ℕ, ◌+◌, ◌==◌, ltb, leb, Bool, true, false, ◌&&◌, ◌||◌, not, Option, none, some, if◌then◌else◌,
  ◌⊎◌, inl, inr,
}
use morfx.Base.Bytes.{Bytes, codes, beq, is_empty}
use morfx.Journal.{Logged}
use morfx.Safety.{SafetyConfig}
use morfx.Staging.{
  Stage, Apply, StagingConfig, Database, Guard, PrepareError, StagingError, cancelled,
  stage_count_failed, stage_limit_exceeded, create_stage_failed, stage_not_found, stage_expired,
  apply_count_failed, apply_limit_exceeded, create_apply_failed, save_stage_failed,
  transaction_failed, stage_already, prepare_failed, Call, Outcome, success, failure, pending,
  is_pending,
}
use morfx.Staging.Write.{prepare_stage_write, commit_guard, rollback_guard}

-- what the function of the transaction of `ApplyStage` leaves in the variables around it
pub record Attempt : Type 0 where
  pub outcome : Outcome Apply
  pub guard : Option Guard
  pub state : Logged

module _ {Float D : Type 0} (database : Database Float D) (limits : StagingConfig) where
  open database use {
    count_pending, insert_stage, find_stage, save_stage, count_applies, insert_apply,
    add_session_apply, transaction,
  }

  pub check_stage_count : Stage Float → D → Option StagingError
  check_stage_count stage d =
      if not (is_empty stage.session_id) && ltb 0 limits.max_stages_per_session
      then elim (count_pending stage.session_id d) [
        | none ↦ some stage_count_failed
        | some n ↦ if leb limits.max_stages_per_session n then some stage_limit_exceeded else none
      ]
      else none

  -- the fields that `CreateStage` fills in
  pub with_defaults : Call → Stage Float → Stage Float
  with_defaults call stage = record stage {
    id = if is_empty stage.id then call.new_id else stage.id;
    status = if is_empty stage.status then pending else stage.status;
    expires_at = if stage.expires_at == 0 then call.now + limits.staging_ttl else stage.expires_at;
  }

  pub save_new : Bool → Stage Float → D → Outcome (Stage Float) × D
  save_new late stage d =
      let (created, d') = insert_stage stage d in
      (
        if created
            then (if late then failure cancelled else success stage)
            else failure create_stage_failed,
        d',
      )

  -- behind the check of the session's limit
  pub save_if_room : Option StagingError → Call → Bool → Stage Float → D → Outcome (Stage Float) × D
  save_if_room (some e) call late stage d = (failure e, d)
  save_if_room none call late stage d = save_new late (with_defaults call stage) d

  -- `CreateStage`, which returns the stage that it saved; `late` says that the context is cancelled when
  -- the call looks at it for the last time, and so below.
  unfoldable pub create_stage : Call → Bool → Stage Float → D → Outcome (Stage Float) × D
  unfolding check_stage_count save_if_room with_defaults save_new
  create_stage call late stage d =
      if call.cancelled_before
      then (failure cancelled, d)
      else save_if_room (check_stage_count stage d) call late stage d

  pub check_apply_count : Stage Float → D → Option StagingError
  check_apply_count stage d =
      if not (is_empty stage.session_id) && ltb 0 limits.max_applies_per_session
      then elim (count_applies stage.session_id d) [
        | none ↦ some apply_count_failed
        | some n ↦ if leb limits.max_applies_per_session n then some apply_limit_exceeded else none
      ]
      else none

  module _ (lt : Float → Float → Bool) (hash : Bytes → Bytes)
      (scope_file_path : Bytes → Option (Option Bytes)) (safety : Option (SafetyConfig Float)) where
    pub give_up : StagingError → Option Guard → Logged → D → (Attempt × Bool) × D
    give_up e guard s d = ((record { outcome = failure e; guard = guard; state = s }, false), d)

    pub new_apply : Call → Bytes → Bool → Apply
    new_apply call stage_id auto = record {
      id = call.new_id;
      stage_id = stage_id;
      auto_applied = auto;
      applied_by = if auto then codes "auto" else codes "mcp";
    }

    pub add_to_session : Stage Float → D → D
    add_to_session stage d =
        if is_empty stage.session_id then d else add_session_apply stage.session_id d

    -- the records of the application, behind the write of the file
    pub record_apply :
        Call → Stage Float → Bytes → Bool → Option Guard → Logged → D → (Attempt × Bool) × D
    unfolding give_up new_apply add_to_session
    record_apply call stage stage_id auto guard s d =
        let apply = new_apply call stage_id auto in
        let (created, d₁) = insert_apply apply d in
        let applied : Stage Float = record stage {
          status = codes "applied";
          applied_at = some call.applied_now;
        } in
        let (saved, d₂) = save_stage applied d₁ in
        if created
        then (if saved
            then (
              (record { outcome = success apply; guard = guard; state = s }, true),
              add_to_session stage d₂,
            )
            else give_up save_stage_failed guard s d₂)
        else give_up create_apply_failed guard s d₁

    -- behind `prepareStageWrite`, of which the first argument is the answer
    pub record_prepared :
        PrepareError ⊎ Option Guard
        → Call
        → Stage Float
        → Bytes
        → Bool
        → Logged
        → D
        → (Attempt × Bool) × D
    unfolding give_up
    record_prepared (inl e) call stage stage_id auto s d = give_up (prepare_failed e) none s d
    record_prepared (inr guard) call stage stage_id auto s d =
        record_apply call stage stage_id auto guard s d

    pub write_and_record : Call → Stage Float → Bytes → Bool → Logged → D → (Attempt × Bool) × D
    write_and_record call stage stage_id auto s d =
        if auto
        then record_apply call stage stage_id auto none s d
        else (let (prepared, s') =
              prepare_stage_write lt hash scope_file_path safety call stage s in
            record_prepared prepared call stage stage_id auto s' d)

    -- behind the check of the session's limit
    pub write_if_room :
        Option StagingError → Call → Stage Float → Bytes → Bool → Logged → D → (Attempt × Bool) × D
    unfolding give_up
    write_if_room (some e) call stage stage_id auto s d = give_up e none s d
    write_if_room none call stage stage_id auto s d = write_and_record call stage stage_id auto s d

    pub apply_found : Call → Stage Float → Bytes → Bool → Logged → D → (Attempt × Bool) × D
    unfolding give_up
    apply_found call stage stage_id auto s d =
        if not (is_pending stage.status)
        then give_up (stage_already stage.status) none s d
        else if ltb stage.expires_at call.now
        then give_up stage_expired none s
            (save_stage (record stage { status = codes "expired" }) d).1
        else write_if_room (check_apply_count stage d) call stage stage_id auto s d

    -- behind the search for the stage
    pub apply_if_found :
        Option (Stage Float) → Call → Bytes → Bool → Logged → D → (Attempt × Bool) × D
    unfolding give_up
    apply_if_found none call stage_id auto s d = give_up stage_not_found none s d
    apply_if_found (some stage) call stage_id auto s d = apply_found call stage stage_id auto s d

    -- the function of the transaction
    unfoldable pub apply_body : Call → Bytes → Bool → Logged → D → (Attempt × Bool) × D
    unfolding give_up apply_if_found apply_found write_if_room check_apply_count write_and_record
        record_prepared record_apply
    apply_body call stage_id auto s d =
        if call.cancelled_inside
        then give_up cancelled none s d
        else apply_if_found (find_stage stage_id d) call stage_id auto s d

    abbrev error_of : Outcome Apply → StagingError
    error_of (failure e) = e
    error_of (success a) = transaction_failed

    -- what `ApplyStage` does behind the transaction
    pub conclude : Bool → Logged → Option Attempt × Bool → Outcome Apply × Logged
    conclude late s (none, _) = (failure transaction_failed, s)
    conclude late s (some attempt, false) =
        (failure (error_of attempt.outcome), rollback_guard attempt.guard attempt.state)
    conclude late s (some attempt, true) =
        if late
        then (failure cancelled, rollback_guard attempt.guard attempt.state)
        else (attempt.outcome, commit_guard attempt.guard attempt.state)

    unfoldable pub apply_stage :
        Call → Bool → Bytes → Bool → Logged → D → (Outcome Apply × Logged) × D
    unfolding conclude
    apply_stage call late stage_id auto s d =
        if call.cancelled_before
        then ((failure cancelled, s), d)
        else (let (ended, d') = transaction (apply_body call stage_id auto s) d in
            (conclude late s ended, d'))
