-- ===== src/Staging/Manager/Laws.antt =====
-- What staging promises of the database.
use morfx.Base.{
  ℕ, ◌≡◌, ◌⊎◌, ◌<◌, ◌≤◌, inl, inr, refl, ltb, Bool, true, not, Option, none, some, if-both,
  if-split, arith,
}
use morfx.Base.Bytes.{Bytes, codes, is_empty}
use morfx.Journal.{Logged}
use morfx.Safety.{SafetyConfig}
use morfx.Staging.{
  Stage, Apply, StagingConfig, Database, Guard, PrepareError, StagingError, Call, success,
  is_pending,
}
use morfx.Staging.Write.{prepare_stage_write}
use morfx.Staging.Manager.{
  Attempt, check_apply_count, give_up, new_apply, add_to_session, record_apply, record_prepared,
  write_and_record, write_if_room, apply_found, apply_if_found, apply_body,
}

module _ {Float D : Type 0} (database : Database Float D) (limits : StagingConfig) where
  open database use {find_stage, save_stage, insert_apply, count_applies, transaction}

  -- The session of the stage may take one more application.
  abbrev pub HasRoom : Stage Float → D → Type 0
  HasRoom stage d =
      (is_empty stage.session_id ≡ true)
      ⊎ (limits.max_applies_per_session ≡ 0)
      ⊎ ((n : ℕ) × (count_applies stage.session_id d ≡ some n)
          × (n < limits.max_applies_per_session))

  check_apply_count-none :
      (stage : Stage Float) (d : D)
      → check_apply_count database limits stage d ≡ none
      → HasRoom stage d
  unfolding check_apply_count
  check_apply_count-none stage d h = ground arith

  module _ (lt : Float → Float → Bool) (hash : Bytes → Bytes)
      (scope_file_path : Bytes → Option (Option Bytes)) (safety : Option (SafetyConfig Float)) where
    -- The stage `stage_id` of `d` could be applied, and `d'` holds the application `apply` and the
    -- applied stage.
    pub record Recorded (call : Call) (stage_id : Bytes) (d : D) (apply : Apply) (d' : D)
        : Type 0 where
      pub stage : Stage Float
      pub found : find_stage stage_id d ≡ some stage
      pub was_pending : is_pending stage.status ≡ true
      pub in_time : call.now ≤ stage.expires_at
      pub has_room : HasRoom stage d
      pub inserted : (insert_apply apply d).0 ≡ true
      pub saved :
          (save_stage
            (record stage { status = codes "applied"; applied_at = some call.applied_now })
            (insert_apply apply d).1).0
          ≡ true
      pub left :
          d'
          ≡ add_to_session database limits lt hash scope_file_path safety stage
              (save_stage
                (record stage { status = codes "applied"; applied_at = some call.applied_now })
                (insert_apply apply d).1).1
      pub names_stage : apply.stage_id ≡ stage_id

    -- what the function of the transaction leaves when its error is nil
    abbrev pub Succeeds : Call → Bytes → D → (Attempt × Bool) × D → Type 0
    Succeeds call stage_id d ((attempt, ok), d') =
        ok ≡ true
        → (apply : Apply) × (attempt.outcome ≡ success apply) × Recorded call stage_id d apply d'

    record_apply-Succeeds :
        (call : Call) (stage : Stage Float) (stage_id : Bytes) (auto : Bool) (guard : Option Guard)
        (s : Logged) (d : D)
        → find_stage stage_id d ≡ some stage
        → is_pending stage.status ≡ true
        → call.now ≤ stage.expires_at
        → HasRoom stage d
        → Succeeds call stage_id d (
            record_apply database limits lt hash scope_file_path safety call stage stage_id auto
              guard s d)
    unfolding record_apply new_apply give_up
    record_apply-Succeeds call stage stage_id auto guard s d found pend time room =
        if-split (Succeeds call stage_id d)
          (insert_apply
            (new_apply database limits lt hash scope_file_path safety call stage_id auto) d).0
          (λ made.
            if-split (Succeeds call stage_id d)
              (save_stage
                (record stage { status = codes "applied"; applied_at = some call.applied_now })
                (insert_apply
                  (new_apply database limits lt hash scope_file_path safety call stage_id auto)
                  d).1).0
              (λ kept ok. (
                new_apply database limits lt hash scope_file_path safety call stage_id auto,
                refl,
                record {
                  stage = stage;
                  found = found;
                  was_pending = pend;
                  in_time = time;
                  has_room = room;
                  inserted = made;
                  saved = kept;
                  left = refl;
                  names_stage = refl;
                },
              ))
              (λ lost ok. ground arith))
          (λ lost ok. ground arith)

    record_prepared-Succeeds :
        (prepared : PrepareError ⊎ Option Guard) (call : Call) (stage : Stage Float)
        (stage_id : Bytes) (auto : Bool) (s : Logged) (d : D)
        → find_stage stage_id d ≡ some stage
        → is_pending stage.status ≡ true
        → call.now ≤ stage.expires_at
        → HasRoom stage d
        → Succeeds call stage_id d (
            record_prepared database limits lt hash scope_file_path safety prepared call stage
              stage_id auto s d)
    unfolding record_prepared give_up
    record_prepared-Succeeds (inl e) call stage stage_id auto s d found pend time room =
        λ ok. ground arith
    record_prepared-Succeeds (inr guard) call stage stage_id auto s d found pend time room =
        record_apply-Succeeds call stage stage_id auto guard s d found pend time room

    write_and_record-Succeeds :
        (call : Call) (stage : Stage Float) (stage_id : Bytes) (auto : Bool) (s : Logged) (d : D)
        → find_stage stage_id d ≡ some stage
        → is_pending stage.status ≡ true
        → call.now ≤ stage.expires_at
        → HasRoom stage d
        → Succeeds call stage_id d (
            write_and_record database limits lt hash scope_file_path safety call stage stage_id auto
              s d)
    unfolding write_and_record
    write_and_record-Succeeds call stage stage_id auto s d found pend time room =
        if-both (Succeeds call stage_id d) auto
          (record_apply-Succeeds call stage stage_id auto none s d found pend time room)
          (let (prepared, s') = prepare_stage_write lt hash scope_file_path safety call stage s in
            record_prepared-Succeeds prepared call stage stage_id auto s' d found pend time room)

    write_if_room-Succeeds :
        (limit : Option StagingError) (call : Call) (stage : Stage Float) (stage_id : Bytes)
        (auto : Bool) (s : Logged) (d : D)
        → check_apply_count database limits stage d ≡ limit
        → find_stage stage_id d ≡ some stage
        → is_pending stage.status ≡ true
        → call.now ≤ stage.expires_at
        → Succeeds call stage_id d (
            write_if_room database limits lt hash scope_file_path safety limit call stage stage_id
              auto s d)
    unfolding write_if_room give_up
    write_if_room-Succeeds (some e) call stage stage_id auto s d limit found pend time =
        λ ok. ground arith
    write_if_room-Succeeds none call stage stage_id auto s d limit found pend time =
        write_and_record-Succeeds call stage stage_id auto s d found pend time
          (check_apply_count-none stage d limit)

    apply_found-Succeeds :
        (call : Call) (stage : Stage Float) (stage_id : Bytes) (auto : Bool) (s : Logged) (d : D)
        → find_stage stage_id d ≡ some stage
        → Succeeds call stage_id d (
            apply_found database limits lt hash scope_file_path safety call stage stage_id auto s d)
    unfolding apply_found give_up
    apply_found-Succeeds call stage stage_id auto s d found =
        if-split (Succeeds call stage_id d) (not (is_pending stage.status))
          (λ other ok. ground arith)
          (λ pend.
            if-split (Succeeds call stage_id d) (ltb stage.expires_at call.now)
              (λ over ok. ground arith)
              (λ time.
                write_if_room-Succeeds (check_apply_count database limits stage d) call stage
                  stage_id auto s d refl found (ground arith) (ground arith)))

    apply_if_found-Succeeds :
        (found : Option (Stage Float)) (call : Call) (stage_id : Bytes) (auto : Bool) (s : Logged)
        (d : D)
        → find_stage stage_id d ≡ found
        → Succeeds call stage_id d (
            apply_if_found database limits lt hash scope_file_path safety found call stage_id auto s
              d)
    unfolding apply_if_found give_up
    apply_if_found-Succeeds none call stage_id auto s d e = λ ok. ground arith
    apply_if_found-Succeeds (some stage) call stage_id auto s d e =
        apply_found-Succeeds call stage stage_id auto s d e

    pub apply_body-Succeeds :
        (call : Call) (stage_id : Bytes) (auto : Bool) (s : Logged) (d : D)
        → Succeeds call stage_id d
            (apply_body database limits lt hash scope_file_path safety call stage_id auto s d)
    unfolding apply_body give_up
    apply_body-Succeeds call stage_id auto s d =
        if-both (Succeeds call stage_id d) call.cancelled_inside (λ ok. ground arith)
          (apply_if_found-Succeeds (find_stage stage_id d) call stage_id auto s d refl)
