-- ===== src/Staging/Manager/Atomic.antt =====
-- `ApplyStage` of mcp/staging.go changes the database in whole or not at all.
use morfx.Base.{
  ◌≡◌, ◌⊎◌, ◌<◌, inl, inr, refl, ap, subst, ltb, Bool, true, false, Option, none, some, if-split,
  arith,
}
use morfx.Base.Bytes.{Bytes}
use morfx.Journal.{Logged}
use morfx.Safety.{SafetyConfig}
use morfx.Staging.{
  Stage, Apply, StagingConfig, Database, Ends, not_begun, rolled_back, not_committed, committed,
  StagingError, cancelled, stage_expired, transaction_failed, Call, Outcome, success, failure,
  is_pending,
}
use morfx.Staging.Manager.{
  Attempt, give_up, apply_found, apply_if_found, apply_body, error_of, conclude, apply_stage,
}
use morfx.Staging.Manager.Laws.{Recorded, Succeeds, apply_body-Succeeds}

module _ {Float D : Type 0} (database : Database Float D) (limits : StagingConfig)
    (lt : Float → Float → Bool) (hash : Bytes → Bytes)
    (scope_file_path : Bytes → Option (Option Bytes)) (safety : Option (SafetyConfig Float)) where
  open database use {find_stage, transaction}

  conclude-late :
      (s : Logged) (ended : Option Attempt × Bool) (apply : Apply)
      → (conclude database limits lt hash scope_file_path safety false s ended).0 ≡ success apply
      → (conclude database limits lt hash scope_file_path safety true s ended).0 ≡ failure cancelled
  unfolding conclude
  conclude-late s (none, ok) apply h = ground arith
  conclude-late s (some attempt, false) apply h = ground arith
  conclude-late s (some attempt, true) apply h = refl

  -- An application that returns a success in time is refused when the context is cancelled at its
  -- end, and the database is left as after the success.
  pub apply_stage-late :
      (call : Call) (stage_id : Bytes) (auto : Bool) (s : Logged) (d : D) (apply : Apply)
      → (apply_stage database limits lt hash scope_file_path safety call false stage_id auto s
          d).0.0
        ≡ success apply
      → ((apply_stage database limits lt hash scope_file_path safety call true stage_id auto s
            d).0.0
          ≡ failure cancelled)
        × ((apply_stage database limits lt hash scope_file_path safety call true stage_id auto s
              d).1
            ≡ (apply_stage database limits lt hash scope_file_path safety call false stage_id auto s
                d).1)
  unfolding apply_stage
  apply_stage-late call stage_id auto s d apply h =
      let late =
        conclude-late s
          (transaction
            (apply_body database limits lt hash scope_file_path safety call stage_id auto s) d).0
          apply in
      ground arith

  module _
      (ends : (body : D → (Attempt × Bool) × D) (d : D) → Ends body d (transaction body d)) where
    -- what the end of the transaction says of the outcome
    abbrev Tells : Call → Bool → Bytes → Logged → D → (Option Attempt × Bool) × D → Type 0
    Tells call late stage_id s d (ended, d') =
        ((apply : Apply)
          → (conclude database limits lt hash scope_file_path safety late s ended).0 ≡ success apply
          → Recorded database limits lt hash scope_file_path safety call stage_id d apply d')
        × ((e : StagingError)
            → late ≡ false
            → (conclude database limits lt hash scope_file_path safety late s ended).0 ≡ failure e
            → d' ≡ d)

    conclude-Tells :
        (call : Call) (late : Bool) (stage_id : Bytes) (auto : Bool) (s : Logged) (d : D)
        (ended : (Option Attempt × Bool) × D)
        → Ends
            (apply_body database limits lt hash scope_file_path safety call stage_id auto s)
            d
            ended
        → Tells call late stage_id s d ended
    unfolding conclude
    conclude-Tells call late stage_id auto s d ended not_begun =
        (λ apply h. ground arith, λ e early h. refl)
    conclude-Tells call late stage_id auto s d ended (rolled_back x d' e) =
        (λ apply h. ground arith, λ e early h. refl)
    conclude-Tells call late stage_id auto s d ended (not_committed x d' e) =
        (λ apply h. ground arith, λ e early h. refl)
    conclude-Tells call late stage_id auto s d ended (committed x d' e) =
        let (apply, done, recorded) =
          subst (Succeeds database limits lt hash scope_file_path safety call stage_id d) e
            (apply_body-Succeeds database limits lt hash scope_file_path safety call stage_id auto s
              d)
            refl in
        (
          λ given h.
              (let same : apply ≡ given = ground arith in
                subst
                  (λ a.
                    Recorded database limits lt hash scope_file_path safety call stage_id d a d')
                  same recorded),
          λ e early h. ground arith,
        )

    -- An application that returns a success recorded a pending stage that was in time and in a session
    -- with room, and the database holds the application and the applied stage. The section assumes
    -- that a transaction ends in one of the ways that gorm documents.
    pub apply_stage-success :
        (call : Call) (late : Bool) (stage_id : Bytes) (auto : Bool) (s : Logged) (d : D)
        (apply : Apply)
        → (apply_stage database limits lt hash scope_file_path safety call late stage_id auto s
            d).0.0
          ≡ success apply
        → Recorded database limits lt hash scope_file_path safety call stage_id d apply
            (apply_stage database limits lt hash scope_file_path safety call late stage_id auto s
              d).1
    unfolding apply_stage
    apply_stage-success call late stage_id auto s d apply h =
        let (told, kept_by) =
          conclude-Tells call late stage_id auto s d
            (transaction
              (apply_body database limits lt hash scope_file_path safety call stage_id auto s) d)
            (ends (apply_body database limits lt hash scope_file_path safety call stage_id auto s)
              d) in
        if-split
          (λ (r : (Outcome Apply × Logged) × D).
            r.0.0 ≡ success apply
            → Recorded database limits lt hash scope_file_path safety call stage_id d apply r.1)
          call.cancelled_before (λ before done. ground arith) (λ before. told apply) h

    -- An application that returns an error, its context not cancelled at the end, leaves the database
    -- as it was. The section assumes that a transaction ends in one of the ways that gorm documents.
    pub apply_stage-failure :
        (call : Call) (stage_id : Bytes) (auto : Bool) (s : Logged) (d : D) (e : StagingError)
        → (apply_stage database limits lt hash scope_file_path safety call false stage_id auto s
            d).0.0
          ≡ failure e
        → (apply_stage database limits lt hash scope_file_path safety call false stage_id auto s
            d).1
          ≡ d
    unfolding apply_stage
    apply_stage-failure call stage_id auto s d e h =
        let (told, kept_by) =
          conclude-Tells call false stage_id auto s d
            (transaction
              (apply_body database limits lt hash scope_file_path safety call stage_id auto s) d)
            (ends (apply_body database limits lt hash scope_file_path safety call stage_id auto s)
              d) in
        let kept = kept_by e refl in ground arith

    conclude-refused :
        (call : Call) (late : Bool) (stage_id : Bytes) (auto : Bool) (s : Logged) (d : D)
        (e : StagingError) (ended : (Option Attempt × Bool) × D)
        → Ends
            (apply_body database limits lt hash scope_file_path safety call stage_id auto s)
            d
            ended
        → (apply_body database limits lt hash scope_file_path safety call stage_id auto s d).0.1
          ≡ false
        → (apply_body database limits lt hash scope_file_path safety call stage_id auto s
            d).0.0.outcome
          ≡ failure e
        → (((conclude database limits lt hash scope_file_path safety late s ended.0).0 ≡ failure e)
            ⊎ ((conclude database limits lt hash scope_file_path safety late s ended.0).0
                ≡ failure transaction_failed))
          × (ended.1 ≡ d)
    unfolding conclude
    conclude-refused call late stage_id auto s d e ended not_begun h o = (inr refl, refl)
    conclude-refused call late stage_id auto s d e ended (rolled_back x d' eq) h o =
        let same : x.outcome ≡ failure e = cc in
        (
          inl (ap (λ y. failure (error_of database limits lt hash scope_file_path safety y)) same),
          refl,
        )
    conclude-refused call late stage_id auto s d e ended (not_committed x d' eq) h o = ground arith
    conclude-refused call late stage_id auto s d e ended (committed x d' eq) h o = ground arith

    apply_body-expired :
        (call : Call) (stage_id : Bytes) (auto : Bool) (s : Logged) (d : D) (stage : Stage Float)
        → call.cancelled_inside ≡ false
        → find_stage stage_id d ≡ some stage
        → is_pending stage.status ≡ true
        → stage.expires_at < call.now
        → ((apply_body database limits lt hash scope_file_path safety call stage_id auto s d).0.1
            ≡ false)
          × ((apply_body database limits lt hash scope_file_path safety call stage_id auto s
                d).0.0.outcome
              ≡ failure stage_expired)
    unfolding apply_body apply_if_found apply_found give_up
    apply_body-expired call stage_id auto s d stage inside found pend over =
        let late : ltb stage.expires_at call.now ≡ true = ground arith in
        rw (inside, apply_body, found, apply_if_found, pend, apply_found, late) (refl, refl)

    -- A pending stage whose time is over is refused and stays as it was: the status "expired" is saved
    -- in a transaction that then fails. The section assumes that a transaction ends in one of the ways
    -- that gorm documents.
    pub apply_stage-expired :
        (call : Call) (late : Bool) (stage_id : Bytes) (auto : Bool) (s : Logged) (d : D)
        (stage : Stage Float)
        → call.cancelled_before ≡ false
        → call.cancelled_inside ≡ false
        → find_stage stage_id d ≡ some stage
        → is_pending stage.status ≡ true
        → stage.expires_at < call.now
        → (((apply_stage database limits lt hash scope_file_path safety call late stage_id auto s
                d).0.0
              ≡ failure stage_expired)
            ⊎ ((apply_stage database limits lt hash scope_file_path safety call late stage_id auto s
                  d).0.0
                ≡ failure transaction_failed))
          × ((apply_stage database limits lt hash scope_file_path safety call late stage_id auto s
                d).1
              ≡ d)
    unfolding apply_stage
    apply_stage-expired call late stage_id auto s d stage before inside found pend over =
        let (fails, why) = apply_body-expired call stage_id auto s d stage inside found pend over in
        let refused =
          conclude-refused call late stage_id auto s d stage_expired
            (transaction
              (apply_body database limits lt hash scope_file_path safety call stage_id auto s) d)
            (ends (apply_body database limits lt hash scope_file_path safety call stage_id auto s)
              d)
            fails why in
        if-split
          (λ (r : (Outcome Apply × Logged) × D).
            ((r.0.0 ≡ failure stage_expired) ⊎ (r.0.0 ≡ failure transaction_failed)) × (r.1 ≡ d))
          call.cancelled_before (λ yes_before. ground arith) (λ not_before. refused)
