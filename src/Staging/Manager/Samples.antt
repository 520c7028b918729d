-- ===== src/Staging/Manager/Samples.antt =====
-- Tests of staging, and its theorems at a concrete database.
use morfx.Base.{
  ℕ, suc, ◌≡◌, ◌⊎◌, refl, Bool, true, false, Option, none, some, [], if◌then◌else◌, ltb, arith,
}
use morfx.Base.Bytes.{Bytes, codes, beq, is_empty}
use morfx.Journal.{Logged}
use morfx.Disk.{Files, touch, write_file, stat}
use morfx.Staging.{
  Stage, Apply, StagingConfig, Database, Ends, rolled_back, committed, Call, Outcome, success,
  failure, cancelled, stage_expired, stage_already, transaction_failed, pending, is_pending,
}
use morfx.Staging.Write.Undo.{quiet, undo, plain_write-undo}
use morfx.Staging.Write.{plain_write, prepare_stage_write, commit_guard}
use morfx.Staging.Manager.{Attempt, create_stage, apply_stage, apply_body}
use morfx.Staging.Manager.Laws.{Recorded}
use morfx.Staging.Manager.Create.{MayStage, create_stage-success}
use morfx.Staging.Manager.Atomic.{
  apply_stage-success, apply_stage-failure, apply_stage-expired, apply_stage-late,
}

-- a table of one stage, and the number of applications
record Tables : Type 0 where
  stage : Stage ℕ
  applies : ℕ

abbrev staged : Stage ℕ
staged = record {
  id = codes "stg";
  session_id = codes "s";
  modified = codes "new";
  base_digest = [];
  confidence_score = 90;
  scope_ast = codes "{}";
  status = pending;
  expires_at = 100;
  applied_at = none;
}

abbrev before : Tables
before = record { stage = staged; applies = 0 }

-- A transaction that commits whenever its function succeeds.
abbrev end_transaction {ℓ} :
    {X : Type ℓ} → Tables → (X × Bool) × Tables → (Option X × Bool) × Tables
end_transaction d ((x, true), d') = ((some x, true), d')
end_transaction d ((x, false), d') = ((some x, false), d)

abbrev tables : Database ℕ Tables
tables = record {
  count_pending = λ session d. some 1;
  insert_stage = λ stage d. (true, record d { stage = stage });
  find_stage = λ id d. if beq id d.stage.id then some d.stage else none;
  save_stage = λ stage d. (true, record d { stage = stage });
  count_applies = λ session d. some d.applies;
  insert_apply = λ apply d. (true, record d { applies = suc d.applies });
  add_session_apply = λ session d. d;
  transaction = λ body d. end_transaction d (body d);
}

end_transaction-Ends :
    {X : Type 0} (body : Tables → (X × Bool) × Tables) (d : Tables) (r : (X × Bool) × Tables)
    → body d ≡ r
    → Ends body d (end_transaction d r)
end_transaction-Ends body d ((x, true), d') e = committed x d' e
end_transaction-Ends body d ((x, false), d') e = rolled_back x d' e

abbrev limits : StagingConfig
limits = record { staging_ttl = 15; max_stages_per_session = 100; max_applies_per_session = 10 }

abbrev call_at : ℕ → Call
call_at now = record {
  cancelled_before = false;
  cancelled_inside = false;
  now = now;
  applied_now = now;
  new_id = codes "apl";
  suffix = some (codes "7f");
  tx_id = codes "t";
}

abbrev empty_disk : Logged
empty_disk = record { world = record { files = λ path. none; outcomes = [] }; transactions = [] }

-- The scope of every stage names the file `a.go`.
abbrev scope_of : Bytes → Option (Option Bytes)
scope_of scope = some (some (codes "a.go"))

abbrev new_apply : Apply
new_apply = record {
  id = codes "apl";
  stage_id = codes "stg";
  auto_applied = false;
  applied_by = codes "mcp";
}

abbrev run : Call → Bool → (Outcome Apply × Logged) × Tables
run call late =
    apply_stage tables limits ltb (λ s. s) scope_of none call late (codes "stg") false empty_disk
      before

run-succeeds : (run (call_at 5) false).0.0 ≡ success new_apply
unfolding apply_stage beq is_empty prepare_stage_write apply_body touch write_file stat
run-succeeds = refl

run_writes : (run (call_at 5) false).0.1.world.files (codes "a.go") ≡ some (codes "new")
unfolding apply_stage beq is_empty prepare_stage_write apply_body touch write_file stat commit_guard
run_writes = refl

-- the first application that succeeds, again: the stage is not pending any more
run_twice :
    (apply_stage tables limits ltb
      (λ s. s)
      scope_of
      none
      (call_at 6)
      false
      (codes "stg")
      false
      empty_disk
      (run (call_at 5) false).1).0.0
    ≡ failure (stage_already (codes "applied"))
unfolding apply_stage beq is_empty prepare_stage_write apply_body touch write_file stat
run_twice = refl

tables-Ends :
    (body : Tables → (Attempt × Bool) × Tables) (d : Tables)
    → Ends body d (tables.transaction body d)
tables-Ends body d = end_transaction-Ends body d (body d) refl

apply_stage-success_example :
    Recorded tables limits ltb
      (λ s. s)
      scope_of
      none
      (call_at 5)
      (codes "stg")
      before
      new_apply
      (run (call_at 5) false).1
apply_stage-success_example =
    apply_stage-success tables limits ltb (λ s. s) scope_of none tables-Ends (call_at 5) false
      (codes "stg") false empty_disk before new_apply run-succeeds

run-expires : (run (call_at 500) false).0.0 ≡ failure stage_expired
unfolding apply_stage beq is_empty prepare_stage_write apply_body touch write_file stat
run-expires = refl

apply_stage-failure_example : (run (call_at 500) false).1 ≡ before
apply_stage-failure_example =
    apply_stage-failure tables limits ltb (λ s. s) scope_of none tables-Ends (call_at 500)
      (codes "stg") false empty_disk before stage_expired run-expires

found_staged : tables.find_stage (codes "stg") before ≡ some staged
unfolding beq
found_staged = refl

staged_pending : is_pending staged.status ≡ true
unfolding beq
staged_pending = refl

apply_stage-expired_example :
    (((run (call_at 500) true).0.0 ≡ failure stage_expired)
      ⊎ ((run (call_at 500) true).0.0 ≡ failure transaction_failed))
    × ((run (call_at 500) true).1 ≡ before)
apply_stage-expired_example =
    apply_stage-expired tables limits ltb (λ s. s) scope_of none tables-Ends (call_at 500) true
      (codes "stg") false empty_disk before staged refl refl found_staged staged_pending
      (omega arith)

apply_stage-late_example :
    ((run (call_at 5) true).0.0 ≡ failure cancelled)
    × ((run (call_at 5) true).1 ≡ (run (call_at 5) false).1)
apply_stage-late_example =
    apply_stage-late tables limits ltb (λ s. s) scope_of none (call_at 5) (codes "stg") false
      empty_disk before new_apply run-succeeds

-- the stage before `CreateStage` fills it in
abbrev draft : Stage ℕ
draft = record staged { status = []; expires_at = 0 }

abbrev filled : Stage ℕ
filled = record staged { expires_at = 20 }

draft_saved : (create_stage tables limits (call_at 5) false draft before).0 ≡ success filled
unfolding create_stage is_empty
draft_saved = refl

create_stage-success_example :
    (is_empty filled.status ≡ false)
    × (filled.session_id ≡ draft.session_id)
    × MayStage tables limits draft before
    × (tables.insert_stage filled before
        ≡ (true, (create_stage tables limits (call_at 5) false draft before).1))
create_stage-success_example =
    create_stage-success tables limits (call_at 5) false draft filled before draft_saved

-- `a.go` holds "old".
abbrev old_files : Files
old_files path = if beq path (codes "a.go") then some (codes "old") else none

plain_write-undo_example :
    ((plain_write ltb (λ s. s) (codes "a.go") staged (quiet old_files [])).1.world.files
        (codes "a.go")
      ≡ some (codes "new"))
    × ((undo
            (plain_write ltb (λ s. s) (codes "a.go") staged (quiet old_files [])).0
            (plain_write ltb (λ s. s) (codes "a.go") staged (quiet old_files [])).1).world.files
          (codes "a.go")
        ≡ old_files (codes "a.go"))
plain_write-undo_example =
    plain_write-undo ltb (λ s. s) (codes "a.go") (codes "a.go") staged old_files []
