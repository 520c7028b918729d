-- ===== src/Staging.antt =====
-- mcp/staging.go: stages of changes that wait in a database, and their application to files.
pub mod Write
pub mod Manager
use morfx.Base.{
  ℕ, ◌≡◌, ◌+◌, ltb, leb, Bool, true, false, ◌&&◌, ◌||◌, not, Option, none, some, List, [], ◌∷◌,
  length, if◌then◌else◌, ◌⊎◌, inl, inr,
}
use morfx.Base.Bytes.{Bytes, codes, beq, is_empty}
use morfx.Disk.{
  World, Stat, stat, present, missing, stat_error, read_file, write_file, touch, remove,
}
use morfx.Journal.{Logged}
use morfx.Safety.{
  SafetyConfig, SafetyError, file_modified, file_system_error, validate_operation, WriteResult,
  written, atomic_write, commit, rollback,
}

-- A time is a number, and 0 the zero time. `Float` stands for float64.
pub record Stage (Float : Type 0) : Type 0 where
  pub id : Bytes
  pub session_id : Bytes
  pub modified : Bytes
  pub base_digest : Bytes
  pub confidence_score : Float
  pub scope_ast : Bytes
  pub status : Bytes
  pub expires_at : ℕ
  pub applied_at : Option ℕ

pub record Apply : Type 0 where
  pub id : Bytes
  pub stage_id : Bytes
  pub auto_applied : Bool
  pub applied_by : Bytes

-- the limits of the configuration, where 0 is no limit
pub record StagingConfig : Type 0 where
  pub staging_ttl : ℕ
  pub max_stages_per_session : ℕ
  pub max_applies_per_session : ℕ

-- The calls of gorm that staging makes, on a database `D`; `none` and false are errors.
pub record Database (Float D : Type 0) : Type 1 where
  pub count_pending : Bytes → D → Option ℕ
  pub insert_stage : Stage Float → D → Bool × D
  pub find_stage : Bytes → D → Option (Stage Float)
  pub save_stage : Stage Float → D → Bool × D
  pub count_applies : Bytes → D → Option ℕ
  pub insert_apply : Apply → D → Bool × D
  pub add_session_apply : Bytes → D → D
  -- `Transaction`: its function returns what it leaves outside the database, and whether its error
  -- is nil. So does the call, where `none` says that the function was not run.
  pub transaction : {X : Type 0} → (D → (X × Bool) × D) → D → (Option X × Bool) × D

-- What gorm documents of a transaction that starts in `d` with the function `body`.
pub data Ends {D X : Type 0} (body : D → (X × Bool) × D) (d : D)
    : (Option X × Bool) × D → Type 0 where
  not_begun : Ends body d ((none, false), d)
  rolled_back : (x : X) (d' : D) → body d ≡ ((x, false), d') → Ends body d ((some x, false), d)
  not_committed : (x : X) (d' : D) → body d ≡ ((x, true), d') → Ends body d ((some x, false), d)
  committed : (x : X) (d' : D) → body d ≡ ((x, true), d') → Ends body d ((some x, true), d')

pub data PrepareError : Type 0 where
  scope_invalid no_modified_content mkdir_failed write_error : PrepareError
  unsafe : SafetyError → PrepareError

-- `fileWriteGuard`: an atomic write by its handle, or a plain write by its path and old content
pub data Guard : Type 0 where
  handle_guard : Option Bytes → Guard
  plain_guard : Bytes → Option Bytes → Guard

pub data StagingError : Type 0 where
  cancelled stage_count_failed stage_limit_exceeded create_stage_failed : StagingError
  stage_not_found stage_expired apply_count_failed apply_limit_exceeded : StagingError
  create_apply_failed save_stage_failed transaction_failed : StagingError
  stage_already : Bytes → StagingError
  prepare_failed : PrepareError → StagingError

-- What a call reads of the world around it: the state of its context before the work, the time,
-- and the names that are generated for it.
pub record Call : Type 0 where
  pub cancelled_before : Bool
  pub cancelled_inside : Bool
  pub now : ℕ
  -- the time of the update of the stage
  pub applied_now : ℕ
  pub new_id : Bytes
  pub suffix : Option Bytes
  pub tx_id : Bytes

pub data Outcome (A : Type 0) : Type 0 where
  success : A → Outcome A
  failure : StagingError → Outcome A

abbrev pub pending : Bytes
pending = codes "pending"

abbrev pub is_pending : Bytes → Bool
is_pending status = beq status pending
