-- ===== src/Staging/Write.antt =====
-- `prepareStageWrite` of mcp/staging.go, its guard, and `ValidateFileIntegrity` of mcp/safety.go.
pub mod Undo
use morfx.Base.{Bool, Option, none, some, List, [], ◌∷◌, length, if◌then◌else◌, ◌⊎◌, inl, inr}
use morfx.Base.Bytes.{Bytes, beq, is_empty}
use morfx.Disk.{World, Stat, stat, present, read_file, write_file, touch, remove}
use morfx.Journal.{Logged}
use morfx.Safety.{
  SafetyConfig, SafetyOperation, SafetyError, file_modified, file_system_error, validate_operation,
  WriteResult, written, atomic_write, commit, rollback,
}
use morfx.Staging.{
  Stage, Call, Guard, handle_guard, plain_guard, PrepareError, scope_invalid, no_modified_content,
  mkdir_failed, write_error, unsafe,
}

-- `hash` is the hexadecimal SHA-256 digest. A pair is a path and the digest that it should have.
module _ {Float : Type 0} (hash : Bytes → Bytes) (config : SafetyConfig Float) where
  pub check_hash : Bytes → Bytes → Option Bytes → Option SafetyError
  unfolding beq
  check_hash path expected none = some (file_system_error path)
  check_hash path expected (some content) =
      if beq (hash content) expected then none else some (file_modified path)

  pub check_hashes : List (Bytes × Bytes) → World → Option SafetyError × World
  check_hashes [] w = (none, w)
  check_hashes ((path, expected) ∷ files) w =
      let (content, w') = read_file path w in
      let rest = check_hashes files w' in
      elim (check_hash path expected content) [ some e ↦ (some e, w') | none ↦ rest ]

  unfoldable pub validate_file_integrity : List (Bytes × Bytes) → World → Option SafetyError × World
  unfolding check_hashes check_hash
  validate_file_integrity files w =
      if config.validate_file_hashes then check_hashes files w else (none, w)

module _ {Float : Type 0} (lt : Float → Float → Bool) (hash : Bytes → Bytes) where
  pub operation_of : Bytes → Stage Float → SafetyOperation Float
  operation_of path stage = record {
    files =
        record { path = path; size = length stage.modified; confidence = stage.confidence_score }
        ∷ [];
    global_confidence = stage.confidence_score;
  }

  pub guard_of : WriteResult → PrepareError ⊎ Option Guard
  guard_of (written handle) = inr (some (handle_guard handle))
  guard_of _ = inl write_error

  pub check_digest : SafetyConfig Float → Bytes → Stage Float → World → Option SafetyError × World
  check_digest config path stage w =
      if is_empty stage.base_digest
      then (none, w)
      else validate_file_integrity hash config ((path, stage.base_digest) ∷ []) w

  -- the write through the safety manager
  pub safe_write :
      SafetyConfig Float
      → Call
      → Bytes
      → Stage Float
      → Logged
      → (PrepareError ⊎ Option Guard) × Logged
  unfolding operation_of guard_of check_digest
  safe_write config call path stage s =
      elim (validate_operation lt config (operation_of path stage)) [
        | some e ↦ (inl (unsafe e), s)
        | none ↦
            let (changed, w) = check_digest config path stage s.world in
            let checked : Logged = record s { world = w } in
            let (result, s') =
              atomic_write config call.suffix call.tx_id path stage.modified checked in
            elim changed [ some e ↦ (inl (unsafe e), checked) | none ↦ (guard_of result, s') ]
      ]

  -- what the plain write keeps of the file
  pub original_of : Stat → Bytes → World → Option Bytes × World
  original_of present path w = read_file path w
  original_of _ path w = (none, w)

  -- the write without a safety manager
  pub plain_write : Bytes → Stage Float → Logged → (PrepareError ⊎ Option Guard) × Logged
  unfolding original_of
  plain_write path stage s =
      let (there, w₁) = stat path s.world in
      let (original, w₂) = original_of there path w₁ in
      let (wrote, w₃) = write_file path stage.modified w₂ in
      (
        if wrote then inr (some (plain_guard path original)) else inl write_error,
        record s { world = w₃ },
      )

  -- `safety` is none for a nil safety manager.
  pub write_stage :
      Option (SafetyConfig Float)
      → Call
      → Bytes
      → Stage Float
      → Logged
      → (PrepareError ⊎ Option Guard) × Logged
  unfolding safe_write plain_write
  write_stage none call path stage s = plain_write path stage s
  write_stage (some config) call path stage s = safe_write config call path stage s

  -- `scope_file_path` decodes JSON: none if it is not valid, and the string at `file_path` if any.
  unfoldable pub prepare_stage_write :
      (Bytes → Option (Option Bytes))
      → Option (SafetyConfig Float)
      → Call
      → Stage Float
      → Logged
      → (PrepareError ⊎ Option Guard) × Logged
  unfolding write_stage
  prepare_stage_write scope_file_path safety call stage s =
      if is_empty stage.scope_ast then (inr none, s) else elim (scope_file_path stage.scope_ast) [
        | none ↦ (inl scope_invalid, s)
        | some none ↦ (inr none, s)
        | some (some path) ↦
            if is_empty path
            then (inr none, s)
            else if is_empty stage.modified
            then (inl no_modified_content, s)
            else (let (made, w) = touch path s.world in
                if made
                then write_stage safety call path stage (record s { world = w })
                else (inl mkdir_failed, record s { world = w }))
      ]

-- `fileWriteGuard.Commit` and `Rollback`, on a guard that may be nil; the error of a rollback is
-- dropped where it is called.
unfoldable pub commit_guard : Option Guard → Logged → Logged
commit_guard (some (handle_guard handle)) s = (commit handle s).1
commit_guard _ s = s

unfoldable pub rollback_guard : Option Guard → Logged → Logged
rollback_guard none s = s
rollback_guard (some (handle_guard handle)) s = (rollback handle s).1
rollback_guard (some (plain_guard path (some bytes))) s = record s {
  world = (write_file path bytes s.world).1;
}
rollback_guard (some (plain_guard path none)) s = record s { world = (remove path s.world).1 }
