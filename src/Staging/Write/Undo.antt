-- ===== src/Staging/Write/Undo.antt =====
-- The plain write of `prepareStageWrite` in mcp/staging.go, and its undoing.
use morfx.Base.{◌≡◌, ◌⊎◌, inl, inr, ap, Bool, Option, some, [], Option-cases, arith}
use morfx.Base.Bytes.{Bytes, beq→eq, beq_refl}
use morfx.Disk.{Files, stat, read_file, write_file, remove}
use morfx.Journal.{Logged, Transactions}
use morfx.Staging.{Stage, Guard, PrepareError}
use morfx.Staging.Write.{plain_write, original_of, rollback_guard}

-- a disk on which no call fails
abbrev pub quiet : Files → Transactions → Logged
quiet files transactions = record {
  world = record { files = files; outcomes = [] };
  transactions = transactions;
}

-- `ApplyStage` calls the guard's rollback when a later step fails.
abbrev pub undo : PrepareError ⊎ Option Guard → Logged → Logged
undo (inl e) s = s
undo (inr guard) s = rollback_guard guard s

module _ {Float : Type 0} (lt : Float → Float → Bool) (hash : Bytes → Bytes) where
  -- Where no call fails, the plain write puts the content of the stage at its path, and the rollback of
  -- its guard brings back what every path held.
  pub plain_write-undo :
      (path q : Bytes) (stage : Stage Float) (files : Files) (transactions : Transactions)
      → ((plain_write lt hash path stage (quiet files transactions)).1.world.files path
          ≡ some stage.modified)
        × ((undo
                (plain_write lt hash path stage (quiet files transactions)).0
                (plain_write lt hash path stage (quiet files transactions)).1).world.files
              q
            ≡ files q)
  unfolding plain_write original_of rollback_guard stat read_file write_file remove
  plain_write-undo path q stage files transactions =
      let same = beq→eq path q in
      let self = beq_refl path in
      let moved : path ≡ q → files path ≡ files q = ap files in
      elim (Option-cases (files path)) [ inl gone ↦ ground arith | inr (old, there) ↦ ground arith ]
