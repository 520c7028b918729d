-- ===== src/Files.antt =====
-- The transformation of many files in package core: atomic writes, transactions, the file processor.
pub mod Quiet
pub mod Writer
pub mod Transaction
pub mod Processor
mod Samples
use morfx.Base.{Bool, true, false, Option, none, some, [], if◌then◌else◌}
use morfx.Base.Bytes.{Bytes}
use morfx.Disk.{
  World, Outcome, success, failure, update, next_outcome, stat, Stat, present, missing, stat_error,
  read_file, write_file, touch,
}

-- What opening a file that must not be there gives.
pub data Created : Type 0 where
  made already_there not_made : Created

abbrev pub created_at : Option Bytes → Bytes → World → Created × World
created_at none path w = (made, record w { files = update w.files path (some []) })
created_at (some content) path w = (already_there, w)

-- `OpenFile` with O_CREATE|O_EXCL
unfoldable pub create_exclusive : Bytes → World → Created × World
create_exclusive path w =
    let (o, w') = next_outcome w in
    elim o [ success ↦ created_at (w'.files path) path w' | failure _ ↦ (not_made, w') ]

-- `OpenFile` with O_CREATE|O_TRUNC
unfoldable pub create_truncated : Bytes → World → Bool × World
create_truncated path w =
    let (o, w') = next_outcome w in
    elim o [
      | success ↦ (true, record w' { files = update w'.files path (some []) })
      | failure _ ↦ (false, w')
    ]

-- `os.Remove`, where a missing file is no error
unfoldable pub remove_if_there : Bytes → World → Bool × World
remove_if_there path w =
    let (o, w') = next_outcome w in
    elim o [
      | success ↦ (true, record w' { files = update w'.files path none })
      | failure _ ↦ (false, w')
    ]

-- what follows a call that may fail
abbrev pub branch :
    {A : Type 0} → Bool × World → (World → A × World) → (World → A × World) → A × World
branch (true, w) done failed = done w
branch (false, w) done failed = failed w

abbrev pub copy_to : Bytes → Option Bytes × World → Bool × World
copy_to target (none, w) = (false, w)
copy_to target (some content, w) =
    branch (write_file target content w) (λ v. touch target v) (λ v. (false, v))

abbrev pub copy_stated : Bytes → Bytes → Stat × World → Bool × World
copy_stated source target (present, w) = copy_to target (read_file source w)
copy_stated source target (missing, w) = (false, w)
copy_stated source target (stat_error, w) = (false, w)

-- `createBackup` of core/transaction.go and core/atomicwriter.go: the calls are the same.
unfoldable pub copy_file : Bytes → Bytes → World → Bool × World
copy_file source target w = copy_stated source target (stat source w)
