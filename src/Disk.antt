-- ===== src/Disk.antt =====
-- The operating system calls that the program makes (package os, and internal/securefs/securefs.go,
-- which passes them on), over a disk of regular files. Any call may fail: the world holds what the
-- next calls do. Permission bits are left out.
pub mod Frame
use morfx.Base.{
  ℕ, zero, suc, Bool, true, false, Option, none, some, List, [], ◌∷◌, take, if◌then◌else◌,
}
use morfx.Base.Bytes.{Bytes, beq}

-- A call succeeds, if the files allow it, or fails; a failed write may leave its first bytes behind.
pub data Outcome : Type 0 where
  success : Outcome
  failure : ℕ → Outcome

abbrev pub Files : Type 0
Files = Bytes → Option Bytes

pub record World : Type 0 where
  pub files : Files
  pub outcomes : List Outcome

abbrev pub update : Files → Bytes → Option Bytes → Files
update files path value q = if beq path q then value else files q

-- The outcome of the next call; past the list every call succeeds.
abbrev pub next_outcome : World → Outcome × World
next_outcome w = elim w.outcomes [ [] ↦ (success, w) | o ∷ os ↦ (o, record w { outcomes = os }) ]

-- `os.Stat`: whether the file is there, or an error of another kind
pub data Stat : Type 0 where
  present missing stat_error : Stat

abbrev pub present? : Option Bytes → Stat
present? none = missing
present? (some _) = present

unfoldable pub stat : Bytes → World → Stat × World
stat path w =
    let (o, w') = next_outcome w in
    elim o [ success ↦ (present? (w'.files path), w') | failure _ ↦ (stat_error, w') ]

-- `os.ReadFile`; `none` is an error
unfoldable pub read_file : Bytes → World → Option Bytes × World
read_file path w =
    let (o, w') = next_outcome w in
    elim o [ success ↦ (w'.files path, w') | failure _ ↦ (none, w') ]

-- `os.WriteFile`; true is success here and below
-- What a failing `os.WriteFile` leaves: the file as it was, if it is not opened, and else the bytes
-- that are written before the failure.
abbrev pub torn : ℕ → Bytes → Bytes → World → World
torn zero path content w = w
torn (suc n) path content w = record w { files = update w.files path (some (take n content)) }

unfoldable pub write_file : Bytes → Bytes → World → Bool × World
write_file path content w =
    let (o, w') = next_outcome w in
    elim o [
      | success ↦ (true, record w' { files = update w'.files path (some content) })
      | failure n ↦ (false, torn n path content w')
    ]

-- A call that changes no content, such as `os.Chmod` and `File.Sync`.
unfoldable pub touch : Bytes → World → Bool × World
touch path w =
    let (o, w') = next_outcome w in elim o [ success ↦ (true, w') | failure _ ↦ (false, w') ]

abbrev pub rename_found : Option Bytes → Bytes → Bytes → World → Bool × World
rename_found none source target w = (false, w)
rename_found (some content) source target w =
    (true, record w { files = update (update w.files source none) target (some content) })

-- `os.Rename`
unfoldable pub rename : Bytes → Bytes → World → Bool × World
rename source target w =
    let (o, w') = next_outcome w in
    elim o [ success ↦ rename_found (w'.files source) source target w' | failure _ ↦ (false, w') ]

abbrev pub remove_found : Option Bytes → Bytes → World → Bool × World
remove_found none path w = (false, w)
remove_found (some _) path w = (true, record w { files = update w.files path none })

-- `os.Remove`
unfoldable pub remove : Bytes → World → Bool × World
remove path w =
    let (o, w') = next_outcome w in
    elim o [ success ↦ remove_found (w'.files path) path w' | failure _ ↦ (false, w') ]
