-- ===== src/Journal.antt =====
-- mcp/transaction_log.go: the transactions of atomic writes, and their rollback.
pub mod Undo
use morfx.Base.{Bool, true, false, ◌&&◌, Option, none, some, List, [], ◌∷◌, if◌then◌else◌}
use morfx.Base.Bytes.{Bytes, beq, is_empty}
use morfx.Disk.{World, stat, present, rename, remove}

pub data Status : Type 0 where
  pending completed failed rolled_back : Status

-- The times and the text of the error are left out.
pub record Transaction : Type 0 where
  pub id : Bytes
  pub target_path : Bytes
  pub tmp_path : Bytes
  pub backup_path : Bytes
  pub status : Status

-- the map `transactions`, by ID
abbrev pub Transactions : Type 0
Transactions = List Transaction

pub find_transaction : Bytes → Transactions → Option Transaction
find_transaction id [] = none
find_transaction id (tx ∷ txs) = if beq tx.id id then some tx else find_transaction id txs

-- `transactions[id] = tx`
pub store_transaction : Transaction → Transactions → Transactions
store_transaction tx [] = tx ∷ []
store_transaction tx (u ∷ us) = if beq u.id tx.id then tx ∷ us else u ∷ store_transaction tx us

pub delete_transaction : Bytes → Transactions → Transactions
delete_transaction id [] = []
delete_transaction id (tx ∷ txs) =
    let rest = delete_transaction id txs in if beq tx.id id then rest else tx ∷ rest

-- The ID is what `generateTransactionID` returns.
unfoldable pub begin_transaction : Bytes → Bytes → Bytes → Bytes → Transactions → Transactions
unfolding store_transaction
begin_transaction id target_path tmp_path backup_path = store_transaction (record {
  id = id;
  target_path = target_path;
  tmp_path = tmp_path;
  backup_path = backup_path;
  status = pending;
})

unfoldable pub complete_transaction : Bytes → Transactions → Transactions
unfolding find_transaction store_transaction
complete_transaction id txs = elim (find_transaction id txs) [
  | none ↦ txs
  | some tx ↦ store_transaction (record tx { status = completed }) txs
]

-- `fileExists`
pub file_exists : Bytes → World → Bool × World
file_exists path w = let (s, w') = stat path w in elim s [ present ↦ (true, w') | _ ↦ (false, w') ]

-- `x != "" && fileExists(x)`
pub exists_and_named : Bytes → World → Bool × World
unfolding is_empty
exists_and_named path w = if is_empty path then (false, w) else file_exists path w

-- the first `if` of `rollbackTransactionInternal`; true is success
pub restore_target : Transaction → World → Bool × World
unfolding exists_and_named file_exists
restore_target tx w =
    let (has_backup, w₁) = exists_and_named tx.backup_path w in
    if has_backup
    then rename tx.backup_path tx.target_path w₁
    else (let (has_target, w₂) = file_exists tx.target_path w₁ in
        if has_target then remove tx.target_path w₂ else (true, w₂))

pub remove_tmp : Transaction → World → World
unfolding exists_and_named file_exists
remove_tmp tx w =
    let (has_tmp, w₁) = exists_and_named tx.tmp_path w in
    if has_tmp then (remove tx.tmp_path w₁).1 else w₁

-- `rollbackTransactionInternal` without the change of status
pub rollback_files : Transaction → World → Bool × World
rollback_files tx w =
    let (restored, w') = restore_target tx w in
    if restored then (true, remove_tmp tx w') else (false, w')

-- The state that a transaction log and the disk make up.
pub record Logged : Type 0 where
  pub world : World
  pub transactions : Transactions

-- `FailTransaction`: the status stays `failed`, whatever the rollback does.
unfoldable pub fail_transaction : Bytes → Logged → Bool × Logged
fail_transaction id s = elim (find_transaction id s.transactions) [
  | none ↦ (false, s)
  | some tx ↦
      let (rolled, w) = rollback_files tx s.world in
      (
        rolled,
        record {
          world = w;
          transactions = store_transaction (record tx { status = failed }) s.transactions;
        },
      )
]

-- `rollbackTransactionInternal(tx, true)`
pub rollback_found : Transaction → Logged → Bool × Logged
rollback_found tx s =
    let (rolled, w) = rollback_files tx s.world in
    if rolled
    then (
      true,
      record {
        world = w;
        transactions = store_transaction (record tx { status = rolled_back }) s.transactions;
      },
    )
    else (false, record s { world = w })

-- `RollbackTransaction`
unfoldable pub rollback_transaction : Bytes → Logged → Bool × Logged
rollback_transaction id s = elim (find_transaction id s.transactions) [
  | none ↦ (false, s)
  | some tx ↦ rollback_found tx s
]

-- `GetPendingTransactions`, in the order of the list
pub get_pending_transactions : Transactions → Transactions
get_pending_transactions [] = []
get_pending_transactions (tx ∷ txs) =
    let rest = get_pending_transactions txs in elim tx.status [ pending ↦ tx ∷ rest | _ ↦ rest ]

pub rollback_each : Transactions → Logged → Bool × Logged
unfolding rollback_found
rollback_each [] s = (true, s)
rollback_each (tx ∷ txs) s =
    let (rolled, s') = rollback_found tx s in
    let (rest, s'') = rollback_each txs s' in (rolled && rest, s'')

-- `RollbackAll`: false if one rollback failed; the others are made all the same.
unfoldable pub rollback_all : Logged → Bool × Logged
unfolding get_pending_transactions rollback_each
rollback_all s = rollback_each (get_pending_transactions s.transactions) s

-- `cleanupTransaction`, which runs some time after a transaction is completed
unfoldable pub cleanup_transaction : Bytes → Logged → Logged
unfolding find_transaction delete_transaction is_empty
cleanup_transaction id s = elim (find_transaction id s.transactions) [
  | none ↦ s
  | some tx ↦
      let removed : World = elim tx.status [
        | completed ↦ if is_empty tx.backup_path then s.world else (remove tx.backup_path s.world).1
        | _ ↦ s.world
      ] in
      record { world = removed; transactions = delete_transaction id s.transactions }
]
