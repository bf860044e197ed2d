-- ===== src/Staking/Records.antt =====
-- updateLiquidStakingTokenUnlockingRecords of
-- internal/executor/system/framework/liquid_staking_token.go, and what a token holds.
pub mod Laws
use axiom_lib.Common.{ℕ, List, [], ◌∷◌, leb, if◌then◌else◌}
use axiom_lib.Common.Int.{ℤ, pos, ◌+ℤ◌}
use axiom_lib.Staking.Types.{UnlockingRecord, LstInfo}

-- The loop: the records that are due go into `unlocked`, the others stay.
unfoldable pub move_due : ℕ → ℤ → List UnlockingRecord → ℤ × List UnlockingRecord
move_due block_timestamp unlocked [] = (unlocked, [])
move_due block_timestamp unlocked (r ∷ records) =
    let due = leb r.unlock_timestamp block_timestamp in
    let (unlocked', remain) =
      move_due block_timestamp (if due then unlocked +ℤ r.amount else unlocked) records in
    (unlocked', if due then remain else r ∷ remain)

unfoldable pub update_unlocking_records : ℕ → LstInfo → LstInfo
unfolding move_due
update_unlocking_records block_timestamp info =
    let (unlocked, remain) = move_due block_timestamp info.unlocked info.unlocking_records in
    record info { unlocked = unlocked; unlocking_records = remain }

-- The sum of the records' amounts.
unfoldable pub records_total : List UnlockingRecord → ℤ
records_total [] = pos 0
records_total (r ∷ records) = r.amount +ℤ records_total records

-- All that a token holds, the reward left aside: principal, unlocked coin and unlocking records.
unfoldable pub holdings : LstInfo → ℤ
holdings info = info.principal +ℤ info.unlocked +ℤ records_total info.unlocking_records
