-- ===== src/Staking/Epoch.antt =====
-- EpochManager of internal/executor/system/framework/epoch_manager.go. `validate` is
-- `EpochInfo.Validate` of axiom-kit.
pub mod Chain
use axiom_lib.Common.{ℕ, ◌+◌, Bool, not, ◌==◌, some, arith}
use axiom_lib.Common.Maps.{update}
use axiom_lib.Common.Words.{add64}
use axiom_lib.Common.Action.{Action, pure, raise_if, gets, modify, or_raise, ◌>>=◌, ◌>>◌}
use axiom_lib.Staking.Types.{Storage, EpochInfo, Error}

-- `epochInfo.Epoch++; epochInfo.StartBlock += epochInfo.EpochPeriod`
abbrev pub following : EpochInfo → EpochInfo
following e = record e { epoch = add64 e.epoch 1; start_block = add64 e.start_block e.epoch_period }

put_history : ℕ → EpochInfo → Action Storage Error (Unit {0})
put_history id e = modify (λ s. record s { history_epoch = update s.history_epoch id (some e) })

put_current : ℕ → Action Storage Error (Unit {0})
put_current id = modify (λ s. record s { current_epoch_id = some id })

-- EpochManager.UpdateNextEpoch
unfoldable pub update_next_epoch : EpochInfo → Action Storage Error (Unit {0})
update_next_epoch e = modify (λ s. record s { next_epoch_info = some e })

unfoldable pub genesis_init : (EpochInfo → Bool) → EpochInfo → Action Storage Error (Unit {0})
unfolding put_history put_current update_next_epoch
genesis_init validate genesis = do
  raise_if (not (genesis.start_block == 0)) Error.bad_start_block
  raise_if (not (genesis.epoch == 1)) Error.bad_epoch_number
  raise_if (not (validate genesis)) Error.bad_epoch_info
  put_history genesis.epoch genesis
  put_current genesis.epoch
  update_next_epoch (following genesis)

unfoldable pub history_epoch : ℕ → Action Storage Error EpochInfo
history_epoch id = do or_raise (← gets (λ s. s.history_epoch id)) Error.epoch_not_exist

unfoldable pub current_epoch : Action Storage Error EpochInfo
unfolding history_epoch
current_epoch = do
  id ← gets (λ s. s.current_epoch_id)
  history_epoch (← or_raise id Error.epoch_not_exist)

unfoldable pub next_epoch : Action Storage Error EpochInfo
next_epoch = do or_raise (← gets (λ s. s.next_epoch_info)) Error.epoch_not_exist

unfoldable pub turn_into_new_epoch : Action Storage Error EpochInfo
unfolding next_epoch put_history put_current update_next_epoch
turn_into_new_epoch = do
  old_next ← next_epoch
  put_history old_next.epoch old_next
  put_current old_next.epoch
  update_next_epoch (following old_next)
  pure old_next
