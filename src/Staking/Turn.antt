-- ===== src/Staking/Turn.antt =====
-- StakingPool.TurnIntoNewEpoch of internal/executor/system/framework/staking_pool.go: at the end of
-- an epoch a pool takes in its reward, settles what is pending, and records the epoch's rate.
pub mod Laws
use axiom_lib.Common.{ℕ, ◌==◌, if◌then◌else◌}
use axiom_lib.Common.Int.{ℤ, pos, ◌+ℤ◌, ◌-ℤ◌, ◌*ℤ◌, ◌/ℤ◌}
use axiom_lib.Common.Words.{sub64}
use axiom_lib.Common.Action.{Action, ◌>>=◌, ◌>>◌}
use axiom_lib.Staking.Types.{Storage, PoolInfo, LstInfo, Rate, Error}
use axiom_lib.Staking.Rates.{calculate_lst_amount, calculate_principal_and_reward}
use axiom_lib.Staking.Pool.{
  commission_rate_denominator, must_get_info, put_info, put_rate, update_info, must_get_token,
  history_rate,
}

-- The part of the reward that goes to the stakers. The difference of the rates is a `uint64`.
unfoldable pub staker_reward : PoolInfo → ℤ → ℤ
staker_reward info reward =
    reward
    *ℤ pos (sub64 commission_rate_denominator info.commission_rate)
    /ℤ pos commission_rate_denominator

unfoldable pub operator_commission : PoolInfo → ℤ → ℤ
operator_commission info reward = reward -ℤ staker_reward info reward

-- Adds the stakers' reward, takes out the pending inactive stake, and takes in the pending active
-- stake at the rate in between.
unfoldable pub settle : PoolInfo → ℤ → PoolInfo
settle info reward =
    let staked = info.active_stake +ℤ staker_reward info reward -ℤ info.pending_inactive_stake in
    let lst = info.total_lst -ℤ info.pending_inactive_lst in
    let active = staked +ℤ info.pending_active_stake in
    record info {
      last_epoch_reward = staker_reward info reward;
      last_epoch_commission = operator_commission info reward;
      cumulative_reward = info.cumulative_reward +ℤ staker_reward info reward;
      cumulative_commission = info.cumulative_commission +ℤ operator_commission info reward;
      active_stake = active;
      total_lst = calculate_lst_amount (record { stake_amount = staked; lst_amount = lst }) active;
      pending_active_stake = pos 0;
      pending_inactive_stake = pos 0;
      pending_inactive_lst = pos 0;
    }

-- The operator's token: its reward, where it was active in the old epoch, and the commission.
unfoldable pub restake : ℕ → ℕ → Rate → Rate → ℤ → LstInfo → LstInfo
restake old_epoch new_epoch last_rate rate commission token = record token {
  principal =
      (if token.active_epoch == old_epoch
        then calculate_principal_and_reward last_rate rate token.principal
        else token.principal)
      +ℤ commission;
  active_epoch = new_epoch;
}

abbrev pub rate_of_pool : PoolInfo → Rate
rate_of_pool info = record { stake_amount = info.active_stake; lst_amount = info.total_lst }

-- Adds the commission as new stake at the pool's rate, and takes up the next commission rate.
unfoldable pub add_commission : ℕ → ℤ → PoolInfo → PoolInfo
add_commission old_epoch commission info =
    let active = info.active_stake +ℤ commission in
    record info {
      active_stake = active;
      total_lst = calculate_lst_amount (rate_of_pool info) active;
      commission_rate = info.next_epoch_commission_rate;
      last_rate_epoch = old_epoch;
    }

unfoldable pub turn_into_new_epoch : ℕ → ℕ → ℕ → ℤ → Action Storage Error (Unit {0})
turn_into_new_epoch pool_id old_epoch new_epoch reward = do
  info ← must_get_info pool_id
  let settled = settle info reward
  let commission = operator_commission info reward
  token ← must_get_token info.operator_lst_id
  last_rate ← history_rate pool_id (sub64 old_epoch 1)
  update_info info.operator_lst_id
      (restake old_epoch new_epoch last_rate (rate_of_pool settled) commission token)
  let turned = add_commission old_epoch commission settled
  put_info pool_id turned
  put_rate pool_id old_epoch (rate_of_pool turned)
