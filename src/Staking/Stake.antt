-- ===== src/Staking/Stake.antt =====
-- StakingPool.UnlockStake and StakingPool.WithdrawStake of
-- internal/executor/system/framework/staking_pool.go. The token's info is the caller's copy, as
-- `checkLiquidStakingTokenPermission` of staking_manager.go reads it.
pub mod Unlock
pub mod Withdraw
use axiom_lib.Common.{ℕ, not, ◌&&◌, [], ◌∷◌, ◌++◌, ltb, ◌==◌, if◌then◌else◌, length}
use axiom_lib.Common.Int.{ℤ, pos, ◌+ℤ◌, ◌-ℤ◌, ltb_ℤ, leb_ℤ}
use axiom_lib.Common.Words.{add64, sub64}
use axiom_lib.Common.Action.{Action, pure, raise, raise_if, ◌>>=◌, ◌>>◌}
use axiom_lib.Staking.Types.{Storage, PoolInfo, LstInfo, EpochInfo, Rate, Ctx, Error}
use axiom_lib.Staking.Rates.{calculate_lst_amount, calculate_principal_and_reward}
use axiom_lib.Staking.Records.{update_unlocking_records}
use axiom_lib.Staking.Epoch.{current_epoch}
use axiom_lib.Staking.Pool.{must_get_info, put_info, update_info, transfer, history_rate}

-- The token's principal with its reward, where it has been active for an epoch or more.
unfoldable pub principal_and_reward : ℕ → Rate → EpochInfo → LstInfo → Action Storage Error ℤ
principal_and_reward pool_id staking_rate epoch lst =
    if ltb lst.active_epoch epoch.epoch
    then (do
      last_rate ← history_rate pool_id (sub64 epoch.epoch 1)
      pure (calculate_principal_and_reward staking_rate last_rate lst.principal))
    else pure lst.principal

-- The token after an unlock: the rest of its value is staked anew from the next epoch on.
unfoldable pub unlocked_token : Ctx → EpochInfo → LstInfo → ℤ → ℤ → LstInfo
unlocked_token ctx epoch lst value amount = record lst {
  principal = value -ℤ amount;
  active_epoch = add64 epoch.epoch 1;
  unlocking_records =
      lst.unlocking_records
      ++ record { amount = amount; unlock_timestamp = add64 ctx.time epoch.unlock_period } ∷ [];
}

-- The pool after an unlock of a token worth `value`, which stands for `lst_amount` tokens.
unfoldable pub unlocked_pool : PoolInfo → ℤ → ℤ → ℤ → PoolInfo
unlocked_pool info value lst_amount amount = record info {
  pending_inactive_stake = info.pending_inactive_stake +ℤ value;
  pending_inactive_lst = info.pending_inactive_lst +ℤ lst_amount;
  pending_active_stake = info.pending_active_stake +ℤ (value -ℤ amount);
}

unfoldable pub unlock_stake : Ctx → ℕ → ℕ → LstInfo → ℤ → Action Storage Error (Unit {0})
unfolding principal_and_reward
unlock_stake ctx pool_id token_id lst_info amount = do
  info ← must_get_info pool_id
  epoch ← current_epoch
  raise_if (sub64 lst_info.active_epoch 1 == epoch.epoch) Error.token_not_active
  let lst = update_unlocking_records ctx.time lst_info
  staking_rate ← history_rate pool_id (sub64 lst.active_epoch 1)
  let lst_amount = calculate_lst_amount staking_rate lst.principal
  value ← principal_and_reward pool_id staking_rate epoch lst
  raise_if (ltb_ℤ value amount) Error.amount_not_enough
  raise_if
      (not (info.operator_lst_id == token_id)
        && not epoch.enable_partial_unlock
        && ltb_ℤ amount value)
      Error.partial_unlock_disabled
  let lst' = unlocked_token ctx epoch lst value amount
  raise_if (ltb epoch.max_unlocking_record_num (length lst'.unlocking_records))
      Error.too_many_records
  update_info token_id lst'
  put_info pool_id (unlocked_pool info value lst_amount amount)

-- The branch of `WithdrawStake` for an amount above the unlocked coin: the principal of a token
-- that is not active yet makes up the rest, which is the result.
unfoldable pub withdraw_principal : ℕ → ℕ → PoolInfo → LstInfo → ℤ → Action Storage Error ℤ
withdraw_principal pool_id token_id info lst amount = do
  raise_if (ltb_ℤ (lst.principal +ℤ lst.unlocked) amount) Error.unlocked_not_enough
  let taken = amount -ℤ lst.unlocked
  put_info pool_id (record info { pending_active_stake = info.pending_active_stake -ℤ taken })
  update_info token_id (record lst { principal = lst.principal -ℤ taken; unlocked = pos 0 })
  pure taken

unfoldable pub withdraw_unlocked : ℕ → LstInfo → ℤ → Action Storage Error ℤ
withdraw_unlocked token_id lst amount = do
  update_info token_id (record lst { unlocked = lst.unlocked -ℤ amount })
  pure (pos 0)

unfoldable pub withdraw_stake : ℕ → Ctx → ℕ → ℕ → LstInfo → ℕ → ℤ → Action Storage Error ℤ
unfolding withdraw_principal withdraw_unlocked
withdraw_stake self ctx pool_id token_id lst_info recipient amount = do
  info ← must_get_info pool_id
  epoch ← current_epoch
  let lst = update_unlocking_records ctx.time lst_info
  principal_withdraw ←
      (if leb_ℤ amount lst.unlocked
        then withdraw_unlocked token_id lst amount
        else (if ltb epoch.epoch lst.active_epoch
            then withdraw_principal pool_id token_id info lst amount
            else raise Error.unlocked_not_enough))
  transfer self recipient amount
  pure principal_withdraw
