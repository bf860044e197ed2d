-- ===== src/Staking/Pool.antt =====
-- StakingPool of internal/executor/system/framework/staking_pool.go. A call returns an error or a
-- result together with the storage that it leaves; events are not modelled. `poolID` is the key
-- under which the pool is loaded.
pub mod Reads
use axiom_lib.Common.{
  ℕ, Bool, true, false, not, ◌&&◌, Option, none, some, [], ltb, ◌==◌, if◌then◌else◌,
}
use axiom_lib.Common.Int.{ℤ, pos, ◌+ℤ◌, ◌-ℤ◌, ltb_ℤ, is_zero}
use axiom_lib.Common.Maps.{update}
use axiom_lib.Common.Words.{add64}
use axiom_lib.Common.Action.{Action, pure, raise_if, gets, modify, or_raise, ◌>>=◌, ◌>>◌}
use axiom_lib.Staking.Types.{Storage, PoolInfo, LstInfo, Rate, Ctx, Error}
use axiom_lib.Staking.Token.{mint, get_or}
use axiom_lib.Staking.Epoch.{current_epoch}

abbrev pub commission_rate_denominator : ℕ
commission_rate_denominator = 10000

-- The address of the staking manager, whose account holds the stake.
abbrev pub Env : Type 0
Env = record { manager : ℕ; ctx : Ctx }

unfoldable pub must_get_info : ℕ → Action Storage Error PoolInfo
must_get_info pool_id = do or_raise (← gets (λ s. s.pool_info pool_id)) Error.pool_not_exist

unfoldable pub put_info : ℕ → PoolInfo → Action Storage Error (Unit {0})
put_info pool_id info =
    modify (λ s. record s { pool_info = update s.pool_info pool_id (some info) })

unfoldable pub put_rate : ℕ → ℕ → Rate → Action Storage Error (Unit {0})
put_rate pool_id epoch rate = modify (λ s. record s {
  rate_history = update s.rate_history pool_id (update (s.rate_history pool_id) epoch (some rate));
})

-- LiquidStakingToken.updateInfo
unfoldable pub update_info : ℕ → LstInfo → Action Storage Error (Unit {0})
update_info token_id info =
    modify (λ s. record s { info_map = update s.info_map token_id (some info) })

-- LiquidStakingToken.mustGetInfo: a token that is absent reads as one of pool 0.
unfoldable pub must_get_token : ℕ → Action Storage Error LstInfo
must_get_token token_id = do
  info ← or_raise (← gets (λ s. s.info_map token_id)) Error.token_not_exist
  raise_if (info.pool_id == 0) Error.token_not_exist
  pure info

-- SystemContractBase.Transfer of internal/executor/system/common/common.go, from the manager's account
unfoldable pub transfer : ℕ → ℕ → ℤ → Action Storage Error (Unit {0})
transfer self to amount = if is_zero amount then pure tt else (do
  balance ← gets (λ s. s.coin self)
  raise_if (ltb_ℤ balance amount) Error.balance_not_enough
  modify (λ s. record s { coin = update s.coin self (s.coin self -ℤ amount) })
  modify (λ s. record s { coin = update s.coin to (s.coin to +ℤ amount) }))

unfoldable pub history_rate : ℕ → ℕ → Action Storage Error Rate
unfolding must_get_info
history_rate pool_id epoch = do
  info ← must_get_info pool_id
  let e = if ltb info.last_rate_epoch epoch then info.last_rate_epoch else epoch
  rate ← gets (λ s. s.rate_history pool_id e)
  pure (get_or rate (record { stake_amount = pos 0; lst_amount = pos 0 }))

-- The record that `Create` stores.
abbrev new_pool : ℕ → ℕ → ℤ → ℕ → PoolInfo
new_pool pool_id commission_rate stake_number lst_id = record {
  id = pool_id;
  is_active = true;
  active_stake = stake_number;
  total_lst = stake_number;
  pending_active_stake = pos 0;
  pending_inactive_stake = pos 0;
  pending_inactive_lst = pos 0;
  commission_rate = commission_rate;
  next_epoch_commission_rate = commission_rate;
  last_epoch_reward = pos 0;
  last_epoch_commission = pos 0;
  cumulative_reward = pos 0;
  cumulative_commission = pos 0;
  operator_lst_id = lst_id;
  last_rate_epoch = 0;
}

unfoldable pub create : ℕ → ℕ → ℕ → ℕ → ℤ → Action Storage Error ℕ
unfolding put_info
create pool_id operator epoch commission_rate stake_number = do
  lst_id ← mint operator (record {
    pool_id = pool_id;
    principal = stake_number;
    unlocked = pos 0;
    active_epoch = epoch;
    unlocking_records = [];
  })
  old ← gets (λ s. s.pool_info pool_id)
  raise_if (elim old [ none ↦ false | some _ ↦ true ]) Error.pool_exists
  raise_if (ltb commission_rate_denominator commission_rate) Error.invalid_commission_rate
  put_info pool_id (new_pool pool_id commission_rate stake_number lst_id)
  pure lst_id

unfoldable pub genesis_init : ℕ → ℕ → Action Storage Error (Unit {0})
unfolding must_get_info put_info put_rate
genesis_init pool_id genesis_epoch = do
  info ← must_get_info pool_id
  put_info pool_id (record info { last_rate_epoch = genesis_epoch })
  put_rate pool_id genesis_epoch
      (record { stake_amount = info.active_stake; lst_amount = info.total_lst })

-- `sp.Ctx.Value == nil || sp.Ctx.Value.Cmp(amount) < 0`
abbrev value_below : Option ℤ → ℤ → Bool
value_below none amount = true
value_below (some v) amount = ltb_ℤ v amount

unfoldable pub add_stake : Ctx → ℕ → ℕ → ℤ → Action Storage Error (Unit {0})
unfolding must_get_info put_info current_epoch
add_stake ctx pool_id owner amount = do
  info ← must_get_info pool_id
  raise_if (not info.is_active) Error.pool_inactive
  raise_if (value_below ctx.value amount) Error.value_too_low
  status ← or_raise (← gets (λ s. s.node_status info.id)) Error.node_not_exist
  raise_if (not (status == ctx.status_candidate) && not (status == ctx.status_active))
      Error.bad_node_status
  epoch ← current_epoch
  mint owner (record {
    pool_id = info.id;
    principal = amount;
    unlocked = pos 0;
    active_epoch = add64 epoch.epoch 1;
    unlocking_records = [];
  })
  put_info pool_id (record info { pending_active_stake = info.pending_active_stake +ℤ amount })

unfoldable pub update_commission_rate : ℕ → ℕ → Action Storage Error (Unit {0})
unfolding must_get_info put_info
update_commission_rate pool_id rate = do
  info ← must_get_info pool_id
  raise_if (ltb commission_rate_denominator rate) Error.invalid_commission_rate
  put_info pool_id (record info { next_epoch_commission_rate = rate })
