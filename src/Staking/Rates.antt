-- ===== src/Staking/Rates.antt =====
-- calculateLSTAmount, calculateStakeAmount and calculatePrincipalAndReward of
-- internal/executor/system/framework/staking_pool.go.
pub mod Rounding
use axiom_lib.Common.{◌||◌, if◌then◌else◌}
use axiom_lib.Common.Int.{ℤ, ◌*ℤ◌, ◌/ℤ◌, is_zero}
use axiom_lib.Staking.Types.{Rate}

unfoldable pub calculate_lst_amount : Rate → ℤ → ℤ
calculate_lst_amount rate stake_amount =
    if is_zero rate.stake_amount || is_zero rate.lst_amount
    then stake_amount
    else (rate.lst_amount *ℤ stake_amount) /ℤ rate.stake_amount

unfoldable pub calculate_stake_amount : Rate → ℤ → ℤ
calculate_stake_amount rate lst_amount =
    if is_zero rate.stake_amount || is_zero rate.lst_amount
    then lst_amount
    else (rate.stake_amount *ℤ lst_amount) /ℤ rate.lst_amount

unfoldable pub calculate_principal_and_reward : Rate → Rate → ℤ → ℤ
unfolding calculate_lst_amount calculate_stake_amount
calculate_principal_and_reward staking_rate last_rate principal =
    let lst_amount = calculate_lst_amount staking_rate principal in
    calculate_stake_amount last_rate lst_amount
