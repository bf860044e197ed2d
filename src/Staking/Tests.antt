-- ===== src/Staking/Tests.antt =====
-- Runs of the staking contracts, and the theorems at concrete inputs.
use axiom_lib.Common.{
  ℕ, ◌+◌, ◌*◌, ◌≤◌, ◌<◌, ◌≡◌, ◌≢◌, ◌⊎◌, refl, true, some, none, [], ◌∷◌, arith, All, ◌==◌,
  if◌then◌else◌, length, suc,
}
use axiom_lib.Common.Int.{pos, ◌+ℤ◌, ◌-ℤ◌, ◌*ℤ◌, ◌/ℤ◌, ◌≤ℤ◌}
use axiom_lib.Common.Action.{ok, err}
use axiom_lib.Staking.Types.{Storage, PoolInfo, LstInfo, EpochInfo, Ctx, Error}
use axiom_lib.Staking.Rates.{calculate_lst_amount, calculate_principal_and_reward}
use axiom_lib.Staking.Rates.Rounding.{
  rate_of, natural_rate, round_trip_bounds, reward_superadditive,
}
use axiom_lib.Staking.Records.{update_unlocking_records, holdings}
use axiom_lib.Staking.Records.Laws.{update_unlocking_records_lem}
use axiom_lib.Staking.Token.{owner_of, get_approved, is_approved_for_all, mint, transfer_from}
use axiom_lib.Staking.Token.Ownership.{IsCounted, count_owned}
use axiom_lib.Staking.Token.History.{Reach, Step, Reach-IsCounted, transfer_from_ok}
use axiom_lib.Staking.Epoch
use axiom_lib.Staking.Epoch.Chain
use axiom_lib.Staking.Pool.{add_stake, create, history_rate, update_info, transfer}
use axiom_lib.Staking.Stake.{unlocked_token, unlock_stake, withdraw_stake}
use axiom_lib.Staking.Stake.Unlock.{token_value, unlock_stake_conserves, unlock_stake_atomic}
use axiom_lib.Staking.Stake.Withdraw.{withdraw_stake_fails}
use axiom_lib.Staking.Stake.Withdraw.Payout.{Paid, withdraw_stake_conserves}
use axiom_lib.Staking.Pool.Reads.{IsCurrent}
use axiom_lib.Staking.Turn
use axiom_lib.Staking.Turn.{staker_reward, operator_commission, restake}
use axiom_lib.Staking.Turn.Laws.{turned, reward_split, turned_stake}
use axiom_lib.Staking.Epoch.{following}
use axiom_lib.Staking.Pool.{commission_rate_denominator}

-- A genesis epoch of 100 blocks, and the storage before it.
abbrev first_epoch : EpochInfo
first_epoch = record {
  epoch = 1;
  epoch_period = 100;
  start_block = 0;
  max_unlocking_record_num = 5;
  unlock_period = 20;
  enable_partial_unlock = true;
  max_validator_num = 20;
  block_max_tx_num = 500;
  abnormal_node_exclude_view = 10;
  again_propose_interval = 30;
  continuous_null_request = 3;
  rebroadcast_tolerance = 2;
  enable_timed_gen_empty_block = true;
  min_gas_price = 1000;
}

abbrev blank : Storage
blank = record {
  pool_info = λ _. none;
  rate_history = λ _ _. none;
  next_id = none;
  info_map = λ _. none;
  owner_map = λ _. none;
  balance_map = λ _. none;
  token_approval = λ _. none;
  operator_approval = λ _ _. none;
  current_epoch_id = none;
  next_epoch_info = none;
  history_epoch = λ _. none;
  node_status = λ _. some 2;
  coin = λ _. pos 1000;
}

abbrev call : Ctx
call = record {
  from = 7;
  value = some (pos 500);
  time = 10;
  status_candidate = 2;
  status_active = 3;
}

program : Unit {0}
unfolding Epoch.genesis_init Epoch.turn_into_new_epoch create add_stake unlock_stake withdraw_stake
    update_unlocking_records calculate_lst_amount calculate_principal_and_reward mint transfer_from
    history_rate update_info transfer unlocked_token ◌+ℤ◌ ◌-ℤ◌ ◌*ℤ◌ ◌/ℤ◌
program = tt

-- The storage of epoch 1, with pool 4 of operator 6, to which account 7 has added 500.
abbrev epoch_one : Storage
epoch_one = (Epoch.genesis_init (λ _. true) first_epoch blank).1

abbrev staked : Storage
staked = (add_stake call 4 7 (pos 500) (create 4 6 1 1000 (pos 2000) epoch_one).1).1

owners : (owner_of staked 1 ≡ 6) × (owner_of staked 2 ≡ 7) × (staked.next_id ≡ some 3)
unfolding program
owners = (refl, refl, refl)

-- Epoch 3 of pool 4, whose rate has risen to 3 coins for 2 tokens, and two tokens of account 7: the
-- first has been active since epoch 2 and has a record that is due, the second is not active yet.
abbrev third_epoch : EpochInfo
third_epoch = record first_epoch { epoch = 3; start_block = 200 }

abbrev pool : PoolInfo
pool = record {
  id = 4;
  is_active = true;
  active_stake = pos 3000;
  total_lst = pos 2000;
  pending_active_stake = pos 700;
  pending_inactive_stake = pos 0;
  pending_inactive_lst = pos 0;
  commission_rate = 1000;
  next_epoch_commission_rate = 500;
  last_epoch_reward = pos 0;
  last_epoch_commission = pos 0;
  cumulative_reward = pos 0;
  cumulative_commission = pos 0;
  operator_lst_id = 1;
  last_rate_epoch = 2;
}

abbrev token : LstInfo
token = record {
  pool_id = 4;
  principal = pos 400;
  unlocked = pos 5;
  active_epoch = 2;
  unlocking_records = record { amount = pos 30; unlock_timestamp = 9 } ∷ [];
}

abbrev early_token : LstInfo
early_token = record token { principal = pos 700; active_epoch = 4 }

abbrev third : Storage
third = record blank {
  pool_info = λ _. some pool;
  rate_history = λ _ e. if e == 1 then some (rate_of 1999 1999) else some (rate_of 2999 1999);
  info_map = λ id. if id == 3 then some early_token else some token;
  current_epoch_id = some 3;
  history_epoch = λ _. some third_epoch;
}

third-IsCurrent : IsCurrent third third_epoch
third-IsCurrent = (3, refl, refl)

-- The token is worth 400 * 3 / 2.
unlock-run : (unlock_stake call 4 2 token (pos 250) third).0 ≡ ok tt
unfolding program
unlock-run = refl

unlock_too_much : (unlock_stake call 4 2 token (pos 601) third).0 ≡ err Error.amount_not_enough
unfolding program
unlock_too_much = refl

-- 35 of the 100 are unlocked, so 65 come off the principal.
withdraw-run : (withdraw_stake 1 call 4 3 early_token 7 (pos 100) third).0 ≡ ok (pos 65)
unfolding program
withdraw-run = refl

unlock_stake_conserves_example :
    let s' = (unlock_stake call 4 2 token (pos 250) third).1 in
    let value = token_value third 4 pool third_epoch (update_unlocking_records 10 token) in
    (lst' : LstInfo) × (info' : PoolInfo) × (s'.info_map 2 ≡ some lst')
    × (s'.pool_info 4 ≡ some info')
    × (pos 250 ≤ℤ value)
    × (holdings lst' +ℤ token.principal ≡ holdings token +ℤ value)
    × (info'.pending_active_stake -ℤ info'.pending_inactive_stake ≡ pos 700 -ℤ pos 0 -ℤ pos 250)
    × (lst'.active_epoch ≡ 4)
    × (length lst'.unlocking_records ≤ 5)
    × (s'.coin ≡ third.coin)
unlock_stake_conserves_example =
    unlock_stake_conserves call 4 2 token (pos 250) pool third_epoch third refl third-IsCurrent
      unlock-run

unlock_stake_atomic_example :
    ((unlock_stake call 4 2 token (pos 601) third).0 ≡ ok tt)
    ⊎ ((unlock_stake call 4 2 token (pos 601) third).1 ≡ third)
unlock_stake_atomic_example = unlock_stake_atomic call 4 2 token (pos 601) third

withdraw_stake_conserves_example :
    Paid third
      (withdraw_stake 1 call 4 3 early_token 7 (pos 100) third).1
      1
      4
      3
      7
      early_token
      (pos 100)
      (pos 65)
      pool
    × ((pos 65 ≡ pos 0) ⊎ (3 < 4))
withdraw_stake_conserves_example =
    withdraw_stake_conserves 1 call 4 3 early_token 7 (pos 100) (pos 65) pool third_epoch third refl
      third-IsCurrent (omega arith) withdraw-run

withdraw_refused :
    (withdraw_stake 1 call 4 2 token 7 (pos 100) third).0 ≡ err Error.unlocked_not_enough
unfolding program
withdraw_refused = refl

withdraw_stake_fails_example : (withdraw_stake 1 call 4 2 token 7 (pos 100) third).1 ≡ third
withdraw_stake_fails_example =
    withdraw_stake_fails 1 call 4 2 token 7 (pos 100) third Error.unlocked_not_enough
      withdraw_refused (cc)

update_unlocking_records_example :
    let info' = update_unlocking_records 10 token in
    (holdings info' ≡ holdings token)
    × All (λ r. 10 < r.unlock_timestamp) info'.unlocking_records
    × (info'.principal ≡ pos 400)
    × (info'.active_epoch ≡ 2)
    × (info'.pool_id ≡ 4)
update_unlocking_records_example = update_unlocking_records_lem 10 token

round_trip_bounds_example :
    (r : ℕ) × (calculate_principal_and_reward (rate_of 2999 1999) (rate_of 2999 1999) (pos 100)
      ≡ pos r)
    × (r ≤ 100)
    × (100 * 2000 < suc r * 2000 + 3000)
round_trip_bounds_example = round_trip_bounds 2999 1999 100

reward_superadditive_example :
    calculate_principal_and_reward (natural_rate 0 0) (natural_rate 3001 2000) (pos 101)
      +ℤ calculate_principal_and_reward (natural_rate 0 0) (natural_rate 3001 2000) (pos 101)
    ≤ℤ calculate_principal_and_reward (natural_rate 0 0) (natural_rate 3001 2000) (pos 202)
reward_superadditive_example = reward_superadditive 0 0 3001 2000 101 101

reward_split_example :
    (k m : ℕ) × (staker_reward pool (pos 77) ≡ pos k)
    × (operator_commission pool (pos 77) ≡ pos m)
    × (k + m ≡ 77)
    × (77 * pool.commission_rate ≤ m * commission_rate_denominator)
    × (m * commission_rate_denominator < 77 * pool.commission_rate + commission_rate_denominator)
reward_split_example = reward_split pool 77 (omega arith)

turned_stake_example :
    let info' = turned 3 (pos 77) pool in
    (info'.active_stake +ℤ pos 0 ≡ pos 3000 +ℤ pos 77 +ℤ pos 700)
    × (info'.cumulative_reward +ℤ info'.cumulative_commission ≡ pos 0 +ℤ pos 0 +ℤ pos 77)
    × (info'.last_epoch_reward +ℤ info'.last_epoch_commission ≡ pos 77)
    × (info'.pending_active_stake ≡ pos 0)
    × (info'.pending_inactive_stake ≡ pos 0)
    × (info'.pending_inactive_lst ≡ pos 0)
    × (info'.commission_rate ≡ 500)
turned_stake_example = turned_stake 3 (pos 77) pool

blank-IsCounted : IsCounted blank
unfolding count_owned
blank-IsCounted = record {
  counted = λ o nz. ground arith;
  fresh = λ id h. refl;
  approved = λ id h. refl;
  no_operator = λ op. refl;
}

-- Two mints, and a transfer of token 1 from its owner 7 to 8.
abbrev two_tokens : Storage
two_tokens = (mint 6 token (mint 7 token blank).1).1

Reach-IsCounted_example : IsCounted (transfer_from call 7 8 1 two_tokens).1
Reach-IsCounted_example = Reach-IsCounted blank-IsCounted (
    Reach.next
      (Reach.next (Reach.next Reach.here (Step.mint_token 7 token)) (Step.mint_token 6 token))
      (Step.transfer call 7 8 1 (omega arith)))

transfer-run : (transfer_from call 7 8 1 two_tokens).0 ≡ ok tt
unfolding program
transfer-run = refl

transfer_from_ok_example :
    let s' = (transfer_from call 7 8 1 two_tokens).1 in
    (owner_of two_tokens 1 ≡ 7)
    × ◌≢◌ {A = ℕ} 8 0
    × (◌≡◌ {A = ℕ} 7 7
        ⊎ ((is_approved_for_all two_tokens 7 7 ≡ true) ⊎ (get_approved two_tokens 1 ≡ 7)))
    × (owner_of s' 1 ≡ 8)
    × (get_approved s' 1 ≡ 0)
    × ((j : ℕ) → j ≢ 1 → owner_of s' j ≡ owner_of two_tokens j)
transfer_from_ok_example =
    transfer_from_ok call 7 8 1 two_tokens (omega arith) (omega arith) transfer-run

genesis-run : (Epoch.genesis_init (λ _. true) first_epoch blank).0 ≡ ok tt
unfolding program
genesis-run = refl

genesis-next : epoch_one.next_epoch_info ≡ some (following first_epoch)
unfolding program
genesis-next = refl

genesis-Reach-IsTiled_example : Chain.IsTiled (Epoch.turn_into_new_epoch epoch_one).1
genesis-Reach-IsTiled_example =
    Chain.genesis-Reach-IsTiled (λ _. true) first_epoch blank _ genesis-run
      (Chain.Reach.next Chain.Reach.here
        (Chain.Step.turn (following first_epoch) genesis-next (omega arith)))
