-- ===== src/Staking/Types.antt =====
-- The data of the staking contracts and the storage that they share. A slot or a map of a contract
-- reads back what was written to it, so it is a typed function here and not a JSON text; `none` is
-- a key that does not exist. Addresses and token ids are numbers, and address 0 is the zero address.
use axiom_lib.Common.{ℕ, Bool, Option, List}
use axiom_lib.Common.Int.{ℤ}

-- `staking_manager.LiquidStakingTokenRate`
pub record Rate : Type 0 where
  pub stake_amount : ℤ
  pub lst_amount : ℤ

-- `liquid_staking_token.UnlockingRecord`
pub record UnlockingRecord : Type 0 where
  pub amount : ℤ
  pub unlock_timestamp : ℕ

-- `liquid_staking_token.LiquidStakingTokenInfo`
pub record LstInfo : Type 0 where
  pub pool_id : ℕ
  pub principal : ℤ
  pub unlocked : ℤ
  pub active_epoch : ℕ
  pub unlocking_records : List UnlockingRecord

-- `staking_manager.PoolInfo`
pub record PoolInfo : Type 0 where
  pub id : ℕ
  pub is_active : Bool
  pub active_stake : ℤ
  pub total_lst : ℤ
  pub pending_active_stake : ℤ
  pub pending_inactive_stake : ℤ
  pub pending_inactive_lst : ℤ
  pub commission_rate : ℕ
  pub next_epoch_commission_rate : ℕ
  pub last_epoch_reward : ℤ
  pub last_epoch_commission : ℤ
  pub cumulative_reward : ℤ
  pub cumulative_commission : ℤ
  pub operator_lst_id : ℕ
  pub last_rate_epoch : ℕ

-- `epoch_manager.EpochInfo`, with the stake parameters that the pool reads.
pub record EpochInfo : Type 0 where
  pub epoch : ℕ
  pub epoch_period : ℕ
  pub start_block : ℕ
  pub max_unlocking_record_num : ℕ
  pub unlock_period : ℕ
  pub enable_partial_unlock : Bool
  -- ConsensusParams, FinanceParams
  pub max_validator_num : ℕ
  pub block_max_tx_num : ℕ
  pub abnormal_node_exclude_view : ℕ
  pub again_propose_interval : ℕ
  pub continuous_null_request : ℕ
  pub rebroadcast_tolerance : ℕ
  pub enable_timed_gen_empty_block : Bool
  pub min_gas_price : ℕ

-- The fields of `common.VMContext` that the contracts read. The two statuses are the values of
-- `types.NodeStatusCandidate` and `types.NodeStatusActive`.
pub record Ctx : Type 0 where
  pub from : ℕ
  pub value : Option ℤ
  pub time : ℕ
  pub status_candidate : ℕ
  pub status_active : ℕ

-- The slots and maps of the contracts, with the coin balances of the ledger and the status that
-- the node manager stores for each node.
pub record Storage : Type 0 where
  -- StakingPool.info, historyLiquidStakingTokenRateMap
  pub pool_info : ℕ → Option PoolInfo
  pub rate_history : ℕ → ℕ → Option Rate
  -- LiquidStakingToken
  pub next_id : Option ℕ
  pub info_map : ℕ → Option LstInfo
  pub owner_map : ℕ → Option ℕ
  pub balance_map : ℕ → Option ℤ
  pub token_approval : ℕ → Option ℕ
  pub operator_approval : ℕ → ℕ → Option Bool
  -- EpochManager
  pub current_epoch_id : Option ℕ
  pub next_epoch_info : Option EpochInfo
  pub history_epoch : ℕ → Option EpochInfo
  -- NodeManager, StateLedger
  pub node_status : ℕ → Option ℕ
  pub coin : ℕ → ℤ

-- The errors, by the message that the source gives them.
pub data Error : Type 0 where
  pool_not_exist pool_inactive pool_exists value_too_low bad_node_status : Error
  invalid_commission_rate epoch_not_exist node_not_exist : Error
  token_not_active amount_not_enough partial_unlock_disabled too_many_records : Error
  unlocked_not_enough balance_not_enough : Error
  token_not_exist insufficient_approval invalid_receiver incorrect_owner : Error
  invalid_operator invalid_approval invalid_owner : Error
  bad_start_block bad_epoch_number bad_epoch_info : Error
