-- ===== src/Nodes/Types.antt =====
-- The data of internal/executor/system/framework/node_manager.go. Texts, keys and addresses are numbers,
-- with 0 for the empty text and the zero address.
use axiom_lib.Common.{ℕ, Bool, Option, List, ◌==◌, ◌≡◌, refl, sym, ap, ◌∙◌, if◌then◌else◌}
use axiom_lib.Common.Int.{ℤ}

-- `types.NodeStatus` of axiom-kit, as far as the contract names it
pub data NodeStatus : Type 0 where
  data_syncer candidate active pending_inactive exited : NodeStatus

-- A number for each status, under which its set is stored.
abbrev pub code : NodeStatus → ℕ
code data_syncer = 0
code candidate = 1
code active = 2
code pending_inactive = 3
code exited = 4

decode : ℕ → NodeStatus
decode n =
    if n == 0
    then data_syncer
    else (if n == 1
        then candidate
        else (if n == 2 then active else (if n == 3 then pending_inactive else exited)))

decode-code : (s : NodeStatus) → decode (code s) ≡ s
unfolding decode
decode-code data_syncer = refl
decode-code candidate = refl
decode-code active = refl
decode-code pending_inactive = refl
decode-code exited = refl

pub code-inj : (s t : NodeStatus) → code s ≡ code t → s ≡ t
code-inj s t e = sym (decode-code s) ∙ (ap decode e ∙ decode-code t)

pub record NodeMetaData : Type 0 where
  pub name : ℕ
  pub desc : ℕ
  pub image_url : ℕ
  pub website_url : ℕ

pub record NodeInfo : Type 0 where
  pub id : ℕ
  pub consensus_pub_key : ℕ
  pub p2p_pub_key : ℕ
  pub p2p_id : ℕ
  pub operator : ℕ
  pub meta_data : NodeMetaData
  pub status : NodeStatus

pub record ConsensusVotingPower : Type 0 where
  pub node_id : ℕ
  pub consensus_voting_power : ℤ

-- The fields of an epoch that the contract reads.
pub record EpochParams : Type 0 where
  pub max_validator_num : ℕ
  pub min_validator_num : ℕ
  pub min_validator_stake : ℕ
  pub max_pending_inactive_ratio : ℕ

-- The fields of `common.VMContext` that the contract reads.
pub record Ctx : Type 0 where
  pub from : ℕ
  pub call_from_system : Bool

-- The slots of the contract, and the state of the contracts that it calls.
pub record Nodes (W : Type 0) : Type 0 where
  pub next_node_id : Option ℕ
  pub registry : ℕ → Option NodeInfo
  pub p2p_id_index : ℕ → Option ℕ
  pub pub_key_index : ℕ → Option ℕ
  pub name_index : ℕ → Option ℕ
  pub status_sets : ℕ → Option (List ℕ)
  pub voting_powers : Option (List ConsensusVotingPower)
  pub rest : W

pub data Error : Type 0 where
  p2p_id_in_use pub_key_in_use name_in_use node_not_found no_permission : Error
  no_status_set not_in_status_set same_status incorrect_status : Error
  pending_inactive_full not_enough_validators zero_operator empty_name failed_call : Error

-- `sortNodeInfo`
pub record SortNodeInfo : Type 0 where
  pub stake_value : ℕ
  pub info : NodeInfo

-- What the contract calls of the staking manager and the epoch manager, which read its slots and write
-- their own; `none` is an error. Stakes are natural numbers.
pub record Contracts (W : Type 0) : Type 0 where
  pub create_pool : ℕ → ℕ → Nodes W → Option W
  pub disable_pool : ℕ → Nodes W → Option W
  pub pool_active_stake : ℕ → W → Option ℕ
  pub current_epoch : W → Option EpochParams
  -- checkNextEpochValidatorActiveStake, of the number of validators and the leaving nodes
  pub check_next_epoch : EpochParams → ℕ → List ℕ → Nodes W → Bool
  -- the product of a number and a ratio in floating point, rounded down
  pub ratio_of : ℕ → ℕ → ℕ
  -- `hexutil.Encode` after `hexutil.Decode`
  pub standard_key : ℕ → ℕ
  -- `sort.Slice` by id, and `sort.Sort` by stake, which leaves the order of equal stakes open
  pub sort_ids : List ℕ → List ℕ
  pub sort_infos : List SortNodeInfo → List SortNodeInfo
