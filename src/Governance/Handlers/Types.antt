-- ===== src/Governance/Handlers/Types.antt =====
-- What the handlers of internal/executor/system/governance read and write besides the proposals. The
-- JSON decoding of the extra arguments, the keys and signatures, and the node manager contract are
-- parameters; addresses, names and keys are numbers.
use axiom_lib.Common.{ℕ, Bool, Option, List}
use axiom_lib.Common.Action.{Action, Result, ok, err}
use axiom_lib.Governance.Types.{Bytes, Error, other_error, CouncilMember, Store}
use axiom_lib.Access.Whitelist.{Whitelist, Error as WhitelistError}
use axiom_lib.Staking.Types.{Storage, Error as StakingError}

-- `ChainParamExtraArgs`
pub record ChainParams : Type 0 where
  pub epoch_period : ℕ
  pub max_validator_num : ℕ
  pub block_max_tx_num : ℕ
  pub abnormal_node_exclude_view : ℕ
  pub again_propose_interval : ℕ
  pub continuous_null_request : ℕ
  pub rebroadcast_tolerance : ℕ
  pub enable_timed_gen_empty_block : Bool

-- `NodeRegisterExtraArgs`, with the p2p id that CheckNodeInfo computes
pub record RegisterArgs : Type 0 where
  pub consensus_pub_key : ℕ
  pub p2p_pub_key : ℕ
  pub name : ℕ

-- `json.Unmarshal` of the extra arguments of each proposal type, with the functions of go-ethereum
-- and the cryptography that check them.
pub record Codec : Type 0 where
  pub council : Bytes → Option (List CouncilMember)
  pub providers : Bytes → Option (List ℕ)
  pub gas : Bytes → Option ℕ
  pub chain_params : Bytes → Option ChainParams
  pub register : Bytes → Option RegisterArgs
  pub remove : Bytes → Option (List ℕ)
  pub upgrade : Bytes → Option (List ℕ)
  pub is_hex_address : ℕ → Bool
  pub hex_to_address : ℕ → ℕ
  -- framework.CheckNodeInfo, and the two signatures
  pub check_node_info : RegisterArgs → Option ℕ
  pub is_signed : RegisterArgs → Bool

-- What the handlers call of the node manager contract; N is the state that its calls change.
pub record NodeContract (N : Type 0) : Type 0 where
  pub exist_pub_key : ℕ → N → Bool
  pub exist_p2p_id : ℕ → N → Bool
  pub exist_name : ℕ → N → Bool
  -- GetInfo: whether the node has exited
  pub is_exited : ℕ → N → Option Bool
  pub register : RegisterArgs → ℕ → ℕ → N → Option N
  pub exit : ℕ → N → Option N

-- The state of the other contracts, and the pending indexes of NodeManager.
pub record Rest (N : Type 0) : Type 0 where
  pub whitelist : Whitelist
  pub staking : Storage
  pub nodes : N
  pub pending_names : ℕ → Bool
  pub pending_p2p_ids : ℕ → Bool
  pub pending_pub_keys : ℕ → Bool
  pub pending_removes : ℕ → Bool

-- `errors.Wrapf`
abbrev pub wrap : {E A : Type 0} → Result E A → Result Error A
wrap (ok a) = ok a
wrap (err e) = err other_error

module _ {N : Type 0} where
  -- A call of the epoch manager.
  abbrev pub of_staking :
      {A : Type 0} → Action Storage StakingError A → Action (Store (Rest N)) Error A
  of_staking m s = (
    wrap (m s.rest.staking).0,
    record s { rest = record s.rest { staking = (m s.rest.staking).1 } },
  )

  -- A call of the whitelist.
  abbrev pub of_whitelist :
      {A : Type 0} → Action Whitelist WhitelistError A → Action (Store (Rest N)) Error A
  of_whitelist m s = (
    wrap (m s.rest.whitelist).0,
    record s { rest = record s.rest { whitelist = (m s.rest.whitelist).1 } },
  )
