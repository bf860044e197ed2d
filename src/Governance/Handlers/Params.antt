-- ===== src/Governance/Handlers/Params.antt =====
-- GasManager and ChainParamManager of internal/executor/system/governance: proposals that change the
-- parameters of the next epoch.
use axiom_lib.Common.{ℕ, Bool, true, false, not, ◌||◌, ◌&&◌, ◌==◌, ltb, leb, length}
use axiom_lib.Common.Action.{Action, pure, gets, raise_if, or_raise, ◌>>=◌, ◌>>◌}
use axiom_lib.Staking.Types.{EpochInfo}
use axiom_lib.Staking.Epoch.{next_epoch, update_next_epoch}
use axiom_lib.Governance.Types.{
  Bytes, ProposalType, council_elect, gas_update, Error, bad_extra, exists_not_finished,
  repeated_param, Proposal, Store, Handler,
}
use axiom_lib.Governance.Members.{is_council_member}
use axiom_lib.Governance.Board.{listed}
use axiom_lib.Governance.Frame.{IsSame-refl, IsFramed}
use axiom_lib.Governance.Handlers.Types.{Codec, Rest, ChainParams, of_staking}
use axiom_lib.Governance.Handlers.Providers.{check_finished_proposal}
use axiom_lib.Governance.Handlers.Frames.{frame_rules, Frames, member-Frames}

abbrev pub blocks_gas : ProposalType → Bool
blocks_gas council_elect = true
blocks_gas gas_update = true
blocks_gas _ = false

abbrev pub same_bool : Bool → Bool → Bool
same_bool true b = b
same_bool false b = not b

-- The bounds of getChainParamExtraArgs
abbrev pub is_valid_params : ChainParams → Bool
is_valid_params a = not (
    a.epoch_period == 0
    || ltb a.max_validator_num 4
    || a.block_max_tx_num == 0
    || a.abnormal_node_exclude_view == 0
    || leb 100 a.again_propose_interval
    || a.continuous_null_request == 0
    || a.rebroadcast_tolerance == 0)

-- The parameters are those of the next epoch.
abbrev pub repeats : ChainParams → EpochInfo → Bool
repeats a e =
    e.epoch_period == a.epoch_period
    && e.max_validator_num == a.max_validator_num
    && e.block_max_tx_num == a.block_max_tx_num
    && e.abnormal_node_exclude_view == a.abnormal_node_exclude_view
    && e.again_propose_interval == a.again_propose_interval
    && e.continuous_null_request == a.continuous_null_request
    && e.rebroadcast_tolerance == a.rebroadcast_tolerance
    && same_bool e.enable_timed_gen_empty_block a.enable_timed_gen_empty_block

abbrev pub with_params : ChainParams → EpochInfo → EpochInfo
with_params a e = record e {
  epoch_period = a.epoch_period;
  max_validator_num = a.max_validator_num;
  block_max_tx_num = a.block_max_tx_num;
  abnormal_node_exclude_view = a.abnormal_node_exclude_view;
  again_propose_interval = a.again_propose_interval;
  continuous_null_request = a.continuous_null_request;
  rebroadcast_tolerance = a.rebroadcast_tolerance;
  enable_timed_gen_empty_block = a.enable_timed_gen_empty_block;
}

module _ {N : Type 0} (codec : Codec) where
  -- getGasProposalExtraArgs
  unfoldable pub get_gas_args : Bytes → Action (Store (Rest N)) Error ℕ
  get_gas_args extra = do
    price ← or_raise (codec.gas extra) bad_extra
    next ← of_staking next_epoch
    raise_if (next.min_gas_price == price) repeated_param
    pure price

  -- GasManager.ProposeArgsCheck
  unfoldable pub gas_args_check : Bytes → Action (Store (Rest N)) Error (Unit {0})
  unfolding get_gas_args
  gas_args_check extra = do _ ← get_gas_args extra; check_finished_proposal blocks_gas

  -- GasManager.VotePassExecute
  unfoldable pub gas_execute : Proposal → Action (Store (Rest N)) Error (Unit {0})
  unfolding get_gas_args
  gas_execute p = do
    price ← get_gas_args p.extra
    next ← of_staking next_epoch
    of_staking (update_next_epoch (record next { min_gas_price = price }))

  -- getChainParamExtraArgs
  unfoldable pub get_chain_param_args : Bytes → Action (Store (Rest N)) Error ChainParams
  get_chain_param_args extra = do
    args ← or_raise (codec.chain_params extra) bad_extra
    raise_if (not (is_valid_params args)) bad_extra
    next ← of_staking next_epoch
    raise_if (repeats args next) repeated_param
    pure args

  -- ChainParamManager.ProposeArgsCheck
  unfoldable pub chain_param_args_check : Bytes → Action (Store (Rest N)) Error (Unit {0})
  unfolding get_chain_param_args
  chain_param_args_check extra = do
    _ ← get_chain_param_args extra
    ns ← gets (λ s. listed s.not_finished)
    raise_if (ltb 0 (length ns)) exists_not_finished

  -- ChainParamManager.VotePassExecute
  unfoldable pub chain_param_execute : Proposal → Action (Store (Rest N)) Error (Unit {0})
  unfolding get_chain_param_args
  chain_param_execute p = do
    args ← get_chain_param_args p.extra
    next ← of_staking next_epoch
    of_staking (update_next_epoch (with_params args next))

  abbrev pub gas_manager : Handler (Rest N)
  gas_manager = record {
    propose_args_check = λ ctx k title desc d extra. gas_args_check extra;
    propose_permission_check = λ ctx k. is_council_member ctx.from;
    vote_pass_execute = λ ctx p. gas_execute p;
    clean_proposal = λ ctx p. pure tt;
  }

  abbrev pub chain_param_manager : Handler (Rest N)
  chain_param_manager = record {
    propose_args_check = λ ctx k title desc d extra. chain_param_args_check extra;
    propose_permission_check = λ ctx k. is_council_member ctx.from;
    vote_pass_execute = λ ctx p. chain_param_execute p;
    clean_proposal = λ ctx p. pure tt;
  }

  gas_args-Frames : (extra : Bytes) → Frames (gas_args_check extra)
  unfolding gas_args_check get_gas_args
  gas_args-Frames extra = search frame_rules depth 12

  gas_execute-Frames : (p : Proposal) → Frames (gas_execute p)
  unfolding gas_execute get_gas_args
  gas_execute-Frames p = search frame_rules depth 12

  chain_param_args-Frames : (extra : Bytes) → Frames (chain_param_args_check extra)
  unfolding chain_param_args_check get_chain_param_args
  chain_param_args-Frames extra = search frame_rules depth 14

  chain_param_execute-Frames : (p : Proposal) → Frames (chain_param_execute p)
  unfolding chain_param_execute get_chain_param_args
  chain_param_execute-Frames p = search frame_rules depth 14

  pub gas_manager-IsFramed : IsFramed gas_manager
  gas_manager-IsFramed = record {
    check = λ ctx k title desc d extra s. (gas_args-Frames extra).frames s;
    permission = λ ctx k s. (member-Frames ctx.from).frames s;
    execute = λ ctx p s. (s.council, (gas_execute-Frames p).frames s);
    clean = λ ctx p s. IsSame-refl s;
  }

  pub chain_param_manager-IsFramed : IsFramed chain_param_manager
  chain_param_manager-IsFramed = record {
    check = λ ctx k title desc d extra s. (chain_param_args-Frames extra).frames s;
    permission = λ ctx k s. (member-Frames ctx.from).frames s;
    execute = λ ctx p s. (s.council, (chain_param_execute-Frames p).frames s);
    clean = λ ctx p s. IsSame-refl s;
  }
