-- ===== src/Nodes/Election.antt =====
-- TurnIntoNewEpoch of internal/executor/system/framework/node_manager.go: the nodes with the most stake
-- become the validators of the next epoch.
use axiom_lib.Common.Distinct.{contains}
use axiom_lib.Common.{
  ℕ, ◌+◌, ◌-◌, ◌/◌, ◌%◌, ◌^◌, ◌&&◌, some, List, [], ◌∷◌, ◌++◌, ◌==◌, ltb, leb, if◌then◌else◌,
  length, map,
}
use axiom_lib.Common.Int.{ℤ, pos, negsuc}
use axiom_lib.Common.Words.{u64_mod}
use axiom_lib.Common.Action.{Action, pure, gets, modify, raise_if, or_raise, ◌>>=◌, ◌>>◌}
use axiom_lib.Nodes.Types.{
  NodeStatus, candidate, active, code, NodeInfo, SortNodeInfo, ConsensusVotingPower, EpochParams,
  Nodes, Error, not_enough_validators, failed_call, Contracts,
}
use axiom_lib.Nodes.Manager.{listed, put_info, put_set, get_infos, process_node_leave}

-- `lo.Reject` of the exited nodes
abbrev pub reject_ids : List ℕ → List ℕ → List ℕ
reject_ids gone [] = []
reject_ids gone (i ∷ ids) =
    let rest = reject_ids gone ids in if contains i gone then rest else i ∷ rest

-- The loop over the nodes, from the highest stake to the lowest, with the number of validators so far:
-- the validators and the candidates.
abbrev pub elect : ℕ → ℕ → ℕ → List SortNodeInfo → List SortNodeInfo × List SortNodeInfo
elect max min k [] = ([], [])
elect max min k (x ∷ xs) =
    let chosen = leb min x.stake_value && ltb k max in
    let rest = elect max min (if chosen then k + 1 else k) xs in
    if chosen then (x ∷ rest.0, rest.1) else (rest.0, x ∷ rest.1)

abbrev pub ids_of : List SortNodeInfo → List ℕ
ids_of xs = map (λ x. NodeInfo.id (SortNodeInfo.info x)) xs

-- `big.Int.Int64` of a number that is not negative: its low 64 bits in two's complement.
abbrev pub int64 : ℕ → ℤ
int64 n = let m = n % u64_mod in if ltb m (2 ^ 63) then pos m else negsuc (u64_mod - 1 - m)

-- The voting power of a validator, in AXC.
abbrev pub voting_power : SortNodeInfo → ConsensusVotingPower
voting_power x = record {
  node_id = x.info.id;
  consensus_voting_power = int64 (x.stake_value / 10 ^ 18);
}

abbrev pub reversed : List SortNodeInfo → List SortNodeInfo
reversed [] = []
reversed (x ∷ xs) = reversed xs ++ x ∷ []

module _ {W : Type 0} where
  -- The loops that update the status of the candidates and of the validators
  abbrev pub set_statuses : NodeStatus → List SortNodeInfo → Action (Nodes W) Error (Unit {0})
  set_statuses st [] = pure tt
  set_statuses st (x ∷ xs) =
      (if code x.info.status == code st
        then pure tt
        else put_info x.info.id (record x.info { status = st }))
      >> set_statuses st xs

  -- What TurnIntoNewEpoch writes once the nodes are elected.
  unfoldable pub install : List SortNodeInfo → List SortNodeInfo → Action (Nodes W) Error (Unit {0})
  install validators candidates = do
    put_set candidate (ids_of candidates)
    put_set active (ids_of validators)
    modify (λ s. record s { voting_powers = some (map voting_power validators) })
    set_statuses candidate candidates
    set_statuses active validators

  module _ (contracts : Contracts W) where
    -- getConsensusCandidateNodeIDs
    abbrev pub consensus_candidate_ids : Nodes W → List ℕ
    consensus_candidate_ids s =
        contracts.sort_ids
          (listed (s.status_sets (code candidate)) ++ listed (s.status_sets (code active)))

    -- The loop that reads the stakes
    abbrev pub with_stakes : List NodeInfo → Action (Nodes W) Error (List SortNodeInfo)
    with_stakes [] = pure []
    with_stakes (info ∷ infos) = do
      stake ← gets (λ s. contracts.pool_active_stake info.id s.rest)
      value ← or_raise stake failed_call
      others ← with_stakes infos
      pure (record { stake_value = value; info = info } ∷ others)

    -- The nodes that are to be elected, from the highest stake to the lowest
    unfoldable pub ranked : List ℕ → Action (Nodes W) Error (List SortNodeInfo)
    ranked gone = do
      ids ← gets consensus_candidate_ids
      infos ← get_infos (reject_ids gone ids)
      stakes ← with_stakes infos
      pure (reversed (contracts.sort_infos stakes))

    -- The end of TurnIntoNewEpoch
    unfoldable pub elect_and_install :
        EpochParams → List SortNodeInfo → Action (Nodes W) Error (Unit {0})
    elect_and_install epoch infos = do
      let elected = elect epoch.max_validator_num epoch.min_validator_stake 0 infos
      raise_if (ltb (length elected.0) epoch.min_validator_num) not_enough_validators
      install elected.0 elected.1

    -- TurnIntoNewEpoch
    unfoldable pub turn_into_new_epoch : EpochParams → Action (Nodes W) Error (Unit {0})
    turn_into_new_epoch epoch = do
      gone ← process_node_leave contracts
      infos ← ranked gone
      elect_and_install epoch infos
