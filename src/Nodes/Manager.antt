-- ===== src/Nodes/Manager.antt =====
-- NodeManager of internal/executor/system/framework/node_manager.go, but for the change of the epoch.
use axiom_lib.Common.Distinct.{contains}
use axiom_lib.Common.{
  ℕ, Bool, true, false, not, ◌&&◌, Option, none, some, List, [], ◌∷◌, ◌++◌, ◌==◌, ltb, leb,
  if◌then◌else◌, length, map,
}
use axiom_lib.Common.Maps.{update}
use axiom_lib.Common.Words.{add64, sub64}
use axiom_lib.Common.Action.{Action, pure, gets, modify, raise, raise_if, or_raise, ◌>>=◌, ◌>>◌}
use axiom_lib.Nodes.Types.{
  NodeStatus, data_syncer, candidate, active, pending_inactive, exited, code, NodeMetaData,
  NodeInfo, ConsensusVotingPower, EpochParams, Ctx, Nodes, Error, p2p_id_in_use, pub_key_in_use,
  name_in_use, node_not_found, no_permission, no_status_set, not_in_status_set, same_status,
  incorrect_status, pending_inactive_full, not_enough_validators, zero_operator, empty_name,
  failed_call, Contracts,
}

abbrev pub is_some : {A : Type 0} → Option A → Bool
is_some none = false
is_some (some _) = true

-- The list that a slot holds, or the empty one.
abbrev pub listed : {A : Type 0} → Option (List A) → List A
listed none = []
listed (some xs) = xs

-- Takes off the first element that is this number.
abbrev pub remove_first : ℕ → List ℕ → List ℕ
remove_first a [] = []
remove_first a (x ∷ xs) = let rest = remove_first a xs in if x == a then xs else x ∷ rest

abbrev pub id_or_one : Option ℕ → ℕ
id_or_one none = 1
id_or_one (some id) = id

-- The pool of a node that leaves these statuses for good is disabled.
abbrev pub had_pool : NodeStatus → Bool
had_pool pending_inactive = true
had_pool candidate = true
had_pool _ = false

abbrev pub is_exited : NodeStatus → Bool
is_exited exited = true
is_exited _ = false

module _ {W : Type 0} where
  abbrev pub put_info : ℕ → NodeInfo → Action (Nodes W) Error (Unit {0})
  put_info i info = modify (λ s. record s { registry = update s.registry i (some info) })

  abbrev pub put_set : NodeStatus → List ℕ → Action (Nodes W) Error (Unit {0})
  put_set st ids =
      modify (λ s. record s { status_sets = update s.status_sets (code st) (some ids) })

  abbrev pub put_name : ℕ → Option ℕ → Action (Nodes W) Error (Unit {0})
  put_name name o = modify (λ s. record s { name_index = update s.name_index name o })

  -- What a call of another contract leaves.
  abbrev pub put_rest : Option W → Action (Nodes W) Error (Unit {0})
  put_rest none = raise failed_call
  put_rest (some w) = modify (λ s. record s { rest = w })

  -- GetInfo
  abbrev pub get_info : ℕ → Action (Nodes W) Error NodeInfo
  get_info i = do or_raise (← gets (λ s. s.registry i)) node_not_found

  -- The checks of register
  unfoldable pub check_unused : NodeInfo → Action (Nodes W) Error (Unit {0})
  check_unused info = do
    raise_if (is_some (← gets (λ s. s.p2p_id_index info.p2p_id))) p2p_id_in_use
    raise_if (is_some (← gets (λ s. s.pub_key_index info.consensus_pub_key))) pub_key_in_use
    raise_if (is_some (← gets (λ s. s.name_index info.meta_data.name))) name_in_use

  -- What register writes of a new node that is no node of the genesis
  abbrev pub entered : ℕ → NodeInfo → Nodes W → Nodes W
  entered id info s = record s {
    next_node_id = some (add64 id 1);
    status_sets =
        update s.status_sets (code data_syncer)
          (some (listed (s.status_sets (code data_syncer)) ++ id ∷ []));
    registry = update s.registry id (some info);
    p2p_id_index = update s.p2p_id_index info.p2p_id (some id);
    pub_key_index = update s.pub_key_index info.consensus_pub_key (some id);
    name_index = update s.name_index info.meta_data.name (some id);
  }

  -- The moves of operatorTransferStatus between the status sets
  unfoldable pub move_id : NodeStatus → NodeStatus → ℕ → Action (Nodes W) Error (Unit {0})
  move_id from to i = do
    slot ← gets (λ s. s.status_sets (code from))
    ids ← or_raise slot no_status_set
    raise_if (not (contains i ids)) not_in_status_set
    put_set from (remove_first i ids)
    others ← gets (λ s. listed (s.status_sets (code to)))
    put_set to (others ++ i ∷ [])

  -- What UpdateMetaData writes for a node.
  abbrev pub rename : ℕ → NodeInfo → NodeMetaData → Action (Nodes W) Error (Unit {0})
  rename i info new =
      put_info i (record info { meta_data = new })
      >> (if new.name == info.meta_data.name
          then pure tt
          else (put_name info.meta_data.name none >> put_name new.name (some i)))

  module _ (contracts : Contracts W) where
    -- StandardizationNodeInfo
    abbrev pub standardization_node_info : NodeInfo → NodeInfo
    standardization_node_info info = record info {
      consensus_pub_key = contracts.standard_key info.consensus_pub_key;
      p2p_pub_key = contracts.standard_key info.p2p_pub_key;
    }

    -- Register
    unfoldable pub register : NodeInfo → Action (Nodes W) Error ℕ
    register info = do
      check_unused (standardization_node_info info)
      slot ← gets (λ s. s.next_node_id)
      let id = id_or_one slot
      modify
          (entered id (record (standardization_node_info info) { id = id; status = data_syncer }))
      pure id

    -- checkPermission
    unfoldable pub check_permission : Ctx → ℕ → Action (Nodes W) Error NodeInfo
    check_permission ctx i = do
      info ← get_info i
      raise_if (not ctx.call_from_system && not (ctx.from == info.operator)) no_permission
      pure info

    abbrev pub disable : ℕ → Action (Nodes W) Error (Unit {0})
    disable i = do put_rest (← gets (contracts.disable_pool i))

    -- operatorTransferStatus
    unfoldable pub operator_transfer_status :
        NodeStatus → NodeStatus → NodeInfo → Action (Nodes W) Error (Unit {0})
    operator_transfer_status from to info = do
      raise_if (code from == code to) same_status
      raise_if (not (code info.status == code from)) incorrect_status
      put_info info.id (record info { status = to })
      move_id from to info.id
      if is_exited to && had_pool from then disable info.id else pure tt

    -- JoinCandidateSet
    unfoldable pub join_candidate_set : Ctx → ℕ → ℕ → Action (Nodes W) Error (Unit {0})
    join_candidate_set ctx i commission_rate = do
      info ← check_permission ctx i
      operator_transfer_status data_syncer candidate info
      put_rest (← gets (contracts.create_pool i commission_rate))

    -- The most nodes that may leave the active set in one epoch, at least one
    abbrev pub max_pending_inactive : ℕ → ℕ → ℕ
    max_pending_inactive actives ratio =
        if contracts.ratio_of actives ratio == 0 then 1 else contracts.ratio_of actives ratio

    -- The checks of Exit of an active node; the difference is a `uint64`.
    unfoldable pub check_leave : Action (Nodes W) Error EpochParams
    check_leave = do
      slot ← gets (λ s. s.status_sets (code active))
      actives ← or_raise slot no_status_set
      pending ← gets (λ s. listed (s.status_sets (code pending_inactive)))
      epoch ← gets (λ s. contracts.current_epoch s.rest)
      e ← or_raise epoch failed_call
      raise_if
          (leb (max_pending_inactive (length actives) e.max_pending_inactive_ratio)
            (length pending))
          pending_inactive_full
      raise_if (ltb (sub64 (length actives) 1) e.min_validator_num) not_enough_validators
      pure e

    -- GetActiveValidatorIDSet
    abbrev pub active_validator_ids : Nodes W → List ℕ
    active_validator_ids s = map (λ p. ConsensusVotingPower.node_id p) (listed s.voting_powers)

    -- The last check of Exit of an active node
    abbrev pub check_remaining : EpochParams → Action (Nodes W) Error (Unit {0})
    check_remaining e = do
      fine ← gets (λ s.
          contracts.check_next_epoch e (length (active_validator_ids s))
            (listed (s.status_sets (code pending_inactive))) s)
      raise_if (not fine) failed_call

    -- Exit of a node that is found
    unfoldable pub exit_info : NodeStatus → NodeInfo → Action (Nodes W) Error (Unit {0})
    exit_info active info = do
      e ← check_leave
      operator_transfer_status active pending_inactive info
      check_remaining e
    exit_info candidate info = operator_transfer_status candidate exited info
    exit_info data_syncer info = operator_transfer_status data_syncer exited info
    exit_info _ info = raise incorrect_status

    -- Exit
    unfoldable pub exit : Ctx → ℕ → Action (Nodes W) Error (Unit {0})
    exit ctx i = do info ← check_permission ctx i; exit_info info.status info

    -- UpdateMetaData
    unfoldable pub update_meta_data : Ctx → ℕ → NodeMetaData → Action (Nodes W) Error (Unit {0})
    update_meta_data ctx i new = do
      info ← check_permission ctx i
      raise_if (new.name == 0) empty_name
      raise_if
          (is_some (← gets (λ s. s.name_index new.name)) && not (new.name == info.meta_data.name))
          name_in_use
      rename i info new

    -- UpdateOperator
    unfoldable pub update_operator : Ctx → ℕ → ℕ → Action (Nodes W) Error (Unit {0})
    update_operator ctx i new = do
      info ← check_permission ctx i
      raise_if (new == 0) zero_operator
      put_info i (record info { operator = new })

    -- The loop of processNodeLeave
    unfoldable pub leave_all : List ℕ → Action (Nodes W) Error (Unit {0})
    leave_all [] = pure tt
    leave_all (i ∷ ids) =
        (get_info i >>= operator_transfer_status pending_inactive exited) >> leave_all ids

    -- processNodeLeave
    unfoldable pub process_node_leave : Action (Nodes W) Error (List ℕ)
    process_node_leave = do
      ids ← gets (λ s. listed (s.status_sets (code pending_inactive)))
      leave_all ids
      pure ids

  -- GetInfos
  abbrev pub get_infos : List ℕ → Action (Nodes W) Error (List NodeInfo)
  get_infos [] = pure []
  get_infos (i ∷ ids) = do info ← get_info i; infos ← get_infos ids; pure (info ∷ infos)

  -- GetNodeIDByP2PID
  unfoldable pub get_node_id_by_p2p_id : ℕ → Action (Nodes W) Error ℕ
  get_node_id_by_p2p_id p = do or_raise (← gets (λ s. s.p2p_id_index p)) node_not_found

  -- GetInfoByConsensusPubKey
  unfoldable pub get_info_by_consensus_pub_key : ℕ → Action (Nodes W) Error NodeInfo
  get_info_by_consensus_pub_key k = do
    slot ← gets (λ s. s.pub_key_index k)
    i ← or_raise slot node_not_found
    get_info i
