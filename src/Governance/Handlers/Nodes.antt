-- ===== src/Governance/Handlers/Nodes.antt =====
-- NodeManager of internal/executor/system/governance/node_manager.go: proposals to register, remove
-- and upgrade nodes, and the indexes of what open proposals are about. The cost of gas is not modelled.
use axiom_lib.Common.{ℕ, Bool, true, false, not, Option, none, some, List, [], ◌∷◌}
use axiom_lib.Common.Maps.{update}
use axiom_lib.Common.Action.{Action, pure, gets, modify, raise, raise_if, or_raise, ◌>>=◌, ◌>>◌}
use axiom_lib.Governance.Types.{
  Bytes, ProposalType, council_elect, node_upgrade, node_register, node_remove,
  whitelist_provider_add, whitelist_provider_remove, gas_update, chain_param_upgrade, Error,
  bad_extra, invalid_type, bad_node_info, bad_signature, already_registered, already_exited,
  repeated_url, not_found, other_error, Proposal, Store, Handler,
}
use axiom_lib.Governance.Members.{is_council_member}
use axiom_lib.Governance.Frame.{IsFramed}
use axiom_lib.Governance.Handlers.Types.{Codec, Rest, RegisterArgs, NodeContract}
use axiom_lib.Governance.Handlers.Council.{all_distinct, council_manager, council_manager-IsFramed}
use axiom_lib.Governance.Handlers.Providers.{
  check_each, check_each-Frames, whitelist_provider_manager, whitelist_provider_manager-IsFramed,
}
use axiom_lib.Governance.Handlers.Params.{
  gas_manager, gas_manager-IsFramed, chain_param_manager, chain_param_manager-IsFramed,
}
use axiom_lib.Governance.Handlers.Frames.{frame_rules, Frames}

module _ {N : Type 0} where
  abbrev pub put_name : ℕ → Bool → Action (Store (Rest N)) Error (Unit {0})
  put_name a b =
      modify
        (λ s. record s { rest = record s.rest { pending_names = update s.rest.pending_names a b } })

  abbrev pub put_p2p_id : ℕ → Bool → Action (Store (Rest N)) Error (Unit {0})
  put_p2p_id a b = modify (λ s. record s {
    rest = record s.rest { pending_p2p_ids = update s.rest.pending_p2p_ids a b };
  })

  abbrev pub put_pub_key : ℕ → Bool → Action (Store (Rest N)) Error (Unit {0})
  put_pub_key a b = modify (λ s. record s {
    rest = record s.rest { pending_pub_keys = update s.rest.pending_pub_keys a b };
  })

  abbrev pub put_remove : Bool → ℕ → Action (Store (Rest N)) Error (Unit {0})
  put_remove b a = modify (λ s. record s {
    rest = record s.rest { pending_removes = update s.rest.pending_removes a b };
  })

  -- Takes what a call of the node manager contract leaves.
  abbrev pub put_nodes : Option N → Action (Store (Rest N)) Error (Unit {0})
  put_nodes none = raise other_error
  put_nodes (some n) = modify (λ s. record s { rest = record s.rest { nodes = n } })

  abbrev pub and_then : Option N → (N → Option N) → Option N
  and_then none f = none
  and_then (some n) f = f n

  module _ (codec : Codec) (contract : NodeContract N) where
    -- The checks of the registered nodes
    unfoldable pub check_registered : RegisterArgs → ℕ → Action (Store (Rest N)) Error (Unit {0})
    check_registered args p2p_id = do
      raise_if (← gets (λ s. contract.exist_pub_key args.consensus_pub_key s.rest.nodes))
          already_registered
      raise_if (← gets (λ s. contract.exist_p2p_id p2p_id s.rest.nodes)) already_registered
      raise_if (← gets (λ s. contract.exist_name args.name s.rest.nodes)) already_registered

    -- The checks of the open proposals
    unfoldable pub check_pending : RegisterArgs → ℕ → Action (Store (Rest N)) Error (Unit {0})
    check_pending args p2p_id = do
      raise_if (← gets (λ s. s.rest.pending_names args.name)) already_registered
      raise_if (← gets (λ s. s.rest.pending_p2p_ids p2p_id)) already_registered
      raise_if (← gets (λ s. s.rest.pending_pub_keys args.consensus_pub_key)) already_registered

    -- Writes the three pending indexes.
    unfoldable pub put_pending : RegisterArgs → ℕ → Bool → Action (Store (Rest N)) Error (Unit {0})
    put_pending args p2p_id b = do
      put_name args.name b
      put_p2p_id p2p_id b
      put_pub_key args.consensus_pub_key b

    -- registerProposeArgsCheck
    unfoldable pub register_args_check : Bytes → Action (Store (Rest N)) Error (Unit {0})
    register_args_check extra = do
      args ← or_raise (codec.register extra) bad_extra
      p2p_id ← or_raise (codec.check_node_info args) bad_node_info
      raise_if (not (codec.is_signed args)) bad_signature
      check_registered args p2p_id
      check_pending args p2p_id
      put_pending args p2p_id true

    -- One turn of the loop of removeProposeArgsCheck
    abbrev pub check_removed : ℕ → Action (Store (Rest N)) Error (Unit {0})
    check_removed id = do
      info ← gets (λ s. contract.is_exited id s.rest.nodes)
      raise_if (← or_raise info not_found) already_exited
      raise_if (← gets (λ s. s.rest.pending_removes id)) already_registered
      put_remove true id

    -- removeProposeArgsCheck
    unfoldable pub remove_args_check : Bytes → Action (Store (Rest N)) Error (Unit {0})
    remove_args_check extra = do
      ids ← or_raise (codec.remove extra) bad_extra
      check_each check_removed ids

    -- upgradeProposeArgsCheck
    unfoldable pub upgrade_args_check : Bytes → Action (Store (Rest N)) Error (Unit {0})
    upgrade_args_check extra = do
      urls ← or_raise (codec.upgrade extra) bad_extra
      raise_if (not (all_distinct urls)) repeated_url

    -- NodeManager.ProposeArgsCheck
    unfoldable pub node_args_check : ProposalType → Bytes → Action (Store (Rest N)) Error (Unit {0})
    node_args_check node_register extra = register_args_check extra
    node_args_check node_remove extra = remove_args_check extra
    node_args_check node_upgrade extra = upgrade_args_check extra
    node_args_check _ extra = raise invalid_type

    -- NodeManager.ProposePermissionCheck: any account may propose to register a node.
    unfoldable pub node_permission : ProposalType → ℕ → Action (Store (Rest N)) Error Bool
    node_permission node_register user = pure true
    node_permission node_remove user = is_council_member user
    node_permission node_upgrade user = is_council_member user
    node_permission _ user = raise invalid_type

    -- executeRegister
    unfoldable pub execute_register : Proposal → Action (Store (Rest N)) Error (Unit {0})
    execute_register p = do
      args ← or_raise (codec.register p.extra) bad_extra
      p2p_id ← or_raise (codec.check_node_info args) bad_node_info
      put_nodes (← gets (λ s. contract.register args p2p_id p.proposer s.rest.nodes))

    -- The loop of executeRemove
    abbrev pub exit_all : List ℕ → N → Option N
    exit_all [] n = some n
    exit_all (id ∷ ids) n = and_then (contract.exit id n) (exit_all ids)

    -- executeRemove, which reverts to the snapshot where a node cannot exit
    unfoldable pub execute_remove : Proposal → Action (Store (Rest N)) Error (Unit {0})
    execute_remove p = do
      ids ← or_raise (codec.remove p.extra) bad_extra
      put_nodes (← gets (λ s. exit_all ids s.rest.nodes))

    -- NodeManager.VotePassExecute
    unfoldable pub node_execute : ProposalType → Proposal → Action (Store (Rest N)) Error (Unit {0})
    node_execute node_register p = execute_register p
    node_execute node_remove p = execute_remove p
    node_execute node_upgrade p = pure tt
    node_execute _ p = raise invalid_type

    -- CleanProposal at a proposal to register a node
    unfoldable pub clean_register : Proposal → Action (Store (Rest N)) Error (Unit {0})
    clean_register p = do
      args ← or_raise (codec.register p.extra) bad_extra
      p2p_id ← or_raise (codec.check_node_info args) bad_node_info
      put_pending args p2p_id false

    -- CleanProposal at a proposal to remove nodes
    unfoldable pub clean_remove : Proposal → Action (Store (Rest N)) Error (Unit {0})
    clean_remove p = do
      ids ← or_raise (codec.remove p.extra) bad_extra
      check_each (put_remove false) ids

    -- NodeManager.CleanProposal
    unfoldable pub node_clean : ProposalType → Proposal → Action (Store (Rest N)) Error (Unit {0})
    node_clean node_register p = clean_register p
    node_clean node_remove p = clean_remove p
    node_clean _ p = pure tt

    abbrev pub node_manager : Handler (Rest N)
    node_manager = record {
      propose_args_check = λ ctx k title desc d extra. node_args_check k extra;
      propose_permission_check = λ ctx k. node_permission k ctx.from;
      vote_pass_execute = λ ctx p. node_execute p.kind p;
      clean_proposal = λ ctx p. node_clean p.kind p;
    }

    -- proposalHandlerMap, as Init fills it
    abbrev pub handlers_of : ProposalType → Handler (Rest N)
    handlers_of council_elect = council_manager codec
    handlers_of node_register = node_manager
    handlers_of node_remove = node_manager
    handlers_of node_upgrade = node_manager
    handlers_of gas_update = gas_manager codec
    handlers_of chain_param_upgrade = chain_param_manager codec
    handlers_of whitelist_provider_add = whitelist_provider_manager codec
    handlers_of whitelist_provider_remove = whitelist_provider_manager codec

    put_nodes-Frames : (o : Option N) → Frames (put_nodes o)
    put_nodes-Frames none = search frame_rules
    put_nodes-Frames (some n) = search frame_rules

    registered-Frames : (args : RegisterArgs) (i : ℕ) → Frames (check_registered args i)
    unfolding check_registered
    registered-Frames args i = search frame_rules depth 12

    pending-Frames : (args : RegisterArgs) (i : ℕ) → Frames (check_pending args i)
    unfolding check_pending
    pending-Frames args i = search frame_rules depth 12

    put_pending-Frames : (args : RegisterArgs) (i : ℕ) (b : Bool) → Frames (put_pending args i b)
    unfolding put_pending
    put_pending-Frames args i b = search frame_rules depth 12

    register-Frames : (extra : Bytes) → Frames (register_args_check extra)
    unfolding register_args_check
    register-Frames extra =
        search (frame_rules, registered-Frames, pending-Frames, put_pending-Frames) depth 16

    remove-Frames : (extra : Bytes) → Frames (remove_args_check extra)
    unfolding remove_args_check
    remove-Frames extra = search (frame_rules, check_each-Frames) depth 16

    upgrade-Frames : (extra : Bytes) → Frames (upgrade_args_check extra)
    unfolding upgrade_args_check
    upgrade-Frames extra = search frame_rules depth 12

    args-Frames : (k : ProposalType) (extra : Bytes) → Frames (node_args_check k extra)
    unfolding node_args_check
    args-Frames node_register extra = register-Frames extra
    args-Frames node_remove extra = remove-Frames extra
    args-Frames node_upgrade extra = upgrade-Frames extra
    args-Frames council_elect extra = search frame_rules
    args-Frames whitelist_provider_add extra = search frame_rules
    args-Frames whitelist_provider_remove extra = search frame_rules
    args-Frames gas_update extra = search frame_rules
    args-Frames chain_param_upgrade extra = search frame_rules

    permission-Frames : (k : ProposalType) (user : ℕ) → Frames (node_permission k user)
    unfolding node_permission
    permission-Frames node_register u = search frame_rules
    permission-Frames node_remove u = search frame_rules
    permission-Frames node_upgrade u = search frame_rules
    permission-Frames council_elect u = search frame_rules
    permission-Frames whitelist_provider_add u = search frame_rules
    permission-Frames whitelist_provider_remove u = search frame_rules
    permission-Frames gas_update u = search frame_rules
    permission-Frames chain_param_upgrade u = search frame_rules

    execute-Frames : (k : ProposalType) (p : Proposal) → Frames (node_execute k p)
    unfolding node_execute execute_register execute_remove
    execute-Frames node_register p = search (frame_rules, put_nodes-Frames) depth 12
    execute-Frames node_remove p = search (frame_rules, put_nodes-Frames) depth 12
    execute-Frames node_upgrade p = search frame_rules
    execute-Frames council_elect p = search frame_rules
    execute-Frames whitelist_provider_add p = search frame_rules
    execute-Frames whitelist_provider_remove p = search frame_rules
    execute-Frames gas_update p = search frame_rules
    execute-Frames chain_param_upgrade p = search frame_rules

    clean-Frames : (k : ProposalType) (p : Proposal) → Frames (node_clean k p)
    unfolding node_clean clean_register clean_remove
    clean-Frames node_register p = search (frame_rules, put_pending-Frames) depth 14
    clean-Frames node_remove p = search (frame_rules, check_each-Frames) depth 12
    clean-Frames node_upgrade p = search frame_rules
    clean-Frames council_elect p = search frame_rules
    clean-Frames whitelist_provider_add p = search frame_rules
    clean-Frames whitelist_provider_remove p = search frame_rules
    clean-Frames gas_update p = search frame_rules
    clean-Frames chain_param_upgrade p = search frame_rules

    node_manager-IsFramed : IsFramed node_manager
    node_manager-IsFramed = record {
      check = λ ctx k title desc d extra s. (args-Frames k extra).frames s;
      permission = λ ctx k s. (permission-Frames k ctx.from).frames s;
      execute = λ ctx p s. (s.council, (execute-Frames p.kind p).frames s);
      clean = λ ctx p s. (clean-Frames p.kind p).frames s;
    }

    -- No handler touches the proposals, and only the one of CouncilElect the council.
    pub handlers_of-IsFramed : (k : ProposalType) → IsFramed (handlers_of k)
    handlers_of-IsFramed council_elect = council_manager-IsFramed codec
    handlers_of-IsFramed node_register = node_manager-IsFramed
    handlers_of-IsFramed node_remove = node_manager-IsFramed
    handlers_of-IsFramed node_upgrade = node_manager-IsFramed
    handlers_of-IsFramed gas_update = gas_manager-IsFramed codec
    handlers_of-IsFramed chain_param_upgrade = chain_param_manager-IsFramed codec
    handlers_of-IsFramed whitelist_provider_add = whitelist_provider_manager-IsFramed codec
    handlers_of-IsFramed whitelist_provider_remove = whitelist_provider_manager-IsFramed codec
