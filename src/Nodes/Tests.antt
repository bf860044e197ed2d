-- ===== src/Nodes/Tests.antt =====
-- The properties of the node manager at concrete calls.
use axiom_lib.Common.{
  ℕ, ◌+◌, ◌*◌, ◌≤◌, true, false, none, some, List, [], ◌∷◌, ◌≡◌, refl, arith, length, ltb,
  if◌then◌else◌,
}
use axiom_lib.Common.Action.{ok}
use axiom_lib.Nodes.Types.{
  data_syncer, candidate, active, code, NodeInfo, SortNodeInfo, EpochParams, Ctx, Nodes, Contracts,
}
use axiom_lib.Nodes.Manager.{
  listed, check_unused, register, check_permission, move_id, operator_transfer_status,
  join_candidate_set, active_validator_ids, leave_all, process_node_leave,
}
use axiom_lib.Nodes.Invariant.{IsNodes}
use axiom_lib.Nodes.Election.{install, ranked, elect_and_install, turn_into_new_epoch}
use axiom_lib.Nodes.Bounds.{IsElected, Descending, elect_lem, turn_bounds}
use axiom_lib.Nodes.Reach.{Call, register_call, join_call, run_call, run_calls, run_calls-IsNodes}

abbrev epoch : EpochParams
epoch = record {
  max_validator_num = 4;
  min_validator_num = 1;
  min_validator_stake = 3;
  max_pending_inactive_ratio = 1000;
}

-- Insertion by stake, lowest first.
abbrev insert_info : SortNodeInfo → List SortNodeInfo → List SortNodeInfo
insert_info x [] = x ∷ []
insert_info x (y ∷ ys) =
    let rest = insert_info x ys in if ltb y.stake_value x.stake_value then y ∷ rest else x ∷ y ∷ ys

abbrev sort_infos : List SortNodeInfo → List SortNodeInfo
sort_infos [] = []
sort_infos (x ∷ xs) = insert_info x (sort_infos xs)

-- Contracts without pools, where the stake of a node is twice its id.
abbrev contracts : Contracts ℕ
contracts = record {
  create_pool = λ i rate s. some (s.rest + 1);
  disable_pool = λ i s. some s.rest;
  pool_active_stake = λ i w. some (i * 2);
  current_epoch = λ w. some epoch;
  check_next_epoch = λ e n ids s. true;
  ratio_of = λ n ratio. 0;
  standard_key = λ k. k;
  sort_ids = λ ids. ids;
  sort_infos = sort_infos;
}

abbrev none_registered : Nodes ℕ
none_registered = record {
  next_node_id = none;
  registry = λ _. none;
  p2p_id_index = λ _. none;
  pub_key_index = λ _. none;
  name_index = λ _. none;
  status_sets = λ _. none;
  voting_powers = none;
  rest = 0;
}

none_registered-IsNodes : IsNodes none_registered
none_registered-IsNodes = record {
  named = λ i info e. absurd (ground arith);
  sets = λ st i. refl;
  once = λ st. tt;
}

abbrev node : ℕ → NodeInfo
node k = record {
  id = 0;
  consensus_pub_key = k;
  p2p_pub_key = k;
  p2p_id = k;
  operator = k;
  meta_data = record { name = k; desc = 0; image_url = 0; website_url = 0 };
  status = data_syncer;
}

abbrev by : ℕ → Ctx
by a = record { from = a; call_from_system = false }

-- Two nodes, of which both join the candidates.
abbrev joins : List (Ctx × Call)
joins =
    (by 7, register_call (node 7))
    ∷ (by 8, register_call (node 8))
    ∷ (by 7, join_call 1 0)
    ∷ (by 8, join_call 2 0)
    ∷ []

abbrev joined : Nodes ℕ
joined = run_calls contracts joins none_registered

run_calls-IsNodes_example : IsNodes joined
run_calls-IsNodes_example =
    run_calls-IsNodes contracts joins none_registered none_registered-IsNodes (omega arith)

abbrev elected : Nodes ℕ
elected = (turn_into_new_epoch contracts epoch joined).1

computed :
    (turn_into_new_epoch contracts epoch joined ≡ (ok tt, elected))
    × (listed (elected.status_sets (code active)) ≡ 2 ∷ [])
    × (listed (elected.status_sets (code candidate)) ≡ 1 ∷ [])
unfolding turn_into_new_epoch process_node_leave leave_all ranked elect_and_install install run_call
    register check_unused join_candidate_set check_permission operator_transfer_status move_id
computed = (refl, refl, refl)

turn_bounds_example :
    (active_validator_ids contracts elected ≡ listed (elected.status_sets (code active)))
    × (1 ≤ length (listed elected.voting_powers))
    × (length (listed elected.voting_powers) ≤ 4)
turn_bounds_example = turn_bounds contracts epoch joined elected computed.0

abbrev staked : ℕ → ℕ → SortNodeInfo
staked stake i = record { stake_value = stake; info = record (node i) { id = i } }

abbrev ranking : List SortNodeInfo
ranking = staked 9 1 ∷ staked 5 2 ∷ staked 4 3 ∷ staked 2 4 ∷ []

ranking-Descending : Descending ranking
ranking-Descending = omega arith

elect_lem_example :
    IsElected 2 3 ranking (staked 9 1 ∷ staked 5 2 ∷ []) (staked 4 3 ∷ staked 2 4 ∷ [])
elect_lem_example = elect_lem 2 3 ranking ranking-Descending
