-- ===== src/Governance/Tests.antt =====
-- The properties of the governance contract at concrete calls: a council of four members, and a
-- proposal to register a node.
use axiom_lib.Common.{ℕ, ◌+◌, true, false, none, some, List, [], ◌∷◌, ◌++◌, ◌≡◌, ◌≢◌, refl, arith}
use axiom_lib.Common.Int.{pos}
use axiom_lib.Common.Action.{ok}
use axiom_lib.Access.Reach.{empty}
use axiom_lib.Governance.Types.{
  Bytes, voting, approved, ProposalType, node_register, pass, reject, CouncilMember, Proposal, Ctx,
  Store, Handler,
}
use axiom_lib.Governance.Strategy.{calc_by_simple_strategy, calc_proposal_status, all_votes_decide}
use axiom_lib.Governance.Members.{
  is_council_member, total_votes, total_votes_of, update_vote_status,
}
use axiom_lib.Governance.Board.{
  add_not_finished_proposal, remove_not_finished_proposal, check_propose_args, create_proposal,
  enter_proposal, check_before_vote, reject_proposal, reject_overdue, check_and_update_state,
  propose, execute_approved, conclude_finished, conclude, cast_vote, vote,
}
use axiom_lib.Governance.Frame.{IsBoard}
use axiom_lib.Governance.Votes.{IsCounted, IsLost, vote-IsBoard, vote_counts, late_vote}
use axiom_lib.Governance.Proposing.{IsProposed, created, propose_ok}
use axiom_lib.Governance.Runs.{
  Call, propose_call, vote_call, genesis_init, genesis_init-IsBoard, run_calls, run_calls-IsBoard,
  approved_is_final, KeepsBoard,
}
use axiom_lib.Governance.Handlers.Types.{Codec, NodeContract, Rest}
use axiom_lib.Governance.Handlers.Nodes.{
  handlers_of, handlers_of-IsFramed, node_args_check, node_permission, node_clean, node_execute,
  register_args_check, check_registered, check_pending, put_pending, clean_register,
  execute_register,
}
use axiom_lib.Governance.Pending.{vote_releases_name}

all_votes_decide_example : calc_by_simple_strategy 4 1 3 ≢ voting
all_votes_decide_example = all_votes_decide 4 1 3 (omega arith) (omega arith)

abbrev codec : Codec
codec = record {
  council = λ _. none;
  providers = λ _. none;
  gas = λ _. none;
  chain_params = λ _. none;
  register = λ _. some (record { consensus_pub_key = 5; p2p_pub_key = 6; name = 7 });
  remove = λ _. none;
  upgrade = λ _. none;
  is_hex_address = λ _. true;
  hex_to_address = λ a. a;
  check_node_info = λ _. some 8;
  is_signed = λ _. true;
}

-- A contract that counts its nodes.
abbrev contract : NodeContract ℕ
contract = record {
  exist_pub_key = λ _ _. false;
  exist_p2p_id = λ _ _. false;
  exist_name = λ _ _. false;
  is_exited = λ _ _. none;
  register = λ _ _ _ n. some (n + 1);
  exit = λ _ n. none;
}

abbrev handlers : ProposalType → Handler (Rest ℕ)
handlers = handlers_of codec contract

abbrev member : ℕ → CouncilMember
member a = record { address = a; weight = 1; name = a }

abbrev rest : Rest ℕ
rest = record {
  whitelist = empty;
  staking = record {
    pool_info = λ _. none;
    rate_history = λ _ _. none;
    next_id = none;
    info_map = λ _. none;
    owner_map = λ _. none;
    balance_map = λ _. none;
    token_approval = λ _. none;
    operator_approval = λ _ _. none;
    current_epoch_id = none;
    next_epoch_info = none;
    history_epoch = λ _. none;
    node_status = λ _. none;
    coin = λ _. pos 0;
  };
  nodes = 0;
  pending_names = λ _. false;
  pending_p2p_ids = λ _. false;
  pending_pub_keys = λ _. false;
  pending_removes = λ _. false;
}

abbrev start : Store (Rest ℕ)
start = genesis_init (member 1 ∷ member 2 ∷ member 3 ∷ member 4 ∷ []) rest

abbrev at_block : ℕ → ℕ → Ctx
at_block b a = record { from = a; block_number = b }

abbrev text : Bytes
text = 65 ∷ []

-- The first member proposes to register a node until block 20.
abbrev proposed : Store (Rest ℕ)
proposed = (propose handlers (at_block 10 1) node_register text text 20 text start).1

-- The second member votes after the deadline.
abbrev voted_late : Store (Rest ℕ)
voted_late = (vote handlers 1 pass (at_block 25 2) proposed).1

-- It votes in time.
abbrev voted : Store (Rest ℕ)
voted = (vote handlers 1 pass (at_block 15 2) proposed).1

abbrev proposal : Proposal
proposal = created 1 (at_block 10 1) 4 node_register text text 20 text true

-- The third member's vote approves the proposal, and the node is registered.
abbrev approved_store : Store (Rest ℕ)
approved_store = (vote handlers 1 pass (at_block 16 3) voted).1

abbrev approved_proposal : Proposal
approved_proposal = record proposal {
  pass_votes = 1 ∷ 2 ∷ 3 ∷ [];
  status = approved;
  effective_block_number = 16;
  execute_success = true;
}

-- The calls succeed, and what they store.
computed :
    (propose handlers (at_block 10 1) node_register text text 20 text start ≡ (ok tt, proposed))
    × (vote handlers 1 pass (at_block 25 2) proposed ≡ (ok tt, voted_late))
    × (proposed.not_finished
        ≡ some ([] ++ record { id = 1; deadline = 20; kind = node_register } ∷ []))
    × (vote handlers 1 pass (at_block 15 2) proposed ≡ (ok tt, voted))
    × (proposed.proposals 1 ≡ some proposal)
    × (vote handlers 1 pass (at_block 16 3) voted ≡ (ok tt, approved_store))
    × (approved_store.rest.nodes ≡ 1)
    × (approved_store.proposals 1 ≡ some approved_proposal)
unfolding add_not_finished_proposal calc_by_simple_strategy calc_proposal_status cast_vote
    check_and_update_state check_before_vote check_pending check_propose_args check_registered
    clean_register conclude conclude_finished create_proposal enter_proposal execute_approved
    execute_register genesis_init is_council_member node_args_check node_clean node_execute
    node_permission propose put_pending register_args_check reject_overdue reject_proposal
    remove_not_finished_proposal total_votes total_votes_of update_vote_status vote
computed = (refl, refl, refl, refl, refl, refl, refl, refl)

propose_ok_example : IsProposed 1 (at_block 10 1) node_register text text 20 text start proposed
propose_ok_example =
    propose_ok handlers (handlers_of-IsFramed codec contract) 1 (at_block 10 1) node_register text
      text 20 text start proposed
      (genesis_init-IsBoard (member 1 ∷ member 2 ∷ member 3 ∷ member 4 ∷ []) rest) (omega arith)
      computed.0

proposed-IsBoard : IsBoard 2 proposed
proposed-IsBoard = propose_ok_example.board

late_vote_example : IsLost 1 voted_late
late_vote_example =
    late_vote handlers (handlers_of-IsFramed codec contract) 2 1 pass (at_block 25 2) proposed
      voted_late (record { id = 1; deadline = 20; kind = node_register }) [] [] proposed-IsBoard
      computed.2 refl (omega arith) computed.1

vote_counts_example : IsCounted 1 pass (at_block 15 2) proposed voted
vote_counts_example =
    vote_counts handlers (handlers_of-IsFramed codec contract) 2 1 pass (at_block 15 2) proposed
      voted proposed-IsBoard computed.3

vote_releases_name_example : voted.rest.pending_names 7 ≡ false
vote_releases_name_example =
    vote_releases_name codec contract 2 1 pass (at_block 15 2) proposal
      (record { consensus_pub_key = 5; p2p_pub_key = 6; name = 7 }) proposed voted proposed-IsBoard
      computed.4 refl refl computed.3

-- The whole history: the proposal, the late vote, and a vote that fails.
abbrev calls : List (Ctx × Call)
calls =
    (at_block 10 1, propose_call node_register text text 20 text)
    ∷ (at_block 25 2, vote_call 1 pass)
    ∷ (at_block 26 2, vote_call 1 reject)
    ∷ []

run_calls-IsBoard_example : KeepsBoard handlers 1 calls start
run_calls-IsBoard_example =
    run_calls-IsBoard handlers (handlers_of-IsFramed codec contract) 1 calls start
      (genesis_init-IsBoard (member 1 ∷ member 2 ∷ member 3 ∷ member 4 ∷ []) rest) (omega arith)

approved_store-IsBoard : IsBoard 2 approved_store
approved_store-IsBoard =
    vote-IsBoard handlers (handlers_of-IsFramed codec contract) 2 1 pass (at_block 16 3) voted
      approved_store
      (vote-IsBoard handlers (handlers_of-IsFramed codec contract) 2 1 pass (at_block 15 2) proposed
        voted proposed-IsBoard computed.3)
      computed.5

approved_is_final_example :
    (run_calls handlers ((at_block 30 4, vote_call 1 reject) ∷ []) approved_store).proposals 1
    ≡ some approved_proposal
approved_is_final_example =
    approved_is_final handlers (handlers_of-IsFramed codec contract) 2
      ((at_block 30 4, vote_call 1 reject) ∷ []) approved_store 1 approved_proposal
      approved_store-IsBoard (omega arith) computed.7 refl
