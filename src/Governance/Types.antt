-- ===== src/Governance/Types.antt =====
-- The data of internal/executor/system/governance/governance.go and council_manager.go. Addresses and
-- names are numbers, texts and the extra arguments are lists of bytes.
use axiom_lib.Common.{ℕ, Bool, Option, List}
use axiom_lib.Common.Action.{Action}

abbrev pub Bytes : Type 0
Bytes = List ℕ

pub data ProposalStatus : Type 0 where
  voting approved rejected : ProposalStatus

pub data ProposalType : Type 0 where
  council_elect node_upgrade node_register node_remove : ProposalType
  whitelist_provider_add whitelist_provider_remove gas_update chain_param_upgrade : ProposalType

pub data VoteResult : Type 0 where
  pass reject : VoteResult

-- The errors, by the message that the source gives them.
pub data Error : Type 0 where
  invalid_type invalid_title too_long_title invalid_desc too_long_desc : Error
  invalid_block_number out_of_date not_found has_voted finished invalid_vote : Error
  no_permission no_council no_next_id : Error
  bad_extra too_few_members repeated_address repeated_name exists_not_finished repeated_param :
      Error
  bad_node_info bad_signature already_registered already_exited repeated_url : Error
  empty_providers invalid_provider repeated_provider provider_exists provider_not_exist : Error
  other_error : Error

-- `CouncilMember`
pub record CouncilMember : Type 0 where
  pub address : ℕ
  pub weight : ℕ
  pub name : ℕ

-- `Proposal`; the strategy 0 is SimpleStrategy.
pub record Proposal : Type 0 where
  pub id : ℕ
  pub kind : ProposalType
  pub strategy : ℕ
  pub proposer : ℕ
  pub title : Bytes
  pub desc : Bytes
  pub block_number : ℕ
  pub total_votes : ℕ
  pub pass_votes : List ℕ
  pub reject_votes : List ℕ
  pub status : ProposalStatus
  pub extra : Bytes
  pub created_block_number : ℕ
  pub effective_block_number : ℕ
  pub execute_success : Bool
  pub execute_failed_msg : Option Error

-- `NotFinishedProposal`
pub record NotFinishedProposal : Type 0 where
  pub id : ℕ
  pub deadline : ℕ
  pub kind : ProposalType

-- The fields of `common.VMContext` that the contract reads.
pub record Ctx : Type 0 where
  pub from : ℕ
  pub block_number : ℕ

-- The slots of the contract, and the state of the contracts that the handlers call.
pub record Store (R : Type 0) : Type 0 where
  pub council : Option (List CouncilMember)
  pub next_proposal_id : Option ℕ
  pub proposals : ℕ → Option Proposal
  pub not_finished : Option (List NotFinishedProposal)
  pub rest : R

-- `ProposalHandler`, but for what every handler takes from DefaultProposalPermissionManager.
pub record Handler (R : Type 0) : Type 0 where
  pub propose_args_check :
      Ctx → ProposalType → Bytes → Bytes → ℕ → Bytes → Action (Store R) Error (Unit {0})
  pub propose_permission_check : Ctx → ProposalType → Action (Store R) Error Bool
  pub vote_pass_execute : Ctx → Proposal → Action (Store R) Error (Unit {0})
  pub clean_proposal : Ctx → Proposal → Action (Store R) Error (Unit {0})
