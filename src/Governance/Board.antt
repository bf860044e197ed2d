-- ===== src/Governance/Board.antt =====
-- Governance of internal/executor/system/governance/governance.go, over the handlers of the proposal
-- types. Events are not modelled.
use axiom_lib.Common.Distinct.{contains}
use axiom_lib.Common.{
  ℕ, Bool, true, false, Option, none, some, List, [], ◌∷◌, ◌++◌, ◌==◌, ltb, leb, not, ◌||◌,
  if◌then◌else◌, length, map,
}
use axiom_lib.Common.Maps.{update}
use axiom_lib.Common.Words.{add64, sub64}
use axiom_lib.Common.Action.{
  Action, Result, ok, err, pure, gets, modify, or_raise, raise_if, ◌>>=◌, ◌>>◌,
}
use axiom_lib.Governance.Types.{
  Bytes, ProposalStatus, voting, approved, rejected, ProposalType, VoteResult, pass, reject, Error,
  invalid_title, too_long_title, invalid_desc, too_long_desc, invalid_block_number, out_of_date,
  not_found, has_voted, finished, no_permission, no_next_id, no_council, CouncilMember, Proposal,
  NotFinishedProposal, Ctx, Store, Handler,
}
use axiom_lib.Governance.Members.{is_council_member, total_votes, update_vote_status}

abbrev pub max_title_length : ℕ
max_title_length = 200

abbrev pub max_desc_length : ℕ
max_desc_length = 10000

abbrev pub is_finished : ProposalStatus → Bool
is_finished voting = false
is_finished approved = true
is_finished rejected = true

abbrev pub is_approved : ProposalStatus → Bool
is_approved approved = true
is_approved _ = false

-- The list that a slot holds, or the empty one.
abbrev pub listed : Option (List NotFinishedProposal) → List NotFinishedProposal
listed none = []
listed (some ns) = ns

-- `lo.Filter` of the other ids
abbrev pub without_id : ℕ → List NotFinishedProposal → List NotFinishedProposal
without_id i [] = []
without_id i (n ∷ ns) = let rest = without_id i ns in if n.id == i then rest else n ∷ rest

-- `lo.UniqBy` of the ids, which keeps the first entry of each id
abbrev pub unique : List NotFinishedProposal → List NotFinishedProposal
unique [] = []
unique (n ∷ ns) = n ∷ without_id n.id (unique ns)

abbrev pub add_vote : ℕ → VoteResult → Proposal → Proposal
add_vote user pass p = record p { pass_votes = p.pass_votes ++ user ∷ [] }
add_vote user reject p = record p { reject_votes = p.reject_votes ++ user ∷ [] }

abbrev pub executed : Option Error → Proposal → Proposal
executed none p = record p { execute_success = true }
executed (some e) p = record p { execute_success = false; execute_failed_msg = some e }

module _ {R : Type 0} where
  -- `proposals.Put`
  abbrev pub put_proposal : ℕ → Proposal → Action (Store R) Error (Unit {0})
  put_proposal i p = modify (λ s. record s { proposals = update s.proposals i (some p) })

  abbrev pub put_not_finished : List NotFinishedProposal → Action (Store R) Error (Unit {0})
  put_not_finished ns = modify (λ s. record s { not_finished = some ns })

  -- `proposals.Get` where a missing proposal is an error
  abbrev pub get_proposal : ℕ → Action (Store R) Error Proposal
  get_proposal i = do or_raise (← gets (λ s. s.proposals i)) not_found

  -- addNotFinishedProposal
  unfoldable pub add_not_finished_proposal : NotFinishedProposal → Action (Store R) Error (Unit {0})
  add_not_finished_proposal n = do
    ns ← gets (λ s. listed s.not_finished)
    put_not_finished (unique (ns ++ n ∷ []))

  -- removeNotFinishedProposal
  unfoldable pub remove_not_finished_proposal : ℕ → Action (Store R) Error (Unit {0})
  remove_not_finished_proposal i = do
    slot ← gets (λ s. s.not_finished)
    ns ← or_raise slot not_found
    raise_if (length (without_id i ns) == length ns) not_found
    put_not_finished (without_id i ns)

  -- CheckProposeArgs, of a registered type
  unfoldable pub check_propose_args : Bytes → Bytes → ℕ → ℕ → Action (Store R) Error (Unit {0})
  check_propose_args title desc expired height = do
    raise_if (length title == 0) invalid_title
    raise_if (ltb max_title_length (length title)) too_long_title
    raise_if (length desc == 0) invalid_desc
    raise_if (ltb max_desc_length (length desc)) too_long_desc
    raise_if (expired == 0) invalid_block_number
    raise_if (ltb expired height) out_of_date

  -- createProposal
  unfoldable pub create_proposal :
      Ctx → ℕ → ProposalType → Bytes → Bytes → ℕ → Bytes → Bool → Action (Store R) Error (Unit {0})
  unfolding add_not_finished_proposal
  create_proposal ctx total kind title desc block_number extra include_user = do
    slot ← gets (λ s. s.next_proposal_id)
    id ← or_raise slot no_next_id
    modify (λ s. record s { next_proposal_id = some (add64 id 1) })
    put_proposal id (record {
      id = id;
      kind = kind;
      strategy = 0;
      proposer = ctx.from;
      title = title;
      desc = desc;
      block_number = block_number;
      total_votes = total;
      pass_votes = if include_user then ctx.from ∷ [] else [];
      reject_votes = [];
      status = voting;
      extra = extra;
      created_block_number = ctx.block_number;
      effective_block_number = 0;
      execute_success = false;
      execute_failed_msg = none;
    })
    add_not_finished_proposal (record { id = id; deadline = block_number; kind = kind })

  -- The end of Propose
  unfoldable pub enter_proposal :
      Ctx → ProposalType → Bytes → Bytes → ℕ → Bytes → Action (Store R) Error (Unit {0})
  enter_proposal ctx kind title desc block_number extra = do
    total ← total_votes
    may_vote ← is_council_member ctx.from
    create_proposal ctx total kind title desc block_number extra may_vote

  -- checkBeforeVote, of a vote that is Pass or Reject
  unfoldable pub check_before_vote : ℕ → Proposal → Action (Store R) Error (Unit {0})
  check_before_vote user p = do
    raise_if (contains user p.pass_votes || contains user p.reject_votes) has_voted
    raise_if (is_finished p.status) finished

  -- A call whose error is kept as a value.
  abbrev pub caught : Result Error (Unit {0}) × Store R → Result Error (Option Error) × Store R
  caught (ok _, s) = (ok none, s)
  caught (err e, s) = (ok (some e), s)

  abbrev pub catch : Action (Store R) Error (Unit {0}) → Action (Store R) Error (Option Error)
  catch m s = caught (m s)

  module _ (handlers : ProposalType → Handler R) where
    -- Rejects an overdue proposal.
    unfoldable pub reject_proposal :
        Ctx → NotFinishedProposal → Proposal → Action (Store R) Error (Unit {0})
    reject_proposal ctx n p = do
      put_proposal n.id (record p { status = rejected })
      remove_not_finished_proposal n.id
      (handlers p.kind).clean_proposal ctx (record p { status = rejected })

    -- One turn of the loop of checkAndUpdateState, at an overdue proposal
    unfoldable pub reject_overdue : Ctx → NotFinishedProposal → Action (Store R) Error (Unit {0})
    reject_overdue ctx n = do
      p ← get_proposal n.id
      if is_finished p.status then pure tt else reject_proposal ctx n p

    abbrev pub reject_all_overdue :
        Ctx → List NotFinishedProposal → Action (Store R) Error (Unit {0})
    reject_all_overdue ctx [] = pure tt
    reject_all_overdue ctx (n ∷ ns) =
        let rest = reject_all_overdue ctx ns in
        if leb n.deadline ctx.block_number then reject_overdue ctx n >> rest else rest

    -- checkAndUpdateState
    unfoldable pub check_and_update_state : Ctx → Action (Store R) Error (Unit {0})
    check_and_update_state ctx = do
      ns ← gets (λ s. listed s.not_finished)
      reject_all_overdue ctx ns

    -- Propose, of a registered type
    unfoldable pub propose :
        Ctx → ProposalType → Bytes → Bytes → ℕ → Bytes → Action (Store R) Error (Unit {0})
    propose ctx kind title desc block_number extra = do
      check_and_update_state ctx
      check_propose_args title desc block_number ctx.block_number
      (handlers kind).propose_args_check ctx kind title desc block_number extra
      permitted ← (handlers kind).propose_permission_check ctx kind
      raise_if (not permitted) no_permission
      enter_proposal ctx kind title desc block_number extra

    -- The end of Vote at an approved proposal
    unfoldable pub execute_approved : Ctx → Proposal → Action (Store R) Error (Unit {0})
    execute_approved ctx p = do
      failure ← catch ((handlers p.kind).vote_pass_execute ctx p)
      put_proposal p.id (executed failure p)
      (handlers p.kind).clean_proposal ctx (executed failure p)

    -- The end of Vote at a proposal that the vote decided
    unfoldable pub conclude_finished : Ctx → Proposal → Action (Store R) Error (Unit {0})
    conclude_finished ctx p = do
      put_proposal p.id p
      remove_not_finished_proposal p.id
      if is_approved p.status
          then execute_approved ctx p
          else (handlers p.kind).clean_proposal ctx p

    -- The end of Vote: what is stored of the proposal, and what is executed.
    unfoldable pub conclude : Ctx → Proposal → Action (Store R) Error (Unit {0})
    conclude ctx p =
        if is_finished p.status
        then conclude_finished ctx (record p { effective_block_number = ctx.block_number })
        else (put_proposal p.id p >> (handlers p.kind).clean_proposal ctx p)

    -- The end of Vote: the checks, the vote and what follows from it.
    unfoldable pub cast_vote : VoteResult → Ctx → Proposal → Action (Store R) Error (Unit {0})
    cast_vote v ctx p = do
      check_before_vote ctx.from p
      permitted ← is_council_member ctx.from
      raise_if (not permitted) no_permission
      p' ← update_vote_status (add_vote ctx.from v p)
      conclude ctx p'

    -- Vote; the proposal is read before overdue proposals are rejected.
    unfoldable pub vote : ℕ → VoteResult → Ctx → Action (Store R) Error (Unit {0})
    vote i v ctx = do p ← get_proposal i; check_and_update_state ctx; cast_vote v ctx p

-- GetLatestProposalID
unfoldable pub get_latest_proposal_id : {R : Type 0} → Action (Store R) Error ℕ
get_latest_proposal_id = do
  slot ← gets (λ s. s.next_proposal_id)
  id ← or_raise slot no_next_id
  pure (sub64 id 1)

module _ {R : Type 0} where
  -- GetCouncilMembers
  unfoldable pub get_council_members : Action (Store R) Error (List CouncilMember)
  get_council_members = do or_raise (← gets (λ s. s.council)) no_council

  -- GetNotFinishedProposalIDs
  unfoldable pub get_not_finished_proposal_ids : Action (Store R) Error (List ℕ)
  get_not_finished_proposal_ids =
      gets (λ s. map (λ n. NotFinishedProposal.id n) (listed s.not_finished))
