-- ===== src/Governance/Members.antt =====
-- Who may vote, and with which weight: DefaultProposalPermissionManager of
-- internal/executor/system/governance/default_proposal_permission_manager.go, and isCouncilMember of
-- governance.go. Addresses are compared as texts by the source; here their texts are canonical.
use axiom_lib.Common.Distinct.{contains}
use axiom_lib.Common.{ℕ, Bool, true, false, List, [], ◌∷◌, ◌==◌, if◌then◌else◌}
use axiom_lib.Common.Words.{add64}
use axiom_lib.Common.Action.{Action, pure, gets, or_raise, ◌>>=◌}
use axiom_lib.Governance.Types.{CouncilMember, Proposal, Store, Error, no_council}
use axiom_lib.Governance.Strategy.{calc_proposal_status}

abbrev pub is_member : ℕ → List CouncilMember → Bool
is_member a [] = false
is_member a (m ∷ ms) = if m.address == a then true else is_member a ms

-- The weights that count, added up; the sum is a `uint64`.
abbrev pub sum_weights : (ℕ → Bool) → List CouncilMember → ℕ
sum_weights counts [] = 0
sum_weights counts (m ∷ ms) =
    add64 (if counts m.address then m.weight else 0) (sum_weights counts ms)

module _ {R : Type 0} where
  -- `council.MustGet`
  abbrev pub must_get_council : Action (Store R) Error (List CouncilMember)
  must_get_council = do or_raise (← gets (λ s. s.council)) no_council

  -- isCouncilMember, ProposePermissionCheck and VotePermissionCheck
  unfoldable pub is_council_member : ℕ → Action (Store R) Error Bool
  is_council_member user = do members ← must_get_council; pure (is_member user members)

  -- TotalVotes
  unfoldable pub total_votes : Action (Store R) Error ℕ
  total_votes = do members ← must_get_council; pure (sum_weights (λ _. true) members)

  -- totalVotes of some members
  unfoldable pub total_votes_of : List ℕ → Action (Store R) Error ℕ
  total_votes_of users = do
    members ← must_get_council
    pure (sum_weights (λ a. contains a users) members)

  -- UpdateVoteStatus
  unfoldable pub update_vote_status : Proposal → Action (Store R) Error Proposal
  unfolding total_votes_of
  update_vote_status p = do
    passed ← total_votes_of p.pass_votes
    rejected ← total_votes_of p.reject_votes
    pure (record p { status = calc_proposal_status p.strategy p.total_votes passed rejected })
