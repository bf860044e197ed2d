-- ===== src/Governance/Strategy.antt =====
-- The strategy of internal/executor/system/governance/proposal_strategy.go: when a proposal is decided.
use axiom_lib.Common.{ℕ, ◌+◌, ◌*◌, ◌<◌, ◌≡◌, ◌≢◌, ◌==◌, ltb, leb, if◌then◌else◌, arith}
use axiom_lib.Common.Words.{u64_mod, mul64}
use axiom_lib.Governance.Types.{ProposalStatus, voting, approved, rejected}

-- calcProposalStatusBySimpleStrategy; the products are `uint64`.
unfoldable pub calc_by_simple_strategy : ℕ → ℕ → ℕ → ProposalStatus
calc_by_simple_strategy total pass reject =
    if ltb total (mul64 pass 2)
    then approved
    else (if leb total (mul64 reject 2) then rejected else voting)

-- CalcProposalStatus
unfoldable pub calc_proposal_status : ℕ → ℕ → ℕ → ℕ → ProposalStatus
calc_proposal_status strategy total pass reject =
    if strategy == 0 then calc_by_simple_strategy total pass reject else voting

-- Once all votes are given, the proposal is decided.
pub all_votes_decide :
    (total pass reject : ℕ)
    → total * 2 < u64_mod
    → pass + reject ≡ total
    → calc_by_simple_strategy total pass reject ≢ voting
unfolding calc_by_simple_strategy
all_votes_decide total pass reject h e = ground arith
