-- ===== src/Governance/Votes.antt =====
-- Votes of the council members: Vote of internal/executor/system/governance/governance.go.
use axiom_lib.Common.Distinct.{contains}
use axiom_lib.Common.{
  ℕ, ◌≤◌, true, false, Option, some, List, [], ◌∷◌, ◌++◌, ◌≡◌, ◌≢◌, refl, sym, ap, ◌∙◌, subst, ◌==◌,
  ◌||◌, arith, All, Bool-cases, inl, inr, ==_iff, leb,
}
use mathlib.Core.Option.{some_inj}
use axiom_lib.Common.Maps.{update_self, update_ne}
use axiom_lib.Common.Action.{ok}
use axiom_lib.Governance.Types.{
  voting, approved, ProposalType, VoteResult, CouncilMember, Proposal, NotFinishedProposal, Ctx,
  Store, Handler,
}
use axiom_lib.Governance.Members.{is_member}
use axiom_lib.Governance.Board.{listed, vote}
use axiom_lib.Governance.Frame.{IsFramed, IsBoard, IsPassed, NotIn, not_finished}
use axiom_lib.Governance.Overdue.{check_and_update_ok}
use axiom_lib.Governance.Voting.{counted, IsDecided}
use axiom_lib.Governance.Calls.{vote_steps, voted_ok, conclude_absent}

-- What a vote means: the voter, who is a member and had not voted, is counted.
abbrev pub IsCounted : {R : Type 0} → ℕ → VoteResult → Ctx → Store R → Store R → Type 0
IsCounted i v ctx s t =
    (p : Proposal) × (q : Proposal) × (members : List CouncilMember) × (s.proposals i ≡ some p)
    × (p.status ≡ voting)
    × (s.council ≡ some members)
    × (is_member ctx.from members ≡ true)
    × ((contains ctx.from p.pass_votes || contains ctx.from p.reject_votes) ≡ false)
    × (t.proposals i ≡ some q)
    × IsDecided (counted v ctx.from members p) q

-- The proposal is being voted on, but is not on the list.
abbrev pub IsLost : {R : Type 0} → ℕ → Store R → Type 0
IsLost i t =
    (q : Proposal) × (t.proposals i ≡ some q)
    × (q.status ≡ voting)
    × NotIn i (listed t.not_finished)

pub voting-approved : voting ≢ approved
voting-approved e = cc

All-middle :
    (P : NotFinishedProposal → Type 0) (before : List NotFinishedProposal) (n : NotFinishedProposal)
    (after : List NotFinishedProposal)
    → All P (before ++ n ∷ after)
    → P n
All-middle P [] n after (h, hs) = h
All-middle P (x ∷ before) n after (h, hs) = All-middle P before n after hs

module _ {R : Type 0} (handlers : ProposalType → Handler R)
    (framed : (k : ProposalType) → IsFramed (handlers k)) where
  pub vote-IsBoard :
      (next i : ℕ) (v : VoteResult) (ctx : Ctx) (s t : Store R)
      → IsBoard next s
      → vote handlers i v ctx s ≡ (ok tt, t)
      → IsBoard next t
  vote-IsBoard next i v ctx s t b h =
      let (p, members, u, x) = vote_steps handlers framed next i v ctx s t b h in
      (voted_ok handlers framed next i v ctx p members s u t b x).0.board

  -- A successful vote is one of a member of the council who had not voted on the proposal, which was
  -- being voted on; it is added to the votes, and the status follows from the weights of all of them.
  pub vote_counts :
      (next i : ℕ) (v : VoteResult) (ctx : Ctx) (s t : Store R)
      → IsBoard next s
      → vote handlers i v ctx s ≡ (ok tt, t)
      → IsCounted i v ctx s t
  vote_counts next i v ctx s t b h =
      let (p, members, u, x) = vote_steps handlers framed next i v ctx s t b h in
      let (c, same_id) = voted_ok handlers framed next i v ctx p members s u t b x in
      let (q, e, d) = c.saved in
      (
        p,
        q,
        members,
        x.found,
        x.open_eq,
        x.council_eq,
        x.permitted,
        x.fresh,
        rw (e, sym same_id, update_self u.proposals (counted v ctx.from members p).id (some q))
            refl,
        d,
      )

  -- A vote leaves the other proposals alone, but for overdue ones.
  vote_others :
      (next i : ℕ) (v : VoteResult) (ctx : Ctx) (s t : Store R) (j : ℕ) (p : Proposal)
      → IsBoard next s
      → vote handlers i v ctx s ≡ (ok tt, t)
      → j ≢ i
      → s.proposals j ≡ some p
      → (q : Proposal) × (t.proposals j ≡ some q) × IsPassed p q
  vote_others next i v ctx s t j p b h ne e =
      let (p', members, u, x) = vote_steps handlers framed next i v ctx s t b h in
      let (c, same_id) = voted_ok handlers framed next i v ctx p' members s u t b x in
      let (q, f, d) = c.saved in
      let (r, k, l) = x.kept.passed j p e in
      (
        r,
        ap (λ (m : ℕ → Option Proposal). m j) f
            ∙ (update_ne u.proposals (counted v ctx.from members p').id j (some q)
                  (λ a. ne (a ∙ same_id))
                ∙ k),
        l,
      )

  -- An approved proposal stays as it is.
  pub vote_keeps_approved :
      (next i : ℕ) (v : VoteResult) (ctx : Ctx) (s t : Store R) (j : ℕ) (p : Proposal)
      → IsBoard next s
      → vote handlers i v ctx s ≡ (ok tt, t)
      → s.proposals j ≡ some p
      → p.status ≡ approved
      → t.proposals j ≡ some p
  vote_keeps_approved next i v ctx s t j p b h e a = elim (Bool-cases (j == i)) [
    | inl c ↦
        let (p', q, members, found, o, _, _, _, _, _) = vote_counts next i v ctx s t b h in
        absurd (
          voting-approved (
            sym o
            ∙ (ap (λ x. Proposal.status x)
                  (some_inj.0 (sym found ∙ (ap s.proposals (sym ((==_iff j i).0 c)) ∙ e)))
                ∙ a)))
    | inr c ↦ go (vote_others next i v ctx s t j p b h (ground (arith, ==_iff j i)) e)
  ]
    where
      go : (q : Proposal) × (t.proposals j ≡ some q) × IsPassed p q → t.proposals j ≡ some p
      go (q, k, inl c) = k ∙ ap some c
      go (q, k, inr (o, c)) = absurd (voting-approved (sym o ∙ a))

  -- A successful vote on a listed proposal after its deadline leaves it as being voted on and off the
  -- list, although its deadline has passed.
  pub late_vote :
      (next i : ℕ) (v : VoteResult) (ctx : Ctx) (s t : Store R) (n : NotFinishedProposal)
      (before after : List NotFinishedProposal)
      → IsBoard next s
      → s.not_finished ≡ some (before ++ n ∷ after)
      → n.id ≡ i
      → n.deadline ≤ ctx.block_number
      → vote handlers i v ctx s ≡ (ok tt, t)
      → IsLost i t
  late_vote next i v ctx s t n before after b l e d h =
      let (p, members, u, x) = vote_steps handlers framed next i v ctx s t b h in
      let (c, same_id) = voted_ok handlers framed next i v ctx p members s u t b x in
      let (q, f, z) = c.saved in
      let r = counted v ctx.from members p in
      let gone =
        All-middle
          (λ n. leb n.deadline ctx.block_number ≡ true → NotIn n.id (listed u.not_finished)) before
          n after
          (subst
            (λ o.
              All (λ n. leb n.deadline ctx.block_number ≡ true → NotIn n.id (listed u.not_finished))
                (listed o))
            l (check_and_update_ok handlers framed next ctx s u b x.checked).1)
          (ground arith) in
      let stays =
        conclude_absent handlers framed ctx r u t
          (subst (λ k. NotIn k (listed u.not_finished)) (e ∙ sym same_id) gone) x.concluded in
      (
        q,
        ap (λ (m : ℕ → Option Proposal). m i) f
            ∙ rw (sym same_id) (update_self u.proposals r.id (some q)),
        z.status_eq ∙ not_finished r.status stays,
        subst (λ l. NotIn i l) (sym (c.listed_eq ∙ rw stays refl))
            (subst (λ k. NotIn k (listed u.not_finished)) e gone),
      )
