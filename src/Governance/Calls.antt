-- ===== src/Governance/Calls.antt =====
-- What a successful call of Vote does to the proposals: internal/executor/system/governance/governance.go.
use axiom_lib.Common.Distinct.{contains}
use axiom_lib.Common.{
  ℕ, true, false, some, List, ◌≡◌, refl, sym, ap, ◌∙◌, subst, ◌||◌, if◌then◌else◌, arith,
  Bool-cases, inl, inr,
}
use mathlib.Core.Option.{some_inj}
use axiom_lib.Common.Maps.{update}
use axiom_lib.Common.Action.{ok, bind_ok, ◌>>◌}
use axiom_lib.Governance.Types.{
  voting, ProposalType, VoteResult, pass, reject, CouncilMember, Proposal, Ctx, Store, Handler,
}
use axiom_lib.Governance.Members.{is_member}
use axiom_lib.Governance.Board.{
  listed, add_vote, is_finished, is_approved, execute_approved, get_proposal,
  remove_not_finished_proposal, check_and_update_state, conclude, conclude_finished, cast_vote,
  vote,
}
use axiom_lib.Governance.Laws.{add_vote-once}
use axiom_lib.Governance.Frame.{
  IsFramed, IsBoard, IsPassed, NotIn, IsChecked, get_proposal_ok, remove_absent,
}
use axiom_lib.Governance.Overdue.{check_and_update_ok}
use axiom_lib.Governance.Voting.{counted, IsConcluded, cast_vote_ok, conclude_ok}

-- The steps of a vote that succeeds: the proposal as it was read, the store after the overdue
-- proposals are rejected, and the council.
pub record IsVoted {R : Type 0} (handlers : ProposalType → Handler R) (next i : ℕ) (v : VoteResult)
    (ctx : Ctx) (p : Proposal) (members : List CouncilMember) (s u t : Store R) : Type 0 where
  pub found : s.proposals i ≡ some p
  pub checked : check_and_update_state handlers ctx s ≡ (ok tt, u)
  pub kept : IsChecked next s u
  pub council_eq : s.council ≡ some members
  pub permitted : is_member ctx.from members ≡ true
  pub fresh : (contains ctx.from p.pass_votes || contains ctx.from p.reject_votes) ≡ false
  pub open_eq : p.status ≡ voting
  pub concluded : conclude handlers ctx (counted v ctx.from members p) u ≡ (ok tt, t)

add_vote_keeps :
    (u : ℕ) (v : VoteResult) (p : Proposal)
    → ((add_vote u v p).id ≡ p.id) × ((add_vote u v p).block_number ≡ p.block_number)
add_vote_keeps u pass p = (refl, refl)
add_vote_keeps u reject p = (refl, refl)

IsPassed-deadline : (p q : Proposal) → IsPassed p q → p.block_number ≡ q.block_number
IsPassed-deadline p q (inl e) = ap (λ x. Proposal.block_number x) (sym e)
IsPassed-deadline p q (inr (v, e)) = ap (λ x. Proposal.block_number x) (sym e)

module _ {R : Type 0} (handlers : ProposalType → Handler R)
    (framed : (k : ProposalType) → IsFramed (handlers k)) where
  pub vote_steps :
      (next i : ℕ) (v : VoteResult) (ctx : Ctx) (s t : Store R)
      → IsBoard next s
      → vote handlers i v ctx s ≡ (ok tt, t)
      → (p : Proposal) × (members : List CouncilMember) × (u : Store R) × IsVoted handlers next i v
          ctx p members s u t
  unfolding vote
  vote_steps next i v ctx s t b h =
      let (p, s', e, k) =
        bind_ok (get_proposal i)
          (λ p. check_and_update_state handlers ctx >> cast_vote handlers v ctx p) s t tt h in
      let (same, found) = get_proposal_ok i p s s' e in
      let (_, u, e', k') =
        bind_ok (check_and_update_state handlers ctx) (λ _. cast_vote handlers v ctx p) s t tt
          (subst
            (λ x.
              (check_and_update_state handlers ctx >> cast_vote handlers v ctx p) x ≡ (ok tt, t))
            same k) in
      let (kept, gone) = check_and_update_ok handlers framed next ctx s u b e' in
      let (members, c, m, f, o, d) = cast_vote_ok handlers framed v ctx p u t k' in
      (
        p,
        members,
        u,
        record {
          found = found;
          checked = e';
          kept = kept;
          council_eq = sym kept.council_eq ∙ c;
          permitted = m;
          fresh = f;
          open_eq = o;
          concluded = d;
        },
      )

  pub voted_ok :
      (next i : ℕ) (v : VoteResult) (ctx : Ctx) (p : Proposal) (members : List CouncilMember)
      (s u t : Store R)
      → IsBoard next s
      → IsVoted handlers next i v ctx p members s u t
      → IsConcluded next (counted v ctx.from members p) u t
        × ((counted v ctx.from members p).id ≡ i)
  voted_ok next i v ctx p members s u t (e, b) x =
      let (same_id, same_deadline) = add_vote_keeps ctx.from v p in
      let a = b.stored i p x.found in
      let (q, k, passed) = x.kept.passed i p x.found in
      (
        conclude_ok handlers framed next ctx (counted v ctx.from members p) u t x.kept.board
            (record {
              id_eq = refl;
              below = rw (same_id, a.id_eq) a.below;
              once = add_vote-once ctx.from v p a.once x.fresh;
            })
            (λ r l.
              same_deadline
              ∙ (IsPassed-deadline p q passed
                  ∙ ap (λ y. Proposal.block_number y)
                      (some_inj.0 (sym k ∙ (ap u.proposals (sym (same_id ∙ a.id_eq)) ∙ l)))))
            x.concluded,
        same_id ∙ a.id_eq,
      )

  -- A vote that decides a proposal takes it off the list, so it fails where it is not there.
  pub conclude_absent :
      (ctx : Ctx) (p : Proposal) (s t : Store R)
      → NotIn p.id (listed s.not_finished)
      → conclude handlers ctx p s ≡ (ok tt, t)
      → is_finished p.status ≡ false
  unfolding conclude conclude_finished
  conclude_absent ctx p s t a h = elim (Bool-cases (is_finished p.status)) [
    | inr f ↦ f
    | inl f ↦
        let p' : Proposal = record p { effective_block_number = ctx.block_number } in
        let s1 : Store R = record s { proposals = update s.proposals p.id (some p') } in
        let (_, u, e, _) =
          bind_ok (remove_not_finished_proposal p.id)
            (λ _.
              if is_approved p.status
              then execute_approved handlers ctx p'
              else (handlers p.kind).clean_proposal ctx p')
            s1 t tt (ground arith) in
        absurd (remove_absent p.id s1 u a e)
  ]
