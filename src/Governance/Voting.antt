-- ===== src/Governance/Voting.antt =====
-- What a successful vote does: Vote of internal/executor/system/governance/governance.go.
use axiom_lib.Common.Distinct.{contains}
use axiom_lib.Common.{
  ℕ, Bool, true, false, Option, none, some, List, ◌≡◌, refl, ap, ◌∙◌, subst, ◌||◌, if◌then◌else◌,
  arith, Bool-cases, Option-cases, inl, inr,
}
use axiom_lib.Common.Maps.{update, update-update}
use axiom_lib.Common.Action.{Action, Result, ok, err, bind_ok, ◌>>◌}
use axiom_lib.Governance.Types.{
  voting, ProposalType, VoteResult, Error, CouncilMember, Proposal, Ctx, Store, Handler,
}
use axiom_lib.Governance.Strategy.{calc_proposal_status}
use axiom_lib.Governance.Members.{
  is_member, sum_weights, is_council_member, total_votes_of, update_vote_status,
}
use axiom_lib.Governance.Board.{
  without_id, listed, add_vote, is_finished, is_approved, executed, put_proposal,
  remove_not_finished_proposal, check_before_vote, execute_approved, conclude_finished, conclude,
  cast_vote, catch, caught,
}
use axiom_lib.Governance.Laws.{IsProposal, close-IsBoard, put-IsBoard}
use axiom_lib.Governance.Frame.{IsSame, IsFramed, IsBoard, same-IsBoard, remove_ok, not_finished}

-- The proposal after the vote of one member, with the status that all its votes give it.
abbrev pub counted : VoteResult → ℕ → List CouncilMember → Proposal → Proposal
counted v user members p =
    let q = add_vote user v p in
    record q {
      status =
          calc_proposal_status q.strategy q.total_votes
            (sum_weights (λ a. contains a q.pass_votes) members)
            (sum_weights (λ a. contains a q.reject_votes) members);
    }

-- The status and the votes are those of another proposal.
pub record IsDecided (p q : Proposal) : Type 0 where
  pub id_eq : q.id ≡ p.id
  pub status_eq : q.status ≡ p.status
  pub pass_eq : q.pass_votes ≡ p.pass_votes
  pub reject_eq : q.reject_votes ≡ p.reject_votes

-- What is stored at the end of a vote.
pub record IsConcluded {R : Type 0} (next : ℕ) (p : Proposal) (s t : Store R) : Type 0 where
  pub board : IsBoard next t
  pub saved : (q : Proposal) × (t.proposals ≡ update s.proposals p.id (some q)) × IsDecided p q
  pub listed_eq : listed t.not_finished ≡ (
      if is_finished p.status
      then without_id p.id (listed s.not_finished)
      else listed s.not_finished)

module _ {R : Type 0} (handlers : ProposalType → Handler R)
    (framed : (k : ProposalType) → IsFramed (handlers k)) where
  clean-IsSame :
      (k : ProposalType) (ctx : Ctx) (p : Proposal) (s t : Store R)
      → (handlers k).clean_proposal ctx p s ≡ (ok tt, t)
      → IsSame s t
  clean-IsSame k ctx p s t h =
      subst (IsSame s) (ap (λ (r : Result Error (Unit {0}) × Store R). r.1) h)
        ((framed k).clean ctx p s)

  catch-IsSame :
      (m : Action (Store R) Error (Unit {0})) (b s : Store R)
      → IsSame b (m s).1
      → IsSame b (catch m s).1
  catch-IsSame m b s f = go (m s) f
    where
      go : (r : Result Error (Unit {0}) × Store R) → IsSame b r.1 → IsSame b (caught r).1
      go (ok x, t) f = f
      go (err e, t) f = f

  pub cast_vote_ok :
      (v : VoteResult) (ctx : Ctx) (p : Proposal) (s t : Store R)
      → cast_vote handlers v ctx p s ≡ (ok tt, t)
      → (members : List CouncilMember) × (s.council ≡ some members)
        × (is_member ctx.from members ≡ true)
        × ((contains ctx.from p.pass_votes || contains ctx.from p.reject_votes) ≡ false)
        × (p.status ≡ voting)
        × (conclude handlers ctx (counted v ctx.from members p) s ≡ (ok tt, t))
  unfolding cast_vote check_before_vote is_council_member update_vote_status total_votes_of
  cast_vote_ok v ctx p s t h = elim (Option-cases s.council) [
    | inl e ↦ absurd (ground arith)
    | inr (members, e) ↦
        (members, e, ground arith, ground arith, not_finished p.status (ground arith), ground arith)
  ]

  -- The store after a finished proposal is stored and taken off the list.
  abbrev closed : Proposal → Proposal → Store R → Store R
  closed p q s = record s {
    proposals = update s.proposals p.id (some q);
    not_finished = some (without_id p.id (listed s.not_finished));
  }

  executed-IsDecided : (failure : Option Error) (p : Proposal) → IsDecided p (executed failure p)
  executed-IsDecided none p = record {
    id_eq = refl;
    status_eq = refl;
    pass_eq = refl;
    reject_eq = refl;
  }
  executed-IsDecided (some e) p = record {
    id_eq = refl;
    status_eq = refl;
    pass_eq = refl;
    reject_eq = refl;
  }

  execute_approved_ok :
      (ctx : Ctx) (p : Proposal) (s t : Store R)
      → execute_approved handlers ctx p s ≡ (ok tt, t)
      → (failure : Option Error) × (c : Option (List CouncilMember)) × IsSame
          (record s {
            council = c;
            proposals = update s.proposals p.id (some (executed failure p));
          })
          t
  unfolding execute_approved
  execute_approved_ok ctx p s t h =
      let (failure, u, e, k) =
        bind_ok (catch ((handlers p.kind).vote_pass_execute ctx p))
          (λ failure.
            put_proposal p.id (executed failure p)
            >> (handlers p.kind).clean_proposal ctx (executed failure p))
          s t tt h in
      let (c, kept) = (framed p.kind).execute ctx p s in
      let same =
        subst (IsSame (record s { council = c }))
          (ap (λ (r : Result Error (Option Error) × Store R). r.1) e)
          (catch-IsSame ((handlers p.kind).vote_pass_execute ctx p) (record s { council = c }) s
            kept) in
      let f =
        clean-IsSame p.kind ctx (executed failure p)
          (record u { proposals = update u.proposals p.id (some (executed failure p)) }) t k in
      (
        failure,
        c,
        record {
          proposals_eq =
              f.proposals_eq
              ∙ ap (λ m. update m p.id (some (executed failure p))) same.proposals_eq;
          next_eq = f.next_eq ∙ same.next_eq;
          list_eq = f.list_eq ∙ same.list_eq;
          council_eq = f.council_eq ∙ same.council_eq;
        },
      )

  pub conclude_finished_ok :
      (ctx : Ctx) (p : Proposal) (s t : Store R)
      → conclude_finished handlers ctx p s ≡ (ok tt, t)
      → (q : Proposal) × (c : Option (List CouncilMember)) × IsDecided p q
        × IsSame (record (closed p q s) { council = c }) t
  unfolding conclude_finished
  conclude_finished_ok ctx p s t h =
      let s1 : Store R = record s { proposals = update s.proposals p.id (some p) } in
      let Ends : Bool → Store R → Type 0 = λ b u.
        (if b then execute_approved handlers ctx p else (handlers p.kind).clean_proposal ctx p) u
        ≡ (ok tt, t) in
      let (_, u, e, k) =
        bind_ok (remove_not_finished_proposal p.id)
          (λ _.
            if is_approved p.status
            then execute_approved handlers ctx p
            else (handlers p.kind).clean_proposal ctx p)
          s1 t tt h in
      let k' = subst (Ends (is_approved p.status)) (remove_ok p.id s1 u e) k in
      elim (Bool-cases (is_approved p.status)) [
        | inl a ↦
            let (failure, c, f) =
              execute_approved_ok ctx p (closed p p s) t
                (subst (λ b. Ends b (closed p p s)) a k') in
            (
              executed failure p,
              c,
              executed-IsDecided failure p,
              record {
                proposals_eq =
                    f.proposals_eq
                    ∙ update-update s.proposals p.id (some p) (some (executed failure p));
                next_eq = f.next_eq;
                list_eq = f.list_eq;
                council_eq = f.council_eq;
              },
            )
        | inr a ↦ (
          p,
          s.council,
          record { id_eq = refl; status_eq = refl; pass_eq = refl; reject_eq = refl },
          clean-IsSame p.kind ctx p (closed p p s) t (subst (λ b. Ends b (closed p p s)) a k'),
        )
      ]

  -- The end of a vote keeps the invariant.
  pub conclude_ok :
      (next : ℕ) (ctx : Ctx) (p : Proposal) (s t : Store R)
      → IsBoard next s
      → IsProposal p.id next p
      → ((q : Proposal) → s.proposals p.id ≡ some q → p.block_number ≡ q.block_number)
      → conclude handlers ctx p s ≡ (ok tt, t)
      → IsConcluded next p s t
  unfolding conclude
  conclude_ok next ctx p s t (e, v) a d h = elim (Bool-cases (is_finished p.status)) [
    | inl f ↦
        let p' : Proposal = record p { effective_block_number = ctx.block_number } in
        let (q, c', x, same) = conclude_finished_ok ctx p' s t (ground arith) in
        let c =
          close-IsBoard s.proposals next p.id q (listed s.not_finished)
            (record { id_eq = x.id_eq; below = a.below; once = rw (x.pass_eq, x.reject_eq) a.once })
            v in
        record {
          board = same-IsBoard next (record (closed p q s) { council = c' }) t same (e, c);
          saved = (
            q,
            same.proposals_eq,
            record {
              id_eq = x.id_eq;
              status_eq = x.status_eq;
              pass_eq = x.pass_eq;
              reject_eq = x.reject_eq;
            },
          );
          listed_eq = rw (f, same.list_eq) refl;
        }
    | inr f ↦
        let s1 : Store R = record s { proposals = update s.proposals p.id (some p) } in
        let same = clean-IsSame p.kind ctx p s1 t (ground arith) in
        record {
          board = same-IsBoard next s1 t same (
            e,
            put-IsBoard s.proposals next p.id p (listed s.not_finished) a (not_finished p.status f)
                d v,
          );
          saved = (
            p,
            same.proposals_eq,
            record { id_eq = refl; status_eq = refl; pass_eq = refl; reject_eq = refl },
          );
          listed_eq = rw (f, same.list_eq) refl;
        }
  ]
