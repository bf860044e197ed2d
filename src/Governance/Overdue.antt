-- ===== src/Governance/Overdue.antt =====
-- Rejecting the overdue proposals: checkAndUpdateState of internal/executor/system/governance/governance.go.
use axiom_lib.Common.{
  ℕ, Bool, true, some, List, [], ◌∷◌, ◌≡◌, refl, sym, ap, ◌∙◌, subst, ◌==◌, if◌then◌else◌, All,
  Bool-cases, inl, inr, ==_iff, leb,
}
use mathlib.Core.Option.{some_inj}
use axiom_lib.Common.Maps.{update}
use axiom_lib.Common.Action.{Result, ◌>>◌, ok, bind_ok, pure}
use axiom_lib.Governance.Types.{
  voting, rejected, ProposalType, Error, Proposal, NotFinishedProposal, Ctx, Store, Handler,
}
use axiom_lib.Governance.Board.{
  without_id, listed, is_finished, get_proposal, remove_not_finished_proposal, reject_proposal,
  reject_overdue, reject_all_overdue, check_and_update_state,
}
use axiom_lib.Governance.Laws.{close-IsBoard}
use axiom_lib.Governance.Frame.{
  IsSame, IsFramed, IsBoard, NotIn, IsChecked, finished-NotIn, same-IsBoard, remove_ok,
  get_proposal_ok, same-IsChecked, IsChecked-trans, without_id-NotIn, without_id-shrinks,
  not_finished,
}

module _ {R : Type 0} where
  module _ (handlers : ProposalType → Handler R)
      (framed : (k : ProposalType) → IsFramed (handlers k)) where
    clean-IsSame :
        (k : ProposalType) (ctx : Ctx) (p : Proposal) (s t : Store R)
        → (handlers k).clean_proposal ctx p s ≡ (ok tt, t)
        → IsSame s t
    clean-IsSame k ctx p s t h = subst (IsSame s) (ap (λ r. r.1) h) ((framed k).clean ctx p s)

    -- Storing a finished proposal and taking it off the list.
    reject_proposal_ok :
        (ctx : Ctx) (n : NotFinishedProposal) (p : Proposal) (s t : Store R)
        → reject_proposal handlers ctx n p s ≡ (ok tt, t)
        → IsSame
            (record s {
              proposals = update s.proposals n.id (some (record p { status = rejected }));
              not_finished = some (without_id n.id (listed s.not_finished));
            })
            t
    unfolding reject_proposal
    reject_proposal_ok ctx n p s t h =
        let s1 = record s {
          proposals = update s.proposals n.id (some (record p { status = rejected }));
        } in
        let (_, s2, e, k) =
          bind_ok (remove_not_finished_proposal n.id)
            (λ _. (handlers p.kind).clean_proposal ctx (record p { status = rejected })) s1 t tt
            h in
        subst (λ u. IsSame u t) (remove_ok n.id s1 s2 e)
          (clean-IsSame p.kind ctx (record p { status = rejected }) s2 t k)

    -- Rejecting an overdue proposal that is being voted on.
    closed_ok :
        (next : ℕ) (n : NotFinishedProposal) (p : Proposal) (s t : Store R)
        → IsBoard next s
        → s.proposals n.id ≡ some p
        → p.status ≡ voting
        → IsSame
            (record s {
              proposals = update s.proposals n.id (some (record p { status = rejected }));
              not_finished = some (without_id n.id (listed s.not_finished));
            })
            t
        → IsChecked next s t × NotIn n.id (listed t.not_finished)
    closed_ok next n p s t (e, v) h w f =
        let p' : Proposal = record p { status = rejected } in
        let s' : Store R = record s {
          proposals = update s.proposals n.id (some p');
          not_finished = some (without_id n.id (listed s.not_finished));
        } in
        let a = v.stored n.id p h in
        (
          record {
            board = same-IsBoard next s' t f (
              e,
              close-IsBoard s.proposals next n.id p' (listed s.not_finished)
                  (record { id_eq = a.id_eq; below = a.below; once = a.once }) v,
            );
            passed = λ i q k. elim (Bool-cases (i == n.id)) [
              | inl c ↦
                  let same : p ≡ q =
                    some_inj.0 (sym h ∙ (ap s.proposals (sym ((==_iff i n.id).0 c)) ∙ k)) in
                  (
                    p',
                    rw (f.proposals_eq, c) refl,
                    inr (
                      ap (λ x. Proposal.status x) (sym same) ∙ w,
                      ap (λ (x : Proposal). record x { status = rejected }) same,
                    ),
                  )
              | inr c ↦ (q, rw (f.proposals_eq, c) k, inl refl)
            ];
            shrinks = λ i k. rw f.list_eq (without_id-shrinks n.id i (listed s.not_finished) k);
            council_eq = f.council_eq;
          },
          rw f.list_eq (without_id-NotIn n.id (listed s.not_finished)),
        )

    turn_ok :
        (next : ℕ) (ctx : Ctx) (n : NotFinishedProposal) (p : Proposal) (s t : Store R)
        → IsBoard next s
        → s.proposals n.id ≡ some p
        → (if is_finished p.status then pure tt else reject_proposal handlers ctx n p) s
          ≡ (ok tt, t)
        → IsChecked next s t × NotIn n.id (listed t.not_finished)
    turn_ok next ctx n p s t v e h = elim (Bool-cases (is_finished p.status)) [
      | inl f ↦
          subst (λ x. IsChecked next s x × NotIn n.id (listed x.not_finished))
            (ap (λ (r : Result Error (Unit {0}) × Store R). r.1)
              (subst (λ b. (if b then pure tt else reject_proposal handlers ctx n p) s ≡ (ok tt, t))
                f h))
            (same-IsChecked next s v, finished-NotIn s.proposals n.id p _ e f v.1.opened)
      | inr f ↦ closed_ok next n p s t v e (not_finished p.status f) (
          reject_proposal_ok ctx n p s t (
            subst (λ b. (if b then pure tt else reject_proposal handlers ctx n p) s ≡ (ok tt, t)) f
              h))
    ]

    reject_overdue_ok :
        (next : ℕ) (ctx : Ctx) (n : NotFinishedProposal) (s t : Store R)
        → IsBoard next s
        → reject_overdue handlers ctx n s ≡ (ok tt, t)
        → IsChecked next s t × NotIn n.id (listed t.not_finished)
    unfolding reject_overdue
    reject_overdue_ok next ctx n s t v h =
        let (p, u, e, k) =
          bind_ok (get_proposal n.id)
            (λ q. if is_finished q.status then pure tt else reject_proposal handlers ctx n q) s t tt
            h in
        let (same, found) = get_proposal_ok n.id p s u e in
        turn_ok next ctx n p s t v found (
          subst
            (λ x.
              (if is_finished p.status then pure tt else reject_proposal handlers ctx n p) x
              ≡ (ok tt, t))
            same k)

    -- The overdue entries are gone when the loop ends.
    reject_all_overdue_ok :
        (next : ℕ) (ctx : Ctx) (ns : List NotFinishedProposal) (s t : Store R)
        → IsBoard next s
        → reject_all_overdue handlers ctx ns s ≡ (ok tt, t)
        → IsChecked next s t
          × All
              (λ n. leb n.deadline ctx.block_number ≡ true → NotIn n.id (listed t.not_finished))
              ns
    reject_all_overdue_ok next ctx [] s t v h =
        (subst (IsChecked next s) (ap (λ r. r.1) h) (same-IsChecked next s v), tt)
    reject_all_overdue_ok next ctx (n ∷ ns) s t v h =
        let Taken : Bool → Type 0 = λ b.
          (if b
              then reject_overdue handlers ctx n >> reject_all_overdue handlers ctx ns
              else reject_all_overdue handlers ctx ns)
            s
          ≡ (ok tt, t) in
        elim (Bool-cases (leb n.deadline ctx.block_number)) [
          | inl d ↦
              let (_, u, e, k) =
                bind_ok (reject_overdue handlers ctx n) (λ _. reject_all_overdue handlers ctx ns) s
                  t tt (subst Taken d h) in
              let (c, gone) = reject_overdue_ok next ctx n s u v e in
              let (c', rest) = reject_all_overdue_ok next ctx ns u t c.board k in
              (IsChecked-trans next s u t c c', (λ _. c'.shrinks n.id gone, rest))
          | inr d ↦
              let (c, rest) = reject_all_overdue_ok next ctx ns s t v (subst Taken d h) in
              (c, (λ x. absurd (cc), rest))
        ]

    -- After checkAndUpdateState no listed proposal is overdue.
    pub check_and_update_ok :
        (next : ℕ) (ctx : Ctx) (s t : Store R)
        → IsBoard next s
        → check_and_update_state handlers ctx s ≡ (ok tt, t)
        → IsChecked next s t
          × All
              (λ n. leb n.deadline ctx.block_number ≡ true → NotIn n.id (listed t.not_finished))
              (listed s.not_finished)
    unfolding check_and_update_state
    check_and_update_ok next ctx s t v h =
        reject_all_overdue_ok next ctx (listed s.not_finished) s t v h
