-- ===== src/Governance/Proposing.antt =====
-- What a successful call of Propose does: internal/executor/system/governance/governance.go.
use axiom_lib.Common.{
  ℕ, ◌+◌, ◌<◌, ◌≤◌, Bool, true, false, not, Option, none, some, List, [], ◌∷◌, ◌++◌, ◌≡◌, refl, sym,
  ap, ◌∙◌, subst, if◌then◌else◌, arith, Option-cases, inl, inr, length,
}
use axiom_lib.Common.Maps.{update, update_self, update_ne}
use axiom_lib.Common.Words.{u64_mod, add64}
use axiom_lib.Common.Action.{Action, Result, ok, bind_ok, raise_if, ◌>>◌, ◌>>=◌}
use axiom_lib.Governance.Types.{
  Bytes, voting, ProposalType, Error, no_permission, CouncilMember, Proposal, Ctx, Store, Handler,
}
use axiom_lib.Governance.Members.{is_member, sum_weights, is_council_member, total_votes}
use axiom_lib.Governance.Board.{
  max_title_length, max_desc_length, unique, listed, check_and_update_state, check_propose_args,
  add_not_finished_proposal, create_proposal, enter_proposal, propose,
}
use axiom_lib.Governance.Laws.{IsProposal, create-IsBoard}
use axiom_lib.Governance.Frame.{IsSame-trans, IsSame, IsFramed, IsBoard, IsPassed, same-IsBoard}
use axiom_lib.Governance.Overdue.{check_and_update_ok}

-- The proposal that a call creates.
abbrev pub created : ℕ → Ctx → ℕ → ProposalType → Bytes → Bytes → ℕ → Bytes → Bool → Proposal
created id ctx total kind title desc block_number extra include_user = record {
  id = id;
  kind = kind;
  strategy = 0;
  proposer = ctx.from;
  title = title;
  desc = desc;
  block_number = block_number;
  total_votes = total;
  pass_votes = if include_user then ctx.from ∷ [] else [];
  reject_votes = [];
  status = voting;
  extra = extra;
  created_block_number = ctx.block_number;
  effective_block_number = 0;
  execute_success = false;
  execute_failed_msg = none;
}

-- The arguments that CheckProposeArgs lets through.
pub record IsAdmitted (title desc : Bytes) (block_number height : ℕ) : Type 0 where
  pub titled : 0 < length title
  pub short_title : length title ≤ max_title_length
  pub described : 0 < length desc
  pub short_desc : length desc ≤ max_desc_length
  pub dated : 0 < block_number
  pub in_time : height ≤ block_number

module _ {R : Type 0} where
  check_args_ok :
      (title desc : Bytes) (b h : ℕ) (s t : Store R)
      → check_propose_args title desc b h s ≡ (ok tt, t)
      → IsAdmitted title desc b h × (s ≡ t)
  unfolding check_propose_args
  check_args_ok title desc b h s t e = (
    record {
      titled = ground arith;
      short_title = ground arith;
      described = ground arith;
      short_desc = ground arith;
      dated = ground arith;
      in_time = ground arith;
    },
    ground arith,
  )

  -- What createProposal writes.
  create_ok :
      (next : ℕ) (ctx : Ctx) (total : ℕ) (kind : ProposalType) (title desc : Bytes) (b : ℕ)
      (extra : Bytes) (may : Bool) (s t : Store R)
      → s.next_proposal_id ≡ some next
      → create_proposal ctx total kind title desc b extra may s ≡ (ok tt, t)
      → t ≡ record s {
        next_proposal_id = some (add64 next 1);
        proposals =
            update s.proposals next (some (created next ctx total kind title desc b extra may));
        not_finished = some (
            unique (listed s.not_finished ++ record { id = next; deadline = b; kind = kind } ∷ []));
      }
  unfolding create_proposal add_not_finished_proposal
  create_ok next ctx total kind title desc b extra may s t e h = ground arith

  enter_ok :
      (next : ℕ) (ctx : Ctx) (kind : ProposalType) (title desc : Bytes) (b : ℕ) (extra : Bytes)
      (s t : Store R)
      → s.next_proposal_id ≡ some next
      → enter_proposal ctx kind title desc b extra s ≡ (ok tt, t)
      → (members : List CouncilMember) × (s.council ≡ some members)
        × (t ≡ record s {
          next_proposal_id = some (add64 next 1);
          proposals = update s.proposals next (
              some (
                created next ctx
                  (sum_weights (λ _. true) members)
                  kind
                  title
                  desc
                  b
                  extra
                  (is_member ctx.from members)));
          not_finished = some (
              unique
                (listed s.not_finished ++ record { id = next; deadline = b; kind = kind } ∷ []));
        })
  unfolding enter_proposal total_votes is_council_member
  enter_ok next ctx kind title desc b extra s t e h = elim (Option-cases s.council) [
    | inl c ↦ absurd (ground arith)
    | inr (members, c) ↦ (
      members,
      c,
      create_ok next ctx (sum_weights (λ _. true) members) kind title desc b extra
          (is_member ctx.from members) s t e (ground arith),
    )
  ]

-- What a successful call of Propose means.
pub record IsProposed {R : Type 0} (next : ℕ) (ctx : Ctx) (kind : ProposalType) (title desc : Bytes)
    (b : ℕ) (extra : Bytes) (s t : Store R) : Type 0 where
  pub board : IsBoard (next + 1) t
  pub admitted : IsAdmitted title desc b ctx.block_number
  pub stored :
      (members : List CouncilMember) × (s.council ≡ some members)
      × (t.proposals next
          ≡ some (
              created next ctx
                (sum_weights (λ _. true) members)
                kind
                title
                desc
                b
                extra
                (is_member ctx.from members)))

allowed_ok :
    {R : Type 0} (permitted : Bool) (m : Action (Store R) Error (Unit {0})) (s t : Store R)
    → (raise_if (not permitted) no_permission >> m) s ≡ (ok tt, t)
    → m s ≡ (ok tt, t)
allowed_ok true m s t h = h
allowed_ok false m s t h = absurd (ground arith)

created-IsProposal :
    (next : ℕ) (ctx : Ctx) (total : ℕ) (kind : ProposalType) (title desc : Bytes) (b : ℕ)
    (extra : Bytes) (may : Bool)
    → IsProposal next (next + 1) (created next ctx total kind title desc b extra may)
created-IsProposal next ctx total kind title desc b extra true = record {
  id_eq = refl;
  below = omega arith;
  once = (refl, tt);
}
created-IsProposal next ctx total kind title desc b extra false = record {
  id_eq = refl;
  below = omega arith;
  once = tt;
}

module _ {R : Type 0} (handlers : ProposalType → Handler R)
    (framed : (k : ProposalType) → IsFramed (handlers k)) where
  propose_steps :
      (ctx : Ctx) (kind : ProposalType) (title desc : Bytes) (b : ℕ) (extra : Bytes) (s t : Store R)
      → propose handlers ctx kind title desc b extra s ≡ (ok tt, t)
      → (u : Store R) × (w : Store R) × (check_and_update_state handlers ctx s ≡ (ok tt, u))
        × IsAdmitted title desc b ctx.block_number
        × IsSame u w
        × (enter_proposal ctx kind title desc b extra w ≡ (ok tt, t))
  unfolding propose
  propose_steps ctx kind title desc b extra s t h =
      let enter : Action (Store R) Error (Unit {0}) = enter_proposal ctx kind title desc b extra in
      let allow : Action (Store R) Error (Unit {0}) =
        (handlers kind).propose_permission_check ctx kind >>= λ permitted.
        raise_if (not permitted) no_permission >> enter in
      let ask : Action (Store R) Error (Unit {0}) =
        (handlers kind).propose_args_check ctx kind title desc b extra >> allow in
      let (_, u, e, k) =
        bind_ok (check_and_update_state handlers ctx)
          (λ _. check_propose_args title desc b ctx.block_number >> ask) s t tt h in
      let (_, u', e', k') =
        bind_ok (check_propose_args title desc b ctx.block_number) (λ _. ask) u t tt k in
      let (admitted, same) = check_args_ok title desc b ctx.block_number u u' e' in
      let (_, v, e2, k2) =
        bind_ok ((handlers kind).propose_args_check ctx kind title desc b extra) (λ _. allow) u' t
          tt k' in
      let (permitted, w, e3, k3) =
        bind_ok ((handlers kind).propose_permission_check ctx kind)
          (λ permitted. raise_if (not permitted) no_permission >> enter) v t tt k2 in
      let f =
        subst (IsSame u') (ap (λ (r : Result Error (Unit {0}) × Store R). r.1) e2)
          ((framed kind).check ctx kind title desc b extra u') in
      let g =
        subst (IsSame v) (ap (λ (r : Result Error Bool × Store R). r.1) e3)
          ((framed kind).permission ctx kind v) in
      (
        u,
        w,
        e,
        admitted,
        subst (λ x. IsSame x w) (sym same) (IsSame-trans f g),
        allowed_ok permitted enter w t k3,
      )

  -- A successful Propose had admitted arguments; it keeps the invariant with the next id, and stores
  -- the new proposal under the id that was next, with the weight of the whole council and the vote of a
  -- proposer who is a member.
  pub propose_ok :
      (next : ℕ) (ctx : Ctx) (kind : ProposalType) (title desc : Bytes) (b : ℕ) (extra : Bytes)
      (s t : Store R)
      → IsBoard next s
      → next + 1 < u64_mod
      → propose handlers ctx kind title desc b extra s ≡ (ok tt, t)
      → IsProposed next ctx kind title desc b extra s t
  propose_ok next ctx kind title desc b extra s t v lt h =
      let (u, w, e, admitted, same, entered) = propose_steps ctx kind title desc b extra s t h in
      let (kept, _) = check_and_update_ok handlers framed next ctx s u v e in
      let (next_eq, board) = same-IsBoard next u w same kept.board in
      let (members, c, f) = enter_ok next ctx kind title desc b extra w t next_eq entered in
      let p =
        created next ctx (sum_weights (λ _. true) members) kind title desc b extra
          (is_member ctx.from members) in
      let proposals_eq = ap (λ (x : Store R). x.proposals) f in
      record {
        board = subst (IsBoard (next + 1)) (sym f) (
          ap some (omega arith),
          create-IsBoard w.proposals next (next + 1) p
              (record { id = next; deadline = b; kind = kind }) (listed w.not_finished)
              (created-IsProposal next ctx (sum_weights (λ _. true) members) kind title desc b extra
                (is_member ctx.from members))
              (omega arith) refl refl refl board,
        );
        admitted = admitted;
        stored = (
          members,
          sym kept.council_eq ∙ (sym same.council_eq ∙ c),
          ap (λ (m : ℕ → Option Proposal). m next) proposals_eq
              ∙ update_self w.proposals next (some p),
        );
      }

  -- A successful Propose leaves the other proposals alone, but for overdue ones.
  pub propose_others :
      (next : ℕ) (ctx : Ctx) (kind : ProposalType) (title desc : Bytes) (b : ℕ) (extra : Bytes)
      (s t : Store R) (i : ℕ) (p : Proposal)
      → IsBoard next s
      → propose handlers ctx kind title desc b extra s ≡ (ok tt, t)
      → s.proposals i ≡ some p
      → (q : Proposal) × (t.proposals i ≡ some q) × IsPassed p q
  propose_others next ctx kind title desc b extra s t i p v h k =
      let (u, w, e, _, same, entered) = propose_steps ctx kind title desc b extra s t h in
      let (kept, _) = check_and_update_ok handlers framed next ctx s u v e in
      let (next_eq, board) = same-IsBoard next u w same kept.board in
      let (members, _, f) = enter_ok next ctx kind title desc b extra w t next_eq entered in
      let new =
        created next ctx (sum_weights (λ _. true) members) kind title desc b extra
          (is_member ctx.from members) in
      let (r, l, x) = kept.passed i p k in
      let found = ap (λ (m : ℕ → Option Proposal). m i) same.proposals_eq ∙ l in
      (
        r,
        ap (λ (y : Store R). y.proposals i) f
            ∙ (update_ne w.proposals next i (some new)
                  (λ z. omega (arith, (board.stored i r found).below, z))
                ∙ found),
        x,
      )
