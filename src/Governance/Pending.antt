-- ===== src/Governance/Pending.antt =====
-- The indexes of what open proposals are about, after a vote: CleanProposal of
-- internal/executor/system/governance/node_manager.go, which Vote of governance.go calls.
use axiom_lib.Common.{
  ℕ, Bool, false, Option, none, some, ◌≡◌, refl, sym, ap, ◌∙◌, subst, if◌then◌else◌, arith,
  Bool-cases, Option-cases, inl, inr, ==_iff,
}
use mathlib.Core.Option.{some_inj}
use axiom_lib.Common.Maps.{update}
use axiom_lib.Common.Action.{ok, bind_ok, ◌>>◌}
use axiom_lib.Governance.Types.{
  ProposalType, node_register, VoteResult, pass, reject, Error, Proposal, Ctx, Store, Handler,
}
use axiom_lib.Governance.Board.{
  is_finished, is_approved, executed, add_vote, put_proposal, remove_not_finished_proposal,
  execute_approved, conclude_finished, conclude, vote, catch,
}
use axiom_lib.Governance.Frame.{IsBoard}
use axiom_lib.Governance.Voting.{counted}
use axiom_lib.Governance.Calls.{vote_steps}
use axiom_lib.Governance.Handlers.Types.{Codec, Rest, RegisterArgs, NodeContract}
use axiom_lib.Governance.Handlers.Nodes.{
  put_pending, clean_register, node_clean, handlers_of, handlers_of-IsFramed,
}

-- The same proposal in what the handlers read.
pub record IsAbout (p q : Proposal) : Type 0 where
  pub kind_eq : q.kind ≡ p.kind
  pub extra_eq : q.extra ≡ p.extra

executed-IsAbout : (failure : Option Error) (p : Proposal) → IsAbout p (executed failure p)
executed-IsAbout none p = record { kind_eq = refl; extra_eq = refl }
executed-IsAbout (some e) p = record { kind_eq = refl; extra_eq = refl }

add_vote-IsAbout : (u : ℕ) (v : VoteResult) (p : Proposal) → IsAbout p (add_vote u v p)
add_vote-IsAbout u pass p = record { kind_eq = refl; extra_eq = refl }
add_vote-IsAbout u reject p = record { kind_eq = refl; extra_eq = refl }

module _ {R : Type 0} (handlers : ProposalType → Handler R) where
  -- What the last call of Vote is.
  abbrev Cleaned : Ctx → Proposal → Store R → Type 0
  Cleaned ctx p t =
      (q : Proposal) × (u : Store R) × IsAbout p q
      × ((handlers p.kind).clean_proposal ctx q u ≡ (ok tt, t))

  approved_cleans :
      (ctx : Ctx) (p : Proposal) (s t : Store R)
      → execute_approved handlers ctx p s ≡ (ok tt, t)
      → Cleaned ctx p t
  unfolding execute_approved
  approved_cleans ctx p s t h =
      let (failure, u, e, k) =
        bind_ok (catch ((handlers p.kind).vote_pass_execute ctx p))
          (λ failure.
            put_proposal p.id (executed failure p)
            >> (handlers p.kind).clean_proposal ctx (executed failure p))
          s t tt h in
      (
        executed failure p,
        record u { proposals = update u.proposals p.id (some (executed failure p)) },
        executed-IsAbout failure p,
        k,
      )

  finished_cleans :
      (ctx : Ctx) (p : Proposal) (s t : Store R)
      → conclude_finished handlers ctx p s ≡ (ok tt, t)
      → Cleaned ctx p t
  unfolding conclude_finished
  finished_cleans ctx p s t h =
      let Ends : Bool → Store R → Type 0 = λ b u.
        (if b then execute_approved handlers ctx p else (handlers p.kind).clean_proposal ctx p) u
        ≡ (ok tt, t) in
      let (_, u, e, k) =
        bind_ok (remove_not_finished_proposal p.id)
          (λ _.
            if is_approved p.status
            then execute_approved handlers ctx p
            else (handlers p.kind).clean_proposal ctx p)
          (record s { proposals = update s.proposals p.id (some p) }) t tt h in
      elim (Bool-cases (is_approved p.status)) [
        | inl a ↦ approved_cleans ctx p u t (subst (λ b. Ends b u) a k)
        | inr a ↦ (p, u, record { kind_eq = refl; extra_eq = refl }, subst (λ b. Ends b u) a k)
      ]

  conclude_cleans :
      (ctx : Ctx) (p : Proposal) (s t : Store R)
      → conclude handlers ctx p s ≡ (ok tt, t)
      → Cleaned ctx p t
  unfolding conclude
  conclude_cleans ctx p s t h = elim (Bool-cases (is_finished p.status)) [
    | inl f ↦
        let (q, u, a, k) =
          finished_cleans ctx (record p { effective_block_number = ctx.block_number }) s t
            (ground arith) in
        (q, u, record { kind_eq = a.kind_eq; extra_eq = a.extra_eq }, k)
    | inr f ↦ (
      p,
      record s { proposals = update s.proposals p.id (some p) },
      record { kind_eq = refl; extra_eq = refl },
      ground arith,
    )
  ]

module _ {N : Type 0} (codec : Codec) (contract : NodeContract N) where
  register_cleaned :
      (q : Proposal) (args : RegisterArgs) (u t : Store (Rest N))
      → codec.register q.extra ≡ some args
      → clean_register codec contract q u ≡ (ok tt, t)
      → t.rest.pending_names args.name ≡ false
  unfolding clean_register put_pending
  register_cleaned q args u t c h = elim (Option-cases (codec.check_node_info args)) [
    | inl e ↦ absurd (ground (arith, c, e))
    | inr (i, e) ↦ ground (arith, c, e, ==_iff args.name args.name)
  ]

  clean_is_register :
      (k : ProposalType) (ctx : Ctx) (q : Proposal) (u : Store (Rest N))
      → k ≡ node_register
      → q.kind ≡ node_register
      → (handlers_of codec contract k).clean_proposal ctx q u ≡ clean_register codec contract q u
  unfolding node_clean
  clean_is_register k ctx q u e e' = rw (e, e') refl

  -- After a successful vote on a proposal to register a node, whatever the vote decides, the name of
  -- the node is not pending: another proposal may take it although this one is still voted on.
  pub vote_releases_name :
      (next i : ℕ) (v : VoteResult) (ctx : Ctx) (p : Proposal) (args : RegisterArgs)
      (s t : Store (Rest N))
      → IsBoard next s
      → s.proposals i ≡ some p
      → p.kind ≡ node_register
      → codec.register p.extra ≡ some args
      → vote (handlers_of codec contract) i v ctx s ≡ (ok tt, t)
      → t.rest.pending_names args.name ≡ false
  vote_releases_name next i v ctx p args s t b e k c h =
      let (p', members, _, x) =
        vote_steps (handlers_of codec contract) (handlers_of-IsFramed codec contract) next i v ctx s
          t b h in
      let same : p ≡ p' = some_inj.0 (sym e ∙ x.found) in
      let r = counted v ctx.from members p' in
      let a = add_vote-IsAbout ctx.from v p' in
      let (q, u, a', d) = conclude_cleans (handlers_of codec contract) ctx r _ t x.concluded in
      let kind_eq : r.kind ≡ node_register =
        a.kind_eq ∙ (ap (λ y. Proposal.kind y) (sym same) ∙ k) in
      register_cleaned q args u t
        (ap codec.register (a'.extra_eq ∙ (a.extra_eq ∙ ap (λ y. Proposal.extra y) (sym same))) ∙ c)
        (sym (clean_is_register r.kind ctx q u kind_eq (a'.kind_eq ∙ kind_eq)) ∙ d)
