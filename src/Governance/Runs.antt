-- ===== src/Governance/Runs.antt =====
-- Runs of calls of the governance contract, from GenesisInit on; the EVM undoes a call that fails
-- (internal/executor/system/governance/governance.go).
use axiom_lib.Common.{
  ℕ, ◌+◌, ◌<◌, ◌≤◌, none, some, List, [], ◌∷◌, ◌≡◌, ◌⊎◌, refl, sym, ap, ◌∙◌, subst, arith, length,
  inl, inr,
}
use axiom_lib.Common.Words.{u64_mod}
use axiom_lib.Common.Action.{Action, Result, ok, err}
use axiom_lib.Governance.Types.{
  Bytes, approved, ProposalType, VoteResult, Error, CouncilMember, Proposal, Ctx, Store, Handler,
}
use axiom_lib.Governance.Board.{propose, vote}
use axiom_lib.Governance.Frame.{IsFramed, IsBoard, IsPassed}
use axiom_lib.Governance.Votes.{vote-IsBoard, vote_keeps_approved, voting-approved}
use axiom_lib.Governance.Proposing.{propose_ok, propose_others}

-- The calls that write the contract's state.
pub data Call : Type 0 where
  propose_call : ProposalType → Bytes → Bytes → ℕ → Bytes → Call
  vote_call : ℕ → VoteResult → Call

-- GenesisInit, and that of CouncilManager
unfoldable pub genesis_init : {R : Type 0} → List CouncilMember → R → Store R
genesis_init members rest = record {
  council = some members;
  next_proposal_id = some 1;
  proposals = λ _. none;
  not_finished = none;
  rest = rest;
}

pub genesis_init-IsBoard :
    {R : Type 0} (members : List CouncilMember) (rest : R) → IsBoard 1 (genesis_init members rest)
unfolding genesis_init
genesis_init-IsBoard members rest =
    (refl, record { stored = λ i p e. absurd (ground arith); opened = tt })

module _ {R : Type 0} where
  -- The state that stays after a call.
  abbrev pub settle : Store R → Result Error (Unit {0}) × Store R → Store R
  settle s (ok _, t) = t
  settle s (err _, t) = s

  settle-cases :
      (s : Store R) (r : Result Error (Unit {0}) × Store R)
      → (r ≡ (ok tt, settle s r)) ⊎ (settle s r ≡ s)
  settle-cases s (ok tt, t) = inl refl
  settle-cases s (err e, t) = inr refl

  module _ (handlers : ProposalType → Handler R) where
    unfoldable pub run_call : Ctx → Call → Action (Store R) Error (Unit {0})
    run_call ctx (propose_call kind title desc b extra) =
        propose handlers ctx kind title desc b extra
    run_call ctx (vote_call i v) = vote handlers i v ctx

    abbrev pub run_calls : List (Ctx × Call) → Store R → Store R
    run_calls [] s = s
    run_calls ((ctx, c) ∷ cs) s = run_calls cs (settle s (run_call ctx c s))

    -- The invariant holds after the calls, with at most one new id for each.
    abbrev pub KeepsBoard : ℕ → List (Ctx × Call) → Store R → Type 0
    KeepsBoard next cs s = (next' : ℕ) × IsBoard next' (run_calls cs s) × (next' ≤ next + length cs)

    module _ (framed : (k : ProposalType) → IsFramed (handlers k)) where
      call-IsBoard :
          (next : ℕ) (ctx : Ctx) (c : Call) (s t : Store R)
          → IsBoard next s
          → next + 1 < u64_mod
          → run_call ctx c s ≡ (ok tt, t)
          → (next' : ℕ) × IsBoard next' t × (next' ≤ next + 1)
      unfolding run_call
      call-IsBoard next ctx (propose_call kind title desc b extra) s t v lt h = (
        next + 1,
        (propose_ok handlers framed next ctx kind title desc b extra s t v lt h).board,
        omega arith,
      )
      call-IsBoard next ctx (vote_call i v) s t b lt h =
          (next, vote-IsBoard handlers framed next i v ctx s t b h, omega arith)

      call_keeps_approved :
          (next : ℕ) (ctx : Ctx) (c : Call) (s t : Store R) (i : ℕ) (p : Proposal)
          → IsBoard next s
          → run_call ctx c s ≡ (ok tt, t)
          → s.proposals i ≡ some p
          → p.status ≡ approved
          → t.proposals i ≡ some p
      unfolding run_call
      call_keeps_approved next ctx (propose_call kind title desc b extra) s t i p v h e a =
          stays (propose_others handlers framed next ctx kind title desc b extra s t i p v h e)
        where
          stays : (q : Proposal) × (t.proposals i ≡ some q) × IsPassed p q → t.proposals i ≡ some p
          stays (q, k, inl c) = k ∙ ap some c
          stays (q, k, inr (o, c)) = absurd (voting-approved (sym o ∙ a))
      call_keeps_approved next ctx (vote_call j v) s t i p b h e a =
          vote_keeps_approved handlers framed next j v ctx s t i p b h e a

      -- Whatever is called in whatever order, the invariant of the contract holds, as long as the ids
      -- do not wrap: each stored proposal has its key as its id, which was given out, no account has two
      -- votes on it, and each listed proposal is being voted on until the deadline of its entry.
      pub run_calls-IsBoard :
          (next : ℕ) (cs : List (Ctx × Call)) (s : Store R)
          → IsBoard next s
          → next + length cs < u64_mod
          → KeepsBoard next cs s
      run_calls-IsBoard next [] s v lt = (next, v, omega arith)
      run_calls-IsBoard next ((ctx, c) ∷ cs) s v lt = elim (settle-cases s (run_call ctx c s)) [
        | inl e ↦
            let (n, b, le) =
              call-IsBoard next ctx c s (settle s (run_call ctx c s)) v (omega arith) e in
            let (n', b', le') =
              run_calls-IsBoard n cs (settle s (run_call ctx c s)) b (omega arith) in
            (n', b', omega arith)
        | inr e ↦
            let (n', b', le') =
              run_calls-IsBoard next cs (settle s (run_call ctx c s))
                (subst (IsBoard next) (sym e) v) (omega arith) in
            (n', b', omega arith)
      ]

      -- Whatever is called afterwards, an approved proposal stays as it is: no more votes and no
      -- other status.
      pub approved_is_final :
          (next : ℕ) (cs : List (Ctx × Call)) (s : Store R) (i : ℕ) (p : Proposal)
          → IsBoard next s
          → next + length cs < u64_mod
          → s.proposals i ≡ some p
          → p.status ≡ approved
          → (run_calls cs s).proposals i ≡ some p
      approved_is_final next [] s i p v lt f a = f
      approved_is_final next ((ctx, c) ∷ cs) s i p v lt f a =
          elim (settle-cases s (run_call ctx c s)) [
            | inl e ↦
                let (n, b, le) =
                  call-IsBoard next ctx c s (settle s (run_call ctx c s)) v (omega arith) e in
                approved_is_final n cs (settle s (run_call ctx c s)) i p b (omega arith)
                  (call_keeps_approved next ctx c s (settle s (run_call ctx c s)) i p v e f a) a
            | inr e ↦
                approved_is_final next cs (settle s (run_call ctx c s)) i p
                  (subst (IsBoard next) (sym e) v) (omega arith)
                  (ap (λ (x : Store R). x.proposals i) e ∙ f) a
          ]
