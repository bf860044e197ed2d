-- ===== src/Governance/Frame.antt =====
-- What the handlers of the governance contract leave alone, and what its calls keep of the proposals
-- (internal/executor/system/governance/governance.go).
use axiom_lib.Common.{
  ℕ, true, false, Option, some, List, [], ◌∷◌, ◌≡◌, ◌≢◌, ◌⊎◌, refl, sym, ap, ◌∙◌, subst, ◌==◌,
  arith, All, Bool-cases, Option-cases, inl, inr, ==_iff,
}
use mathlib.Core.Option.{some_inj}
use axiom_lib.Common.Action.{ok}
use axiom_lib.Governance.Types.{
  CouncilMember, Bytes, ProposalStatus, voting, approved, rejected, ProposalType, Proposal,
  NotFinishedProposal, Ctx, Store, Handler,
}
use axiom_lib.Governance.Board.{
  without_id, listed, is_finished, get_proposal, remove_not_finished_proposal,
}
use axiom_lib.Governance.Laws.{without_id-All, IsOpen, IsBoardOf}

-- The proposals and the council stay as they are.
pub record IsSame {R : Type 0} (s t : Store R) : Type 0 where
  pub proposals_eq : t.proposals ≡ s.proposals
  pub next_eq : t.next_proposal_id ≡ s.next_proposal_id
  pub list_eq : t.not_finished ≡ s.not_finished
  pub council_eq : t.council ≡ s.council

pub IsSame-refl : {R : Type 0} (s : Store R) → IsSame s s
IsSame-refl s = record { proposals_eq = refl; next_eq = refl; list_eq = refl; council_eq = refl }

pub IsSame-trans : {R : Type 0} {s t u : Store R} → IsSame s t → IsSame t u → IsSame s u
IsSame-trans a b = record {
  proposals_eq = b.proposals_eq ∙ a.proposals_eq;
  next_eq = b.next_eq ∙ a.next_eq;
  list_eq = b.list_eq ∙ a.list_eq;
  council_eq = b.council_eq ∙ a.council_eq;
}

-- A handler leaves the proposals alone, also where it fails; only executing one may put a council.
pub record IsFramed {R : Type 0} (h : Handler R) : Type 0 where
  pub check :
      (ctx : Ctx) (k : ProposalType) (title desc : Bytes) (d : ℕ) (extra : Bytes) (s : Store R)
      → IsSame s (h.propose_args_check ctx k title desc d extra s).1
  pub permission :
      (ctx : Ctx) (k : ProposalType) (s : Store R) → IsSame s (h.propose_permission_check ctx k s).1
  pub execute :
      (ctx : Ctx) (p : Proposal) (s : Store R)
      → (c : Option (List CouncilMember)) × IsSame
          (record s { council = c })
          (h.vote_pass_execute ctx p s).1
  pub clean : (ctx : Ctx) (p : Proposal) (s : Store R) → IsSame s (h.clean_proposal ctx p s).1

-- The invariant of the contract.
abbrev pub IsBoard : {R : Type 0} → ℕ → Store R → Type 0
IsBoard next s =
    (s.next_proposal_id ≡ some next) × IsBoardOf s.proposals next (listed s.not_finished)

pub not_finished : (s : ProposalStatus) → is_finished s ≡ false → s ≡ voting
not_finished voting h = refl
not_finished approved h = absurd (cc)
not_finished rejected h = absurd (cc)

-- What rejecting the overdue proposals does to a stored proposal.
abbrev pub IsPassed : Proposal → Proposal → Type 0
IsPassed p q = (q ≡ p) ⊎ ((p.status ≡ voting) × (q ≡ record p { status = rejected }))

-- No entry has this id.
abbrev pub NotIn : ℕ → List NotFinishedProposal → Type 0
NotIn i ns = All (λ n. n.id ≢ i) ns

-- After some overdue proposals are rejected.
pub record IsChecked {R : Type 0} (next : ℕ) (s t : Store R) : Type 0 where
  pub board : IsBoard next t
  pub passed :
      (i : ℕ) (p : Proposal)
      → s.proposals i ≡ some p
      → (q : Proposal) × (t.proposals i ≡ some q) × IsPassed p q
  pub shrinks : (i : ℕ) → NotIn i (listed s.not_finished) → NotIn i (listed t.not_finished)
  pub council_eq : t.council ≡ s.council

pub without_id-NotIn : (i : ℕ) (ns : List NotFinishedProposal) → NotIn i (without_id i ns)
without_id-NotIn i [] = tt
without_id-NotIn i (n ∷ ns) = elim (Bool-cases (n.id == i)) [
  | inl e ↦ rw e (without_id-NotIn i ns)
  | inr e ↦ rw e (ground (arith, ==_iff n.id i), without_id-NotIn i ns)
]

pub without_id-absent : (i : ℕ) (ns : List NotFinishedProposal) → NotIn i ns → without_id i ns ≡ ns
without_id-absent i [] h = refl
without_id-absent i (n ∷ ns) (h, hs) = elim (Bool-cases (n.id == i)) [
  | inl e ↦ absurd (h ((==_iff n.id i).0 e))
  | inr e ↦ rw e (ap (λ l. n ∷ l) (without_id-absent i ns hs))
]

pub without_id-shrinks :
    (i j : ℕ) (ns : List NotFinishedProposal) → NotIn j ns → NotIn j (without_id i ns)
without_id-shrinks i j ns h = without_id-All (λ n. n.id ≢ j) i ns h

finished_not_voting : (p q : Proposal) → p ≡ q → is_finished p.status ≡ true → q.status ≡ voting → ⊥
finished_not_voting p q c f v =
    false_not_true (subst (λ x. is_finished x ≡ true) (ap (λ x. Proposal.status x) c ∙ v) f)
  where
    false_not_true : false ≡ true → ⊥
    false_not_true h = cc

-- A finished proposal has no entry.
pub finished-NotIn :
    (m : ℕ → Option Proposal) (i : ℕ) (p : Proposal) (ns : List NotFinishedProposal)
    → m i ≡ some p
    → is_finished p.status ≡ true
    → All (IsOpen m) ns
    → NotIn i ns
finished-NotIn m i p [] e f h = tt
finished-NotIn m i p (n ∷ ns) e f ((q, k, v, d), hs) = (
  λ c. finished_not_voting p q (some_inj.0 (sym e ∙ (ap m (sym c) ∙ k))) f v,
  finished-NotIn m i p ns e f hs,
)

IsPassed-trans : (p q r : Proposal) → IsPassed p q → IsPassed q r → IsPassed p r
IsPassed-trans p q r (inl a) (inl c) = inl (c ∙ a)
IsPassed-trans p q r (inl a) (inr (v, c)) = inr (
  ap (λ x. Proposal.status x) (sym a) ∙ v,
  c ∙ ap (λ (x : Proposal). record x { status = rejected }) a,
)
IsPassed-trans p q r (inr (v, a)) (inl c) = inr (v, c ∙ a)
IsPassed-trans p q r (inr (v, a)) (inr (w, c)) =
    inr (v, c ∙ ap (λ (x : Proposal). record x { status = rejected }) a)

module _ {R : Type 0} where
  pub same-IsBoard : (next : ℕ) (s t : Store R) → IsSame s t → IsBoard next s → IsBoard next t
  same-IsBoard next s t f (e, v) = rw (f.proposals_eq, f.next_eq, f.list_eq) (e, v)

  -- What removeNotFinishedProposal leaves where it succeeds.
  pub remove_ok :
      (i : ℕ) (s t : Store R)
      → remove_not_finished_proposal i s ≡ (ok tt, t)
      → t ≡ record s { not_finished = some (without_id i (listed s.not_finished)) }
  unfolding remove_not_finished_proposal
  remove_ok i s t h = ground arith

  -- An entry that is not there cannot be taken off.
  pub remove_absent :
      (i : ℕ) (s t : Store R)
      → NotIn i (listed s.not_finished)
      → remove_not_finished_proposal i s ≢ (ok tt, t)
  unfolding remove_not_finished_proposal
  remove_absent i s t h e = elim (Option-cases s.not_finished) [
    | inl c ↦ ground arith
    | inr (ns, c) ↦ ground (arith, without_id-absent i ns (subst (λ o. NotIn i (listed o)) c h))
  ]

  pub get_proposal_ok :
      (i : ℕ) (p : Proposal) (s t : Store R)
      → get_proposal i s ≡ (ok p, t)
      → (t ≡ s) × (s.proposals i ≡ some p)
  get_proposal_ok i p s t h = elim (Option-cases (s.proposals i)) [
    | inl e ↦ ground arith
    | inr (q, e) ↦ ground arith
  ]

  pub same-IsChecked : (next : ℕ) (s : Store R) → IsBoard next s → IsChecked next s s
  same-IsChecked next s v = record {
    board = v;
    passed = λ i p e. (p, e, inl refl);
    shrinks = λ i h. h;
    council_eq = refl;
  }

  pub IsChecked-trans :
      (next : ℕ) (s t u : Store R) → IsChecked next s t → IsChecked next t u → IsChecked next s u
  IsChecked-trans next s t u a c = record {
    board = c.board;
    passed = λ i p e.
        let (q, k, x) = a.passed i p e in
        let (r, l, y) = c.passed i q k in (r, l, IsPassed-trans p q r x y);
    shrinks = λ i h. c.shrinks i (a.shrinks i h);
    council_eq = c.council_eq ∙ a.council_eq;
  }
