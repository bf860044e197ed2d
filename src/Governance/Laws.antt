-- ===== src/Governance/Laws.antt =====
-- What holds of the proposals of the governance contract, whatever is proposed and voted.
use axiom_lib.Common.Distinct.{contains, NoRepeat, NoRepeat-insert, contains-append}
use axiom_lib.Common.{
  ℕ, ◌<◌, false, Option, some, List, [], ◌∷◌, ◌++◌, ◌≡◌, ◌≢◌, refl, sym, ap, ◌∙◌, subst, ◌==◌, ◌||◌,
  arith, All, Bool-cases, inl, inr, ==_iff,
}
use mathlib.Core.List.{append_assoc, append-nil}
use axiom_lib.Common.Maps.{update, update_self, update-some-cases}
use axiom_lib.Governance.Types.{voting, VoteResult, pass, reject, Proposal, NotFinishedProposal}
use axiom_lib.Governance.Board.{without_id, unique, add_vote}

-- What holds of a stored proposal: its key is its id, which was given out, and no account has two
-- votes.
pub record IsProposal (i next : ℕ) (p : Proposal) : Type 0 where
  pub id_eq : p.id ≡ i
  pub below : i < next
  pub once : NoRepeat (p.pass_votes ++ p.reject_votes)

-- The proposal of an entry of the list is being voted on until the entry's deadline.
abbrev pub IsOpen : (ℕ → Option Proposal) → NotFinishedProposal → Type 0
IsOpen m n =
    (p : Proposal) × (m n.id ≡ some p) × (p.status ≡ voting) × (p.block_number ≡ n.deadline)

pub record IsBoardOf (m : ℕ → Option Proposal) (next : ℕ) (ns : List NotFinishedProposal)
    : Type 0 where
  pub stored : (i : ℕ) (p : Proposal) → m i ≡ some p → IsProposal i next p
  pub opened : All (IsOpen m) ns

pub add_vote-once :
    (u : ℕ) (r : VoteResult) (p : Proposal)
    → NoRepeat (p.pass_votes ++ p.reject_votes)
    → (contains u p.pass_votes || contains u p.reject_votes) ≡ false
    → NoRepeat ((add_vote u r p).pass_votes ++ (add_vote u r p).reject_votes)
add_vote-once u pass p h k =
    NoRepeat-insert u p.pass_votes p.reject_votes h
      (contains-append u p.pass_votes p.reject_votes ∙ k)
add_vote-once u reject p h k =
    subst NoRepeat (append-nil _ ∙ append_assoc p.pass_votes p.reject_votes (u ∷ [])) (
      NoRepeat-insert u (p.pass_votes ++ p.reject_votes) [] (subst NoRepeat (sym (append-nil _)) h)
        (ap (contains u) (append-nil _) ∙ (contains-append u p.pass_votes p.reject_votes ∙ k)))

-- An entry whose proposal is not the one that is stored stays open.
IsOpen-update :
    (m : ℕ → Option Proposal) (i : ℕ) (p : Proposal) (n : NotFinishedProposal)
    → n.id ≢ i
    → IsOpen m n
    → IsOpen (update m i (some p)) n
IsOpen-update m i p n ne (q, e, s, d) = (q, ground arith, s, d)

without_id-IsOpen :
    (m : ℕ → Option Proposal) (i : ℕ) (p : Proposal) (ns : List NotFinishedProposal)
    → All (IsOpen m) ns
    → All (IsOpen (update m i (some p))) (without_id i ns)
without_id-IsOpen m i p [] h = tt
without_id-IsOpen m i p (n ∷ ns) (h, hs) = elim (Bool-cases (n.id == i)) [
  | inl e ↦ rw e (without_id-IsOpen m i p ns hs)
  | inr e ↦
      rw e (IsOpen-update m i p n (ground (arith, ==_iff n.id i)) h, without_id-IsOpen m i p ns hs)
]

module _ (P : NotFinishedProposal → Type 0) where
  pub without_id-All : (i : ℕ) (ns : List NotFinishedProposal) → All P ns → All P (without_id i ns)
  without_id-All i [] h = tt
  without_id-All i (n ∷ ns) (h, hs) = elim (Bool-cases (n.id == i)) [
    | inl e ↦ rw e (without_id-All i ns hs)
    | inr e ↦ rw e (h, without_id-All i ns hs)
  ]

  unique-All : (ns : List NotFinishedProposal) → All P ns → All P (unique ns)
  unique-All [] h = tt
  unique-All (n ∷ ns) (h, hs) = (h, without_id-All n.id (unique ns) (unique-All ns hs))

  All-append-one :
      (ns : List NotFinishedProposal) {n : NotFinishedProposal}
      → All P ns
      → P n
      → All P (ns ++ n ∷ [])
  All-append-one [] h k = (k, tt)
  All-append-one (x ∷ ns) (h, hs) k = (h, All-append-one ns hs k)

-- Storing a proposal and taking it off the list.
pub close-IsBoard :
    (m : ℕ → Option Proposal) (next i : ℕ) (p : Proposal) (ns : List NotFinishedProposal)
    → IsProposal i next p
    → IsBoardOf m next ns
    → IsBoardOf (update m i (some p)) next (without_id i ns)
close-IsBoard m next i p ns h v = record {
  stored = λ j q e. elim (update-some-cases m i j p q e) [
    | inl (a, c) ↦ subst (λ k. IsProposal k next q) (sym a) (subst (IsProposal i next) c h)
    | inr a ↦ v.stored j q a
  ];
  opened = without_id-IsOpen m i p ns v.opened;
}

-- Storing a new version of a proposal that is being voted on.
pub put-IsBoard :
    (m : ℕ → Option Proposal) (next i : ℕ) (p : Proposal) (ns : List NotFinishedProposal)
    → IsProposal i next p
    → p.status ≡ voting
    → ((q : Proposal) → m i ≡ some q → p.block_number ≡ q.block_number)
    → IsBoardOf m next ns
    → IsBoardOf (update m i (some p)) next ns
put-IsBoard m next i p ns h s d v = record {
  stored = λ j q e. elim (update-some-cases m i j p q e) [
    | inl (a, c) ↦ subst (λ k. IsProposal k next q) (sym a) (subst (IsProposal i next) c h)
    | inr a ↦ v.stored j q a
  ];
  opened = reopened ns v.opened;
}
  where
    reopen : (n : NotFinishedProposal) → IsOpen m n → IsOpen (update m i (some p)) n
    reopen n (q, e, o, b) = elim (Bool-cases (n.id == i)) [
      | inr c ↦ IsOpen-update m i p n (ground (arith, ==_iff n.id i)) (q, e, o, b)
      | inl c ↦ (p, rw c refl, s, d q (rw (sym ((==_iff n.id i).0 c)) e) ∙ b)
    ]

    reopened :
        (ns : List NotFinishedProposal) → All (IsOpen m) ns → All (IsOpen (update m i (some p))) ns
    reopened [] h = tt
    reopened (n ∷ ns) (h, hs) = (reopen n h, reopened ns hs)

-- A proposal with a new id.
pub create-IsBoard :
    (m : ℕ → Option Proposal) (next next' : ℕ) (p : Proposal) (n : NotFinishedProposal)
    (ns : List NotFinishedProposal)
    → IsProposal next next' p
    → next < next'
    → n.id ≡ next
    → p.status ≡ voting
    → p.block_number ≡ n.deadline
    → IsBoardOf m next ns
    → IsBoardOf (update m next (some p)) next' (unique (ns ++ n ∷ []))
create-IsBoard m next next' p n ns h lt i s d v = record {
  stored = λ j q e. elim (update-some-cases m next j p q e) [
    | inl (a, c) ↦ subst (λ k. IsProposal k next' q) (sym a) (subst (IsProposal next next') c h)
    | inr a ↦ later j q (v.stored j q a)
  ];
  opened = unique-All (IsOpen (update m next (some p))) (ns ++ n ∷ []) (
      All-append-one (IsOpen (update m next (some p))) ns (kept ns v.opened)
        (p, rw i (update_self m next (some p)), s, d));
}
  where
    later : (j : ℕ) (q : Proposal) → IsProposal j next q → IsProposal j next' q
    later j q k = record { id_eq = k.id_eq; below = omega (arith, k.below); once = k.once }

    kept :
        (ns : List NotFinishedProposal)
        → All (IsOpen m) ns
        → All (IsOpen (update m next (some p))) ns
    kept [] h = tt
    kept (x ∷ xs) ((q, e, o, b), hs) = (
      IsOpen-update m next p x (omega (arith, (v.stored x.id q e).below)) (q, e, o, b),
      kept xs hs,
    )
