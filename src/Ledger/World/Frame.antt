-- ===== src/Ledger/World/Frame.antt =====
-- Reverting a change leaves the revisions alone, and can only add entries to the journal, which
-- stateChanger.revert cuts off.
use axiom_lib.Common.{
  ℕ, some, List, [], ◌∷◌, ◌++◌, ◌≡◌, refl, sym, ap, ◌∙◌, Option-cases, subst, inl, inr, arith,
}
use mathlib.Core.Option.{some_inj}
use mathlib.Core.List.{append_assoc}
use axiom_lib.Ledger.Types.{
  SimpleAccount, Change, create_object_change, suicide_change, balance_change, nonce_change,
  storage_change, code_change, refund_change, add_log_change, add_preimage_change,
  access_list_add_account_change, access_list_add_slot_change, transient_storage_change,
  StateLedger, Backend,
}
use axiom_lib.Ledger.Account.{
  put_balance, put_nonce, put_code_and_hash, put_state, set_self_destructed,
}
use axiom_lib.Ledger.Journal.{
  append, get_or_create_account, modify_account, revert_change, revert_all, undirty,
}
use axiom_lib.Ledger.World.Accounts.{get_or_create-cases}

pub record IsFramed (l l' : StateLedger) : Type 0 where
  pub added : List Change
  pub changes_eq : l'.changes ≡ added ++ l.changes
  pub revisions_eq : l'.valid_revisions ≡ l.valid_revisions
  pub next_eq : l'.next_revision_id ≡ l.next_revision_id

pub IsFramed-trans : (l m n : StateLedger) → IsFramed l m → IsFramed m n → IsFramed l n
IsFramed-trans l m n f g = record {
  added = g.added ++ f.added;
  changes_eq =
      g.changes_eq
      ∙ (ap (λ x. g.added ++ x) f.changes_eq ∙ sym (append_assoc g.added f.added l.changes));
  revisions_eq = g.revisions_eq ∙ f.revisions_eq;
  next_eq = g.next_eq ∙ f.next_eq;
}

-- Where the journal and the revisions stay.
abbrev pub still :
    (l l' : StateLedger)
    → l'.changes ≡ l.changes
    → l'.valid_revisions ≡ l.valid_revisions
    → l'.next_revision_id ≡ l.next_revision_id
    → IsFramed l l'
still l l' p q r = record { added = []; changes_eq = p; revisions_eq = q; next_eq = r }

module _ (b : Backend) where
  pub get_or_create-IsFramed :
      (a : ℕ) (l : StateLedger) → IsFramed l (get_or_create_account b a l).1
  unfolding append
  get_or_create-IsFramed a l = elim (get_or_create-cases b a l) [
    | inl (acc, e, q) ↦ rw q (still l l refl refl refl)
    | inr (inl (i, e, s, q)) ↦ rw q (still l _ refl refl refl)
    | inr (inr (e, s, q)) ↦ rw q (record {
      added = create_object_change a ∷ [];
      changes_eq = refl;
      revisions_eq = refl;
      next_eq = refl;
    })
  ]

  modify_account-IsFramed :
      (a : ℕ) (f : SimpleAccount → SimpleAccount) (l : StateLedger)
      → IsFramed l (modify_account b a f l)
  unfolding modify_account
  modify_account-IsFramed a f l =
      let g = get_or_create-IsFramed a l in
      record {
        added = g.added;
        changes_eq = g.changes_eq;
        revisions_eq = g.revisions_eq;
        next_eq = g.next_eq;
      }

  revert_change-IsFramed :
      (c : Change) (l l' : StateLedger) → revert_change b c l ≡ some l' → IsFramed l l'
  unfolding revert_change
  revert_change-IsFramed (create_object_change a) l l' e =
      subst (IsFramed l) (some_inj.0 e) (still l _ refl refl refl)
  revert_change-IsFramed (suicide_change a p x) l l' e =
      subst (IsFramed l) (some_inj.0 e)
        (modify_account-IsFramed a (λ acc. put_balance b x (set_self_destructed p acc)) l)
  revert_change-IsFramed (balance_change a x) l l' e =
      subst (IsFramed l) (some_inj.0 e) (modify_account-IsFramed a (put_balance b x) l)
  revert_change-IsFramed (nonce_change a n) l l' e =
      subst (IsFramed l) (some_inj.0 e) (modify_account-IsFramed a (put_nonce b n) l)
  revert_change-IsFramed (code_change a c) l l' e =
      subst (IsFramed l) (some_inj.0 e) (modify_account-IsFramed a (put_code_and_hash b c) l)
  revert_change-IsFramed (storage_change a key x) l l' e =
      subst (IsFramed l) (some_inj.0 e) (modify_account-IsFramed a (put_state key x) l)
  revert_change-IsFramed (refund_change n) l l' e =
      subst (IsFramed l) (some_inj.0 e) (still l _ refl refl refl)
  revert_change-IsFramed (add_preimage_change p) l l' e =
      subst (IsFramed l) (some_inj.0 e) (still l _ refl refl refl)
  revert_change-IsFramed (access_list_add_account_change a) l l' e =
      subst (IsFramed l) (some_inj.0 e) (still l _ refl refl refl)
  revert_change-IsFramed (access_list_add_slot_change a s) l l' e =
      still l l' (ground arith) (ground arith) (ground arith)
  revert_change-IsFramed (add_log_change k) l l' e =
      still l l' (ground arith) (ground arith) (ground arith)
  revert_change-IsFramed (transient_storage_change a key x) l l' e =
      still l l' (ground arith) (ground arith) (ground arith)

  undirty-IsFramed : (c : Change) (l : StateLedger) → IsFramed l (undirty b c l)
  undirty-IsFramed c l = still l (undirty b c l) (ground arith) (ground arith) (ground arith)

  pub revert_all-IsFramed :
      (cs : List Change) (l l' : StateLedger) → revert_all b cs l ≡ some l' → IsFramed l l'
  unfolding revert_all
  revert_all-IsFramed [] l l' e = subst (IsFramed l) (some_inj.0 e) (still l l refl refl refl)
  revert_all-IsFramed (c ∷ cs) l l' e = elim (Option-cases (revert_change b c l)) [
    | inl q ↦ ground arith
    | inr (m, q) ↦ IsFramed-trans l m l' (revert_change-IsFramed c l m q) (
        IsFramed-trans m (undirty b c m) l' (undirty-IsFramed c m)
          (revert_all-IsFramed cs (undirty b c m) l' (ground arith)))
  ]
