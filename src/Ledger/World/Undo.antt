-- ===== src/Ledger/World/Undo.antt =====
-- Reverting the journal is what undoing its entries does to the world.
use axiom_lib.Common.{
  ℕ, Option, none, some, List, [], ◌∷◌, ◌≡◌, refl, sym, ap, Option-cases, inl, inr, arith,
}
use mathlib.Core.Option.{map}
use mathlib.Core.Path.{fun_ext}
use axiom_lib.Common.Int.{ℤ}
use axiom_lib.Common.Maps.{update}
use axiom_lib.Ledger.Types.{
  Bytes, InnerAccount, SimpleAccount, Change, create_object_change, suicide_change, balance_change,
  nonce_change, storage_change, code_change, refund_change, add_log_change, add_preimage_change,
  access_list_add_account_change, access_list_add_slot_change, transient_storage_change,
  StateLedger, Backend, IsLawful,
}
use axiom_lib.Ledger.Account.{
  or_else, get_nonce, get_balance, dirtied_account, put_balance, put_nonce, put_code_and_hash,
  put_state, set_self_destructed,
}
use axiom_lib.Ledger.Journal.{undirty, revert_change, revert_all, set_transient}
use axiom_lib.Ledger.Operations.{get_transient}
use axiom_lib.Ledger.World.{
  view, view_account, view_accounts, view_found, peek_stored, state_of, undo, undo_all,
}
use axiom_lib.Ledger.World.Accounts.{view-modify_account}

module _ (b : Backend) (v : IsLawful b) where
  -- The account that a setter starts from has the fields that the getters read.
  pub nonce-dirtied_account :
      (acc : SimpleAccount) → InnerAccount.nonce (dirtied_account b acc) ≡ get_nonce acc
  nonce-dirtied_account acc = elim (Option-cases acc.dirty_account) [
    | inr (i, e) ↦ rw e
    | inl e ↦ elim (Option-cases acc.origin_account) [
      | inl e' ↦ rw (e, e', v.copy_none_nonce)
      | inr (i, e') ↦ rw (e, e', v.copy_some i)
    ]
  ]

  pub balance-dirtied_account :
      (acc : SimpleAccount) → InnerAccount.balance (dirtied_account b acc) ≡ get_balance acc
  balance-dirtied_account acc = elim (Option-cases acc.dirty_account) [
    | inr (i, e) ↦ rw e
    | inl e ↦ elim (Option-cases acc.origin_account) [
      | inl e' ↦ rw (e, e', v.copy_none_balance)
      | inr (i, e') ↦ rw (e, e', v.copy_some i)
    ]
  ]

  pub view_account-put_balance :
      (a : ℕ) (x : ℤ) (acc : SimpleAccount)
      → view_account b a (put_balance b x acc) ≡ record (view_account b a acc) { balance = x }
  view_account-put_balance a x acc = rw (nonce-dirtied_account acc)

  pub view_account-put_nonce :
      (a : ℕ) (n : ℕ) (acc : SimpleAccount)
      → view_account b a (put_nonce b n acc) ≡ record (view_account b a acc) { nonce = n }
  view_account-put_nonce a n acc = rw (balance-dirtied_account acc)

  pub view_account-put_code_and_hash :
      (a : ℕ) (c : Option Bytes) (acc : SimpleAccount)
      → view_account b a (put_code_and_hash b c acc)
        ≡ record (view_account b a acc) { code = or_else c acc.origin_code }
  view_account-put_code_and_hash a c acc =
      rw (nonce-dirtied_account acc, balance-dirtied_account acc)

  pub state_of-put_state :
      (a key : ℕ) (x : Option ℕ) (acc : SimpleAccount)
      → state_of b a (put_state key x acc) ≡ update (state_of b a acc) key x
  state_of-put_state a key x acc = fun_ext (λ j. ground arith)

  pub view_account-put_state :
      (a key : ℕ) (x : Option ℕ) (acc : SimpleAccount)
      → view_account b a (put_state key x acc)
        ≡ record (view_account b a acc) { state = update (state_of b a acc) key x }
  view_account-put_state a key x acc = rw (state_of-put_state a key x acc)

  pub transient-set :
      (a key x : ℕ) (t : ℕ → Option (ℕ → ℕ))
      → get_transient (set_transient a key x t)
        ≡ update (get_transient t) a (update (get_transient t a) key x)
  transient-set a key x t = fun_ext (λ j. fun_ext (λ k. ground arith))

  view_accounts-remove :
      (m : ℕ → Option SimpleAccount) (a : ℕ)
      → view_accounts b (update m a none)
        ≡ update (view_accounts b m) a (view_found b a (peek_stored b a))
  view_accounts-remove m a = fun_ext (λ j. ground arith)

  pub view-revert_change :
      (c : Change) (l : StateLedger) → map (view b) (revert_change b c l) ≡ undo b c (view b l)
  unfolding revert_change view
  view-revert_change (create_object_change a) l = ap some (rw (view_accounts-remove l.accounts a))
  view-revert_change (suicide_change a prev x) l = ap some (
      view-modify_account b a (λ acc. put_balance b x (set_self_destructed prev acc))
        (λ w. record w { is_self_destructed = prev; balance = x }) l
        (λ acc. view_account-put_balance a x (set_self_destructed prev acc)))
  view-revert_change (balance_change a x) l = ap some (
      view-modify_account b a (put_balance b x) (λ w. record w { balance = x }) l
        (view_account-put_balance a x))
  view-revert_change (nonce_change a n) l = ap some (
      view-modify_account b a (put_nonce b n) (λ w. record w { nonce = n }) l
        (view_account-put_nonce a n))
  view-revert_change (code_change a c) l = ap some (
      view-modify_account b a (put_code_and_hash b c)
        (λ w. record w { code = or_else c w.origin_code }) l (view_account-put_code_and_hash a c))
  view-revert_change (storage_change a key x) l = ap some (
      view-modify_account b a (put_state key x) (λ w. record w { state = update w.state key x }) l
        (view_account-put_state a key x))
  view-revert_change (refund_change n) l = refl
  view-revert_change (add_preimage_change h) l = refl
  view-revert_change (access_list_add_account_change a) l = refl
  view-revert_change (access_list_add_slot_change a s) l = ground arith
  view-revert_change (add_log_change h) l = ground arith
  view-revert_change (transient_storage_change a key x) l =
      elim (Option-cases l.transient_storage) [
        | inl q ↦ rw q refl
        | inr (t, q) ↦
            rw q
              (ap (λ m. some (record (view b l) { transient = some m })) (transient-set a key x t))
      ]

  view-undirty : (c : Change) (l : StateLedger) → view b (undirty b c l) ≡ view b l
  unfolding view
  view-undirty c l = ground arith

  -- Reverting a list of changes on the ledger does to the world what undoing them one by one does,
  -- and fails where that fails.
  pub view-revert_all :
      (cs : List Change) (l : StateLedger)
      → map (view b) (revert_all b cs l) ≡ undo_all b cs (view b l)
  unfolding revert_all
  view-revert_all [] l = refl
  view-revert_all (c ∷ cs) l = elim (Option-cases (revert_change b c l)) [
    | inl e ↦ rw (revert_all, undo_all, sym (view-revert_change c l), e)
    | inr (l', e) ↦ rw (
      revert_all,
      undo_all,
      sym (view-revert_change c l),
      e,
      view-revert_all cs (undirty b c l'),
      view-undirty c l',
    )
  ]
