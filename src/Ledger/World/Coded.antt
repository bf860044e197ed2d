-- ===== src/Ledger/World/Coded.antt =====
-- Every account that the ledger holds has its code in its caches, whatever is done or reverted.
use axiom_lib.Common.{
  ℕ, Option, none, some, List, [], ◌∷◌, ◌≡◌, sym, ap, ◌∙◌, subst, Bool-cases, Option-cases, inl,
  inr, arith,
}
use mathlib.Core.Option.{some_inj}
use axiom_lib.Common.Int.{ℤ, is_zero, ◌+ℤ◌, ◌-ℤ◌}
use axiom_lib.Common.Maps.{update, update-some-cases, update-none-some}
use axiom_lib.Ledger.Types.{
  Bytes, InnerAccount, SimpleAccount, Change, create_object_change, suicide_change, balance_change,
  nonce_change, storage_change, code_change, refund_change, add_log_change, add_preimage_change,
  access_list_add_account_change, access_list_add_slot_change, transient_storage_change,
  StateLedger, Backend, IsLawful,
}
use axiom_lib.Ledger.Account.{
  get_balance, code_hash, code, get_state, put_balance, put_nonce, put_code_and_hash, put_state,
  set_state, set_code_and_hash, set_nonce, set_balance, sub_balance, add_balance, is_empty,
  set_self_destructed, dirtied_account,
}
use axiom_lib.Ledger.Journal.{
  append, append_all, put_account, loaded_account, created_account, get_or_create_account,
  modify_account, revert_change, revert_all, undirty,
}
use axiom_lib.Ledger.Operations.{sub_if_not_empty, on_account}
use axiom_lib.Ledger.World.Accounts.{get_or_create-cases}
use axiom_lib.Ledger.World.Methods.{IsCoded, is_empty-IsCoded, get_state-cases, touched}

abbrev pub AreCoded : Backend → StateLedger → Type 0
AreCoded b l = (a : ℕ) (acc : SimpleAccount) → l.accounts a ≡ some acc → IsCoded b a acc

pub from_some : {A : Type 0} {x y : A} → some x ≡ some y → x ≡ y
from_some h = some_inj.0 h

module _ (b : Backend) (v : IsLawful b) where
  code_hash-dirtied_account :
      (acc : SimpleAccount) → InnerAccount.code_hash (dirtied_account b acc) ≡ code_hash acc
  code_hash-dirtied_account acc = elim (Option-cases acc.dirty_account) [
    | inr (i, e) ↦ rw e
    | inl e ↦ elim (Option-cases acc.origin_account) [
      | inl e' ↦ rw (e, e', v.copy_none_code_hash)
      | inr (i, e') ↦ rw (e, e', v.copy_some i)
    ]
  ]

  put_balance-IsCoded :
      (a : ℕ) (x : ℤ) (acc : SimpleAccount) → IsCoded b a acc → IsCoded b a (put_balance b x acc)
  put_balance-IsCoded a x acc h n k e = h n k (sym (code_hash-dirtied_account acc) ∙ e)

  put_nonce-IsCoded :
      (a n : ℕ) (acc : SimpleAccount) → IsCoded b a acc → IsCoded b a (put_nonce b n acc)
  put_nonce-IsCoded a m acc h n k e = h n k (sym (code_hash-dirtied_account acc) ∙ e)

  put_code_and_hash-IsCoded :
      (a : ℕ) (c : Option Bytes) (acc : SimpleAccount) → IsCoded b a (put_code_and_hash b c acc)
  put_code_and_hash-IsCoded a none acc n k e = ground (arith, v.no_empty_code a)
  put_code_and_hash-IsCoded a (some c) acc n k e = ground arith

  touched-IsCoded : (a : ℕ) (acc : SimpleAccount) → IsCoded b a acc → IsCoded b a (touched b v acc)
  touched-IsCoded a acc h n k e = h n k (sym (code_hash-dirtied_account acc) ∙ e)

  get_state-IsCoded :
      (a key : ℕ) (acc : SimpleAccount) → IsCoded b a acc → IsCoded b a (get_state b a key acc).1
  get_state-IsCoded a key acc h = elim (get_state-cases b v a key acc) [
    | inl e ↦ subst (IsCoded b a) (sym e) h
    | inr (p, o, e) ↦ subst (IsCoded b a) (sym e) h
  ]

  pub set_state-IsCoded :
      (a key : ℕ) (x : Option ℕ) (acc : SimpleAccount)
      → IsCoded b a acc
      → IsCoded b a (set_state b a key x acc).0
  unfolding set_state
  set_state-IsCoded a key x acc h =
      touched-IsCoded a (get_state b a key acc).1 (get_state-IsCoded a key acc h)

  pub set_code_and_hash-IsCoded :
      (a : ℕ) (c : Option Bytes) (acc : SimpleAccount) → IsCoded b a (set_code_and_hash b a c acc).0
  unfolding set_code_and_hash
  set_code_and_hash-IsCoded a c acc = put_code_and_hash-IsCoded a c (code b a acc).1

  pub set_balance-IsCoded :
      (a : ℕ) (x : ℤ) (acc : SimpleAccount)
      → IsCoded b a acc
      → IsCoded b a (set_balance b a x acc).0
  unfolding set_balance
  set_balance-IsCoded = put_balance-IsCoded

  pub set_nonce-IsCoded :
      (a n : ℕ) (acc : SimpleAccount) → IsCoded b a acc → IsCoded b a (set_nonce b a n acc).0
  unfolding set_nonce
  set_nonce-IsCoded = put_nonce-IsCoded

  sub_balance-IsCoded :
      (a : ℕ) (x : ℤ) (acc : SimpleAccount)
      → IsCoded b a acc
      → IsCoded b a (sub_balance b a x acc).0
  unfolding sub_balance
  sub_balance-IsCoded a x acc h = elim (Bool-cases (is_zero x)) [
    | inl e ↦ rw e h
    | inr e ↦ rw e (set_balance-IsCoded a (get_balance acc -ℤ x) acc h)
  ]

  pub add_balance-IsCoded :
      (a : ℕ) (x : ℤ) (acc : SimpleAccount)
      → IsCoded b a acc
      → IsCoded b a (add_balance b a x acc).0
  unfolding add_balance
  add_balance-IsCoded a x acc h = elim (Bool-cases (is_zero x)) [
    | inl e ↦ rw e h
    | inr e ↦ rw e (set_balance-IsCoded a (get_balance acc +ℤ x) acc h)
  ]

  pub sub_if_not_empty-IsCoded :
      (a : ℕ) (x : ℤ) (acc : SimpleAccount)
      → IsCoded b a acc
      → IsCoded b a (sub_if_not_empty b a x acc).0
  sub_if_not_empty-IsCoded a x acc h = elim (Bool-cases (is_empty b a acc).0) [
    | inl e ↦ rw (e, is_empty-IsCoded b v a acc h) h
    | inr e ↦ rw (e, is_empty-IsCoded b v a acc h) (sub_balance-IsCoded a x acc h)
  ]

  loaded_account-IsCoded : (a : ℕ) (i : InnerAccount) → IsCoded b a (loaded_account b a i)
  loaded_account-IsCoded a i n k e = ground (arith, n, e)

  created_account-IsCoded : (a : ℕ) → IsCoded b a (created_account b)
  created_account-IsCoded a n k e = ground (arith, e)

  put_account-AreCoded :
      (a : ℕ) (acc : SimpleAccount) (l : StateLedger)
      → IsCoded b a acc
      → AreCoded b l
      → AreCoded b (put_account a acc l)
  put_account-AreCoded a acc l h hs j acc' e = elim (update-some-cases l.accounts a j acc acc' e) [
    | inl (p, q) ↦ subst (λ k. IsCoded b k acc') (sym p) (subst (IsCoded b a) q h)
    | inr q ↦ hs j acc' q
  ]

  pub append-AreCoded : (c : Change) (l : StateLedger) → AreCoded b l → AreCoded b (append c l)
  unfolding append
  append-AreCoded c l h = h

  pub get_or_create-AreCoded :
      (a : ℕ) (l : StateLedger)
      → AreCoded b l
      → IsCoded b a (get_or_create_account b a l).0 × AreCoded b (get_or_create_account b a l).1
  get_or_create-AreCoded a l h = elim (get_or_create-cases b a l) [
    | inl (acc, e, q) ↦ rw q (h a acc e, h)
    | inr (inl (i, e, s, q)) ↦ rw q (
      loaded_account-IsCoded a i,
      put_account-AreCoded a (loaded_account b a i) l (loaded_account-IsCoded a i) h,
    )
    | inr (inr (e, s, q)) ↦ rw q (
      created_account-IsCoded a,
      put_account-AreCoded a (created_account b) (append (create_object_change a) l)
          (created_account-IsCoded a) (append-AreCoded (create_object_change a) l h),
    )
  ]

  append_all-AreCoded :
      (cs : List Change) (l : StateLedger) → AreCoded b l → AreCoded b (append_all cs l)
  append_all-AreCoded [] l h = h
  append_all-AreCoded (c ∷ cs) l h = append_all-AreCoded cs (append c l) (append-AreCoded c l h)

  -- A method that keeps the code in the caches keeps it there in the ledger.
  pub on_account-AreCoded :
      (a : ℕ) (f : SimpleAccount → SimpleAccount × List Change) (l : StateLedger)
      → ((acc : SimpleAccount) → IsCoded b a acc → IsCoded b a (f acc).0)
      → AreCoded b l
      → AreCoded b (on_account b a f l)
  unfolding on_account
  on_account-AreCoded a f l hf h =
      let (h0, h1) = get_or_create-AreCoded a l h in
      let (acc, l') = get_or_create_account b a l in
      append_all-AreCoded (f acc).1 (put_account a (f acc).0 l')
        (put_account-AreCoded a (f acc).0 l' (hf acc h0) h1)

  modify_account-AreCoded :
      (a : ℕ) (f : SimpleAccount → SimpleAccount) (l : StateLedger)
      → ((acc : SimpleAccount) → IsCoded b a acc → IsCoded b a (f acc))
      → AreCoded b l
      → AreCoded b (modify_account b a f l)
  unfolding modify_account
  modify_account-AreCoded a f l hf h =
      let (h0, h1) = get_or_create-AreCoded a l h in
      let (acc, l') = get_or_create_account b a l in
      put_account-AreCoded a (f acc) l' (hf acc h0) h1

  -- An account that is forgotten.
  remove-AreCoded :
      (a : ℕ) (l : StateLedger)
      → AreCoded b l
      → AreCoded b (record l { accounts = update l.accounts a none })
  remove-AreCoded a l h j acc e = h j acc (update-none-some l.accounts a j acc e)

  pub same_accounts-AreCoded :
      (l l' : StateLedger) → StateLedger.accounts l' ≡ l.accounts → AreCoded b l → AreCoded b l'
  same_accounts-AreCoded l l' q h a acc e = h a acc (ap (λ f. f a) (sym q) ∙ e)

  revert_change-AreCoded :
      (c : Change) (l l' : StateLedger)
      → AreCoded b l
      → revert_change b c l ≡ some l'
      → AreCoded b l'
  unfolding revert_change
  revert_change-AreCoded (create_object_change a) l l' h e =
      subst (AreCoded b) (from_some e) (remove-AreCoded a l h)
  revert_change-AreCoded (suicide_change a p x) l l' h e = subst (AreCoded b) (from_some e) (
      modify_account-AreCoded a (λ acc. put_balance b x (set_self_destructed p acc)) l
        (λ acc k. put_balance-IsCoded a x (set_self_destructed p acc) k) h)
  revert_change-AreCoded (balance_change a x) l l' h e =
      subst (AreCoded b) (from_some e)
        (modify_account-AreCoded a (put_balance b x) l (put_balance-IsCoded a x) h)
  revert_change-AreCoded (nonce_change a n) l l' h e =
      subst (AreCoded b) (from_some e)
        (modify_account-AreCoded a (put_nonce b n) l (put_nonce-IsCoded a n) h)
  revert_change-AreCoded (code_change a c) l l' h e = subst (AreCoded b) (from_some e) (
      modify_account-AreCoded a (put_code_and_hash b c) l
        (λ acc k. put_code_and_hash-IsCoded a c acc) h)
  revert_change-AreCoded (storage_change a key x) l l' h e =
      subst (AreCoded b) (from_some e)
        (modify_account-AreCoded a (put_state key x) l (λ acc k. k) h)
  revert_change-AreCoded (refund_change n) l l' h e = subst (AreCoded b) (from_some e) h
  revert_change-AreCoded (add_preimage_change p) l l' h e = subst (AreCoded b) (from_some e) h
  revert_change-AreCoded (access_list_add_account_change a) l l' h e =
      subst (AreCoded b) (from_some e) h
  revert_change-AreCoded (access_list_add_slot_change a s) l l' h e =
      same_accounts-AreCoded l l' (ground arith) h
  revert_change-AreCoded (add_log_change k) l l' h e = same_accounts-AreCoded l l' (ground arith) h
  revert_change-AreCoded (transient_storage_change a key x) l l' h e =
      same_accounts-AreCoded l l' (ground arith) h

  undirty-accounts :
      (c : Change) (l : StateLedger) → StateLedger.accounts (undirty b c l) ≡ l.accounts
  undirty-accounts c l = ground arith

  -- Reverting keeps the code of every account in its caches.
  pub revert_all-AreCoded :
      (cs : List Change) (l l' : StateLedger)
      → AreCoded b l
      → revert_all b cs l ≡ some l'
      → AreCoded b l'
  unfolding revert_all
  revert_all-AreCoded [] l l' h e = subst (AreCoded b) (from_some e) h
  revert_all-AreCoded (c ∷ cs) l l' h e = elim (Option-cases (revert_change b c l)) [
    | inl q ↦ ground arith
    | inr (m, q) ↦
        revert_all-AreCoded cs (undirty b c m) l'
          (same_accounts-AreCoded m (undirty b c m) (undirty-accounts c m)
            (revert_change-AreCoded c l m h q))
          (ground arith)
  ]
