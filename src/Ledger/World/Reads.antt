-- ===== src/Ledger/World/Reads.antt =====
-- GetState reads what SetState wrote, and no other slot changes.
use axiom_lib.Common.{ℕ, List, [], ◌∷◌, Option, some, ◌≡◌, refl, sym, ap, ◌∙◌, arith}
use axiom_lib.Common.Maps.{update, update_self}
use axiom_lib.Ledger.Types.{Change, SimpleAccount, StateLedger, Backend, IsLawful}
use axiom_lib.Ledger.Account.{get_state, set_state}
use axiom_lib.Ledger.Journal.{append, append_all, put_account, get_or_create_account, get_account}
use axiom_lib.Ledger.Operations.{ledger_state, ledger_set_state, on_account}
use axiom_lib.Ledger.World.{World, AccountView, view, view_or_new, state_of}
use axiom_lib.Ledger.World.Accounts.{view_account-get_or_create}
use axiom_lib.Ledger.World.Methods.{get_state_lem, touched, view_account-get_state}
use axiom_lib.Ledger.World.Undo.{state_of-put_state}
use mathlib.Core.Path.{fun_ext}

module _ (b : Backend) (v : IsLawful b) where
  -- What GetState returns is the slot of the world.
  pub ledger_state_lem :
      (a key : ℕ) (l : StateLedger)
      → (ledger_state b a key l).0
        ≡ AccountView.state (view_or_new b a (World.accounts (view b l) a)) key
  unfolding ledger_state
  ledger_state_lem a key l =
      get_state_lem b v a key (get_or_create_account b a l).0
      ∙ ap (λ x. AccountView.state x key) (view_account-get_or_create b a l)

  accounts-append_all :
      (cs : List Change) (l : StateLedger) → StateLedger.accounts (append_all cs l) ≡ l.accounts
  unfolding append
  accounts-append_all [] l = refl
  accounts-append_all (c ∷ cs) l = accounts-append_all cs (append c l)

  get_or_create-cached :
      (a : ℕ) (acc : SimpleAccount) (l : StateLedger)
      → l.accounts a ≡ some acc
      → (get_or_create_account b a l).0 ≡ acc
  unfolding get_or_create_account get_account
  get_or_create-cached a acc l e = ground arith

  -- The account that a method leaves is the one that is found next.
  get_or_create-on_account :
      (a : ℕ) (f : SimpleAccount → SimpleAccount × List Change) (l : StateLedger)
      → (get_or_create_account b a (on_account b a f l)).0 ≡ (f (get_or_create_account b a l).0).0
  unfolding on_account
  get_or_create-on_account a f l =
      let (acc, l') = get_or_create_account b a l in
      let m = put_account a (f acc).0 l' in
      get_or_create-cached a (f acc).0 (append_all (f acc).1 m) (
        ap (λ g. g a) (accounts-append_all (f acc).1 m)
        ∙ update_self l'.accounts a (some (f acc).0))

  state_of-set_state :
      (a key : ℕ) (x : Option ℕ) (acc : SimpleAccount)
      → state_of b a (set_state b a key x acc).0 ≡ update (state_of b a acc) key x
  unfolding set_state
  state_of-set_state a key x acc =
      state_of-put_state b v a key x (touched b v (get_state b a key acc).1)
      ∙ ap (λ (y : AccountView). update y.state key x) (view_account-get_state b v a key acc)

  -- After SetState of a slot of an account, GetState of that account returns the new value for this
  -- slot, and for every other slot what it returned before.
  pub ledger_state-set_state :
      (a key j : ℕ) (x : Option ℕ) (l : StateLedger)
      → (ledger_state b a j (ledger_set_state b a key x l)).0
        ≡ update (λ k. (ledger_state b a k l).0) key x j
  unfolding ledger_state ledger_set_state
  ledger_state-set_state a key j x l =
      let acc = (get_or_create_account b a l).0 in
      get_state_lem b v a j (get_or_create_account b a (ledger_set_state b a key x l)).0
      ∙ (ap (λ y. state_of b a y j) (get_or_create-on_account a (set_state b a key x) l)
          ∙ (ap (λ g. g j) (state_of-set_state a key x acc)
              ∙ ap (λ g. update g key x j) (fun_ext (λ k. sym (get_state_lem b v a k acc)))))
