-- ===== src/Ledger/World/Methods.antt =====
-- What a method of an account appends to the journal takes back what the method does.
use axiom_lib.Common.{
  ℕ, true, Option, none, some, List, [], ◌∷◌, ◌≡◌, refl, ap, ◌∙◌, Bool-cases, Option-cases, ◌⊎◌,
  inl, inr, arith,
}
use mathlib.Core.Path.{fun_ext}
use axiom_lib.Common.Int.{ℤ, pos, is_zero, ◌+ℤ◌, ◌-ℤ◌}
use axiom_lib.Common.Maps.{update, update_self, update-update, update_same}
use axiom_lib.Ledger.Types.{Bytes, SimpleAccount, Change, suicide_change, Backend, IsLawful}
use axiom_lib.Ledger.Account.{
  or_else, get_nonce, get_balance, code_hash, code, get_state, stored_state, put_balance, put_nonce,
  put_code_and_hash, put_state, set_state, set_code_and_hash, set_nonce, set_balance, sub_balance,
  add_balance, is_empty, set_self_destructed, dirtied_account,
}
use axiom_lib.Ledger.Operations.{sub_if_not_empty, destruct_account}
use axiom_lib.Ledger.World.{
  AccountView, World, view_account, state_of, committed_of, see, modify_view, undo_all,
}
use axiom_lib.Ledger.World.Undo.{state_of-put_state, nonce-dirtied_account, balance-dirtied_account}

-- A list turned round, before another one.
abbrev pub rev_onto : List Change → List Change → List Change
rev_onto [] xs = xs
rev_onto (c ∷ cs) xs = rev_onto cs (c ∷ xs)

-- The changes `cs` take the account `acc'` back to `acc`.
abbrev pub IsUndone : Backend → ℕ → SimpleAccount → SimpleAccount × List Change → Type 0
IsUndone b a acc r =
    (w : World)
    → undo_all b (rev_onto r.1 []) (see a (view_account b a r.0) w)
      ≡ some (see a (view_account b a acc) w)

-- Code that is not in the caches is not in the storage.
abbrev pub IsCoded : Backend → ℕ → SimpleAccount → Type 0
IsCoded b a acc =
    or_else acc.dirty_code acc.origin_code ≡ none
    → (h : ℕ) → code_hash acc ≡ some h
    → b.stored_code a h ≡ none

or_else_idem : (x y : Option Bytes) → or_else (or_else x y) y ≡ or_else x y
or_else_idem x y = ground arith

module _ (b : Backend) (v : IsLawful b) where
  pub modify_view-see :
      (a : ℕ) (g : AccountView → AccountView) (x : AccountView) (w : World)
      → modify_view b a g (see a x w) ≡ see a (g x) w
  modify_view-see a g x w =
      rw (update_self w.accounts a (some x), update-update w.accounts a (some x) (some (g x)))

  pub set_balance-IsUndone :
      (a : ℕ) (x : ℤ) (acc : SimpleAccount) → IsUndone b a acc (set_balance b a x acc)
  unfolding set_balance
  set_balance-IsUndone a x acc w = rw (
    modify_view-see a (λ y. record y { balance = get_balance acc })
        (view_account b a (put_balance b x acc)) w,
    nonce-dirtied_account b v acc,
  )

  pub set_nonce-IsUndone : (a n : ℕ) (acc : SimpleAccount) → IsUndone b a acc (set_nonce b a n acc)
  unfolding set_nonce
  set_nonce-IsUndone a n acc w = rw (
    modify_view-see a (λ y. record y { nonce = get_nonce acc })
        (view_account b a (put_nonce b n acc)) w,
    balance-dirtied_account b v acc,
  )

  pub sub_balance-IsUndone :
      (a : ℕ) (x : ℤ) (acc : SimpleAccount) → IsUndone b a acc (sub_balance b a x acc)
  unfolding sub_balance
  sub_balance-IsUndone a x acc = elim (Bool-cases (is_zero x)) [
    | inl e ↦ rw e (λ w. refl)
    | inr e ↦ rw e (set_balance-IsUndone a (get_balance acc -ℤ x) acc)
  ]

  pub add_balance-IsUndone :
      (a : ℕ) (x : ℤ) (acc : SimpleAccount) → IsUndone b a acc (add_balance b a x acc)
  unfolding add_balance
  add_balance-IsUndone a x acc = elim (Bool-cases (is_zero x)) [
    | inl e ↦ rw e (λ w. refl)
    | inr e ↦ rw e (set_balance-IsUndone a (get_balance acc +ℤ x) acc)
  ]

  -- Where no code is missing in the caches, Code reads them and changes nothing.
  pub code-IsCoded :
      (a : ℕ) (acc : SimpleAccount)
      → IsCoded b a acc
      → code b a acc ≡ (or_else acc.dirty_code acc.origin_code, acc)
  unfolding code
  code-IsCoded a acc h = elim (Option-cases acc.dirty_code) [
    | inr (c, e) ↦ rw e refl
    | inl e ↦ elim (Option-cases acc.origin_code) [
      | inr (c, e') ↦ ground arith
      | inl e' ↦ elim (Option-cases (code_hash acc)) [
        | inl n ↦ ground arith
        | inr (k, n) ↦ ground (arith, h (rw (e, e') refl) k n)
      ]
    ]
  ]

  pub is_empty-IsCoded :
      (a : ℕ) (acc : SimpleAccount) → IsCoded b a acc → (is_empty b a acc).1 ≡ acc
  unfolding is_empty
  is_empty-IsCoded a acc h = ground (arith, code-IsCoded a acc h)

  pub sub_if_not_empty-IsUndone :
      (a : ℕ) (x : ℤ) (acc : SimpleAccount)
      → IsCoded b a acc
      → IsUndone b a acc (sub_if_not_empty b a x acc)
  sub_if_not_empty-IsUndone a x acc h = elim (Bool-cases (is_empty b a acc).0) [
    | inl e ↦ rw (e, is_empty-IsCoded a acc h) (λ w. refl)
    | inr e ↦ rw (e, is_empty-IsCoded a acc h) (sub_balance-IsUndone a x acc)
  ]

  pub set_code_and_hash-IsUndone :
      (a : ℕ) (c : Option Bytes) (acc : SimpleAccount)
      → IsCoded b a acc
      → IsUndone b a acc (set_code_and_hash b a c acc)
  unfolding set_code_and_hash
  set_code_and_hash-IsUndone a c acc h w =
      rw
        (
          code-IsCoded a acc h,
          modify_view-see a
              (λ y. record y {
                code = or_else (or_else acc.dirty_code acc.origin_code) y.origin_code;
              })
              (view_account b a (put_code_and_hash b c acc)) w,
          nonce-dirtied_account b v acc,
          balance-dirtied_account b v acc,
        )
        (rw (or_else_idem acc.dirty_code acc.origin_code) refl)

  -- GetState returns the value that is seen, and the cache that it fills is not seen.
  pub get_state_lem :
      (a key : ℕ) (acc : SimpleAccount) → (get_state b a key acc).0 ≡ state_of b a acc key
  unfolding get_state
  get_state_lem a key acc = ground arith

  abbrev pub filled : ℕ → ℕ → SimpleAccount → SimpleAccount
  filled a key acc = record acc {
    origin_state = update acc.origin_state key (some (stored_state b a key));
  }

  pub get_state-cases :
      (a key : ℕ) (acc : SimpleAccount)
      → ((get_state b a key acc).1 ≡ acc)
        ⊎ ((acc.pending_state key ≡ none)
            × (acc.origin_state key ≡ none)
            × ((get_state b a key acc).1 ≡ filled a key acc))
  unfolding get_state
  get_state-cases a key acc = ground arith

  committed_of-filled :
      (a key : ℕ) (acc : SimpleAccount)
      → acc.origin_state key ≡ none
      → committed_of b a (filled a key acc) ≡ committed_of b a acc
  committed_of-filled a key acc e = fun_ext (λ j. ground arith)

  state_of-filled :
      (a key : ℕ) (acc : SimpleAccount)
      → acc.origin_state key ≡ none
      → state_of b a (filled a key acc) ≡ state_of b a acc
  state_of-filled a key acc e = fun_ext (λ j. ground arith)

  pub view_account-get_state :
      (a key : ℕ) (acc : SimpleAccount)
      → view_account b a (get_state b a key acc).1 ≡ view_account b a acc
  view_account-get_state a key acc = elim (get_state-cases a key acc) [
    | inl e ↦ ap (view_account b a) e
    | inr (p, o, e) ↦
        ap (view_account b a) e
        ∙ rw (committed_of-filled a key acc o, state_of-filled a key acc o) refl
  ]

  abbrev pub touched : SimpleAccount → SimpleAccount
  touched acc = record acc { dirty_account = some (dirtied_account b acc) }

  view_account-touched :
      (a : ℕ) (acc : SimpleAccount) → view_account b a (touched acc) ≡ view_account b a acc
  view_account-touched a acc =
      rw (nonce-dirtied_account b v acc, balance-dirtied_account b v acc) refl

  -- Writing the old value back over a new one.
  put_back :
      (a key : ℕ) (x : Option ℕ) (acc acc' : SimpleAccount)
      → view_account b a acc' ≡ view_account b a acc
      → record (view_account b a (put_state key x acc')) {
        state = update (state_of b a (put_state key x acc')) key (state_of b a acc key);
      }
        ≡ view_account b a acc
  put_back a key x acc acc' h =
      rw
        (
          state_of-put_state b v a key x acc',
          update-update (state_of b a acc') key x (state_of b a acc key),
        )
        (ap {B = AccountView}
            (λ (y : AccountView). record y { state = update y.state key (state_of b a acc key) }) h
          ∙ rw (update_same (state_of b a acc) key (state_of b a acc key) refl) refl)

  pub set_state-IsUndone :
      (a key : ℕ) (x : Option ℕ) (acc : SimpleAccount) → IsUndone b a acc (set_state b a key x acc)
  unfolding set_state
  set_state-IsUndone a key x acc w =
      let r = (get_state b a key acc).1 in
      ap some (
        modify_view-see a (λ y. record y { state = update y.state key (get_state b a key acc).0 })
          (view_account b a (put_state key x (touched r))) w
        ∙ ap (λ y. see a y w)
            (rw (get_state_lem a key acc) (
              put_back a key x acc (touched r)
                (view_account-touched a r ∙ view_account-get_state a key acc))))

  pub destruct_account-IsUndone :
      (a : ℕ) (acc : SimpleAccount) → IsUndone b a acc (destruct_account b a acc)
  unfolding set_balance
  destruct_account-IsUndone a acc w =
      let d = view_account b a (put_balance b (pos 0) (set_self_destructed true acc)) in
      let d' : AccountView = record d { balance = get_balance acc } in
      ap (undo_all b (suicide_change a acc.is_self_destructed (get_balance acc) ∷ []))
        (modify_view-see a (λ y. record y { balance = get_balance acc }) d w)
      ∙ ap some (
          modify_view-see a
            (λ y. record y {
              is_self_destructed = acc.is_self_destructed;
              balance = get_balance acc;
            })
            d' w)
      ∙ rw (nonce-dirtied_account b v (set_self_destructed true acc)) refl
