-- ===== src/Ledger/World/Accounts.antt =====
-- The accounts of the ledger as the world sees them: loading an account and filling its caches
-- changes nothing.
use axiom_lib.Common.{Option-cases, inl, inr, ◌⊎◌, none, ℕ, Option, some, ◌≡◌, refl, arith}
use mathlib.Core.Path.{fun_ext}
use axiom_lib.Common.Maps.{update, update-update, update_same}
use axiom_lib.Ledger.Types.{create_object_change, InnerAccount, SimpleAccount, StateLedger, Backend}
use axiom_lib.Ledger.Journal.{
  append, put_account, get_account, get_or_create_account, modify_account, created_account,
  loaded_account, stored_account,
}
use axiom_lib.Ledger.World.{
  AccountView, World, view, view_account, view_accounts, view_or_new, modify_view,
}

module _ (b : Backend) where
  -- Putting an account at an address overwrites what the world sees there.
  pub view_accounts-update :
      (m : ℕ → Option SimpleAccount) (a : ℕ) (acc : SimpleAccount)
      → view_accounts b (update m a (some acc))
        ≡ update (view_accounts b m) a (some (view_account b a acc))
  view_accounts-update m a acc = fun_ext (λ j. ground arith)

  pub view-put_account :
      (a : ℕ) (acc : SimpleAccount) (l : StateLedger)
      → view b (put_account a acc l) ≡ record (view b l) {
        accounts = update (World.accounts (view b l)) a (some (view_account b a acc));
      }
  unfolding view
  view-put_account a acc l = rw (view_accounts-update l.accounts a acc)

  pub view-append : (c : _) (l : StateLedger) → view b (append c l) ≡ view b l
  unfolding view append
  view-append c l = refl

  -- The account that a method works on, as the world sees it.
  pub view_account-get_or_create :
      (a : ℕ) (l : StateLedger)
      → view_account b a (get_or_create_account b a l).0
        ≡ view_or_new b a (World.accounts (view b l) a)
  unfolding view get_or_create_account get_account
  view_account-get_or_create a l = ground arith

  pub view-get_or_create :
      (a : ℕ) (l : StateLedger) (acc : SimpleAccount)
      → view b (put_account a acc (get_or_create_account b a l).1) ≡ view b (put_account a acc l)
  unfolding view get_or_create_account get_account append
  view-get_or_create a l acc = ground (
    arith,
    update-update l.accounts a (some (created_account b)) (some acc),
    λ (i : InnerAccount). update-update l.accounts a (some (loaded_account b a i)) (some acc),
  )

  pub view-get_account : (a : ℕ) (l : StateLedger) → view b (get_account b a l).1 ≡ view b l
  unfolding view get_account
  view-get_account a l = ground (
    arith,
    λ (i : InnerAccount). view_accounts-update l.accounts a (loaded_account b a i),
    update_same (view_accounts b l.accounts) a,
  )

  pub view-modify_account :
      (a : ℕ) (f : SimpleAccount → SimpleAccount) (g : AccountView → AccountView) (l : StateLedger)
      → ((acc : SimpleAccount) → view_account b a (f acc) ≡ g (view_account b a acc))
      → view b (modify_account b a f l) ≡ modify_view b a g (view b l)
  unfolding modify_account
  view-modify_account a f g l h = rw (
    view-get_or_create a l (f (get_or_create_account b a l).0),
    view-put_account a (f (get_or_create_account b a l).0) l,
    h (get_or_create_account b a l).0,
    view_account-get_or_create a l,
  )

  -- GetOrCreateAccount finds an account in the cache, loads it, or creates it.
  pub get_or_create-cases :
      (a : ℕ) (l : StateLedger)
      → ((acc : SimpleAccount) × (l.accounts a ≡ some acc)
          × (get_or_create_account b a l ≡ (acc, l)))
        ⊎ ((i : InnerAccount) × (l.accounts a ≡ none)
            × (stored_account b a ≡ some i)
            × (get_or_create_account b a l
                ≡ (loaded_account b a i, put_account a (loaded_account b a i) l)))
        ⊎ ((l.accounts a ≡ none)
            × (stored_account b a ≡ none)
            × (get_or_create_account b a l ≡ (
              created_account b,
              put_account a (created_account b) (append (create_object_change a) l),
            )))
  unfolding get_or_create_account get_account
  get_or_create-cases a l = elim (Option-cases (l.accounts a)) [
    | inr (acc, e) ↦ inl (acc, e, ground arith)
    | inl e ↦ elim (Option-cases (stored_account b a)) [
      | inr (i, s) ↦ inr (inl (i, e, s, ground arith))
      | inl s ↦ inr (inr (e, s, ground arith))
    ]
  ]
