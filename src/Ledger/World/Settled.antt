-- ===== src/Ledger/World/Settled.antt =====
-- What Finalise of internal/ledger/state_ledger.go does to the world.
use axiom_lib.Common.{ℕ, false, Option, none, some, ◌≡◌, refl, ap, arith, Option-cases, inl, inr}
use mathlib.Core.Path.{fun_ext}
use axiom_lib.Ledger.Types.{SimpleAccount, InnerAccount, StateLedger, Backend}
use axiom_lib.Ledger.Finalise.{finalise, finalise_account, finalise_found}
use axiom_lib.Ledger.Journal.{loaded_account, stored_account}
use axiom_lib.Ledger.World.{
  AccountView, World, view, view_account, view_found, peek, state_of, committed_of,
}

-- The account after its transaction: its slots are committed.
abbrev pub settle_account : AccountView → AccountView
settle_account x = record x { committed = x.state; is_created = false }

abbrev pub settle_found : Option AccountView → Option AccountView
settle_found none = none
settle_found (some x) = some (settle_account x)

-- The world after a transaction.
abbrev pub settle : World → World
settle w = record w { accounts = λ a. settle_found (w.accounts a); refund = 0 }

module _ (b : Backend) where
  committed_of-finalise :
      (a : ℕ) (acc : SimpleAccount) → committed_of b a (finalise_account acc) ≡ state_of b a acc
  committed_of-finalise a acc = fun_ext (λ j. ground arith)

  view_account-finalise :
      (a : ℕ) (acc : SimpleAccount)
      → view_account b a (finalise_account acc) ≡ settle_account (view_account b a acc)
  view_account-finalise a acc =
      ap (λ g. record (settle_account (view_account b a acc)) { state = g; committed = g })
        (committed_of-finalise a acc)

  -- An account that is not in the cache has nothing to settle.
  view_account-loaded :
      (a : ℕ) (i : InnerAccount)
      → view_account b a (loaded_account b a i)
        ≡ settle_account (view_account b a (loaded_account b a i))
  view_account-loaded a i = elim (Option-cases i.code_hash) [
    | inl e ↦ rw e refl
    | inr (h, e) ↦ rw e refl
  ]

  view_found-finalise :
      (a : ℕ) (o : Option SimpleAccount)
      → view_found b a (peek b a (finalise_found o)) ≡ settle_found (view_found b a (peek b a o))
  view_found-finalise a (some acc) = ap some (view_account-finalise a acc)
  view_found-finalise a none = elim (Option-cases (stored_account b a)) [
    | inl e ↦ ground (arith, e)
    | inr (i, e) ↦ ground (arith, e, view_account-loaded a i)
  ]

  -- Finalise commits the slots of every account, of which none counts as created any more, sets
  -- the refund to zero, and leaves the rest of the world as it is.
  pub view-finalise : (l : StateLedger) → view b (finalise l) ≡ settle (view b l)
  unfolding view finalise
  view-finalise l =
      ap (λ m. record (settle (view b l)) { accounts = m })
        (fun_ext (λ a. view_found-finalise a (l.accounts a)))
