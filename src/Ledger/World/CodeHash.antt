-- ===== src/Ledger/World/CodeHash.antt =====
-- The code hash after a change of the code is reverted.
use axiom_lib.Common.{ℕ, suc, ◌-◌, Option, none, some, ◌≡◌, refl, sym, ◌∙◌, arith, length}
use axiom_lib.Common.Maps.{update, update_self}
use axiom_lib.Ledger.Types.{Bytes, code_change, SimpleAccount, StateLedger, Backend, IsLawful}
use axiom_lib.Ledger.Account.{or_else, code_hash, put_code_and_hash, set_code_and_hash, code_panics}
use axiom_lib.Ledger.Journal.{
  append, put_account, get_account, get_or_create_account, modify_account, revert, revert_all,
  revert_change,
}
use axiom_lib.Ledger.Operations.{ledger_set_code, on_account}
use axiom_lib.Ledger.World.Methods.{IsCoded, code-IsCoded}
use axiom_lib.Ledger.World.Steps.{unless_panics-some}

-- The account at `a` is there with this code hash.
abbrev pub HasHash : ℕ → ℕ → Option StateLedger → Type 0
HasHash a h none = ⊥
HasHash a h (some l) = (acc : SimpleAccount) × (l.accounts a ≡ some acc) × (code_hash acc ≡ some h)

module _ (b : Backend) (v : IsLawful b) where
  set_code_cached :
      (a : ℕ) (c : Option Bytes) (l m : StateLedger) (acc : SimpleAccount)
      → l.accounts a ≡ some acc
      → IsCoded b a acc
      → ledger_set_code b a c l ≡ some m
      → m
        ≡ append
            (code_change a (or_else acc.dirty_code acc.origin_code))
            (put_account a (put_code_and_hash b c acc) l)
  unfolding ledger_set_code on_account get_or_create_account get_account set_code_and_hash
  set_code_cached a c l m acc e h r =
      sym (
        unless_panics-some b v (code_panics b a) a (on_account b a (set_code_and_hash b a c)) l m r)
      ∙ ground (arith, code-IsCoded b v a acc h)

  get_or_create-found :
      (a : ℕ) (acc : SimpleAccount) (l : StateLedger)
      → l.accounts a ≡ some acc
      → get_or_create_account b a l ≡ (acc, l)
  unfolding get_or_create_account get_account
  get_or_create-found a acc l e = ground arith

  one_more : (n : ℕ) → suc n - n ≡ 1
  one_more n = omega arith

  -- After a SetCode that does not panic, on an account that the ledger holds, reverting that one change leaves the account
  -- with the hash of the code that it had before, also where it had neither code nor code hash.
  pub set_code-revert-HasHash :
      (a : ℕ) (c : Option Bytes) (l m : StateLedger) (acc : SimpleAccount)
      → l.accounts a ≡ some acc
      → IsCoded b a acc
      → ledger_set_code b a c l ≡ some m
      → HasHash a
          (b.keccak (or_else acc.dirty_code acc.origin_code))
          (revert b (length l.changes) m)
  unfolding revert append revert_all revert_change modify_account
  set_code-revert-HasHash a c l m acc e h r =
      let p = or_else acc.dirty_code acc.origin_code in
      let set = put_code_and_hash b c acc in
      rw
        (
          set_code_cached a c l m acc e h r,
          revert,
          one_more (length l.changes),
          revert_all,
          revert_change,
          modify_account,
          get_or_create-found a set (append (code_change a p) (put_account a set l))
              (update_self l.accounts a (some set)),
        )
        (
          put_code_and_hash b p set,
          update_self (update l.accounts a (some set)) a (some (put_code_and_hash b p set)),
          refl,
        )
