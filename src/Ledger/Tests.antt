-- ===== src/Ledger/Tests.antt =====
-- The properties of the state ledger at concrete ledgers.
use axiom_lib.Common.{
  true, ==_iff, Bool, sym, ◌∙◌, ℕ, false, Option, none, some, [], ◌∷◌, ◌≡◌, refl, arith, ◌==◌, leb,
  length, subst, if◌then◌else◌,
}
use axiom_lib.Common.Int.{pos}
use axiom_lib.Ledger.Types.{InnerAccount, StateLedger, Backend, IsLawful, Bytes, balance_change}
use axiom_lib.Ledger.Access.{new_access_list}
use axiom_lib.Ledger.World.Restore.{IsWell}
use axiom_lib.Ledger.World.Programs.{
  Program, finish, perform, call, op_set_balance, op_add_slot, op_set_state, Reverts,
}
use axiom_lib.Ledger.World.Exec.{view-snapshot, snapshot-IsKept, revert_to_snapshot-IsRestored}
use axiom_lib.Ledger.World.Total.{IsTotal, Runs, run-total}
use axiom_lib.Ledger.Finalise.{finalise}
use axiom_lib.Ledger.World.Settled.{settle, view-finalise}
use axiom_lib.Ledger.World.CodeHash.{HasHash, set_code-revert-HasHash}
use axiom_lib.Ledger.World.{AccountView, World, view, view_account, undo_all}
use axiom_lib.Ledger.Operations.{ledger_state, ledger_set_state, ledger_set_code, on_account}
use axiom_lib.Ledger.Account.{code_panics, set_code_and_hash}
use axiom_lib.Ledger.World.Fits.{IsFit, IsFitAccount}
use axiom_lib.Ledger.World.Coded.{from_some}
use axiom_lib.Common.Maps.{update}
use mathlib.Core.Option.{map}
use axiom_lib.Ledger.World.Reads.{ledger_state-set_state}
use axiom_lib.Ledger.World.Undo.{view-revert_all}
use axiom_lib.Ledger.Journal.{
  snapshot, revert, revert_all, loaded_account, created_account, get_or_create_account, get_account,
}

abbrev no_account : InnerAccount
no_account = record { nonce = 0; balance = pos 0; code_hash = none; storage_root = 0 }

-- One account, 7, is stored, with code under the hash 5.
abbrev seven : InnerAccount
seven = record { nonce = 3; balance = pos 100; code_hash = some 5; storage_root = 1 }

abbrev stored_of : ℕ → Option InnerAccount
stored_of a = if a == 7 then some seven else none

abbrev code_of : ℕ → ℕ → Option Bytes
code_of a h = if h == 5 then some (1 ∷ 2 ∷ 3 ∷ 4 ∷ []) else none

abbrev hash_of : Option Bytes → ℕ
hash_of none = 0
hash_of (some _) = 5

abbrev copy_of : Option InnerAccount → InnerAccount
copy_of none = no_account
copy_of (some a) = a

abbrev backend : Backend
backend = record {
  snapshot_account = λ _. none;
  trie_account = stored_of;
  snapshot_storage = λ _ _. none;
  trie_storage = λ _ _. none;
  stored_code = code_of;
  keccak = hash_of;
  has_four = λ c. leb 4 (length c);
  copy_or_new_if_empty = copy_of;
}

backend-IsLawful : IsLawful backend
backend-IsLawful = record {
  copy_some = λ a. refl;
  copy_none_nonce = refl;
  copy_none_balance = refl;
  copy_none_code_hash = refl;
  no_empty_code = λ a. refl;
}

abbrev empty_ledger : StateLedger
empty_ledger = record {
  accounts = λ _. none;
  changes = [];
  dirties = λ _. pos 0;
  refund = 0;
  access_list = new_access_list;
  preimages = λ _. none;
  logs = λ _. [];
  log_size = 0;
  thash = 0;
  tx_index = 0;
  transient_storage = some (λ _. none);
  valid_revisions = [];
  next_revision_id = 0;
}

empty_ledger-IsWell : IsWell backend empty_ledger
empty_ledger-IsWell = record {
  coded = λ a acc e. ground arith;
  access = record { indexed = λ a i e. ground arith };
  log_bound = omega arith;
  ids = tt;
}

-- What the empty ledger sees at an address, by whether this is 7.
seen : Bool → ℕ → Option AccountView
seen true a = some (view_account backend a (loaded_account backend a seven))
seen false a = none

seen_lem :
    (t : Bool) (a : ℕ) → (a == 7) ≡ t → World.accounts (view backend empty_ledger) a ≡ seen t a
unfolding view seen
seen_lem true a e =
    subst (λ c. World.accounts (view backend empty_ledger) c ≡ seen true c) (sym ((==_iff a 7).0 e))
      refl
seen_lem false a e = ground (arith, e)

seen-IsFitAccount :
    (t : Bool) (a : ℕ) (x : AccountView) → seen t a ≡ some x → IsFitAccount backend x
unfolding seen
seen-IsFitAccount true a x e = subst (IsFitAccount backend) (from_some e) (refl, refl)
seen-IsFitAccount false a x e = absurd (ground arith)

empty_ledger-IsFit : IsFit backend (view backend empty_ledger)
unfolding view
empty_ledger-IsFit = record {
  codes = λ a x e. seen-IsFitAccount (a == 7) a x (sym (seen_lem (a == 7) a refl) ∙ e);
  made = (_, refl);
}

snapshot-IsFit : IsFit backend (view backend (snapshot empty_ledger).1)
snapshot-IsFit = rw (view-snapshot backend backend-IsLawful empty_ledger) empty_ledger-IsFit

-- A write, and a call that writes and fails.
abbrev program : Program
program =
    perform (op_set_balance 7 (pos 40))
      (call (perform (op_set_state 8 1 (some 9)) (perform (op_add_slot 8 1) finish)) false finish)

program-IsTotal : IsTotal backend program
program-IsTotal = (tt, ((tt, (tt, tt)), tt))

snapshot-IsWell : IsWell backend (snapshot empty_ledger).1
snapshot-IsWell = (snapshot-IsKept backend backend-IsLawful empty_ledger empty_ledger-IsWell).well

program_runs : Runs backend program (snapshot empty_ledger).1
program_runs =
    run-total backend backend-IsLawful program (snapshot empty_ledger).1 program-IsTotal
      snapshot-IsWell snapshot-IsFit

revert_to_snapshot-IsRestored_example : Reverts backend empty_ledger program_runs.0
revert_to_snapshot-IsRestored_example =
    revert_to_snapshot-IsRestored backend backend-IsLawful program empty_ledger program_runs.0
      empty_ledger-IsWell program_runs.1

view-revert_all_example :
    map (view backend) (revert_all backend (balance_change 7 (pos 100) ∷ []) empty_ledger)
    ≡ undo_all backend (balance_change 7 (pos 100) ∷ []) (view backend empty_ledger)
view-revert_all_example =
    view-revert_all backend backend-IsLawful (balance_change 7 (pos 100) ∷ []) empty_ledger

ledger_state-set_state_example :
    (ledger_state backend 7 1 (ledger_set_state backend 7 1 (some 9) empty_ledger)).0 ≡ some 9
ledger_state-set_state_example =
    ledger_state-set_state backend backend-IsLawful 7 1 1 (some 9) empty_ledger

-- An account that was created and has no code.
abbrev created_ledger : StateLedger
created_ledger = record empty_ledger {
  accounts = update (λ _. none) 8 (some (created_account backend));
}

abbrev code_set : StateLedger
code_set = on_account backend 8 (set_code_and_hash backend 8 (some (1 ∷ []))) created_ledger

code_is_set : ledger_set_code backend 8 (some (1 ∷ [])) created_ledger ≡ some code_set
unfolding ledger_set_code code_panics get_or_create_account get_account
code_is_set = refl

set_code-revert-HasHash_example : HasHash 8 0 (revert backend 0 code_set)
set_code-revert-HasHash_example =
    set_code-revert-HasHash backend backend-IsLawful 8 (some (1 ∷ [])) created_ledger code_set
      (created_account backend) refl (λ n h e. ground arith) code_is_set

view-finalise_example :
    view backend (finalise (ledger_set_state backend 7 1 (some 9) empty_ledger))
    ≡ settle (view backend (ledger_set_state backend 7 1 (some 9) empty_ledger))
view-finalise_example = view-finalise backend (ledger_set_state backend 7 1 (some 9) empty_ledger)
