-- ===== src/Ledger/Finalise.antt =====
-- The end of a transaction: StateLedgerImpl.Finalise of internal/ledger/state_ledger.go, and
-- ClearChangerAndRefund and PrepareAccessList of internal/ledger/state_accessor.go. The preloading
-- of trie nodes is not modelled.
use axiom_lib.Common.{ℕ, false, Option, none, some, List, [], ◌∷◌}
use axiom_lib.Common.Int.{pos}
use axiom_lib.Ledger.Types.{SimpleAccount, StateLedger}
use axiom_lib.Ledger.Operations.{add_address_to_access_list, add_slot_to_access_list}

-- SimpleAccount.Finalise, and SetCreated(false)
abbrev pub finalise_account : SimpleAccount → SimpleAccount
finalise_account acc = record acc {
  pending_state =
      λ key. elim (acc.dirty_state key) [ some v ↦ some v | none ↦ acc.pending_state key ];
  dirty_state = λ _. none;
  is_created = false;
}

-- ClearChangerAndRefund, with stateChanger.reset
abbrev pub clear_changer_and_refund : StateLedger → StateLedger
clear_changer_and_refund l = record l {
  changes = [];
  dirties = λ _. pos 0;
  refund = 0;
  valid_revisions = [];
  next_revision_id = 0;
}

abbrev pub finalise_found : Option SimpleAccount → Option SimpleAccount
finalise_found none = none
finalise_found (some acc) = some (finalise_account acc)

-- Finalise
unfoldable pub finalise : StateLedger → StateLedger
finalise l = clear_changer_and_refund (record l { accounts = λ a. finalise_found (l.accounts a) })

abbrev pub add_slots : ℕ → List ℕ → StateLedger → Option StateLedger
add_slots a [] l = some l
add_slots a (s ∷ ss) l = elim (add_slot_to_access_list a s l) [
  | none ↦ none
  | some l' ↦ add_slots a ss l'
]

abbrev pub add_tuples : List (ℕ × List ℕ) → StateLedger → Option StateLedger
add_tuples [] l = some l
add_tuples ((a, ss) ∷ ts) l = elim (add_slots a ss (add_address_to_access_list a l)) [
  | none ↦ none
  | some l' ↦ add_tuples ts l'
]

abbrev pub add_addresses : List ℕ → StateLedger → StateLedger
add_addresses [] l = l
add_addresses (a ∷ xs) l = add_addresses xs (add_address_to_access_list a l)

abbrev pub add_destination : Option ℕ → StateLedger → StateLedger
add_destination none l = l
add_destination (some a) l = add_address_to_access_list a l

-- PrepareAccessList
unfoldable pub prepare_access_list :
    ℕ → Option ℕ → List ℕ → List (ℕ × List ℕ) → StateLedger → Option StateLedger
prepare_access_list sender dst precompiles tuples l =
    add_tuples tuples
      (add_addresses precompiles (add_destination dst (add_address_to_access_list sender l)))
