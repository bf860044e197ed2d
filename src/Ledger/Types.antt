-- ===== src/Ledger/Types.antt =====
-- The state of internal/ledger: SimpleAccount of account.go, the change entries of
-- state_changer.go, AccessList of access_list.go and StateLedgerImpl of state_ledger.go. Addresses,
-- hashes, keys and values of slots are numbers; an absent map entry and a nil slice are `none`.
use axiom_lib.Common.{ℕ, Bool, Option, none, some, List, ◌≡◌}
use axiom_lib.Common.Int.{ℤ, pos}

abbrev pub Bytes : Type 0
Bytes = List ℕ

-- `types.InnerAccount`
pub record InnerAccount : Type 0 where
  pub nonce : ℕ
  pub balance : ℤ
  pub code_hash : Option ℕ
  pub storage_root : ℕ

-- `SimpleAccount`. Its address is the key it is stored under. In the three state maps a key can
-- be present with a nil value.
pub record SimpleAccount : Type 0 where
  pub origin_account : Option InnerAccount
  pub dirty_account : Option InnerAccount
  pub origin_state : ℕ → Option (Option ℕ)
  pub pending_state : ℕ → Option (Option ℕ)
  pub dirty_state : ℕ → Option (Option ℕ)
  pub origin_code : Option Bytes
  pub dirty_code : Option Bytes
  pub is_self_destructed : Bool
  pub is_created : Bool

-- The entries of the journal that the code appends.
pub data Change : Type 0 where
  create_object_change : (account : ℕ) → Change
  suicide_change : (account : ℕ) (prev : Bool) (prev_balance : ℤ) → Change
  balance_change : (account : ℕ) (prev : ℤ) → Change
  nonce_change : (account : ℕ) (prev : ℕ) → Change
  storage_change : (account key : ℕ) (prev_value : Option ℕ) → Change
  code_change : (account : ℕ) (prev_code : Option Bytes) → Change
  refund_change : (prev : ℕ) → Change
  add_log_change : (tx_hash : ℕ) → Change
  add_preimage_change : (hash : ℕ) → Change
  access_list_add_account_change : (address : ℕ) → Change
  access_list_add_slot_change : (address slot : ℕ) → Change
  transient_storage_change : (account key prev_value : ℕ) → Change

-- `EvmLog`, as far as AddLog reads or writes it.
pub record EvmLog : Type 0 where
  pub transaction_hash : Option ℕ
  pub transaction_index : ℕ
  pub log_index : ℕ
  pub data_bytes : Bytes

-- `AccessList`. The index -1 of an address without slots is `some none`; a set of slots is the list
-- of its elements.
pub record AccessList : Type 0 where
  pub addresses : ℕ → Option (Option ℕ)
  pub slots : List (List ℕ)

-- `revision`
pub record Revision : Type 0 where
  pub id : ℕ
  pub changer_index : ℕ

-- `StateLedgerImpl` with its `stateChanger`. The changes and the logs of a transaction are kept
-- newest first, and a transaction without logs has the empty list; the counter of an address that
-- is not in `dirties` is 0.
pub record StateLedger : Type 0 where
  pub accounts : ℕ → Option SimpleAccount
  pub changes : List Change
  pub dirties : ℕ → ℤ
  pub refund : ℕ
  pub access_list : AccessList
  pub preimages : ℕ → Option Bytes
  pub logs : ℕ → List EvmLog
  pub log_size : ℕ
  pub thash : ℕ
  pub tx_index : ℕ
  -- the nil map before Prepare makes it
  pub transient_storage : Option (ℕ → Option (ℕ → ℕ))
  pub valid_revisions : List Revision
  pub next_revision_id : ℕ

-- The databases below the ledger, the hash and the copy of an account, which are not code of the
-- repository. A snapshot answers `none` where it is missing or fails; tries answer.
pub record Backend : Type 0 where
  pub snapshot_account : ℕ → Option (Option InnerAccount)
  pub trie_account : ℕ → Option InnerAccount
  pub snapshot_storage : ℕ → ℕ → Option (Option ℕ)
  pub trie_storage : ℕ → ℕ → Option ℕ
  -- the code of an address under a code hash
  pub stored_code : ℕ → ℕ → Option Bytes
  pub keccak : Option Bytes → ℕ
  -- whether a code can be sliced to four bytes, which Go decides by the capacity of its slice
  pub has_four : Bytes → Bool
  pub copy_or_new_if_empty : Option InnerAccount → InnerAccount

-- What the ledger relies on: a copy has the fields of its account, a new account has none of its
-- own, and no code is stored under the hash of no code.
pub record IsLawful (b : Backend) : Type 0 where
  pub copy_some : (a : InnerAccount) → b.copy_or_new_if_empty (some a) ≡ a
  pub copy_none_nonce : InnerAccount.nonce (b.copy_or_new_if_empty none) ≡ 0
  pub copy_none_balance : InnerAccount.balance (b.copy_or_new_if_empty none) ≡ pos 0
  pub copy_none_code_hash : InnerAccount.code_hash (b.copy_or_new_if_empty none) ≡ none
  pub no_empty_code : (a : ℕ) → b.stored_code a (b.keccak none) ≡ none
