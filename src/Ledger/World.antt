-- ===== src/Ledger/World.antt =====
-- What a client of the state ledger sees: the world without caches and journal, and what undoing an
-- entry of the journal does to it. The code hash is left out, since undoing a change of the code does
-- not restore it.
pub mod Accounts
pub mod Undo
pub mod Methods
pub mod Coded
pub mod Frame
pub mod Restore
pub mod Steps
pub mod AccessSteps
pub mod Programs
pub mod Exec
pub mod Fits
pub mod Total
pub mod Reads
pub mod CodeHash
pub mod Settled
use axiom_lib.Common.{ℕ, Bool, Option, none, some, List, [], ◌∷◌}
use axiom_lib.Common.Int.{ℤ}
use axiom_lib.Common.Maps.{update}
use axiom_lib.Common.Words.{sub64}
use axiom_lib.Ledger.Types.{
  Bytes, InnerAccount, SimpleAccount, Change, create_object_change, suicide_change, balance_change,
  nonce_change, storage_change, code_change, refund_change, add_log_change, add_preimage_change,
  access_list_add_account_change, access_list_add_slot_change, transient_storage_change, EvmLog,
  AccessList, StateLedger, Backend,
}
use axiom_lib.Ledger.Access.{delete_slot, delete_address}
use axiom_lib.Ledger.Account.{or_else, get_nonce, get_balance, stored_state}
use axiom_lib.Ledger.Journal.{stored_account, loaded_account, created_account}
use axiom_lib.Ledger.Operations.{get_transient}

pub record AccountView : Type 0 where
  pub nonce : ℕ
  pub balance : ℤ
  pub code : Option Bytes
  pub origin_code : Option Bytes
  pub is_self_destructed : Bool
  pub is_created : Bool
  pub state : ℕ → Option ℕ
  pub committed : ℕ → Option ℕ

pub record World : Type 0 where
  pub accounts : ℕ → Option AccountView
  pub refund : ℕ
  pub access_list : AccessList
  pub preimages : ℕ → Option Bytes
  pub logs : ℕ → List EvmLog
  pub log_size : ℕ
  pub transient : Option (ℕ → ℕ → ℕ)

module _ (b : Backend) where
  abbrev pub committed_of : ℕ → SimpleAccount → ℕ → Option ℕ
  committed_of a acc key = elim (acc.pending_state key) [
    | some v ↦ v
    | none ↦ elim (acc.origin_state key) [ some v ↦ v | none ↦ stored_state b a key ]
  ]

  abbrev pub state_of : ℕ → SimpleAccount → ℕ → Option ℕ
  state_of a acc key = elim (acc.dirty_state key) [ some v ↦ v | none ↦ committed_of a acc key ]

  abbrev pub view_account : ℕ → SimpleAccount → AccountView
  view_account a acc = record {
    nonce = get_nonce acc;
    balance = get_balance acc;
    code = or_else acc.dirty_code acc.origin_code;
    origin_code = acc.origin_code;
    is_self_destructed = acc.is_self_destructed;
    is_created = acc.is_created;
    state = state_of a acc;
    committed = committed_of a acc;
  }

  -- The account that GetAccount would find.
  abbrev pub peek_stored : ℕ → Option SimpleAccount
  peek_stored a = elim (stored_account b a) [ none ↦ none | some i ↦ some (loaded_account b a i) ]

  abbrev pub peek : ℕ → Option SimpleAccount → Option SimpleAccount
  peek a none = peek_stored a
  peek a (some acc) = some acc

  abbrev pub view_found : ℕ → Option SimpleAccount → Option AccountView
  view_found a none = none
  view_found a (some acc) = some (view_account a acc)

  abbrev pub view_accounts : (ℕ → Option SimpleAccount) → ℕ → Option AccountView
  view_accounts m a = view_found a (peek a (m a))

  unfoldable pub view : StateLedger → World
  view l = record {
    accounts = view_accounts l.accounts;
    refund = l.refund;
    access_list = l.access_list;
    preimages = l.preimages;
    logs = l.logs;
    log_size = l.log_size;
    transient = elim l.transient_storage [ none ↦ none | some t ↦ some (get_transient t) ];
  }

  abbrev pub view_or_new : ℕ → Option AccountView → AccountView
  view_or_new a none = view_account a (created_account b)
  view_or_new a (some v) = v

  -- Changes an account of the world, which is created where it is missing.
  abbrev pub modify_view : ℕ → (AccountView → AccountView) → World → World
  modify_view a g w = record w {
    accounts = update w.accounts a (some (g (view_or_new a (w.accounts a))));
  }

  -- Undoing an entry of the journal, as the world sees it.
  abbrev pub undo : Change → World → Option World
  undo (create_object_change a) w =
      some (record w { accounts = update w.accounts a (view_found a (peek_stored a)) })
  undo (suicide_change a prev x) w =
      some (modify_view a (λ v. record v { is_self_destructed = prev; balance = x }) w)
  undo (balance_change a x) w = some (modify_view a (λ v. record v { balance = x }) w)
  undo (nonce_change a n) w = some (modify_view a (λ v. record v { nonce = n }) w)
  undo (code_change a c) w =
      some (modify_view a (λ v. record v { code = or_else c v.origin_code }) w)
  undo (storage_change a key x) w =
      some (modify_view a (λ v. record v { state = update v.state key x }) w)
  undo (refund_change n) w = some (record w { refund = n })
  undo (add_preimage_change h) w = some (record w { preimages = update w.preimages h none })
  undo (access_list_add_account_change a) w =
      some (record w { access_list = delete_address a w.access_list })
  undo (access_list_add_slot_change a s) w = elim (delete_slot a s w.access_list) [
    | none ↦ none
    | some al ↦ some (record w { access_list = al })
  ]
  undo (add_log_change h) w = elim (w.logs h) [
    | [] ↦ none
    | _ ∷ ls ↦ some (record w { logs = update w.logs h ls; log_size = sub64 w.log_size 1 })
  ]
  undo (transient_storage_change a key x) w = elim w.transient [
    | none ↦ none
    | some t ↦ some (record w { transient = some (update t a (update (t a) key x)) })
  ]

  abbrev pub undo_all : List Change → World → Option World
  undo_all [] w = some w
  undo_all (c ∷ cs) w = elim (undo c w) [ none ↦ none | some w' ↦ undo_all cs w' ]

-- The world with another account at an address.
abbrev pub see : ℕ → AccountView → World → World
see a v w = record w { accounts = update w.accounts a (some v) }
