-- ===== src/Ledger/Operations.antt =====
-- The operations of the state ledger in internal/ledger/state_accessor.go, and SetTransientState of
-- internal/ledger/evmstate_db.go. An operation that can panic returns an Option.
use axiom_lib.Common.{
  ℕ, ◌-◌, Bool, true, Option, none, some, List, [], ◌∷◌, ◌==◌, ltb, if◌then◌else◌,
}
use axiom_lib.Common.Int.{ℤ, pos}
use axiom_lib.Common.Maps.{update}
use axiom_lib.Common.Words.{add64}
use axiom_lib.Ledger.Types.{
  Bytes, SimpleAccount, Change, suicide_change, refund_change, add_log_change, add_preimage_change,
  access_list_add_account_change, access_list_add_slot_change, transient_storage_change, EvmLog,
  StateLedger, Backend,
}
use axiom_lib.Ledger.Access.{add_address, add_slot}
use axiom_lib.Ledger.Account.{
  get_balance, get_nonce, code_panics, is_empty, is_empty_panics, set_self_destructed,
}
use axiom_lib.Ledger.Account
use axiom_lib.Ledger.Journal.{
  append, append_all, put_account, set_transient_state, get_account, get_or_create_account,
}

-- Keeps what a method made of the account, and appends its changes.
abbrev pub store_result : ℕ → SimpleAccount × List Change → StateLedger → StateLedger
store_result a r l = let (acc, cs) = r in append_all cs (put_account a acc l)

module _ (b : Backend) where
  -- Runs a method on the account at an address, which is created where it is missing.
  unfoldable pub on_account :
      ℕ → (SimpleAccount → SimpleAccount × List Change) → StateLedger → StateLedger
  on_account a f l = let (acc, l') = get_or_create_account b a l in store_result a (f acc) l'

  -- GetBalance, GetNonce
  unfoldable pub ledger_balance : ℕ → StateLedger → ℤ × StateLedger
  ledger_balance a l = let (acc, l') = get_or_create_account b a l in (get_balance acc, l')

  unfoldable pub ledger_nonce : ℕ → StateLedger → ℕ × StateLedger
  ledger_nonce a l = let (acc, l') = get_or_create_account b a l in (get_nonce acc, l')

  -- A read that fills the caches of an account.
  abbrev pub read_account :
      {A : Type 0} → ℕ → (SimpleAccount → A × SimpleAccount) → StateLedger → A × StateLedger
  read_account a f l =
      let (acc, l') = get_or_create_account b a l in
      let (x, acc') = f acc in (x, put_account a acc' l')

  -- Runs an operation on the account at an address, unless it panics there.
  abbrev pub unless_panics :
      {A : Type 0} → (SimpleAccount → Bool) → ℕ → (StateLedger → A) → StateLedger → Option A
  unless_panics p a f l = if p (get_or_create_account b a l).0 then none else some (f l)

  -- GetState
  unfoldable pub ledger_state : ℕ → ℕ → StateLedger → Option ℕ × StateLedger
  ledger_state a key = read_account a (Account.get_state b a key)

  -- GetCode
  unfoldable pub ledger_code : ℕ → StateLedger → Option (Option Bytes × StateLedger)
  ledger_code a = unless_panics (code_panics b a) a (read_account a (Account.code b a))

  -- Empty
  unfoldable pub empty : ℕ → StateLedger → Option (Bool × StateLedger)
  empty a = unless_panics (is_empty_panics b a) a (read_account a (is_empty b a))

  -- SetBalance
  unfoldable pub ledger_set_balance : ℕ → ℤ → StateLedger → StateLedger
  ledger_set_balance a v = on_account a (Account.set_balance b a v)

  -- SubBalance, which leaves an empty account as it is
  abbrev pub sub_if_not_empty : ℕ → ℤ → SimpleAccount → SimpleAccount × List Change
  sub_if_not_empty a v acc =
      let (e, acc') = is_empty b a acc in if e then (acc', []) else Account.sub_balance b a v acc'

  unfoldable pub ledger_sub_balance : ℕ → ℤ → StateLedger → Option StateLedger
  ledger_sub_balance a v =
      unless_panics (is_empty_panics b a) a (on_account a (sub_if_not_empty a v))

  -- AddBalance
  unfoldable pub ledger_add_balance : ℕ → ℤ → StateLedger → StateLedger
  ledger_add_balance a v = on_account a (Account.add_balance b a v)

  -- SetState
  unfoldable pub ledger_set_state : ℕ → ℕ → Option ℕ → StateLedger → StateLedger
  ledger_set_state a key v = on_account a (Account.set_state b a key v)

  -- SetCode, which reads the code that was there
  unfoldable pub ledger_set_code : ℕ → Option Bytes → StateLedger → Option StateLedger
  ledger_set_code a c =
      unless_panics (code_panics b a) a (on_account a (Account.set_code_and_hash b a c))

  -- SetNonce
  unfoldable pub ledger_set_nonce : ℕ → ℕ → StateLedger → StateLedger
  ledger_set_nonce a n = on_account a (Account.set_nonce b a n)

  abbrev pub destruct_account : ℕ → SimpleAccount → SimpleAccount × List Change
  destruct_account a acc =
      let destructed = set_self_destructed true acc in
      let (acc', cs) = Account.set_balance b a (pos 0) destructed in
      (acc', suicide_change a acc.is_self_destructed (get_balance acc) ∷ cs)

  -- SelfDestruct
  unfoldable pub self_destruct : ℕ → StateLedger → StateLedger
  self_destruct a = on_account a (destruct_account a)

  -- Selfdestruct6780
  unfoldable pub selfdestruct_6780 : ℕ → StateLedger → StateLedger
  selfdestruct_6780 a l =
      let (found, l') = get_account b a l in
      elim found [ none ↦ l' | some acc ↦ (if acc.is_created then self_destruct a l' else l') ]

-- AddRefund
unfoldable pub add_refund : ℕ → StateLedger → StateLedger
add_refund gas l =
    let l' = append (refund_change l.refund) l in record l' { refund = add64 l'.refund gas }

-- SubRefund
unfoldable pub sub_refund : ℕ → StateLedger → Option StateLedger
sub_refund gas l =
    let l' = append (refund_change l.refund) l in
    if ltb l'.refund gas then none else some (record l' { refund = l'.refund - gas })

-- AddAddressToAccessList
unfoldable pub add_address_to_access_list : ℕ → StateLedger → StateLedger
add_address_to_access_list a l =
    let (changed, al) = add_address a l.access_list in
    let l' = record l { access_list = al } in
    if changed then append (access_list_add_account_change a) l' else l'

abbrev pub append_if : Bool → Change → StateLedger → StateLedger
append_if t c l = if t then append c l else l

-- AddSlotToAccessList
unfoldable pub add_slot_to_access_list : ℕ → ℕ → StateLedger → Option StateLedger
add_slot_to_access_list a s l = elim (add_slot a s l.access_list) [
  | none ↦ none
  | some ((addr_mod, slot_mod), al) ↦ some (
      append_if slot_mod (access_list_add_slot_change a s)
        (append_if addr_mod (access_list_add_account_change a) (record l { access_list = al })))
]

-- AddPreimage
unfoldable pub add_preimage : ℕ → Bytes → StateLedger → StateLedger
add_preimage h preimage l = elim (l.preimages h) [
  | some _ ↦ l
  | none ↦
      let l' = append (add_preimage_change h) l in
      record l' { preimages = update l'.preimages h (some preimage) }
]

-- The transaction of a log, by default the current one
unfoldable pub log_hash : EvmLog → StateLedger → ℕ
log_hash log l = elim log.transaction_hash [ some h ↦ h | none ↦ l.thash ]

-- AddLog
unfoldable pub add_log : EvmLog → StateLedger → StateLedger
unfolding log_hash
add_log log l =
    let h = log_hash log l in
    let l' = append (add_log_change h) l in
    let log' = record log {
      transaction_hash = some h;
      transaction_index = l.tx_index;
      log_index = l'.log_size;
    } in
    record l' { logs = update l'.logs h (log' ∷ l'.logs h); log_size = add64 l'.log_size 1 }

-- transientStorage.Get
abbrev pub get_transient : (ℕ → Option (ℕ → ℕ)) → ℕ → ℕ → ℕ
get_transient t a key = elim (t a) [ none ↦ 0 | some m ↦ m key ]

-- EvmStateDBAdaptor.GetTransientState; a nil map has no keys.
abbrev pub get_transient_state : ℕ → ℕ → StateLedger → ℕ
get_transient_state a key l = elim l.transient_storage [ none ↦ 0 | some t ↦ get_transient t a key ]

-- EvmStateDBAdaptor.SetTransientState
unfoldable pub evm_set_transient_state : ℕ → ℕ → ℕ → StateLedger → Option StateLedger
evm_set_transient_state a key v l =
    let prev = get_transient_state a key l in
    if prev == v
    then some l
    else set_transient_state a key v (append (transient_storage_change a key prev) l)
