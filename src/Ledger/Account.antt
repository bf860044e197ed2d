-- ===== src/Ledger/Account.antt =====
-- SimpleAccount of internal/ledger/account.go. A method gets the address it is stored under, and
-- returns the account with the changes that it appends to the journal, in order. Log statements
-- are modelled by the panics of their arguments; storageTrie is not modelled.
use axiom_lib.Common.{
  ℕ, Bool, true, false, not, Option, none, some, List, [], ◌∷◌, ◌==◌, if◌then◌else◌,
}
use axiom_lib.Common.Int.{ℤ, pos, ◌+ℤ◌, ◌-ℤ◌, is_zero}
use axiom_lib.Common.Maps.{update}
use axiom_lib.Ledger.Types.{
  Bytes, InnerAccount, SimpleAccount, Backend, Change, balance_change, nonce_change, storage_change,
  code_change,
}

abbrev pub or_else : {A : Type 0} → Option A → Option A → Option A
or_else none y = y
or_else (some x) y = some x

-- NewAccount
abbrev pub new_account : SimpleAccount
new_account = record {
  origin_account = none;
  dirty_account = none;
  origin_state = λ _. none;
  pending_state = λ _. none;
  dirty_state = λ _. none;
  origin_code = none;
  dirty_code = none;
  is_self_destructed = false;
  is_created = false;
}

-- A field of dirtyAccount, else of originAccount, else a default.
abbrev pub inner_field : {A : Type 0} → (InnerAccount → A) → A → SimpleAccount → A
inner_field f d acc = elim acc.dirty_account [
  | some i ↦ f i
  | none ↦ elim acc.origin_account [ some i ↦ f i | none ↦ d ]
]

-- GetNonce, GetBalance, CodeHash
abbrev pub get_nonce : SimpleAccount → ℕ
get_nonce = inner_field InnerAccount.nonce 0

abbrev pub get_balance : SimpleAccount → ℤ
get_balance = inner_field InnerAccount.balance (pos 0)

abbrev pub code_hash : SimpleAccount → Option ℕ
code_hash = inner_field InnerAccount.code_hash none

-- SimpleAccount.setState
abbrev pub put_state : ℕ → Option ℕ → SimpleAccount → SimpleAccount
put_state key v acc = record acc { dirty_state = update acc.dirty_state key (some v) }

abbrev pub set_self_destructed : Bool → SimpleAccount → SimpleAccount
set_self_destructed d acc = record acc { is_self_destructed = d }

module _ (b : Backend) where
  abbrev pub dirtied_account : SimpleAccount → InnerAccount
  dirtied_account acc = elim acc.dirty_account [
    | some i ↦ i
    | none ↦ b.copy_or_new_if_empty acc.origin_account
  ]

  -- SimpleAccount.setBalance
  abbrev pub put_balance : ℤ → SimpleAccount → SimpleAccount
  put_balance v acc = record acc {
    dirty_account = some (record (dirtied_account acc) { balance = v });
  }

  -- SimpleAccount.setNonce
  abbrev pub put_nonce : ℕ → SimpleAccount → SimpleAccount
  put_nonce n acc = record acc { dirty_account = some (record (dirtied_account acc) { nonce = n }) }

  -- SimpleAccount.setCodeAndHash
  abbrev pub put_code_and_hash : Option Bytes → SimpleAccount → SimpleAccount
  put_code_and_hash c acc = record acc {
    dirty_account = some (record (dirtied_account acc) { code_hash = some (b.keccak c) });
    dirty_code = c;
  }

  abbrev slice_panics : Option Bytes → Bool
  slice_panics none = false
  slice_panics (some c) = not (b.has_four c)

  -- Whether Code panics: the arguments of its log statements slice the code to four bytes.
  unfoldable pub code_panics : ℕ → SimpleAccount → Bool
  code_panics a acc = elim acc.dirty_code [
    | some c ↦ slice_panics (some c)
    | none ↦ elim acc.origin_code [
      | some c ↦ slice_panics (some c)
      | none ↦ elim (code_hash acc) [ none ↦ false | some h ↦ slice_panics (b.stored_code a h) ]
    ]
  ]

  -- Code, where it does not panic; code that is read from the storage is cached.
  unfoldable pub code : ℕ → SimpleAccount → Option Bytes × SimpleAccount
  code a acc = elim acc.dirty_code [
    | some c ↦ (some c, acc)
    | none ↦ elim acc.origin_code [
      | some c ↦ (some c, acc)
      | none ↦ elim (code_hash acc) [
        | none ↦ (none, acc)
        | some h ↦ (
          b.stored_code a h,
          record acc { origin_code = b.stored_code a h; dirty_code = b.stored_code a h },
        )
      ]
    ]
  ]

  -- What a slot holds below the ledger: in the snapshot, else in the storage trie.
  abbrev pub stored_state : ℕ → ℕ → Option ℕ
  stored_state a key = elim (b.snapshot_storage a key) [ some v ↦ v | none ↦ b.trie_storage a key ]

  -- Reads originState and fills it.
  abbrev pub origin_value : ℕ → ℕ → SimpleAccount → Option ℕ × SimpleAccount
  origin_value a key acc = elim (acc.origin_state key) [
    | some v ↦ (v, acc)
    | none ↦ (
      stored_state a key,
      record acc { origin_state = update acc.origin_state key (some (stored_state a key)) },
    )
  ]

  -- Reads pendingState, else originState.
  abbrev pub committed_value : ℕ → ℕ → SimpleAccount → Option ℕ × SimpleAccount
  committed_value a key acc = elim (acc.pending_state key) [
    | some v ↦ (v, acc)
    | none ↦ origin_value a key acc
  ]

  -- GetState; its Boolean says whether the value is present.
  unfoldable pub get_state : ℕ → ℕ → SimpleAccount → Option ℕ × SimpleAccount
  get_state a key acc = elim (acc.dirty_state key) [
    | some v ↦ (v, acc)
    | none ↦ committed_value a key acc
  ]

  -- GetCommittedState, which returns the zero hash for nil.
  unfoldable pub get_committed_state : ℕ → ℕ → SimpleAccount → ℕ × SimpleAccount
  get_committed_state a key acc =
      let (v, acc') = committed_value a key acc in (elim v [ some x ↦ x | none ↦ 0 ], acc')

  -- SimpleAccount.SetState
  unfoldable pub set_state : ℕ → ℕ → Option ℕ → SimpleAccount → SimpleAccount × List Change
  set_state a key v acc =
      let (prev, acc') = get_state a key acc in
      let dirtied = record acc' { dirty_account = some (dirtied_account acc') } in
      (put_state key v dirtied, storage_change a key prev ∷ [])

  -- SimpleAccount.SetCodeAndHash
  unfoldable pub set_code_and_hash : ℕ → Option Bytes → SimpleAccount → SimpleAccount × List Change
  set_code_and_hash a c acc =
      let (prev, acc') = code a acc in (put_code_and_hash c acc', code_change a prev ∷ [])

  -- SimpleAccount.SetNonce
  unfoldable pub set_nonce : ℕ → ℕ → SimpleAccount → SimpleAccount × List Change
  set_nonce a n acc = (put_nonce n acc, nonce_change a (get_nonce acc) ∷ [])

  -- SimpleAccount.SetBalance
  unfoldable pub set_balance : ℕ → ℤ → SimpleAccount → SimpleAccount × List Change
  set_balance a v acc = (put_balance v acc, balance_change a (get_balance acc) ∷ [])

  -- SimpleAccount.SubBalance
  unfoldable pub sub_balance : ℕ → ℤ → SimpleAccount → SimpleAccount × List Change
  sub_balance a amount acc =
      if is_zero amount then (acc, []) else set_balance a (get_balance acc -ℤ amount) acc

  -- SimpleAccount.AddBalance
  unfoldable pub add_balance : ℕ → ℤ → SimpleAccount → SimpleAccount × List Change
  add_balance a amount acc =
      if is_zero amount then (acc, []) else set_balance a (get_balance acc +ℤ amount) acc

  -- Whether IsEmpty panics, which asks for the code last.
  unfoldable pub is_empty_panics : ℕ → SimpleAccount → Bool
  is_empty_panics a acc =
      if is_zero (get_balance acc)
      then (if get_nonce acc == 0 then code_panics a acc else false)
      else false

  -- IsEmpty, where it does not panic
  unfoldable pub is_empty : ℕ → SimpleAccount → Bool × SimpleAccount
  is_empty a acc =
      if is_zero (get_balance acc)
      then (if get_nonce acc == 0
          then (let (c, acc') = code a acc in
              elim c [
                | some _ ↦ (false, acc')
                | none ↦ (if acc'.is_self_destructed then (false, acc') else (true, acc'))
              ])
          else (false, acc))
      else (false, acc)
