-- ===== src/Ledger/Journal.antt =====
-- The journal of internal/ledger/state_changer.go, the accounts of the ledger, and the snapshots of
-- internal/ledger/state_accessor.go. Where Go would panic the result is `none`.
use axiom_lib.Common.{
  ℕ, ◌+◌, ◌-◌, true, Option, none, some, List, [], ◌∷◌, ◌++◌, ◌==◌, leb, if◌then◌else◌, length,
  take, drop,
}
use axiom_lib.Common.Int.{pos, ◌+ℤ◌, ◌-ℤ◌}
use axiom_lib.Common.Maps.{update}
use axiom_lib.Common.Words.{sub64}
use axiom_lib.Ledger.Types.{
  InnerAccount, SimpleAccount, Change, create_object_change, suicide_change, balance_change,
  nonce_change, storage_change, code_change, refund_change, add_log_change, add_preimage_change,
  access_list_add_account_change, access_list_add_slot_change, transient_storage_change, Revision,
  StateLedger, Backend,
}
use axiom_lib.Ledger.Access.{delete_slot, delete_address}
use axiom_lib.Ledger.Account.{
  new_account, put_balance, put_nonce, put_code_and_hash, put_state, set_self_destructed,
}

-- The address whose counter a change raises.
abbrev pub dirtied : Change → Option ℕ
dirtied (create_object_change a) = some a
dirtied (suicide_change a _ _) = some a
dirtied (balance_change a _) = some a
dirtied (nonce_change a _) = some a
dirtied (code_change a _) = some a
dirtied (storage_change a _ _) = some a
dirtied _ = none

-- stateChanger.append
unfoldable pub append : Change → StateLedger → StateLedger
append c l = record l {
  changes = c ∷ l.changes;
  dirties = elim (dirtied c) [
    | some a ↦ update l.dirties a (l.dirties a +ℤ pos 1)
    | none ↦ l.dirties
  ];
}

-- A method's changes, in the order in which it appends them.
abbrev pub append_all : List Change → StateLedger → StateLedger
append_all [] l = l
append_all (c ∷ cs) l = append_all cs (append c l)

abbrev pub put_account : ℕ → SimpleAccount → StateLedger → StateLedger
put_account a acc l = record l { accounts = update l.accounts a (some acc) }

-- transientStorage.Set on a map that is not nil
abbrev pub set_transient : ℕ → ℕ → ℕ → (ℕ → Option (ℕ → ℕ)) → ℕ → Option (ℕ → ℕ)
set_transient a key v t =
    update t a (some (update (elim (t a) [ some m ↦ m | none ↦ λ _. 0 ]) key v))

-- setTransientState, which panics on a nil map
abbrev pub set_transient_state : ℕ → ℕ → ℕ → StateLedger → Option StateLedger
set_transient_state a key v l = elim l.transient_storage [
  | none ↦ none
  | some t ↦ some (record l { transient_storage = some (set_transient a key v t) })
]

-- addLogChange.revert on the logs of its transaction, newest first
abbrev pub pop_log : ℕ → StateLedger → Option StateLedger
pop_log h l = elim (l.logs h) [
  | [] ↦ none
  | _ ∷ ls ↦ some (record l { logs = update l.logs h ls; log_size = sub64 l.log_size 1 })
]

module _ (b : Backend) where
  -- An account of the snapshot or of the trie, with its code.
  abbrev pub loaded_account : ℕ → InnerAccount → SimpleAccount
  loaded_account a i = elim i.code_hash [
    | none ↦ record new_account { origin_account = some i }
    | some h ↦ record new_account {
      origin_account = some i;
      origin_code = b.stored_code a h;
      dirty_code = b.stored_code a h;
    }
  ]

  -- Where GetAccount looks below the ledger.
  abbrev pub stored_account : ℕ → Option InnerAccount
  stored_account a = elim (b.snapshot_account a) [ some i ↦ i | none ↦ b.trie_account a ]

  -- GetAccount
  unfoldable pub get_account : ℕ → StateLedger → Option SimpleAccount × StateLedger
  get_account a l = elim (l.accounts a) [
    | some acc ↦ (some acc, l)
    | none ↦ elim (stored_account a) [
      | none ↦ (none, l)
      | some i ↦ (some (loaded_account a i), put_account a (loaded_account a i) l)
    ]
  ]

  abbrev pub created_account : SimpleAccount
  created_account = record new_account { is_created = true }

  -- GetOrCreateAccount
  unfoldable pub get_or_create_account : ℕ → StateLedger → SimpleAccount × StateLedger
  get_or_create_account a l =
      let (found, l') = get_account a l in
      elim found [
        | some acc ↦ (acc, l')
        | none ↦
            (created_account, put_account a created_account (append (create_object_change a) l'))
      ]

  -- Runs a method that appends nothing on an account.
  unfoldable pub modify_account : ℕ → (SimpleAccount → SimpleAccount) → StateLedger → StateLedger
  modify_account a f l = let (acc, l') = get_or_create_account a l in put_account a (f acc) l'

  -- The methods `revert` of the changes
  unfoldable pub revert_change : Change → StateLedger → Option StateLedger
  revert_change (create_object_change a) l = some (record l { accounts = update l.accounts a none })
  revert_change (suicide_change a prev v) l =
      some (modify_account a (λ acc. put_balance b v (set_self_destructed prev acc)) l)
  revert_change (balance_change a v) l = some (modify_account a (put_balance b v) l)
  revert_change (nonce_change a n) l = some (modify_account a (put_nonce b n) l)
  revert_change (code_change a c) l = some (modify_account a (put_code_and_hash b c) l)
  revert_change (storage_change a key v) l = some (modify_account a (put_state key v) l)
  revert_change (refund_change n) l = some (record l { refund = n })
  revert_change (add_preimage_change h) l =
      some (record l { preimages = update l.preimages h none })
  revert_change (access_list_add_account_change a) l =
      some (record l { access_list = delete_address a l.access_list })
  revert_change (access_list_add_slot_change a s) l = elim (delete_slot a s l.access_list) [
    | none ↦ none
    | some al ↦ some (record l { access_list = al })
  ]
  revert_change (add_log_change h) l = pop_log h l
  revert_change (transient_storage_change a key v) l = set_transient_state a key v l

  -- stateChanger.revert lowers the counter of the address, and deletes it at 0.
  abbrev pub undirty : Change → StateLedger → StateLedger
  undirty c l = elim (dirtied c) [
    | some a ↦ record l { dirties = update l.dirties a (l.dirties a -ℤ pos 1) }
    | none ↦ l
  ]

  -- The loop of stateChanger.revert over the changes, newest first.
  unfoldable pub revert_all : List Change → StateLedger → Option StateLedger
  revert_all [] l = some l
  revert_all (c ∷ cs) l = elim (revert_change c l) [
    | none ↦ none
    | some l' ↦ revert_all cs (undirty c l')
  ]

  -- `changes[:snapshot]`, of changes that are kept newest first
  abbrev pub truncate : ℕ → StateLedger → StateLedger
  truncate n l = record l { changes = drop (length l.changes - n) l.changes }

  -- stateChanger.revert
  unfoldable pub revert : ℕ → StateLedger → Option StateLedger
  revert n l = elim (revert_all (take (length l.changes - n) l.changes) l) [
    | none ↦ none
    | some l' ↦ some (truncate n l')
  ]

-- `sort.Search` for the first revision with an id of `revid` or more, which has to be `revid`; with
-- the index of its changes and the revisions before it.
abbrev pub find_revision : ℕ → List Revision → Option (ℕ × List Revision)
find_revision revid [] = none
find_revision revid (r ∷ rs) =
    if leb revid r.id
    then (if r.id == revid then some (r.changer_index, []) else none)
    else elim (find_revision revid rs) [ none ↦ none | some (i, before) ↦ some (i, r ∷ before) ]

-- Snapshot
unfoldable pub snapshot : StateLedger → ℕ × StateLedger
snapshot l = (
  l.next_revision_id,
  record l {
    next_revision_id = l.next_revision_id + 1;
    valid_revisions =
        l.valid_revisions
        ++ record { id = l.next_revision_id; changer_index = length l.changes } ∷ [];
  },
)

-- RevertToSnapshot
unfoldable pub revert_to_snapshot : Backend → ℕ → StateLedger → Option StateLedger
revert_to_snapshot b revid l = elim (find_revision revid l.valid_revisions) [
  | none ↦ none
  | some (i, before) ↦ elim (revert b i l) [
    | none ↦ none
    | some l' ↦ some (record l' { valid_revisions = before })
  ]
]
