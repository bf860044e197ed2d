-- ===== src/Ledger/World/Programs.antt =====
-- Transactions on the state ledger: sequences of operations and calls of the EVM,
-- nested to any depth. Each call takes a snapshot and, where it fails, reverts to it.
use axiom_lib.Common.{ℕ, ◌≤◌, Bool, true, false, Option, none, some, ◌≡◌}
use axiom_lib.Common.Int.{ℤ}
use axiom_lib.Ledger.Types.{Bytes, EvmLog, StateLedger, Backend}
use axiom_lib.Ledger.Journal.{snapshot, revert_to_snapshot}
use axiom_lib.Ledger.Operations.{
  ledger_set_balance, ledger_sub_balance, ledger_add_balance, ledger_set_state, ledger_set_code,
  ledger_set_nonce, self_destruct, add_refund, sub_refund, add_address_to_access_list,
  add_slot_to_access_list, add_preimage, add_log, evm_set_transient_state,
}
use axiom_lib.Ledger.World.{view}
use axiom_lib.Ledger.World.Restore.{IsWell}

-- The operations of StateLedgerImpl that write, but for Selfdestruct6780; the reads, which can load or
-- create an account, are not among them.
pub data Op : Type 0 where
  op_set_balance op_sub_balance op_add_balance : (a : ℕ) (x : ℤ) → Op
  op_set_state : (a key : ℕ) (x : Option ℕ) → Op
  op_set_code : (a : ℕ) (c : Option Bytes) → Op
  op_set_nonce : (a n : ℕ) → Op
  op_self_destruct : (a : ℕ) → Op
  op_add_refund op_sub_refund : (gas : ℕ) → Op
  op_add_address : (a : ℕ) → Op
  op_add_slot : (a s : ℕ) → Op
  op_add_preimage : (h : ℕ) (x : Bytes) → Op
  op_add_log : (x : EvmLog) → Op
  op_set_transient : (a key x : ℕ) → Op

pub data Program : Type 0 where
  finish : Program
  perform : (o : Op) (rest : Program) → Program
  -- a call with its body, and whether it succeeds
  call : (body : Program) (succeeds : Bool) (rest : Program) → Program

abbrev pub run_op : Backend → Op → StateLedger → Option StateLedger
run_op b (op_set_balance a x) l = some (ledger_set_balance b a x l)
run_op b (op_sub_balance a x) l = ledger_sub_balance b a x l
run_op b (op_add_balance a x) l = some (ledger_add_balance b a x l)
run_op b (op_set_state a key x) l = some (ledger_set_state b a key x l)
run_op b (op_set_code a c) l = ledger_set_code b a c l
run_op b (op_set_nonce a n) l = some (ledger_set_nonce b a n l)
run_op b (op_self_destruct a) l = some (self_destruct b a l)
run_op b (op_add_refund gas) l = some (add_refund gas l)
run_op b (op_sub_refund gas) l = sub_refund gas l
run_op b (op_add_address a) l = some (add_address_to_access_list a l)
run_op b (op_add_slot a s) l = add_slot_to_access_list a s l
run_op b (op_add_preimage h x) l = some (add_preimage h x l)
run_op b (op_add_log x) l = some (add_log x l)
run_op b (op_set_transient a key x) l = evm_set_transient_state a key x l

abbrev pub and_then : Option StateLedger → (StateLedger → Option StateLedger) → Option StateLedger
and_then none f = none
and_then (some l) f = f l

abbrev pub leave_call : Backend → Bool → ℕ → StateLedger → Option StateLedger
leave_call b true id l = some l
leave_call b false id l = revert_to_snapshot b id l

-- `none` where an operation panics.
unfoldable pub run : Backend → Program → StateLedger → Option StateLedger
run b finish l = some l
run b (perform o rest) l = and_then (run_op b o l) (run b rest)
run b (call body succeeds rest) l =
    let (id, l') = snapshot l in
    and_then (and_then (run b body l') (leave_call b succeeds id)) (run b rest)

-- What holds after RevertToSnapshot: the world, the journal and the revisions are those of `l`.
pub record IsRestored (b : Backend) (l l' : StateLedger) : Type 0 where
  pub view_eq : view b l' ≡ view b l
  pub changes_eq : l'.changes ≡ l.changes
  pub revisions_eq : l'.valid_revisions ≡ l.valid_revisions
  pub next_le : l.next_revision_id ≤ l'.next_revision_id
  pub well : IsWell b l'

-- RevertToSnapshot of the snapshot that was taken of `l` succeeds on `l'`, and restores `l`.
abbrev pub Reverts : Backend → StateLedger → StateLedger → Type 0
Reverts b l l' =
    (l'' : StateLedger) × (revert_to_snapshot b (snapshot l).0 l' ≡ some l'') × IsRestored b l l''
