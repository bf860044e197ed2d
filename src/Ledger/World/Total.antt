-- ===== src/Ledger/World/Total.antt =====
-- Which programs on the state ledger run to their end: SubRefund panics below zero, Code on a code that is
-- too short to be sliced, and SetTransientState before Prepare.
use axiom_lib.Common.{
  ℕ, Bool, true, false, none, some, ◌∷◌, ◌≡◌, refl, sym, ◌∙◌, subst, ◌==◌, arith, Bool-cases,
  Option-cases, inl, inr,
}
use axiom_lib.Ledger.Types.{transient_storage_change, StateLedger, Backend, IsLawful}
use axiom_lib.Ledger.Access.{add_slot, has_slot}
use axiom_lib.Ledger.Access.Laws.{IsAccess}
use axiom_lib.Ledger.Journal.{append, set_transient, snapshot}
use axiom_lib.Ledger.Operations.{
  add_slot_to_access_list, ledger_set_balance, ledger_sub_balance, ledger_add_balance,
  ledger_set_state, ledger_set_code, ledger_set_nonce, self_destruct, evm_set_transient_state,
  get_transient, get_transient_state, on_account, sub_if_not_empty, destruct_account, add_refund,
  add_preimage, add_log, add_address_to_access_list,
}
use axiom_lib.Ledger.World.Restore.{IsWell, IsKept}
use axiom_lib.Ledger.World.Programs.{
  Op, op_sub_refund, op_set_balance, op_sub_balance, op_add_balance, op_set_state, op_set_code,
  op_set_nonce, op_self_destruct, op_add_refund, op_add_address, op_add_slot, op_add_preimage,
  op_add_log, op_set_transient, Program, finish, perform, call, run, run_op, leave_call,
}
use axiom_lib.Ledger.Account.{
  code_panics, is_empty_panics, set_balance, add_balance, set_state, set_code_and_hash, set_nonce,
}
use axiom_lib.Ledger.World.{view}
use axiom_lib.Ledger.World.Coded.{from_some}
use axiom_lib.Ledger.World.Steps.{unless_panics-some}
use axiom_lib.Ledger.World.Fits.{
  IsSliceable, IsFit, on_account-IsFit, set_balance-KeepsFit, set_nonce-KeepsFit,
  add_balance-KeepsFit, sub_if_not_empty-KeepsFit, destruct_account-KeepsFit, set_state-KeepsFit,
  set_code-KeepsFit, code-total, is_empty-total, same-IsFit,
}
use axiom_lib.Ledger.World.Exec.{
  view-snapshot, run_op-IsKept, run-IsKept, revert-IsRestored, snapshot-IsKept, leave_call-IsKept,
}

-- No operation of the program is SubRefund, and each code that it sets can be sliced to four bytes.
abbrev pub OpIsTotal : Backend → Op → Type 0
OpIsTotal b (op_sub_refund gas) = ⊥
OpIsTotal b (op_set_code a c) = IsSliceable b c
OpIsTotal b _ = Unit

abbrev pub IsTotal : Backend → Program → Type 0
IsTotal b finish = Unit
IsTotal b (perform o rest) = OpIsTotal b o × IsTotal b rest
IsTotal b (call body succeeds rest) = IsTotal b body × IsTotal b rest

abbrev pub Runs : Backend → Program → StateLedger → Type 0
Runs b p l = (l' : StateLedger) × (run b p l ≡ some l')

-- AddSlot finds the set that the index of an address names.
add_slot-total :
    (a s : ℕ) (l : StateLedger)
    → IsAccess l.access_list
    → (l' : StateLedger) × (add_slot_to_access_list a s l ≡ some l')
unfolding add_slot_to_access_list add_slot
add_slot-total a s l v = elim (Option-cases (l.access_list.addresses a)) [
  | inl q ↦ rw (add_slot_to_access_list, add_slot, q) (_, refl)
  | inr (none, q) ↦ rw (add_slot_to_access_list, add_slot, q) (_, refl)
  | inr (some i, q) ↦
      let (y, m, k) = v.indexed a i q in
      elim (Bool-cases (has_slot s (y ∷ m))) [
        | inl t ↦ rw (add_slot_to_access_list, add_slot, q, k, t) (_, refl)
        | inr t ↦ rw (add_slot_to_access_list, add_slot, q, k, t) (_, refl)
      ]
]

module _ (b : Backend) (v : IsLawful b) where
  set_transient-total :
      (a key x : ℕ) (l : StateLedger)
      → IsFit b (view b l)
      → (l' : StateLedger) × (evm_set_transient_state a key x l ≡ some l')
  unfolding evm_set_transient_state view append
  set_transient-total a key x l f = elim (Option-cases l.transient_storage) [
    | inl e ↦ absurd (ground (arith, f.made.1, e))
    | inr (t, e) ↦ elim (Bool-cases (get_transient_state a key l == x)) [
      | inl q ↦ (l, rw (evm_set_transient_state, q) refl)
      | inr q ↦ rw (evm_set_transient_state, q, e) (_, refl)
    ]
  ]

  run_op-total :
      (o : Op) (l : StateLedger)
      → OpIsTotal b o
      → IsWell b l
      → IsFit b (view b l)
      → (l' : StateLedger) × (run_op b o l ≡ some l')
  unfolding ledger_sub_balance ledger_set_code
  run_op-total (op_add_slot a s) l t w f = add_slot-total a s l w.access
  run_op-total (op_sub_refund gas) l t w f = absurd t
  run_op-total (op_set_balance a x) l t w f = (_, refl)
  run_op-total (op_sub_balance a x) l t w f =
      is_empty-total b v a (on_account b a (sub_if_not_empty b a x)) l w.coded f
  run_op-total (op_add_balance a x) l t w f = (_, refl)
  run_op-total (op_set_state a key x) l t w f = (_, refl)
  run_op-total (op_set_code a c) l t w f =
      code-total b v a (on_account b a (set_code_and_hash b a c)) l w.coded f
  run_op-total (op_set_nonce a n) l t w f = (_, refl)
  run_op-total (op_self_destruct a) l t w f = (_, refl)
  run_op-total (op_add_refund gas) l t w f = (_, refl)
  run_op-total (op_add_address a) l t w f = (_, refl)
  run_op-total (op_add_preimage h x) l t w f = (_, refl)
  run_op-total (op_add_log x) l t w f = (_, refl)
  run_op-total (op_set_transient a key x) l t w f = set_transient-total a key x l f

  set_transient-IsFit :
      (a key x : ℕ) (l m : StateLedger)
      → evm_set_transient_state a key x l ≡ some m
      → IsFit b (view b l)
      → IsFit b (view b m)
  unfolding evm_set_transient_state view append
  set_transient-IsFit a key x l m e f = elim (Bool-cases (get_transient_state a key l == x)) [
    | inl q ↦
        let eq : evm_set_transient_state a key x l ≡ some l =
          rw (evm_set_transient_state, q) refl in
        subst (λ k. IsFit b (view b k)) (from_some (sym eq ∙ e)) f
    | inr q ↦ elim (Option-cases l.transient_storage) [
      | inl n ↦ absurd (ground (arith, e, q, n))
      | inr (t, n) ↦
          let c = transient_storage_change a key (get_transient_state a key l) in
          let l' = record (append c l) { transient_storage = some (set_transient a key x t) } in
          let eq : evm_set_transient_state a key x l ≡ some l' =
            rw (evm_set_transient_state, q, n) refl in
          subst (λ k. IsFit b (view b k)) (from_some (sym eq ∙ e))
            (record { codes = f.codes; made = (get_transient (set_transient a key x t), refl) })
    ]
  ]

  -- Every operation keeps what the panics ask for.
  run_op-IsFit :
      (o : Op) (l m : StateLedger)
      → run_op b o l ≡ some m
      → OpIsTotal b o
      → IsWell b l
      → IsFit b (view b l)
      → IsFit b (view b m)
  unfolding ledger_set_balance ledger_sub_balance ledger_add_balance ledger_set_state
      ledger_set_code ledger_set_nonce self_destruct add_refund add_preimage add_log append
      add_address_to_access_list add_slot_to_access_list
  run_op-IsFit (op_set_balance a x) l m e t w f =
      subst (λ n. IsFit b (view b n)) (from_some e)
        (on_account-IsFit b v a (set_balance b a x) l (set_balance-KeepsFit b v a x) w.coded f)
  run_op-IsFit (op_sub_balance a x) l m e t w f =
      let g = on_account b a (sub_if_not_empty b a x) in
      subst (λ n. IsFit b (view b n)) (unless_panics-some b v (is_empty_panics b a) a g l m e)
        (on_account-IsFit b v a (sub_if_not_empty b a x) l (sub_if_not_empty-KeepsFit b v a x)
          w.coded f)
  run_op-IsFit (op_add_balance a x) l m e t w f =
      subst (λ n. IsFit b (view b n)) (from_some e)
        (on_account-IsFit b v a (add_balance b a x) l (add_balance-KeepsFit b v a x) w.coded f)
  run_op-IsFit (op_set_state a key x) l m e t w f =
      subst (λ n. IsFit b (view b n)) (from_some e)
        (on_account-IsFit b v a (set_state b a key x) l (set_state-KeepsFit b v a key x) w.coded f)
  run_op-IsFit (op_set_code a c) l m e t w f =
      let g = on_account b a (set_code_and_hash b a c) in
      subst (λ n. IsFit b (view b n)) (unless_panics-some b v (code_panics b a) a g l m e)
        (on_account-IsFit b v a (set_code_and_hash b a c) l (set_code-KeepsFit b v a c t) w.coded f)
  run_op-IsFit (op_set_nonce a n) l m e t w f =
      subst (λ n. IsFit b (view b n)) (from_some e)
        (on_account-IsFit b v a (set_nonce b a n) l (set_nonce-KeepsFit b v a n) w.coded f)
  run_op-IsFit (op_self_destruct a) l m e t w f =
      subst (λ n. IsFit b (view b n)) (from_some e)
        (on_account-IsFit b v a (destruct_account b a) l (destruct_account-KeepsFit b v a) w.coded
          f)
  run_op-IsFit (op_set_transient a key x) l m e t w f = set_transient-IsFit a key x l m e f
  run_op-IsFit (op_sub_refund gas) l m e t w f = absurd t
  run_op-IsFit (op_add_refund gas) l m e t w f =
      same-IsFit b v l m (ground (arith, e)) (ground (arith, e)) f
  run_op-IsFit (op_add_address a) l m e t w f =
      same-IsFit b v l m (ground (arith, e)) (ground (arith, e)) f
  run_op-IsFit (op_add_slot a s) l m e t w f =
      same-IsFit b v l m (ground (arith, e)) (ground (arith, e)) f
  run_op-IsFit (op_add_preimage h x) l m e t w f =
      same-IsFit b v l m (ground (arith, e)) (ground (arith, e)) f
  run_op-IsFit (op_add_log x) l m e t w f =
      same-IsFit b v l m (ground (arith, e)) (ground (arith, e)) f

  leave_call-total :
      (l m : StateLedger) (succeeds : Bool)
      → IsWell b l
      → IsKept b (snapshot l).1 m
      → IsFit b (view b l)
      → IsFit b (view b m)
      → (n : StateLedger) × (leave_call b succeeds (snapshot l).0 m ≡ some n) × IsFit b (view b n)
  leave_call-total l m true w k f g = (m, refl, g)
  leave_call-total l m false w k f g =
      let (n, q, r) = revert-IsRestored b v l m w k in (n, q, subst (IsFit b) (sym r.view_eq) f)

  run-total-IsFit :
      (p : Program) (l : StateLedger)
      → IsTotal b p
      → IsWell b l
      → IsFit b (view b l)
      → (l' : StateLedger) × (run b p l ≡ some l') × IsFit b (view b l')
  unfolding run
  run-total-IsFit finish l t w f = (l, refl, f)
  run-total-IsFit (perform o rest) l (t, ts) w f =
      let (m, q) = run_op-total o l t w f in
      let (n, r, g) =
        run-total-IsFit rest m ts (run_op-IsKept b v o l m q w).well (run_op-IsFit o l m q t w f) in
      (n, rw (run, q) r, g)
  run-total-IsFit (call body succeeds rest) l (t, ts) w f =
      let s = snapshot-IsKept b v l w in
      let (m, q, g) =
        run-total-IsFit body (snapshot l).1 t s.well
          (subst (IsFit b) (sym (view-snapshot b v l)) f) in
      let k = run-IsKept b v body (snapshot l).1 m q s.well in
      let (n, r, h) = leave_call-total l m succeeds w k f g in
      let (l', x, y) =
        run-total-IsFit rest n ts (leave_call-IsKept b v l m n succeeds w k r).well h in
      (l', rw (run, q, r) x, y)

  pub run-total :
      (p : Program) (l : StateLedger) → IsTotal b p → IsWell b l → IsFit b (view b l) → Runs b p l
  run-total p l t w f = let (l', q, _) = run-total-IsFit p l t w f in (l', q)
