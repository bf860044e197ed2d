-- ===== src/Ledger/World/Steps.antt =====
-- What the journal takes back of each operation of internal/ledger/state_accessor.go.
use axiom_lib.Common.{
  ℕ, ◌-◌, ◌<◌, true, Option, none, some, List, [], ◌∷◌, ◌++◌, ◌≡◌, refl, sym, ap, ◌∙◌, subst,
  Bool-cases, Option-cases, inl, inr, arith, ltb, Bool, ◌==◌, ==_self,
}
use mathlib.Core.List.{append-nil}
use mathlib.Core.Path.{fun_ext}
use axiom_lib.Common.Int.{ℤ, pos}
use axiom_lib.Common.Words.{u64_mod, add64, sub64}
use axiom_lib.Common.Maps.{update, update_back, update-update, update_same}
use axiom_lib.Ledger.Types.{
  Bytes, SimpleAccount, Change, refund_change, add_log_change, add_preimage_change,
  transient_storage_change, EvmLog, StateLedger, Backend, IsLawful,
}
use axiom_lib.Ledger.Access.Laws.{IsAccess}
use axiom_lib.Ledger.Account.{code_panics, is_empty_panics}
use axiom_lib.Ledger.Account
use axiom_lib.Ledger.Journal.{append, set_transient}
use axiom_lib.Ledger.Operations.{
  ledger_set_balance, ledger_sub_balance, ledger_add_balance, ledger_set_state, ledger_set_code,
  ledger_set_nonce, self_destruct, add_refund, sub_refund, add_preimage, add_log, log_hash,
  evm_set_transient_state, get_transient, get_transient_state, unless_panics, on_account,
  sub_if_not_empty, destruct_account,
}
use axiom_lib.Ledger.World.{view, undo_all}
use axiom_lib.Ledger.World.Undo.{transient-set}
use axiom_lib.Ledger.World.Methods.{
  set_balance-IsUndone, set_nonce-IsUndone, add_balance-IsUndone, sub_if_not_empty-IsUndone,
  set_code_and_hash-IsUndone, set_state-IsUndone, destruct_account-IsUndone,
}
use axiom_lib.Ledger.World.Coded.{
  from_some, same_accounts-AreCoded, set_balance-IsCoded, set_nonce-IsCoded, add_balance-IsCoded,
  sub_if_not_empty-IsCoded, set_code_and_hash-IsCoded, set_state-IsCoded,
}
use axiom_lib.Ledger.World.Restore.{IsWell, IsKept, on_account-IsKept}

module _ (b : Backend) (v : IsLawful b) where
  pub IsKept-refl : (l : StateLedger) → IsWell b l → IsKept b l l
  IsKept-refl l w = record {
    done = [];
    changes_eq = refl;
    undone = refl;
    newer = [];
    revisions_eq = sym (append-nil l.valid_revisions);
    next_le = omega arith;
    well = w;
  }

  pub set_balance-IsKept :
      (a : ℕ) (x : ℤ) (l : StateLedger) → IsWell b l → IsKept b l (ledger_set_balance b a x l)
  unfolding ledger_set_balance
  set_balance-IsKept a x l =
      on_account-IsKept b a (Account.set_balance b a x) l
        (λ acc h. set_balance-IsUndone b v a x acc) (set_balance-IsCoded b v a x) v

  -- An operation that does not panic has its result.
  pub unless_panics-some :
      (p : SimpleAccount → Bool) (a : ℕ) (f : StateLedger → StateLedger) (l l' : StateLedger)
      → unless_panics b p a f l ≡ some l'
      → f l ≡ l'
  unless_panics-some p a f l l' e = ground arith

  pub sub_balance-IsKept :
      (a : ℕ) (x : ℤ) (l l' : StateLedger)
      → ledger_sub_balance b a x l ≡ some l'
      → IsWell b l
      → IsKept b l l'
  unfolding ledger_sub_balance
  sub_balance-IsKept a x l l' e w =
      subst (IsKept b l)
        (unless_panics-some (is_empty_panics b a) a (on_account b a (sub_if_not_empty b a x)) l l'
          e)
        (on_account-IsKept b a (sub_if_not_empty b a x) l (sub_if_not_empty-IsUndone b v a x)
          (sub_if_not_empty-IsCoded b v a x) v w)

  pub add_balance-IsKept :
      (a : ℕ) (x : ℤ) (l : StateLedger) → IsWell b l → IsKept b l (ledger_add_balance b a x l)
  unfolding ledger_add_balance
  add_balance-IsKept a x l =
      on_account-IsKept b a (Account.add_balance b a x) l
        (λ acc h. add_balance-IsUndone b v a x acc) (add_balance-IsCoded b v a x) v

  pub set_state-IsKept :
      (a key : ℕ) (x : Option ℕ) (l : StateLedger)
      → IsWell b l
      → IsKept b l (ledger_set_state b a key x l)
  unfolding ledger_set_state
  set_state-IsKept a key x l =
      on_account-IsKept b a (Account.set_state b a key x) l
        (λ acc h. set_state-IsUndone b v a key x acc) (set_state-IsCoded b v a key x) v

  pub set_code-IsKept :
      (a : ℕ) (c : Option Bytes) (l l' : StateLedger)
      → ledger_set_code b a c l ≡ some l'
      → IsWell b l
      → IsKept b l l'
  unfolding ledger_set_code
  set_code-IsKept a c l l' e w =
      subst (IsKept b l)
        (unless_panics-some (code_panics b a) a (on_account b a (Account.set_code_and_hash b a c)) l
          l' e)
        (on_account-IsKept b a (Account.set_code_and_hash b a c) l
          (set_code_and_hash-IsUndone b v a c) (λ acc h. set_code_and_hash-IsCoded b v a c acc) v w)

  pub set_nonce-IsKept :
      (a n : ℕ) (l : StateLedger) → IsWell b l → IsKept b l (ledger_set_nonce b a n l)
  unfolding ledger_set_nonce
  set_nonce-IsKept a n l =
      on_account-IsKept b a (Account.set_nonce b a n) l (λ acc h. set_nonce-IsUndone b v a n acc)
        (set_nonce-IsCoded b v a n) v

  pub self_destruct-IsKept :
      (a : ℕ) (l : StateLedger) → IsWell b l → IsKept b l (self_destruct b a l)
  unfolding self_destruct
  self_destruct-IsKept a l =
      on_account-IsKept b a (destruct_account b a) l (λ acc h. destruct_account-IsUndone b v a acc)
        (λ acc h. set_balance-IsCoded b v a (pos 0) (Account.set_self_destructed true acc) h) v

  -- Operations that change neither accounts nor revisions.
  pub plain-IsKept :
      (l l' : StateLedger) (cs : List Change)
      → l'.accounts ≡ l.accounts
      → l'.changes ≡ cs ++ l.changes
      → l'.valid_revisions ≡ l.valid_revisions
      → l'.next_revision_id ≡ l.next_revision_id
      → undo_all b cs (view b l') ≡ some (view b l)
      → IsAccess l'.access_list
      → l'.log_size < u64_mod
      → IsWell b l
      → IsKept b l l'
  plain-IsKept l l' cs qa qc qr qn u ha hl w = record {
    done = cs;
    changes_eq = qc;
    undone = u;
    newer = [];
    revisions_eq = qr ∙ sym (append-nil l.valid_revisions);
    next_le = omega (arith, qn);
    well = record {
      coded = same_accounts-AreCoded b v l l' qa w.coded;
      access = ha;
      log_bound = hl;
      ids = rw (qn, qr) w.ids;
    };
  }

  pub add_refund-IsKept : (gas : ℕ) (l : StateLedger) → IsWell b l → IsKept b l (add_refund gas l)
  unfolding add_refund append view
  add_refund-IsKept gas l w =
      plain-IsKept l (add_refund gas l) (refund_change l.refund ∷ []) refl refl refl refl refl
        w.access w.log_bound w

  pub sub_refund-IsKept :
      (gas : ℕ) (l l' : StateLedger) → sub_refund gas l ≡ some l' → IsWell b l → IsKept b l l'
  unfolding sub_refund append view
  sub_refund-IsKept gas l l' e w = elim (Bool-cases (ltb l.refund gas)) [
    | inl q ↦ ground arith
    | inr q ↦ subst (IsKept b l) (from_some (sym (rw (sub_refund, q) refl) ∙ e)) (
        plain-IsKept l (record (append (refund_change l.refund) l) { refund = l.refund - gas })
          (refund_change l.refund ∷ []) refl refl refl refl refl w.access w.log_bound w)
  ]

  pub add_preimage-IsKept :
      (h : ℕ) (x : Bytes) (l : StateLedger) → IsWell b l → IsKept b l (add_preimage h x l)
  unfolding add_preimage append view
  add_preimage-IsKept h x l w = elim (Option-cases (l.preimages h)) [
    | inr (y, q) ↦ rw (add_preimage, q) (IsKept-refl l w)
    | inl q ↦
        rw (add_preimage, q)
          (plain-IsKept l
            (record (append (add_preimage_change h) l) {
              preimages = update l.preimages h (some x);
            })
            (add_preimage_change h ∷ []) refl refl refl refl
            (rw (update-update l.preimages h (some x) none, update_same l.preimages h none q) refl)
            w.access w.log_bound w)
  ]

  -- The counter of the logs comes back, also where it wraps.
  sub_add64 : (n : ℕ) → n < u64_mod → sub64 (add64 n 1) 1 ≡ n
  sub_add64 n h = omega arith

  pub add_log-IsKept : (x : EvmLog) (l : StateLedger) → IsWell b l → IsKept b l (add_log x l)
  unfolding add_log append view
  add_log-IsKept x l w =
      plain-IsKept l (add_log x l) (add_log_change (log_hash x l) ∷ []) refl refl refl refl
        (rw
          (
            undo_all,
            ==_self (log_hash x l),
            sub_add64 l.log_size w.log_bound,
            update_back l.logs (log_hash x l) (
                record {
                  transaction_hash = some (log_hash x l);
                  transaction_index = l.tx_index;
                  log_index = l.log_size;
                  data_bytes = x.data_bytes;
                }
                ∷ l.logs (log_hash x l)),
          )
          refl)
        w.access (omega arith) w

  transient_back :
      (t : ℕ → ℕ → ℕ) (a key x : ℕ)
      → update
          (update t a (update (t a) key x))
          a
          (update (update t a (update (t a) key x) a) key (t a key))
        ≡ t
  transient_back t a key x = fun_ext (λ j. fun_ext (λ k. ground arith))

  pub transient-IsKept :
      (a key x : ℕ) (l l' : StateLedger)
      → evm_set_transient_state a key x l ≡ some l'
      → IsWell b l
      → IsKept b l l'
  unfolding evm_set_transient_state append view
  transient-IsKept a key x l l' e w = elim (Bool-cases (get_transient_state a key l == x)) [
    | inl q ↦
        subst (IsKept b l) (from_some (sym (rw (evm_set_transient_state, q) refl) ∙ e))
          (IsKept-refl l w)
    | inr q ↦ elim (Option-cases l.transient_storage) [
      | inl n ↦ absurd (ground (arith, e, q, n))
      | inr (t, n) ↦
          let c = transient_storage_change a key (get_transient t a key) in
          let m = record (append c l) { transient_storage = some (set_transient a key x t) } in
          let same : get_transient_state a key l ≡ get_transient t a key = ground (arith, n) in
          subst (IsKept b l) (from_some (sym (rw (evm_set_transient_state, q, n) refl) ∙ e)) (
            plain-IsKept l m (c ∷ []) refl refl refl refl
              (rw n (
                ap
                  (λ u. some (record (view b l) {
                    transient = some (update u a (update (u a) key (get_transient t a key)));
                  }))
                  (transient-set b v a key x t)
                ∙ ap (λ u. some (record (view b l) { transient = some u }))
                    (transient_back (get_transient t) a key x)))
              w.access w.log_bound w)
    ]
  ]
