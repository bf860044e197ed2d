-- ===== src/Ledger/World/Exec.antt =====
-- A call of the EVM that fails leaves the state ledger as it was before the call.
use axiom_lib.Common.{
  ℕ, ◌+◌, ◌-◌, ◌<◌, ◌≤◌, Bool, true, false, Option, none, some, List, [], ◌∷◌, ◌++◌, ◌≡◌, refl, sym,
  ap, ◌∙◌, subst, Option-cases, inl, inr, arith, All, length, take, drop, length-append,
}
use mathlib.Core.Option.{map}
use mathlib.Core.List.{append_assoc, append-nil}
use axiom_lib.Common.Words.{u64_mod}
use axiom_lib.Ledger.Access.Laws.{IsAccess}
use axiom_lib.Ledger.Types.{Change, Revision, StateLedger, Backend, IsLawful}
use axiom_lib.Ledger.Journal.{
  find_revision, revert_all, revert, truncate, snapshot, revert_to_snapshot,
}
use axiom_lib.Ledger.World.{World, view}
use axiom_lib.Ledger.World.Undo.{view-revert_all}
use axiom_lib.Ledger.World.Coded.{AreCoded, revert_all-AreCoded, from_some}
use axiom_lib.Ledger.World.Frame.{IsFramed, revert_all-IsFramed}
use axiom_lib.Ledger.World.Restore.{IsWell, IsKept, IsKept-trans, IdBelow}
use axiom_lib.Ledger.World.Steps.{
  IsKept-refl, set_balance-IsKept, sub_balance-IsKept, add_balance-IsKept, set_state-IsKept,
  set_code-IsKept, set_nonce-IsKept, self_destruct-IsKept, add_refund-IsKept, sub_refund-IsKept,
  add_preimage-IsKept, add_log-IsKept, transient-IsKept,
}
use axiom_lib.Ledger.World.AccessSteps.{add_address-IsKept, add_slot-IsKept}
use axiom_lib.Ledger.World.Programs.{
  Op, op_set_balance, op_sub_balance, op_add_balance, op_set_state, op_set_code, op_set_nonce,
  op_self_destruct, op_add_refund, op_sub_refund, op_add_address, op_add_slot, op_add_preimage,
  op_add_log, op_set_transient, Program, finish, perform, call, run_op, and_then, leave_call, run,
  IsRestored, Reverts,
}

-- The revision is found behind the older ones, whatever came after it.
find_revision-append :
    (id i : ℕ) (rs more : List Revision)
    → All (IdBelow id) rs
    → find_revision id ((rs ++ record { id = id; changer_index = i } ∷ []) ++ more) ≡ some (i, rs)
find_revision-append id i [] more h = ground arith
find_revision-append id i (r ∷ rs) more (h, hs) =
    ground (arith, find_revision-append id i rs more hs)

added_length : (cs ds : List Change) → length (cs ++ ds) - length ds ≡ length cs
added_length cs ds = omega (arith, length-append cs ds)

take_added : (cs ds : List Change) → take (length cs) (cs ++ ds) ≡ cs
take_added [] ds = refl
take_added (c ∷ cs) ds = ap (λ x. c ∷ x) (take_added cs ds)

drop_added : (cs ds : List Change) → drop (length cs) (cs ++ ds) ≡ ds
drop_added [] ds = refl
drop_added (c ∷ cs) ds = drop_added cs ds

since_snapshot : (cs ds es : List Change) → es ≡ cs ++ ds → take (length es - length ds) es ≡ cs
since_snapshot cs ds es e =
    ap (λ x. take (length x - length ds) x) e ∙ rw (added_length cs ds) (take_added cs ds)

and_then-some :
    (o : Option StateLedger) (f : StateLedger → Option StateLedger) (y : StateLedger)
    → and_then o f ≡ some y
    → (x : StateLedger) × (o ≡ some x) × (f x ≡ some y)
and_then-some none f y e = ground arith
and_then-some (some x) f y e = (x, refl, e)

All-mono : (m n : ℕ) (rs : List Revision) → m ≤ n → All (IdBelow m) rs → All (IdBelow n) rs
All-mono m n [] h hs = tt
All-mono m n (r ∷ rs) h (k, hs) = (omega arith, All-mono m n rs h hs)

All-append :
    (n : ℕ) (rs : List Revision) (r : Revision)
    → All (IdBelow n) rs
    → r.id < n
    → All (IdBelow n) (rs ++ r ∷ [])
All-append n [] r h k = (k, tt)
All-append n (x ∷ rs) r (h, hs) k = (h, All-append n rs r hs k)

module _ (b : Backend) (v : IsLawful b) where
  pub run_op-IsKept :
      (o : Op) (l l' : StateLedger) → run_op b o l ≡ some l' → IsWell b l → IsKept b l l'
  run_op-IsKept (op_set_balance a x) l l' e w =
      subst (IsKept b l) (from_some e) (set_balance-IsKept b v a x l w)
  run_op-IsKept (op_sub_balance a x) l l' e w = sub_balance-IsKept b v a x l l' e w
  run_op-IsKept (op_add_balance a x) l l' e w =
      subst (IsKept b l) (from_some e) (add_balance-IsKept b v a x l w)
  run_op-IsKept (op_set_state a key x) l l' e w =
      subst (IsKept b l) (from_some e) (set_state-IsKept b v a key x l w)
  run_op-IsKept (op_set_code a c) l l' e w = set_code-IsKept b v a c l l' e w
  run_op-IsKept (op_set_nonce a n) l l' e w =
      subst (IsKept b l) (from_some e) (set_nonce-IsKept b v a n l w)
  run_op-IsKept (op_self_destruct a) l l' e w =
      subst (IsKept b l) (from_some e) (self_destruct-IsKept b v a l w)
  run_op-IsKept (op_add_refund gas) l l' e w =
      subst (IsKept b l) (from_some e) (add_refund-IsKept b v gas l w)
  run_op-IsKept (op_sub_refund gas) l l' e w = sub_refund-IsKept b v gas l l' e w
  run_op-IsKept (op_add_address a) l l' e w =
      subst (IsKept b l) (from_some e) (add_address-IsKept b v a l w)
  run_op-IsKept (op_add_slot a s) l l' e w = add_slot-IsKept b v a s l l' e w
  run_op-IsKept (op_add_preimage h x) l l' e w =
      subst (IsKept b l) (from_some e) (add_preimage-IsKept b v h x l w)
  run_op-IsKept (op_add_log x) l l' e w =
      subst (IsKept b l) (from_some e) (add_log-IsKept b v x l w)
  run_op-IsKept (op_set_transient a key x) l l' e w = transient-IsKept b v a key x l l' e w

  pub view-snapshot : (l : StateLedger) → view b (snapshot l).1 ≡ view b l
  unfolding snapshot view
  view-snapshot l = refl

  -- What RevertToSnapshot makes of the ledger that the loop of reverts leaves.
  abbrev reverted : StateLedger → StateLedger → StateLedger
  reverted l m = record (truncate b (length l.changes) m) { valid_revisions = l.valid_revisions }

  revert_to_snapshot_lem :
      (l l' m : StateLedger) (k : IsKept b (snapshot l).1 l')
      → IsWell b l
      → revert_all b k.done l' ≡ some m
      → revert_to_snapshot b (snapshot l).0 l' ≡ some (reverted l m)
  unfolding snapshot revert revert_to_snapshot
  revert_to_snapshot_lem l l' m k w q =
      rw
        (
          revert_to_snapshot,
          ap (find_revision l.next_revision_id) k.revisions_eq
              ∙ find_revision-append l.next_revision_id (length l.changes) l.valid_revisions k.newer
                  w.ids,
          revert,
          since_snapshot k.done l.changes l'.changes k.changes_eq,
          q,
        )
        refl

  reverted-changes :
      (l l' m : StateLedger) (k : IsKept b (snapshot l).1 l')
      → IsFramed l' m
      → StateLedger.changes (reverted l m) ≡ l.changes
  unfolding snapshot
  reverted-changes l l' m k f =
      let e =
        f.changes_eq
        ∙ (ap (λ x. f.added ++ x) k.changes_eq ∙ sym (append_assoc f.added k.done l.changes)) in
      rw (e, added_length (f.added ++ k.done) l.changes) (drop_added (f.added ++ k.done) l.changes)

  -- A ledger with the world of a well formed one.
  IsWell-view :
      (l m : StateLedger)
      → view b m ≡ view b l
      → AreCoded b m
      → l.next_revision_id ≤ m.next_revision_id
      → IsWell b l
      → IsWell b (reverted l m)
  unfolding view
  IsWell-view l m e h n w = record {
    coded = h;
    access = subst IsAccess (sym (ap World.access_list e)) w.access;
    log_bound = subst (λ x. x < u64_mod) (sym (ap World.log_size e)) w.log_bound;
    ids = All-mono l.next_revision_id m.next_revision_id l.valid_revisions n w.ids;
  }

  view-reverted : (l m : StateLedger) → view b (reverted l m) ≡ view b m
  unfolding view
  view-reverted l m = refl

  next-snapshot :
      (l l' m : StateLedger)
      → IsKept b (snapshot l).1 l'
      → IsFramed l' m
      → l.next_revision_id ≤ m.next_revision_id
  unfolding snapshot
  next-snapshot l l' m k f = omega (arith, k.next_le, f.next_eq)

  -- Reverting what was done since a snapshot.
  pub revert-IsRestored :
      (l l' : StateLedger) → IsWell b l → IsKept b (snapshot l).1 l' → Reverts b l l'
  revert-IsRestored l l' w k =
      let e : map (view b) (revert_all b k.done l') ≡ some (view b l) =
        view-revert_all b v k.done l' ∙ (k.undone ∙ ap some (view-snapshot l)) in
      elim (Option-cases (revert_all b k.done l')) [
        | inl q ↦ ground (arith, e, q)
        | inr (m, q) ↦
            let f = revert_all-IsFramed b k.done l' m q in
            let s : view b m ≡ view b l = from_some (sym (ap (map (view b)) q) ∙ e) in
            (
              reverted l m,
              revert_to_snapshot_lem l l' m k w q,
              record {
                view_eq = view-reverted l m ∙ s;
                changes_eq = reverted-changes l l' m k f;
                revisions_eq = refl;
                next_le = next-snapshot l l' m k f;
                well =
                    IsWell-view l m s (revert_all-AreCoded b v k.done l' m k.well.coded q)
                      (next-snapshot l l' m k f) w;
              },
            )
      ]

  IsRestored-IsKept : (l l' : StateLedger) → IsRestored b l l' → IsKept b l l'
  IsRestored-IsKept l l' r = record {
    done = [];
    changes_eq = r.changes_eq;
    undone = ap some r.view_eq;
    newer = [];
    revisions_eq = r.revisions_eq ∙ sym (append-nil l.valid_revisions);
    next_le = r.next_le;
    well = r.well;
  }

  pub snapshot-IsKept : (l : StateLedger) → IsWell b l → IsKept b l (snapshot l).1
  unfolding snapshot view
  snapshot-IsKept l w = record {
    done = [];
    changes_eq = refl;
    undone = refl;
    newer = record { id = l.next_revision_id; changer_index = length l.changes } ∷ [];
    revisions_eq = refl;
    next_le = omega arith;
    well = record {
      coded = w.coded;
      access = w.access;
      log_bound = w.log_bound;
      ids =
          All-append (l.next_revision_id + 1) l.valid_revisions
            (record { id = l.next_revision_id; changer_index = length l.changes })
            (All-mono l.next_revision_id (l.next_revision_id + 1) l.valid_revisions (omega arith)
              w.ids)
            (omega arith);
    };
  }

  pub leave_call-IsKept :
      (l m n : StateLedger) (succeeds : Bool)
      → IsWell b l
      → IsKept b (snapshot l).1 m
      → leave_call b succeeds (snapshot l).0 m ≡ some n
      → IsKept b l n
  leave_call-IsKept l m n true w k e =
      IsKept-trans b l (snapshot l).1 n (snapshot-IsKept l w)
        (subst (IsKept b (snapshot l).1) (from_some e) k)
  leave_call-IsKept l m n false w k e =
      let (x, q, r) = revert-IsRestored l m w k in
      subst (IsKept b l) (from_some (sym q ∙ e)) (IsRestored-IsKept l x r)

  -- What a program does can be undone by the journal.
  pub run-IsKept :
      (p : Program) (l l' : StateLedger) → run b p l ≡ some l' → IsWell b l → IsKept b l l'
  unfolding run
  run-IsKept finish l l' e w = subst (IsKept b l) (from_some e) (IsKept-refl b v l w)
  run-IsKept (perform o rest) l l' e w =
      let (m, q, r) = and_then-some (run_op b o l) (run b rest) l' e in
      let k = run_op-IsKept o l m q w in IsKept-trans b l m l' k (run-IsKept rest m l' r k.well)
  run-IsKept (call body succeeds rest) l l' e w =
      let (n, q, r) =
        and_then-some (and_then (run b body (snapshot l).1) (leave_call b succeeds (snapshot l).0))
          (run b rest) l' e in
      let (m, s, t) =
        and_then-some (run b body (snapshot l).1) (leave_call b succeeds (snapshot l).0) n q in
      let k =
        leave_call-IsKept l m n succeeds w
          (run-IsKept body (snapshot l).1 m s (snapshot-IsKept l w).well) t in
      IsKept-trans b l n l' k (run-IsKept rest n l' r k.well)

  -- After a snapshot and any program that runs to its end, RevertToSnapshot of that snapshot
  -- succeeds, and leaves the world (which has no code hashes), the journal and the revisions as
  -- they were before the snapshot, with the invariants of the ledger, which it had before.
  pub revert_to_snapshot-IsRestored :
      (p : Program) (l l' : StateLedger)
      → IsWell b l
      → run b p (snapshot l).1 ≡ some l'
      → Reverts b l l'
  revert_to_snapshot-IsRestored p l l' w e =
      revert-IsRestored l l' w (run-IsKept p (snapshot l).1 l' e (snapshot-IsKept l w).well)
