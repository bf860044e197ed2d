-- ===== src/Nodes/Moves.antt =====
-- What a successful operatorTransferStatus does (internal/executor/system/framework/node_manager.go).
use axiom_lib.Common.Distinct.{contains}
use axiom_lib.Common.{
  ℕ, ◌≤◌, ◌+◌, Bool, true, false, ◌&&◌, Option, none, some, List, ◌==◌, if◌then◌else◌, ◌≡◌, refl,
  sym, ap, ◌∙◌, subst, arith, Bool-cases, Option-cases, inl, inr, ==_iff,
}
use mathlib.Core.Option.{some_inj}
use axiom_lib.Common.Maps.{update}
use axiom_lib.Common.Action.{Result, ok, bind_ok, pure, ◌>>◌}
use axiom_lib.Nodes.Types.{
  NodeStatus, data_syncer, candidate, active, pending_inactive, exited, code, code-inj, NodeInfo,
  Nodes, Error, Contracts,
}
use axiom_lib.Nodes.Manager.{
  id_or_one, put_rest, move_id, operator_transfer_status, disable, is_exited, had_pool,
}
use axiom_lib.Nodes.Invariant.{IsNodes, moved, move-IsNodes}

-- How a call may change the status of a node.
pub data Move : NodeStatus → NodeStatus → Type 0 where
  stays : (s : NodeStatus) → Move s s
  joins : Move data_syncer candidate
  gives_up : Move data_syncer exited
  retires : Move candidate exited
  leaves : Move active pending_inactive
  ends : Move pending_inactive exited

-- The nodes that are there stay, and their statuses move as they may.
abbrev pub Moves : {W : Type 0} → Nodes W → Nodes W → ℕ → NodeInfo → Type 0
Moves s t i info = (new : NodeInfo) × (t.registry i ≡ some new) × Move info.status new.status

-- What a successful call keeps.
pub record IsKept {W : Type 0} (s t : Nodes W) : Type 0 where
  pub valid : IsNodes t
  pub moves : (i : ℕ) (info : NodeInfo) → s.registry i ≡ some info → Moves s t i info
  pub next_le : id_or_one t.next_node_id ≤ id_or_one s.next_node_id + 1

module _ {W : Type 0} where
  pub rest-IsNodes : (s : Nodes W) (w : W) → IsNodes s → IsNodes (record s { rest = w })
  rest-IsNodes s w v = record {
    named = λ i info e.
        let n = v.named i info e in
        record {
          id_eq = n.id_eq;
          below = n.below;
          p2p_id_eq = n.p2p_id_eq;
          pub_key_eq = n.pub_key_eq;
          name_eq = n.name_eq;
        };
    sets = v.sets;
    once = v.once;
  }

  pub put_rest_ok :
      (o : Option W) (s t : Nodes W)
      → put_rest o s ≡ (ok tt, t)
      → (w : W) × (t ≡ record s { rest = w })
  put_rest_ok none s t h = absurd (ground arith)
  put_rest_ok (some w) s t h = (w, sym (ap (λ (r : Result Error (Unit {0}) × Nodes W). r.1) h))

  move_ok :
      (from to : NodeStatus) (i : ℕ) (s t : Nodes W)
      → (code from == code to) ≡ false
      → move_id from to i s ≡ (ok tt, t)
      → (ids : List ℕ) × (s.status_sets (code from) ≡ some ids)
        × (t ≡ record s { status_sets = moved from to i ids s.status_sets })
  unfolding move_id
  move_ok from to i s t ne h = elim (Option-cases (s.status_sets (code from))) [
    | inl e ↦ absurd (ground arith)
    | inr (ids, e) ↦ elim (Bool-cases (contains i ids)) [
      | inl c ↦ (
        ids,
        e,
        ground (arith, e, c, ne, ==_iff (code from) (code to), ==_iff (code to) (code from)),
      )
      | inr c ↦ absurd (ground (arith, e, c))
    ]
  ]

  module _ (contracts : Contracts W) where
    finish_ok :
        (b : Bool) (i : ℕ) (s t : Nodes W)
        → (if b then disable contracts i else pure tt) s ≡ (ok tt, t)
        → (w : W) × (t ≡ record s { rest = w })
    finish_ok true i s t h = put_rest_ok (contracts.disable_pool i s) s t h
    finish_ok false i s t h = (s.rest, sym (ap (λ (r : Result Error (Unit {0}) × Nodes W). r.1) h))

    -- A move that is followed by the end of a transfer.
    moved_rest :
        (from to : NodeStatus) (i : ℕ) (ids : List ℕ) (s u t : Nodes W)
        → u ≡ record s { status_sets = moved from to i ids s.status_sets }
        → (w : W) × (t ≡ record u { rest = w })
        → (w : W) × (t ≡ record s { status_sets = moved from to i ids s.status_sets; rest = w })
    moved_rest from to i ids s u t g (w, l) = (w, l ∙ ap (λ (x : Nodes W). record x { rest = w }) g)

    move_finish_ok :
        (from to : NodeStatus) (i : ℕ) (b : Bool) (s t : Nodes W)
        → (code from == code to) ≡ false
        → (move_id from to i >> (if b then disable contracts i else pure tt)) s ≡ (ok tt, t)
        → (ids : List ℕ) × (w : W) × (s.status_sets (code from) ≡ some ids)
          × (t ≡ record s { status_sets = moved from to i ids s.status_sets; rest = w })
    move_finish_ok from to i b s t ne h =
        let (_, u, e, k) =
          bind_ok (move_id from to i) (λ _. if b then disable contracts i else pure tt) s t tt h in
        let (ids, f, g) = move_ok from to i s u ne e in
        let (w, l) = moved_rest from to i ids s u t g (finish_ok b i u t k) in (ids, w, f, l)

    transfer_checks :
        (from to : NodeStatus) (info : NodeInfo) (s t : Nodes W)
        → operator_transfer_status contracts from to info s ≡ (ok tt, t)
        → ((code from == code to) ≡ false)
          × ((code info.status == code from) ≡ true)
          × ((move_id from to info.id
                  >> (if is_exited to && had_pool from then disable contracts info.id else pure tt))
                (record s {
                  registry = update s.registry info.id (some (record info { status = to }));
                })
              ≡ (ok tt, t))
    unfolding operator_transfer_status
    transfer_checks from to info s t h = elim (Bool-cases (code from == code to)) [
      | inl c ↦ absurd (ground arith)
      | inr ne ↦ elim (Bool-cases (code info.status == code from)) [
        | inr c ↦ absurd (ground arith)
        | inl st ↦ (ne, st, ground arith)
      ]
    ]

    pub transfer_ok :
        (from to : NodeStatus) (i : ℕ) (info : NodeInfo) (s t : Nodes W)
        → IsNodes s
        → s.registry i ≡ some info
        → Move from to
        → operator_transfer_status contracts from to info s ≡ (ok tt, t)
        → IsKept s t
    transfer_ok from to i info s t v e m h =
        let s1 : Nodes W = record s {
          registry = update s.registry info.id (some (record info { status = to }));
        } in
        let (ne, st, k) = transfer_checks from to info s t h in
        let (ids, w, f, l) =
          move_finish_ok from to info.id (is_exited to && had_pool from) s1 t ne k in
        let same = (v.named i info e).id_eq in
        let s' : Nodes W = record s {
          registry = update s.registry i (some (record info { status = to }));
          status_sets = moved from to i ids s.status_sets;
          rest = w;
        } in
        let l' : t ≡ s' =
          l
          ∙ ap
              (λ k. record s {
                registry = update s.registry k (some (record info { status = to }));
                status_sets = moved from to k ids s.status_sets;
                rest = w;
              })
              same in
        record {
          valid = subst IsNodes (sym l') (
              rest-IsNodes
                (record s {
                  registry = update s.registry i (some (record info { status = to }));
                  status_sets = moved from to i ids s.status_sets;
                })
                w (move-IsNodes from to i info ids s v e st ne f));
          moves = λ j x k.
              subst (λ (y : Nodes W). Moves s y j x) (sym l')
                (elim (Bool-cases (j == i)) [
                  | inl c ↦ (record info { status = to }, rw c refl, moved_status j x c k)
                  | inr c ↦ (x, rw c k, stays x.status)
                ]);
          next_le =
              subst (λ (y : Nodes W). id_or_one y.next_node_id ≤ id_or_one s.next_node_id + 1)
                (sym l') (omega arith);
        }
      where
        moved_status :
            (j : ℕ) (x : NodeInfo) → (j == i) ≡ true → s.registry j ≡ some x → Move x.status to
        moved_status j x c k =
            let (_, st, _) = transfer_checks from to info s t h in
            let same : x ≡ info = some_inj.0 (sym k ∙ (ap s.registry ((==_iff j i).0 c) ∙ e)) in
            subst (λ y. Move y to)
              (sym (
                ap (λ y. NodeInfo.status y) same
                ∙ code-inj info.status from ((==_iff (code info.status) (code from)).0 st)))
              m
