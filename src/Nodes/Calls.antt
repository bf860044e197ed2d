-- ===== src/Nodes/Calls.antt =====
-- The calls of the node manager keep the invariant, and move the statuses of the nodes as they may
-- (internal/executor/system/framework/node_manager.go).
use axiom_lib.Common.{
  ℕ, ◌≤◌, ◌+◌, some, ◌==◌, ◌≡◌, refl, sym, ap, ◌∙◌, subst, arith, Bool-cases, Option-cases, inl,
  inr, ==_iff,
}
use mathlib.Core.Option.{some_inj}
use axiom_lib.Common.Maps.{update}
use axiom_lib.Common.Action.{Action, ok, bind_ok, gets, raise_if, ◌>>=◌, ◌>>◌}
use axiom_lib.Nodes.Types.{
  NodeStatus, data_syncer, candidate, active, pending_inactive, exited, code, NodeInfo, Ctx, Nodes,
  Error, Contracts, EpochParams,
}
use axiom_lib.Nodes.Manager.{
  id_or_one, check_permission, join_candidate_set, check_leave, check_remaining, exit_info, exit,
  update_operator, put_info, put_rest, operator_transfer_status,
}
use axiom_lib.Nodes.Invariant.{IsNodes, has_status, put-IsNamed}
use axiom_lib.Nodes.Moves.{
  Move, stays, joins, gives_up, retires, leaves, IsKept, rest-IsNodes, put_rest_ok, transfer_ok,
}

module _ {W : Type 0} where
  pub same-IsKept : (s t : Nodes W) → t ≡ s → IsNodes s → IsKept s t
  same-IsKept s t e v = record {
    valid = subst IsNodes (sym e) v;
    moves = λ i info h. (info, ap (λ (x : Nodes W). x.registry i) e ∙ h, stays info.status);
    next_le =
        subst (λ (x : Nodes W). id_or_one x.next_node_id ≤ id_or_one s.next_node_id + 1) (sym e)
          (omega arith);
  }

  pub permission_ok :
      (ctx : Ctx) (i : ℕ) (contracts : Contracts W) (info : NodeInfo) (s t : Nodes W)
      → check_permission contracts ctx i s ≡ (ok info, t)
      → (t ≡ s) × (s.registry i ≡ some info)
  unfolding check_permission
  permission_ok ctx i contracts info s t h = elim (Option-cases (s.registry i)) [
    | inl e ↦ absurd (ground arith)
    | inr (x, e) ↦ ground (arith, e)
  ]

  -- The state of another contract changes after a call.
  IsKept-rest : (s t u : Nodes W) (w : W) → IsKept s t → u ≡ record t { rest = w } → IsKept s u
  IsKept-rest s t u w k e =
      subst (IsKept s) (sym e)
        (record { valid = rest-IsNodes t w k.valid; moves = k.moves; next_le = k.next_le })

  -- An info is stored again with the same status, keys and name.
  pub put-IsKept :
      (i : ℕ) (info new : NodeInfo) (s : Nodes W)
      → IsNodes s
      → s.registry i ≡ some info
      → new.id ≡ info.id
      → new.p2p_id ≡ info.p2p_id
      → new.consensus_pub_key ≡ info.consensus_pub_key
      → new.meta_data.name ≡ info.meta_data.name
      → new.status ≡ info.status
      → IsKept s (record s { registry = update s.registry i (some new) })
  put-IsKept i info new s v e a b c d f = record {
    valid = record {
      named = put-IsNamed i info new s s.status_sets v e a b c d;
      sets = λ st j. elim (Bool-cases (j == i)) [
        | inl k ↦ rw k (
            ground (
              arith,
              v.sets st j,
              ap (has_status (code st)) (ap s.registry ((==_iff j i).0 k) ∙ e),
              ap code f,
            ))
        | inr k ↦ rw k (v.sets st j)
      ];
      once = v.once;
    };
    moves = λ j x h. elim (Bool-cases (j == i)) [
      | inl k ↦
          let same : x ≡ info = some_inj.0 (sym h ∙ (ap s.registry ((==_iff j i).0 k) ∙ e)) in
          (
            new,
            rw k refl,
            subst (λ y. Move y new.status) (f ∙ ap (λ y. NodeInfo.status y) (sym same))
                (stays new.status),
          )
      | inr k ↦ (x, rw k h, stays x.status)
    ];
    next_le = omega arith;
  }

  module _ (contracts : Contracts W) where
    pub join_ok :
        (ctx : Ctx) (i rate : ℕ) (s t : Nodes W)
        → IsNodes s
        → join_candidate_set contracts ctx i rate s ≡ (ok tt, t)
        → IsKept s t
    unfolding join_candidate_set
    join_ok ctx i rate s t v h =
        let create : Action (Nodes W) Error (Unit {0}) =
          gets (contracts.create_pool i rate) >>= put_rest in
        let (info, s', e, k) =
          bind_ok (check_permission contracts ctx i)
            (λ info. operator_transfer_status contracts data_syncer candidate info >> create) s t tt
            h in
        let (same, found) = permission_ok ctx i contracts info s s' e in
        let (_, u, e', k') =
          bind_ok (operator_transfer_status contracts data_syncer candidate info) (λ _. create) s t
            tt
            (subst
              (λ x.
                (operator_transfer_status contracts data_syncer candidate info >> create) x
                ≡ (ok tt, t))
              same k) in
        let (w, l) = put_rest_ok (contracts.create_pool i rate u) u t k' in
        IsKept-rest s u t w
          (transfer_ok contracts data_syncer candidate i info s u v found joins e') l

    check_leave_same :
        (e : EpochParams) (s t : Nodes W) → check_leave contracts s ≡ (ok e, t) → t ≡ s
    unfolding check_leave
    check_leave_same e s t h = elim (Option-cases (s.status_sets (code active))) [
      | inl c ↦ absurd (ground arith)
      | inr (ids, c) ↦ elim (Option-cases (contracts.current_epoch s.rest)) [
        | inl d ↦ absurd (ground arith)
        | inr (x, d) ↦ ground arith
      ]
    ]

    check_remaining_same :
        (e : EpochParams) (s t : Nodes W) → check_remaining contracts e s ≡ (ok tt, t) → t ≡ s
    check_remaining_same e s t h = ground arith

    leave_ok :
        (i : ℕ) (info : NodeInfo) (s t : Nodes W)
        → IsNodes s
        → s.registry i ≡ some info
        → exit_info contracts active info s ≡ (ok tt, t)
        → IsKept s t
    unfolding exit_info
    leave_ok i info s t v e h =
        let moves : EpochParams → Action (Nodes W) Error (Unit {0}) = λ x.
          operator_transfer_status contracts active pending_inactive info
          >> check_remaining contracts x in
        let (x, s', c, k) = bind_ok (check_leave contracts) moves s t tt h in
        let (_, u, d, l) =
          bind_ok (operator_transfer_status contracts active pending_inactive info)
            (λ _. check_remaining contracts x) s t tt
            (subst (λ y. moves x y ≡ (ok tt, t)) (check_leave_same x s s' c) k) in
        subst (IsKept s) (sym (check_remaining_same x u t l))
          (transfer_ok contracts active pending_inactive i info s u v e leaves d)

    exit_info_ok :
        (st : NodeStatus) (i : ℕ) (info : NodeInfo) (s t : Nodes W)
        → IsNodes s
        → s.registry i ≡ some info
        → exit_info contracts st info s ≡ (ok tt, t)
        → IsKept s t
    unfolding exit_info
    exit_info_ok active i info s t v e h = leave_ok i info s t v e h
    exit_info_ok candidate i info s t v e h =
        transfer_ok contracts candidate exited i info s t v e retires h
    exit_info_ok data_syncer i info s t v e h =
        transfer_ok contracts data_syncer exited i info s t v e gives_up h
    exit_info_ok pending_inactive i info s t v e h = absurd (ground arith)
    exit_info_ok exited i info s t v e h = absurd (ground arith)

    pub exit_ok :
        (ctx : Ctx) (i : ℕ) (s t : Nodes W)
        → IsNodes s
        → exit contracts ctx i s ≡ (ok tt, t)
        → IsKept s t
    unfolding exit
    exit_ok ctx i s t v h =
        let (info, s', e, k) =
          bind_ok (check_permission contracts ctx i) (λ info. exit_info contracts info.status info)
            s t tt h in
        let (same, found) = permission_ok ctx i contracts info s s' e in
        exit_info_ok info.status i info s t v found
          (subst (λ x. exit_info contracts info.status info x ≡ (ok tt, t)) same k)

    pub operator_ok :
        (ctx : Ctx) (i new : ℕ) (s t : Nodes W)
        → IsNodes s
        → update_operator contracts ctx i new s ≡ (ok tt, t)
        → IsKept s t
    unfolding update_operator
    operator_ok ctx i new s t v h =
        let writes : NodeInfo → Action (Nodes W) Error (Unit {0}) = λ info.
          raise_if (new == 0) Error.zero_operator >> put_info i (record info { operator = new }) in
        let (info, s', e, k) = bind_ok (check_permission contracts ctx i) writes s t tt h in
        let (same, found) = permission_ok ctx i contracts info s s' e in
        subst (IsKept s) (written info s t (subst (λ x. writes info x ≡ (ok tt, t)) same k))
          (put-IsKept i info (record info { operator = new }) s v found refl refl refl refl refl)
      where
        written :
            (info : NodeInfo) (s t : Nodes W)
            → (raise_if (new == 0) Error.zero_operator
                  >> put_info i (record info { operator = new }))
                s
              ≡ (ok tt, t)
            → record s { registry = update s.registry i (some (record info { operator = new })) }
              ≡ t
        written info s t h = ground arith
