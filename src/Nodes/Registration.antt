-- ===== src/Nodes/Registration.antt =====
-- Register and UpdateMetaData keep the indexes in step with the registry
-- (internal/executor/system/framework/node_manager.go).
use axiom_lib.Common.Distinct.{contains-append}
use axiom_lib.Common.{
  ℕ, ◌<◌, ◌≤◌, ◌+◌, true, false, not, ◌&&◌, Option, none, some, [], ◌∷◌, ◌==◌, if◌then◌else◌, ◌≡◌,
  ◌≢◌, refl, sym, ap, ◌∙◌, subst, arith, Bool-cases, Option-cases, inl, inr, ==_iff,
}
use mathlib.Core.Option.{some_inj}
use axiom_lib.Common.Maps.{update, update_self, update_ne, update-some-cases}
use axiom_lib.Common.Words.{u64_mod, add64}
use axiom_lib.Common.Action.{Action, Result, ok, bind_ok, gets, pure, modify, raise_if, ◌>>=◌, ◌>>◌}
use axiom_lib.Nodes.Types.{
  NodeStatus, data_syncer, code, NodeMetaData, NodeInfo, Ctx, Nodes, Error, empty_name, name_in_use,
  Contracts,
}
use axiom_lib.Nodes.Manager.{
  listed, is_some, id_or_one, entered, check_unused, standardization_node_info, register,
  check_permission, rename, update_meta_data,
}
use axiom_lib.Nodes.Invariant.{IsNamed, IsNodes, has_status, append-NoRepeat}
use axiom_lib.Nodes.Moves.{Move, stays, IsKept}
use axiom_lib.Nodes.Calls.{permission_ok, put-IsKept}

-- The index of a key of another node stays where an unused key is entered.
index-other :
    (m : ℕ → Option ℕ) (k new id j : ℕ)
    → m k ≡ some j
    → m new ≡ none
    → update m new (some id) k ≡ some j
index-other m k new id j e f = update_ne m new k (some id) other ∙ e
  where
    other : k ≢ new
    other h = ground (arith, ap m h)

module _ {W : Type 0} where
  check_unused_ok :
      (info : NodeInfo) (s t : Nodes W)
      → check_unused info s ≡ (ok tt, t)
      → (t ≡ s)
        × (s.p2p_id_index info.p2p_id ≡ none)
        × (s.pub_key_index info.consensus_pub_key ≡ none)
        × (s.name_index info.meta_data.name ≡ none)
  unfolding check_unused
  check_unused_ok info s t h = (
    ground arith,
    unset (s.p2p_id_index info.p2p_id) (ground arith),
    unset (s.pub_key_index info.consensus_pub_key) (ground arith),
    unset (s.name_index info.meta_data.name) (ground arith),
  )
    where
      unset : (o : Option ℕ) → is_some o ≡ false → o ≡ none
      unset none h = refl
      unset (some x) h = absurd (cc)

  -- The new node.
  entered-IsNodes :
      (next : ℕ) (info : NodeInfo) (s : Nodes W)
      → IsNodes s
      → id_or_one s.next_node_id ≡ next
      → next + 1 < u64_mod
      → info.id ≡ next
      → (code info.status == code data_syncer) ≡ true
      → s.p2p_id_index info.p2p_id ≡ none
      → s.pub_key_index info.consensus_pub_key ≡ none
      → s.name_index info.meta_data.name ≡ none
      → IsKept s (entered next info s)
  entered-IsNodes next info s v n lt same st p k m = record {
    valid = record {
      named = λ j x h. elim (update-some-cases s.registry next j info x h) [
        | inl (a, c) ↦
            subst (λ j. IsNamed (entered next info s) j x) (sym a)
              (subst (IsNamed (entered next info s) next) c (record {
                id_eq = same;
                below = below_next next (omega arith);
                p2p_id_eq = update_self s.p2p_id_index info.p2p_id (some next);
                pub_key_eq = update_self s.pub_key_index info.consensus_pub_key (some next);
                name_eq = update_self s.name_index info.meta_data.name (some next);
              }))
        | inr a ↦
            let y = v.named j x a in
            record {
              id_eq = y.id_eq;
              below = below_next j (omega (arith, y.below, n));
              p2p_id_eq = index-other s.p2p_id_index x.p2p_id info.p2p_id next j y.p2p_id_eq p;
              pub_key_eq =
                  index-other s.pub_key_index x.consensus_pub_key info.consensus_pub_key next j
                    y.pub_key_eq k;
              name_eq =
                  index-other s.name_index x.meta_data.name info.meta_data.name next j y.name_eq m;
            }
      ];
      sets = λ x j. elim (Bool-cases (code x == code data_syncer)) [
        | inl c ↦ rw c (
            ground (
              arith,
              contains-append j (listed (s.status_sets (code data_syncer))) (next ∷ []),
              v.sets data_syncer j,
              ap (λ c. has_status c (s.registry j)) ((==_iff (code x) (code data_syncer)).0 c),
              ==_iff (code x) (code data_syncer),
              ==_iff next j,
              st,
              c,
              ==_iff (code info.status) (code data_syncer),
            ))
        | inr c ↦ rw c (
            ground (
              arith,
              v.sets x j,
              ap (has_status (code x)) unregistered,
              ap s.registry,
              ==_iff j next,
              ==_iff (code info.status) (code data_syncer),
              ==_iff (code info.status) (code x),
              ==_iff (code x) (code data_syncer),
              st,
              c,
            ))
      ];
      once = λ x. elim (Bool-cases (code x == code data_syncer)) [
        | inl c ↦ rw c (
            append-NoRepeat next (listed (s.status_sets (code data_syncer))) (v.once data_syncer) (
              ground
                (arith, v.sets data_syncer next, ap (has_status (code data_syncer)) unregistered)))
        | inr c ↦ rw c (v.once x)
      ];
    };
    moves = λ j x h. (
      x,
      update_ne s.registry next j (some info) (λ a. omega (arith, (v.named j x h).below, a, n)) ∙ h,
      stays x.status,
    );
    next_le = next_grows;
  }
    where
      below_next : (j : ℕ) → j < next + 1 → j < id_or_one (some (add64 next 1))
      below_next j h = omega (arith, lt)

      next_grows : id_or_one (some (add64 next 1)) ≤ id_or_one s.next_node_id + 1
      next_grows = omega (arith, lt, n)

      unregistered : s.registry next ≡ none
      unregistered = elim (Option-cases (s.registry next)) [
        | inl e ↦ e
        | inr (x, e) ↦ absurd (omega (arith, (v.named next x e).below, n))
      ]

  abbrev renamed : ℕ → NodeInfo → NodeMetaData → Nodes W → Nodes W
  renamed i info new s = record s {
    registry = update s.registry i (some (record info { meta_data = new }));
    name_index = update (update s.name_index info.meta_data.name none) new.name (some i);
  }

  -- The name of a node changes.
  renamed-IsKept :
      (i : ℕ) (info : NodeInfo) (new : NodeMetaData) (s : Nodes W)
      → IsNodes s
      → s.registry i ≡ some info
      → s.name_index new.name ≡ none
      → (new.name == info.meta_data.name) ≡ false
      → IsKept s (renamed i info new s)
  renamed-IsKept i info new s v e m ne = record {
    valid = record {
      named = λ j x h. elim (Bool-cases (j == i)) [
        | inl a ↦
            let y = v.named i info e in
            let c : record info { meta_data = new } ≡ x = some_inj.0 (
              subst
                (λ b. (if b then some (record info { meta_data = new }) else s.registry j) ≡ some x)
                a h) in
            subst (λ j. IsNamed (renamed i info new s) j x) (sym ((==_iff j i).0 a))
              (subst (IsNamed (renamed i info new s) i) c (record {
                id_eq = y.id_eq;
                below = y.below;
                p2p_id_eq = y.p2p_id_eq;
                pub_key_eq = y.pub_key_eq;
                name_eq =
                    update_self (update s.name_index info.meta_data.name none) new.name (some i);
              }))
        | inr a ↦
            let y = v.named j x (ground (arith, h, a)) in
            record {
              id_eq = y.id_eq;
              below = y.below;
              p2p_id_eq = y.p2p_id_eq;
              pub_key_eq = y.pub_key_eq;
              name_eq =
                  index-other (update s.name_index info.meta_data.name none) x.meta_data.name
                    new.name i j
                    (update_ne s.name_index info.meta_data.name x.meta_data.name none
                        (other j x a y.name_eq)
                      ∙ y.name_eq)
                    (update_ne s.name_index info.meta_data.name new.name none
                        (ground (arith, ==_iff new.name info.meta_data.name))
                      ∙ m);
            }
      ];
      sets = λ st j. v.sets st j ∙ same_status st j;
      once = v.once;
    };
    moves = λ j x h. elim (Bool-cases (j == i)) [
      | inl k ↦
          let same : info ≡ x = some_inj.0 (sym e ∙ (ap s.registry (sym ((==_iff j i).0 k)) ∙ h)) in
          (
            record info { meta_data = new },
            rw k refl,
            subst (λ y. Move y info.status) (ap (λ y. NodeInfo.status y) same) (stays info.status),
          )
      | inr k ↦ (x, rw k h, stays x.status)
    ];
    next_le = omega arith;
  }
    where
      other :
          (j : ℕ) (x : NodeInfo)
          → (j == i) ≡ false
          → s.name_index x.meta_data.name ≡ some j
          → x.meta_data.name ≢ info.meta_data.name
      other j x a h k =
          let same : j ≡ i =
            some_inj.0 (sym h ∙ (ap s.name_index k ∙ (v.named i info e).name_eq)) in
          ground (arith, ==_iff j i)

      same_status :
          (st : NodeStatus) (j : ℕ)
          → has_status (code st) (s.registry j)
            ≡ has_status (code st) (update s.registry i (some (record info { meta_data = new })) j)
      same_status st j = elim (Bool-cases (j == i)) [
        | inl k ↦ rw k (ap (has_status (code st)) (ap s.registry ((==_iff j i).0 k) ∙ e))
        | inr k ↦ rw k refl
      ]

  rename_ok :
      (i : ℕ) (info : NodeInfo) (new : NodeMetaData) (s t : Nodes W)
      → IsNodes s
      → s.registry i ≡ some info
      → (raise_if (new.name == 0) empty_name
            >> (gets (λ (x : Nodes W). x.name_index new.name) >>= λ o.
                raise_if (is_some o && not (new.name == info.meta_data.name)) name_in_use
                >> rename i info new))
          s
        ≡ (ok tt, t)
      → IsKept s t
  rename_ok i info new s t v e h = elim (Bool-cases (new.name == info.meta_data.name)) [
    | inl c ↦ subst (IsKept s) (ground (arith, h, c)) (
        put-IsKept i info (record info { meta_data = new }) s v e refl refl refl
          ((==_iff new.name info.meta_data.name).0 c) refl)
    | inr c ↦ elim (Option-cases (s.name_index new.name)) [
      | inl d ↦ subst (IsKept s) (ground (arith, h, c, d)) (renamed-IsKept i info new s v e d c)
      | inr (x, d) ↦ absurd (ground (arith, h, c, d))
    ]
  ]

  module _ (contracts : Contracts W) where
    -- Where the ids do not wrap, a Register that succeeds keeps the invariant and what IsKept says of
    -- the nodes before it.
    pub register_ok :
        (info : NodeInfo) (id : ℕ) (s t : Nodes W)
        → IsNodes s
        → id_or_one s.next_node_id + 1 < u64_mod
        → register contracts info s ≡ (ok id, t)
        → IsKept s t
    unfolding register
    register_ok info id s t v lt h =
        let std = standardization_node_info contracts info in
        let enter : Action (Nodes W) Error ℕ = gets (λ (x : Nodes W). x.next_node_id) >>= λ slot.
        modify (entered (id_or_one slot) (record std { id = id_or_one slot; status = data_syncer }))
        >> pure (id_or_one slot) in
        let (_, s', e, k) = bind_ok (check_unused std) (λ _. enter) s t id h in
        let (same, p, q, m) = check_unused_ok std s s' e in
        let l = subst (λ x. enter x ≡ (ok id, t)) same k in
        let next = id_or_one s.next_node_id in
        subst (IsKept s) (ap (λ (r : Result Error ℕ × Nodes W). r.1) l) (
          entered-IsNodes next (record std { id = next; status = data_syncer }) s v refl lt refl
            refl p q m)

    pub meta_data_ok :
        (ctx : Ctx) (i : ℕ) (new : NodeMetaData) (s t : Nodes W)
        → IsNodes s
        → update_meta_data contracts ctx i new s ≡ (ok tt, t)
        → IsKept s t
    unfolding update_meta_data
    meta_data_ok ctx i new s t v h =
        let writes : NodeInfo → Action (Nodes W) Error (Unit {0}) = λ info.
          raise_if (new.name == 0) empty_name
          >> (gets (λ (x : Nodes W). x.name_index new.name) >>= λ o.
              raise_if (is_some o && not (new.name == info.meta_data.name)) name_in_use
              >> rename i info new) in
        let (info, s', e, k) = bind_ok (check_permission contracts ctx i) writes s t tt h in
        let (same, found) = permission_ok ctx i contracts info s s' e in
        rename_ok i info new s t v found (subst (λ x. writes info x ≡ (ok tt, t)) same k)
