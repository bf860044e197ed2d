-- ===== src/Nodes/Reach.antt =====
-- Runs of calls of the node manager within an epoch; the EVM undoes a call that fails
-- (internal/executor/system/framework/node_manager.go).
use axiom_lib.Common.{
  ℕ, ◌<◌, ◌+◌, some, List, [], ◌∷◌, ◌≡◌, ◌⊎◌, refl, sym, ap, ◌∙◌, subst, arith, length, inl, inr,
}
use mathlib.Core.Option.{some_inj}
use axiom_lib.Common.Words.{u64_mod}
use axiom_lib.Common.Action.{Action, Result, ok, err, bind_ok, pure, ◌>>=◌}
use axiom_lib.Nodes.Types.{NodeStatus, exited, NodeMetaData, NodeInfo, Ctx, Nodes, Error, Contracts}
use axiom_lib.Nodes.Manager.{
  id_or_one, register, join_candidate_set, exit, update_meta_data, update_operator,
}
use axiom_lib.Nodes.Invariant.{IsNodes}
use axiom_lib.Nodes.Moves.{Move, stays, IsKept}
use axiom_lib.Nodes.Calls.{join_ok, exit_ok, operator_ok}
use axiom_lib.Nodes.Registration.{register_ok, meta_data_ok}

-- The calls that write the contract's state.
pub data Call : Type 0 where
  register_call : NodeInfo → Call
  join_call : ℕ → ℕ → Call
  exit_call : ℕ → Call
  meta_data_call : ℕ → NodeMetaData → Call
  operator_call : ℕ → ℕ → Call

exited-Move : {s : NodeStatus} → Move exited s → s ≡ exited
exited-Move (stays _) = refl

module _ {W : Type 0} where
  -- The state that stays after a call.
  abbrev pub settle : Nodes W → Result Error (Unit {0}) × Nodes W → Nodes W
  settle s (ok _, t) = t
  settle s (err _, t) = s

  settle-cases :
      (s : Nodes W) (r : Result Error (Unit {0}) × Nodes W)
      → (r ≡ (ok tt, settle s r)) ⊎ (settle s r ≡ s)
  settle-cases s (ok tt, t) = inl refl
  settle-cases s (err e, t) = inr refl

  module _ (contracts : Contracts W) where
    unfoldable pub run_call : Ctx → Call → Action (Nodes W) Error (Unit {0})
    run_call ctx (register_call info) = register contracts info >>= λ _. pure tt
    run_call ctx (join_call i rate) = join_candidate_set contracts ctx i rate
    run_call ctx (exit_call i) = exit contracts ctx i
    run_call ctx (meta_data_call i new) = update_meta_data contracts ctx i new
    run_call ctx (operator_call i new) = update_operator contracts ctx i new

    abbrev pub run_calls : List (Ctx × Call) → Nodes W → Nodes W
    run_calls [] s = s
    run_calls ((ctx, c) ∷ cs) s = run_calls cs (settle s (run_call ctx c s))

    call_ok :
        (ctx : Ctx) (c : Call) (s t : Nodes W)
        → IsNodes s
        → id_or_one s.next_node_id + 1 < u64_mod
        → run_call ctx c s ≡ (ok tt, t)
        → IsKept s t
    unfolding run_call
    call_ok ctx (register_call info) s t v lt h =
        let (id, u, e, k) = bind_ok (register contracts info) (λ _. pure tt) s t tt h in
        subst (IsKept s) (ap (λ (r : Result Error (Unit {0}) × Nodes W). r.1) k)
          (register_ok contracts info id s u v lt e)
    call_ok ctx (join_call i rate) s t v lt h = join_ok contracts ctx i rate s t v h
    call_ok ctx (exit_call i) s t v lt h = exit_ok contracts ctx i s t v h
    call_ok ctx (meta_data_call i new) s t v lt h = meta_data_ok contracts ctx i new s t v h
    call_ok ctx (operator_call i new) s t v lt h = operator_ok contracts ctx i new s t v h

    -- What the calls keep in all.
    record IsRun (s t : Nodes W) : Type 0 where
      valid : IsNodes t
      final :
          (i : ℕ) (info : NodeInfo)
          → s.registry i ≡ some info
          → info.status ≡ exited
          → (new : NodeInfo) × (t.registry i ≡ some new) × (new.status ≡ exited)

    run_calls-IsRun :
        (cs : List (Ctx × Call)) (s : Nodes W)
        → IsNodes s
        → id_or_one s.next_node_id + length cs < u64_mod
        → IsRun s (run_calls cs s)
    run_calls-IsRun [] s v lt = record { valid = v; final = λ i info e x. (info, e, x) }
    run_calls-IsRun ((ctx, c) ∷ cs) s v lt = elim (settle-cases s (run_call ctx c s)) [
      | inl e ↦
          let k = call_ok ctx c s (settle s (run_call ctx c s)) v (omega arith) e in
          let r =
            run_calls-IsRun cs (settle s (run_call ctx c s)) k.valid (omega (arith, k.next_le)) in
          record {
            valid = r.valid;
            final = λ i info f x.
                let (new, g, m) = k.moves i info f in
                r.final i new g (exited-Move (subst (λ y. Move y new.status) x m));
          }
      | inr e ↦
          let r = run_calls-IsRun cs (settle s (run_call ctx c s)) (subst IsNodes (sym e) v) (
            subst (λ (y : Nodes W). id_or_one y.next_node_id + length cs < u64_mod) (sym e)
              (omega arith)) in
          record {
            valid = r.valid;
            final = λ i info f x. r.final i info (ap (λ (y : Nodes W). y.registry i) e ∙ f) x;
          }
    ]

    -- Whatever is called within an epoch, successful or not, as long as the ids do not wrap, each status
    -- set holds, once, just the nodes with its status, each node stands under its id, and the indexes
    -- of p2p ids, keys and names lead to it.
    pub run_calls-IsNodes :
        (cs : List (Ctx × Call)) (s : Nodes W)
        → IsNodes s
        → id_or_one s.next_node_id + length cs < u64_mod
        → IsNodes (run_calls cs s)
    run_calls-IsNodes cs s v lt = (run_calls-IsRun cs s v lt).valid

    -- A node that has exited stays exited, whatever is called.
    pub exited_is_final :
        (cs : List (Ctx × Call)) (s : Nodes W) (i : ℕ) (info : NodeInfo)
        → IsNodes s
        → id_or_one s.next_node_id + length cs < u64_mod
        → s.registry i ≡ some info
        → info.status ≡ exited
        → (new : NodeInfo) × ((run_calls cs s).registry i ≡ some new) × (new.status ≡ exited)
    exited_is_final cs s i info v lt e x = (run_calls-IsRun cs s v lt).final i info e x

  same_keys :
      (s : Nodes W) (i j : ℕ) (a b : NodeInfo)
      → IsNodes s
      → s.registry i ≡ some a
      → s.registry j ≡ some b
      → (a.meta_data.name ≡ b.meta_data.name)
        ⊎ ((a.p2p_id ≡ b.p2p_id) ⊎ (a.consensus_pub_key ≡ b.consensus_pub_key))
      → i ≡ j
  same_keys s i j a b v e f (inl h) =
      some_inj.0 (sym (v.named i a e).name_eq ∙ (ap s.name_index h ∙ (v.named j b f).name_eq))
  same_keys s i j a b v e f (inr (inl h)) =
      some_inj.0 (sym (v.named i a e).p2p_id_eq ∙ (ap s.p2p_id_index h ∙ (v.named j b f).p2p_id_eq))
  same_keys s i j a b v e f (inr (inr h)) =
      some_inj.0
        (sym (v.named i a e).pub_key_eq ∙ (ap s.pub_key_index h ∙ (v.named j b f).pub_key_eq))

  -- Whatever is called within an epoch, two nodes that share a name, a p2p id or a consensus key are
  -- the same node.
  pub names_unique :
      (contracts : Contracts W) (cs : List (Ctx × Call)) (s : Nodes W) (i j : ℕ) (a b : NodeInfo)
      → IsNodes s
      → id_or_one s.next_node_id + length cs < u64_mod
      → (run_calls contracts cs s).registry i ≡ some a
      → (run_calls contracts cs s).registry j ≡ some b
      → (a.meta_data.name ≡ b.meta_data.name)
        ⊎ ((a.p2p_id ≡ b.p2p_id) ⊎ (a.consensus_pub_key ≡ b.consensus_pub_key))
      → i ≡ j
  names_unique contracts cs s i j a b v lt =
      same_keys (run_calls contracts cs s) i j a b (run_calls-IsNodes contracts cs s v lt)
