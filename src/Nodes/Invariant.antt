-- ===== src/Nodes/Invariant.antt =====
-- What holds of the registered nodes: the indexes and the status sets agree with the registry
-- (internal/executor/system/framework/node_manager.go).
use axiom_lib.Common.Distinct.{contains, NoRepeat, NoRepeat-insert, contains-append}
use axiom_lib.Common.{
  ℕ, ◌<◌, Bool, true, false, Option, none, some, List, [], ◌∷◌, ◌++◌, ◌==◌, if◌then◌else◌, ◌≡◌,
  refl, sym, ap, ◌∙◌, subst, arith, Bool-cases, inl, inr, ==_iff,
}
use mathlib.Core.List.{append-nil}
use axiom_lib.Common.Maps.{update, update-some-cases}
use axiom_lib.Nodes.Types.{NodeStatus, code, NodeInfo, Nodes}
use axiom_lib.Nodes.Manager.{listed, remove_first, id_or_one}

-- The node is there with this status.
abbrev pub has_status : ℕ → Option NodeInfo → Bool
has_status c none = false
has_status c (some info) = code info.status == c

-- The node stands under its id, which was given out, and the indexes of its p2p id, key and name lead
-- to it.
pub record IsNamed {W : Type 0} (s : Nodes W) (i : ℕ) (info : NodeInfo) : Type 0 where
  pub id_eq : info.id ≡ i
  pub below : i < id_or_one s.next_node_id
  pub p2p_id_eq : s.p2p_id_index info.p2p_id ≡ some i
  pub pub_key_eq : s.pub_key_index info.consensus_pub_key ≡ some i
  pub name_eq : s.name_index info.meta_data.name ≡ some i

-- Each status set holds, once, just the nodes with its status.
pub record IsNodes {W : Type 0} (s : Nodes W) : Type 0 where
  pub named : (i : ℕ) (info : NodeInfo) → s.registry i ≡ some info → IsNamed s i info
  pub sets :
      (st : NodeStatus) (i : ℕ)
      → contains i (listed (s.status_sets (code st))) ≡ has_status (code st) (s.registry i)
  pub once : (st : NodeStatus) → NoRepeat (listed (s.status_sets (code st)))

contains-remove_first :
    (a u : ℕ) (xs : List ℕ)
    → NoRepeat xs
    → contains a (remove_first u xs) ≡ (if u == a then false else contains a xs)
contains-remove_first a u [] h = ground arith
contains-remove_first a u (x ∷ xs) (h, hs) = ground (
  arith,
  contains-remove_first a u xs hs,
  ==_iff x u,
  ==_iff x a,
  ==_iff u a,
  ap (λ y. contains y xs),
  h,
)

remove_first-NoRepeat : (u : ℕ) (xs : List ℕ) → NoRepeat xs → NoRepeat (remove_first u xs)
remove_first-NoRepeat u [] h = tt
remove_first-NoRepeat u (x ∷ xs) (h, hs) = elim (Bool-cases (x == u)) [
  | inl e ↦ rw e hs
  | inr e ↦ rw e (ground (arith, contains-remove_first x u xs hs, h), remove_first-NoRepeat u xs hs)
]

pub append-NoRepeat :
    (i : ℕ) (xs : List ℕ) → NoRepeat xs → contains i xs ≡ false → NoRepeat (xs ++ i ∷ [])
append-NoRepeat i xs h c = subst NoRepeat (append-nil _) (
    NoRepeat-insert i xs [] (subst NoRepeat (sym (append-nil _)) h)
      (ap (contains i) (append-nil _) ∙ c))

-- The sets after a node moves from one to another.
abbrev pub moved :
    NodeStatus → NodeStatus → ℕ → List ℕ → (ℕ → Option (List ℕ)) → ℕ → Option (List ℕ)
moved from to i ids m =
    update (update m (code from) (some (remove_first i ids))) (code to)
      (some (listed (m (code to)) ++ i ∷ []))

module _ {W : Type 0} where
  -- The infos keep what IsNamed reads when other fields of one change.
  pub put-IsNamed :
      (i : ℕ) (info new : NodeInfo) (s : Nodes W) (sets : ℕ → Option (List ℕ))
      → IsNodes s
      → s.registry i ≡ some info
      → new.id ≡ info.id
      → new.p2p_id ≡ info.p2p_id
      → new.consensus_pub_key ≡ info.consensus_pub_key
      → new.meta_data.name ≡ info.meta_data.name
      → (j : ℕ) (x : NodeInfo) → update s.registry i (some new) j ≡ some x
      → IsNamed (record s { registry = update s.registry i (some new); status_sets = sets }) j x
  put-IsNamed i info new s sets v e a b c d j x h =
      elim (update-some-cases s.registry i j new x h) [
        | inl (k, l) ↦
            let n = v.named i info e in
            subst
              (λ j.
                IsNamed (record s { registry = update s.registry i (some new); status_sets = sets })
                  j x)
              (sym k)
              (subst
                (IsNamed
                  (record s { registry = update s.registry i (some new); status_sets = sets }) i)
                l
                (record {
                  id_eq = a ∙ n.id_eq;
                  below = n.below;
                  p2p_id_eq = ap s.p2p_id_index b ∙ n.p2p_id_eq;
                  pub_key_eq = ap s.pub_key_index c ∙ n.pub_key_eq;
                  name_eq = ap s.name_index d ∙ n.name_eq;
                }))
        | inr k ↦
            let n = v.named j x k in
            record {
              id_eq = n.id_eq;
              below = n.below;
              p2p_id_eq = n.p2p_id_eq;
              pub_key_eq = n.pub_key_eq;
              name_eq = n.name_eq;
            }
      ]

  -- A node that changes its status and moves between the sets.
  pub move-IsNodes :
      (from to : NodeStatus) (i : ℕ) (info : NodeInfo) (ids : List ℕ) (s : Nodes W)
      → IsNodes s
      → s.registry i ≡ some info
      → (code info.status == code from) ≡ true
      → (code from == code to) ≡ false
      → s.status_sets (code from) ≡ some ids
      → IsNodes (record s {
        registry = update s.registry i (some (record info { status = to }));
        status_sets = moved from to i ids s.status_sets;
      })
  move-IsNodes from to i info ids s v e st ne f = record {
    named =
        put-IsNamed i info (record info { status = to }) s (moved from to i ids s.status_sets) v e
          refl refl refl refl;
    sets = λ x j. elim (Bool-cases (code x == code to)) [
      | inl c ↦ rw c (
          ground (
            arith,
            contains-append j (listed (s.status_sets (code to))) (i ∷ []),
            v.sets to j,
            ap (λ c. has_status c (s.registry j)) ((==_iff (code x) (code to)).0 c),
            ==_iff (code x) (code to),
            ==_iff i j,
            c,
          ))
      | inr c ↦ elim (Bool-cases (code x == code from)) [
        | inl d ↦
            rw (c, d)
              (ground (
                arith,
                contains-remove_first j i ids once_ids,
                held j,
                ap (λ c. has_status c (s.registry j)) ((==_iff (code x) (code from)).0 d),
                ==_iff (code x) (code to),
                ==_iff (code to) (code x),
                ==_iff i j,
                c,
              ))
        | inr d ↦
            rw (c, d)
              (ground (
                arith,
                v.sets x j,
                ap (has_status (code x)) e,
                ap s.registry,
                ==_iff j i,
                ==_iff (code x) (code to),
                ==_iff (code to) (code x),
                ==_iff (code x) (code from),
                ==_iff (code info.status) (code from),
                ==_iff (code info.status) (code x),
                c,
                d,
                st,
              ))
      ]
    ];
    once = λ x. elim (Bool-cases (code x == code to)) [
      | inl c ↦ rw c (append-NoRepeat i (listed (s.status_sets (code to))) (v.once to) absent)
      | inr c ↦ elim (Bool-cases (code x == code from)) [
        | inl d ↦ rw (c, d) (remove_first-NoRepeat i ids once_ids)
        | inr d ↦ rw (c, d) (v.once x)
      ]
    ];
  }
    where
      held : (j : ℕ) → contains j ids ≡ has_status (code from) (s.registry j)
      held j = ap (λ o. contains j (listed o)) (sym f) ∙ v.sets from j

      once_ids : NoRepeat ids
      once_ids = subst (λ o. NoRepeat (listed o)) f (v.once from)

      absent : contains i (listed (s.status_sets (code to))) ≡ false
      absent = ground (
        arith,
        v.sets to i,
        ap (has_status (code to)) e,
        ==_iff (code info.status) (code from),
        st,
        ne,
      )
