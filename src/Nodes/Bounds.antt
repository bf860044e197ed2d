-- ===== src/Nodes/Bounds.antt =====
-- The election of the validators: how many there are, and which
-- (internal/executor/system/framework/node_manager.go).
use axiom_lib.Common.{
  ℕ, ◌+◌, ◌≤◌, Bool, true, false, ◌&&◌, Option, some, List, [], ◌∷◌, ◌==◌, ltb, leb, if◌then◌else◌,
  length, map, All, ◌≡◌, inl, inr, refl, sym, ap, ◌∙◌, arith, Bool-cases,
}
use axiom_lib.Common.Maps.{update}
use axiom_lib.Common.Action.{Result, pure, ok, bind_ok, ◌>>=◌}
use axiom_lib.Nodes.Types.{
  NodeStatus, candidate, active, code, NodeInfo, SortNodeInfo, ConsensusVotingPower, EpochParams,
  Nodes, Error, Contracts,
}
use axiom_lib.Nodes.Manager.{listed, put_info, active_validator_ids, process_node_leave}
use axiom_lib.Nodes.Election.{
  elect, ids_of, voting_power, set_statuses, install, ranked, elect_and_install,
  turn_into_new_epoch,
}

-- The nodes with enough stake
abbrev pub count_rich : ℕ → List SortNodeInfo → ℕ
count_rich min [] = 0
count_rich min (x ∷ xs) = (if leb min x.stake_value then 1 else 0) + count_rich min xs

-- Each node has at least the stake of those behind it.
abbrev pub Descending : List SortNodeInfo → Type 0
Descending [] = Unit
Descending (x ∷ xs) = All (λ y. y.stake_value ≤ x.stake_value) xs × Descending xs

abbrev pub minimum : ℕ → ℕ → ℕ
minimum a b = if leb a b then a else b

-- There are as many validators as may be, all have enough stake, and no candidate has more stake than
-- one of them.
pub record IsElected (max min : ℕ) (xs validators candidates : List SortNodeInfo) : Type 0 where
  pub rich : All (λ x. min ≤ x.stake_value) validators
  pub total : length validators + length candidates ≡ length xs
  pub as_many : length validators ≡ minimum max (count_rich min xs)
  pub behind : All (λ v. All (λ c. c.stake_value ≤ v.stake_value) candidates) validators

elect_total :
    (max min k : ℕ) (xs : List SortNodeInfo)
    → length (elect max min k xs).0 + length (elect max min k xs).1 ≡ length xs
elect_total max min k [] = refl
elect_total max min k (x ∷ xs) = elim (Bool-cases (leb min x.stake_value && ltb k max)) [
  | inl c ↦ rw c (omega (arith, elect_total max min (k + 1) xs))
  | inr c ↦ rw c (omega (arith, elect_total max min k xs))
]

elect_as_many :
    (max min k : ℕ) (xs : List SortNodeInfo)
    → k ≤ max
    → k + length (elect max min k xs).0 ≡ minimum max (k + count_rich min xs)
elect_as_many max min k [] le = ground arith
elect_as_many max min k (x ∷ xs) le = elim (Bool-cases (leb min x.stake_value && ltb k max)) [
  | inl c ↦ rw c (ground (arith, c, elect_as_many max min (k + 1) xs (ground (arith, c))))
  | inr c ↦ rw c (ground (arith, c, elect_as_many max min k xs le))
]

module _ (P : SortNodeInfo → Type 0) where
  -- What holds of all nodes holds of the candidates.
  elect-All : (max min k : ℕ) (xs : List SortNodeInfo) → All P xs → All P (elect max min k xs).1
  elect-All max min k [] h = tt
  elect-All max min k (x ∷ xs) (h, hs) = elim (Bool-cases (leb min x.stake_value && ltb k max)) [
    | inl c ↦ rw c (elect-All max min (k + 1) xs hs)
    | inr c ↦ rw c (h, elect-All max min k xs hs)
  ]

  All-map :
      (Q : SortNodeInfo → Type 0) (xs : List SortNodeInfo)
      → ((x : SortNodeInfo) → P x → Q x)
      → All P xs
      → All Q xs
  All-map Q [] f h = tt
  All-map Q (x ∷ xs) f (h, hs) = (f x h, All-map Q xs f hs)

elect_rich :
    (max min k : ℕ) (xs : List SortNodeInfo) → All (λ x. min ≤ x.stake_value) (elect max min k xs).0
elect_rich max min k [] = tt
elect_rich max min k (x ∷ xs) = elim (Bool-cases (leb min x.stake_value && ltb k max)) [
  | inl c ↦ rw c (ground (arith, c), elect_rich max min (k + 1) xs)
  | inr c ↦ rw c (elect_rich max min k xs)
]

elect_full :
    (max min k : ℕ) (xs : List SortNodeInfo) → ltb k max ≡ false → (elect max min k xs).0 ≡ []
elect_full max min k [] h = refl
elect_full max min k (x ∷ xs) h = elim (Bool-cases (leb min x.stake_value && ltb k max)) [
  | inl c ↦ absurd (ground (arith, c, h))
  | inr c ↦ rw c (elect_full max min k xs h)
]

-- A node that is passed over has no more stake than the validators behind it.
passed_over :
    (max min k : ℕ) (x : SortNodeInfo) (xs : List SortNodeInfo)
    → (leb min x.stake_value && ltb k max) ≡ false
    → All (λ v. x.stake_value ≤ v.stake_value) (elect max min k xs).0
passed_over max min k x xs c = elim (Bool-cases (ltb k max)) [
  | inl l ↦
      All-map (λ v. min ≤ v.stake_value) (λ v. x.stake_value ≤ v.stake_value) (elect max min k xs).0
        (λ v h. ground (arith, c, l, h)) (elect_rich max min k xs)
  | inr l ↦ rw (elect_full max min k xs l) tt
]

All-both :
    (P Q : SortNodeInfo → Type 0) (xs : List SortNodeInfo)
    → All P xs
    → All Q xs
    → All (λ x. P x × Q x) xs
All-both P Q [] h k = tt
All-both P Q (x ∷ xs) (h, hs) (k, ks) = ((h, k), All-both P Q xs hs ks)

elect_behind :
    (max min k : ℕ) (xs : List SortNodeInfo)
    → Descending xs
    → All
        (λ v. All (λ c. c.stake_value ≤ v.stake_value) (elect max min k xs).1)
        (elect max min k xs).0
elect_behind max min k [] d = tt
elect_behind max min k (x ∷ xs) (d, ds) = elim (Bool-cases (leb min x.stake_value && ltb k max)) [
  | inl c ↦ rw c (
    elect-All (λ y. y.stake_value ≤ x.stake_value) max min (k + 1) xs d,
    elect_behind max min (k + 1) xs ds,
  )
  | inr c ↦ rw c (
      All-both (λ v. x.stake_value ≤ v.stake_value)
        (λ v. All (λ c. c.stake_value ≤ v.stake_value) (elect max min k xs).1)
        (elect max min k xs).0 (passed_over max min k x xs c) (elect_behind max min k xs ds))
]

-- Among nodes in the order of their stakes, the election takes as many validators as have enough stake,
-- up to the most that there may be, and no node that is left out has more stake than a validator.
pub elect_lem :
    (max min : ℕ) (xs : List SortNodeInfo)
    → Descending xs
    → IsElected max min xs (elect max min 0 xs).0 (elect max min 0 xs).1
elect_lem max min xs d = record {
  rich = elect_rich max min 0 xs;
  total = elect_total max min 0 xs;
  as_many = ground (arith, elect_as_many max min 0 xs (omega arith));
  behind = elect_behind max min 0 xs d;
}

-- The ids of the voting powers are those of the validators.
map-powers :
    (xs : List SortNodeInfo)
    → map (λ p. ConsensusVotingPower.node_id p) (map voting_power xs) ≡ ids_of xs
map-powers [] = refl
map-powers (x ∷ xs) = ap (λ l. x.info.id ∷ l) (map-powers xs)

length-map : (xs : List SortNodeInfo) → length (map voting_power xs) ≡ length xs
length-map [] = refl
length-map (x ∷ xs) = omega (arith, length-map xs)

module _ {W : Type 0} where
  -- Writing statuses changes neither the sets nor the voting powers.
  abbrev SameSets : Nodes W → Nodes W → Type 0
  SameSets s t = (t.status_sets ≡ s.status_sets) × (t.voting_powers ≡ s.voting_powers)

  set_status_keeps :
      (b : Bool) (i : ℕ) (info : NodeInfo) (s t : Nodes W)
      → (if b then pure tt else put_info i info) s ≡ (ok tt, t)
      → SameSets s t
  set_status_keeps true i info s t h =
      let e = sym (ap (λ (r : Result Error (Unit {0}) × Nodes W). r.1) h) in
      (ap (λ (x : Nodes W). x.status_sets) e, ap (λ (x : Nodes W). x.voting_powers) e)
  set_status_keeps false i info s t h =
      let e = sym (ap (λ (r : Result Error (Unit {0}) × Nodes W). r.1) h) in
      (ap (λ (x : Nodes W). x.status_sets) e, ap (λ (x : Nodes W). x.voting_powers) e)

  set_statuses_keeps :
      (st : NodeStatus) (xs : List SortNodeInfo) (s t : Nodes W)
      → set_statuses st xs s ≡ (ok tt, t)
      → SameSets s t
  set_statuses_keeps st [] s t h =
      let e = sym (ap (λ (r : Result Error (Unit {0}) × Nodes W). r.1) h) in
      (ap (λ (x : Nodes W). x.status_sets) e, ap (λ (x : Nodes W). x.voting_powers) e)
  set_statuses_keeps st (x ∷ xs) s t h =
      let (_, u, e, k) =
        bind_ok
          (if code x.info.status == code st
            then pure tt
            else put_info x.info.id (record x.info { status = st }))
          (λ _. set_statuses st xs) s t tt h in
      let (a, b) =
        set_status_keeps (code x.info.status == code st) x.info.id (record x.info { status = st }) s
          u e in
      let (c, d) = set_statuses_keeps st xs u t k in (c ∙ a, d ∙ b)

  install_ok :
      (validators candidates : List SortNodeInfo) (s t : Nodes W)
      → install validators candidates s ≡ (ok tt, t)
      → (t.status_sets (code active) ≡ some (ids_of validators))
        × (t.voting_powers ≡ some (map voting_power validators))
  unfolding install
  install_ok validators candidates s t h =
      let s1 : Nodes W = record s {
        status_sets =
            update (update s.status_sets (code candidate) (some (ids_of candidates))) (code active)
              (some (ids_of validators));
        voting_powers = some (map voting_power validators);
      } in
      let (_, u, e, k) =
        bind_ok (set_statuses candidate candidates) (λ _. set_statuses active validators) s1 t tt
          h in
      let (a, b) = set_statuses_keeps candidate candidates s1 u e in
      let (c, d) = set_statuses_keeps active validators u t k in
      (ap (λ (m : ℕ → Option (List ℕ)). m (code active)) (c ∙ a), d ∙ b)

  module _ (contracts : Contracts W) where
    install_bounds :
        (epoch : EpochParams) (xs : List SortNodeInfo) (s t : Nodes W)
        → elect_and_install contracts epoch xs s ≡ (ok tt, t)
        → (active_validator_ids contracts t ≡ listed (t.status_sets (code active)))
          × (epoch.min_validator_num ≤ length (listed t.voting_powers))
          × (length (listed t.voting_powers) ≤ epoch.max_validator_num)
    unfolding elect_and_install
    install_bounds epoch xs s t h =
        let vs = (elect epoch.max_validator_num epoch.min_validator_stake 0 xs).0 in
        let (a, b) =
          install_ok vs (elect epoch.max_validator_num epoch.min_validator_stake 0 xs).1 s t
            (ground arith) in
        (
          ap (λ o. map (λ p. ConsensusVotingPower.node_id p) (listed o)) b
              ∙ (map-powers vs ∙ ap listed (sym a)),
          ground (arith, h, ap (λ o. length (listed o)) b, length-map vs),
          ground (
            arith,
            ap (λ o. length (listed o)) b,
            length-map vs,
            elect_as_many epoch.max_validator_num epoch.min_validator_stake 0 xs (omega arith),
          ),
        )

    -- A change of the epoch that succeeds leaves voting powers for just the active nodes, of which there
    -- are at least as many as must be and at most as many as may be.
    pub turn_bounds :
        (epoch : EpochParams) (s t : Nodes W)
        → turn_into_new_epoch contracts epoch s ≡ (ok tt, t)
        → (active_validator_ids contracts t ≡ listed (t.status_sets (code active)))
          × (epoch.min_validator_num ≤ length (listed t.voting_powers))
          × (length (listed t.voting_powers) ≤ epoch.max_validator_num)
    unfolding turn_into_new_epoch
    turn_bounds epoch s t h =
        let (gone, u, e, k) =
          bind_ok (process_node_leave contracts)
            (λ gone. ranked contracts gone >>= elect_and_install contracts epoch) s t tt h in
        let (xs, w, f, l) =
          bind_ok (ranked contracts gone) (elect_and_install contracts epoch) u t tt k in
        install_bounds epoch xs w t l
