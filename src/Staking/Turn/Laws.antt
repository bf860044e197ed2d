-- ===== src/Staking/Turn/Laws.antt =====
-- What the change of the epoch does to a pool: stake is conserved, the reward is split and no part
-- of it is lost, and the new rate is recorded.
use axiom_lib.Common.{ℕ, ◌+◌, ◌-◌, ◌<◌, ◌≤◌, ◌*◌, ◌/◌, ◌≡◌, refl, arith, sym, ap, ◌∙◌}
use axiom_lib.Common.Int.{ℤ, pos, ◌+ℤ◌, ◌*ℤ◌, ◌/ℤ◌, ◌≤ℤ◌, int_laws}
use axiom_lib.Common.Words.{sub64}
use axiom_lib.Staking.Types.{PoolInfo}
use axiom_lib.Staking.Pool.{commission_rate_denominator}
use axiom_lib.Staking.Turn.{staker_reward, operator_commission, settle, add_commission}

staker_reward_eq :
    (info : PoolInfo) (r : ℕ)
    → staker_reward info (pos r)
      ≡ pos
          (r * sub64 commission_rate_denominator info.commission_rate / commission_rate_denominator)
unfolding staker_reward ◌*ℤ◌ ◌/ℤ◌
staker_reward_eq info r = ground arith

-- With a rate in range the stakers get at most the reward.
share-le : (r c : ℕ) → c ≤ 10000 → r * sub64 10000 c / 10000 ≤ r
share-le r c h = grind arith

staker_reward_bounds :
    (info : PoolInfo) (r : ℕ)
    → info.commission_rate ≤ commission_rate_denominator
    → (pos 0 ≤ℤ staker_reward info (pos r)) × (staker_reward info (pos r) ≤ℤ pos r)
staker_reward_bounds info r h =
    rw (staker_reward_eq info r) (omega arith, omega (arith, share-le r info.commission_rate h))

mul_add : (r c d : ℕ) → r * (c + d) ≡ r * c + r * d
mul_add r c d = omega arith

-- The share of an amount in units of 1 / 10000, rounded down, and the rest of it.
share_split :
    (r c : ℕ)
    → c ≤ 10000
    → let k : ℕ = r * sub64 10000 c / 10000 in
      (k ≤ r) × (r * c ≤ (r - k) * 10000) × ((r - k) * 10000 < r * c + 10000)
share_split r c h =
    let d : ℕ = 10000 - c in
    let e : sub64 10000 c ≡ d = omega (arith, h) in
    let whole : r * c + r * d ≡ r * 10000 =
      sym (mul_add r c d) ∙ ap (λ (n : ℕ). r * n) (omega (arith, h)) in
    rw e (omega (arith, whole), omega (arith, whole), omega (arith, whole))

-- Of a reward that is not negative, at a commission rate that is at most the denominator, the operator
-- gets the share that the rate says, rounded up to a whole coin, and the stakers get the rest.
pub reward_split :
    (info : PoolInfo) (r : ℕ)
    → info.commission_rate ≤ commission_rate_denominator
    → (k m : ℕ) × (staker_reward info (pos r) ≡ pos k)
      × (operator_commission info (pos r) ≡ pos m)
      × (k + m ≡ r)
      × (r * info.commission_rate ≤ m * commission_rate_denominator)
      × (m * commission_rate_denominator < r * info.commission_rate + commission_rate_denominator)
unfolding operator_commission
reward_split info r h =
    let k : ℕ = r * sub64 10000 info.commission_rate / 10000 in
    let (le, low, high) = share_split r info.commission_rate h in
    (
      k,
      r - k,
      staker_reward_eq info r,
      rw (staker_reward_eq info r) (omega (int_laws, le)),
      omega (arith, le),
      low,
      high,
    )

-- The pool after the change of the epoch.
abbrev pub turned : ℕ → ℤ → PoolInfo → PoolInfo
turned old_epoch reward info =
    add_commission old_epoch (operator_commission info reward) (settle info reward)

-- The active stake grows by the whole reward and the pending active stake and shrinks by the pending
-- inactive stake; nothing is pending afterwards; the cumulative sums grow by the reward; and the
-- commission rate is the one set for the new epoch.
pub turned_stake :
    (old_epoch : ℕ) (reward : ℤ) (info : PoolInfo)
    → let info' = turned old_epoch reward info in
      (info'.active_stake +ℤ info.pending_inactive_stake
        ≡ info.active_stake +ℤ reward +ℤ info.pending_active_stake)
      × (info'.cumulative_reward +ℤ info'.cumulative_commission
          ≡ info.cumulative_reward +ℤ info.cumulative_commission +ℤ reward)
      × (info'.last_epoch_reward +ℤ info'.last_epoch_commission ≡ reward)
      × (info'.pending_active_stake ≡ pos 0)
      × (info'.pending_inactive_stake ≡ pos 0)
      × (info'.pending_inactive_lst ≡ pos 0)
      × (info'.commission_rate ≡ info.next_epoch_commission_rate)
unfolding add_commission settle operator_commission
turned_stake old_epoch reward info =
    (omega int_laws, omega int_laws, omega int_laws, refl, refl, refl, refl)
