-- ===== src/Staking/Pool/Reads.antt =====
-- What the reads of the staking pool return.
use axiom_lib.Common.{ℕ, ◌≡◌, ◌⊎◌, inl, inr, some, arith, ltb, if◌then◌else◌, Option-cases}
use axiom_lib.Common.Int.{pos}
use axiom_lib.Common.Action.{ok, err}
use axiom_lib.Staking.Types.{Storage, PoolInfo, EpochInfo, Rate, Error}
use axiom_lib.Staking.Token.{get_or}
use axiom_lib.Staking.Epoch.{current_epoch}
use axiom_lib.Staking.Pool.{history_rate, must_get_info}

-- The rate that `HistoryLiquidStakingTokenRate` finds: that of the epoch, or of the last epoch with
-- a rate where that is earlier, and zero amounts where none was recorded.
unfoldable pub recorded_rate : Storage → ℕ → PoolInfo → ℕ → Rate
recorded_rate s pool_id info epoch =
    get_or
      (s.rate_history pool_id
        (if ltb info.last_rate_epoch epoch then info.last_rate_epoch else epoch))
      (record { stake_amount = pos 0; lst_amount = pos 0 })

pub must_get_info_lem :
    (s : Storage) (pool_id : ℕ) (info : PoolInfo)
    → s.pool_info pool_id ≡ some info
    → must_get_info pool_id s ≡ (ok info, s)
unfolding must_get_info
must_get_info_lem s pool_id info h = ground arith

pub history_rate_lem :
    (s : Storage) (pool_id epoch : ℕ) (info : PoolInfo)
    → s.pool_info pool_id ≡ some info
    → history_rate pool_id epoch s ≡ (ok (recorded_rate s pool_id info epoch), s)
unfolding history_rate recorded_rate
history_rate_lem s pool_id epoch info h = ground arith

-- The current epoch is the one whose number is current, if the history has it.
abbrev pub IsCurrent : Storage → EpochInfo → Type 0
IsCurrent s e = (id : ℕ) × (s.current_epoch_id ≡ some id) × (s.history_epoch id ≡ some e)

pub current_epoch_lem : (s : Storage) (e : EpochInfo) → IsCurrent s e → current_epoch s ≡ (ok e, s)
unfolding current_epoch
current_epoch_lem s e h = ground arith

-- The reads find what they look for, or fail and change nothing.
pub must_get_info_cases :
    (s : Storage) (pool_id : ℕ)
    → ((info : PoolInfo) × (s.pool_info pool_id ≡ some info))
      ⊎ (must_get_info pool_id s ≡ (err Error.pool_not_exist, s))
unfolding must_get_info
must_get_info_cases s pool_id = elim (Option-cases (s.pool_info pool_id)) [
  | inl missing ↦ inr (ground arith)
  | inr found ↦ inl found
]

pub current_epoch_cases :
    (s : Storage)
    → ((e : EpochInfo) × IsCurrent s e) ⊎ (current_epoch s ≡ (err Error.epoch_not_exist, s))
unfolding current_epoch
current_epoch_cases s = elim (Option-cases s.current_epoch_id) [
  | inl missing ↦ inr (ground arith)
  | inr (id, current) ↦ elim (Option-cases (s.history_epoch id)) [
    | inl missing ↦ inr (ground arith)
    | inr (e, found) ↦ inl (e, (id, current, found))
  ]
]
