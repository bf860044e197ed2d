-- ===== src/Staking/Stake/Unlock.antt =====
-- Unlocking stake: the call succeeds or changes nothing, and no coin is created or lost.
use axiom_lib.Common.{
  ℕ, ◌≤◌, ◌≡◌, ◌⊎◌, refl, some, arith, ltb, ◌==◌, if◌then◌else◌, not, ◌&&◌, false, length, inl, inr,
  List, [], ◌∷◌, ◌++◌,
}
use axiom_lib.Common.Int.{ℤ, ◌+ℤ◌, ◌-ℤ◌, ◌≤ℤ◌, ltb_ℤ, int_laws}
use axiom_lib.Common.Maps.{update}
use axiom_lib.Common.Words.{add64, sub64}
use axiom_lib.Common.Action.{ok, err}
use axiom_lib.Staking.Types.{Storage, PoolInfo, LstInfo, EpochInfo, UnlockingRecord, Ctx, Error}
use axiom_lib.Staking.Rates.{calculate_lst_amount, calculate_principal_and_reward}
use axiom_lib.Staking.Records.{update_unlocking_records, records_total, holdings}
use axiom_lib.Staking.Records.Laws.{update_unlocking_records_lem}
use mathlib.Core.Path.{subst₂}
use axiom_lib.Staking.Pool.{put_info, update_info}
use axiom_lib.Staking.Pool.Reads.{
  recorded_rate, must_get_info_lem, history_rate_lem, IsCurrent, current_epoch_lem,
  must_get_info_cases, current_epoch_cases,
}
use axiom_lib.Staking.Stake.{principal_and_reward, unlocked_token, unlocked_pool, unlock_stake}

-- What a token is worth in the epoch: its principal at the rate of the last epoch, if it has been
-- active since before the current one.
unfoldable pub token_value : Storage → ℕ → PoolInfo → EpochInfo → LstInfo → ℤ
token_value s pool_id info epoch lst =
    if ltb lst.active_epoch epoch.epoch
    then calculate_principal_and_reward (recorded_rate s pool_id info (sub64 lst.active_epoch 1))
        (recorded_rate s pool_id info (sub64 epoch.epoch 1)) lst.principal
    else lst.principal

principal_and_reward_lem :
    (s : Storage) (pool_id : ℕ) (info : PoolInfo) (epoch : EpochInfo) (lst : LstInfo)
    → s.pool_info pool_id ≡ some info
    → principal_and_reward pool_id
        (recorded_rate s pool_id info (sub64 lst.active_epoch 1))
        epoch
        lst
        s
      ≡ (ok (token_value s pool_id info epoch lst), s)
unfolding principal_and_reward token_value
principal_and_reward_lem s pool_id info epoch lst h =
    ground (arith, history_rate_lem s pool_id (sub64 epoch.epoch 1) info h)

-- `unlock_stake` by cases, for a pool that exists in a known epoch.
unlock_stake_lem :
    (ctx : Ctx) (pool_id token_id : ℕ) (lst0 : LstInfo) (amount : ℤ) (info : PoolInfo)
    (epoch : EpochInfo) (s : Storage)
    → s.pool_info pool_id ≡ some info
    → IsCurrent s epoch
    → let lst = update_unlocking_records ctx.time lst0 in
      let value = token_value s pool_id info epoch lst in
      let lst_amount =
        calculate_lst_amount
          (recorded_rate s pool_id info (sub64 lst.active_epoch 1))
          lst.principal in
      let lst' = unlocked_token ctx epoch lst value amount in
      unlock_stake ctx pool_id token_id lst0 amount s ≡ (
        if sub64 lst0.active_epoch 1 == epoch.epoch
        then (err Error.token_not_active, s)
        else (if ltb_ℤ value amount
            then (err Error.amount_not_enough, s)
            else (if not (info.operator_lst_id == token_id)
                  && not epoch.enable_partial_unlock
                  && ltb_ℤ amount value
                then (err Error.partial_unlock_disabled, s)
                else (if ltb epoch.max_unlocking_record_num (length lst'.unlocking_records)
                    then (err Error.too_many_records, s)
                    else (
                      ok tt,
                      record s {
                        info_map = update s.info_map token_id (some lst');
                        pool_info =
                            update s.pool_info pool_id
                              (some (unlocked_pool info value lst_amount amount));
                      },
                    )))))
unfolding unlock_stake put_info update_info
unlock_stake_lem ctx pool_id token_id lst0 amount info epoch s p c =
    let lst = update_unlocking_records ctx.time lst0 in
    ground (
      arith,
      must_get_info_lem s pool_id info p,
      current_epoch_lem s epoch c,
      history_rate_lem s pool_id (sub64 lst.active_epoch 1) info p,
      principal_and_reward_lem s pool_id info epoch lst p,
    )

-- An unlock that fails changes nothing, whatever the storage.
pub unlock_stake_atomic :
    (ctx : Ctx) (pool_id token_id : ℕ) (lst : LstInfo) (amount : ℤ) (s : Storage)
    → ((unlock_stake ctx pool_id token_id lst amount s).0 ≡ ok tt)
      ⊎ ((unlock_stake ctx pool_id token_id lst amount s).1 ≡ s)
unfolding unlock_stake
unlock_stake_atomic ctx pool_id token_id lst amount s = elim (must_get_info_cases s pool_id) [
  | inr missing ↦ inr (ground arith)
  | inl (info, p) ↦ elim (current_epoch_cases s) [
    | inr missing ↦ inr (ground (arith, must_get_info_lem s pool_id info p))
    | inl (epoch, c) ↦
        ground (arith, unlock_stake_lem ctx pool_id token_id lst amount info epoch s p c)
  ]
]

records_total-append :
    (xs : List UnlockingRecord) (r : UnlockingRecord)
    → records_total (xs ++ r ∷ []) ≡ records_total xs +ℤ r.amount
unfolding records_total
records_total-append [] r = omega int_laws
records_total-append (x ∷ xs) r = rw (records_total-append xs r) (omega int_laws)

holdings-unlocked_token :
    (ctx : Ctx) (epoch : EpochInfo) (lst : LstInfo) (value amount : ℤ)
    → holdings (unlocked_token ctx epoch lst value amount) +ℤ lst.principal ≡ holdings lst +ℤ value
unfolding holdings unlocked_token
holdings-unlocked_token ctx epoch lst value amount = rw records_total-append (omega int_laws)

unlock_stake_done :
    (ctx : Ctx) (pool_id token_id : ℕ) (lst0 : LstInfo) (amount : ℤ) (info : PoolInfo)
    (epoch : EpochInfo) (s : Storage)
    → s.pool_info pool_id ≡ some info
    → IsCurrent s epoch
    → (unlock_stake ctx pool_id token_id lst0 amount s).0 ≡ ok tt
    → let lst = update_unlocking_records ctx.time lst0 in
      let value = token_value s pool_id info epoch lst in
      let lst_amount =
        calculate_lst_amount
          (recorded_rate s pool_id info (sub64 lst.active_epoch 1))
          lst.principal in
      let lst' = unlocked_token ctx epoch lst value amount in
      (ltb_ℤ value amount ≡ false)
      × (ltb epoch.max_unlocking_record_num (length lst'.unlocking_records) ≡ false)
      × ((unlock_stake ctx pool_id token_id lst0 amount s).1 ≡ record s {
        info_map = update s.info_map token_id (some lst');
        pool_info = update s.pool_info pool_id (some (unlocked_pool info value lst_amount amount));
      })
unlock_stake_done ctx pool_id token_id lst0 amount info epoch s p c done =
    ground (arith, unlock_stake_lem ctx pool_id token_id lst0 amount info epoch s p c)

-- The pool's stake for the next epoch falls by the amount.
unlocked_pool_net :
    (info : PoolInfo) (value lst_amount amount : ℤ)
    → let info' = unlocked_pool info value lst_amount amount in
      info'.pending_active_stake -ℤ info'.pending_inactive_stake
      ≡ info.pending_active_stake -ℤ info.pending_inactive_stake -ℤ amount
unfolding unlocked_pool
unlocked_pool_net info value lst_amount amount = omega int_laws

active_epoch-unlocked_token :
    (ctx : Ctx) (epoch : EpochInfo) (lst : LstInfo) (value amount : ℤ)
    → (unlocked_token ctx epoch lst value amount).active_epoch ≡ add64 epoch.epoch 1
unfolding unlocked_token
active_epoch-unlocked_token ctx epoch lst value amount = refl

-- An unlock that succeeds is of at most what the token is worth. The token then holds what it was
-- worth instead of its principal, so that nothing is lost; the pool's stake for the next epoch
-- (pending active less pending inactive) falls by just the amount; the rest of the token is staked
-- anew from the next epoch on; the token has at most the allowed number of records; no coin moves.
pub unlock_stake_conserves :
    (ctx : Ctx) (pool_id token_id : ℕ) (lst : LstInfo) (amount : ℤ) (info : PoolInfo)
    (epoch : EpochInfo) (s : Storage)
    → s.pool_info pool_id ≡ some info
    → IsCurrent s epoch
    → (unlock_stake ctx pool_id token_id lst amount s).0 ≡ ok tt
    → let s' = (unlock_stake ctx pool_id token_id lst amount s).1 in
      let value = token_value s pool_id info epoch (update_unlocking_records ctx.time lst) in
      (lst' : LstInfo) × (info' : PoolInfo) × (s'.info_map token_id ≡ some lst')
      × (s'.pool_info pool_id ≡ some info')
      × (amount ≤ℤ value)
      × (holdings lst' +ℤ lst.principal ≡ holdings lst +ℤ value)
      × (info'.pending_active_stake -ℤ info'.pending_inactive_stake
          ≡ info.pending_active_stake -ℤ info.pending_inactive_stake -ℤ amount)
      × (lst'.active_epoch ≡ add64 epoch.epoch 1)
      × (length lst'.unlocking_records ≤ epoch.max_unlocking_record_num)
      × (s'.coin ≡ s.coin)
unlock_stake_conserves ctx pool_id token_id lst0 amount info epoch s p c done =
    let lst = update_unlocking_records ctx.time lst0 in
    let value = token_value s pool_id info epoch lst in
    let lst_amount =
      calculate_lst_amount (recorded_rate s pool_id info (sub64 lst.active_epoch 1))
        lst.principal in
    let (enough, room, after) =
      unlock_stake_done ctx pool_id token_id lst0 amount info epoch s p c done in
    let (held, _, same, _, _) = update_unlocking_records_lem ctx.time lst0 in
    (
      unlocked_token ctx epoch lst value amount,
      unlocked_pool info value lst_amount amount,
      rw after (ground arith),
      rw after (ground arith),
      ground arith,
      subst₂ (λ (a b : ℤ). holdings (unlocked_token ctx epoch lst value amount) +ℤ b ≡ a +ℤ value)
          held same (holdings-unlocked_token ctx epoch lst value amount),
      unlocked_pool_net info value lst_amount amount,
      active_epoch-unlocked_token ctx epoch lst value amount,
      ground arith,
      rw after,
    )
