-- ===== src/Staking/Stake/Withdraw.antt =====
-- Withdrawing coin: what is paid out comes off what the token holds, unlocked coin first, and the
-- principal only where the token is not active yet.
pub mod Payout
use axiom_lib.Common.{
  ℕ, ◌<◌, ◌≡◌, ◌≢◌, ◌⊎◌, refl, some, arith, not, ◌&&◌, ltb, ◌==◌, if◌then◌else◌, true, false,
  Bool-cases, inl, inr, ◌∙◌, sym, ==_iff, ==_self, ==_ne,
}
use axiom_lib.Common.Int.{ℤ, pos, ◌+ℤ◌, ◌-ℤ◌, ◌≤ℤ◌, ltb_ℤ, leb_ℤ, is_zero, int_laws}
use axiom_lib.Common.Maps.{update}
use axiom_lib.Common.Action.{Result, ok, err}
use axiom_lib.Staking.Types.{Storage, PoolInfo, LstInfo, EpochInfo, Ctx, Error}
use axiom_lib.Staking.Records.{update_unlocking_records, records_total, holdings}
use axiom_lib.Staking.Records.Laws.{update_unlocking_records_lem}
use axiom_lib.Staking.Epoch.{current_epoch}
use axiom_lib.Staking.Pool.{must_get_info, put_info, update_info, transfer}
use axiom_lib.Staking.Pool.Reads.{
  must_get_info_cases, current_epoch_cases, must_get_info_lem, IsCurrent, current_epoch_lem,
}
use axiom_lib.Staking.Stake.{withdraw_principal, withdraw_unlocked, withdraw_stake}

-- The coin balances after a transfer, and a transfer by cases.
paid : ℕ → ℕ → ℤ → (ℕ → ℤ) → ℕ → ℤ
paid self to amount coin =
    let c = update coin self (coin self -ℤ amount) in
    if is_zero amount then coin else update c to (c to +ℤ amount)

transfer_lem :
    (self to : ℕ) (amount : ℤ) (s : Storage)
    → transfer self to amount s ≡ (
        if not (is_zero amount) && ltb_ℤ (s.coin self) amount
        then (err Error.balance_not_enough, s)
        else (ok tt, record s { coin = paid self to amount s.coin }))
unfolding transfer paid
transfer_lem self to amount s = ground arith

-- The transfer that ends a withdrawal of which the principal is `w`.
finish : ℕ → ℕ → ℤ → ℤ → Storage → Result Error ℤ × Storage
finish self to amount w s =
    if not (is_zero amount) && ltb_ℤ (s.coin self) amount
    then (err Error.balance_not_enough, s)
    else (ok w, record s { coin = paid self to amount s.coin })

-- The storage in which the unlocked coin has been taken, and that in which principal has been.
after_unlocked : ℕ → LstInfo → ℤ → Storage → Storage
after_unlocked token_id lst amount s = record s {
  info_map = update s.info_map token_id (some (record lst { unlocked = lst.unlocked -ℤ amount }));
}

after_principal : ℕ → ℕ → PoolInfo → LstInfo → ℤ → Storage → Storage
after_principal pool_id token_id info lst amount s =
    let taken = amount -ℤ lst.unlocked in
    record s {
      pool_info =
          update s.pool_info pool_id
            (some (record info { pending_active_stake = info.pending_active_stake -ℤ taken }));
      info_map =
          update s.info_map token_id
            (some (record lst { principal = lst.principal -ℤ taken; unlocked = pos 0 }));
    }

-- `withdraw_stake` by cases, for a pool that exists in a known epoch.
withdraw_stake_lem :
    (self : ℕ) (ctx : Ctx) (pool_id token_id : ℕ) (lst0 : LstInfo) (recipient : ℕ) (amount : ℤ)
    (info : PoolInfo) (epoch : EpochInfo) (s : Storage)
    → s.pool_info pool_id ≡ some info
    → IsCurrent s epoch
    → let lst = update_unlocking_records ctx.time lst0 in
      withdraw_stake self ctx pool_id token_id lst0 recipient amount s ≡ (
        if leb_ℤ amount lst.unlocked
        then finish self recipient amount (pos 0) (after_unlocked token_id lst amount s)
        else (if ltb epoch.epoch lst.active_epoch
              && not (ltb_ℤ (lst.principal +ℤ lst.unlocked) amount)
            then finish self recipient amount
                (amount -ℤ lst.unlocked)
                (after_principal pool_id token_id info lst amount s)
            else (err Error.unlocked_not_enough, s)))
unfolding withdraw_stake finish after_unlocked after_principal put_info update_info
withdraw_stake_lem self ctx pool_id token_id lst0 recipient amount info epoch s p c =
    let lst = update_unlocking_records ctx.time lst0 in
    ground (
      arith,
      must_get_info_lem s pool_id info p,
      current_epoch_lem s epoch c,
      transfer_lem self recipient amount (after_unlocked token_id lst amount s),
      transfer_lem self recipient amount (after_principal pool_id token_id info lst amount s),
    )

withdraw_fails_at :
    (self : ℕ) (ctx : Ctx) (pool_id token_id : ℕ) (lst0 : LstInfo) (recipient : ℕ) (amount : ℤ)
    (info : PoolInfo) (epoch : EpochInfo) (s : Storage) (e : Error)
    → s.pool_info pool_id ≡ some info
    → IsCurrent s epoch
    → (withdraw_stake self ctx pool_id token_id lst0 recipient amount s).0 ≡ err e
    → e ≢ Error.balance_not_enough
    → (withdraw_stake self ctx pool_id token_id lst0 recipient amount s).1 ≡ s
unfolding finish
withdraw_fails_at self ctx pool_id token_id lst0 recipient amount info epoch s e p c failed other =
    ground
      (arith, withdraw_stake_lem self ctx pool_id token_id lst0 recipient amount info epoch s p c)

-- A withdrawal that fails for another reason than the manager's balance changes nothing.
pub withdraw_stake_fails :
    (self : ℕ) (ctx : Ctx) (pool_id token_id : ℕ) (lst : LstInfo) (recipient : ℕ) (amount : ℤ)
    (s : Storage) (e : Error)
    → (withdraw_stake self ctx pool_id token_id lst recipient amount s).0 ≡ err e
    → e ≢ Error.balance_not_enough
    → (withdraw_stake self ctx pool_id token_id lst recipient amount s).1 ≡ s
unfolding withdraw_stake
withdraw_stake_fails self ctx pool_id token_id lst recipient amount s e failed other =
    elim (must_get_info_cases s pool_id) [
      | inr missing ↦ ground arith
      | inl (info, p) ↦ elim (current_epoch_cases s) [
        | inr missing ↦ ground (arith, must_get_info_lem s pool_id info p)
        | inl (epoch, c) ↦
            withdraw_fails_at self ctx pool_id token_id lst recipient amount info epoch s e p c
              failed other
      ]
    ]
