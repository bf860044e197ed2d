-- ===== src/Staking/Stake/Withdraw/Payout.antt =====
-- What a successful withdrawal pays out comes off what the token holds.
use axiom_lib.Common.{
  ℕ, ◌<◌, ◌≡◌, ◌≢◌, ◌⊎◌, refl, some, arith, true, Bool-cases, inl, inr, ◌∙◌, sym, ==_iff, ==_self,
  ==_ne,
}
use axiom_lib.Common.Int.{ℤ, pos, ◌+ℤ◌, ◌-ℤ◌, is_zero, int_laws}
use axiom_lib.Common.Action.{ok}
use axiom_lib.Staking.Types.{Storage, PoolInfo, LstInfo, EpochInfo, Ctx}
use axiom_lib.Staking.Records.{update_unlocking_records, holdings}
use axiom_lib.Staking.Records.Laws.{update_unlocking_records_lem}
use axiom_lib.Staking.Pool.Reads.{IsCurrent}
use axiom_lib.Staking.Stake.{withdraw_stake}
use axiom_lib.Staking.Stake.Withdraw.{
  paid, finish, after_unlocked, after_principal, withdraw_stake_lem,
}

finish_done :
    (self to : ℕ) (amount w : ℤ) (s : Storage) (w' : ℤ)
    → (finish self to amount w s).0 ≡ ok w'
    → (w' ≡ w) × ((finish self to amount w s).1 ≡ record s { coin = paid self to amount s.coin })
unfolding finish
finish_done self to amount w s w' h = ground arith

add_is_zero : (a b : ℤ) → is_zero b ≡ true → a +ℤ b ≡ a
add_is_zero a b h = omega (int_laws, (==_iff _ _).0 h)

sub_add : (a b : ℤ) → a -ℤ b +ℤ b ≡ a
sub_add a b = omega int_laws

-- A transfer between two accounts takes the amount from the one and gives it to the other.
paid_lem :
    (self to : ℕ) (amount : ℤ) (coin : ℕ → ℤ)
    → self ≢ to
    → (paid self to amount coin self +ℤ amount ≡ coin self)
      × (paid self to amount coin to ≡ coin to +ℤ amount)
unfolding paid
paid_lem self to amount coin ne = elim (Bool-cases (is_zero amount)) [
  | inl zero ↦
      rw zero (add_is_zero (coin self) amount zero, sym (add_is_zero (coin to) amount zero))
  | inr positive ↦
      rw (positive, ==_ne self to ne, ==_self self, ==_self to, ==_ne to self (λ e. ne (sym e)))
        (sub_add (coin self) amount, refl)
]

holdings-unlocked :
    (lst : LstInfo) (amount : ℤ)
    → holdings (record lst { unlocked = lst.unlocked -ℤ amount }) +ℤ amount ≡ holdings lst
unfolding holdings
holdings-unlocked lst amount = omega int_laws

holdings-principal :
    (lst : LstInfo) (amount : ℤ)
    → holdings
          (record lst { principal = lst.principal -ℤ (amount -ℤ lst.unlocked); unlocked = pos 0 })
        +ℤ amount
      ≡ holdings lst
unfolding holdings
holdings-principal lst amount = omega int_laws

-- The withdrawal takes just the amount off what the token holds, of which `w` comes off the
-- principal and off the pool's pending active stake, and moves the amount between the accounts.
pub record Paid (s s' : Storage) (self pool_id token_id recipient : ℕ) (lst : LstInfo)
    (amount w : ℤ) (info : PoolInfo) : Type 0 where
  pub lst' : LstInfo
  pub info' : PoolInfo
  pub has_token : s'.info_map token_id ≡ some lst'
  pub has_pool : s'.pool_info pool_id ≡ some info'
  pub held : holdings lst' +ℤ amount ≡ holdings lst
  pub principal : lst'.principal +ℤ w ≡ lst.principal
  pub pending : info'.pending_active_stake +ℤ w ≡ info.pending_active_stake
  pub payer : s'.coin self +ℤ amount ≡ s.coin self
  pub payee : s'.coin recipient ≡ s.coin recipient +ℤ amount

module _ (self pool_id token_id to : ℕ) (lst : LstInfo) (amount : ℤ) (info : PoolInfo) (s : Storage)
    (ne : self ≢ to) where
  paid_unlocked :
      s.pool_info pool_id ≡ some info
      → Paid s
          (record (after_unlocked token_id lst amount s) { coin = paid self to amount s.coin })
          self
          pool_id
          token_id
          to
          lst
          amount
          (pos 0)
          info
  unfolding after_unlocked
  paid_unlocked p = record {
    lst' = record lst { unlocked = lst.unlocked -ℤ amount };
    info' = info;
    has_token = ground arith;
    has_pool = p;
    held = holdings-unlocked lst amount;
    principal = omega int_laws;
    pending = omega int_laws;
    payer = (paid_lem self to amount s.coin ne).0;
    payee = (paid_lem self to amount s.coin ne).1;
  }

  paid_principal :
      Paid s
        (record (after_principal pool_id token_id info lst amount s) {
          coin = paid self to amount s.coin;
        })
        self
        pool_id
        token_id
        to
        lst
        amount
        (amount -ℤ lst.unlocked)
        info
  unfolding after_principal
  paid_principal =
      let taken = amount -ℤ lst.unlocked in
      record {
        lst' = record lst { principal = lst.principal -ℤ taken; unlocked = pos 0 };
        info' = record info { pending_active_stake = info.pending_active_stake -ℤ taken };
        has_token = ground arith;
        has_pool = ground arith;
        held = holdings-principal lst amount;
        principal = sub_add lst.principal taken;
        pending = sub_add info.pending_active_stake taken;
        payer = (paid_lem self to amount s.coin ne).0;
        payee = (paid_lem self to amount s.coin ne).1;
      }

-- The payout depends on the token only by what it holds and by its principal.
Paid-of_holdings :
    {s s' : Storage} {self pool_id token_id to : ℕ} {lst lst0 : LstInfo} {amount w : ℤ}
    {info : PoolInfo}
    → holdings lst ≡ holdings lst0
    → lst.principal ≡ lst0.principal
    → Paid s s' self pool_id token_id to lst amount w info
    → Paid s s' self pool_id token_id to lst0 amount w info
Paid-of_holdings h e d = record {
  lst' = d.lst';
  info' = d.info';
  has_token = d.has_token;
  has_pool = d.has_pool;
  held = d.held ∙ h;
  principal = d.principal ∙ e;
  pending = d.pending;
  payer = d.payer;
  payee = d.payee;
}

coin-after_unlocked :
    (token_id : ℕ) (lst : LstInfo) (amount : ℤ) (s : Storage)
    → (after_unlocked token_id lst amount s).coin ≡ s.coin
unfolding after_unlocked
coin-after_unlocked token_id lst amount s = refl

coin-after_principal :
    (pool_id token_id : ℕ) (info : PoolInfo) (lst : LstInfo) (amount : ℤ) (s : Storage)
    → (after_principal pool_id token_id info lst amount s).coin ≡ s.coin
unfolding after_principal
coin-after_principal pool_id token_id info lst amount s = refl

-- The two ways in which a withdrawal succeeds.
withdraw_stake_ok :
    (self : ℕ) (ctx : Ctx) (pool_id token_id : ℕ) (lst0 : LstInfo) (to : ℕ) (amount w : ℤ)
    (info : PoolInfo) (epoch : EpochInfo) (s : Storage)
    → s.pool_info pool_id ≡ some info
    → IsCurrent s epoch
    → (withdraw_stake self ctx pool_id token_id lst0 to amount s).0 ≡ ok w
    → let lst = update_unlocking_records ctx.time lst0 in
      let s' = (withdraw_stake self ctx pool_id token_id lst0 to amount s).1 in
      ((w ≡ pos 0)
        × (s'
            ≡ record (after_unlocked token_id lst amount s) { coin = paid self to amount s.coin }))
      ⊎ ((epoch.epoch < lst.active_epoch)
          × (w ≡ amount -ℤ lst.unlocked)
          × (s' ≡ record (after_principal pool_id token_id info lst amount s) {
            coin = paid self to amount s.coin;
          }))
withdraw_stake_ok self ctx pool_id token_id lst0 to amount w info epoch s p c done =
    let lst = update_unlocking_records ctx.time lst0 in
    ground (
      arith,
      withdraw_stake_lem self ctx pool_id token_id lst0 to amount info epoch s p c,
      finish_done self to amount (pos 0) (after_unlocked token_id lst amount s) w,
      finish_done self to amount (amount -ℤ lst.unlocked)
          (after_principal pool_id token_id info lst amount s) w,
      coin-after_unlocked token_id lst amount s,
      coin-after_principal pool_id token_id info lst amount s,
    )

-- A withdrawal that succeeds takes just the amount off what the token holds, and pays it to the
-- recipient out of the manager's account. Its result is the part that came off the principal; the
-- pool's pending active stake falls by as much; and it is zero unless the token's first active
-- epoch is still to come.
pub withdraw_stake_conserves :
    (self : ℕ) (ctx : Ctx) (pool_id token_id : ℕ) (lst : LstInfo) (to : ℕ) (amount w : ℤ)
    (info : PoolInfo) (epoch : EpochInfo) (s : Storage)
    → s.pool_info pool_id ≡ some info
    → IsCurrent s epoch
    → self ≢ to
    → (withdraw_stake self ctx pool_id token_id lst to amount s).0 ≡ ok w
    → let s' = (withdraw_stake self ctx pool_id token_id lst to amount s).1 in
      Paid s s' self pool_id token_id to lst amount w info
      × ((w ≡ pos 0) ⊎ (epoch.epoch < lst.active_epoch))
withdraw_stake_conserves self ctx pool_id token_id lst0 to amount w info epoch s p c ne done =
    let lst = update_unlocking_records ctx.time lst0 in
    let (held, _, same, active, _) = update_unlocking_records_lem ctx.time lst0 in
    elim (withdraw_stake_ok self ctx pool_id token_id lst0 to amount w info epoch s p c done) [
      | inl (nothing, e) ↦ (
        rw (e, nothing)
            (Paid-of_holdings held same
              (paid_unlocked self pool_id token_id to lst amount info s ne p)),
        inl nothing,
      )
      | inr (early, taken, e) ↦ (
        rw (e, taken)
            (Paid-of_holdings held same
              (paid_principal self pool_id token_id to lst amount info s ne)),
        inr (omega (arith, active)),
      )
    ]
