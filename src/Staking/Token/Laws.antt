-- ===== src/Staking/Token/Laws.antt =====
-- The ERC-721 operations keep the balances, and let only authorized callers move a token.
use axiom_lib.Common.{
  ℕ, ◌+◌, ◌<◌, ◌≡◌, ◌≢◌, ◌⊎◌, true, false, ◌||◌, inl, inr, Bool, some, arith, ◌==◌, if◌then◌else◌,
  Bool-cases, ==_ne,
}
use axiom_lib.Common.Maps.{update}
use axiom_lib.Common.Action.{ok, err}
use axiom_lib.Staking.Types.{Storage, LstInfo, Ctx, Error}
use axiom_lib.Staking.Token.{
  owner_of, is_authorized, mint, burn, transfer_from, approve_token, set_approval_for_all, approve,
}
use axiom_lib.Staking.Token.Ownership.{
  bound, count-add_one, IsCounted, moved, moved-IsCounted, update_ownership_lem,
}

-- With the counts in order, a caller other than the zero address is never authorized for a token
-- that has no owner.
not-authorized :
    (s : Storage) (id auth : ℕ)
    → IsCounted s
    → auth ≢ 0
    → owner_of s id ≡ 0
    → is_authorized s (owner_of s id) auth id ≡ false
unfolding is_authorized
not-authorized s id auth v nz e = rw e (ground (arith, v.approved id e, v.no_operator auth))

id-lt-bound :
    (s : Storage) (id auth : ℕ)
    → IsCounted s
    → auth ≢ 0
    → is_authorized s (owner_of s id) auth id ≡ true
    → id < bound s
id-lt-bound s id auth v nz a = ground (arith, v.fresh id, not-authorized s id auth v nz)

-- What a transfer does, by cases. The owner is compared with `from` only after the token has moved:
-- that failed call relies on its caller to revert.
pub transfer_from_lem :
    (ctx : Ctx) (from to id : ℕ) (s : Storage)
    → transfer_from ctx from to id s ≡ (
        if to == 0
        then (err Error.invalid_receiver, s)
        else (if ctx.from == 0 || is_authorized s (owner_of s id) ctx.from id
            then (if owner_of s id == from then ok tt else err Error.incorrect_owner, moved to id s)
            else (
              err (
                  if owner_of s id == 0
                  then Error.token_not_exist
                  else Error.insufficient_approval),
              s,
            )))
unfolding transfer_from
transfer_from_lem ctx from to id s = ground (arith, update_ownership_lem to id ctx.from s)

burn_lem :
    (ctx : Ctx) (id : ℕ) (s : Storage)
    → burn ctx id s ≡ (
        if owner_of s id == 0
        then (err Error.token_not_exist, s)
        else (if ctx.from == 0 || is_authorized s (owner_of s id) ctx.from id
            then (ok tt, moved 0 id s)
            else (err Error.insufficient_approval, s)))
unfolding burn
burn_lem ctx id s = ground (arith, update_ownership_lem 0 id ctx.from s)

-- Moving is done by a caller that may: any invariant of `moved` at minted tokens carries over.
authorized_move-IsCounted :
    (s : Storage) (to id auth : ℕ)
    → IsCounted s
    → auth ≢ 0
    → is_authorized s (owner_of s id) auth id ≡ true
    → IsCounted (moved to id s)
authorized_move-IsCounted s to id auth v nz a =
    moved-IsCounted to id s (id-lt-bound s id auth v nz a) v

-- A transfer by a caller other than the zero address keeps the balances equal to the counts,
-- whether it succeeds or fails.
pub transfer_from-IsCounted :
    (ctx : Ctx) (from to id : ℕ) (s : Storage)
    → ctx.from ≢ 0
    → IsCounted s
    → IsCounted (transfer_from ctx from to id s).1
transfer_from-IsCounted ctx from to id s nz v =
    rw (transfer_from_lem ctx from to id s, ==_ne ctx.from 0 nz)
      (elim (Bool-cases (to == 0)) [
        | inl zero_receiver ↦ rw zero_receiver v
        | inr receiver ↦
            rw receiver (elim (Bool-cases (is_authorized s (owner_of s id) ctx.from id)) [
              | inl a ↦ rw a (authorized_move-IsCounted s to id ctx.from v nz a)
              | inr a ↦ rw a v
            ])
      ])

pub burn-IsCounted :
    (ctx : Ctx) (id : ℕ) (s : Storage) → ctx.from ≢ 0 → IsCounted s → IsCounted (burn ctx id s).1
burn-IsCounted ctx id s nz v =
    rw (burn_lem ctx id s, ==_ne ctx.from 0 nz)
      (elim (Bool-cases (owner_of s id == 0)) [
        | inl nobody ↦ rw nobody v
        | inr owned ↦ rw owned (elim (Bool-cases (is_authorized s (owner_of s id) ctx.from id)) [
          | inl a ↦ rw a (authorized_move-IsCounted s 0 id ctx.from v nz a)
          | inr a ↦ rw a v
        ])
      ])

-- The storage in which `mint` moves the new token.
abbrev minted : LstInfo → Storage → Storage
minted info s = record s {
  info_map = update s.info_map (bound s) (some info);
  next_id = some (bound s + 1);
}

mint_lem :
    (to : ℕ) (info : LstInfo) (s : Storage)
    → mint to info s ≡ (ok (bound s), moved to (bound s) (minted info s))
unfolding mint
mint_lem to info s = ground (arith, update_ownership_lem to (bound s) 0 (minted info s))

minted-IsCounted : (info : LstInfo) (s : Storage) → IsCounted s → IsCounted (minted info s)
minted-IsCounted info s v = record {
  counted = λ o nz.
      rw (count-add_one s.owner_map o (bound s) nz (v.fresh (bound s) (omega arith)))
        (v.counted o nz);
  fresh = λ id h. v.fresh id (omega arith);
  approved = v.approved;
  no_operator = v.no_operator;
}

pub mint-IsCounted :
    (to : ℕ) (info : LstInfo) (s : Storage) → IsCounted s → IsCounted (mint to info s).1
mint-IsCounted to info s v =
    rw (mint_lem to info s)
      (moved-IsCounted to (bound s) (minted info s) (omega arith) (minted-IsCounted info s v))

-- An approval is only written where the token has an owner.
approve_token_lem :
    (ctx : Ctx) (to id : ℕ) (s : Storage)
    → let s' = (approve_token ctx to id s).1 in
      (s' ≡ s)
      ⊎ ((owner_of s id ≢ 0)
          × (s' ≡ record s { token_approval = update s.token_approval id (some to) }))
unfolding approve_token approve
approve_token_lem ctx to id s = ground arith

pub approve_token-IsCounted :
    (ctx : Ctx) (to id : ℕ) (s : Storage) → IsCounted s → IsCounted (approve_token ctx to id s).1
approve_token-IsCounted ctx to id s v = elim (approve_token_lem ctx to id s) [
  | inl same ↦ rw same v
  | inr (owned, e) ↦ rw e (record {
    counted = v.counted;
    fresh = v.fresh;
    approved = λ j nobody. ground (arith, v.approved j nobody);
    no_operator = v.no_operator;
  })
]

pub set_approval_for_all-IsCounted :
    (ctx : Ctx) (op : ℕ) (b : Bool) (s : Storage)
    → ctx.from ≢ 0
    → IsCounted s
    → IsCounted (set_approval_for_all ctx op b s).1
unfolding set_approval_for_all
set_approval_for_all-IsCounted ctx op b s nz v = elim (Bool-cases (op == 0)) [
  | inl zero_op ↦ rw zero_op v
  | inr some_op ↦ rw some_op (record {
    counted = v.counted;
    fresh = v.fresh;
    approved = v.approved;
    no_operator = λ j. ground (arith, v.no_operator j);
  })
]
