-- ===== src/Staking/Token/History.antt =====
-- The token over any sequence of calls, and what a successful transfer means.
use axiom_lib.Common.{ℕ, ◌≡◌, ◌≢◌, ◌⊎◌, subst, true, Bool, arith}
use axiom_lib.Common.Action.{ok}
use axiom_lib.Staking.Types.{Storage, LstInfo, Ctx}
use axiom_lib.Staking.Token.{
  owner_of, get_approved, is_approved_for_all, is_authorized, mint, burn, transfer_from,
  approve_token, set_approval_for_all,
}
use axiom_lib.Staking.Token.Ownership.{IsCounted, moved, owner_map-moved, get_approved-moved}
use axiom_lib.Staking.Token.Laws.{
  transfer_from_lem, transfer_from-IsCounted, burn-IsCounted, mint-IsCounted,
  approve_token-IsCounted, set_approval_for_all-IsCounted,
}

-- One call of the token contract by an account, or a mint by the staking pool.
pub data Step (s : Storage) : Storage → Type 0 where
  mint_token : (to : ℕ) (info : LstInfo) → Step s (mint to info s).1
  burn_token : (ctx : Ctx) (id : ℕ) → ctx.from ≢ 0 → Step s (burn ctx id s).1
  transfer : (ctx : Ctx) (from to id : ℕ) → ctx.from ≢ 0 → Step s (transfer_from ctx from to id s).1
  approve_one : (ctx : Ctx) (to id : ℕ) → Step s (approve_token ctx to id s).1
  approve_all :
      (ctx : Ctx) (op : ℕ) (b : Bool) → ctx.from ≢ 0 → Step s (set_approval_for_all ctx op b s).1

pub data Reach (s : Storage) : Storage → Type 0 where
  here : Reach s s
  next : {t u : Storage} → Reach s t → Step t u → Reach s u

Step-IsCounted : {s t : Storage} → Step s t → IsCounted s → IsCounted t
Step-IsCounted {s} (mint_token to info) v = mint-IsCounted to info s v
Step-IsCounted {s} (burn_token ctx id nz) v = burn-IsCounted ctx id s nz v
Step-IsCounted {s} (transfer ctx from to id nz) v = transfer_from-IsCounted ctx from to id s nz v
Step-IsCounted {s} (approve_one ctx to id) v = approve_token-IsCounted ctx to id s v
Step-IsCounted {s} (approve_all ctx op b nz) v = set_approval_for_all-IsCounted ctx op b s nz v

-- After any sequence of mints and of calls by accounts other than the zero address, successful or
-- not, the balance of every address but zero is the number of tokens that it owns, ids not minted
-- have no owner, and no token without an owner is approved to anyone.
pub Reach-IsCounted : {s t : Storage} → IsCounted s → Reach s t → IsCounted t
Reach-IsCounted v here = v
Reach-IsCounted v (next r st) = Step-IsCounted st (Reach-IsCounted v r)

authorized_cases :
    (s : Storage) (owner spender id : ℕ)
    → is_authorized s owner spender id ≡ true
    → (spender ≡ owner)
      ⊎ ((is_approved_for_all s owner spender ≡ true) ⊎ (get_approved s id ≡ spender))
unfolding is_authorized
authorized_cases s owner spender id h = ground arith

transfer_from_ok_cases :
    (ctx : Ctx) (from to id : ℕ) (s : Storage)
    → ctx.from ≢ 0
    → (transfer_from ctx from to id s).0 ≡ ok tt
    → (to ≢ 0)
      × (owner_of s id ≡ from)
      × (is_authorized s (owner_of s id) ctx.from id ≡ true)
      × ((transfer_from ctx from to id s).1 ≡ moved to id s)
transfer_from_ok_cases ctx from to id s nz e = ground (arith, transfer_from_lem ctx from to id s)

-- Where neither the caller nor the owner that it names is the zero address, a transfer that succeeds
-- was made by the token's owner, by one of its operators or by the
-- approved address, from the owner that it names to an address other than zero. The token then
-- belongs to the receiver with its approval cleared, and no other token changes owner.
pub transfer_from_ok :
    (ctx : Ctx) (from to id : ℕ) (s : Storage)
    → ctx.from ≢ 0
    → from ≢ 0
    → (transfer_from ctx from to id s).0 ≡ ok tt
    → let s' = (transfer_from ctx from to id s).1 in
      (owner_of s id ≡ from)
      × (to ≢ 0)
      × ((ctx.from ≡ from)
          ⊎ ((is_approved_for_all s from ctx.from ≡ true) ⊎ (get_approved s id ≡ ctx.from)))
      × (owner_of s' id ≡ to)
      × (get_approved s' id ≡ 0)
      × ((j : ℕ) → j ≢ id → owner_of s' j ≡ owner_of s j)
transfer_from_ok ctx from to id s nz fnz e =
    let (receiver, owned, authorized, same) = transfer_from_ok_cases ctx from to id s nz e in
    (
      owned,
      receiver,
      authorized_cases s from ctx.from id
          (subst (λ o. is_authorized s o ctx.from id ≡ true) owned authorized),
      rw (same, owner_map-moved to id s) (ground arith),
      rw (same, get_approved-moved to id id s) (ground arith),
      λ j other. rw (same, owner_map-moved to id s) (ground arith),
    )
