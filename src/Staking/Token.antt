-- ===== src/Staking/Token.antt =====
-- LiquidStakingToken of internal/executor/system/framework/liquid_staking_token.go: the ERC-721
-- token that stands for a stake. Events are not modelled. Address 0 is the zero address.
pub mod Ownership
pub mod Laws
pub mod History
use axiom_lib.Common.{
  ℕ, ◌+◌, Bool, true, false, not, ◌&&◌, ◌||◌, Option, none, some, ◌==◌, if◌then◌else◌,
}
use axiom_lib.Common.Int.{ℤ, pos, ◌+ℤ◌, ◌-ℤ◌}
use axiom_lib.Common.Maps.{update}
use axiom_lib.Common.Action.{Action, ok, err, pure, raise_if, gets, modify, ◌>>=◌, ◌>>◌}
use axiom_lib.Staking.Types.{Storage, LstInfo, Ctx, Error}

abbrev pub get_or {ℓ} : {A : Type ℓ} → Option A → A → A
get_or none d = d
get_or (some a) d = a

abbrev pub is_zero_address : ℕ → Bool
is_zero_address a = a == 0

-- LiquidStakingToken.ownerOf
abbrev pub owner_of : Storage → ℕ → ℕ
owner_of s token_id = get_or (s.owner_map token_id) 0

-- LiquidStakingToken.GetApproved
abbrev pub get_approved : Storage → ℕ → ℕ
get_approved s token_id = get_or (s.token_approval token_id) 0

-- LiquidStakingToken.IsApprovedForAll
abbrev pub is_approved_for_all : Storage → ℕ → ℕ → Bool
is_approved_for_all s owner operator = get_or (s.operator_approval owner operator) false

-- LiquidStakingToken.BalanceOf
unfoldable pub balance_of : ℕ → Action Storage Error ℤ
balance_of owner = do
  raise_if (is_zero_address owner) Error.invalid_owner
  gets (λ s. get_or (s.balance_map owner) (pos 0))

unfoldable pub is_authorized : Storage → ℕ → ℕ → ℕ → Bool
is_authorized s owner spender token_id =
    if is_zero_address spender
    then false
    else (if owner == spender
        then true
        else (if is_approved_for_all s owner spender
            then true
            else (if get_approved s token_id == spender then true else false)))

unfoldable pub check_authorized : ℕ → ℕ → ℕ → Action Storage Error (Unit {0})
unfolding is_authorized
check_authorized owner spender token_id s =
    if is_authorized s owner spender token_id then (ok tt, s) else (
      err (if is_zero_address owner then Error.token_not_exist else Error.insufficient_approval),
      s,
    )

-- LiquidStakingToken.OwnerOf and requireOwned
unfoldable pub require_owned : ℕ → Action Storage Error ℕ
require_owned token_id = do
  owner ← gets (λ s. owner_of s token_id)
  raise_if (is_zero_address owner) Error.token_not_exist
  pure owner

put_token_approval : ℕ → ℕ → Action Storage Error (Unit {0})
put_token_approval token_id to =
    modify (λ s. record s { token_approval = update s.token_approval token_id (some to) })

-- the guards of `approve`: `auth` owns the token, or is an operator of its owner
check_approve : ℕ → ℕ → Action Storage Error (Unit {0})
unfolding require_owned
check_approve token_id auth = do
  owner ← require_owned token_id
  for_all ← gets (λ s. is_approved_for_all s owner auth)
  raise_if (not (is_zero_address auth) && not (owner == auth) && not for_all) Error.invalid_approval

unfoldable pub approve : ℕ → ℕ → ℕ → Bool → Action Storage Error (Unit {0})
unfolding put_token_approval check_approve
approve to token_id auth emit_event =
    if emit_event || not (is_zero_address auth)
    then check_approve token_id auth >> put_token_approval token_id to
    else put_token_approval token_id to

-- `balance.Sub(balance, 1)` where an entry exists, and 0 where none does
debit : ℕ → Storage → Storage
debit from s = record s {
  balance_map =
      update s.balance_map from
        (some (elim (s.balance_map from) [ none ↦ pos 0 | some b ↦ b -ℤ pos 1 ]));
}

credit : ℕ → Storage → Storage
credit to s = record s {
  balance_map = update s.balance_map to (some (get_or (s.balance_map to) (pos 0) +ℤ pos 1));
}

unfoldable pub update_ownership : ℕ → ℕ → ℕ → Action Storage Error ℕ
unfolding check_authorized approve debit credit
update_ownership to token_id auth = do
  from ← gets (λ s. owner_of s token_id)
  if is_zero_address auth then pure tt else check_authorized from auth token_id
  if is_zero_address from then pure tt else approve 0 token_id 0 false >> modify (debit from)
  if is_zero_address to then pure tt else modify (credit to)
  modify (λ s. record s { owner_map = update s.owner_map token_id (some to) })
  pure from

unfoldable pub mint : ℕ → LstInfo → Action Storage Error ℕ
unfolding update_ownership
mint to info = do
  next_id ← gets (λ s. get_or s.next_id 1)
  modify (λ s. record s { info_map = update s.info_map next_id (some info) })
  modify (λ s. record s { next_id = some (next_id + 1) })
  update_ownership to next_id 0
  pure next_id

unfoldable pub burn : Ctx → ℕ → Action Storage Error (Unit {0})
unfolding update_ownership
burn ctx token_id = do
  owner ← gets (λ s. owner_of s token_id)
  raise_if (is_zero_address owner) Error.token_not_exist
  update_ownership 0 token_id ctx.from
  pure tt

unfoldable pub transfer_from : Ctx → ℕ → ℕ → ℕ → Action Storage Error (Unit {0})
unfolding update_ownership
transfer_from ctx from to token_id = do
  raise_if (is_zero_address to) Error.invalid_receiver
  previous_owner ← update_ownership to token_id ctx.from
  raise_if (not (previous_owner == from)) Error.incorrect_owner

unfoldable pub approve_token : Ctx → ℕ → ℕ → Action Storage Error (Unit {0})
unfolding approve
approve_token ctx to token_id = approve to token_id ctx.from true

unfoldable pub set_approval_for_all : Ctx → ℕ → Bool → Action Storage Error (Unit {0})
set_approval_for_all ctx operator approved = do
  raise_if (is_zero_address operator) Error.invalid_operator
  modify (λ s. record s {
    operator_approval =
        update s.operator_approval ctx.from
          (update (s.operator_approval ctx.from) operator (some approved));
  })
