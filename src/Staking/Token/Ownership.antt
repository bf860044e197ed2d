-- ===== src/Staking/Token/Ownership.antt =====
-- The ledger of token owners: the balance of an address is the number of tokens that it owns.
use native.Mathlib.Numerals.{add-one}
use axiom_lib.Common.{
  ℕ, zero, suc, ◌+◌, ◌≤◌, ◌<◌, ◌≡◌, ◌≢◌, refl, subst, false, Option, some, arith, ◌==◌,
  if◌then◌else◌,
}
use axiom_lib.Common.Int.{pos, ◌+ℤ◌, ◌-ℤ◌}
use axiom_lib.Common.Maps.{update}
use axiom_lib.Common.Action.{ok, err}
use axiom_lib.Staking.Types.{Storage, Error}
use axiom_lib.Staking.Token.{
  get_or, owner_of, get_approved, is_approved_for_all, is_authorized, update_ownership, debit,
  credit,
}

-- The number of ids below `n` that `o` owns.
unfoldable pub count_owned : (ℕ → Option ℕ) → ℕ → ℕ → ℕ
count_owned m o zero = 0
count_owned m o (suc n) = (if get_or (m n) 0 == o then 1 else 0) + count_owned m o n

-- The first id that is not in use.
abbrev pub bound : Storage → ℕ
bound s = get_or s.next_id 1

-- Balances count the tokens; ids not yet minted have no owner; only a token with an owner has an
-- approved operator; the zero address has approved nobody.
pub record IsCounted (s : Storage) : Type 0 where
  pub counted :
      (o : ℕ) → o ≢ 0 → get_or (s.balance_map o) (pos 0) ≡ pos (count_owned s.owner_map o (bound s))
  pub fresh : (id : ℕ) → bound s ≤ id → owner_of s id ≡ 0
  pub approved : (id : ℕ) → owner_of s id ≡ 0 → get_approved s id ≡ 0
  pub no_operator : (op : ℕ) → is_approved_for_all s 0 op ≡ false

count-update_above :
    (m : ℕ → Option ℕ) (id to o n : ℕ)
    → n ≤ id
    → count_owned (update m id (some to)) o n ≡ count_owned m o n
unfolding count_owned
count-update_above m id to o zero h = refl
count-update_above m id to o (suc n) h = ground (arith, count-update_above m id to o n)

-- Giving a token away takes one from its owner's count and adds one to the new owner's.
count-update :
    (m : ℕ → Option ℕ) (id to o n : ℕ)
    → id < n
    → count_owned (update m id (some to)) o n + (if get_or (m id) 0 == o then 1 else 0)
      ≡ count_owned m o n + (if to == o then 1 else 0)
unfolding count_owned
count-update m id to o zero h = absurd (omega arith)
count-update m id to o (suc n) h =
    ground (arith, count-update m id to o n, count-update_above m id to o n)

count-pos : (m : ℕ → Option ℕ) (id n : ℕ) → id < n → 0 < count_owned m (get_or (m id) 0) n
unfolding count_owned
count-pos m id zero h = absurd (omega arith)
count-pos m id (suc n) h = ground (arith, count-pos m id n)

pub count-add_one :
    (m : ℕ → Option ℕ) (o n : ℕ)
    → o ≢ 0
    → get_or (m n) 0 ≡ 0
    → count_owned m o (n + 1) ≡ count_owned m o n
unfolding count_owned
count-add_one m o n nz e = rw add-one (ground arith)

-- The storage after the token has changed hands, its approval cleared.
unfoldable pub moved : ℕ → ℕ → Storage → Storage
unfolding debit credit
moved to id s =
    let from = owner_of s id in
    let s1 =
      if from == 0
      then s
      else debit from (record s { token_approval = update s.token_approval id (some 0) }) in
    let s2 = if to == 0 then s1 else credit to s1 in
    record s2 { owner_map = update s2.owner_map id (some to) }

-- What `update_ownership` does: it moves the token, or it refuses and changes nothing.
pub update_ownership_lem :
    (to id auth : ℕ) (s : Storage)
    → update_ownership to id auth s ≡ (
        if auth == 0
        then (ok (owner_of s id), moved to id s)
        else (if is_authorized s (owner_of s id) auth id
            then (ok (owner_of s id), moved to id s)
            else (
              err (
                  if owner_of s id == 0
                  then Error.token_not_exist
                  else Error.insufficient_approval),
              s,
            )))
unfolding update_ownership moved
update_ownership_lem to id auth s = ground arith

-- The balances after a token has moved, at an address other than zero.
balance-moved :
    (to id o : ℕ) (s : Storage)
    → o ≢ 0
    → get_or (s.balance_map o) (pos 0) ≡ pos (count_owned s.owner_map o (bound s))
    → (owner_of s id ≡ o → 0 < count_owned s.owner_map o (bound s))
    → (k : ℕ)
    → k + (if owner_of s id == o then 1 else 0)
      ≡ count_owned s.owner_map o (bound s) + (if to == o then 1 else 0)
    → get_or ((moved to id s).balance_map o) (pos 0) ≡ pos k
unfolding moved ◌+ℤ◌ ◌-ℤ◌
balance-moved to id o s nz h p k e = ground arith

next_id-moved : (to id : ℕ) (s : Storage) → (moved to id s).next_id ≡ s.next_id
unfolding moved
next_id-moved to id s = ground arith

pub owner_map-moved :
    (to id : ℕ) (s : Storage) → (moved to id s).owner_map ≡ update s.owner_map id (some to)
unfolding moved
owner_map-moved to id s = ground arith

operator_approval-moved :
    (to id : ℕ) (s : Storage) → (moved to id s).operator_approval ≡ s.operator_approval
unfolding moved
operator_approval-moved to id s = ground arith

-- The approval of a token that had an owner is cleared; every other approval stays.
pub get_approved-moved :
    (to id j : ℕ) (s : Storage)
    → get_approved (moved to id s) j
      ≡ (if owner_of s id == 0 then get_approved s j else (if j == id then 0 else get_approved s j))
unfolding moved
get_approved-moved to id j s = ground arith

-- Moving a token that has been minted keeps the balances equal to the counts.
pub moved-IsCounted :
    (to id : ℕ) (s : Storage) → id < bound s → IsCounted s → IsCounted (moved to id s)
moved-IsCounted to id s h v = record {
  counted = λ o nz.
      rw (next_id-moved to id s, owner_map-moved to id s)
        (balance-moved to id o s nz (v.counted o nz)
          (λ e.
            subst (λ a. 0 < count_owned s.owner_map a (bound s)) e
              (count-pos s.owner_map id (bound s) h))
          _ (count-update s.owner_map id to o (bound s) h));
  fresh = λ j b.
      rw (owner_map-moved to id s)
        (ground (arith, next_id-moved to id s, v.fresh j (rw (next_id-moved to id s) at b)));
  approved = λ j e.
      rw (get_approved-moved to id j s)
        (ground (arith, v.approved j, rw (owner_map-moved to id s) at e));
  no_operator = λ op. rw (operator_approval-moved to id s) (v.no_operator op);
}
