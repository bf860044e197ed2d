-- ===== src/Token/Axc.antt =====
-- AXC of internal/executor/system/token/axc.go. The balances of the ledger are a function of the
-- address, and the slot of the total supply holds `none` until it is written.
use axiom_lib.Common.{ℕ, Bool, Option, some, List, [], ◌∷◌, if◌then◌else◌}
use axiom_lib.Common.Maps.{update}
use axiom_lib.Common.Int.{ℤ, pos, ◌+ℤ◌, ◌-ℤ◌, ltb_ℤ}
use axiom_lib.Common.Action.{Action, gets, modify, or_raise, raise_if, ◌>>=◌, ◌>>◌}

-- `repo.Account`
pub record Account : Type 0 where
  pub address : ℕ
  pub balance : ℤ

-- The fields of `repo.GenesisNodeInfo` and `repo.GenesisConfig` that the contract reads.
pub record GenesisNodeInfo : Type 0 where
  pub is_data_syncer : Bool
  pub stake_number : ℤ

pub record GenesisConfig : Type 0 where
  pub nodes : List GenesisNodeInfo
  pub accounts : List Account

-- The slot of the contract, with the coin balances of the ledger.
pub record Axc : Type 0 where
  pub slot : Option ℤ
  pub coin : ℕ → ℤ

pub data Error : Type 0 where
  below_zero exceeds_balance slot_not_exist : Error

-- AXCContractAddr
abbrev pub axc_contract_addr : ℕ
axc_contract_addr = 4098

abbrev pub add_balance : ℕ → ℤ → Action Axc Error (Unit {0})
add_balance a v = modify (λ s. record s { coin = update s.coin a (s.coin a +ℤ v) })

abbrev pub sub_balance : ℕ → ℤ → Action Axc Error (Unit {0})
sub_balance a v = modify (λ s. record s { coin = update s.coin a (s.coin a -ℤ v) })

abbrev pub put : ℤ → Action Axc Error (Unit {0})
put v = modify (λ s. record s { slot = some v })

-- TotalSupply
unfoldable pub total_supply : Action Axc Error ℤ
total_supply = gets (λ s. s.slot) >>= λ v. or_raise v Error.slot_not_exist

-- The loops of GenesisInit over the accounts and over the nodes, with the supply so far.
abbrev pub supply_accounts : List Account → (ℕ → ℤ) → ℤ → (ℕ → ℤ) × ℤ
supply_accounts [] coin n = (coin, n)
supply_accounts (x ∷ xs) coin n =
    supply_accounts xs (update coin x.address (coin x.address +ℤ x.balance)) (n +ℤ x.balance)

abbrev pub supply_nodes : List GenesisNodeInfo → ℤ → ℤ
supply_nodes [] n = n
supply_nodes (x ∷ xs) n = supply_nodes xs (if x.is_data_syncer then n else n +ℤ x.stake_number)

-- GenesisInit
unfoldable pub genesis_init : GenesisConfig → Axc → Axc
genesis_init genesis s =
    let (coin, n) = supply_accounts genesis.accounts s.coin (pos 0) in
    record { slot = some (supply_nodes genesis.nodes n); coin = coin }

-- Mint
unfoldable pub mint : ℤ → Action Axc Error (Unit {0})
mint amount = do
  raise_if (ltb_ℤ amount (pos 0)) Error.below_zero
  add_balance axc_contract_addr amount
  n ← total_supply
  put (n +ℤ amount)

-- Burn
unfoldable pub burn : ℤ → Action Axc Error (Unit {0})
burn amount = do
  raise_if (ltb_ℤ amount (pos 0)) Error.below_zero
  raise_if (ltb_ℤ (← gets (λ s. s.coin axc_contract_addr)) amount) Error.exceeds_balance
  n ← total_supply
  raise_if (ltb_ℤ n amount) Error.exceeds_balance
  put (n -ℤ amount)
  sub_balance axc_contract_addr amount
