-- ===== src/Token/Tests.antt =====
-- The properties of the native token at a genesis of two accounts and two nodes.
use axiom_lib.Common.{ℕ, true, false, none, List, [], ◌∷◌, ◌≡◌, refl, arith}
use axiom_lib.Common.Int.{pos, ◌+ℤ◌, ◌-ℤ◌, negsuc}
use axiom_lib.Common.Action.{ok, err, ◌>>◌}
use axiom_lib.Token.Axc.{GenesisConfig, Axc, Error, total_supply, mint, burn, genesis_init}
use axiom_lib.Token.Laws.{burn-mint}
use axiom_lib.Token.Supply.{Steps, done, next, mints, burns, moves, total, staked, supply_backed}
use axiom_lib.Common.Maps.{update}

abbrev genesis : GenesisConfig
genesis = record {
  accounts =
      record { address = 7; balance = pos 1000 } ∷ record { address = 8; balance = pos 500 } ∷ [];
  nodes =
      record { is_data_syncer = false; stake_number = pos 30 }
      ∷ record { is_data_syncer = true; stake_number = pos 4 }
      ∷ [];
}

abbrev empty : Axc
empty = record { slot = none; coin = λ _. pos 0 }

abbrev start : Axc
start = genesis_init genesis empty

abbrev rewarded : Axc
rewarded = (mint (pos 12) start).1

computed :
    (total_supply start ≡ (ok (pos 1530), start))
    × (mint (negsuc 0) start ≡ (err Error.below_zero, start))
    × (burn (pos 13) rewarded ≡ (err Error.exceeds_balance, rewarded))
unfolding genesis_init total_supply mint burn ◌+ℤ◌ ◌-ℤ◌
computed = (refl, refl, refl)

abbrev addresses : List ℕ
addresses = 7 ∷ 8 ∷ 9 ∷ 4098 ∷ []

-- Two of the coins are burned, and the contract pays the others to the account 9.
abbrev left : Axc
left = (burn (pos 2) rewarded).1

abbrev last : Axc
last = record left { coin = update (update left.coin 4098 (pos 0)) 9 (pos 10) }

empty_total : total empty.coin addresses ≡ pos 0
unfolding ◌+ℤ◌
empty_total = refl

steps : Steps addresses start last
unfolding genesis_init total_supply mint burn ◌+ℤ◌ ◌-ℤ◌
steps = next (next (next done (mints (pos 12))) (burns (pos 2))) (moves last.coin refl)

supply_backed_example :
    total_supply last ≡ (ok (total last.coin addresses +ℤ staked genesis.nodes), last)
supply_backed_example =
    supply_backed genesis addresses empty last (refl, (refl, (refl, (refl, tt)))) refl
      (refl, (refl, tt)) empty_total steps

burn-mint_example : (mint (pos 12) >> burn (pos 12)) start ≡ (ok tt, start)
unfolding genesis_init ◌+ℤ◌
burn-mint_example =
    burn-mint (pos 12) (pos 1530) start refl (omega arith) (omega arith) (omega arith)
