-- ===== src/SmartAccount/Tests.antt =====
-- The properties of the nonce manager at concrete sequences.
use axiom_lib.Common.{◌/◌, ◌*◌, ◌+◌, ◌==◌, true, false, none, ◌≡◌, refl, if◌then◌else◌}
use axiom_lib.Common.Words.{u64_mod, add64}
use axiom_lib.SmartAccount.Nonces.{
  Sequences, get_nonce, validate_and_update_nonce, get_nonce-validate, validate-validate,
}

abbrev no_sequences : Sequences
no_sequences = λ _ _. none

first_accepted : (validate_and_update_nonce 1 0 no_sequences).0 ≡ true
unfolding validate_and_update_nonce get_nonce
first_accepted = refl

get_nonce-validate_example :
    ((validate_and_update_nonce 1 0 no_sequences).0
      ≡ ((get_nonce 1 (0 / u64_mod) no_sequences).0 == 0))
    × ((get_nonce 1 (0 / u64_mod) (validate_and_update_nonce 1 0 no_sequences).1).0 ≡ (
        if (get_nonce 1 (0 / u64_mod) no_sequences).0 == 0
        then 0 / u64_mod * u64_mod + add64 0 1
        else (get_nonce 1 (0 / u64_mod) no_sequences).0))
get_nonce-validate_example = get_nonce-validate 1 0 no_sequences

validate-validate_example :
    (validate_and_update_nonce 1 0 (validate_and_update_nonce 1 0 no_sequences).1).0 ≡ false
validate-validate_example = validate-validate 1 0 no_sequences first_accepted
