-- ===== src/Access/Tests.antt =====
-- The properties of the whitelist at concrete calls of two providers.
use axiom_lib.Common.Distinct.{contains}
use axiom_lib.Common.{
  ℕ, true, false, not, ◌&&◌, ◌||◌, none, some, [], ◌∷◌, ◌==◌, ◌≡◌, ◌↔◌, ◌⊎◌, refl,
}
use axiom_lib.Common.Action.{ok}
use axiom_lib.Access.Whitelist.{
  Ctx, Whitelist, super, submit, submit_all, submit_info, remove, remove_all, remove_info, verify,
  genesis_init,
}
use axiom_lib.Access.Providers.{vouches, submit-vouches, remove-vouches}
use axiom_lib.Access.Invariant.{IsWhitelist}
use axiom_lib.Access.Reach.{
  submits, removes, Steps, done, next, empty, IsSuper, reached-IsWhitelist, genesis_users_stay,
  verify_lem, remove-submit,
}

-- The council member 1 and the providers 2 and 3.
abbrev start : Whitelist
start = genesis_init (1 ∷ []) (2 ∷ 3 ∷ []) [] empty

abbrev by : ℕ → Ctx
by a = record { from = a; call_from_system = false }

abbrev submitted : Whitelist
submitted = (submit (by 2) (7 ∷ 8 ∷ []) start).1

abbrev removed : Whitelist
removed = (remove (by 2) (8 ∷ []) submitted).1

computed :
    (submit (by 2) (7 ∷ 8 ∷ []) start ≡ (ok tt, submitted))
    × (remove (by 2) (8 ∷ []) submitted ≡ (ok tt, removed))
unfolding submit submit_all submit_info remove remove_all remove_info genesis_init
computed = (refl, refl)

-- What the contract refuses: an account that is no provider, and a super user.
refused : ((submit (by 7) (8 ∷ []) start).1 ≡ start) × ((submit (by 2) (1 ∷ []) start).1 ≡ start)
unfolding submit submit_all submit_info genesis_init
refused = (refl, refl)

submit-vouches_example :
    vouches 2 7 submitted ≡ (((2 == 2) && contains 7 (7 ∷ 8 ∷ [])) || vouches 2 7 start)
submit-vouches_example = submit-vouches (by 2) (7 ∷ 8 ∷ []) start submitted computed.0 2 7

remove-vouches_example :
    vouches 2 8 removed ≡ (not ((2 == 2) && contains 8 (8 ∷ [])) && vouches 2 8 submitted)
remove-vouches_example = remove-vouches (by 2) (8 ∷ []) submitted removed computed.1 2 8

steps : Steps start removed
steps =
    next (next done (submits (by 2) (7 ∷ 8 ∷ []) computed.0)) (removes (by 2) (8 ∷ []) computed.1)

reached-IsWhitelist_example : IsWhitelist removed
reached-IsWhitelist_example = reached-IsWhitelist (1 ∷ []) (2 ∷ 3 ∷ []) [] removed steps

genesis_users_stay_example :
    (removed.auth_infos 3 ≡ some (record { addr = 3; providers = []; role = super }))
    × (verify 3 removed ≡ (ok tt, removed))
genesis_users_stay_example = genesis_users_stay (1 ∷ []) (2 ∷ 3 ∷ []) [] removed 3 steps refl

-- Some provider vouches for user 7.
abbrev IsVouched : ℕ → Whitelist → Type 0
IsVouched a s = (q : ℕ) × (vouches q a s ≡ true)

verify_lem_example :
    (verify 7 removed ≡ (ok tt, removed)) ↔ (IsSuper 7 removed ⊎ IsVouched 7 removed)
verify_lem_example = verify_lem removed 7 reached-IsWhitelist_example

-- Submitting and then removing the user 9 changes nothing.
abbrev IsUndone : Type 0
IsUndone =
    (t : Whitelist) × (submit (by 3) (9 ∷ []) start ≡ (ok tt, t))
    × (remove (by 3) (9 ∷ []) t ≡ (ok tt, start))

unknown : start.auth_infos 9 ≡ none
unfolding genesis_init
unknown = refl

remove-submit_example : IsUndone
unfolding genesis_init
remove-submit_example = remove-submit (by 3) 9 start refl unknown
