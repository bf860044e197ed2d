-- ===== src/Governance/Handlers/Providers.antt =====
-- WhitelistProviderManager of internal/executor/system/governance/white_list_provider_manager.go. The
-- texts of addresses are numbers, and two texts may be one address.
use axiom_lib.Common.{ℕ, Bool, true, false, not, ◌||◌, List, [], ◌∷◌, ◌==◌, length, map}
use axiom_lib.Common.Action.{Action, pure, gets, raise, raise_if, or_raise, ◌>>=◌, ◌>>◌}
use axiom_lib.Access.Whitelist.{exist_provider, update_providers}
use axiom_lib.Governance.Types.{
  Bytes, ProposalType, council_elect, node_upgrade, node_register, node_remove,
  whitelist_provider_add, whitelist_provider_remove, gas_update, chain_param_upgrade, Error,
  bad_extra, exists_not_finished, empty_providers, invalid_provider, repeated_provider,
  provider_exists, provider_not_exist, invalid_type, NotFinishedProposal, Proposal, Store, Handler,
}
use axiom_lib.Governance.Members.{is_council_member}
use axiom_lib.Governance.Board.{listed}
use axiom_lib.Governance.Frame.{IsSame-refl, IsFramed}
use axiom_lib.Governance.Handlers.Types.{Codec, Rest, of_whitelist}
use axiom_lib.Governance.Handlers.Council.{all_distinct}
use axiom_lib.Governance.Handlers.Frames.{frame_rules, Frames, member-Frames}

abbrev pub is_add_type : ProposalType → Bool
is_add_type whitelist_provider_add = true
is_add_type _ = false

-- The types whose open proposals keep a provider proposal from being made
abbrev pub blocks_providers : ProposalType → Bool
blocks_providers council_elect = true
blocks_providers whitelist_provider_add = true
blocks_providers whitelist_provider_remove = true
blocks_providers _ = false

abbrev pub any_blocks : (ProposalType → Bool) → List NotFinishedProposal → Bool
any_blocks blocks [] = false
any_blocks blocks (n ∷ ns) = blocks n.kind || any_blocks blocks ns

module _ {N : Type 0} where
  -- A check of each element of a list, in its order.
  abbrev pub check_each :
      {A : Type 0}
      → (A → Action (Store (Rest N)) Error (Unit {0}))
      → List A
      → Action (Store (Rest N)) Error (Unit {0})
  check_each check [] = pure tt
  check_each check (x ∷ xs) = check x >> check_each check xs

  -- checkFinishedProposal
  abbrev pub check_finished_proposal :
      (ProposalType → Bool) → Action (Store (Rest N)) Error (Unit {0})
  check_finished_proposal blocks = do
    raise_if (any_blocks blocks (← gets (λ s. listed s.not_finished))) exists_not_finished

  -- One turn of the loops over the providers
  abbrev pub check_provider : ProposalType → ℕ → Action (Store (Rest N)) Error (Unit {0})
  check_provider whitelist_provider_add a = do
    raise_if (← gets (λ s. exist_provider a s.rest.whitelist)) provider_exists
  check_provider whitelist_provider_remove a = do
    raise_if (not (← gets (λ s. exist_provider a s.rest.whitelist))) provider_not_exist
  check_provider _ a = raise invalid_type

  module _ (codec : Codec) where
    -- WhitelistProviderManager.ProposeArgsCheck
    unfoldable pub providers_args_check :
        ProposalType → Bytes → Action (Store (Rest N)) Error (Unit {0})
    providers_args_check kind extra = do
      check_finished_proposal blocks_providers
      providers ← or_raise (codec.providers extra) bad_extra
      raise_if (length providers == 0) empty_providers
      check_each (λ a. raise_if (not (codec.is_hex_address a)) invalid_provider) providers
      raise_if (not (all_distinct providers)) repeated_provider
      check_each (check_provider kind) (map codec.hex_to_address providers)

    -- WhitelistProviderManager.VotePassExecute
    unfoldable pub providers_execute : Proposal → Action (Store (Rest N)) Error (Unit {0})
    providers_execute p = do
      providers ← or_raise (codec.providers p.extra) bad_extra
      of_whitelist (
          update_providers (is_add_type p.kind)
            (map (λ a. record { addr = codec.hex_to_address a }) providers))

    abbrev pub whitelist_provider_manager : Handler (Rest N)
    whitelist_provider_manager = record {
      propose_args_check = λ ctx k title desc d extra. providers_args_check k extra;
      propose_permission_check = λ ctx k. is_council_member ctx.from;
      vote_pass_execute = λ ctx p. providers_execute p;
      clean_proposal = λ ctx p. pure tt;
    }

  pub check_each-Frames :
      {A : Type 0} (check : A → Action (Store (Rest N)) Error (Unit {0})) (xs : List A)
      → ((x : A) → Frames (check x))
      → Frames (check_each check xs)
  check_each-Frames check [] h = search frame_rules
  check_each-Frames check (x ∷ xs) h = search (frame_rules, h x, check_each-Frames check xs h)

  check_provider-Frames : (kind : ProposalType) (a : ℕ) → Frames (check_provider kind a)
  check_provider-Frames council_elect a = search frame_rules
  check_provider-Frames node_upgrade a = search frame_rules
  check_provider-Frames node_register a = search frame_rules
  check_provider-Frames node_remove a = search frame_rules
  check_provider-Frames whitelist_provider_add a = search frame_rules
  check_provider-Frames whitelist_provider_remove a = search frame_rules
  check_provider-Frames gas_update a = search frame_rules
  check_provider-Frames chain_param_upgrade a = search frame_rules

  module _ (codec : Codec) where
    providers_args-Frames :
        (kind : ProposalType) (extra : Bytes) → Frames (providers_args_check codec kind extra)
    unfolding providers_args_check
    providers_args-Frames kind extra =
        search (frame_rules, check_each-Frames, check_provider-Frames) depth 14

    providers_execute-Frames : (p : Proposal) → Frames (providers_execute codec p)
    unfolding providers_execute
    providers_execute-Frames p = search frame_rules

    pub whitelist_provider_manager-IsFramed : IsFramed (whitelist_provider_manager codec)
    whitelist_provider_manager-IsFramed = record {
      check = λ ctx k title desc d extra s. (providers_args-Frames k extra).frames s;
      permission = λ ctx k s. (member-Frames ctx.from).frames s;
      execute = λ ctx p s. (s.council, (providers_execute-Frames p).frames s);
      clean = λ ctx p s. IsSame-refl s;
    }
