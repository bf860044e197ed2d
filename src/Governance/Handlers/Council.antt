-- ===== src/Governance/Handlers/Council.antt =====
-- CouncilManager of internal/executor/system/governance/council_manager.go.
use axiom_lib.Common.Distinct.{contains}
use axiom_lib.Common.{
  ℕ, Bool, true, false, not, Option, none, some, List, [], ◌∷◌, ◌==◌, if◌then◌else◌, ltb, length,
  map,
}
use axiom_lib.Common.Action.{Action, pure, gets, modify, raise_if, or_raise, ◌>>=◌, ◌>>◌}
use axiom_lib.Governance.Types.{
  Bytes, Error, bad_extra, too_few_members, repeated_address, repeated_name, exists_not_finished,
  CouncilMember, Proposal, Store, Handler,
}
use axiom_lib.Governance.Members.{is_council_member}
use axiom_lib.Governance.Board.{listed}
use axiom_lib.Governance.Frame.{IsSame-refl, IsSame, IsFramed}
use axiom_lib.Governance.Handlers.Types.{Codec, Rest}
use axiom_lib.Governance.Handlers.Frames.{frame_rules, Frames, member-Frames}

-- MinCouncilMembersCount
abbrev pub min_council_members_count : ℕ
min_council_members_count = 4

-- `len(lo.Uniq(xs)) == len(xs)`
abbrev pub all_distinct : List ℕ → Bool
all_distinct [] = true
all_distinct (x ∷ xs) = if contains x xs then false else all_distinct xs

-- checkFinishedAllProposal
abbrev pub check_finished_all : {R : Type 0} → Action (Store R) Error Bool
check_finished_all = gets (λ s. length (listed s.not_finished) == 0)

module _ {N : Type 0} (codec : Codec) where
  -- CouncilManager.ProposeArgsCheck
  unfoldable pub council_args_check : Bytes → Action (Store (Rest N)) Error (Unit {0})
  council_args_check extra = do
    candidates ← or_raise (codec.council extra) bad_extra
    raise_if (ltb (length candidates) min_council_members_count) too_few_members
    raise_if (not (all_distinct (map (λ m. CouncilMember.address m) candidates))) repeated_address
    raise_if (not (all_distinct (map (λ m. CouncilMember.name m) candidates))) repeated_name
    finished ← check_finished_all
    raise_if (not finished) exists_not_finished

  -- CouncilManager.VotePassExecute
  unfoldable pub council_execute : Proposal → Action (Store (Rest N)) Error (Unit {0})
  council_execute p = do
    candidates ← or_raise (codec.council p.extra) bad_extra
    modify (λ s. record s { council = some candidates })

  abbrev pub council_manager : Handler (Rest N)
  council_manager = record {
    propose_args_check = λ ctx k title desc d extra. council_args_check extra;
    propose_permission_check = λ ctx k. is_council_member ctx.from;
    vote_pass_execute = λ ctx p. council_execute p;
    clean_proposal = λ ctx p. pure tt;
  }

  args-Frames : (extra : Bytes) → Frames (council_args_check extra)
  unfolding council_args_check
  args-Frames extra = search (frame_rules) depth 12

  pub council_manager-IsFramed : IsFramed council_manager
  unfolding council_execute
  council_manager-IsFramed = record {
    check = λ ctx k title desc d extra s. (args-Frames extra).frames s;
    permission = λ ctx k s. (member-Frames ctx.from).frames s;
    execute = λ ctx p s. council_put (codec.council p.extra) s;
    clean = λ ctx p s. IsSame-refl s;
  }
    where
      council_put :
          (o : Option (List CouncilMember)) (s : Store (Rest N))
          → (c : Option (List CouncilMember)) × IsSame
              (record s { council = c })
              ((or_raise o bad_extra >>= (λ cs. modify (λ t. record t { council = some cs }))) s).1
      council_put none s = (s.council, IsSame-refl s)
      council_put (some cs) s = (some cs, IsSame-refl (record s { council = some cs }))
