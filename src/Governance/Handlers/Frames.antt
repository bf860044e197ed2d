-- ===== src/Governance/Handlers/Frames.antt =====
-- Chains of calls that leave the proposals and the council alone, with the rules that `search`
-- applies (internal/executor/system/governance).
use axiom_lib.Common.{ℕ, Bool, true, false, Option, none, some, refl, if◌then◌else◌}
use axiom_lib.Common.Action.{
  Action, Result, ok, err, pure, raise, raise_if, or_raise, gets, modify, then_run, ◌>>=◌, ◌>>◌,
}
use axiom_lib.Staking.Types.{Storage, Error as StakingError}
use axiom_lib.Access.Whitelist.{Whitelist, Error as WhitelistError}
use axiom_lib.Governance.Types.{Error, Store}
use axiom_lib.Governance.Members.{is_council_member}
use axiom_lib.Governance.Frame.{IsSame-refl, IsSame-trans, IsSame}
use axiom_lib.Governance.Handlers.Types.{of_staking, of_whitelist}

-- Whatever the state, the call leaves the proposals and the council alone.
pub record Frames {R A : Type 0} (m : Action (Store R) Error A) : Type 0 where
  pub frames : (s : Store R) → IsSame s (m s).1

then-Frames :
    {R A B : Type 0} (r : Result Error A) (s t : Store R) (f : A → Action (Store R) Error B)
    → IsSame s t
    → ((a : A) → Frames (f a))
    → IsSame s (then_run r t f).1
then-Frames (ok a) s t f h k = IsSame-trans h ((k a).frames t)
then-Frames (err e) s t f h k = h

pub bind-Frames :
    {R A B : Type 0} {m : Action (Store R) Error A} {f : A → Action (Store R) Error B}
    → Frames m
    → ((a : A) → Frames (f a))
    → Frames (m >>= f)
bind-Frames {m = m} {f = f} h k = record {
  frames = λ s. then-Frames (m s).0 s (m s).1 f (h.frames s) k;
}

pub then_-Frames :
    {R A B : Type 0} {m : Action (Store R) Error A} {k : Action (Store R) Error B}
    → Frames m
    → Frames k
    → Frames (m >> k)
then_-Frames h k = bind-Frames h (λ _. k)

pub pure-Frames : {R A : Type 0} (a : A) → Frames (pure {S = Store R} a)
pure-Frames a = record { frames = λ s. IsSame-refl s }

pub raise-Frames : {R A : Type 0} (e : Error) → Frames (raise {S = Store R} {A = A} e)
raise-Frames e = record { frames = λ s. IsSame-refl s }

pub raise_if-Frames : {R : Type 0} (b : Bool) (e : Error) → Frames (raise_if {S = Store R} b e)
raise_if-Frames true e = record { frames = λ s. IsSame-refl s }
raise_if-Frames false e = record { frames = λ s. IsSame-refl s }

pub or_raise-Frames :
    {R A : Type 0} (o : Option A) (e : Error) → Frames (or_raise {S = Store R} o e)
or_raise-Frames none e = record { frames = λ s. IsSame-refl s }
or_raise-Frames (some a) e = record { frames = λ s. IsSame-refl s }

pub gets-Frames : {R A : Type 0} (f : Store R → A) → Frames (gets f)
gets-Frames f = record { frames = λ s. IsSame-refl s }

-- Only the state of other contracts is written.
pub rest-Frames :
    {R : Type 0} (f : Store R → R) → Frames (modify (λ (s : Store R). record s { rest = f s }))
rest-Frames f = record {
  frames = λ s. record { proposals_eq = refl; next_eq = refl; list_eq = refl; council_eq = refl };
}

pub if-Frames :
    {R A : Type 0} (b : Bool) {m k : Action (Store R) Error A}
    → Frames m
    → Frames k
    → Frames (if b then m else k)
if-Frames true h k = h
if-Frames false h k = k

pub of_staking-Frames :
    {N A : Type 0} (m : Action Storage StakingError A) → Frames (of_staking {N = N} m)
of_staking-Frames m = record {
  frames = λ s. record { proposals_eq = refl; next_eq = refl; list_eq = refl; council_eq = refl };
}

pub of_whitelist-Frames :
    {N A : Type 0} (m : Action Whitelist WhitelistError A) → Frames (of_whitelist {N = N} m)
of_whitelist-Frames m = record {
  frames = λ s. record { proposals_eq = refl; next_eq = refl; list_eq = refl; council_eq = refl };
}

pub member-Frames : {R : Type 0} (a : ℕ) → Frames (is_council_member {R = R} a)
unfolding is_council_member
member-Frames a =
    bind-Frames (bind-Frames (gets-Frames _) (λ o. or_raise-Frames o _)) (λ ms. pure-Frames _)

pub ruleset frame_rules = (
  bind-Frames, then_-Frames, pure-Frames, raise-Frames, raise_if-Frames, or_raise-Frames,
  gets-Frames, rest-Frames, if-Frames, of_staking-Frames, of_whitelist-Frames, member-Frames,
)
