-- ===== src/Common/Action.antt =====
-- A call of a system contract: state and errors. The state comes back after an error too, since
-- what was written stays written until the caller reverts.
use mathlib.Core.Bool.{Bool, true, false}
use mathlib.Core.Option.{Option, none, some}
use mathlib.Core.Path.{◌≡◌, refl, ap}
use native.Mathlib.Omega.{arith}

pub data Result {ℓ} (E : Type 0) (A : Type ℓ) : Type ℓ where
  ok : A → Result E A
  err : E → Result E A

abbrev pub Action : Type 0 → Type 0 → Type 0 → Type 0
Action S E A = S → Result E A × S

module _ {S E : Type 0} where
  abbrev pub pure : {A : Type 0} → A → Action S E A
  pure a s = (ok a, s)

  abbrev pub raise : {A : Type 0} → E → Action S E A
  raise e s = (err e, s)

  abbrev pub gets : {A : Type 0} → (S → A) → Action S E A
  gets f s = (ok (f s), s)

  abbrev pub modify : (S → S) → Action S E (Unit {0})
  modify f s = (ok tt, f s)

  abbrev pub or_raise : {A : Type 0} → Option A → E → Action S E A
  or_raise none e s = (err e, s)
  or_raise (some a) e s = (ok a, s)

  -- `if b { return err }`
  abbrev pub raise_if : Bool → E → Action S E (Unit {0})
  raise_if true e s = (err e, s)
  raise_if false e s = (ok tt, s)

  -- Goes on where a call succeeded.
  abbrev pub then_run : {A B : Type 0} → Result E A → S → (A → Action S E B) → Result E B × S
  then_run (ok a) t f = f a t
  then_run (err e) t f = (err e, t)

  infixl 5 ◌>>=◌ ◌>>◌
  abbrev pub ◌>>=◌ : {A B : Type 0} → Action S E A → (A → Action S E B) → Action S E B
  ◌>>=◌ m f s = then_run (m s).0 (m s).1 f

  abbrev pub ◌>>◌ : {A B : Type 0} → Action S E A → Action S E B → Action S E B
  m >> k = m >>= λ _. k

  then_run_ok :
      {A B : Type 0} (r : Result E A) (t : S) (f : A → Action S E B) (s' : S) (b : B)
      → then_run r t f ≡ (ok b, s')
      → (a : A) × (r ≡ ok a) × (f a t ≡ (ok b, s'))
  then_run_ok (ok a) t f s' b h = (a, refl, h)
  then_run_ok (err e) t f s' b h = ground arith

  -- A chain that succeeds does so step by step.
  pub bind_ok :
      {A B : Type 0} (m : Action S E A) (f : A → Action S E B) (s s' : S) (b : B)
      → (m >>= f) s ≡ (ok b, s')
      → (a : A) × (t : S) × (m s ≡ (ok a, t)) × (f a t ≡ (ok b, s'))
  bind_ok m f s s' b h =
      let (a, e, k) = then_run_ok (m s).0 (m s).1 f s' b h in
      (a, (m s).1, ap (λ r. (r, (m s).1)) e, k)
