-- ===== src/Common/Maps.antt =====
-- Go maps and the slots of a system contract as functions; an absent key is `none`.
use Prim.Native.Nat.{ℕ}
use mathlib.Core.Path.{◌≡◌, fun_ext}
use mathlib.Core.Logic.{◌≢◌, ◌⊎◌}
use mathlib.Core.Option.{Option, some, none}
use native.Mathlib.Omega.{arith}
use axiom_lib.Common.Tests.{◌==◌, if◌then◌else◌}

-- `m[k] = v`
abbrev pub update {ℓ} : {V : Type ℓ} → (ℕ → V) → ℕ → V → ℕ → V
update m k v j = if j == k then v else m j

pub update_self {ℓ} : {V : Type ℓ} (m : ℕ → V) (k : ℕ) (v : V) → update m k v k ≡ v
update_self m k v = ground arith

pub update_ne {ℓ} : {V : Type ℓ} (m : ℕ → V) (k j : ℕ) (v : V) → j ≢ k → update m k v j ≡ m j
update_ne m k j v h = ground arith

pub update-update {ℓ} :
    {V : Type ℓ} (m : ℕ → V) (k : ℕ) (v w : V) → update (update m k v) k w ≡ update m k w
update-update m k v w = fun_ext (λ j. ground arith)

-- Writing back what is there.
pub update_same {ℓ} : {V : Type ℓ} (m : ℕ → V) (k : ℕ) (v : V) → m k ≡ v → update m k v ≡ m
update_same m k v h = fun_ext (λ j. ground (arith, h))

pub update-some-cases {ℓ} :
    {V : Type ℓ} (m : ℕ → Option V) (k j : ℕ) (v w : V)
    → update m k (some v) j ≡ some w
    → ((j ≡ k) × (v ≡ w)) ⊎ (m j ≡ some w)
update-some-cases m k j v w h = ground arith

pub update-none-some {ℓ} :
    {V : Type ℓ} (m : ℕ → Option V) (k j : ℕ) (w : V) → update m k none j ≡ some w → m j ≡ some w
update-none-some m k j w h = ground arith

-- A list at a key that grows and shrinks again.
pub update_back {ℓ} : {V : Type ℓ} (m : ℕ → V) (k : ℕ) (v : V) → update (update m k v) k (m k) ≡ m
update_back m k v = fun_ext (λ j. ground arith)
