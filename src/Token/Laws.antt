-- ===== src/Token/Laws.antt =====
-- What Mint and Burn of internal/executor/system/token/axc.go do on every branch, and that they undo
-- each other.
use axiom_lib.Common.{
  ℕ, false, none, some, ◌==◌, if◌then◌else◌, ◌≡◌, refl, sym, ap, ◌∙◌, arith, Bool-cases, ==_iff,
  inl, inr,
}
use mathlib.Core.Path.{fun_ext}
use axiom_lib.Common.Maps.{update}
use axiom_lib.Common.Int.{ℤ, pos, ◌+ℤ◌, ◌-ℤ◌, ◌≤ℤ◌, ltb_ℤ, int_laws}
use axiom_lib.Common.Action.{ok, err, ◌>>◌}
use axiom_lib.Token.Axc.{Axc, Error, axc_contract_addr, total_supply, mint, burn}

-- What Mint and Burn leave where the supply was n.
abbrev pub minted : ℤ → ℤ → Axc → Axc
minted v n s = record {
  slot = some (n +ℤ v);
  coin = update s.coin axc_contract_addr (s.coin axc_contract_addr +ℤ v);
}

abbrev pub burned : ℤ → ℤ → Axc → Axc
burned v n s = record {
  slot = some (n -ℤ v);
  coin = update s.coin axc_contract_addr (s.coin axc_contract_addr -ℤ v);
}

pub mint_lem :
    (v n : ℤ) (s : Axc)
    → s.slot ≡ some n
    → mint v s ≡ (if ltb_ℤ v (pos 0) then (err Error.below_zero, s) else (ok tt, minted v n s))
unfolding mint total_supply
mint_lem v n s h = elim (Bool-cases (ltb_ℤ v (pos 0))) [
  | inl e ↦ rw e refl
  | inr e ↦ rw (e, h) refl
]

pub burn_lem :
    (v n : ℤ) (s : Axc)
    → s.slot ≡ some n
    → burn v s ≡ (
        if ltb_ℤ v (pos 0)
        then (err Error.below_zero, s)
        else if ltb_ℤ (s.coin axc_contract_addr) v
        then (err Error.exceeds_balance, s)
        else if ltb_ℤ n v
        then (err Error.exceeds_balance, s)
        else (ok tt, burned v n s))
unfolding burn total_supply
burn_lem v n s h = elim (Bool-cases (ltb_ℤ v (pos 0))) [
  | inl e ↦ rw e refl
  | inr e ↦ elim (Bool-cases (ltb_ℤ (s.coin axc_contract_addr) v)) [
    | inl f ↦ rw (e, f) refl
    | inr f ↦ elim (Bool-cases (ltb_ℤ n v)) [
      | inl g ↦ rw (e, f, h, g) refl
      | inr g ↦ rw (e, f, h, g) refl
    ]
  ]
]

add_sub : (a v : ℤ) → (a +ℤ v) -ℤ v ≡ a
add_sub a v = omega int_laws

restored :
    (coin : ℕ → ℤ) (v : ℤ) (a : ℕ)
    → (burned v v (minted v v (record { slot = none; coin = coin }))).coin a ≡ coin a
restored coin v a = elim (Bool-cases (a == axc_contract_addr)) [
  | inl e ↦
      rw e (add_sub (coin axc_contract_addr) v ∙ ap coin (sym ((==_iff a axc_contract_addr).0 e)))
  | inr e ↦ rw e refl
]

burned-minted : (v n : ℤ) (s : Axc) → s.slot ≡ some n → burned v (n +ℤ v) (minted v n s) ≡ s
burned-minted v n s h =
    let coin = fun_ext (λ a. restored s.coin v a) in
    let slot = ap some (add_sub n v) ∙ sym h in λ i. record { slot = slot i; coin = coin i }

grows : (a v : ℤ) → pos 0 ≤ℤ a → v ≤ℤ a +ℤ v
grows a v h = omega (int_laws, h)

ltb_ge : (a b : ℤ) → b ≤ℤ a → ltb_ℤ a b ≡ false
ltb_ge a b h = ground (arith, h)

-- Where the supply, the balance of the contract and the amount are not negative, Burn of what Mint has
-- just minted succeeds and restores the supply and every balance.
pub burn-mint :
    (v n : ℤ) (s : Axc)
    → s.slot ≡ some n
    → pos 0 ≤ℤ v
    → pos 0 ≤ℤ n
    → pos 0 ≤ℤ s.coin axc_contract_addr
    → (mint v >> burn v) s ≡ (ok tt, s)
burn-mint v n s h a b c =
    rw
      (
        mint_lem v n s h,
        ltb_ge v (pos 0) a,
        burn_lem v (n +ℤ v) (minted v n s) refl,
        ltb_ge v (pos 0) a,
      )
      (rw
        (
          ltb_ge (s.coin axc_contract_addr +ℤ v) v (grows (s.coin axc_contract_addr) v c),
          ltb_ge (n +ℤ v) v (grows n v b),
          burned-minted v n s h,
        )
        refl)
