-- ===== src/Staking/Rates/Rounding.antt =====
-- Rounding of the conversions between stake and liquid staking tokens: what a holder can gain or
-- lose by converting there and back.
use axiom_lib.Common.{ℕ, suc, zero, refl, ◌+◌, ◌*◌, ◌/◌, ◌≤◌, ◌<◌, ◌≡◌, ap, arith}
use native.Mathlib.Decide.{dec_le}
use axiom_lib.Common.Int.{pos, ◌+ℤ◌, ◌*ℤ◌, ◌/ℤ◌, ◌≤ℤ◌, int_laws}
use axiom_lib.Staking.Types.{Rate}
use axiom_lib.Staking.Rates.{
  calculate_lst_amount, calculate_stake_amount, calculate_principal_and_reward,
}

-- A rate whose two amounts are positive.
abbrev pub rate_of : ℕ → ℕ → Rate
rate_of s l = record { stake_amount = pos (suc s); lst_amount = pos (suc l) }

lst_amount_pos : (s l p : ℕ) → calculate_lst_amount (rate_of s l) (pos p) ≡ pos (suc l * p / suc s)
unfolding calculate_lst_amount ◌*ℤ◌ ◌/ℤ◌
lst_amount_pos s l p = ground arith

stake_amount_pos :
    (s l p : ℕ) → calculate_stake_amount (rate_of s l) (pos p) ≡ pos (suc s * p / suc l)
unfolding calculate_stake_amount ◌*ℤ◌ ◌/ℤ◌
stake_amount_pos s l p = ground arith

-- n / d is the quotient: d * (n / d) ≤ n < d * (n / d) + d.
div_bounds : (n d : ℕ) → (suc d * (n / suc d) ≤ n) × (n < suc d * (n / suc d) + suc d)
div_bounds n d = grind arith

mul_mono : (d a b : ℕ) → a ≤ b → suc d * a ≤ suc d * b
mul_mono d a b h = grind arith

-- Quotients are compared by multiplying out.
div-le : (n d m : ℕ) → n < suc d * suc m → n / suc d ≤ m
div-le n d m h = elim (dec_le (n / suc d) m) [
  | yes le ↦ le
  | no gt ↦ absurd (omega (arith, div_bounds n d, mul_mono d (suc m) (n / suc d) (omega arith)))
]

le-div : (n d m : ℕ) → suc d * m ≤ n → m ≤ n / suc d
le-div n d m h = elim (dec_le m (n / suc d)) [
  | yes le ↦ le
  | no gt ↦ absurd (omega (arith, div_bounds n d, mul_mono d (suc (n / suc d)) m (omega arith)))
]

-- A round trip at one rate never creates stake, and what it loses is bounded: the rest that the
-- two floors drop is worth less than one unit of stake and one unit of the token.
pub round_trip_bounds :
    (s l p : ℕ)
    → (r : ℕ) × (calculate_principal_and_reward (rate_of s l) (rate_of s l) (pos p) ≡ pos r)
      × (r ≤ p)
      × (p * suc l < suc r * suc l + suc s)
unfolding calculate_principal_and_reward
round_trip_bounds s l p =
    let t : ℕ = suc l * p / suc s in
    let r : ℕ = suc s * t / suc l in
    (
      r,
      rw (lst_amount_pos s l p) (stake_amount_pos s l t),
      div-le (suc s * t) l p (omega (arith, div_bounds (suc l * p) s)),
      omega (arith, div_bounds (suc l * p) s, div_bounds (suc s * t) l),
    )

mul_mono_left : (t a b : ℕ) → a ≤ b → a * t ≤ b * t
mul_mono_left t a b h = grind arith

mul_add : (d a b : ℕ) → d * (a + b) ≡ d * a + d * b
mul_add d a b = omega arith

mul_cancel : (d a b : ℕ) → suc d * a ≤ suc d * b → a ≤ b
mul_cancel d a b h = elim (dec_le a b) [
  | yes le ↦ le
  | no gt ↦ absurd (omega (arith, mul_mono d (suc b) a (omega arith)))
]

div_mono : (n m d : ℕ) → n ≤ m → n / suc d ≤ m / suc d
div_mono n m d h = le-div m d (n / suc d) (omega (arith, div_bounds n d))

-- Each quotient is taken of its own part, so the parts' floors add up to at most the whole's.
div-add-le : (n m d : ℕ) → n / suc d + m / suc d ≤ (n + m) / suc d
div-add-le n m d =
    le-div (n + m) d (n / suc d + m / suc d) (omega (arith, div_bounds n d, div_bounds m d))

principal_and_reward_pos :
    (s l s' l' p : ℕ)
    → calculate_principal_and_reward (rate_of s l) (rate_of s' l') (pos p)
      ≡ pos (suc s' * (suc l * p / suc s) / suc l')
unfolding calculate_principal_and_reward
principal_and_reward_pos s l s' l' p =
    rw (lst_amount_pos s l p) (stake_amount_pos s' l' (suc l * p / suc s))

-- x / y is at most x' / y' as fractions, so the floors of their multiples are ordered too.
scaled_div_mono :
    (s1 l1 s2 l2 t : ℕ)
    → suc s1 * suc l2 ≤ suc s2 * suc l1
    → suc s1 * t / suc l1 ≤ suc s2 * t / suc l2
scaled_div_mono s1 l1 s2 l2 t h =
    let q : ℕ = suc s1 * t / suc l1 in
    le-div (suc s2 * t) l2 q (
      mul_cancel l1 (suc l2 * q) (suc s2 * t) (
        omega (
          arith,
          mul_mono l2 (suc l1 * q) (suc s1 * t) (div_bounds (suc s1 * t) l1).0,
          mul_mono_left t (suc s1 * suc l2) (suc s2 * suc l1) h,
        )))

-- The better the last rate (stake per token), the more a token is worth: a pool that earned
-- reward never pays out less than one that earned less.
reward_monotone :
    (s l s1 l1 s2 l2 p : ℕ)
    → suc s1 * suc l2 ≤ suc s2 * suc l1
    → calculate_principal_and_reward (rate_of s l) (rate_of s1 l1) (pos p)
      ≤ℤ calculate_principal_and_reward (rate_of s l) (rate_of s2 l2) (pos p)
reward_monotone s l s1 l1 s2 l2 p h =
    rw (principal_and_reward_pos s l s1 l1 p, principal_and_reward_pos s l s2 l2 p)
      (omega (arith, scaled_div_mono s1 l1 s2 l2 (suc l * p / suc s) h))

-- A rate whose two amounts are not negative.
abbrev pub natural_rate : ℕ → ℕ → Rate
natural_rate s l = record { stake_amount = pos s; lst_amount = pos l }

-- What both conversions do with numbers: p times n / d, but p where one of the two is zero.
convert : ℕ → ℕ → ℕ → ℕ
convert zero d p = p
convert (suc n) zero p = p
convert (suc n) (suc d) p = suc n * p / suc d

lst_amount_convert :
    (s l p : ℕ) → calculate_lst_amount (natural_rate s l) (pos p) ≡ pos (convert l s p)
unfolding calculate_lst_amount convert
lst_amount_convert zero zero p = refl
lst_amount_convert zero (suc l) p = refl
lst_amount_convert (suc s) zero p = ground arith
lst_amount_convert (suc s) (suc l) p = lst_amount_pos s l p

stake_amount_convert :
    (s l p : ℕ) → calculate_stake_amount (natural_rate s l) (pos p) ≡ pos (convert s l p)
unfolding calculate_stake_amount convert
stake_amount_convert zero zero p = refl
stake_amount_convert zero (suc l) p = refl
stake_amount_convert (suc s) zero p = ground arith
stake_amount_convert (suc s) (suc l) p = stake_amount_pos s l p

convert-add : (n d p q : ℕ) → convert n d p + convert n d q ≤ convert n d (p + q)
unfolding convert
convert-add zero d p q = omega arith
convert-add (suc n) zero p q = omega arith
convert-add (suc n) (suc d) p q =
    omega
      (arith, div-add-le (suc n * p) (suc n * q) d, ap (λ (m : ℕ). m / suc d) (mul_add (suc n) p q))

convert_mono : (n d p q : ℕ) → p ≤ q → convert n d p ≤ convert n d q
unfolding convert
convert_mono zero d p q h = h
convert_mono (suc n) zero p q h = h
convert_mono (suc n) (suc d) p q h = div_mono (suc n * p) (suc n * q) d (mul_mono n p q h)

principal_and_reward_convert :
    (s l s' l' p : ℕ)
    → calculate_principal_and_reward (natural_rate s l) (natural_rate s' l') (pos p)
      ≡ pos (convert s' l' (convert l s p))
unfolding calculate_principal_and_reward
principal_and_reward_convert s l s' l' p =
    rw (lst_amount_convert s l p) (stake_amount_convert s' l' (convert l s p))

-- At rates whose amounts are not negative, zero included, splitting a principal that is not negative
-- into two tokens never gains: together they are worth at most what one token with the whole principal
-- is worth.
pub reward_superadditive :
    (s l s' l' p q : ℕ)
    → calculate_principal_and_reward (natural_rate s l) (natural_rate s' l') (pos p)
        +ℤ calculate_principal_and_reward (natural_rate s l) (natural_rate s' l') (pos q)
      ≤ℤ calculate_principal_and_reward (natural_rate s l) (natural_rate s' l') (pos (p + q))
reward_superadditive s l s' l' p q =
    let a : ℕ = convert l s p in
    let b : ℕ = convert l s q in
    rw
      (
        principal_and_reward_convert s l s' l' p,
        principal_and_reward_convert s l s' l' q,
        principal_and_reward_convert s l s' l' (p + q),
      )
      (omega (
        int_laws,
        convert-add s' l' a b,
        convert_mono s' l' (a + b) (convert l s (p + q)) (convert-add l s p q),
      ))
