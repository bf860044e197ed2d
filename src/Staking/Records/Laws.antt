-- ===== src/Staking/Records/Laws.antt =====
-- Moving the unlocking records that are due loses nothing and leaves none behind.
use axiom_lib.Common.{
  ℕ, ◌<◌, ◌≡◌, refl, ap, sym, ◌∙◌, List, [], ◌∷◌, arith, leb, All, Bool-cases, inl, inr,
}
use axiom_lib.Common.Int.{ℤ, ◌+ℤ◌, int_laws}
use axiom_lib.Staking.Types.{UnlockingRecord, LstInfo}
use axiom_lib.Staking.Records.{move_due, update_unlocking_records, records_total, holdings}

add_assoc : (a b c : ℤ) → a +ℤ b +ℤ c ≡ a +ℤ (b +ℤ c)
add_assoc a b c = omega int_laws

add_left_comm : (a b c : ℤ) → a +ℤ (b +ℤ c) ≡ b +ℤ (a +ℤ c)
add_left_comm a b c = omega int_laws

move_due-total :
    (t : ℕ) (u : ℤ) (records : List UnlockingRecord)
    → let (u', remain) = move_due t u records in
      u' +ℤ records_total remain ≡ u +ℤ records_total records
unfolding move_due records_total
move_due-total t u [] = refl
move_due-total t u (r ∷ records) = elim (Bool-cases (leb r.unlock_timestamp t)) [
  | inl due ↦
      rw due
        (move_due-total t (u +ℤ r.amount) records ∙ add_assoc u r.amount (records_total records))
  | inr later ↦ rw later (
      add_left_comm _ r.amount _
      ∙ ap (◌+ℤ◌ r.amount) (move_due-total t u records)
      ∙ add_left_comm r.amount u _)
]

move_due-All :
    (t : ℕ) (u : ℤ) (records : List UnlockingRecord)
    → All (λ r. t < r.unlock_timestamp) (move_due t u records).1
unfolding move_due
move_due-All t u [] = tt
move_due-All t u (r ∷ records) = elim (Bool-cases (leb r.unlock_timestamp t)) [
  | inl due ↦ rw due (move_due-All t (u +ℤ r.amount) records)
  | inr later ↦ rw later (ground arith, move_due-All t u records)
]

-- What a token holds in all is the same after the records that are due have been moved, every
-- record that stays unlocks later than the block, and principal, pool and epoch do not change.
pub update_unlocking_records_lem :
    (t : ℕ) (info : LstInfo)
    → let info' = update_unlocking_records t info in
      (holdings info' ≡ holdings info)
      × All (λ r. t < r.unlock_timestamp) info'.unlocking_records
      × (info'.principal ≡ info.principal)
      × (info'.active_epoch ≡ info.active_epoch)
      × (info'.pool_id ≡ info.pool_id)
unfolding update_unlocking_records holdings
update_unlocking_records_lem t info = (
  add_assoc _ _ _
      ∙ ap (◌+ℤ◌ info.principal) (move_due-total t info.unlocked info.unlocking_records)
      ∙ sym (add_assoc _ _ _),
  move_due-All t info.unlocked info.unlocking_records,
  refl,
  refl,
  refl,
)
