-- ===== src/Ledger/Access/Laws.antt =====
-- The access list of internal/ledger/access_list.go: deleting what was added last restores it.
use axiom_lib.Common.{
  ℕ, zero, suc, Option, none, some, List, [], ◌∷◌, ◌++◌, ◌==◌, ◌≡◌, refl, ap, ◌∙◌, length, take,
  Bool-cases, inl, inr, arith, ==_self, ==_iff, subst,
}
use mathlib.Core.Logic.{◌≢◌}
use mathlib.Core.Option.{some_inj}
use axiom_lib.Common.Maps.{update, update-update, update_same, update-some-cases}
use axiom_lib.Ledger.Types.{AccessList}
use axiom_lib.Ledger.Access.{slot_map, set_slot_map, add_slot_map, delete_slot, delete_address}

-- Every index leads to a set with a slot in it.
pub record IsAccess (al : AccessList) : Type 0 where
  pub indexed :
      (a i : ℕ)
      → al.addresses a ≡ some (some i)
      → (s : ℕ) × (m : List ℕ) × (slot_map i al.slots ≡ some (s ∷ m))

slot_map-append : (ms : List (List ℕ)) (m : List ℕ) → slot_map (length ms) (ms ++ m ∷ []) ≡ some m
slot_map-append [] m = refl
slot_map-append (x ∷ ms) m = slot_map-append ms m

take-append : (ms ns : List (List ℕ)) → take (length ms) (ms ++ ns) ≡ ms
take-append [] ns = refl
take-append (x ∷ ms) ns = ap (λ y. x ∷ y) (take-append ms ns)

slot_map-kept :
    (i : ℕ) (ms ns : List (List ℕ)) (m : List ℕ)
    → slot_map i ms ≡ some m
    → slot_map i (ms ++ ns) ≡ some m
slot_map-kept i [] ns m h = ground arith
slot_map-kept zero (x ∷ ms) ns m h = h
slot_map-kept (suc i) (x ∷ ms) ns m h = slot_map-kept i ms ns m h

slot_map-set :
    (i : ℕ) (ms : List (List ℕ)) (m m' : List ℕ)
    → slot_map i ms ≡ some m
    → slot_map i (set_slot_map i m' ms) ≡ some m'
slot_map-set i [] m m' h = ground arith
slot_map-set zero (x ∷ ms) m m' h = refl
slot_map-set (suc i) (x ∷ ms) m m' h = slot_map-set i ms m m' h

-- A set that is changed and put back.
set_slot_map-back :
    (i : ℕ) (ms : List (List ℕ)) (m m' : List ℕ)
    → slot_map i ms ≡ some m
    → set_slot_map i m (set_slot_map i m' ms) ≡ ms
set_slot_map-back i [] m m' h = refl
set_slot_map-back zero (x ∷ ms) m m' h = ground arith
set_slot_map-back (suc i) (x ∷ ms) m m' h = ap (λ y. x ∷ y) (set_slot_map-back i ms m m' h)

-- Deleting the slot of an address whose set is new leaves the address without slots.
pub delete_slot-add_slot_map :
    (a s : ℕ) (al : AccessList)
    → delete_slot a s (add_slot_map a s al)
      ≡ some (record al { addresses = update al.addresses a (some none) })
unfolding delete_slot
delete_slot-add_slot_map a s al =
    rw
      (
        delete_slot,
        ==_self a,
        slot_map-append al.slots (s ∷ []),
        ==_self s,
        update-update al.addresses a (some (some (length al.slots))) (some none),
        take-append al.slots ((s ∷ []) ∷ []),
      )
      refl

-- Deleting a slot that was added to a set.
pub delete_slot-set_slot_map :
    (a s i x : ℕ) (m : List ℕ) (al : AccessList)
    → al.addresses a ≡ some (some i)
    → slot_map i al.slots ≡ some (x ∷ m)
    → delete_slot a s (record al { slots = set_slot_map i (s ∷ x ∷ m) al.slots }) ≡ some al
unfolding delete_slot
delete_slot-set_slot_map a s i x m al h k =
    rw
      (
        h,
        slot_map-set i al.slots (x ∷ m) (s ∷ x ∷ m) k,
        ==_self s,
        set_slot_map-back i al.slots (x ∷ m) (s ∷ x ∷ m) k,
      )
      refl

-- Taking an address out that was not in.
pub delete_address-update :
    (a : ℕ) (x : Option (Option ℕ)) (al : AccessList)
    → al.addresses a ≡ none
    → delete_address a (record al { addresses = update al.addresses a x }) ≡ al
delete_address-update a x al h =
    rw (update-update al.addresses a x none, update_same al.addresses a none h) refl

slot_map-set_other :
    (i j : ℕ) (ms : List (List ℕ)) (m : List ℕ)
    → ◌≢◌ i j
    → slot_map j (set_slot_map i m ms) ≡ slot_map j ms
slot_map-set_other i j [] m h = refl
slot_map-set_other zero zero (x ∷ ms) m h = ground (arith, h)
slot_map-set_other zero (suc j) (x ∷ ms) m h = refl
slot_map-set_other (suc i) zero (x ∷ ms) m h = refl
slot_map-set_other (suc i) (suc j) (x ∷ ms) m h = slot_map-set_other i j ms m (λ e. h (ap suc e))

-- An address without slots does not disturb the indexes.
pub update-IsAccess :
    (a : ℕ) (al : AccessList)
    → IsAccess al
    → IsAccess (record al { addresses = update al.addresses a (some none) })
update-IsAccess a al v = record {
  indexed = λ j i e. v.indexed j i (some_none-cases al.addresses a j i e);
}
  where
    some_none-cases :
        (m : ℕ → Option (Option ℕ)) (a j i : ℕ)
        → update m a (some none) j ≡ some (some i)
        → m j ≡ some (some i)
    some_none-cases m a j i e = ground arith

pub add_slot_map-IsAccess :
    (a s : ℕ) (al : AccessList) → IsAccess al → IsAccess (add_slot_map a s al)
add_slot_map-IsAccess a s al v = record {
  indexed = λ j i e. elim (update-some-cases al.addresses a j (some (length al.slots)) (some i) e) [
    | inl (p, q) ↦ (
      s,
      [],
      subst (λ k. slot_map k (add_slot_map a s al).slots ≡ some (s ∷ [])) (some_inj.0 q)
          (slot_map-append al.slots (s ∷ [])),
    )
    | inr q ↦
        let (x, m, k) = v.indexed j i q in
        (x, m, slot_map-kept i al.slots ((s ∷ []) ∷ []) (x ∷ m) k)
  ];
}

pub set_slot_map-IsAccess :
    (i s x : ℕ) (m : List ℕ) (al : AccessList)
    → IsAccess al
    → slot_map i al.slots ≡ some (x ∷ m)
    → IsAccess (record al { slots = set_slot_map i (s ∷ x ∷ m) al.slots })
set_slot_map-IsAccess i s x m al v k = record {
  indexed = λ a j e.
      let (y, n, q) = v.indexed a j e in
      elim (Bool-cases (i == j)) [
        | inl p ↦ (
          s,
          x ∷ m,
          subst (λ o. slot_map o (set_slot_map i (s ∷ x ∷ m) al.slots) ≡ some (s ∷ x ∷ m))
              ((==_iff i j).0 p) (slot_map-set i al.slots (x ∷ m) (s ∷ x ∷ m) k),
        )
        | inr p ↦
            (y, n, slot_map-set_other i j al.slots (s ∷ x ∷ m) (ground (arith, ==_iff i j)) ∙ q)
      ];
}
