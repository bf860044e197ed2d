-- ===== src/Ledger/Access.antt =====
-- AccessList of internal/ledger/access_list.go. Where Go would panic, on an index out of range or
-- in DeleteSlot on a missing address, the result is `none`.
pub mod Laws
use axiom_lib.Common.{
  ℕ, zero, suc, Bool, true, false, Option, none, some, List, [], ◌∷◌, ◌++◌, ◌==◌, if◌then◌else◌,
  length, take,
}
use axiom_lib.Common.Maps.{update}
use axiom_lib.Ledger.Types.{AccessList}

-- `slots[idx]`
abbrev pub slot_map : ℕ → List (List ℕ) → Option (List ℕ)
slot_map i [] = none
slot_map zero (m ∷ ms) = some m
slot_map (suc i) (m ∷ ms) = slot_map i ms

-- Overwrites the set at an index.
abbrev pub set_slot_map : ℕ → List ℕ → List (List ℕ) → List (List ℕ)
set_slot_map i m [] = []
set_slot_map zero m (_ ∷ ms) = m ∷ ms
set_slot_map (suc i) m (m' ∷ ms) = m' ∷ set_slot_map i m ms

abbrev pub has_slot : ℕ → List ℕ → Bool
has_slot s [] = false
has_slot s (x ∷ xs) = if x == s then true else has_slot s xs

-- `delete(slotmap, slot)`
abbrev pub remove_slot : ℕ → List ℕ → List ℕ
remove_slot s [] = []
remove_slot s (x ∷ xs) = if x == s then xs else x ∷ remove_slot s xs

abbrev pub new_access_list : AccessList
new_access_list = record { addresses = λ _. none; slots = [] }

-- ContainsAddress
abbrev pub contains_address : ℕ → AccessList → Bool
contains_address a al = elim (al.addresses a) [ none ↦ false | some _ ↦ true ]

-- Contains
unfoldable pub contains : ℕ → ℕ → AccessList → Option (Bool × Bool)
contains a s al = elim (al.addresses a) [
  | none ↦ some (false, false)
  | some none ↦ some (true, false)
  | some (some i) ↦ elim (slot_map i al.slots) [ none ↦ none | some m ↦ some (true, has_slot s m) ]
]

-- AddAddress, with whether the list changed
unfoldable pub add_address : ℕ → AccessList → Bool × AccessList
add_address a al = elim (al.addresses a) [
  | some _ ↦ (false, al)
  | none ↦ (true, record al { addresses = update al.addresses a (some none) })
]

-- The address gets a set of its own, at the end.
abbrev pub add_slot_map : ℕ → ℕ → AccessList → AccessList
add_slot_map a s al = record {
  addresses = update al.addresses a (some (some (length al.slots)));
  slots = al.slots ++ (s ∷ []) ∷ [];
}

-- AddSlot, with whether the address and the slot are new
unfoldable pub add_slot : ℕ → ℕ → AccessList → Option ((Bool × Bool) × AccessList)
add_slot a s al = elim (al.addresses a) [
  | none ↦ some ((true, true), add_slot_map a s al)
  | some none ↦ some ((false, true), add_slot_map a s al)
  | some (some i) ↦ elim (slot_map i al.slots) [
    | none ↦ none
    | some m ↦
        (if has_slot s m
          then some ((false, false), al)
          else some ((false, true), record al { slots = set_slot_map i (s ∷ m) al.slots }))
  ]
]

-- What DeleteSlot stores after the slot is taken out of the set at index `i`.
abbrev pub put_slot_map : ℕ → ℕ → List ℕ → AccessList → AccessList
put_slot_map a i [] al = record al {
  addresses = update al.addresses a (some none);
  slots = take i al.slots;
}
put_slot_map a i (x ∷ xs) al = record al { slots = set_slot_map i (x ∷ xs) al.slots }

-- DeleteSlot; at the index -1 it would read `slots[-1]`.
unfoldable pub delete_slot : ℕ → ℕ → AccessList → Option AccessList
delete_slot a s al = elim (al.addresses a) [
  | none ↦ none
  | some none ↦ none
  | some (some i) ↦ elim (slot_map i al.slots) [
    | none ↦ none
    | some m ↦ some (put_slot_map a i (remove_slot s m) al)
  ]
]

-- DeleteAddress
abbrev pub delete_address : ℕ → AccessList → AccessList
delete_address a al = record al { addresses = update al.addresses a none }
