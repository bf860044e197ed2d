-- ===== src/Ledger/World/AccessSteps.antt =====
-- What the journal takes back of the operations on the access list.
use axiom_lib.Common.{
  ℕ, none, some, [], ◌∷◌, ◌≡◌, refl, sym, ◌∙◌, subst, Bool-cases, Option-cases, inl, inr,
}
use axiom_lib.Common.Maps.{update, update_same}
use axiom_lib.Ledger.Types.{
  access_list_add_account_change, access_list_add_slot_change, StateLedger, Backend, IsLawful,
}
use axiom_lib.Ledger.Access.{add_address, add_slot, add_slot_map, set_slot_map, has_slot}
use axiom_lib.Ledger.Access.Laws.{
  update-IsAccess, add_slot_map-IsAccess, set_slot_map-IsAccess, delete_address-update,
  delete_slot-add_slot_map, delete_slot-set_slot_map,
}
use axiom_lib.Ledger.Journal.{append}
use axiom_lib.Ledger.Operations.{add_address_to_access_list, add_slot_to_access_list}
use axiom_lib.Ledger.World.{view, undo_all}
use axiom_lib.Ledger.World.Coded.{from_some}
use axiom_lib.Ledger.World.Restore.{IsWell, IsKept}
use axiom_lib.Ledger.World.Steps.{IsKept-refl, plain-IsKept}

module _ (b : Backend) (v : IsLawful b) where
  pub add_address-IsKept :
      (a : ℕ) (l : StateLedger) → IsWell b l → IsKept b l (add_address_to_access_list a l)
  unfolding add_address_to_access_list add_address append view
  add_address-IsKept a l w = elim (Option-cases (l.access_list.addresses a)) [
    | inr (y, q) ↦ rw (add_address_to_access_list, add_address, q) (IsKept-refl b v l w)
    | inl q ↦
        rw (add_address_to_access_list, add_address, q)
          (plain-IsKept b v l
            (append (access_list_add_account_change a) (record l {
              access_list = record l.access_list {
                addresses = update l.access_list.addresses a (some none);
              };
            }))
            (access_list_add_account_change a ∷ []) refl refl refl refl
            (rw (delete_address-update a (some none) l.access_list q) refl)
            (update-IsAccess a l.access_list w.access) w.log_bound w)
  ]

  pub add_slot-IsKept :
      (a s : ℕ) (l l' : StateLedger)
      → add_slot_to_access_list a s l ≡ some l'
      → IsWell b l
      → IsKept b l l'
  unfolding append view add_slot_to_access_list add_slot
  add_slot-IsKept a s l l' e w = elim (Option-cases (l.access_list.addresses a)) [
    | inl q ↦
        subst (IsKept b l) (from_some (sym (rw (add_slot_to_access_list, add_slot, q) refl) ∙ e)) (
          plain-IsKept b v l
            (append (access_list_add_slot_change a s) (
              append (access_list_add_account_change a)
                (record l { access_list = add_slot_map a s l.access_list })))
            (access_list_add_slot_change a s ∷ access_list_add_account_change a ∷ []) refl refl refl
            refl
            (rw
              (
                undo_all,
                delete_slot-add_slot_map a s l.access_list,
                delete_address-update a (some none) l.access_list q,
              )
              refl)
            (add_slot_map-IsAccess a s l.access_list w.access) w.log_bound w)
    | inr (none, q) ↦
        subst (IsKept b l) (from_some (sym (rw (add_slot_to_access_list, add_slot, q) refl) ∙ e)) (
          plain-IsKept b v l
            (append (access_list_add_slot_change a s)
              (record l { access_list = add_slot_map a s l.access_list }))
            (access_list_add_slot_change a s ∷ []) refl refl refl refl
            (rw
              (
                undo_all,
                delete_slot-add_slot_map a s l.access_list,
                update_same l.access_list.addresses a (some none) q,
              )
              refl)
            (add_slot_map-IsAccess a s l.access_list w.access) w.log_bound w)
    | inr (some i, q) ↦
        let (y, m, k) = w.access.indexed a i q in
        elim (Bool-cases (has_slot s (y ∷ m))) [
          | inl t ↦
              subst (IsKept b l)
                (from_some (sym (rw (add_slot_to_access_list, add_slot, q, k, t) refl) ∙ e))
                (IsKept-refl b v l w)
          | inr t ↦
              subst (IsKept b l)
                (from_some (sym (rw (add_slot_to_access_list, add_slot, q, k, t) refl) ∙ e))
                (plain-IsKept b v l
                  (append (access_list_add_slot_change a s) (record l {
                    access_list = record l.access_list {
                      slots = set_slot_map i (s ∷ y ∷ m) l.access_list.slots;
                    };
                  }))
                  (access_list_add_slot_change a s ∷ []) refl refl refl refl
                  (rw (undo_all, delete_slot-set_slot_map a s i y m l.access_list q k) refl)
                  (set_slot_map-IsAccess i s y m l.access_list w.access k) w.log_bound w)
        ]
  ]
