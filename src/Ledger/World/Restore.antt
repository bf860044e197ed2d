-- ===== src/Ledger/World/Restore.antt =====
-- Every operation of internal/ledger/state_accessor.go appends to the journal what takes the world
-- back to where it was.
use axiom_lib.Common.{
  ℕ, ◌≤◌, ◌<◌, none, some, List, [], ◌∷◌, ◌++◌, ◌≡◌, refl, sym, ap, ◌∙◌, subst, Option-cases, inl,
  inr, arith, All,
}
use mathlib.Core.List.{append_assoc, append-nil}
use axiom_lib.Common.Words.{u64_mod}
use axiom_lib.Common.Maps.{update-update, update_same}
use axiom_lib.Ledger.Types.{
  SimpleAccount, Change, create_object_change, Revision, StateLedger, Backend, IsLawful,
}
use axiom_lib.Ledger.Access.Laws.{IsAccess}
use axiom_lib.Ledger.Journal.{
  append, append_all, put_account, get_or_create_account, created_account, loaded_account,
}
use axiom_lib.Ledger.Operations.{on_account}
use axiom_lib.Ledger.World.{
  AccountView, World, view, view_account, view_found, peek_stored, undo, undo_all, see,
}
use axiom_lib.Ledger.World.Accounts.{
  view-append, view-put_account, view-get_or_create, get_or_create-cases,
}
use axiom_lib.Ledger.World.Methods.{IsUndone, IsCoded, rev_onto}
use axiom_lib.Ledger.World.Coded.{AreCoded, on_account-AreCoded, get_or_create-AreCoded, from_some}

abbrev pub IdBelow : ℕ → Revision → Type 0
IdBelow n r = r.id < n

-- What holds of every ledger that the operations build up.
pub record IsWell (b : Backend) (l : StateLedger) : Type 0 where
  pub coded : AreCoded b l
  pub access : IsAccess l.access_list
  pub log_bound : l.log_size < u64_mod
  pub ids : All (IdBelow l.next_revision_id) l.valid_revisions

-- From `l` on, the journal and the revisions have grown, and undoing what the journal has grown by
-- brings back the world of `l`.
pub record IsKept (b : Backend) (l l' : StateLedger) : Type 0 where
  pub done : List Change
  pub changes_eq : l'.changes ≡ done ++ l.changes
  pub undone : undo_all b done (view b l') ≡ some (view b l)
  pub newer : List Revision
  pub revisions_eq : l'.valid_revisions ≡ l.valid_revisions ++ newer
  pub next_le : l.next_revision_id ≤ l'.next_revision_id
  pub well : IsWell b l'

-- What operations on accounts leave alone.
pub record IsBeside (l l' : StateLedger) : Type 0 where
  pub access_eq : l'.access_list ≡ l.access_list
  pub log_eq : l'.log_size ≡ l.log_size
  pub revisions_eq : l'.valid_revisions ≡ l.valid_revisions
  pub next_eq : l'.next_revision_id ≡ l.next_revision_id

IsBeside-trans : (l m n : StateLedger) → IsBeside l m → IsBeside m n → IsBeside l n
IsBeside-trans l m n f g = record {
  access_eq = g.access_eq ∙ f.access_eq;
  log_eq = g.log_eq ∙ f.log_eq;
  revisions_eq = g.revisions_eq ∙ f.revisions_eq;
  next_eq = g.next_eq ∙ f.next_eq;
}

pub append-IsBeside : (c : Change) (l : StateLedger) → IsBeside l (append c l)
unfolding append
append-IsBeside c l = record {
  access_eq = refl;
  log_eq = refl;
  revisions_eq = refl;
  next_eq = refl;
}

put_account-IsBeside :
    (a : ℕ) (acc : SimpleAccount) (l : StateLedger) → IsBeside l (put_account a acc l)
put_account-IsBeside a acc l = record {
  access_eq = refl;
  log_eq = refl;
  revisions_eq = refl;
  next_eq = refl;
}

append_all-IsBeside : (cs : List Change) (l : StateLedger) → IsBeside l (append_all cs l)
append_all-IsBeside [] l = record {
  access_eq = refl;
  log_eq = refl;
  revisions_eq = refl;
  next_eq = refl;
}
append_all-IsBeside (c ∷ cs) l =
    IsBeside-trans l (append c l) (append_all cs (append c l)) (append-IsBeside c l)
      (append_all-IsBeside cs (append c l))

module _ (b : Backend) where
  pub get_or_create-IsBeside :
      (a : ℕ) (l : StateLedger) → IsBeside l (get_or_create_account b a l).1
  get_or_create-IsBeside a l = elim (get_or_create-cases b a l) [
    | inl (acc, e, q) ↦ rw q (append_all-IsBeside [] l)
    | inr (inl (i, e, s, q)) ↦ rw q (put_account-IsBeside a (loaded_account b a i) l)
    | inr (inr (e, s, q)) ↦ rw q (
        IsBeside-trans l (append (create_object_change a) l)
          (put_account a (created_account b) (append (create_object_change a) l))
          (append-IsBeside (create_object_change a) l)
          (put_account-IsBeside a (created_account b) (append (create_object_change a) l)))
  ]

  on_account-IsBeside :
      (a : ℕ) (f : SimpleAccount → SimpleAccount × List Change) (l : StateLedger)
      → IsBeside l (on_account b a f l)
  unfolding on_account
  on_account-IsBeside a f l =
      let (acc, l') = get_or_create_account b a l in
      IsBeside-trans l l' (append_all (f acc).1 (put_account a (f acc).0 l'))
        (get_or_create-IsBeside a l)
        (IsBeside-trans l' (put_account a (f acc).0 l')
          (append_all (f acc).1 (put_account a (f acc).0 l')) (put_account-IsBeside a (f acc).0 l')
          (append_all-IsBeside (f acc).1 (put_account a (f acc).0 l')))

  -- What is left alone stays well formed.
  pub IsBeside-IsWell :
      (l l' : StateLedger) → IsBeside l l' → AreCoded b l' → IsWell b l → IsWell b l'
  IsBeside-IsWell l l' s h w = record {
    coded = h;
    access = subst IsAccess (sym s.access_eq) w.access;
    log_bound = subst (λ n. n < u64_mod) (sym s.log_eq) w.log_bound;
    ids = rw (s.next_eq, s.revisions_eq) w.ids;
  }

  undo_all-append :
      (cs ds : List Change) (w w' : World)
      → undo_all b cs w ≡ some w'
      → undo_all b (cs ++ ds) w ≡ undo_all b ds w'
  undo_all-append [] ds w w' e = ap (undo_all b ds) (from_some e)
  undo_all-append (c ∷ cs) ds w w' e = elim (Option-cases (undo b c w)) [
    | inl q ↦ ground (arith, q)
    | inr (x, q) ↦ rw (undo_all, q) (undo_all-append cs ds x w' (ground (arith, q, e)))
  ]

  pub IsKept-trans : (l m n : StateLedger) → IsKept b l m → IsKept b m n → IsKept b l n
  IsKept-trans l m n f g = record {
    done = g.done ++ f.done;
    changes_eq =
        g.changes_eq
        ∙ (ap (λ x. g.done ++ x) f.changes_eq ∙ sym (append_assoc g.done f.done l.changes));
    undone = undo_all-append g.done f.done (view b n) (view b m) g.undone ∙ f.undone;
    newer = f.newer ++ g.newer;
    revisions_eq =
        g.revisions_eq
        ∙ (ap (λ x. x ++ g.newer) f.revisions_eq ∙ append_assoc l.valid_revisions f.newer g.newer);
    next_le = omega (arith, f.next_le, g.next_le);
    well = g.well;
  }

  rev_onto-append : (cs ds : List Change) → rev_onto cs ds ≡ rev_onto cs [] ++ ds
  rev_onto-append [] ds = refl
  rev_onto-append (c ∷ cs) ds =
      rev_onto-append cs (c ∷ ds)
      ∙ (sym (append_assoc (rev_onto cs []) (c ∷ []) ds)
          ∙ ap (λ x. x ++ ds) (sym (rev_onto-append cs (c ∷ []))))

  changes-append_all :
      (cs : List Change) (l : StateLedger)
      → StateLedger.changes (append_all cs l) ≡ rev_onto cs l.changes
  unfolding append
  changes-append_all [] l = refl
  changes-append_all (c ∷ cs) l = changes-append_all cs (append c l)

  pub view-append_all : (cs : List Change) (l : StateLedger) → view b (append_all cs l) ≡ view b l
  view-append_all [] l = refl
  view-append_all (c ∷ cs) l = view-append_all cs (append c l) ∙ view-append b c l

  see_same : (a : ℕ) (x : AccountView) (w : World) → w.accounts a ≡ some x → see a x w ≡ w
  see_same a x w e = ap (λ m. record w { accounts = m }) (update_same w.accounts a (some x) e)

  undo_create :
      (a : ℕ) (x : AccountView) (w : World)
      → w.accounts a ≡ none
      → peek_stored b a ≡ none
      → undo b (create_object_change a) (see a x w) ≡ some w
  undo_create a x w e s =
      rw (s, update-update w.accounts a (some x) none, update_same w.accounts a none e) refl

  view-created :
      (l : StateLedger) (a : ℕ)
      → l.accounts a ≡ none
      → World.accounts (view b l) a ≡ view_found b a (peek_stored b a)
  unfolding view
  view-created l a e = rw e refl

  view-cached :
      (l : StateLedger) (a : ℕ) (acc : SimpleAccount)
      → l.accounts a ≡ some acc
      → World.accounts (view b l) a ≡ some (view_account b a acc)
  unfolding view
  view-cached l a acc e = rw e refl

  -- What GetOrCreateAccount appends takes back the account that it creates.
  get_or_create-undone :
      (a : ℕ) (l : StateLedger)
      → (cs : List Change) × (StateLedger.changes (get_or_create_account b a l).1 ≡ cs ++ l.changes)
        × (undo_all b cs (see a (view_account b a (get_or_create_account b a l).0) (view b l))
            ≡ some (view b l))
  unfolding append
  get_or_create-undone a l = elim (get_or_create-cases b a l) [
    | inl (acc, e, q) ↦
        rw q
          ([], refl, ap some (see_same a (view_account b a acc) (view b l) (view-cached l a acc e)))
    | inr (inl (i, e, s, q)) ↦ rw q (
      [],
      refl,
      ap some (
          see_same a (view_account b a (loaded_account b a i)) (view b l)
            (view-created l a e ∙ ground (arith, s))),
    )
    | inr (inr (e, s, q)) ↦ rw q (
      create_object_change a ∷ [],
      refl,
      rw
          (
            undo_all,
            undo_create a (view_account b a (created_account b)) (view b l)
                (view-created l a e ∙ ground (arith, s)) (ground (arith, s)),
          )
          refl,
    )
  ]

  -- A method whose changes are undone is undone in the ledger.
  pub on_account-IsKept :
      (a : ℕ) (f : SimpleAccount → SimpleAccount × List Change) (l : StateLedger)
      → ((acc : SimpleAccount) → IsCoded b a acc → IsUndone b a acc (f acc))
      → ((acc : SimpleAccount) → IsCoded b a acc → IsCoded b a (f acc).0)
      → IsLawful b
      → IsWell b l
      → IsKept b l (on_account b a f l)
  unfolding on_account
  on_account-IsKept a f l hu hc v w =
      let (cs, changed, created) = get_or_create-undone a l in
      let (h0, h1) = get_or_create-AreCoded b v a l w.coded in
      let s = on_account-IsBeside a f l in
      let (acc, l') = get_or_create_account b a l in
      let m = put_account a (f acc).0 l' in
      let ds = rev_onto (f acc).1 [] in
      record {
        done = ds ++ cs;
        changes_eq =
            changes-append_all (f acc).1 m
            ∙ (rev_onto-append (f acc).1 l'.changes
                ∙ (ap (λ x. ds ++ x) changed ∙ sym (append_assoc ds cs l.changes)));
        undone =
            ap (undo_all b (ds ++ cs)) (
              view-append_all (f acc).1 m
              ∙ (view-get_or_create b a l (f acc).0 ∙ view-put_account b a (f acc).0 l))
            ∙ (undo_all-append ds cs (see a (view_account b a (f acc).0) (view b l))
                  (see a (view_account b a acc) (view b l)) (hu acc h0 (view b l))
                ∙ created);
        newer = [];
        revisions_eq = s.revisions_eq ∙ sym (append-nil l.valid_revisions);
        next_le = omega (arith, s.next_eq);
        well =
            IsBeside-IsWell l (on_account b a f l) s (on_account-AreCoded b v a f l hc w.coded) w;
      }
