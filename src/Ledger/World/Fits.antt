-- ===== src/Ledger/World/Fits.antt =====
-- Where no operation slices a code that is too short, and the map of the transient storage is made: what
-- the panics of internal/ledger/account.go and internal/ledger/transient_storage.go ask of the world.
use axiom_lib.Common.{
  ℕ, Bool, true, false, Option, none, some, List, ◌≡◌, refl, sym, ◌∙◌, subst, Bool-cases,
  Option-cases, inl, inr, arith,
}
use axiom_lib.Common.Int.{ℤ, is_zero}
use axiom_lib.Common.Maps.{update-some-cases}
use axiom_lib.Ledger.Types.{Bytes, SimpleAccount, Change, StateLedger, Backend, IsLawful}
use axiom_lib.Ledger.Account.{
  code_hash, code_panics, is_empty, is_empty_panics, set_state, set_nonce, set_balance, sub_balance,
  add_balance, set_code_and_hash,
}
use axiom_lib.Ledger.Journal.{put_account, get_or_create_account}
use axiom_lib.Ledger.Operations.{on_account, unless_panics, sub_if_not_empty, destruct_account}
use axiom_lib.Ledger.World.{AccountView, World, view, view_account, see}
use axiom_lib.Ledger.World.Accounts.{
  view-put_account, view-get_or_create, view_account-get_or_create,
}
use axiom_lib.Ledger.World.Methods.{IsCoded, code-IsCoded, is_empty-IsCoded, get_state-cases}
use axiom_lib.Ledger.World.Coded.{AreCoded, get_or_create-AreCoded}
use axiom_lib.Ledger.World.Restore.{view-append_all}

-- A code that Code can log.
abbrev pub IsSliceable : Backend → Option Bytes → Type 0
IsSliceable b none = Unit
IsSliceable b (some c) = b.has_four c ≡ true

abbrev pub IsFitAccount : Backend → AccountView → Type 0
IsFitAccount b x = IsSliceable b x.code × IsSliceable b x.origin_code

pub record IsFit (b : Backend) (w : World) : Type 0 where
  pub codes : (a : ℕ) (x : AccountView) → w.accounts a ≡ some x → IsFitAccount b x
  pub made : (t : ℕ → ℕ → ℕ) × (w.transient ≡ some t)

module _ (b : Backend) (v : IsLawful b) where
  code_panics-IsFitAccount :
      (a : ℕ) (acc : SimpleAccount)
      → IsCoded b a acc
      → IsFitAccount b (view_account b a acc)
      → code_panics b a acc ≡ false
  unfolding code_panics
  code_panics-IsFitAccount a acc h (f, _) = elim (Option-cases acc.dirty_code) [
    | inr (c, e) ↦ ground (arith, f, e)
    | inl e ↦ elim (Option-cases acc.origin_code) [
      | inr (c, e') ↦ ground (arith, f, e, e')
      | inl e' ↦ elim (Option-cases (code_hash acc)) [
        | inl n ↦ ground arith
        | inr (k, n) ↦ ground (arith, h (rw (e, e') refl) k n)
      ]
    ]
  ]

  is_empty_panics-IsFitAccount :
      (a : ℕ) (acc : SimpleAccount)
      → IsCoded b a acc
      → IsFitAccount b (view_account b a acc)
      → is_empty_panics b a acc ≡ false
  unfolding is_empty_panics
  is_empty_panics-IsFitAccount a acc h f = ground (arith, code_panics-IsFitAccount a acc h f)

  -- The account that an operation works on.
  found-IsFitAccount :
      (a : ℕ) (l : StateLedger)
      → IsFit b (view b l)
      → IsFitAccount b (view_account b a (get_or_create_account b a l).0)
  found-IsFitAccount a l f =
      subst (IsFitAccount b) (sym (view_account-get_or_create b a l))
        (elim (Option-cases (World.accounts (view b l) a)) [
          | inl e ↦ rw e (tt, tt)
          | inr (x, e) ↦ rw e (f.codes a x e)
        ])

  see-IsFit :
      (a : ℕ) (x : AccountView) (w : World) → IsFitAccount b x → IsFit b w → IsFit b (see a x w)
  see-IsFit a x w h f = record {
    codes = λ j y e. elim (update-some-cases w.accounts a j x y e) [
      | inl (_, q) ↦ subst (IsFitAccount b) q h
      | inr q ↦ f.codes j y q
    ];
    made = f.made;
  }

  -- A method that keeps the code of an account sliceable.
  abbrev pub KeepsFit : ℕ → (SimpleAccount → SimpleAccount × List Change) → Type 0
  KeepsFit a f =
      (acc : SimpleAccount)
      → IsCoded b a acc
      → IsFitAccount b (view_account b a acc)
      → IsFitAccount b (view_account b a (f acc).0)

  pub on_account-IsFit :
      (a : ℕ) (f : SimpleAccount → SimpleAccount × List Change) (l : StateLedger)
      → KeepsFit a f
      → AreCoded b l
      → IsFit b (view b l)
      → IsFit b (view b (on_account b a f l))
  unfolding on_account
  on_account-IsFit a f l hf c h =
      let (h0, _) = get_or_create-AreCoded b v a l c in
      let (acc, l') = get_or_create_account b a l in
      let m = put_account a (f acc).0 l' in
      subst (IsFit b)
        (sym (
          view-append_all b (f acc).1 m
          ∙ (view-get_or_create b a l (f acc).0 ∙ view-put_account b a (f acc).0 l)))
        (see-IsFit a (view_account b a (f acc).0) (view b l) (hf acc h0 (found-IsFitAccount a l h))
          h)

  pub set_balance-KeepsFit : (a : ℕ) (x : ℤ) → KeepsFit a (set_balance b a x)
  unfolding set_balance
  set_balance-KeepsFit a x acc c h = h

  pub set_nonce-KeepsFit : (a n : ℕ) → KeepsFit a (set_nonce b a n)
  unfolding set_nonce
  set_nonce-KeepsFit a n acc c h = h

  pub add_balance-KeepsFit : (a : ℕ) (x : ℤ) → KeepsFit a (add_balance b a x)
  unfolding add_balance set_balance
  add_balance-KeepsFit a x acc c h = elim (Bool-cases (is_zero x)) [
    | inl e ↦ rw e h
    | inr e ↦ rw e h
  ]

  sub_balance-KeepsFit : (a : ℕ) (x : ℤ) → KeepsFit a (sub_balance b a x)
  unfolding sub_balance set_balance
  sub_balance-KeepsFit a x acc c h = elim (Bool-cases (is_zero x)) [
    | inl e ↦ rw e h
    | inr e ↦ rw e h
  ]

  pub sub_if_not_empty-KeepsFit : (a : ℕ) (x : ℤ) → KeepsFit a (sub_if_not_empty b a x)
  sub_if_not_empty-KeepsFit a x acc c h = elim (Bool-cases (is_empty b a acc).0) [
    | inl e ↦ rw (e, is_empty-IsCoded b v a acc c) h
    | inr e ↦ rw (e, is_empty-IsCoded b v a acc c) (sub_balance-KeepsFit a x acc c h)
  ]

  pub destruct_account-KeepsFit : (a : ℕ) → KeepsFit a (destruct_account b a)
  unfolding set_balance
  destruct_account-KeepsFit a acc c h = h

  pub set_state-KeepsFit : (a key : ℕ) (x : Option ℕ) → KeepsFit a (set_state b a key x)
  unfolding set_state
  set_state-KeepsFit a key x acc c h = elim (get_state-cases b v a key acc) [
    | inl e ↦ rw e h
    | inr (p, o, e) ↦ rw e h
  ]

  pub set_code-KeepsFit :
      (a : ℕ) (c : Option Bytes) → IsSliceable b c → KeepsFit a (set_code_and_hash b a c)
  unfolding set_code_and_hash
  set_code-KeepsFit a none s acc c h = rw (code-IsCoded b v a acc c) (h.1, h.1)
  set_code-KeepsFit a (some x) s acc c h = rw (code-IsCoded b v a acc c) (s, h.1)

  -- An operation on an account that can be asked for its code does not panic.
  unless_panics-total :
      (p : SimpleAccount → Bool) (a : ℕ) (f : StateLedger → StateLedger) (l : StateLedger)
      → p (get_or_create_account b a l).0 ≡ false
      → (l' : StateLedger) × (unless_panics b p a f l ≡ some l')
  unless_panics-total p a f l e = (f l, rw e refl)

  pub code-total :
      (a : ℕ) (f : StateLedger → StateLedger) (l : StateLedger)
      → AreCoded b l
      → IsFit b (view b l)
      → (l' : StateLedger) × (unless_panics b (code_panics b a) a f l ≡ some l')
  code-total a f l c h = unless_panics-total (code_panics b a) a f l (
      code_panics-IsFitAccount a (get_or_create_account b a l).0
        (get_or_create-AreCoded b v a l c).0 (found-IsFitAccount a l h))

  pub is_empty-total :
      (a : ℕ) (f : StateLedger → StateLedger) (l : StateLedger)
      → AreCoded b l
      → IsFit b (view b l)
      → (l' : StateLedger) × (unless_panics b (is_empty_panics b a) a f l ≡ some l')
  is_empty-total a f l c h = unless_panics-total (is_empty_panics b a) a f l (
      is_empty_panics-IsFitAccount a (get_or_create_account b a l).0
        (get_or_create-AreCoded b v a l c).0 (found-IsFitAccount a l h))

  -- Operations that change neither accounts nor the transient storage
  pub same-IsFit :
      (l l' : StateLedger)
      → l'.accounts ≡ l.accounts
      → l'.transient_storage ≡ l.transient_storage
      → IsFit b (view b l)
      → IsFit b (view b l')
  unfolding view
  same-IsFit l l' e t f = record { codes = rw e f.codes; made = rw t f.made }
