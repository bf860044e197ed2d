-- ===== src/Access/Reach.antt =====
-- The states of the whitelist contract that calls reach from GenesisInit, and who is verified in them
-- (internal/executor/system/access/whitelist.go). The EVM undoes a call that fails.
use axiom_lib.Common.Distinct.{contains}
use axiom_lib.Common.{
  ℕ, Bool, true, false, Option, none, some, List, [], ◌∷◌, ◌++◌, ◌==◌, length, ◌≡◌, ◌⊎◌, ◌↔◌, inl,
  inr, refl, sym, ap, ◌∙◌, subst, arith, Bool-cases, Option-cases, ==_iff,
}
use mathlib.Core.Option.{some_inj}
use axiom_lib.Common.Maps.{update, update_self, update_back, update-some-cases}
use axiom_lib.Common.Action.{Result, ok, bind_ok}
use axiom_lib.Access.Whitelist.{
  AuthUserRole, basic, super, AuthInfo, ProviderInfo, Ctx, Whitelist, Error, is_super, is_some,
  verify, submit, remove, update_provider, update_providers, genesis_init, init_users,
  init_providers, submit_all, submit_info, remove_all, remove_info,
}
use axiom_lib.Access.Providers.{vouches}
use axiom_lib.Access.Invariant.{
  IsInfo, IsWhitelist, IsKept, same-IsKept, IsKept-trans, submit-IsKept, remove-IsKept,
}

-- The calls that change the state; the governance contract makes those of UpdateProviders.
pub data Step : Whitelist → Whitelist → Type 0 where
  submits :
      {s t : Whitelist} (ctx : Ctx) (users : List ℕ) → submit ctx users s ≡ (ok tt, t) → Step s t
  removes :
      {s t : Whitelist} (ctx : Ctx) (users : List ℕ) → remove ctx users s ≡ (ok tt, t) → Step s t
  updates :
      {s t : Whitelist} (is_add : Bool) (ps : List ProviderInfo)
      → update_providers is_add ps s ≡ (ok tt, t)
      → Step s t

-- Some steps.
pub data Steps : Whitelist → Whitelist → Type 0 where
  done : {s : Whitelist} → Steps s s
  next : {s t u : Whitelist} → Steps s t → Step t u → Steps s u

abbrev pub empty : Whitelist
empty = record { auth_infos = λ _. none; provider_infos = λ _. none }

put_provider-IsKept :
    (a : ℕ) (o : Option ProviderInfo) (s : Whitelist)
    → ((p : ProviderInfo) → o ≡ some p → p.addr ≡ a)
    → IsKept s (record s { provider_infos = update s.provider_infos a o })
put_provider-IsKept a o s h = record {
  valid = λ v. record {
    infos = v.infos;
    named = λ b p e. elim (Bool-cases (b == a)) [
      | inl c ↦ h p (ground (arith, e, c)) ∙ sym ((==_iff b a).0 c)
      | inr c ↦ v.named b p (ground (arith, e, c))
    ];
  };
  supers = λ b i e k. e;
}

update_provider-IsKept :
    (is_add : Bool) (p : ProviderInfo) (s t : Whitelist)
    → update_provider is_add p s ≡ (ok tt, t)
    → IsKept s t
update_provider-IsKept true p s t h = subst (IsKept s) (ground arith) (
    put_provider-IsKept p.addr (some p) s
      (λ q e. ap (λ x. ProviderInfo.addr x) (sym (some_inj.0 e))))
update_provider-IsKept false p s t h =
    subst (IsKept s) (ground arith)
      (put_provider-IsKept p.addr none s (λ q e. absurd (ground arith)))

update_providers-IsKept :
    (is_add : Bool) (ps : List ProviderInfo) (s t : Whitelist)
    → update_providers is_add ps s ≡ (ok tt, t)
    → IsKept s t
unfolding update_providers
update_providers-IsKept is_add [] s t h =
    same-IsKept s t (sym (ap (λ (r : Result Error (Unit {0}) × Whitelist). r.1) h))
update_providers-IsKept is_add (p ∷ ps) s t h =
    let (_, u, e, k) =
      bind_ok (update_provider is_add p) (λ _. update_providers is_add ps) s t tt h in
    IsKept-trans s u t (update_provider-IsKept is_add p s u e)
      (update_providers-IsKept is_add ps u t k)

Step-IsKept : (s t : Whitelist) → Step s t → IsKept s t
Step-IsKept s t (submits ctx users h) = submit-IsKept ctx users s t h
Step-IsKept s t (removes ctx users h) = remove-IsKept ctx users s t h
Step-IsKept s t (updates is_add ps h) = update_providers-IsKept is_add ps s t h

Steps-IsKept : (s t : Whitelist) → Steps s t → IsKept s t
Steps-IsKept s t done = same-IsKept s s refl
Steps-IsKept s t (next {t = u} h k) = IsKept-trans s u t (Steps-IsKept s u h) (Step-IsKept u t k)

abbrev super_user : ℕ → AuthInfo
super_user a = record { addr = a; providers = []; role = super }

put_user :
    (x a : ℕ) (users : List ℕ) (m : ℕ → Option AuthInfo)
    → (contains a (x ∷ users) ≡ true) ⊎ (m a ≡ some (super_user a))
    → (contains a users ≡ true) ⊎ (update m x (some (super_user x)) a ≡ some (super_user a))
put_user x a users m h = elim (Bool-cases (a == x)) [
  | inl c ↦ inr (rw c (ap (λ i. some (super_user i)) (sym ((==_iff a x).0 c))))
  | inr c ↦ elim h [
    | inl e ↦ inl (ground (arith, e, ==_iff x a, ==_iff a x, c))
    | inr e ↦ inr (rw c e)
  ]
]

init_users_ok :
    (users : List ℕ) (s : Whitelist)
    → (IsWhitelist s → IsWhitelist (init_users users s))
      × ((a : ℕ)
          → (contains a users ≡ true) ⊎ (s.auth_infos a ≡ some (super_user a))
          → (init_users users s).auth_infos a ≡ some (super_user a))
init_users_ok [] s = (λ v. v, λ a h. elim h [ inl e ↦ absurd (cc) | inr e ↦ e ])
init_users_ok (x ∷ users) s =
    let (v, k) =
      init_users_ok users (record s { auth_infos = update s.auth_infos x (some (super_user x)) }) in
    (
      λ w. v (record {
        infos = λ b i e. elim (update-some-cases s.auth_infos x b (super_user x) i e) [
          | inl (c, d) ↦
              subst (λ j. IsInfo j i) (sym c)
                (subst (IsInfo x) d (record { addr_eq = refl; once = tt; vouched = refl }))
          | inr c ↦ w.infos b i c
        ];
        named = w.named;
      }),
      λ a h. k a (put_user x a users s.auth_infos h),
    )

init_providers_ok :
    (users : List ℕ) (s : Whitelist)
    → (IsWhitelist s → IsWhitelist (init_providers users s))
      × ((init_providers users s).auth_infos ≡ s.auth_infos)
init_providers_ok [] s = (λ v. v, refl)
init_providers_ok (x ∷ users) s =
    let s' : Whitelist = record s {
      provider_infos = update s.provider_infos x (some (record { addr = x }));
    } in
    let (v, e) = init_providers_ok users s' in
    let k =
      put_provider-IsKept x (some (record { addr = x })) s
        (λ p e. ap (λ y. ProviderInfo.addr y) (sym (some_inj.0 e))) in
    (λ w. v (k.valid w), e)

genesis_init-IsWhitelist :
    (admins providers accounts : List ℕ)
    → IsWhitelist (genesis_init admins providers accounts empty)
unfolding genesis_init
genesis_init-IsWhitelist admins providers accounts =
    (init_providers_ok providers (init_users (admins ++ (providers ++ accounts)) empty)).0 (
      (init_users_ok (admins ++ (providers ++ accounts)) empty).0
        (record { infos = λ a i e. absurd (ground arith); named = λ a p e. absurd (ground arith) }))

-- In every state that calls reach from GenesisInit, each info stands under its address and names
-- distinct providers, and none exactly where it is that of a super user.
pub reached-IsWhitelist :
    (admins providers accounts : List ℕ) (s : Whitelist)
    → Steps (genesis_init admins providers accounts empty) s
    → IsWhitelist s
reached-IsWhitelist admins providers accounts s h =
    (Steps-IsKept (genesis_init admins providers accounts empty) s h).valid
      (genesis_init-IsWhitelist admins providers accounts)

-- Whatever the providers call, each council member, provider and account of the genesis configuration
-- stays a super user and stays verified.
pub genesis_users_stay :
    (admins providers accounts : List ℕ) (s : Whitelist) (a : ℕ)
    → Steps (genesis_init admins providers accounts empty) s
    → contains a (admins ++ (providers ++ accounts)) ≡ true
    → (s.auth_infos a ≡ some (super_user a)) × (verify a s ≡ (ok tt, s))
unfolding genesis_init verify
genesis_users_stay admins providers accounts s a h c =
    let users = admins ++ (providers ++ accounts) in
    let g = (init_users_ok users empty).1 a (inl c) in
    let e =
      (Steps-IsKept (genesis_init admins providers accounts empty) s h).supers a (super_user a)
        (ap (λ (m : ℕ → Option AuthInfo). m a)
            (init_providers_ok providers (init_users users empty)).1
          ∙ g)
        refl in
    (e, rw e refl)

some_provider : (xs : List ℕ) → (length xs == 0) ≡ false → (q : ℕ) × (contains q xs ≡ true)
some_provider [] h = absurd (ground arith)
some_provider (x ∷ xs) h = (x, ground (arith, ==_iff x x))

super_role : (r : AuthUserRole) → is_super r ≡ true → r ≡ super
super_role super h = refl
super_role basic h = absurd (cc)

-- The user is a super user.
abbrev pub IsSuper : ℕ → Whitelist → Type 0
IsSuper a s = (i : AuthInfo) × (s.auth_infos a ≡ some i) × (i.role ≡ super)

-- Where the invariant holds, Verify lets a user through exactly where it is a super user or its info
-- lists some account as a provider, which need not be registered as one any more.
pub verify_lem :
    (s : Whitelist) (a : ℕ)
    → IsWhitelist s
    → (verify a s ≡ (ok tt, s)) ↔ (IsSuper a s ⊎ ((q : ℕ) × (vouches q a s ≡ true)))
unfolding verify
verify_lem s a v = (there, back)
  where
    there : verify a s ≡ (ok tt, s) → IsSuper a s ⊎ ((q : ℕ) × (vouches q a s ≡ true))
    there h = elim (Option-cases (s.auth_infos a)) [
      | inl e ↦ absurd (ground arith)
      | inr (i, e) ↦ elim (Bool-cases (is_super i.role)) [
        | inl c ↦ inl (i, e, super_role i.role c)
        | inr c ↦
            let (q, k) = some_provider i.providers (sym (v.infos a i e).vouched ∙ c) in
            inr (q, ground (arith, e, k))
      ]
    ]

    back : IsSuper a s ⊎ ((q : ℕ) × (vouches q a s ≡ true)) → verify a s ≡ (ok tt, s)
    back (inl (i, e, r)) = rw e refl
    back (inr (q, k)) = elim (Option-cases (s.auth_infos a)) [
      | inl e ↦ absurd (ground arith)
      | inr (i, e) ↦ rw e refl
    ]

-- Removing what was just submitted restores the state, where the user was unknown.
pub remove-submit :
    (ctx : Ctx) (a : ℕ) (s : Whitelist)
    → is_some (s.provider_infos ctx.from) ≡ true
    → s.auth_infos a ≡ none
    → (t : Whitelist) × (submit ctx (a ∷ []) s ≡ (ok tt, t)) × (remove ctx (a ∷ []) t ≡ (ok tt, s))
unfolding submit submit_all submit_info remove remove_all remove_info
remove-submit ctx a s p e =
    let i : AuthInfo = record { addr = a; providers = ctx.from ∷ []; role = basic } in
    let t : Whitelist = record s { auth_infos = update s.auth_infos a (some i) } in
    let m = s.auth_infos in
    let same : (ctx.from == ctx.from) ≡ true = (==_iff ctx.from ctx.from).1 refl in
    let back : update (update m a (some i)) a none ≡ m =
      subst (λ o. update (update m a (some i)) a o ≡ m) e (update_back m a (some i)) in
    (
      t,
      rw (p, e) refl,
      rw (p, update_self m a (some i), same)
          (ap (λ (f : ℕ → Option AuthInfo). (ok tt, record s { auth_infos = f })) back),
    )
