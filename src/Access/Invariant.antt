-- ===== src/Access/Invariant.antt =====
-- What holds of the whitelist in every state that calls reach from GenesisInit
-- (internal/executor/system/access/whitelist.go).
use axiom_lib.Common.Distinct.{contains, without, NoRepeat, NoRepeat-insert, without-NoRepeat}
use axiom_lib.Common.{
  ℕ, false, Option, none, some, List, [], ◌∷◌, ◌++◌, ◌==◌, if◌then◌else◌, length, ◌≡◌, ◌≢◌, inl,
  inr, refl, sym, ap, ◌∙◌, subst, arith, Bool-cases, ==_iff,
}
use mathlib.Core.List.{append-nil}
use mathlib.Core.Option.{some_inj}
use axiom_lib.Common.Action.{Result, ok, bind_ok, gets, ◌>>=◌}
use axiom_lib.Access.Whitelist.{
  AuthUserRole, basic, super, AuthInfo, ProviderInfo, Ctx, Whitelist, Error, is_super,
  check_provider_permission, submit_info, submit_all, submit, remove_info, remove_all, remove,
}
use axiom_lib.Access.Providers.{put_info, submit_writes, remove_writes, permission_ok}

-- An info stands under its address, its providers are distinct, and it has providers exactly where it
-- is not that of a super user.
pub record IsInfo (a : ℕ) (i : AuthInfo) : Type 0 where
  pub addr_eq : i.addr ≡ a
  pub once : NoRepeat i.providers
  pub vouched : is_super i.role ≡ (length i.providers == 0)

pub record IsWhitelist (s : Whitelist) : Type 0 where
  pub infos : (a : ℕ) (i : AuthInfo) → s.auth_infos a ≡ some i → IsInfo a i
  pub named : (a : ℕ) (p : ProviderInfo) → s.provider_infos a ≡ some p → p.addr ≡ a

-- What a call keeps: the invariant, and every super user.
pub record IsKept (s t : Whitelist) : Type 0 where
  pub valid : IsWhitelist s → IsWhitelist t
  pub supers :
      (a : ℕ) (i : AuthInfo) → s.auth_infos a ≡ some i → i.role ≡ super → t.auth_infos a ≡ some i

pub same-IsKept : (s t : Whitelist) → t ≡ s → IsKept s t
same-IsKept s t e = record {
  valid = λ v. subst IsWhitelist (sym e) v;
  supers = λ a i h k. ap (λ (x : Whitelist). x.auth_infos a) e ∙ h;
}

pub IsKept-trans : (s t u : Whitelist) → IsKept s t → IsKept t u → IsKept s u
IsKept-trans s t u a b = record {
  valid = λ v. b.valid (a.valid v);
  supers = λ j i h k. b.supers j i (a.supers j i h k) k;
}

-- Writing an info where there is no super user.
put-IsKept :
    (a : ℕ) (o : Option AuthInfo) (s : Whitelist)
    → ((i : AuthInfo) → s.auth_infos a ≡ some i → i.role ≢ super)
    → (IsWhitelist s → (i : AuthInfo) → o ≡ some i → IsInfo a i)
    → IsKept s (put_info a o s)
put-IsKept a o s free h = record {
  valid = λ v. record {
    infos = λ b i e. elim (Bool-cases (b == a)) [
      | inl c ↦
          let same = (==_iff b a).0 c in
          subst (λ x. IsInfo x i) (sym same) (h v i (ground (arith, e, c)))
      | inr c ↦ v.infos b i (ground (arith, e, c))
    ];
    named = v.named;
  };
  supers = λ b i e k. elim (Bool-cases (b == a)) [
    | inl c ↦ absurd (free i (ap s.auth_infos (sym ((==_iff b a).0 c)) ∙ e) k)
    | inr c ↦ rw c e
  ];
}

basic_not_super : (r : AuthUserRole) → is_super r ≡ false → r ≢ super
basic_not_super basic h e = absurd (cc)
basic_not_super super h e = absurd (cc)

appended-IsInfo :
    (from a : ℕ) (i : AuthInfo)
    → contains from i.providers ≡ false
    → is_super i.role ≡ false
    → IsInfo a i
    → IsInfo a (record i { providers = i.providers ++ from ∷ [] })
appended-IsInfo from a i c r v = record {
  addr_eq = v.addr_eq;
  once = subst NoRepeat (append-nil _) (
      NoRepeat-insert from i.providers [] (subst NoRepeat (sym (append-nil _)) v.once)
        (ap (contains from) (append-nil _) ∙ c));
  vouched = r ∙ not_empty i.providers;
}
  where
    not_empty : (xs : List ℕ) → false ≡ (length (xs ++ from ∷ []) == 0)
    not_empty [] = refl
    not_empty (x ∷ xs) = ground arith

-- What is left of the info of a basic user after a provider is taken off.
left-IsInfo :
    (from a : ℕ) (i : AuthInfo)
    → i.role ≡ basic
    → IsInfo a i
    → (j : AuthInfo)
    → (if length (without from i.providers) == 0
        then none
        else some (record i { providers = without from i.providers }))
      ≡ some j
    → IsInfo a j
left-IsInfo from a i r v j e = elim (Bool-cases (length (without from i.providers) == 0)) [
  | inl c ↦ absurd (ground (arith, e, c))
  | inr c ↦ subst (IsInfo a) (ground (arith, e, c)) (record {
    addr_eq = v.addr_eq;
    once = without-NoRepeat from i.providers v.once;
    vouched = ap is_super r ∙ sym c;
  })
]

submit_one-IsKept :
    (from a : ℕ) (o : Option AuthInfo) (s t : Whitelist)
    → s.auth_infos a ≡ o
    → submit_info from a o s ≡ (ok tt, t)
    → IsKept s t
unfolding submit_info
submit_one-IsKept from a none s t e h =
    subst (IsKept s) (ap (λ (r : Result Error (Unit {0}) × Whitelist). r.1) h) (
      put-IsKept a (some (record { addr = a; providers = from ∷ []; role = basic })) s
        (λ i k. absurd (ground arith))
        (λ v i k.
          subst (IsInfo a) (some_inj.0 k)
            (record { addr_eq = refl; once = (refl, tt); vouched = refl })))
submit_one-IsKept from a (some i) s t e h = elim (submit_writes from a i s t h) [
  | inl (c, w) ↦ same-IsKept s t w
  | inr (c, r, w) ↦ subst (IsKept s) (sym w) (
      put-IsKept a (some (record i { providers = i.providers ++ from ∷ [] })) s
        (λ j k.
          subst (λ (x : AuthInfo). x.role ≢ super) (some_inj.0 (sym e ∙ k))
            (basic_not_super i.role r))
        (λ v j k. subst (IsInfo a) (some_inj.0 k) (appended-IsInfo from a i c r (v.infos a i e))))
]

submit_all-IsKept :
    (from : ℕ) (users : List ℕ) (s t : Whitelist)
    → submit_all from users s ≡ (ok tt, t)
    → IsKept s t
unfolding submit_all
submit_all-IsKept from [] s t h =
    same-IsKept s t (sym (ap (λ (r : Result Error (Unit {0}) × Whitelist). r.1) h))
submit_all-IsKept from (a ∷ users) s t h =
    let (_, u, e, k) =
      bind_ok (gets (λ x. x.auth_infos a) >>= submit_info from a) (λ _. submit_all from users) s t
        tt h in
    IsKept-trans s u t (submit_one-IsKept from a (s.auth_infos a) s u refl e)
      (submit_all-IsKept from users u t k)

pub submit-IsKept :
    (ctx : Ctx) (users : List ℕ) (s t : Whitelist) → submit ctx users s ≡ (ok tt, t) → IsKept s t
unfolding submit
submit-IsKept ctx users s t h =
    let (_, u, e, k) =
      bind_ok (check_provider_permission ctx) (λ _. submit_all ctx.from users) s t tt h in
    IsKept-trans s u t (same-IsKept s u (permission_ok ctx s u e))
      (submit_all-IsKept ctx.from users u t k)

remove_one-IsKept :
    (from a : ℕ) (o : Option AuthInfo) (s t : Whitelist)
    → s.auth_infos a ≡ o
    → remove_info from a o s ≡ (ok tt, t)
    → IsKept s t
unfolding remove_info
remove_one-IsKept from a none s t e h = absurd (ground arith)
remove_one-IsKept from a (some i) s t e h =
    let (c, r, w) = remove_writes from a i s t h in
    subst (IsKept s) (sym w) (
      put-IsKept a
        (if length (without from i.providers) == 0
          then none
          else some (record i { providers = without from i.providers }))
        s
        (λ j k.
          subst (λ (x : AuthInfo). x.role ≢ super) (some_inj.0 (sym e ∙ k))
            (basic_not_super i.role (ap is_super r)))
        (λ v. left-IsInfo from a i r (v.infos a i e)))

remove_all-IsKept :
    (from : ℕ) (users : List ℕ) (s t : Whitelist)
    → remove_all from users s ≡ (ok tt, t)
    → IsKept s t
unfolding remove_all
remove_all-IsKept from [] s t h =
    same-IsKept s t (sym (ap (λ (r : Result Error (Unit {0}) × Whitelist). r.1) h))
remove_all-IsKept from (a ∷ users) s t h =
    let (_, u, e, k) =
      bind_ok (gets (λ x. x.auth_infos a) >>= remove_info from a) (λ _. remove_all from users) s t
        tt h in
    IsKept-trans s u t (remove_one-IsKept from a (s.auth_infos a) s u refl e)
      (remove_all-IsKept from users u t k)

pub remove-IsKept :
    (ctx : Ctx) (users : List ℕ) (s t : Whitelist) → remove ctx users s ≡ (ok tt, t) → IsKept s t
unfolding remove
remove-IsKept ctx users s t h =
    let (_, u, e, k) =
      bind_ok (check_provider_permission ctx) (λ _. remove_all ctx.from users) s t tt h in
    IsKept-trans s u t (same-IsKept s u (permission_ok ctx s u e))
      (remove_all-IsKept ctx.from users u t k)
