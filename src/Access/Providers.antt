-- ===== src/Access/Providers.antt =====
-- Which providers vouch for a user, before and after Submit and Remove of
-- internal/executor/system/access/whitelist.go.
use axiom_lib.Common.Distinct.{contains, without, contains-append, contains-without}
use axiom_lib.Common.{
  ℕ, Bool, true, false, not, ◌&&◌, ◌||◌, Option, none, some, List, [], ◌∷◌, ◌++◌, ◌==◌,
  if◌then◌else◌, length, ◌≡◌, ◌⊎◌, inl, inr, refl, sym, ap, ◌∙◌, arith, Bool-cases, ==_iff,
}
use axiom_lib.Common.Maps.{update}
use axiom_lib.Common.Action.{Result, ok, bind_ok, gets, ◌>>=◌}
use axiom_lib.Access.Whitelist.{
  AuthUserRole, basic, super, AuthInfo, Ctx, Whitelist, Error, is_super, check_provider_permission,
  submit_info, submit_all, submit, remove_info, remove_all, remove,
}

-- The provider is one of those that vouch for the user.
abbrev vouches_info : ℕ → Option AuthInfo → Bool
vouches_info p none = false
vouches_info p (some i) = contains p i.providers

abbrev pub vouches : ℕ → ℕ → Whitelist → Bool
vouches p a s = vouches_info p (s.auth_infos a)

pub permission_ok :
    (ctx : Ctx) (s t : Whitelist) → check_provider_permission ctx s ≡ (ok tt, t) → t ≡ s
permission_ok ctx s t h = ground arith

-- The info of one address is written.
abbrev pub put_info : ℕ → Option AuthInfo → Whitelist → Whitelist
put_info a o s = record s { auth_infos = update s.auth_infos a o }

vouches-put_info :
    (q b a : ℕ) (o : Option AuthInfo) (s : Whitelist)
    → vouches q b (put_info a o s) ≡ (if b == a then vouches_info q o else vouches q b s)
vouches-put_info q b a o s = elim (Bool-cases (b == a)) [ inl e ↦ rw e refl | inr e ↦ rw e refl ]

vouches_same :
    (q b a : ℕ) (o : Option AuthInfo) (s : Whitelist)
    → s.auth_infos a ≡ o
    → (b == a) ≡ true
    → vouches q b s ≡ vouches_info q o
vouches_same q b a o s e h = ap (vouches_info q) (ap s.auth_infos ((==_iff b a).0 h) ∙ e)

-- What one turn of the loop of Submit writes.
pub submit_writes :
    (from a : ℕ) (i : AuthInfo) (s t : Whitelist)
    → submit_info from a (some i) s ≡ (ok tt, t)
    → ((contains from i.providers ≡ true) × (t ≡ s))
      ⊎ ((contains from i.providers ≡ false)
          × (is_super i.role ≡ false)
          × (t ≡ put_info a (some (record i { providers = i.providers ++ from ∷ [] })) s))
unfolding submit_info
submit_writes from a i s t h = elim (Bool-cases (contains from i.providers)) [
  | inl c ↦ inl (c, ground arith)
  | inr c ↦ inr (c, ground arith, ground arith)
]

submit_one_ok :
    (from a : ℕ) (o : Option AuthInfo) (s t : Whitelist)
    → s.auth_infos a ≡ o
    → submit_info from a o s ≡ (ok tt, t)
    → (q b : ℕ) → vouches q b t ≡ (((q == from) && (b == a)) || vouches q b s)
unfolding submit_info
submit_one_ok from a none s t e h q b =
    let w : t ≡ put_info a (some (record { addr = a; providers = from ∷ []; role = basic })) s =
      sym (ap (λ (r : Result Error (Unit {0}) × Whitelist). r.1) h) in
    ground (
      arith,
      ap (vouches q b) w,
      vouches-put_info q b a (some (record { addr = a; providers = from ∷ []; role = basic })) s,
      vouches_same q b a none s e,
      ==_iff q from,
      ==_iff from q,
    )
submit_one_ok from a (some i) s t e h q b = elim (submit_writes from a i s t h) [
  | inl (c, w) ↦ ground (
    arith,
    ap (vouches q b) w,
    vouches_same q b a (some i) s e,
    ==_iff q from,
    ap (λ x. contains x i.providers),
    c,
  )
  | inr (_, _, w) ↦ ground (
    arith,
    ap (vouches q b) w,
    vouches-put_info q b a (some (record i { providers = i.providers ++ from ∷ [] })) s,
    contains-append q i.providers (from ∷ []),
    vouches_same q b a (some i) s e,
    ==_iff q from,
    ==_iff from q,
  )
]

submit_all_ok :
    (from : ℕ) (users : List ℕ) (s t : Whitelist)
    → submit_all from users s ≡ (ok tt, t)
    → (q b : ℕ) → vouches q b t ≡ (((q == from) && contains b users) || vouches q b s)
unfolding submit_all
submit_all_ok from [] s t h q b =
    ground (arith, ap (λ (r : Result Error (Unit {0}) × Whitelist). vouches q b r.1) h)
submit_all_ok from (a ∷ users) s t h q b =
    let (_, u, e, k) =
      bind_ok (gets (λ x. x.auth_infos a) >>= submit_info from a) (λ _. submit_all from users) s t
        tt h in
    ground (
      arith,
      submit_one_ok from a (s.auth_infos a) s u refl e q b,
      submit_all_ok from users u t k q b,
      ==_iff a b,
      ==_iff b a,
    )

-- After a successful Submit the caller vouches for every listed user; every other provider vouches
-- for the same users as before, and the caller still vouches for those that it vouched for.
pub submit-vouches :
    (ctx : Ctx) (users : List ℕ) (s t : Whitelist)
    → submit ctx users s ≡ (ok tt, t)
    → (q b : ℕ) → vouches q b t ≡ (((q == ctx.from) && contains b users) || vouches q b s)
unfolding submit
submit-vouches ctx users s t h q b =
    let (_, u, e, k) =
      bind_ok (check_provider_permission ctx) (λ _. submit_all ctx.from users) s t tt h in
    submit_all_ok ctx.from users u t k q b
    ∙ ap (λ x. ((q == ctx.from) && contains b users) || vouches q b x) (permission_ok ctx s u e)

pub length-contains : (q : ℕ) (xs : List ℕ) → (length xs == 0) ≡ true → contains q xs ≡ false
length-contains q [] h = refl
length-contains q (x ∷ xs) h = absurd (ground arith)

pub not_super : (r : AuthUserRole) → is_super r ≡ false → r ≡ basic
not_super basic h = refl
not_super super h = absurd (cc)

-- What one turn of the loop of Remove writes.
pub remove_writes :
    (from a : ℕ) (i : AuthInfo) (s t : Whitelist)
    → remove_info from a (some i) s ≡ (ok tt, t)
    → (contains from i.providers ≡ true)
      × (i.role ≡ basic)
      × (t
          ≡ put_info a
              (if length (without from i.providers) == 0
                then none
                else some (record i { providers = without from i.providers }))
              s)
unfolding remove_info
remove_writes from a i s t h = (
  ground arith,
  not_super i.role (ground arith),
  elim (Bool-cases (length (without from i.providers) == 0)) [
    | inl c ↦ rw c (ground arith)
    | inr c ↦ rw c (ground arith)
  ],
)

vouches-left :
    (q from : ℕ) (i : AuthInfo)
    → vouches_info q (
        if length (without from i.providers) == 0
        then none
        else some (record i { providers = without from i.providers }))
      ≡ (not (q == from) && contains q i.providers)
vouches-left q from i = elim (Bool-cases (length (without from i.providers) == 0)) [
  | inl c ↦ rw c (
      ground (
        arith,
        length-contains q (without from i.providers) c,
        contains-without q from i.providers,
        ==_iff q from,
        ==_iff from q,
      ))
  | inr c ↦ rw c (ground (arith, contains-without q from i.providers, ==_iff q from, ==_iff from q))
]

remove_one_ok :
    (from a : ℕ) (o : Option AuthInfo) (s t : Whitelist)
    → s.auth_infos a ≡ o
    → remove_info from a o s ≡ (ok tt, t)
    → (vouches from a s ≡ true)
      × ((q b : ℕ) → vouches q b t ≡ (not ((q == from) && (b == a)) && vouches q b s))
unfolding remove_info
remove_one_ok from a none s t e h = absurd (ground arith)
remove_one_ok from a (some i) s t e h =
    let (c, r, w) = remove_writes from a i s t h in
    (
      ap (vouches_info from) e ∙ c,
      λ q b. ground (
        arith,
        ap (vouches q b) w,
        vouches-put_info q b a
            (if length (without from i.providers) == 0
              then none
              else some (record i { providers = without from i.providers }))
            s,
        vouches-left q from i,
        vouches_same q b a (some i) s e,
      ),
    )

remove_all_ok :
    (from : ℕ) (users : List ℕ) (s t : Whitelist)
    → remove_all from users s ≡ (ok tt, t)
    → (q b : ℕ) → vouches q b t ≡ (not ((q == from) && contains b users) && vouches q b s)
unfolding remove_all
remove_all_ok from [] s t h q b =
    ground (arith, ap (λ (r : Result Error (Unit {0}) × Whitelist). vouches q b r.1) h)
remove_all_ok from (a ∷ users) s t h q b =
    let (_, u, e, k) =
      bind_ok (gets (λ x. x.auth_infos a) >>= remove_info from a) (λ _. remove_all from users) s t
        tt h in
    let (_, one) = remove_one_ok from a (s.auth_infos a) s u refl e in
    ground (arith, one q b, remove_all_ok from users u t k q b, ==_iff a b, ==_iff b a)

-- After a successful Remove the caller vouches for none of the listed users, and for nobody it did
-- not vouch for before; every other provider vouches for the same users as before.
pub remove-vouches :
    (ctx : Ctx) (users : List ℕ) (s t : Whitelist)
    → remove ctx users s ≡ (ok tt, t)
    → (q b : ℕ) → vouches q b t ≡ (not ((q == ctx.from) && contains b users) && vouches q b s)
unfolding remove
remove-vouches ctx users s t h q b =
    let (_, u, e, k) =
      bind_ok (check_provider_permission ctx) (λ _. remove_all ctx.from users) s t tt h in
    remove_all_ok ctx.from users u t k q b
    ∙ ap (λ x. not ((q == ctx.from) && contains b users) && vouches q b x) (permission_ok ctx s u e)
