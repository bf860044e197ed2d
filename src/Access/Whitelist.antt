-- ===== src/Access/Whitelist.antt =====
-- Whitelist of internal/executor/system/access/whitelist.go.
use axiom_lib.Common.{
  ℕ, Bool, true, false, not, ◌||◌, Option, none, some, List, [], ◌∷◌, ◌++◌, ◌==◌, if◌then◌else◌,
  length,
}
use axiom_lib.Common.Maps.{update}
use axiom_lib.Common.Distinct.{contains, without}
use axiom_lib.Common.Action.{Action, pure, gets, modify, raise, raise_if, ◌>>=◌, ◌>>◌}

-- AuthUserRoleBasic and AuthUserRoleSuper
pub data AuthUserRole : Type 0 where
  basic super : AuthUserRole

pub record AuthInfo : Type 0 where
  pub addr : ℕ
  pub providers : List ℕ
  pub role : AuthUserRole

pub record ProviderInfo : Type 0 where
  pub addr : ℕ

-- The fields of `common.VMContext` that the contract reads.
pub record Ctx : Type 0 where
  pub from : ℕ
  pub call_from_system : Bool

pub record Whitelist : Type 0 where
  pub auth_infos : ℕ → Option AuthInfo
  pub provider_infos : ℕ → Option ProviderInfo

pub data Error : Type 0 where
  not_provider modifies_super no_permission not_exist : Error
  not_super not_in_whitelist provider_exists provider_not_exist : Error

abbrev pub is_super : AuthUserRole → Bool
is_super super = true
is_super basic = false

abbrev pub is_some : {A : Type 0} → Option A → Bool
is_some none = false
is_some (some _) = true

abbrev pub put_auth : ℕ → AuthInfo → Action Whitelist Error (Unit {0})
put_auth a i = modify (λ s. record s { auth_infos = update s.auth_infos a (some i) })

abbrev pub delete_auth : ℕ → Action Whitelist Error (Unit {0})
delete_auth a = modify (λ s. record s { auth_infos = update s.auth_infos a none })

abbrev pub put_provider : ℕ → Option ProviderInfo → Action Whitelist Error (Unit {0})
put_provider a i = modify (λ s. record s { provider_infos = update s.provider_infos a i })

-- checkProviderPermission
abbrev pub check_provider_permission : Ctx → Action Whitelist Error (Unit {0})
check_provider_permission ctx = do
  raise_if (not (is_some (← gets (λ s. s.provider_infos ctx.from)))) Error.not_provider

-- What the loop of Submit does with the info of one address.
unfoldable pub submit_info : ℕ → ℕ → Option AuthInfo → Action Whitelist Error (Unit {0})
submit_info from addr none =
    put_auth addr (record { addr = addr; providers = from ∷ []; role = basic })
submit_info from addr (some i) = do
  raise_if (is_super i.role) Error.modifies_super
  if contains from i.providers
      then pure tt
      else put_auth addr (record i { providers = i.providers ++ from ∷ [] })

unfoldable pub submit_all : ℕ → List ℕ → Action Whitelist Error (Unit {0})
submit_all from [] = pure tt
submit_all from (a ∷ users) =
    (gets (λ s. s.auth_infos a) >>= submit_info from a) >> submit_all from users

-- Submit
unfoldable pub submit : Ctx → List ℕ → Action Whitelist Error (Unit {0})
submit ctx addresses = do check_provider_permission ctx; submit_all ctx.from addresses

-- What the loop of Remove does with the info of one address.
unfoldable pub remove_info : ℕ → ℕ → Option AuthInfo → Action Whitelist Error (Unit {0})
remove_info from addr none = raise Error.not_exist
remove_info from addr (some i) = do
  raise_if (is_super i.role) Error.modifies_super
  raise_if (not (contains from i.providers)) Error.no_permission
  let rest = without from i.providers
  if length rest == 0 then delete_auth addr else put_auth addr (record i { providers = rest })

unfoldable pub remove_all : ℕ → List ℕ → Action Whitelist Error (Unit {0})
remove_all from [] = pure tt
remove_all from (a ∷ users) =
    (gets (λ s. s.auth_infos a) >>= remove_info from a) >> remove_all from users

-- Remove
unfoldable pub remove : Ctx → List ℕ → Action Whitelist Error (Unit {0})
remove ctx addresses = do check_provider_permission ctx; remove_all ctx.from addresses

-- The check of QueryAuthInfo and QueryProviderInfo
abbrev pub check_query : Ctx → Option AuthInfo → Action Whitelist Error (Unit {0})
check_query ctx none = raise_if (not ctx.call_from_system) Error.not_super
check_query ctx (some i) = raise_if (not (ctx.call_from_system || is_super i.role)) Error.not_super

-- QueryAuthInfo; a missing info is Go's zero value.
unfoldable pub query_auth_info : Ctx → ℕ → Action Whitelist Error (Option AuthInfo)
query_auth_info ctx a = do
  check_query ctx (← gets (λ s. s.auth_infos ctx.from))
  gets (λ s. s.auth_infos a)

-- QueryProviderInfo
unfoldable pub query_provider_info : Ctx → ℕ → Action Whitelist Error (Option ProviderInfo)
query_provider_info ctx a = do
  check_query ctx (← gets (λ s. s.auth_infos ctx.from))
  gets (λ s. s.provider_infos a)

-- ExistProvider
abbrev pub exist_provider : ℕ → Whitelist → Bool
exist_provider a s = is_some (s.provider_infos a)

-- Verify
unfoldable pub verify : ℕ → Action Whitelist Error (Unit {0})
verify user = do raise_if (not (is_some (← gets (λ s. s.auth_infos user)))) Error.not_in_whitelist

-- One turn of the loop of UpdateProviders
abbrev pub update_provider : Bool → ProviderInfo → Action Whitelist Error (Unit {0})
update_provider true p = do
  raise_if (← gets (exist_provider p.addr)) Error.provider_exists
  put_provider p.addr (some p)
update_provider false p = do
  raise_if (not (← gets (exist_provider p.addr))) Error.provider_not_exist
  put_provider p.addr none

-- UpdateProviders
unfoldable pub update_providers : Bool → List ProviderInfo → Action Whitelist Error (Unit {0})
update_providers is_add [] = pure tt
update_providers is_add (p ∷ ps) = update_provider is_add p >> update_providers is_add ps

-- The loops of GenesisInit. The source removes repeated users and sorts them, which changes only
-- the order of puts of equal infos.
abbrev pub init_users : List ℕ → Whitelist → Whitelist
init_users [] s = s
init_users (a ∷ users) s = init_users users (record s {
  auth_infos = update s.auth_infos a (some (record { addr = a; providers = []; role = super }));
})

abbrev pub init_providers : List ℕ → Whitelist → Whitelist
init_providers [] s = s
init_providers (a ∷ users) s =
    init_providers users
      (record s { provider_infos = update s.provider_infos a (some (record { addr = a })) })

-- GenesisInit, of the council members, the providers and the accounts of the genesis configuration
unfoldable pub genesis_init : List ℕ → List ℕ → List ℕ → Whitelist → Whitelist
genesis_init admins providers accounts s =
    init_providers providers (init_users (admins ++ (providers ++ accounts)) s)
