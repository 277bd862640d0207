-- ===== src/NativeAccess.antt =====
-- internal/nativeaccess/gate.go: who makes a request to the native routes.
pub mod Sessions
pub mod Scope
pub mod Routes
use my_kb.Prelude.{
  ℕ, Bool, true, false, ◌&&◌, ◌||◌, not, String, ◌==◌, ◌=ℕ=◌, Option, none, some, if◌then◌else◌,
}
use my_kb.Result.{Result, ok, err}
use my_kb.Text.{trim_space}
use my_kb.Http.{Headers}

-- The values of Actor.Kind that the program gives: any other text is `other`.
pub data Kind : Type 0 where
  human api_key : Kind
  other : String → Kind

pub record Actor : Type 0 where
  pub kind : Kind
  pub id : String
  pub tenant_id : ℕ

unfoldable pub same_kind : Kind → Kind → Bool
same_kind human k = elim k [ human ↦ true | _ ↦ false ]
same_kind api_key k = elim k [ api_key ↦ true | _ ↦ false ]
same_kind (other s) k = elim k [ other t ↦ s == t | _ ↦ false ]

-- `a == b` on actors.
unfoldable pub same_actor : Actor → Actor → Bool
unfolding same_kind
same_actor a b = same_kind a.kind b.kind && a.id == b.id && a.tenant_id =ℕ= b.tenant_id

-- Error, or a weknora.Error, or any other error.
pub data Err : Type 0 where
  refused : ℕ → String → Err
  upstream : ℕ → String → Err
  failed : Err

-- weknora.Principal, the fields that ResolveActor reads: of the tenant and of the user where they
-- are there.
pub record NativeUser : Type 0 where
  pub id : String
  pub is_active : Bool

pub record NativePrincipal : Type 0 where
  pub tenant : Option ℕ
  pub user : Option NativeUser

-- strconv.FormatUint, and the hexadecimal SHA-256 digest.
pub record Texts : Type 0 where
  pub decimal : ℕ → String
  pub fingerprint : String → String

actor_of_user : ℕ → Option NativeUser → Result Err Actor
actor_of_user tenant none = err (refused 403 "identity.inactive")
actor_of_user tenant (some u) =
    if u.id == "" || not u.is_active
    then err (refused 403 "identity.inactive")
    else ok (record { kind = human; id = u.id; tenant_id = tenant })

in_tenant : Texts → Headers → String → NativePrincipal → Option ℕ → Result Err Actor
unfolding actor_of_user
in_tenant texts h key p none = err (refused 409 "workspace.required")
in_tenant texts h key p (some tenant) =
    if tenant =ℕ= 0
    then err (refused 409 "workspace.required")
    else if not (h.tenant_id == "") && not (h.tenant_id == texts.decimal tenant)
    then err (refused 403 "workspace.denied")
    else if not (key == "")
    then ok (record { kind = api_key; id = texts.fingerprint key; tenant_id = tenant })
    else actor_of_user tenant p.user

-- ResolveActor; `none` is a nil resolver.
unfoldable pub resolve_actor :
    Texts → Option (Headers → Result Err NativePrincipal) → Headers → Result Err Actor
unfolding in_tenant
resolve_actor texts none h = err (refused 503 "identity.unavailable")
resolve_actor texts (some current) h =
    let bearer = trim_space h.authorization in
    let key = trim_space h.api_key in
    if bearer == "" && key == ""
    then err (refused 401 "auth.required")
    else if not (bearer == "") && not (key == "")
    then err (refused 400 "auth.ambiguous_credentials")
    else elim (current h) [ err e ↦ err e | ok p ↦ in_tenant texts h key p p.tenant ]
