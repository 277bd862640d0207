-- ===== src/Grant/Owner.antt =====
-- internal/grant/service.go: requireOwner, and the tables after it.
use my_kb.Prelude.{◌≡◌, false, String, arith, eq_iff, inl, inr}
use my_kb.Result.{ok, Result-cases}
use my_kb.Http.{Headers, Upstream}
use my_kb.Db.{Db, Env}
use my_kb.Audit
use my_kb.Audit.Repository.{record_event}
use my_kb.Profile
use my_kb.Profile.Repository
use my_kb.Ownership.{Ownership, resolve, owns_personal_notes}
use my_kb.Grant.Service.{Actor, check_owner, require_owner, record_denied_grant}

pub grants-record_event :
    (env : Env) (e : Audit.Event) (db : Db) → (record_event env e db).1.grants ≡ db.grants
unfolding record_event
grants-record_event env e db = ground arith

grants-get_profile : (id : String) (db : Db) → (Profile.Repository.get id db).1.grants ≡ db.grants
unfolding Profile.Repository.get
grants-get_profile id db = ground arith

pub grants-resolve :
    (up : Upstream) (id : String) (h : Headers) (db : Db)
    → (resolve up id h db).1.grants ≡ db.grants
unfolding resolve
grants-resolve up id h db = grind (arith, grants-get_profile)

pub grants-record_denied_grant :
    (env : Env) (o : Ownership) (actor : Actor) (h : Headers) (db : Db)
    → (record_denied_grant env o actor h db).1.grants ≡ db.grants
unfolding record_denied_grant
grants-record_denied_grant env o actor h db = grind (arith, grants-record_event)

pub grants-check_owner :
    (env : Env) (actor : Actor) (h : Headers) (o : Ownership) (db : Db)
    → (check_owner env actor h o db).1.grants ≡ db.grants
unfolding check_owner
grants-check_owner env actor h o db = ground (arith, grants-record_denied_grant env o actor h db)

pub check_owner-ok :
    (env : Env) (actor : Actor) (h : Headers) (o o' : Ownership) (db : Db)
    → (check_owner env actor h o db).0 ≡ ok o'
    → (o ≡ o')
      × (actor.user_id ≡ o.owner_user_id)
      × (actor.tenant_id ≡ o.tenant_id)
      × (owns_personal_notes o ≡ false)
      × ((check_owner env actor h o db).1 ≡ db)
unfolding check_owner
check_owner-ok env actor h o o' db e = ground (arith, eq_iff actor.user_id o.owner_user_id)

pub grants-require_owner :
    (env : Env) (kb_id : String) (actor : Actor) (h : Headers) (db : Db)
    → (require_owner env kb_id actor h db).1.grants ≡ db.grants
unfolding require_owner
grants-require_owner env kb_id actor h db = grind (arith, grants-check_owner, grants-resolve)

-- Who passes requireOwner is the resolved owner of a knowledge base that is not Personal Notes.
pub require_owner-ok :
    (env : Env) (kb_id : String) (actor : Actor) (h : Headers) (o : Ownership) (db : Db)
    → (require_owner env kb_id actor h db).0 ≡ ok o
    → ((resolve env.upstream kb_id h db).0 ≡ ok o)
      × (actor.user_id ≡ o.owner_user_id)
      × (actor.tenant_id ≡ o.tenant_id)
      × (owns_personal_notes o ≡ false)
unfolding require_owner
require_owner-ok env kb_id actor h o db e =
    elim (Result-cases (resolve env.upstream kb_id h db).0) [
      | inl (x, ex) ↦
          let passed = check_owner-ok env actor h x o (resolve env.upstream kb_id h db).1 in
          ground (arith, passed)
      | inr (x, ex) ↦ ground arith
    ]
