-- ===== src/Authorization/Reasons.antt =====
-- internal/authorization/decision.go over the repositories that cmd/gateway wires: the reasons for
-- which a principal may have a role.
use my_kb.Prelude.{ℕ, ◌≡◌, true, false, String, arith, some, inl, inr, find_row}
use my_kb.Result.{ok, Result-cases}
use my_kb.Db.{Db}
use my_kb.Frames.{SameRows}
use my_kb.Ownership.{Ownership, owns_personal_notes}
use my_kb.Grant.{Grant, viewer, editor}
use my_kb.Grant.Repository.{effective_user_grant, is_effective, best_row}
use my_kb.Publication.{Publication, organization_public, visible_to}
use my_kb.Publication.Repository.{get_published_by_kb, is_published_of}
use my_kb.Subscription.{Subscription}
use my_kb.Subscription.Repository as Subscriptions
use my_kb.Subscription.Repository.{is_by}
use my_kb.Subscription.Service.{effective, follows}
use my_kb.Authorization.{Role, viewer_role, editor_role, owner_role, Principal}

-- Why a principal has a role on a knowledge base, in terms of rows of the tables.
module _ (now : ℕ) (kb_id : String) (p : Principal) (owner : Ownership) (db : Db) where
  pub data Reason : Role → Type 0 where
    owns : p.user_id ≡ owner.owner_user_id → p.tenant_id ≡ owner.tenant_id → Reason owner_role
    edits :
        (g : Grant)
        → best_row (is_effective kb_id p.user_id now) db.grants ≡ some g
        → g.permission ≡ editor
        → p.tenant_id ≡ owner.tenant_id
        → owns_personal_notes owner ≡ false
        → Reason editor_role
    views :
        (g : Grant)
        → best_row (is_effective kb_id p.user_id now) db.grants ≡ some g
        → g.permission ≡ viewer
        → p.tenant_id ≡ owner.tenant_id
        → owns_personal_notes owner ≡ false
        → Reason viewer_role
    sees :
        (q : Publication)
        → find_row (is_published_of kb_id) db.publications ≡ some q
        → visible_to q p.tenant_id ≡ true
        → q.access_mode ≡ organization_public
        → owns_personal_notes owner ≡ false
        → Reason viewer_role
    followed :
        (q : Publication) (s : Subscription)
        → find_row (is_published_of kb_id) db.publications ≡ some q
        → visible_to q p.tenant_id ≡ true
        → find_row (is_by q.id p.user_id) db.subscriptions ≡ some s
        → follows s p.tenant_id ≡ true
        → owns_personal_notes owner ≡ false
        → Reason viewer_role

pub SameRows-effective_grant :
    (kb_id user_id : String) (at : ℕ) (db : Db)
    → SameRows db (effective_user_grant kb_id user_id at db).1
unfolding effective_user_grant
SameRows-effective_grant kb_id user_id at db = ground arith

pub SameRows-published : (kb_id : String) (db : Db) → SameRows db (get_published_by_kb kb_id db).1
unfolding get_published_by_kb
SameRows-published kb_id db = ground arith

pub effective_grant-ok :
    (kb_id user_id : String) (at : ℕ) (g : Grant) (db : Db)
    → (effective_user_grant kb_id user_id at db).0 ≡ ok g
    → best_row (is_effective kb_id user_id at) db.grants ≡ some g
unfolding effective_user_grant
effective_grant-ok kb_id user_id at g db h = ground arith

pub published-ok :
    (kb_id : String) (q : Publication) (db : Db)
    → (get_published_by_kb kb_id db).0 ≡ ok q
    → find_row (is_published_of kb_id) db.publications ≡ some q
unfolding get_published_by_kb
published-ok kb_id q db h = ground arith

pub follower-ok :
    (id user_id : String) (s : Subscription) (db : Db)
    → (Subscriptions.get_by_publication_user id user_id db).0 ≡ ok s
    → find_row (is_by id user_id) db.subscriptions ≡ some s
unfolding Subscriptions.get_by_publication_user
follower-ok id user_id s db h = ground arith

pub effective-ok :
    (id user_id : String) (tenant : ℕ) (s : Subscription) (db : Db)
    → (effective id user_id tenant db).0 ≡ ok s
    → (find_row (is_by id user_id) db.subscriptions ≡ some s) × (follows s tenant ≡ true)
unfolding effective
effective-ok id user_id tenant s db h =
    elim (Result-cases (Subscriptions.get_by_publication_user id user_id db).0) [
      | inr (x, e) ↦ absurd (ground arith)
      | inl (x, e) ↦ ground (arith, follower-ok id user_id x db)
    ]
