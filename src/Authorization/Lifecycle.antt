-- ===== src/Authorization/Lifecycle.antt =====
-- internal/authorization with internal/grant and internal/publication: what a decision still gives
-- after an owner has withdrawn access.
use my_kb.Prelude.{ℕ, ◌≡◌, ◌≢◌, String, none, some, ◌⊎◌, inl, inr}
use my_kb.Result.{ok}
use my_kb.Http.{Headers}
use my_kb.Db.{Db, Env}
use my_kb.Ownership.{Ownership, resolve}
use my_kb.Grant.{Grant, user}
use my_kb.Grant.Repository.{best_row, is_effective}
use my_kb.Grant.Uniqueness as GrantRows
use my_kb.Grant.Effect.{best_row-none}
use my_kb.Grant.Revocation.{revoke-none_current}
use my_kb.Grant.Service as Grants
use my_kb.Publication.{Publication}
use my_kb.Publication.Service as Publications
use my_kb.Publication.Uniqueness as PublicationRows
use my_kb.Publication.Withdrawal.{Ended, unpublish-Ended}
use my_kb.Authorization.{Decision, Principal, decide, repositories, no_role, editor_role, Role}
use my_kb.Authorization.Reasons.{Reason, owns, edits, views, sees, followed}
use my_kb.Authorization.Soundness.{decide_sound}

-- Access that no publication gives.
abbrev pub OwnAccess : ℕ → String → Principal → Ownership → Db → Type 0
OwnAccess now kb_id p o db =
    ((p.user_id ≡ o.owner_user_id) × (p.tenant_id ≡ o.tenant_id))
    ⊎ ((g : Grant) × (best_row (is_effective kb_id p.user_id now) db.grants ≡ some g)
        × (p.tenant_id ≡ o.tenant_id))

hidden-OwnAccess :
    (now : ℕ) (kb_id id : String) (p : Principal) (o : Ownership) (db : Db) {r : Role}
    → Ended kb_id id db
    → Reason now kb_id p o db r
    → OwnAccess now kb_id p o db
hidden-OwnAccess now kb_id id p o db e (owns u t) = inl (u, t)
hidden-OwnAccess now kb_id id p o db e (edits g row m t n) = inr (g, row, t)
hidden-OwnAccess now kb_id id p o db e (views g row m t n) = inr (g, row, t)
hidden-OwnAccess now kb_id id p o db e (sees q row v m n) = absurd (cc e.hidden)
hidden-OwnAccess now kb_id id p o db e (followed q s row v found live n) = absurd (cc e.hidden)

own :
    (env : Env) (kb_id id : String) (p : Principal) (o : Ownership) (db : Db) (d : Decision)
    → Ended kb_id id db
    → (d.role ≡ no_role) ⊎ Reason env.now kb_id p o db d.role
    → (d.role ≡ no_role) ⊎ OwnAccess env.now kb_id p o db
own env kb_id id p o db d over (inl h) = inl h
own env kb_id id p o db d over (inr r) = inr (hidden-OwnAccess env.now kb_id id p o db over r)

-- From tables without duplicates: after a successful Unpublish, every decision on the knowledge
-- base gives no role, or gives it to the resolved owner or to a user of the owner's workspace with
-- an effective grant.
pub unpublish_denies :
    (env : Env) (kb_id : String) (actor : Publications.Actor) (n : ℕ) (c : String) (h : Headers)
    (db : Db) {q : Publication}
    → PublicationRows.IsUnique db.publications
    → (Publications.unpublish env kb_id actor n c h db).0 ≡ ok q
    → (env' : Env) (p : Principal) (h' : Headers) {d : Decision}
    → (decide (repositories env') kb_id p h' (Publications.unpublish env kb_id actor n c h db).1).0
      ≡ ok d
    → (o : Ownership) × ((resolve env'.upstream kb_id h'
          (Publications.unpublish env kb_id actor n c h db).1).0
        ≡ ok o)
      × ((d.role ≡ no_role)
          ⊎ OwnAccess env'.now kb_id p o (Publications.unpublish env kb_id actor n c h db).1)
unpublish_denies env kb_id actor n c h db {q} u done env' p h' {d} e =
    let after = (Publications.unpublish env kb_id actor n c h db).1 in
    let over = unpublish-Ended env kb_id actor n c h db u done in
    let (o, found, backed) = decide_sound env' kb_id p h' after e in
    (o, found, own env' kb_id q.id p o after d over backed)

editor-row :
    (now : ℕ) (kb_id : String) (p : Principal) (o : Ownership) (db : Db) {r : Role}
    → Reason now kb_id p o db r
    → r ≡ editor_role
    → best_row (is_effective kb_id p.user_id now) db.grants ≢ none
editor-row now kb_id p o db (owns u t) e = cc
editor-row now kb_id p o db (edits g row m t n) e = λ k. cc
editor-row now kb_id p o db (views g row m t n) e = cc
editor-row now kb_id p o db (sees q row v m n) e = cc
editor-row now kb_id p o db (followed q s row v found live n) e = cc

no_editor :
    (env : Env) (kb_id : String) (p : Principal) (o : Ownership) (db : Db) (d : Decision)
    → best_row (is_effective kb_id p.user_id env.now) db.grants ≡ none
    → (d.role ≡ no_role) ⊎ Reason env.now kb_id p o db d.role
    → d.role ≢ editor_role
no_editor env kb_id p o db d gone (inl h) e = cc
no_editor env kb_id p o db d gone (inr r) e = editor-row env.now kb_id p o db r e gone

-- From a table without duplicates: after a successful Revoke of a user's grant, no decision on
-- that knowledge base gives that user the role of editor.
pub revoke_denies :
    (env : Env) (kb_id id : String) (actor : Grants.Actor) (r : Grants.RevokeRequest) (h : Headers)
    (db : Db) {g : Grant}
    → GrantRows.IsUnique db.grants
    → (Grants.revoke env kb_id id actor r h db).0 ≡ ok g
    → g.subject_type ≡ user
    → (env' : Env) (p : Principal) (h' : Headers) {d : Decision} → p.user_id ≡ g.subject_id
    → (decide
        (repositories env')
        g.knowledge_base_id
        p
        h'
        (Grants.revoke env kb_id id actor r h db).1).0
      ≡ ok d
    → d.role ≢ editor_role
revoke_denies env kb_id id actor r h db {g} u done kind env' p h' {d} mine e role =
    let after = (Grants.revoke env kb_id id actor r h db).1 in
    let gone = revoke-none_current env kb_id id actor r h db u done kind in
    let (o, found, backed) = decide_sound env' g.knowledge_base_id p h' after e in
    no_editor env' g.knowledge_base_id p o after d
      (rw mine (best_row-none g.knowledge_base_id g.subject_id env'.now after.grants gone)) backed
      role
