-- ===== src/Grant/Repository.antt =====
-- internal/grant/repository.go: the statements on the table kb_access_grants, with the constraints
-- that database/migrations/000006_kb_access_grants.up.sql puts on its rows.
use my_kb.Prelude.{
  ℕ, ◌+◌, Bool, ◌||◌, ◌&&◌, not, String, ◌==◌, ◌=ℕ=◌, ltb, leb, Option, none, some, List, [], ◌∷◌,
  ◌++◌, count, find_row, select, order_by, update_where, any, if◌then◌else◌,
}
use my_kb.Result.{Result, ok, err, Exec, fail_if}
use my_kb.Db.{Db, statement}
use my_kb.Db.Times.{column_time, column_times}
use my_kb.Grant.{
  Grant, SubjectType, Permission, user, editor, same_subject_type, same_permission,
  valid_permission, is_nil, nil_or_after, nil_or_not_before, is_valid,
}

-- `stored_invalid` is the error of a row that does not validate; it wraps ErrInvalid. `ownership`
-- carries the resolver's error through.
pub data RepoErr : Type 0 where
  invalid not_found conflict revision_conflict stored_invalid database : RepoErr

-- Column lengths and CHECK constraints.
unfoldable pub fits : Grant → Bool
unfolding nil_or_after nil_or_not_before
fits g =
    leb (count g.id) 36
    && leb (count g.knowledge_base_id) 36
    && leb (count g.subject_id) 36
    && leb (count g.granted_by) 36
    && leb (count g.last_audit_correlation_id) 128
    && ltb 0 g.revision
    && leb g.revision 9223372036854775807
    && nil_or_after g.expires_at g.created_at
    && nil_or_not_before g.revoked_at g.created_at

unfoldable pub same_subject : String → SubjectType → String → Grant → Bool
unfolding same_subject_type
same_subject kb_id kind subject_id g =
    g.knowledge_base_id == kb_id
    && same_subject_type g.subject_type kind
    && g.subject_id == subject_id

-- WHERE knowledge_base_id = $1 AND subject_type = $2 AND subject_id = $3 AND revoked_at IS NULL
unfoldable pub is_current_for : String → SubjectType → String → Grant → Bool
unfolding same_subject is_nil
is_current_for kb_id kind subject_id g = same_subject kb_id kind subject_id g && is_nil g.revoked_at

-- The primary key and the partial unique index.
unfoldable pub collides : Grant → Grant → Bool
unfolding is_current_for
collides new old =
    old.id == new.id
    || (is_nil new.revoked_at
        && is_current_for new.knowledge_base_id new.subject_type new.subject_id old)

-- The row that an INSERT stores.
unfoldable pub as_stored : Grant → Grant
as_stored g = record g {
  created_at = column_time g.created_at;
  updated_at = column_time g.updated_at;
  expires_at = column_times g.expires_at;
  revoked_at = column_times g.revoked_at;
}

-- The caller gets back the grant that it passed, not the row.
insert : Grant → Exec Db RepoErr Grant
unfolding fits collides as_stored
insert g db =
    if not (fits (as_stored g))
    then (err database, db)
    else if any (collides (as_stored g)) db.grants
    then (err conflict, db)
    else (ok g, record db { grants = db.grants ++ (as_stored g ∷ []) })

-- Repository.Create
unfoldable pub create : Grant → Exec Db RepoErr Grant
unfolding insert statement
create candidate =
    fail_if (not (is_valid candidate)) invalid (statement database (insert candidate))

-- scanGrant
unfoldable pub scan_grant : Option Grant → Result RepoErr Grant
scan_grant none = err not_found
scan_grant (some g) = if is_valid g then ok g else err stored_invalid

-- Repository.Get
unfoldable pub get : String → Exec Db RepoErr Grant
unfolding scan_grant statement
get id = statement database λ db. (scan_grant (find_row (λ g. g.id == id) db.grants), db)

-- Repository.FindCurrentBySubject
unfoldable pub find_current_by_subject : String → SubjectType → String → Exec Db RepoErr Grant
unfolding scan_grant statement
find_current_by_subject kb_id kind subject_id =
    statement database
      λ db. (scan_grant (find_row (is_current_for kb_id kind subject_id) db.grants), db)

-- ORDER BY created_at, id; texts are ordered by the database's collation.
unfoldable pub before : (String → String → Bool) → Grant → Grant → Bool
before collate a b =
    ltb a.created_at b.created_at || (a.created_at =ℕ= b.created_at && collate a.id b.id)

-- The loop over the rows: the first that does not validate ends it.
unfoldable pub scan_all : List Grant → Result RepoErr (List Grant)
unfolding scan_grant
scan_all [] = ok []
scan_all (g ∷ gs) =
    let rest = scan_all gs in
    elim (scan_grant (some g)) [
      | err e ↦ err e
      | ok x ↦ elim rest [ err e ↦ err e | ok xs ↦ ok (x ∷ xs) ]
    ]

unfoldable pub is_current_in : String → Grant → Bool
unfolding is_nil
is_current_in kb_id g = g.knowledge_base_id == kb_id && is_nil g.revoked_at

-- Repository.ListCurrentByKB
unfoldable pub list_current_by_kb : (String → String → Bool) → String → Exec Db RepoErr (List Grant)
unfolding before scan_all is_current_in statement
list_current_by_kb collate kb_id =
    statement database
      λ db. (scan_all (order_by (before collate) (select (is_current_in kb_id) db.grants)), db)

-- The WHERE clause of EffectiveUserGrant.
unfoldable pub is_effective : String → String → ℕ → Grant → Bool
unfolding is_current_for nil_or_after
is_effective kb_id user_id at g =
    is_current_for kb_id user user_id g && nil_or_after g.expires_at (column_time at)

first_of : Option Grant → Option Grant → Option Grant
first_of (some g) o = some g
first_of none o = o

-- ORDER BY CASE permission WHEN 'editor' THEN 0 ELSE 1 END LIMIT 1
unfoldable pub best_row : (Grant → Bool) → List Grant → Option Grant
unfolding first_of same_permission
best_row p gs =
    first_of (find_row (λ g. p g && same_permission g.permission editor) gs) (find_row p gs)

-- Repository.EffectiveUserGrant
unfoldable pub effective_user_grant : String → String → ℕ → Exec Db RepoErr Grant
unfolding scan_grant best_row is_effective statement
effective_user_grant kb_id user_id at =
    statement database λ db. (scan_grant (best_row (is_effective kb_id user_id at) db.grants), db)

-- WHERE id = $1 AND revision = $2 AND revoked_at IS NULL
unfoldable pub is_version : String → ℕ → Grant → Bool
unfolding is_nil
is_version id revision g = g.id == id && g.revision =ℕ= revision && is_nil g.revoked_at

-- UPDATE ... SET change WHERE p RETURNING ...: nothing is written when a new row breaks a constraint.
returning : (Grant → Bool) → (Grant → Grant) → Option Grant → Exec Db RepoErr Grant
unfolding fits scan_grant
returning p change none db = (err revision_conflict, db)
returning p change (some g) db =
    if fits (change g)
    then (scan_grant (some (change g)), record db { grants = update_where p change db.grants })
    else (err database, db)

unfoldable pub updated : Permission → Option ℕ → ℕ → String → Grant → Grant
updated permission expires_at at correlation_id g = record g {
  permission = permission;
  expires_at = column_times expires_at;
  updated_at = column_time at;
  revision = g.revision + 1;
  last_audit_correlation_id = correlation_id;
}

-- Repository.Update
unfoldable pub update : String → ℕ → Permission → Option ℕ → String → ℕ → Exec Db RepoErr Grant
unfolding updated is_version returning statement
update id expected permission expires_at correlation_id at =
    fail_if
      (id == ""
        || ltb expected 1
        || not (valid_permission permission)
        || correlation_id == ""
        || at =ℕ= 0)
      invalid
      (statement database λ db.
        returning (is_version id expected) (updated permission expires_at at correlation_id)
          (find_row (is_version id expected) db.grants) db)

unfoldable pub revoked : ℕ → String → Grant → Grant
revoked at correlation_id g = record g {
  revoked_at = some (column_time at);
  updated_at = column_time at;
  revision = g.revision + 1;
  last_audit_correlation_id = correlation_id;
}

-- Repository.Revoke
unfoldable pub revoke : String → ℕ → String → ℕ → Exec Db RepoErr Grant
unfolding revoked is_version returning statement
revoke id expected correlation_id at =
    fail_if (id == "" || ltb expected 1 || correlation_id == "" || at =ℕ= 0) invalid (
      statement database λ db.
        returning (is_version id expected) (revoked at correlation_id)
          (find_row (is_version id expected) db.grants) db)
