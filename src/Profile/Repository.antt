-- ===== src/Profile/Repository.antt =====
-- internal/profile/profile.go: the statements on the table kb_profiles.
use my_kb.Prelude.{
  ℕ, Bool, ◌&&◌, not, String, ◌==◌, ◌=ℕ=◌, Option, none, some, List, [], ◌∷◌, ◌++◌, find_row, any,
  if◌then◌else◌,
}
use my_kb.Result.{Result, ok, err, Exec, fail_if}
use my_kb.Text.{is_blank}
use my_kb.Db.{Db, statement}
use my_kb.Db.Times.{column_time}
use my_kb.Profile.{Profile, is_valid, is_personal_notes}

pub data Err : Type 0 where
  not_found conflict invalid database : Err

or_not_found : Option Profile → Result Err Profile
or_not_found none = err not_found
or_not_found (some p) = ok p

-- Repository.Get
unfoldable pub get : String → Exec Db Err Profile
unfolding or_not_found statement
get kb_id = fail_if (is_blank kb_id) not_found (
    statement database
      λ db. (or_not_found (find_row (λ p. p.upstream_kb_id == kb_id) db.profiles), db))

-- Defaults that Create fills in.
with_defaults : ℕ → Profile → Profile
with_defaults now p =
    let created = if p.created_at =ℕ= 0 then now else p.created_at in
    record p {
      schema_version = if p.schema_version =ℕ= 0 then 1 else p.schema_version;
      created_at = created;
      updated_at = if p.updated_at =ℕ= 0 then created else p.updated_at;
    }

-- The row that an INSERT stores.
as_stored : Profile → Profile
as_stored p = record p {
  created_at = column_time p.created_at;
  updated_at = column_time p.updated_at;
}

insert : Profile → Exec Db Err Profile
unfolding as_stored
insert p db =
    if any (λ q. q.upstream_kb_id == p.upstream_kb_id) db.profiles
    then (err conflict, db)
    else (ok p, record db { profiles = db.profiles ++ (as_stored p ∷ []) })

-- Repository.Create
unfoldable pub create : (String → Bool) → ℕ → Profile → Exec Db Err Profile
unfolding with_defaults insert statement
create valid_json now candidate =
    fail_if (not (is_valid valid_json candidate)) invalid
      (statement database (insert (with_defaults now candidate)))

forbidden_row : String → Profile → Bool
forbidden_row owner p = is_personal_notes p.product_mode && not (p.owner_user_id == owner)

forbidden_ids : String → List Profile → List String
forbidden_ids owner [] = []
forbidden_ids owner (p ∷ ps) =
    let rest = forbidden_ids owner ps in
    if forbidden_row owner p then p.upstream_kb_id ∷ rest else rest

-- Repository.ForbiddenPersonalNoteIDs
unfoldable pub forbidden_personal_note_ids : String → Exec Db Err (List String)
unfolding forbidden_row forbidden_ids statement
forbidden_personal_note_ids owner =
    fail_if (is_blank owner) invalid
      (statement database λ db. (ok (forbidden_ids owner db.profiles), db))
