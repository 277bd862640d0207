-- ===== src/Publication/Repository.antt =====
-- internal/publication/repository.go: the statements on the table kb_publications, with the
-- constraints of database/migrations/000008_phase3_publications.up.sql.
use my_kb.Prelude.{
  ℕ, ◌+◌, Bool, true, false, ◌||◌, ◌&&◌, not, String, ◌==◌, ◌=ℕ=◌, ltb, leb, Option, none, some,
  List, [], ◌∷◌, ◌++◌, count, find_row, select, order_by, update_where, any, if◌then◌else◌,
}
use my_kb.Result.{Result, ok, err, Exec, fail_if}
use my_kb.Db.{Db, statement}
use my_kb.Db.Times.{column_time, column_times}
use my_kb.Publication.{Publication, Status, published, unpublished, is_valid, is_published}

pub data RepoErr : Type 0 where
  invalid not_found conflict revision_conflict stored_invalid database : RepoErr

unfoldable pub has_status : Status → Publication → Bool
has_status published p = elim p.status [ published ↦ true | unpublished ↦ false ]
has_status unpublished p = elim p.status [ published ↦ false | unpublished ↦ true ]

-- The constraint kb_publications_unpublished_time.
times_fit : Status → Option ℕ → ℕ → Bool
times_fit published none at = true
times_fit unpublished (some t) at = leb at t
times_fit _ _ at = false

-- Column lengths and CHECK constraints.
unfoldable pub fits : Publication → Bool
unfolding times_fit
fits p =
    leb (count p.id) 36
    && leb (count p.knowledge_base_id) 36
    && leb (count p.publisher_id) 512
    && ltb 0 p.publisher_tenant_id
    && leb p.publisher_tenant_id 9223372036854775807
    && leb (count p.title) 160
    && leb (count p.description) 2000
    && leb (count p.usage_guidance) 2000
    && ltb 0 p.published_revision
    && ltb 0 p.row_version
    && leb p.row_version 9223372036854775807
    && leb p.created_at p.updated_at
    && leb p.created_at p.published_at
    && times_fit p.status p.unpublished_at p.published_at
    && leb (count p.last_audit_correlation_id) 128

unfoldable pub collides : Publication → Publication → Bool
collides new old = old.id == new.id || old.knowledge_base_id == new.knowledge_base_id

-- The row that an INSERT stores.
unfoldable pub as_stored : Publication → Publication
as_stored p = record p {
  created_at = column_time p.created_at;
  published_at = column_time p.published_at;
  unpublished_at = column_times p.unpublished_at;
  updated_at = column_time p.updated_at;
}

-- The caller gets back the publication that it passed, not the row.
insert : Publication → Exec Db RepoErr Publication
unfolding fits collides as_stored
insert p db =
    if not (fits (as_stored p))
    then (err database, db)
    else if any (collides (as_stored p)) db.publications
    then (err conflict, db)
    else (ok p, record db { publications = db.publications ++ (as_stored p ∷ []) })

-- Repository.Create
unfoldable pub create : Publication → Exec Db RepoErr Publication
unfolding insert statement
create candidate =
    fail_if (not (is_valid candidate) || not (is_published candidate)) invalid
      (statement database (insert candidate))

-- scanPublication; the JSON columns give back what encodeMetadata wrote.
unfoldable pub scan_publication : Option Publication → Result RepoErr Publication
scan_publication none = err not_found
scan_publication (some p) = if is_valid p then ok p else err stored_invalid

unfoldable pub has_id : String → Publication → Bool
has_id id p = p.id == id

-- Repository.Get
unfoldable pub get : String → Exec Db RepoErr Publication
unfolding has_id scan_publication statement
get id = statement database λ db. (scan_publication (find_row (has_id id) db.publications), db)

unfoldable pub is_of : String → Publication → Bool
is_of kb_id p = p.knowledge_base_id == kb_id

-- Repository.GetByKB
unfoldable pub get_by_kb : String → Exec Db RepoErr Publication
unfolding is_of scan_publication statement
get_by_kb kb_id =
    statement database λ db. (scan_publication (find_row (is_of kb_id) db.publications), db)

unfoldable pub is_published_of : String → Publication → Bool
unfolding is_of has_status
is_published_of kb_id p = is_of kb_id p && has_status published p

-- Repository.GetPublishedByKB
unfoldable pub get_published_by_kb : String → Exec Db RepoErr Publication
unfolding is_published_of scan_publication statement
get_published_by_kb kb_id =
    statement database
      λ db. (scan_publication (find_row (is_published_of kb_id) db.publications), db)

-- The loop over the rows: the first that does not validate ends it.
unfoldable pub scan_all : List Publication → Result RepoErr (List Publication)
unfolding scan_publication
scan_all [] = ok []
scan_all (p ∷ ps) =
    let rest = scan_all ps in
    elim (scan_publication (some p)) [
      | err e ↦ err e
      | ok x ↦ elim rest [ err e ↦ err e | ok xs ↦ ok (x ∷ xs) ]
    ]

-- ORDER BY updated_at DESC, id
unfoldable pub before : (String → String → Bool) → Publication → Publication → Bool
before collate a b =
    ltb b.updated_at a.updated_at || (a.updated_at =ℕ= b.updated_at && collate a.id b.id)

-- Repository.ListPublished
unfoldable pub list_published : (String → String → Bool) → Exec Db RepoErr (List Publication)
unfolding before scan_all has_status statement
list_published collate =
    statement database λ db.
      (scan_all (order_by (before collate) (select (has_status published) db.publications)), db)

-- UPDATE ... SET change WHERE p RETURNING ...: nothing is written when a new row breaks a constraint.
returning :
    (Publication → Bool)
    → (Publication → Publication)
    → Option Publication
    → Exec Db RepoErr Publication
unfolding fits scan_publication
returning p change none db = (err revision_conflict, db)
returning p change (some x) db =
    if fits (change x)
    then (
      scan_publication (some (change x)),
      record db { publications = update_where p change db.publications },
    )
    else (err database, db)

unfoldable pub is_version : String → ℕ → Publication → Bool
is_version id expected p = p.id == id && p.row_version =ℕ= expected

unfoldable pub rewritten : Publication → Publication → Publication
rewritten candidate p = record p {
  title = candidate.title;
  description = candidate.description;
  tags = candidate.tags;
  usage_guidance = candidate.usage_guidance;
  audience = candidate.audience;
  access_mode = candidate.access_mode;
  status = published;
  published_revision = candidate.published_revision;
  published_at = column_time candidate.published_at;
  unpublished_at = none;
  updated_at = column_time candidate.updated_at;
  row_version = p.row_version + 1;
  last_audit_correlation_id = candidate.last_audit_correlation_id;
}

-- Repository.Update
unfoldable pub update : Publication → ℕ → Exec Db RepoErr Publication
unfolding rewritten is_version returning statement
update candidate expected =
    fail_if (not (is_valid candidate) || not (is_published candidate) || ltb expected 1) invalid (
      statement database λ db.
        returning (is_version candidate.id expected) (rewritten candidate)
          (find_row (is_version candidate.id expected) db.publications) db)

unfoldable pub is_published_version : String → ℕ → Publication → Bool
unfolding is_version has_status
is_published_version id expected p = is_version id expected p && has_status published p

unfoldable pub withdrawn : ℕ → String → Publication → Publication
withdrawn at correlation_id p = record p {
  status = unpublished;
  unpublished_at = some (column_time at);
  updated_at = column_time at;
  row_version = p.row_version + 1;
  last_audit_correlation_id = correlation_id;
}

-- Repository.Unpublish
unfoldable pub unpublish : String → ℕ → String → ℕ → Exec Db RepoErr Publication
unfolding withdrawn is_published_version returning statement
unpublish id expected correlation_id at =
    fail_if (id == "" || ltb expected 1 || correlation_id == "" || at =ℕ= 0) invalid (
      statement database λ db.
        returning (is_published_version id expected) (withdrawn at correlation_id)
          (find_row (is_published_version id expected) db.publications) db)
