-- ===== src/Db.antt =====
-- The database that the repositories share, and what one request takes from outside the program.
-- A statement may fail without effect: `faults` says of each statement to come whether it does.
pub mod Times
pub mod Transactions
use my_kb.Prelude.{ℕ, Bool, false, String, Option, List, [], ◌∷◌, if◌then◌else◌}
use my_kb.Result.{Result, ok, err, Exec}
use my_kb.Http.{Upstream}
use my_kb.Profile.{Profile}
use my_kb.Grant.{Grant}
use my_kb.Publication.{Publication}
use my_kb.Subscription.{Subscription}
use my_kb.Revision.{ContentRevision, Activity}
use my_kb.Audit

pub record Db : Type 0 where
  pub profiles : List Profile
  pub grants : List Grant
  pub publications : List Publication
  pub subscriptions : List Subscription
  pub revisions : List ContentRevision
  pub activities : List Activity
  pub audit_log : List Audit.Event
  pub faults : List Bool

abbrev pub failing : List Bool → Bool
failing [] = false
failing (f ∷ fs) = f

abbrev pub later : List Bool → List Bool
later [] = []
later (f ∷ fs) = fs

module _ {E A : Type 0} where
  -- One ExecContext or QueryContext: it fails with `e`, or the server does `body`.
  unfoldable pub statement : E → Exec Db E A → Exec Db E A
  statement e body db =
      let next = record db { faults = later db.faults } in
      if failing db.faults then (err e, next) else body next

  rolled_back : Db → Result E A × Db → Result E A × Db
  rolled_back start (r, db) = (r, record start { faults = db.faults })

  committed : E → Db → Result E A × Db → Result E A × Db
  unfolding rolled_back
  committed e start (err x, db) = rolled_back start (err x, db)
  committed e start (ok a, db) =
      let next = record db { faults = later db.faults } in
      if failing db.faults then rolled_back start (err e, next) else (ok a, next)

  -- BeginTx, the body, and Commit; an error on the way rolls the tables back.
  unfoldable pub transaction : E → E → Exec Db E A → Exec Db E A
  unfolding committed statement
  transaction begin_error commit_error body =
      statement begin_error λ db. committed commit_error db (body db)

-- The clock's reading during the request, the identifiers that crypto/rand gives (`none` when
-- it fails), whether an audit recorder is configured, and the calls of libraries
-- and of the upstream: the length of a marshalled object, strings.ToLower, the order of texts in
-- the database's collation.
pub record Env : Type 0 where
  pub now : ℕ
  pub new_id : Option String
  pub audit_id : Option String
  pub activity_id : Option String
  pub auditing : Bool
  pub json_size : Audit.Value → ℕ
  pub upstream : Upstream
  pub to_lower : String → String
  pub collate : String → String → Bool
